-- ===== src/Bridge/Frame/Window.antt =====
-- The window that `frame_decompress` allows: the output bound rounded up to a power of two.
use pyhdiff.Base.{ℕ, zero, suc, ◌+◌, ◌-◌, ◌^◌, ◌≤◌, ◌<◌, ◌≡◌, ◌⊎◌, inl, inr, refl, arith}
use pyhdiff.Bridge.Frame.{window_loop, window_for}
use pyhdiff.Status.{frame_max}
use native.Mathlib.Decide.{dec_lt}

-- The window holds the bound, and is the least from 10 on that does.
abbrev pub IsLeastWindow : ℕ → ℕ → Type 0
IsLeastWindow m w = (m ≤ 2 ^ w) × (10 ≤ w) × (w ≤ 30) × ((w ≡ 10) ⊎ (2 ^ (w - 1) < m))

window_loop_widen :
    (rounds window m : ℕ)
    → window < 30
    → 2 ^ window < m
    → window_loop (suc rounds) window m ≡ window_loop rounds (window + 1) m
unfolding window_loop
window_loop_widen rounds window m h k = ground arith

window_loop_stop :
    (rounds window m : ℕ) → m ≤ 2 ^ window → window_loop (suc rounds) window m ≡ window
unfolding window_loop
window_loop_stop rounds window m h = ground arith

window_loop-IsLeastWindow :
    (rounds window m : ℕ)
    → window + rounds ≡ 30
    → m ≤ 2 ^ 30
    → 10 ≤ window
    → ((window ≡ 10) ⊎ (2 ^ (window - 1) < m))
    → IsLeastWindow m (window_loop rounds window m)
window_loop-IsLeastWindow zero window m h hm low inv =
    let e : window ≡ 30 = omega arith in unfold window_loop in (rw e hm, low, omega arith, inv)
window_loop-IsLeastWindow (suc rounds) window m h hm low inv = elim (dec_lt (2 ^ window) m) [
  | yes small ↦
      let e : window + 1 - 1 ≡ window = omega arith in
      rw (window_loop_widen rounds window m (omega arith) small) (
        window_loop-IsLeastWindow rounds (window + 1) m (omega arith) hm (omega arith)
          (inr (rw e small)))
  | no fits ↦
      let holds : m ≤ 2 ^ window = omega arith in
      rw (window_loop_stop rounds window m holds) (holds, low, omega arith, inv)
]

-- For every bound up to FRAME_MAX the window holds the bound, is from 10 to 30, and is the least
-- such from 10 on: one less would not hold the bound.
pub window_for-IsLeastWindow :
    (max_output : ℕ) → max_output ≤ frame_max → IsLeastWindow max_output (window_for max_output)
unfolding window_for
window_for-IsLeastWindow m h = window_loop-IsLeastWindow 20 10 m refl h (omega arith) (inl refl)
