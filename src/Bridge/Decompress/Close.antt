-- ===== src/Bridge/Decompress/Close.antt =====
-- `close` of the plugin.
use mathlib.Core.Path.{subst}
use pyhdiff.Base.{
  ℕ, zero, suc, ◌+◌, ◌-◌, ◌<◌, ◌≡◌, ◌≢◌, ◌⊎◌, refl, true, false, not, ◌&&◌, ◌||◌, [], ◌∷◌, Bytes,
  length, drop, drop-all, length-drop, ◌==◌, ==_iff, arith, inl, inr, Bool-cases,
}
use pyhdiff.Status.{status_invalid}
use pyhdiff.Bridge.Throw.{
  diverges, done, done_through, done-injective, ne-diverges_through, require, require_ok,
}
use pyhdiff.Bridge.Zstd.{Decoder, Step, value, zcheck, zcheck_ok, zcheck-ne-diverges}
use pyhdiff.Bridge.Decompress.{
  Plugin, left, refill, advanced, close_round, close_loop, close_fuel, close,
}
use pyhdiff.Bridge.Decompress.View.{
  IsValid, view, unread, Refilled, refill_lem, refill-ne-diverges, advanced-IsValid, Feeds, fed,
  Feeds-trans, Feeds-advanced,
}

eq-nil : (b : Bytes) → (length b == 0) ≡ true → b ≡ []
eq-nil [] h = refl
eq-nil (x ∷ b) h = absurd (omega (arith, (==_iff _ 0).0 h))

module _ (Z : Decoder) where
  open Z use {Ctx, decompress_stream, memory_allocation}

  -- What a round that returns has done: it wrote nothing, and read a byte or ended the frame.
  record Drained (p q : Plugin Ctx) : Type 0 where
    valid : IsValid q
    progress : (q.finished ≡ true) ⊎ (left q < left p)
    feeds : Feeds Z (view p) [] (view q)

  Drained-advanced :
      (p q : Plugin Ctx) (r : ℕ)
      → Refilled p q
      → p.finished ≡ false
      → Step.code (decompress_stream q.ctx (drop q.at q.input) 1) ≡ value r
      → Step.produced (decompress_stream q.ctx (drop q.at q.input) 1) ≡ []
      → (r == 0 || not (Step.consumed (decompress_stream q.ctx (drop q.at q.input) 1) == 0)) ≡ true
      → Drained p (advanced q (decompress_stream q.ctx (drop q.at q.input) 1) r)
  Drained-advanced p q r f open' code silent moved =
      let s = decompress_stream q.ctx (drop q.at q.input) 1 in
      let within = Z.consumed-le q.ctx (drop q.at q.input) 1 in
      record {
        valid = advanced-IsValid q s r f.valid within;
        progress = elim (read_or_ended s.consumed moved) [
          | inl ended ↦ inl ended
          | inr reads ↦ inr (omega (arith, f.same_left, length-drop q.at q.input))
        ];
        feeds = rw silent at (Feeds-advanced Z p q 1 r f open' code);
      }
    where
      read_or_ended : (n : ℕ) → (r == 0 || not (n == 0)) ≡ true → ((r == 0) ≡ true) ⊎ (0 < n)
      read_or_ended n h = ground arith

  close_round_lem :
      (p : Plugin Ctx) {q : Plugin Ctx}
      → IsValid p
      → p.finished ≡ false
      → close_round Z p ≡ done q
      → Drained p q
  unfolding close_round
  close_round_lem p v open' e =
      let (q, f, e₁) = done_through (refill p) _ e in
      let s = decompress_stream q.ctx (drop q.at q.input) 1 in
      let (n, z, e₂) = done_through (zcheck memory_allocation s.code) _ e₁ in
      let (_, o, e₃) = done_through (require (length s.produced == 0) status_invalid) _ e₂ in
      let (_, m, e₄) =
        done_through (require (n == 0 || not (s.consumed == 0)) status_invalid) _ e₃ in
      subst (Drained p) (done-injective e₄) (
        Drained-advanced p q n (refill_lem p v f) open' (zcheck_ok memory_allocation s.code z)
          (eq-nil s.produced (require_ok _ _ o)) (require_ok _ _ m))

  close_round-ne-diverges : (p : Plugin Ctx) → close_round Z p ≢ diverges
  unfolding close_round
  close_round-ne-diverges p = ne-diverges_through (refill p) _ (refill-ne-diverges p) λ q _.
      ne-diverges_through
        (zcheck memory_allocation (Step.code (decompress_stream q.ctx (drop q.at q.input) 1))) _
        (zcheck-ne-diverges memory_allocation _) λ n _. ground arith

  -- One round is left for the end of the frame.
  close_loop-ne-diverges :
      (fuel : ℕ) (p : Plugin Ctx)
      → IsValid p
      → ((p.finished ≡ true) × (0 < fuel)) ⊎ (left p + 1 < fuel)
      → close_loop Z fuel p ≢ diverges
  unfolding close_loop
  close_loop-ne-diverges zero p v (inl (_, h)) = absurd (omega arith)
  close_loop-ne-diverges zero p v (inr h) = absurd (omega arith)
  close_loop-ne-diverges (suc fuel) p v (inl (ended, h)) = rw (ended, close_loop) (λ e. cc)
  close_loop-ne-diverges (suc fuel) p v (inr h) = elim (Bool-cases p.finished) [
    | inl ended ↦ rw (ended, close_loop) (λ e. cc)
    | inr goes ↦
        rw (goes, close_loop)
          (ne-diverges_through (close_round Z p) _ (close_round-ne-diverges p) λ q e.
            let d = close_round_lem p v goes e in
            close_loop-ne-diverges fuel q d.valid (elim d.progress [
              | inl ended ↦ inl (ended, omega arith)
              | inr reads ↦ inr (omega arith)
            ]))
  ]

  close_loop_done :
      (fuel : ℕ) (p : Plugin Ctx) {q : Plugin Ctx}
      → IsValid p
      → close_loop Z fuel p ≡ done q
      → IsValid q × (q.finished ≡ true) × Feeds Z (view p) [] (view q)
  unfolding close_loop
  close_loop_done zero p v e = cc
  close_loop_done (suc fuel) p {q} v e = elim (Bool-cases p.finished) [
    | inl ended ↦ rw (← done-injective (rw (ended, close_loop) at e)) (v, ended, fed (view p))
    | inr goes ↦
        let (r, x, rest) = done_through (close_round Z p) _ (rw (goes, close_loop) at e) in
        let d = close_round_lem p v goes x in
        let (valid, ended, feeds) = close_loop_done fuel r d.valid rest in
        (valid, ended, Feeds-trans Z d.feeds feeds)
  ]

  pub close-ne-diverges : (p : Plugin Ctx) → IsValid p → close Z p ≢ diverges
  unfolding close
  close-ne-diverges p v = elim (Bool-cases (p.remaining == 0)) [
    | inr some' ↦ rw (some', close) (λ e. cc)
    | inl none' ↦
        rw (none', close)
          (ne-diverges_through (close_loop Z (close_fuel p) p) _
            (close_loop-ne-diverges (close_fuel p) p v (inr (omega arith))) λ q _ e. cc)
  ]

  unread-nil : (p : Plugin Ctx) → p.pos ≡ p.stop → p.at ≡ length p.input → unread p ≡ []
  unread-nil p h k =
      let none' : p.stop - p.pos ≡ 0 = omega arith in
      rw (none', drop-all p.at p.input (omega arith)) refl

  -- A `close` that succeeds finds no output missing, and the decoder at the end of its frame with
  -- nothing left to read.
  pub close-true :
      (p : Plugin Ctx)
      → IsValid p
      → close Z p ≡ done true
      → (p.remaining ≡ 0)
        × ((c : Ctx) × Feeds Z (view p) [] (record { ctx = c; rest = []; finished = true }))
  unfolding close
  close-true p v e = elim (Bool-cases (p.remaining == 0)) [
    | inr some' ↦ let wrong : false ≡ true = done-injective (rw (some', close) at e) in cc
    | inl none' ↦
        let (q, x, w) = done_through (close_loop Z (close_fuel p) p) _ (rw (none', close) at e) in
        let (valid, ended, feeds) = close_loop_done (close_fuel p) p v x in
        let (at_stop, at_end) = both q.pos q.stop q.at (length q.input) (done-injective w) in
        let empty : unread q ≡ [] = unread-nil q at_stop at_end in
        ((==_iff _ _).0 none', (q.ctx, rw (empty, ended) at feeds))
  ]
    where
      both : (a b c d : ℕ) → (a == b && c == d) ≡ true → (a ≡ b) × (c ≡ d)
      both a b c d h = ground arith
