-- ===== src/Bridge/Tuning/Laws.antt =====
-- The tuned parameters stay in their ranges.
use pyhdiff.Base.{
  ℕ, zero, suc, ◌+◌, ◌-◌, ◌/◌, ◌^◌, ◌≤◌, ◌<◌, ◌≡◌, ◌≢◌, ◌⊎◌, inl, inr, refl, ◌==◌, Bool-cases,
  arith,
}
use native.Mathlib.Nat.{pow-suc}
use pyhdiff.Bridge.Options.{Options}
use pyhdiff.Bridge.Tuning.{Presets, Window, log_loop, log_of, window_of, hash_log_of}

-- `log` is the number of binary digits of `n`.
abbrev pub IsBitLength : ℕ → ℕ → Type 0
IsBitLength n log = (n < 2 ^ log) × ((log ≡ 0) ⊎ (2 ^ (log - 1) ≤ n))

suc_sub_one : (i : ℕ) → suc i - 1 ≡ i
suc_sub_one i = omega arith

doubled-IsBitLength : (n k : ℕ) → n ≢ 0 → IsBitLength (n / 2) k → IsBitLength n (suc k)
doubled-IsBitLength n zero h (lt, _) = (omega (arith, pow-suc 2 0), inr (omega arith))
doubled-IsBitLength n (suc j) h (lt, low) = (
  omega (arith, pow-suc 2 (suc j)),
  inr (rw (suc_sub_one (suc j)) (omega (arith, pow-suc 2 j, rw (suc_sub_one j) at low))),
)

log_loop_lem :
    (fuel n log : ℕ) → n < 2 ^ fuel → (k : ℕ) × (log_loop fuel n log ≡ log + k) × IsBitLength n k
unfolding log_loop
log_loop_lem zero n log h = (0, omega arith, (h, inl refl))
log_loop_lem (suc fuel) n log h = elim (Bool-cases (n == 0)) [
  | inl none' ↦ (0, rw none' (omega arith), (ground arith, inl refl))
  | inr some' ↦
      let (k, e, b) = log_loop_lem fuel (n / 2) (log + 1) (omega (arith, pow-suc 2 fuel)) in
      (suc k, rw some' (omega arith), doubled-IsBitLength n k (ground arith) b)
]

-- For every size of 64 bits the loop counts the binary digits.
pub log_of-IsBitLength : (n : ℕ) → n < 2 ^ 64 → IsBitLength n (log_of n)
unfolding log_of
log_of-IsBitLength n h =
    let (k, e, b) = log_loop_lem 64 n 0 h in
    let same : k ≡ log_loop 64 n 0 = omega arith in rw (← same) b

-- The window that is set for an encoding with a base is 0 or from 10 to 30, if the option is.
pub window_of_range :
    (P : Presets) (o : Options) (base_size target_size : ℕ)
    → (o.window_log ≡ 0) ⊎ ((10 ≤ o.window_log) × (o.window_log ≤ 30))
    → (((window_of P o base_size target_size).log ≡ 0)
        ⊎ ((10 ≤ (window_of P o base_size target_size).log)
            × ((window_of P o base_size target_size).log ≤ 30)))
unfolding window_of
window_of_range P o b t h = ground arith

-- The hash log that is set holds the bucket log: a bucket is never larger than the table.
pub bucket-le-hash_log_of :
    (P : Presets) (o : Options) (w : Window) (base_size target_size : ℕ)
    → (o.ldm_hash_log ≡ 0) ⊎ (o.ldm_bucket_log ≤ o.ldm_hash_log)
    → o.ldm_bucket_log ≤ hash_log_of P o w base_size target_size
unfolding hash_log_of
bucket-le-hash_log_of P o w b t h = ground arith
