-- ===== src/Bridge/Options/Ranges.antt =====
-- The options that the bridge accepts are those in the documented ranges.
use pyhdiff.Base.{ℕ, ◌≤◌, ◌≡◌, ◌↔◌, ◌⊎◌, inl, inr, refl, Bool, true, false, ◌&&◌, Bool-cases, arith}
use pyhdiff.Base.Int.{ℤ, pos, negsuc}
use pyhdiff.Status.{status_option}
use pyhdiff.Bridge.Throw.{Cpp, done, throw, failure}
use pyhdiff.Bridge.Options.{
  HdiffOptions, Options, within, automatic_or, natural, hdiff_ranges, carried_hdiff, hdiff_options,
}

-- The `int` is a number from `low` to `high`.
abbrev pub IsIn : ℕ → ℕ → ℤ → Type 0
IsIn low high (pos v) = (low ≤ v) × (v ≤ high)
IsIn low high (negsuc v) = ⊥

pub within-eq-true : (v : ℤ) (low high : ℕ) → (within v low high ≡ true) ↔ IsIn low high v
within-eq-true (pos v) low high = (λ h. ground arith, λ h. ground arith)
within-eq-true (negsuc v) low high = (λ h. cc, λ h. absurd h)

-- 0 stands for automatic.
abbrev pub IsInOrAutomatic : ℕ → ℕ → ℤ → Type 0
IsInOrAutomatic low high v = (v ≡ pos 0) ⊎ IsIn low high v

pub automatic_or-eq-true :
    (v : ℤ) (low high : ℕ) → (automatic_or v low high ≡ true) ↔ IsInOrAutomatic low high v
automatic_or-eq-true (pos v) low high = (λ h. ground arith, λ h. ground arith)
automatic_or-eq-true (negsuc v) low high = (λ h. cc, λ h. ground arith)

and-eq-true : (a b : Bool) → ((a && b) ≡ true) ↔ ((a ≡ true) × (b ≡ true))
and-eq-true true b = (λ h. (refl, h), λ h. h.1)
and-eq-true false b = (λ h. cc, λ h. cc)

-- The ranges that bridge.h and the README document for HDiffPatch.
pub record InHdiffRanges (o : HdiffOptions) : Type 0 where
  pub match_score : IsIn 0 64 o.match_score
  pub level : IsIn 1 22 o.level
  pub window_log : IsIn 10 23 o.window_log
  pub fast_block_bytes : IsInOrAutomatic 4 1048576 o.fast_block_bytes
  pub step_bytes : IsIn 4096 262144 o.step_bytes
  pub content_size : IsIn 0 1 o.content_size
  pub checksum : IsIn 0 1 o.checksum

hdiff_ranges-InHdiffRanges : (o : HdiffOptions) → hdiff_ranges o ≡ true → InHdiffRanges o
unfolding hdiff_ranges
hdiff_ranges-InHdiffRanges o h = record {
  match_score = (within-eq-true o.match_score 0 64).0 (ground arith);
  level = (within-eq-true o.level 1 22).0 (ground arith);
  window_log = (within-eq-true o.window_log 10 23).0 (ground arith);
  fast_block_bytes = (automatic_or-eq-true o.fast_block_bytes 4 1048576).0 (ground arith);
  step_bytes = (within-eq-true o.step_bytes 4096 262144).0 (ground arith);
  content_size = (within-eq-true o.content_size 0 1).0 (ground arith);
  checksum = (within-eq-true o.checksum 0 1).0 (ground arith);
}

hdiff_ranges-of_InHdiffRanges : (o : HdiffOptions) → InHdiffRanges o → hdiff_ranges o ≡ true
unfolding hdiff_ranges
hdiff_ranges-of_InHdiffRanges o r =
    rw
      (
        (within-eq-true o.match_score 0 64).1 r.match_score,
        (within-eq-true o.level 1 22).1 r.level,
        (within-eq-true o.window_log 10 23).1 r.window_log,
        (automatic_or-eq-true o.fast_block_bytes 4 1048576).1 r.fast_block_bytes,
        (within-eq-true o.step_bytes 4096 262144).1 r.step_bytes,
        (within-eq-true o.content_size 0 1).1 r.content_size,
        (within-eq-true o.checksum 0 1).1 r.checksum,
      )
      refl

pub IsIn-natural : (low high : ℕ) (v : ℤ) → IsIn low high v → pos (natural v) ≡ v
IsIn-natural low high (pos v) h = refl
IsIn-natural low high (negsuc v) h = absurd h

pub IsInOrAutomatic-natural :
    (low high : ℕ) (v : ℤ) → IsInOrAutomatic low high v → pos (natural v) ≡ v
IsInOrAutomatic-natural low high (pos v) h = refl
IsInOrAutomatic-natural low high (negsuc v) (inl e) = cc
IsInOrAutomatic-natural low high (negsuc v) (inr h) = absurd h

-- The option set has the numbers of the profile, and 0 for the workers and for the five settings of
-- LDM.
pub record CarriesHdiff (o : HdiffOptions) (out : Options) : Type 0 where
  pub match_score : pos out.match_score ≡ o.match_score
  pub level : pos out.level ≡ o.level
  pub window_log : pos out.window_log ≡ o.window_log
  pub fast_block_bytes : pos out.fast_block_bytes ≡ o.fast_block_bytes
  pub step_bytes : pos out.step_bytes ≡ o.step_bytes
  pub content_size : pos out.content_size ≡ o.content_size
  pub checksum : pos out.checksum ≡ o.checksum
  pub workers : out.workers ≡ 0
  pub ldm : out.ldm ≡ 0
  pub ldm_hash_log : out.ldm_hash_log ≡ 0
  pub ldm_min_match : out.ldm_min_match ≡ 0
  pub ldm_bucket_log : out.ldm_bucket_log ≡ 0
  pub ldm_rate_log : out.ldm_rate_log ≡ 0

-- What a profile is turned into: its numbers, or the option status.
abbrev pub IsRefused : Cpp Options → Type 0
IsRefused r = r ≡ throw (failure status_option)

-- A profile within the documented ranges is accepted with its numbers and 0 for the workers and the
-- five settings of LDM, and any other profile is refused with the option status.
pub hdiff_options-InHdiffRanges :
    (o : HdiffOptions)
    → (InHdiffRanges o × ((out : Options) × (hdiff_options o ≡ done out) × CarriesHdiff o out))
      ⊎ ((¬ InHdiffRanges o) × IsRefused (hdiff_options o))
unfolding hdiff_options
hdiff_options-InHdiffRanges o = elim (Bool-cases (hdiff_ranges o)) [
  | inl yes' ↦
      let r = hdiff_ranges-InHdiffRanges o yes' in
      inl (
        r,
        (
          carried_hdiff o,
          rw yes' refl,
          record {
            match_score = IsIn-natural _ _ o.match_score r.match_score;
            level = IsIn-natural _ _ o.level r.level;
            window_log = IsIn-natural _ _ o.window_log r.window_log;
            fast_block_bytes = IsInOrAutomatic-natural _ _ o.fast_block_bytes r.fast_block_bytes;
            step_bytes = IsIn-natural _ _ o.step_bytes r.step_bytes;
            content_size = IsIn-natural _ _ o.content_size r.content_size;
            checksum = IsIn-natural _ _ o.checksum r.checksum;
            workers = refl;
            ldm = refl;
            ldm_hash_log = refl;
            ldm_min_match = refl;
            ldm_bucket_log = refl;
            ldm_rate_log = refl;
          },
        ),
      )
  | inr no' ↦ inr (λ r. (let yes' = hdiff_ranges-of_InHdiffRanges o r in cc), rw no' refl)
]
