-- ===== src/Bridge/Options/Ldm.antt =====
-- The zstd options that the bridge accepts: the documented ranges and the two LDM rules.
use pyhdiff.Base.{◌≤◌, ◌≡◌, ◌↔◌, ◌⊎◌, inl, inr, refl, true, Bool-cases, arith}
use pyhdiff.Base.Int.{ℤ, pos, negsuc}
use pyhdiff.Bridge.Throw.{done}
use pyhdiff.Bridge.Options.{
  ZstdOptions, Options, within, is_zero, natural, zstd_ranges, bucket_fits, tuning_allowed,
  carried_zstd, zstd_options,
}
use pyhdiff.Bridge.Options.Ranges.{
  IsIn, IsInOrAutomatic, IsRefused, within-eq-true, automatic_or-eq-true, IsIn-natural,
  IsInOrAutomatic-natural,
}

-- The ranges that bridge.h and the README document for zstd.
pub record InZstdRanges (o : ZstdOptions) : Type 0 where
  pub level : IsIn 1 22 o.level
  pub window_log : IsInOrAutomatic 10 30 o.window_log
  pub ldm : IsIn 0 2 o.ldm
  pub content_size : IsIn 0 1 o.content_size
  pub checksum : IsIn 0 1 o.checksum
  pub ldm_hash_log : IsInOrAutomatic 6 23 o.ldm_hash_log
  pub ldm_min_match : IsInOrAutomatic 4 4096 o.ldm_min_match
  pub ldm_bucket_log : IsInOrAutomatic 1 8 o.ldm_bucket_log
  pub ldm_rate_log : IsInOrAutomatic 1 24 o.ldm_rate_log

zstd_ranges-InZstdRanges : (o : ZstdOptions) → zstd_ranges o ≡ true → InZstdRanges o
unfolding zstd_ranges
zstd_ranges-InZstdRanges o h = record {
  level = (within-eq-true o.level 1 22).0 (ground arith);
  window_log = (automatic_or-eq-true o.window_log 10 30).0 (ground arith);
  ldm = (within-eq-true o.ldm 0 2).0 (ground arith);
  content_size = (within-eq-true o.content_size 0 1).0 (ground arith);
  checksum = (within-eq-true o.checksum 0 1).0 (ground arith);
  ldm_hash_log = (automatic_or-eq-true o.ldm_hash_log 6 23).0 (ground arith);
  ldm_min_match = (automatic_or-eq-true o.ldm_min_match 4 4096).0 (ground arith);
  ldm_bucket_log = (automatic_or-eq-true o.ldm_bucket_log 1 8).0 (ground arith);
  ldm_rate_log = (automatic_or-eq-true o.ldm_rate_log 1 24).0 (ground arith);
}

zstd_ranges-of_InZstdRanges : (o : ZstdOptions) → InZstdRanges o → zstd_ranges o ≡ true
unfolding zstd_ranges
zstd_ranges-of_InZstdRanges o r =
    rw
      (
        (within-eq-true o.level 1 22).1 r.level,
        (automatic_or-eq-true o.window_log 10 30).1 r.window_log,
        (within-eq-true o.ldm 0 2).1 r.ldm,
        (within-eq-true o.content_size 0 1).1 r.content_size,
        (within-eq-true o.checksum 0 1).1 r.checksum,
        (automatic_or-eq-true o.ldm_hash_log 6 23).1 r.ldm_hash_log,
        (automatic_or-eq-true o.ldm_min_match 4 4096).1 r.ldm_min_match,
        (automatic_or-eq-true o.ldm_bucket_log 1 8).1 r.ldm_bucket_log,
        (automatic_or-eq-true o.ldm_rate_log 1 24).1 r.ldm_rate_log,
      )
      refl

-- An explicit hash log holds the bucket log, and LDM values are set only where LDM is on.
pub record KeepsLdmRules (o : ZstdOptions) : Type 0 where
  pub bucket : (o.ldm_hash_log ≡ pos 0) ⊎ (natural o.ldm_bucket_log ≤ natural o.ldm_hash_log)
  pub tuned :
      (o.ldm ≡ pos 1)
      ⊎ ((o.ldm_hash_log ≡ pos 0)
          × (o.ldm_min_match ≡ pos 0)
          × (o.ldm_bucket_log ≡ pos 0)
          × (o.ldm_rate_log ≡ pos 0))

-- The option set has the numbers of the profile, and no setting of HDiffPatch.
pub record CarriesZstd (o : ZstdOptions) (out : Options) : Type 0 where
  pub level : pos out.level ≡ o.level
  pub window_log : pos out.window_log ≡ o.window_log
  pub ldm : pos out.ldm ≡ o.ldm
  pub content_size : pos out.content_size ≡ o.content_size
  pub checksum : pos out.checksum ≡ o.checksum
  pub ldm_hash_log : pos out.ldm_hash_log ≡ o.ldm_hash_log
  pub ldm_min_match : pos out.ldm_min_match ≡ o.ldm_min_match
  pub ldm_bucket_log : pos out.ldm_bucket_log ≡ o.ldm_bucket_log
  pub ldm_rate_log : pos out.ldm_rate_log ≡ o.ldm_rate_log
  pub workers : out.workers ≡ 0

is_zero-eq-true : (v : ℤ) → (is_zero v ≡ true) ↔ (v ≡ pos 0)
is_zero-eq-true (pos v) = (λ h. ground arith, λ h. ground arith)
is_zero-eq-true (negsuc v) = (λ h. cc, λ h. cc)

within-one : (v : ℤ) → (within v 1 1 ≡ true) ↔ (v ≡ pos 1)
within-one (pos v) = (λ h. ground arith, λ h. ground arith)
within-one (negsuc v) = (λ h. cc, λ h. cc)

bucket_fits-eq-true :
    (o : ZstdOptions)
    → (bucket_fits o ≡ true)
      ↔ ((o.ldm_hash_log ≡ pos 0) ⊎ (natural o.ldm_bucket_log ≤ natural o.ldm_hash_log))
unfolding bucket_fits
bucket_fits-eq-true o =
    let z = is_zero-eq-true o.ldm_hash_log in (λ h. ground (arith, z), λ h. ground (arith, z))

tuning_allowed-eq-true :
    (o : ZstdOptions)
    → (tuning_allowed o ≡ true) ↔ (
        (o.ldm ≡ pos 1)
        ⊎ ((o.ldm_hash_log ≡ pos 0)
            × (o.ldm_min_match ≡ pos 0)
            × (o.ldm_bucket_log ≡ pos 0)
            × (o.ldm_rate_log ≡ pos 0)))
unfolding tuning_allowed
tuning_allowed-eq-true o =
    let on = within-one o.ldm in
    let a = is_zero-eq-true o.ldm_hash_log in
    let b = is_zero-eq-true o.ldm_min_match in
    let c = is_zero-eq-true o.ldm_bucket_log in
    let d = is_zero-eq-true o.ldm_rate_log in
    (λ h. ground (arith, on, a, b, c, d), λ h. ground (arith, on, a, b, c, d))

carried_zstd-CarriesZstd : (o : ZstdOptions) → InZstdRanges o → CarriesZstd o (carried_zstd o)
carried_zstd-CarriesZstd o r = record {
  level = IsIn-natural _ _ o.level r.level;
  window_log = IsInOrAutomatic-natural _ _ o.window_log r.window_log;
  ldm = IsIn-natural _ _ o.ldm r.ldm;
  content_size = IsIn-natural _ _ o.content_size r.content_size;
  checksum = IsIn-natural _ _ o.checksum r.checksum;
  ldm_hash_log = IsInOrAutomatic-natural _ _ o.ldm_hash_log r.ldm_hash_log;
  ldm_min_match = IsInOrAutomatic-natural _ _ o.ldm_min_match r.ldm_min_match;
  ldm_bucket_log = IsInOrAutomatic-natural _ _ o.ldm_bucket_log r.ldm_bucket_log;
  ldm_rate_log = IsInOrAutomatic-natural _ _ o.ldm_rate_log r.ldm_rate_log;
  workers = refl;
}

-- An accepted profile is within the documented ranges, keeps the LDM rules and has its numbers
-- carried over; a profile that is not accepted is refused with the option status.
pub zstd_options-InZstdRanges :
    (o : ZstdOptions)
    → (InZstdRanges o
        × KeepsLdmRules o
        × ((out : Options) × (zstd_options o ≡ done out) × CarriesZstd o out))
      ⊎ ((¬ (InZstdRanges o × KeepsLdmRules o)) × IsRefused (zstd_options o))
unfolding zstd_options
zstd_options-InZstdRanges o = elim (Bool-cases (zstd_ranges o)) [
  | inr n ↦ inr (λ k. (let y = zstd_ranges-of_InZstdRanges o k.0 in cc), rw n refl)
  | inl y ↦ elim (Bool-cases (bucket_fits o)) [
    | inr n ↦ inr (λ k. (let z = (bucket_fits-eq-true o).1 k.1.bucket in cc), rw (y, n) refl)
    | inl b ↦ elim (Bool-cases (tuning_allowed o)) [
      | inr n ↦ inr (λ k. (let z = (tuning_allowed-eq-true o).1 k.1.tuned in cc), rw (y, b, n) refl)
      | inl t ↦
          let r = zstd_ranges-InZstdRanges o y in
          inl (
            r,
            record { bucket = (bucket_fits-eq-true o).0 b; tuned = (tuning_allowed-eq-true o).0 t },
            (carried_zstd o, rw (y, b, t) refl, carried_zstd-CarriesZstd o r),
          )
    ]
  ]
]
