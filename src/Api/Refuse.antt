-- ===== src/Api/Refuse.antt =====
-- What `apply` refuses, and that it refuses a wrong base before it decodes anything.
use pyhdiff.Base.{◌≡◌, ◌≢◌, true, Bytes, length, arith, bytes_eq→eq, bytes_eq_refl, ◌⊎◌}
use pyhdiff.Base.Int.{ℤ, ltb_ℤ}
use pyhdiff.Errors.{ok, Raises, base_mismatch_error, limit_error, integrity_error}
use pyhdiff.Native.{Native}
use pyhdiff.Api.{bytes_object, Header, Hash, inspect, output_limit, decode, apply_checked, apply}

-- The base is the one that the header records.
abbrev pub IsRecordedBase : Hash → Bytes → Header → Type 0
IsRecordedBase H base h = (h.base_length ≡ length base) × (h.base_sha256 ≡ H.digest base)

-- The recorded target is longer than the caller's limit or RAW_MAX.
abbrev pub IsTooLong : ℤ → Header → Type 0
IsTooLong max_output h = ltb_ℤ (output_limit max_output) h.target_length ≡ true

module _ (H : Hash) (N : Native) where
  apply_checked_wrong_base :
      (base blob : Bytes) (m : ℤ) (h : Header)
      → ¬ IsRecordedBase H base h
      → Raises
          (λ e.
            (e.cls ≡ base_mismatch_error)
            ⊎ ((e.cls ≡ limit_error) × IsTooLong m h × (h.base_length ≡ length base)))
          (apply_checked H N base blob m h)
  unfolding apply_checked
  apply_checked_wrong_base base blob m h wrong =
      ground (arith, bytes_eq→eq (H.digest base) h.base_sha256)

  -- On a base that is not the recorded one `apply` raises `BaseMismatchError`, except that a
  -- target over the output limit is reported first where the base has the recorded length.
  pub apply_wrong_base :
      (base blob : Bytes) (max_output : ℤ) (h : Header)
      → inspect (bytes_object blob) ≡ ok h
      → ¬ IsRecordedBase H base h
      → Raises
          (λ e.
            (e.cls ≡ base_mismatch_error)
            ⊎ ((e.cls ≡ limit_error) × IsTooLong max_output h × (h.base_length ≡ length base)))
          (apply H N (bytes_object base) (bytes_object blob) max_output)
  unfolding apply
  apply_wrong_base base blob m h read wrong = rw read (apply_checked_wrong_base base blob m h wrong)

  -- A reconstruction with another SHA-256 is not returned: `apply` raises `IntegrityError`.
  apply_checked_integrity :
      (base blob : Bytes) (m : ℤ) (h : Header) (t : Bytes)
      → IsRecordedBase H base h
      → ¬ IsTooLong m h
      → decode H N h.codec base blob h.target_length ≡ ok t
      → h.target_sha256 ≢ H.digest t
      → Raises (λ e. e.cls ≡ integrity_error) (apply_checked H N base blob m h)
  unfolding apply_checked
  apply_checked_integrity base blob m h t b short decoded differ =
      ground (arith, bytes_eq→eq (H.digest t) h.target_sha256, bytes_eq_refl (H.digest base))

  pub apply_integrity :
      (base blob : Bytes) (max_output : ℤ) (h : Header) (t : Bytes)
      → inspect (bytes_object blob) ≡ ok h
      → IsRecordedBase H base h
      → ¬ IsTooLong max_output h
      → decode H N h.codec base blob h.target_length ≡ ok t
      → h.target_sha256 ≢ H.digest t
      → Raises
          (λ e. e.cls ≡ integrity_error)
          (apply H N (bytes_object base) (bytes_object blob) max_output)
  unfolding apply
  apply_integrity base blob m h t read b short decoded differ =
      rw read (apply_checked_integrity base blob m h t b short decoded differ)

-- For a wrong base the result does not depend on the decoders: none of them is called.
apply_checked_undecoded :
    (H : Hash) (N N' : Native) (base blob : Bytes) (m : ℤ) (h : Header)
    → ¬ IsRecordedBase H base h
    → apply_checked H N base blob m h ≡ apply_checked H N' base blob m h
unfolding apply_checked
apply_checked_undecoded H N N' base blob m h wrong =
    ground (arith, bytes_eq→eq (H.digest base) h.base_sha256)

pub apply_undecoded :
    (H : Hash) (N N' : Native) (base blob : Bytes) (max_output : ℤ) (h : Header)
    → inspect (bytes_object blob) ≡ ok h
    → ¬ IsRecordedBase H base h
    → apply H N (bytes_object base) (bytes_object blob) max_output
      ≡ apply H N' (bytes_object base) (bytes_object blob) max_output
unfolding apply
apply_undecoded H N N' base blob m h read wrong =
    rw read (apply_checked_undecoded H N N' base blob m h wrong)
