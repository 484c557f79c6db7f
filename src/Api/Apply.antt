-- ===== src/Api/Apply.antt =====
-- `apply`: what it returns is verified, and nothing is decoded for a wrong base.
use pyhdiff.Base.{ℕ, ◌≤◌, ◌≡◌, sym, Bool, true, false, Bytes, length, arith, bytes_eq→eq}
use pyhdiff.Base.Int.{ℤ, pos, ltb_ℤ}
use pyhdiff.Errors.{ok, returned_through}
use pyhdiff.Native.{Native, Outcome, returned, native_error, raised, IsSized}
use pyhdiff.Status.{raw_max}
use pyhdiff.Api.{
  bytes_object, Codec, hdiff, zstd, Header, Hash, call, envelope_size, inspect, output_limit,
  decode, apply_checked, apply,
}

-- What `apply` has verified when it returns `target`.
pub record IsVerified (H : Hash) (base target : Bytes) (max_output : ℤ) (h : Header) : Type 0 where
  pub base_length : h.base_length ≡ length base
  pub base_sha256 : h.base_sha256 ≡ H.digest base
  pub target_length : h.target_length ≡ length target
  pub target_sha256 : h.target_sha256 ≡ H.digest target
  pub within : ltb_ℤ (output_limit max_output) (length target) ≡ false

pub call-eq-ok : (d : Bool) (o : Outcome) {t : Bytes} → call d o ≡ ok t → o ≡ returned t
unfolding call
call-eq-ok d (returned b) e = ground arith
call-eq-ok d (native_error s) e = cc
call-eq-ok d (raised x) e = cc

pos-injective : (m n : ℕ) → pos m ≡ pos n → m ≡ n
pos-injective m n h = ground arith

module _ (H : Hash) (N : Native) where
  -- A decoded target has the length that was asked for.
  length-decode :
      IsSized N
      → (c : Codec) (base blob : Bytes) (n : ℕ) {t : Bytes} → decode H N c base blob n ≡ ok t
      → length t ≡ n
  unfolding decode
  length-decode S hdiff base blob n e =
      let sized = S.hdiff_apply_size base blob (pos envelope_size) (pos n) in
      pos-injective _ _ (rw (call-eq-ok true _ e) at sized)
  length-decode S zstd base blob n e =
      let sized = S.zstd_apply_size base blob (pos envelope_size) (pos n) in
      pos-injective _ _ (rw (call-eq-ok true _ e) at sized)

  apply_checked_ok :
      (base blob : Bytes) (m : ℤ) (h : Header) {t : Bytes}
      → apply_checked H N base blob m h ≡ ok t
      → (h.base_length ≡ length base)
        × (h.base_sha256 ≡ H.digest base)
        × (decode H N h.codec base blob h.target_length ≡ ok t)
        × (h.target_sha256 ≡ H.digest t)
        × (ltb_ℤ (output_limit m) h.target_length ≡ false)
  unfolding apply_checked
  apply_checked_ok base blob m h {t} e =
      ground
        (arith, bytes_eq→eq (H.digest base) h.base_sha256, bytes_eq→eq (H.digest t) h.target_sha256)

  -- Whatever `apply` returns has the length and the SHA-256 that the envelope records, the base
  -- has its recorded length and SHA-256, and the length is within both output limits.
  pub apply-IsVerified :
      IsSized N
      → (base blob : Bytes) (max_output : ℤ) {t : Bytes}
      → apply H N (bytes_object base) (bytes_object blob) max_output ≡ ok t
      → (h : Header) × (inspect (bytes_object blob) ≡ ok h) × IsVerified H base t max_output h
  unfolding apply
  apply-IsVerified S base blob m {t} e =
      let (h, read, checked) = returned_through (inspect (bytes_object blob)) _ e in
      let (bl, bs, decoded, ts, w) = apply_checked_ok base blob m h checked in
      let size = length-decode S h.codec base blob h.target_length decoded in
      (
        h,
        read,
        record {
          base_length = bl;
          base_sha256 = bs;
          target_length = sym size;
          target_sha256 = ts;
          within = rw size w;
        },
      )

  -- Under the RAW_MAX and the caller's bound.
  pub apply_bounded :
      IsSized N
      → (base blob : Bytes) (max_output : ℕ) {t : Bytes}
      → apply H N (bytes_object base) (bytes_object blob) (pos max_output) ≡ ok t
      → (length t ≤ max_output) × (length t ≤ raw_max)
  apply_bounded S base blob m e =
      let (h, _, v) = apply-IsVerified S base blob (pos m) e in let w = v.within in ground arith
