-- ===== src/Api/Calls.antt =====
-- The public functions of src/pyhdiff/__init__.py that call a codec.
use pyhdiff.Base.{ℕ, min, Bool, true, false, not, ◌||◌, [], ◌∷◌, Bytes, length, ltb, ◌==◌, bytes_eq}
use pyhdiff.Base.Int.{ℤ, pos, negsuc, ltb_ℤ}
use pyhdiff.Errors.{
  exc, Result, ok, raise, raise_if, ◌>>=◌, ◌>>◌, limit_error, type_error, base_mismatch_error,
  integrity_error,
}
use pyhdiff.Native.{Native}
use pyhdiff.Status.{raw_max, frame_max}
use pyhdiff.Api.Values.{
  Value, bytes_object, bytes, Profile, hdiff_profile, zstd_profile, other_profile,
}
use pyhdiff.Api.Codes.{call, hdiff_args, zstd_args, int_of_bool}
use pyhdiff.Api.Envelope.{Codec, hdiff, zstd, Header, Hash, envelope, envelope_size, inspect}

-- `min(max_output, RAW_MAX)`
abbrev pub output_limit : ℤ → ℤ
output_limit (pos n) = pos (min n raw_max)
output_limit (negsuc n) = negsuc n

-- `not 0 <= n <= limit`
abbrev pub outside : ℤ → ℕ → Bool
outside (pos n) limit = ltb limit n
outside (negsuc n) limit = true

module _ (H : Hash) (N : Native) where
  -- `encode_delta` behind its size check: the call of the codec that the profile selects.
  unfoldable pub encode_with : Bytes → Bytes → Profile → Result Bytes
  encode_with base target (hdiff_profile p) = do
    encoded ← call false (N.hdiff_encode base target (hdiff_args p))
    envelope H hdiff base target encoded
  encode_with base target (zstd_profile p) = do
    args ← zstd_args p
    encoded ← call false (N.zstd_encode base target args)
    envelope H zstd base target encoded
  encode_with base target other_profile =
      raise (exc type_error "profile must be an HDiffProfile or a ZstdProfile")

  unfoldable pub encode_delta : Value → Value → Profile → Result Bytes
  unfolding bytes
  encode_delta base payload profile = do
    b ← bytes base "base"
    target ← bytes payload "payload"
    raise_if (ltb raw_max (length b) || ltb raw_max (length target))
        (exc limit_error "input exceeds RAW_MAX")
    encode_with b target profile

  unfoldable pub encode_base : Value → Profile → Result Bytes
  encode_base payload (zstd_profile p) = encode_delta (bytes_object []) payload (zstd_profile p)
  encode_base payload (hdiff_profile p) = raise (exc type_error "profile must be a ZstdProfile")
  encode_base payload other_profile = raise (exc type_error "profile must be a ZstdProfile")

  -- The native function that `apply` selects, called with `_call`.
  unfoldable pub decode : Codec → Bytes → Bytes → ℕ → Result Bytes
  decode hdiff base blob n = call true (N.hdiff_apply base blob (pos envelope_size) (pos n))
  decode zstd base blob n = call true (N.zstd_apply base blob (pos envelope_size) (pos n))

  -- `apply` behind its conversions and `inspect`.
  unfoldable pub apply_checked : Bytes → Bytes → ℤ → Header → Result Bytes
  apply_checked base blob max_output header = do
    raise_if (not (header.base_length == length base))
        (exc base_mismatch_error "base length differs from the envelope")
    raise_if (ltb_ℤ (output_limit max_output) header.target_length)
        (exc limit_error "target length exceeds the output limit")
    raise_if (not (bytes_eq (H.digest base) header.base_sha256))
        (exc base_mismatch_error "base SHA-256 differs from the envelope")
    target ← decode header.codec base blob header.target_length
    raise_if (not (bytes_eq (H.digest target) header.target_sha256))
        (exc integrity_error "reconstruction SHA-256 differs from the envelope")
    ok target

  unfoldable pub apply : Value → Value → ℤ → Result Bytes
  unfolding bytes
  apply base blob max_output = do
    b ← bytes base "base"
    e ← bytes blob "blob"
    header ← inspect (bytes_object e)
    apply_checked b e max_output header

module _ (N : Native) where
  unfoldable pub compress : Value → ℤ → ℤ → Bool → Result Bytes
  unfolding bytes
  compress data' level window_log checksum = do
    d ← bytes data' "data"
    raise_if (ltb frame_max (length d)) (exc limit_error "input exceeds FRAME_MAX")
    call false (N.compress d (level ∷ window_log ∷ int_of_bool checksum ∷ []))

  unfoldable pub decompress : Value → ℤ → Result Bytes
  unfolding bytes
  decompress data' max_output_bytes = do
    d ← bytes data' "data"
    raise_if (outside max_output_bytes frame_max)
        (exc limit_error "max_output_bytes must be between 0 and FRAME_MAX")
    call true (N.decompress d max_output_bytes)
