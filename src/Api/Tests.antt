-- ===== src/Api/Tests.antt =====
-- Runs of the envelope functions, and the theorems at concrete inputs.
use pyhdiff.Base.{
  ◌+◌, ◌≡◌, refl, some, Bytes, [], ◌∷◌, ◌++◌, ◌⊎◌, length, take, drop, replicate, arith, bytes_eq,
}
use pyhdiff.Base.Int.{pos}
use pyhdiff.Errors.{ok, raise, Raises, exc, base_mismatch_error, limit_error, option_error}
use pyhdiff.Status.{raw_max}
use pyhdiff.Struct.{pack, unpack_from, be_bytes, be_value, concat, slices}
use pyhdiff.Api.{
  bytes_object, hdiff_profile, zstd_profile, default_hdiff, default_zstd, hdiff, Header,
  encode_delta, encode_with, call, hdiff_args, zstd_args, envelope, inspect, apply, apply_checked,
  decode, check_fields, encode_base, envelope_size, format_version,
}
use pyhdiff.Api.Inspect.{header_for, header_fields, inspect_canonical}
use pyhdiff.Api.Apply.{IsVerified, apply-IsVerified}
use pyhdiff.Api.Encode.{Encoded, inspect-encode_delta, encode_delta_total}
use pyhdiff.Api.Refuse.{IsTooLong, apply_wrong_base}
use pyhdiff.Api.Sample.{sample_hash, sample_native, sample_native-IsSized}

abbrev base : Bytes
base = 5 ∷ 6 ∷ []

abbrev target : Bytes
target = 7 ∷ 8 ∷ 9 ∷ []

abbrev head : Bytes
head =
    b'P' ∷ b'H' ∷ b'D' ∷ b'F' ∷ 1 ∷ 1 ∷ 0 ∷ 0 ∷ 0 ∷ 0 ∷ 0 ∷ 0 ∷ 0 ∷ 0 ∷ 0 ∷ 2 ∷ 0 ∷ 0 ∷ 0 ∷ 0 ∷ 0
    ∷ 0 ∷ 0 ∷ 3 ∷ 0 ∷ 0 ∷ 0 ∷ 0 ∷ 0 ∷ 0 ∷ 0 ∷ 3 ∷ []

abbrev blob : Bytes
blob = head ++ replicate 32 5 ++ replicate 32 7 ++ target

-- The same envelope with another target hash.
abbrev forged : Bytes
forged = head ++ replicate 32 5 ++ replicate 32 8 ++ target

abbrev header : Header
header = header_for sample_hash hdiff base target target

abbrev forged_header : Header
forged_header = record header { target_sha256 = replicate 32 8 }

sealed :
    encode_delta sample_hash sample_native
      (bytes_object base)
      (bytes_object target)
      (hdiff_profile default_hdiff)
    ≡ ok blob
unfolding encode_delta encode_with call hdiff_args envelope pack concat be_bytes
sealed = refl

header_read : inspect (bytes_object blob) ≡ ok header
unfolding inspect check_fields unpack_from slices be_value bytes_eq
header_read = refl

read_forged : inspect (bytes_object forged) ≡ ok forged_header
unfolding inspect check_fields unpack_from slices be_value bytes_eq
read_forged = refl

applied :
    apply sample_hash sample_native (bytes_object base) (bytes_object blob) (pos 3) ≡ ok target
unfolding apply inspect check_fields unpack_from slices be_value bytes_eq apply_checked decode call
applied = refl

over_limit :
    apply sample_hash sample_native (bytes_object base) (bytes_object blob) (pos 2)
    ≡ raise (exc limit_error "target length exceeds the output limit")
unfolding apply inspect check_fields unpack_from slices be_value bytes_eq apply_checked decode call
over_limit = refl

unknown_ldm :
    encode_base sample_hash sample_native
      (bytes_object target)
      (zstd_profile (record default_zstd { ldm = "maybe" }))
    ≡ raise (exc option_error "ldm must be 'auto', 'on' or 'off'")
unfolding encode_base encode_delta encode_with zstd_args
unknown_ldm = refl

envelope_read : envelope sample_hash hdiff base target target ≡ ok blob
unfolding envelope pack concat be_bytes
envelope_read = refl

inspect_canonical_example :
    (header.version ≡ format_version)
    × (pack (header_fields header) ≡ some (take envelope_size blob))
    × (length blob ≡ envelope_size + header.payload_length)
inspect_canonical_example = inspect_canonical blob (omega arith) header_read

apply-IsVerified_example :
    (h : Header) × (inspect (bytes_object blob) ≡ ok h)
    × IsVerified sample_hash base target (pos 3) h
apply-IsVerified_example =
    apply-IsVerified sample_hash sample_native sample_native-IsSized base blob (pos 3) applied

inspect-encode_delta_example :
    (encoded : Bytes) × Encoded sample_hash sample_native base target
      (hdiff_profile default_hdiff)
      encoded
    × (inspect (bytes_object blob) ≡ ok (header_for sample_hash hdiff base target encoded))
    × (drop envelope_size blob ≡ encoded)
inspect-encode_delta_example =
    inspect-encode_delta sample_hash sample_native base target (hdiff_profile default_hdiff) sealed

encode_delta_total_example :
    (b : Bytes) × (encode_delta sample_hash sample_native
        (bytes_object base)
        (bytes_object target)
        (hdiff_profile default_hdiff)
      ≡ ok b)
encode_delta_total_example =
    encode_delta_total sample_hash sample_native sample_native-IsSized base target
      (hdiff_profile default_hdiff) target (omega arith) (omega arith) refl

apply_wrong_base_example :
    Raises
      (λ e.
        (e.cls ≡ base_mismatch_error)
        ⊎ ((e.cls ≡ limit_error) × IsTooLong (pos raw_max) header × (header.base_length ≡ 1)))
      (apply sample_hash sample_native (bytes_object (5 ∷ [])) (bytes_object blob) (pos raw_max))
apply_wrong_base_example =
    apply_wrong_base sample_hash sample_native (5 ∷ []) blob (pos raw_max) header header_read
      (λ b. omega (arith, b.0))
