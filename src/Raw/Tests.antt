-- ===== src/Raw/Tests.antt =====
-- The theorems on payloads at concrete inputs.
use pyhdiff.Base.{◌≡◌, refl, Bytes, [], ◌∷◌, drop}
use pyhdiff.Errors.{Result, ok, raise}
use pyhdiff.Struct.{pack, be_bytes, concat}
use pyhdiff.Api.{
  zstd_profile, default_zstd, bytes_object, bytes, envelope, envelope_size, call, encode_delta,
  encode_with, zstd_args,
}
use pyhdiff.Api.Sample.{sample_hash, sample_native}
use pyhdiff.Raw.Payload.{RawEncodes, encode_delta-RawEncodes}

abbrev base : Bytes
base = 5 ∷ 6 ∷ []

abbrev target : Bytes
target = 7 ∷ 8 ∷ 9 ∷ []

abbrev returned_bytes : Result Bytes → Bytes
returned_bytes (ok b) = b
returned_bytes (raise x) = []

abbrev sealed : Result Bytes
sealed =
    encode_delta sample_hash sample_native (bytes_object base) (bytes_object target)
      (zstd_profile default_zstd)

sealed_run : sealed ≡ ok (returned_bytes sealed)
unfolding encode_delta encode_with zstd_args call envelope bytes pack be_bytes concat
sealed_run = refl

encode_delta-RawEncodes_example :
    RawEncodes sample_native base target
      (zstd_profile default_zstd)
      (drop envelope_size (returned_bytes sealed))
encode_delta-RawEncodes_example =
    encode_delta-RawEncodes sample_native sample_hash base target (zstd_profile default_zstd)
      sealed_run
