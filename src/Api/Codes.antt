-- ===== src/Api/Codes.antt =====
-- `_raise`, `_call`, `_LDM`, `_hdiff_args` and `_zstd_args` of src/pyhdiff/__init__.py.
use pyhdiff.Base.{
  ◌-◌, String, Bool, true, false, Option, none, some, List, [], ◌∷◌, Bytes, ◌==◌, leb,
  if◌then◌else◌,
}
use pyhdiff.Base.Int.{ℤ, pos}
use pyhdiff.Errors.{
  Exc, exc, exc_number, Result, ok, raise, need, ◌>>=◌, limit_error, option_error, allocation_error,
  decode_error, native_error as native_failure,
}
use pyhdiff.Native.{Outcome, returned, native_error, raised}
use pyhdiff.Status.{
  Status, status_limit, status_option, status_alloc, status_invalid, zstd_error_base,
}
use pyhdiff.Api.Values.{HDiffProfile, ZstdProfile}
use text.Mathlib.Text.{◌==◌ as str_eq}

-- The exception that `_raise` raises; it never returns.
unfoldable pub exception_of : Status → Bool → Exc
exception_of code decoding =
    if code == status_limit
    then exc limit_error "size limit exceeded"
    else if code == status_option
    then exc option_error "profile parameter out of range"
    else if code == status_alloc
    then exc allocation_error "native allocation failed"
    else if code == status_invalid
    then exc decode_error "malformed payload"
    else if leb zstd_error_base code
    then (if code - zstd_error_base == 16
        then exc limit_error "zstd window exceeds the decoder limit"
        else if decoding
        then exc_number decode_error "malformed zstd data, zstd error" (code - zstd_error_base)
        else exc_number native_failure "zstd error" (code - zstd_error_base))
    else exc_number native_failure "native codec failure, status" code

-- `_call`, given what the native function did.
unfoldable pub call : Bool → Outcome → Result Bytes
unfolding exception_of
call decoding (returned b) = ok b
call decoding (native_error code) = raise (exception_of code decoding)
call decoding (raised e) = raise e

-- `int(b)` of a `bool`
abbrev pub int_of_bool : Bool → ℤ
int_of_bool true = pos 1
int_of_bool false = pos 0

-- `_LDM`
unfoldable pub ldm_code : String → Option ℤ
ldm_code s =
    if str_eq s "auto"
    then some (pos 0)
    else if str_eq s "on"
    then some (pos 1)
    else if str_eq s "off"
    then some (pos 2)
    else none

unfoldable pub hdiff_args : HDiffProfile → List ℤ
hdiff_args p =
    p.match_score
    ∷ p.level
    ∷ p.window_log
    ∷ p.fast_block_bytes
    ∷ p.step_bytes
    ∷ int_of_bool p.content_size
    ∷ int_of_bool p.checksum
    ∷ []

unfoldable pub zstd_args : ZstdProfile → Result (List ℤ)
unfolding ldm_code
zstd_args p = do
  ldm ← need (ldm_code p.ldm) (exc option_error "ldm must be 'auto', 'on' or 'off'")
  ok (
      p.level
      ∷ p.window_log
      ∷ ldm
      ∷ int_of_bool p.content_size
      ∷ int_of_bool p.checksum
      ∷ p.ldm_hash_log
      ∷ p.ldm_min_match
      ∷ p.ldm_bucket_log
      ∷ p.ldm_rate_log
      ∷ [])
