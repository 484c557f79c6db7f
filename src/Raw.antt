-- ===== src/Raw.antt =====
-- src/pyhdiff/raw.py: payloads without the envelope.
pub mod Payload
pub mod Tests
use pyhdiff.Base.{String, true, false, Bytes, length, ltb}
use pyhdiff.Base.Int.{ℤ, pos}
use pyhdiff.Errors.{exc, Result, ok, raise_if, ◌>>=◌, ◌>>◌, limit_error}
use pyhdiff.Native.{Native}
use pyhdiff.Status.{raw_max}
use pyhdiff.Api.{Value, bytes, HDiffProfile, ZstdProfile, call, hdiff_args, zstd_args, outside}

-- `_inputs`
unfoldable pub inputs : Value → Value → String → Result (Bytes × Bytes)
unfolding bytes
inputs base other name = do
  b ← bytes base "base"
  o ← bytes other name
  raise_if (ltb raw_max (length b)) (exc limit_error "base exceeds RAW_MAX")
  ok (b, o)

module _ (N : Native) where
  unfoldable pub hdiff_encode : Value → Value → HDiffProfile → Result Bytes
  hdiff_encode base target profile = do
    (b, t) ← inputs base target "target"
    call false (N.hdiff_encode b t (hdiff_args profile))

  unfoldable pub hdiff_apply : Value → Value → ℤ → Result Bytes
  hdiff_apply base payload target_length = do
    (b, p) ← inputs base payload "payload"
    raise_if (outside target_length raw_max)
        (exc limit_error "target_length must be between 0 and RAW_MAX")
    call true (N.hdiff_apply b p (pos 0) target_length)

  unfoldable pub zstd_encode : Value → Value → ZstdProfile → Result Bytes
  zstd_encode base target profile = do
    (b, t) ← inputs base target "target"
    args ← zstd_args profile
    call false (N.zstd_encode b t args)

  unfoldable pub zstd_apply : Value → Value → ℤ → Result Bytes
  zstd_apply base payload target_length = do
    (b, p) ← inputs base payload "payload"
    raise_if (outside target_length raw_max)
        (exc limit_error "target_length must be between 0 and RAW_MAX")
    call true (N.zstd_apply b p (pos 0) target_length)
