-- ===== src/Api/Values.antt =====
-- The values that callers of src/pyhdiff/__init__.py pass in, and `_bytes`.
use Prim.Native.String.{◌++◌ as ◌<>◌}
use pyhdiff.Base.{String, Bool, true, false, Bytes}
use pyhdiff.Base.Int.{ℤ, pos}
use pyhdiff.Errors.{Result, ok, raise, exc, type_error}

-- A Python object, as far as the code tells objects apart: a `bytes`, another object with the
-- buffer protocol (with whether `memoryview.cast` accepts its layout), a `str`, or anything else.
pub data Value : Type 0 where
  bytes_object : Bytes → Value
  buffer_object : Bool → Bytes → Value
  str_object : Value
  other_object : Value

-- `_bytes`
unfoldable pub bytes : Value → String → Result Bytes
bytes (bytes_object b) name = ok b
bytes (buffer_object castable b) name = ok b
bytes str_object name = raise (exc type_error (name <> " must be a bytes-like object"))
bytes other_object name = raise (exc type_error (name <> " must be a bytes-like object"))

pub record HDiffProfile : Type 0 where
  pub match_score : ℤ
  pub level : ℤ
  pub window_log : ℤ
  pub fast_block_bytes : ℤ
  pub step_bytes : ℤ
  pub content_size : Bool
  pub checksum : Bool

pub record ZstdProfile : Type 0 where
  pub level : ℤ
  pub window_log : ℤ
  pub ldm : String
  pub content_size : Bool
  pub checksum : Bool
  pub ldm_hash_log : ℤ
  pub ldm_min_match : ℤ
  pub ldm_bucket_log : ℤ
  pub ldm_rate_log : ℤ

-- `HDiffProfile()` and `ZstdProfile()`
abbrev pub default_hdiff : HDiffProfile
default_hdiff = record {
  match_score = pos 6;
  level = pos 19;
  window_log = pos 23;
  fast_block_bytes = pos 1024;
  step_bytes = pos 262144;
  content_size = true;
  checksum = false;
}

abbrev pub default_zstd : ZstdProfile
default_zstd = record {
  level = pos 3;
  window_log = pos 0;
  ldm = "auto";
  content_size = true;
  checksum = true;
  ldm_hash_log = pos 0;
  ldm_min_match = pos 0;
  ldm_bucket_log = pos 0;
  ldm_rate_log = pos 0;
}

-- What is passed as a profile: one of the two classes, or any other object.
pub data Profile : Type 0 where
  hdiff_profile : HDiffProfile → Profile
  zstd_profile : ZstdProfile → Profile
  other_profile : Profile
