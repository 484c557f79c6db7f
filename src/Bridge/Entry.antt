-- ===== src/Bridge/Entry.antt =====
-- The entry points of src/native/bridge.cpp, over non-null pointers: `apply_into` and the `phd_`
-- functions.
pub mod Contract
pub mod Encoders
use pyhdiff.Base.{ℕ, leb, Bool, Option, some, [], Bytes}
use pyhdiff.Base.Int.{ℤ, pos}
use pyhdiff.Status.{raw_max, status_ok, status_limit}
use pyhdiff.Bridge.Throw.{Cpp, done, require, boundary, PhdResult, ◌>>=◌, ◌>>◌}
use pyhdiff.Bridge.Zstd.{Decoder}
use pyhdiff.Bridge.Options.{HdiffOptions, ZstdOptions, hdiff_options, zstd_options}
use pyhdiff.Bridge.Growable.{release}
use pyhdiff.Bridge.Apply.{zstd_apply}
use pyhdiff.Bridge.Frame.{frame_decompress}
use pyhdiff.Bridge.Hdiff.{DiffLibrary, hdiff_encode, hdiff_apply}
use pyhdiff.Bridge.Encode.{Encoder, codec_limits, frame_limits, zstd_encode}

-- The body of `apply_into`. The buffer `out`, which the caller owns, stands as the contents of the
-- result; a failure may leave anything in it, and has none.
unfoldable pub apply_body : Cpp Bytes → ℕ → Cpp PhdResult
apply_body codec target_size = do
  require (leb target_size raw_max) status_limit
  out ← codec
  done (record { contents = some out; status = status_ok })

module _ (alloc : ℕ → Bool) (D : DiffLibrary) where
  unfoldable pub phd_hdiff_encode : Bytes → Bytes → HdiffOptions → Option PhdResult
  phd_hdiff_encode base target o = boundary (
      hdiff_options o >>= λ options.
      hdiff_encode alloc D base target options >>= λ encoded. release alloc encoded)

  unfoldable pub phd_hdiff_apply : Bytes → Bytes → ℕ → Option PhdResult
  phd_hdiff_apply base payload target_size =
      boundary (apply_body (hdiff_apply alloc D base payload target_size) target_size)

unfoldable pub phd_zstd_apply : Decoder → Bytes → Bytes → ℕ → Option PhdResult
phd_zstd_apply Z base payload target_size =
    boundary (apply_body (zstd_apply Z base payload target_size) target_size)

-- `public_options` of `phd_zstd_compress`
abbrev pub frame_options : ℤ → ℤ → ℤ → ZstdOptions
frame_options level window_log checksum = record {
  level = level;
  window_log = window_log;
  ldm = pos 0;
  content_size = pos 1;
  checksum = checksum;
  ldm_hash_log = pos 0;
  ldm_min_match = pos 0;
  ldm_bucket_log = pos 0;
  ldm_rate_log = pos 0;
}

module _ (alloc : ℕ → Bool) (Z : Encoder) where
  unfoldable pub phd_zstd_encode : Bytes → Bytes → ZstdOptions → Option PhdResult
  phd_zstd_encode base target o = boundary (
      zstd_options o >>= λ options.
      zstd_encode alloc Z base target options codec_limits >>= λ encoded. release alloc encoded)

  unfoldable pub phd_zstd_compress : Bytes → ℤ → ℤ → ℤ → Option PhdResult
  phd_zstd_compress data' level window_log checksum = boundary (
      zstd_options (frame_options level window_log checksum) >>= λ options.
      zstd_encode alloc Z [] data' options frame_limits >>= λ encoded. release alloc encoded)

unfoldable pub phd_zstd_decompress : (ℕ → Bool) → Decoder → Bytes → ℕ → Option PhdResult
phd_zstd_decompress alloc Z data' max_output =
    boundary (frame_decompress alloc Z data' max_output >>= λ out. release alloc out)
