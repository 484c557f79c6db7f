-- ===== src/Bridge/Hdiff.antt =====
-- `hdiff_encode` and `hdiff_apply` of src/native/bridge.cpp, over what HDiffPatch does.
pub mod Laws
use pyhdiff.Base.{
  ℕ, ◌+◌, ◌-◌, ◌*◌, ◌≤◌, ◌≡◌, Bool, true, false, not, ◌&&◌, ◌||◌, Option, none, some, List, [], ◌∷◌,
  Bytes, length, leb, ◌==◌, if◌then◌else◌,
}
use pyhdiff.Status.{raw_max, payload_max, step_max, status_limit, status_invalid}
use pyhdiff.Bridge.Throw.{Thrown, bad_alloc, failure, Cpp, done, throw, require, ◌>>=◌, ◌>>◌}
use pyhdiff.Bridge.Options.{Options}
use pyhdiff.Bridge.Growable.{Growable, empty}
use pyhdiff.Bridge.Streams.{write}

-- One call of `stream.write`: the position and the bytes.
pub record Write : Type 0 where
  pub at : ℕ
  pub bytes : Bytes

-- A run of `create_single_compressed_diff_block`: the writes that it makes, and what it throws
-- after them, if anything. A write returns true or throws, so the run is the same up to a throw.
pub record DiffRun : Type 0 where
  pub writes : List Write
  pub thrown : Option Thrown

-- `compressType` of a diff: empty, "zstd" (`is_zstd`), or another name.
pub data CompressType : Type 0 where
  uncompressed zstd_type other_type : CompressType

-- What `hdiff_apply` reads of `hpatch_singleCompressedDiffInfo`.
pub record DiffInfo : Type 0 where
  pub old_size : ℕ
  pub new_size : ℕ
  pub step_size : ℕ
  pub uncompressed_size : ℕ
  pub compressed_size : ℕ
  pub diff_pos : ℕ
  pub compress_type : CompressType

-- What a run of `patch_single_compressed_diff` leaves: its result and the output buffer, or an
-- exception of the decompression plugin.
pub data PatchRun : Type 0 where
  patched : Bool → Bytes → PatchRun
  plugin_threw : Thrown → PatchRun

-- HDiffPatch. `patch` is given whether the plugin is passed, and a buffer of the target's size,
-- which `mem_as_hStreamOutput` lets it fill and never leave.
pub record DiffLibrary : Type 0 where
  pub create_diff : Bytes → Bytes → Options → DiffRun
  pub diff_info : Bytes → Option DiffInfo
  pub patch : Bytes → Bytes → DiffInfo → Bool → ℕ → PatchRun
  pub stream_cache_size : ℕ

-- The buffer keeps its size.
abbrev pub KeepsSize : ℕ → PatchRun → Type 0
KeepsSize n (patched result out) = length out ≡ n
KeepsSize n (plugin_threw t) = Unit

abbrev pub PatchKeepsSize : DiffLibrary → Type 0
PatchKeepsSize D =
    (base diff : Bytes) (info : DiffInfo) (plugin : Bool) (n : ℕ)
    → KeepsSize n (DiffLibrary.patch D base diff info plugin n)

-- The exception that ends a run, if any.
abbrev pub ending : Option Thrown → Growable → Cpp Growable
ending none g = done g
ending (some t) g = throw t

-- `require(getSingleCompressedDiffInfo(...))`
abbrev pub info_of : Option DiffInfo → Cpp DiffInfo
info_of none = throw (failure status_invalid)
info_of (some info) = done info

-- `info.compressedSize ? info.compressedSize : info.uncompressedSize`
abbrev pub encoded_size : DiffInfo → ℕ
encoded_size info =
    if info.compressed_size == 0 then info.uncompressed_size else info.compressed_size

abbrev pub is_supported : CompressType → Bool
is_supported uncompressed = true
is_supported zstd_type = true
is_supported other_type = false

abbrev pub has_type : CompressType → Bool
has_type uncompressed = false
has_type zstd_type = true
has_type other_type = true

-- The checks of the diff's header.
unfoldable pub check_info : DiffInfo → ℕ → ℕ → ℕ → Cpp (Unit {0})
check_info info base_size diff_size target_size = do
  require (info.old_size == base_size && info.new_size == target_size) status_invalid
  require (leb info.step_size step_max && leb info.uncompressed_size payload_max) status_limit
  require (is_supported info.compress_type) status_invalid
  require (leb info.diff_pos diff_size && encoded_size info == diff_size - info.diff_pos)
      status_invalid
  require (info.compressed_size == 0 || has_type info.compress_type) status_invalid

-- The constructor of the cache, a `std::vector`.
abbrev pub cache_allocated : Bool → Cpp (Unit {0})
cache_allocated true = done tt
cache_allocated false = throw bad_alloc

-- `require(patch_single_compressed_diff(...))`, and the buffer after it.
abbrev pub patch_result : PatchRun → Cpp Bytes
patch_result (patched result out) = require result status_invalid >> done out
patch_result (plugin_threw t) = throw t

module _ (alloc : ℕ → Bool) where
  -- The writes of a run, into one output.
  unfoldable pub write_all : ℕ → List Write → Growable → Cpp Growable
  write_all limit [] g = done g
  write_all limit (w ∷ ws) g = write alloc limit w.at w.bytes g >>= λ h. write_all limit ws h

module _ (alloc : ℕ → Bool) (D : DiffLibrary) where
  unfoldable pub hdiff_encode : Bytes → Bytes → Options → Cpp Growable
  hdiff_encode base target options = do
    require (leb (length base) raw_max && leb (length target) raw_max) status_limit
    out ← write_all alloc payload_max (D.create_diff target base options).writes empty
    ending (D.create_diff target base options).thrown out

  unfoldable pub hdiff_apply : Bytes → Bytes → ℕ → Cpp Bytes
  hdiff_apply base diff target_size = do
    require (leb (length base) raw_max && leb target_size raw_max && leb (length diff) payload_max)
        status_limit
    info ← info_of (D.diff_info diff)
    check_info info (length base) (length diff) target_size
    cache_allocated (alloc (info.step_size + D.stream_cache_size * 3))
    patch_result (D.patch base diff info (not (info.compressed_size == 0)) target_size)
