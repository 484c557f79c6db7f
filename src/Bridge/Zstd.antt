-- ===== src/Bridge/Zstd.antt =====
-- What src/native/bridge.cpp uses of the zstd decoder (zstd.h), and `zcheck`.
use pyhdiff.Base.{
  ap, ℕ, ◌≡◌, ◌≢◌, arith, ◌+◌, ◌^◌, ◌-◌, ◌≤◌, Bool, Option, Bytes, length, ◌==◌, if◌then◌else◌,
}
use pyhdiff.Status.{status_alloc, zstd_error_base}
use pyhdiff.Bridge.Throw.{Cpp, diverges, done, throw, failure}

-- A `size_t` result of zstd: a value, or the number of an error (`ZSTD_isError`).
pub data Code : Type 0 where
  value : ℕ → Code
  error : ℕ → Code

pub value-injective : {m n : ℕ} → value m ≡ value n → m ≡ n
value-injective {m} e = ap (λ c. elim c [ value k ↦ k | error k ↦ m ]) e

-- What the bridge reads of `ZSTD_frameHeader`.
pub record FrameHeader : Type 0 where
  pub is_frame : Bool
  pub window_size : ℕ
  pub content_size : ℕ

-- `ZSTD_CONTENTSIZE_UNKNOWN`
abbrev pub content_size_unknown : ℕ
content_size_unknown = 2 ^ 64 - 1

-- One call of `ZSTD_decompressStream`: the context after it, the growth of the two positions, and
-- the result, 0 at the end of a frame.
pub record Step (C : Type 0) : Type 0 where
  pub ctx : C
  pub consumed : ℕ
  pub produced : Bytes
  pub code : Code

-- The decoder. A call never reads past its input buffer, nor writes past its output buffer.
pub record Decoder : Type 1 where
  pub Ctx : Type 0
  pub create : Option Ctx
  pub set_window_log_max : Ctx → ℕ → Ctx × Code
  pub ref_prefix : Ctx → Bytes → Ctx × Code
  pub decompress_stream : Ctx → Bytes → ℕ → Step Ctx
  pub frame_header : Bytes → FrameHeader × Code
  pub frame_content_size : Bytes → ℕ
  pub memory_allocation : ℕ
  pub consumed-le :
      (c : Ctx) (src : Bytes) (room : ℕ) → Step.consumed (decompress_stream c src room) ≤ length src
  pub produced-le :
      (c : Ctx) (src : Bytes) (room : ℕ)
      → length (Step.produced (decompress_stream c src room)) ≤ room

-- `zcheck`, which here also hands on the value that it let pass. The argument is the number of
-- `ZSTD_error_memory_allocation`.
unfoldable pub zcheck : ℕ → Code → Cpp ℕ
zcheck memory_allocation (value n) = done n
zcheck memory_allocation (error n) =
    throw (failure (if n == memory_allocation then status_alloc else zstd_error_base + n))

pub zcheck_ok :
    (memory_allocation : ℕ) (c : Code) {n : ℕ} → zcheck memory_allocation c ≡ done n → c ≡ value n
unfolding zcheck
zcheck_ok memory_allocation c e = ground arith

pub zcheck-ne-diverges : (memory_allocation : ℕ) (c : Code) → zcheck memory_allocation c ≢ diverges
unfolding zcheck
zcheck-ne-diverges memory_allocation c = ground arith
