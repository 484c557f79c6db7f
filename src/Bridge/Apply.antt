-- ===== src/Bridge/Apply.antt =====
-- `zstd_apply` of src/native/bridge.cpp, with the null callback that `phd_zstd_apply` passes.
pub mod Loop
use pyhdiff.Base.{
  ℕ, zero, suc, ◌+◌, ◌-◌, ◌*◌, ◌^◌, ◌≤◌, min, Bool, true, false, ◌&&◌, ◌||◌, Option, none, some, [],
  Bytes, ◌++◌, length, take, drop, ltb, leb, ◌==◌, if◌then◌else◌,
}
use pyhdiff.Status.{raw_max, payload_max, status_limit, status_invalid, zstd_window_log_max}
use pyhdiff.Bridge.Throw.{Cpp, diverges, done, throw, bad_alloc, require, ◌>>=◌, ◌>>◌}
use pyhdiff.Bridge.Zstd.{Decoder, Step, Code, FrameHeader, content_size_unknown, zcheck}

-- The size of the chunks that are handed to the decoder.
abbrev pub chunk_size : ℕ
chunk_size = 65536

-- A context, or `std::bad_alloc` for the null pointer.
abbrev pub created {ℓ} : {A : Type ℓ} → Option A → Cpp A
created none = throw bad_alloc
created (some c) = done c

module _ (Z : Decoder) where
  open Z use {Ctx, decompress_stream, memory_allocation}

  -- One call, on the next chunk and the rest of the output; one spare byte where none is left.
  abbrev pub apply_call : Ctx → Bytes → ℕ → ℕ → ℕ → Step Ctx
  apply_call ctx src read written target_size =
      let room = min chunk_size (target_size - written) in
      decompress_stream ctx (take chunk_size (drop read src)) (if room == 0 then 1 else room)

  -- The checks after a call; what is left to decode is returned.
  unfoldable pub apply_checks : Step Ctx → ℕ → ℕ → Cpp ℕ
  unfolding zcheck
  apply_checks s written target_size = do
    remaining ← zcheck memory_allocation s.code
    require (leb (length s.produced) (target_size - written)) status_limit
    require (remaining == 0 || ltb 0 s.consumed || ltb 0 (length s.produced)) status_invalid
    done remaining

  -- `while (remaining)`: `read` bytes of the payload are read, and `out` is written.
  unfoldable pub apply_loop : ℕ → Ctx → Bytes → ℕ → ℕ → Bytes → Cpp (ℕ × Bytes)
  apply_loop zero ctx src target_size read out = diverges
  apply_loop (suc fuel) ctx src target_size read out =
      let s = apply_call ctx src read (length out) target_size in
      apply_checks s (length out) target_size >>= λ remaining. elim remaining [
        | zero ↦ done (read + s.consumed, out ++ s.produced)
        | suc more ↦ apply_loop fuel s.ctx src target_size (read + s.consumed) (out ++ s.produced)
      ]

  -- The checks of the frame header, before anything is decoded.
  unfoldable pub check_frame : Bytes → ℕ → Cpp (Unit {0})
  unfolding zcheck
  check_frame src target_size = do
    rest ← zcheck memory_allocation (Z.frame_header src).1
    require (rest == 0 && (Z.frame_header src).0.is_frame) status_invalid
    require (leb (Z.frame_header src).0.window_size (2 ^ zstd_window_log_max)) status_limit
    require
        ((Z.frame_header src).0.content_size == content_size_unknown
          || (Z.frame_header src).0.content_size == target_size)
        status_invalid

  unfoldable pub open_apply : Bytes → Cpp Ctx
  unfolding zcheck
  open_apply base = do
    ctx ← created Z.create
    _ ← zcheck memory_allocation (Z.set_window_log_max ctx zstd_window_log_max).1
    _ ←
        zcheck memory_allocation
          (Z.ref_prefix (Z.set_window_log_max ctx zstd_window_log_max).0 base).1
    done (Z.ref_prefix (Z.set_window_log_max ctx zstd_window_log_max).0 base).0

  -- Each round but the last reads or writes a byte, so this fuel is enough.
  unfoldable pub zstd_apply : Bytes → Bytes → ℕ → Cpp Bytes
  zstd_apply base src target_size = do
    require (leb (length base) raw_max && leb target_size raw_max && leb (length src) payload_max)
        status_limit
    check_frame src target_size
    ctx ← open_apply base
    (read, out) ← apply_loop (length src + target_size + 1) ctx src target_size 0 []
    require (read == length src && length out == target_size) status_invalid
    done out
