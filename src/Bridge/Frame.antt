-- ===== src/Bridge/Frame.antt =====
-- `frame_decompress` of src/native/bridge.cpp.
pub mod Window
pub mod Rounds
pub mod Loop
pub mod Accepts
pub mod Whole
use pyhdiff.Base.{
  ℕ, zero, suc, ◌+◌, ◌-◌, ◌^◌, ◌≤◌, min, max, Bool, true, false, not, ◌&&◌, ◌||◌, Option, [], Bytes,
  length, drop, ltb, leb, ◌==◌, if◌then◌else◌,
}
use pyhdiff.Status.{frame_max, status_limit, status_invalid, zstd_window_log_max}
use pyhdiff.Bridge.Throw.{Cpp, diverges, done, require, ◌>>=◌, ◌>>◌}
use pyhdiff.Bridge.Zstd.{Decoder, Step, zcheck}
use pyhdiff.Bridge.Apply.{created, chunk_size}
use pyhdiff.Bridge.Growable.{Growable, capacity, reserve, spare, resize, write_spare}

-- `while (window < 30 && (size_t{1} << window) < max_output) ++window;` on the rounds left.
unfoldable pub window_loop : ℕ → ℕ → ℕ → ℕ
window_loop zero window max_output = window
window_loop (suc rounds) window max_output =
    let wider = window_loop rounds (window + 1) max_output in
    if ltb window zstd_window_log_max && ltb (2 ^ window) max_output then wider else window

-- The window starts at 10, so it can grow twenty times.
unfoldable pub window_for : ℕ → ℕ
unfolding window_loop
window_for max_output = window_loop 20 10 max_output

-- What the loop of `frame_decompress` carries: the context, `ib.pos` and `out`.
pub record Progress (C : Type 0) : Type 0 where
  pub ctx : C
  pub at : ℕ
  pub out : Growable

-- A round either ends the loop or hands on to the next.
pub data Round (C : Type 0) : Type 0 where
  finished : Growable → Round C
  next : Progress C → Round C

module _ (alloc : ℕ → Bool) (Z : Decoder) where
  open Z use {Ctx, decompress_stream, memory_allocation}

  -- The output is full at the bound: any further output exceeds it.
  unfoldable pub full_round : Bytes → Progress Ctx → Cpp (Round Ctx)
  full_round src p = do
    let s = decompress_stream p.ctx (drop p.at src) 1
    r ← zcheck memory_allocation s.code
    require (length s.produced == 0) status_limit
    if r == 0 && p.at + s.consumed == length src
        then done (finished p.out)
        else (require (not (s.consumed == 0)) status_invalid
            >> done (next (record { ctx = s.ctx; at = p.at + s.consumed; out = p.out })))

  -- There is room below the bound: `out` is the storage after `spare`.
  unfoldable pub open_round : Bytes → ℕ → Progress Ctx → Growable → Cpp (Round Ctx)
  open_round src max_output p out = do
    let room = min (capacity out - out.size) (max_output - out.size)
    let s = decompress_stream p.ctx (drop p.at src) room
    r ← zcheck memory_allocation s.code
    grown ← resize alloc (out.size + length s.produced) (write_spare s.produced out)
    if r == 0 && p.at + s.consumed == length src
        then done (finished grown)
        else (require (not (s.consumed == 0) || not (length s.produced == 0)) status_invalid
            >> done (next (record { ctx = s.ctx; at = p.at + s.consumed; out = grown })))

  unfoldable pub frame_round : Bytes → ℕ → Progress Ctx → Cpp (Round Ctx)
  frame_round src max_output p =
      if p.out.size == max_output
      then full_round src p
      else (spare alloc (min (max_output - p.out.size) chunk_size) p.out >>= λ out.
          open_round src max_output p out)

  unfoldable pub frame_loop : ℕ → Bytes → ℕ → Progress Ctx → Cpp Growable
  frame_loop zero src max_output p = diverges
  frame_loop (suc fuel) src max_output p = frame_round src max_output p >>= λ r. elim r [
    | finished out ↦ done out
    | next q ↦ frame_loop fuel src max_output q
  ]

  unfoldable pub open_frame : ℕ → Cpp Ctx
  open_frame max_output = do
    ctx ← created Z.create
    _ ← zcheck memory_allocation (Z.set_window_log_max ctx (max (window_for max_output) 23)).1
    done (Z.set_window_log_max ctx (max (window_for max_output) 23)).0

  -- The reserved storage: a claimed content size within the bound, or a chunk at most.
  abbrev pub reserved : Bytes → ℕ → ℕ
  reserved src max_output =
      if leb (Z.frame_content_size src) max_output
      then Z.frame_content_size src
      else min max_output chunk_size

  -- Each round but the last reads or writes a byte, so this fuel is enough.
  unfoldable pub frame_decompress : Bytes → ℕ → Cpp Growable
  frame_decompress src max_output = do
    require (leb (length src) frame_max && leb max_output frame_max) status_limit
    require (not (length src == 0)) status_invalid
    ctx ← open_frame max_output
    out ← reserve alloc (reserved src max_output)
    frame_loop (length src + max_output + 1) src max_output
        (record { ctx = ctx; at = 0; out = out })
