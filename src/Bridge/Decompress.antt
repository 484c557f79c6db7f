-- ===== src/Bridge/Decompress.antt =====
-- `Decompress` of src/native/bridge.cpp: the decompression plugin that HDiffPatch opens on a part of
-- the diff, reads in parts, and closes.
pub mod View
pub mod Parts
pub mod Close
pub mod Session
pub mod Tests
use pyhdiff.Base.{
  ℕ, zero, suc, ◌+◌, ◌-◌, min, Bool, true, false, not, ◌&&◌, ◌||◌, Option, none, some, [], Bytes,
  ◌++◌, length, drop, leb, ◌==◌, if◌then◌else◌,
}
use pyhdiff.Status.{payload_max, hdiff_window_log_max, status_invalid}
use pyhdiff.Bridge.Throw.{Cpp, diverges, done, throw, failure, require, ◌>>=◌, ◌>>◌}
use pyhdiff.Bridge.Zstd.{Decoder, Step, zcheck}
use pyhdiff.Bridge.Apply.{created, chunk_size}
use pyhdiff.Bridge.Streams.{read}

-- The state between `open` and `close`. `input` is the filled part of the buffer and `at` the
-- position in it.
pub record Plugin (C : Type 0) : Type 0 where
  pub ctx : C
  pub source : Bytes
  pub pos : ℕ
  pub stop : ℕ
  pub remaining : ℕ
  pub input : Bytes
  pub at : ℕ
  pub finished : Bool

-- `require(source->read(...))`
abbrev pub read_or_fail : Option Bytes → Cpp Bytes
read_or_fail none = throw (failure status_invalid)
read_or_fail (some b) = done b

module _ {C : Type 0} where
  -- How much `refill` reads.
  abbrev pub refill_size : Plugin C → ℕ
  refill_size p = min chunk_size (p.stop - p.pos)

  unfoldable pub refill : Plugin C → Cpp (Plugin C)
  refill p =
      if not (p.at == length p.input) || p.pos == p.stop
      then done p
      else (read_or_fail (read p.source p.pos (refill_size p)) >>= λ b.
          done (record p { pos = p.pos + refill_size p; input = b; at = 0 }))

-- The state after a call of the decoder with the result `r`.
abbrev pub advanced : {C : Type 0} → Plugin C → Step C → ℕ → Plugin C
advanced p s r = record p { ctx = s.ctx; at = p.at + s.consumed; finished = r == 0 }

-- The bytes that the plugin has still to read.
abbrev pub left : {C : Type 0} → Plugin C → ℕ
left p = (p.stop - p.pos) + (length p.input - p.at)

-- Each round of `decompress_part` reads or writes a byte, so this fuel is enough.
abbrev pub part_fuel : {C : Type 0} → ℕ → Plugin C → ℕ
part_fuel size p = left p + size + 1

-- Each round of `close` but the last reads a byte, and one more sees the end.
abbrev pub close_fuel : {C : Type 0} → Plugin C → ℕ
close_fuel p = left p + 2

module _ (Z : Decoder) where
  open Z use {Ctx, decompress_stream, memory_allocation}

  -- `plugin.open`
  unfoldable pub open_plugin : ℕ → Bytes → ℕ → ℕ → Cpp (Plugin Ctx)
  unfolding zcheck
  open_plugin size source begin end = do
    require (leb begin end && leb end (length source) && leb size payload_max) status_invalid
    ctx ← created Z.create
    _ ← zcheck memory_allocation (Z.set_window_log_max ctx hdiff_window_log_max).1
    done (record {
      ctx = (Z.set_window_log_max ctx hdiff_window_log_max).0;
      source = source;
      pos = begin;
      stop = end;
      remaining = size;
      input = [];
      at = 0;
      finished = false;
    })

  -- One round of `decompress_part`, with `room` bytes left of the output: what it writes.
  unfoldable pub part_round : ℕ → Plugin Ctx → Cpp (Plugin Ctx × Bytes)
  part_round room p = do
    require (not p.finished) status_invalid
    q ← refill p
    let s = decompress_stream q.ctx (drop q.at q.input) room
    r ← zcheck memory_allocation s.code
    require (not (s.consumed == 0) || not (length s.produced == 0)) status_invalid
    done (advanced q s r, s.produced)

  -- `while (ob.pos < ob.size)`: `out` is what has been written.
  unfoldable pub part_loop : ℕ → ℕ → Plugin Ctx → Bytes → Cpp (Plugin Ctx × Bytes)
  part_loop zero size p out = diverges
  part_loop (suc fuel) size p out = elim (length out == size) [
    | true ↦ done (p, out)
    | false ↦ part_round (size - length out) p >>= λ r. part_loop fuel size r.0 (out ++ r.1)
  ]

  -- `plugin.decompress_part` on an output of `size` bytes.
  unfoldable pub decompress_part : ℕ → Plugin Ctx → Cpp (Plugin Ctx × Bytes)
  decompress_part size p = do
    require (leb size p.remaining) status_invalid
    r ← part_loop (part_fuel size p) size p []
    done (record r.0 { remaining = r.0.remaining - size }, r.1)

  -- One round of `close`.
  unfoldable pub close_round : Plugin Ctx → Cpp (Plugin Ctx)
  close_round p = do
    q ← refill p
    let s = decompress_stream q.ctx (drop q.at q.input) 1
    r ← zcheck memory_allocation s.code
    require (length s.produced == 0) status_invalid
    require (r == 0 || not (s.consumed == 0)) status_invalid
    done (advanced q s r)

  -- `while (!self.finished)`
  unfoldable pub close_loop : ℕ → Plugin Ctx → Cpp (Plugin Ctx)
  close_loop zero p = diverges
  close_loop (suc fuel) p = elim p.finished [
    | true ↦ done p
    | false ↦ close_round p >>= λ q. close_loop fuel q
  ]

  -- `plugin.close`
  unfoldable pub close : Plugin Ctx → Cpp Bool
  close p = elim (p.remaining == 0) [
    | false ↦ done false
    | true ↦ close_loop (close_fuel p) p >>= λ q. done (q.pos == q.stop && q.at == length q.input)
  ]
