-- ===== src/Bridge/Compress.antt =====
-- `compress` of src/native/bridge.cpp: the compression plugin that HDiffPatch calls on a part of the
-- diff, without the check under PHD_TEST.
pub mod Calls
pub mod Laws
pub mod Tests
use pyhdiff.Base.{
  ℕ, zero, suc, ◌+◌, ◌-◌, ◌≤◌, ◌≡◌, min, Bool, true, false, not, Option, none, some, List, [], ◌∷◌,
  Bytes, length, drop, ◌==◌, if◌then◌else◌,
}
use pyhdiff.Status.{status_invalid}
use pyhdiff.Bridge.Throw.{Cpp, diverges, done, throw, Thrown, failure, ◌>>=◌, ◌>>◌}
use pyhdiff.Bridge.Zstd.{Step, zcheck}
use pyhdiff.Bridge.Apply.{created}
use pyhdiff.Bridge.Options.{Options}
use pyhdiff.Bridge.Hdiff.{cache_allocated}
use pyhdiff.Bridge.Decompress.{read_or_fail}
use pyhdiff.Bridge.Tuning.{
  Parameter, compression_level, window_log, nb_workers, content_size_flag, checksum_flag,
}
use pyhdiff.Bridge.Encode.{Encoder, set_all}

-- `hpatch_TStreamInput`: `n` bytes from a position on, `none` for `hpatch_FALSE`.
pub record Source : Type 0 where
  pub size : ℕ
  pub read : ℕ → ℕ → Option Bytes

-- What a write to `hpatch_TStreamOutput` does.
pub data Put (S : Type 0) : Type 0 where
  accepted : S → Put S
  refused : S → Put S
  put_threw : Thrown → Put S

-- `hpatch_TStreamOutput` of HDiffPatch. It accepts no write past its size.
pub record Sink : Type 1 where
  pub State : Type 0
  pub size : ℕ
  pub write : State → ℕ → Bytes → Put State
  pub accepted-le :
      (s : State) (at : ℕ) (b : Bytes) {t : State}
      → write s at b ≡ accepted t
      → at + length b ≤ size

-- What the loops carry: the context, the position in the chunk, the stream and `written`.
pub record Stream (C S : Type 0) : Type 0 where
  pub ctx : C
  pub at : ℕ
  pub sink : S
  pub written : ℕ

-- The loop over a chunk ends, or has its output refused.
pub data Left (C S : Type 0) : Type 0 where
  turned : Stream C S → Left C S
  abandoned : S → Left C S

-- A call asks for another, or leaves the loop.
pub data Turn (C S : Type 0) : Type 0 where
  again : Stream C S → Turn C S
  ended : Left C S → Turn C S

-- The parameters that `compress` sets, in order.
abbrev pub plugin_settings : Options → List (Parameter × ℕ)
plugin_settings o =
    (compression_level, o.level)
    ∷ (window_log, o.window_log)
    ∷ (nb_workers, 0)
    ∷ (content_size_flag, o.content_size)
    ∷ (checksum_flag, o.checksum)
    ∷ []

-- A call that asks for another has read or written a byte, so this fuel is enough.
abbrev pub turns_for : ℕ → ℕ → ℕ → ℕ
turns_for chunk_length sink_size written = chunk_length + (sink_size - written) + 1

-- `in_size` and `out_size` are `ZSTD_CStreamInSize()` and `ZSTD_CStreamOutSize()`.
module _ (alloc : ℕ → Bool) (Z : Encoder) (K : Sink) (in_size out_size : ℕ) where
  open Z use {Ctx, compress_stream, memory_allocation}
  open K use {State}

  -- `out->write(...)`, and the test of the loop, which is given.
  abbrev pub put_turn : Put State → Bool → Ctx → ℕ → ℕ → Cpp (Turn Ctx State)
  put_turn (put_threw t) more ctx at written = throw t
  put_turn (refused s) more ctx at written = done (ended (abandoned s))
  put_turn (accepted s) true ctx at written =
      done (again (record { ctx = ctx; at = at; sink = s; written = written }))
  put_turn (accepted s) false ctx at written =
      done (ended (turned (record { ctx = ctx; at = at; sink = s; written = written })))

  -- One round of the inner loop.
  unfoldable pub compress_turn : Bytes → Bool → Stream Ctx State → Cpp (Turn Ctx State)
  compress_turn chunk last f =
      let s = compress_stream f.ctx (drop f.at chunk) out_size last in
      zcheck memory_allocation s.code >>= λ remaining.
      put_turn (K.write f.sink f.written s.produced)
        (if last then not (remaining == 0) else not (f.at + s.consumed == length chunk)) s.ctx
        (f.at + s.consumed) (f.written + length s.produced)

  -- `do { … } while (last ? remaining != 0 : ib.pos != ib.size);`
  unfoldable pub turn_loop : ℕ → Bytes → Bool → Stream Ctx State → Cpp (Left Ctx State)
  turn_loop zero chunk last f = diverges
  turn_loop (suc fuel) chunk last f = compress_turn chunk last f >>= λ r. elim r [
    | again g ↦ turn_loop fuel chunk last g
    | ended l ↦ done l
  ]

  -- `do { … } while (true);` with the position `at` in the source: the result, and the stream.
  unfoldable pub source_loop : ℕ → Source → ℕ → Ctx → State → ℕ → Cpp (ℕ × State)
  source_loop zero src at ctx sink written = diverges
  source_loop (suc rounds) src at ctx sink written =
      let n = min in_size (src.size - at) in
      let last = at + n == src.size in
      read_or_fail (src.read at n) >>= λ chunk.
      turn_loop (turns_for n K.size written) chunk last
        (record { ctx = ctx; at = 0; sink = sink; written = written })
      >>= λ r. elim r [
        | abandoned s ↦ done (0, s)
        | turned g ↦ elim last [
          | true ↦ done (g.written, g.sink)
          | false ↦ source_loop rounds src (at + n) g.ctx g.sink g.written
        ]
      ]

  unfoldable pub open_compress : Options → ℕ → Cpp Ctx
  unfolding zcheck
  open_compress o size = do
    ctx ← created Z.create
    cache_allocated (alloc in_size)
    cache_allocated (alloc out_size)
    set ← set_all alloc Z (plugin_settings o) ctx
    _ ← zcheck memory_allocation (Z.set_pledged_size set size).1
    done (Z.set_pledged_size set size).0

  -- `compress`: what it returns, and what it leaves of the stream. A round for each chunk, of which
  -- there are no more than bytes, and one for an empty source.
  unfoldable pub compress : Options → Source → State → Cpp (ℕ × State)
  compress o src sink = do
    ctx ← open_compress o src.size
    source_loop (src.size + 1) src 0 ctx sink 0
