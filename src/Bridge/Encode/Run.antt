-- ===== src/Bridge/Encode/Run.antt =====
-- Runs of the compressor on a source that is fed to it a chunk at a time.
use pyhdiff.Base.{
  ℕ, ◌+◌, ◌≤◌, ◌<◌, ◌≡◌, refl, length-drop, arith, Bool, true, false, not, Bytes, ◌++◌, length,
  take, drop, ◌==◌, if◌then◌else◌,
}
use pyhdiff.Bridge.Zstd.{Step, value}
use pyhdiff.Bridge.Encode.{Encoder}

-- After a call with the result `remaining` on `size` bytes the loop goes on.
abbrev pub wants_call : {C : Type 0} → Bool → ℕ → ℕ → Step C → Bool
wants_call last size remaining s = if last then not (remaining == 0) else not (s.consumed == size)

-- zstd.h: a call that leaves work to do, with room in the output, has consumed or produced a byte.
abbrev pub MakesProgress : Encoder → Type 0
MakesProgress Z =
    (c : Encoder.Ctx Z) (src : Bytes) (room : ℕ) (last : Bool) (n : ℕ)
    → 0 < room
    → Step.code (Encoder.compress_stream Z c src room last) ≡ value n
    → wants_call last (length src) n (Encoder.compress_stream Z c src room last) ≡ true
    → 0
      < Step.consumed (Encoder.compress_stream Z c src room last)
        + length (Step.produced (Encoder.compress_stream Z c src room last))

module _ (Z : Encoder) (room : ℕ) where
  open Z use {Ctx, compress_stream}

  -- A run of calls on a chunk, each with so much room, the context after it, and what it writes. It
  -- ends with the frame flushed, or with a chunk that is not the last one read to its end.
  pub data Compressing (last : Bool) (end : Ctx) : Ctx → Bytes → Bytes → Type 0 where
    stop :
        (c : Ctx) (src : Bytes) (n : ℕ)
        → Step.code (compress_stream c src room last) ≡ value n
        → wants_call last (length src) n (compress_stream c src room last) ≡ false
        → end ≡ Step.ctx (compress_stream c src room last)
        → Compressing last end c src (Step.produced (compress_stream c src room last))
    more :
        (c : Ctx) (src : Bytes) (n : ℕ) {rest : Bytes}
        → Step.code (compress_stream c src room last) ≡ value n
        → Compressing last end
            (Step.ctx (compress_stream c src room last))
            (drop (Step.consumed (compress_stream c src room last)) src)
            rest
        → Compressing last end c src (Step.produced (compress_stream c src room last) ++ rest)

  -- A run over a source, in chunks of `size` bytes, that flushes the frame with the last chunk, and
  -- what it writes.
  pub data Encoding (size : ℕ) : Ctx → Bytes → Bytes → Type 0 where
    last_chunk :
        (c end : Ctx) (src : Bytes) {out : Bytes}
        → length src ≤ size
        → Compressing true end c (take size src) out
        → Encoding size c src out
    next_chunk :
        (c next : Ctx) (src : Bytes) {out rest : Bytes}
        → size < length src
        → Compressing false next c (take size src) out
        → Encoding size next (drop size src) rest
        → Encoding size c src (out ++ rest)

pub again-eq-wants_call :
    {C : Type 0} (chunk : Bytes) (last : Bool) (at n : ℕ) (s : Step C)
    → at ≤ length chunk
    → (if last then not (n == 0) else not (at + s.consumed == length chunk))
      ≡ wants_call last (length (drop at chunk)) n s
again-eq-wants_call chunk true at n s h = refl
again-eq-wants_call chunk false at n s h = ground (arith, length-drop at chunk)
