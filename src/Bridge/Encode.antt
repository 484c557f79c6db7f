-- ===== src/Bridge/Encode.antt =====
-- `zstd_encode` of src/native/bridge.cpp, with the null callback that its callers pass.
pub mod Run
pub mod Calls
pub mod Laws
pub mod Failures
use pyhdiff.Base.{
  ℕ, zero, suc, ◌+◌, ◌-◌, ◌≤◌, ◌<◌, ◌≡◌, min, Bool, true, false, not, ◌&&◌, ◌||◌, Option, List, [],
  ◌∷◌, Bytes, length, take, drop, ltb, leb, ◌==◌, if◌then◌else◌,
}
use pyhdiff.Status.{raw_max, payload_max, frame_max, status_limit}
use pyhdiff.Bridge.Throw.{Cpp, diverges, done, require, ◌>>=◌, ◌>>◌}
use pyhdiff.Bridge.Zstd.{Step, Code, value, zcheck}
use pyhdiff.Bridge.Apply.{created, chunk_size}
use pyhdiff.Bridge.Options.{Options}
use pyhdiff.Bridge.Growable.{Growable, empty, append}
use pyhdiff.Bridge.Tuning.{Presets, Parameter, settings}

-- The compressor of zstd.h. A call neither reads past its input buffer nor writes past its output
-- buffer.
pub record Encoder : Type 1 where
  pub Ctx : Type 0
  pub create : Option Ctx
  pub set_parameter : Ctx → Parameter → ℕ → Ctx × Code
  pub set_pledged_size : Ctx → ℕ → Ctx × Code
  pub ref_prefix : Ctx → Bytes → Ctx × Code
  pub compress_stream : Ctx → Bytes → ℕ → Bool → Step Ctx
  pub presets : Presets
  pub memory_allocation : ℕ
  pub consumed-le :
      (c : Ctx) (src : Bytes) (room : ℕ) (end : Bool)
      → Step.consumed (compress_stream c src room end) ≤ length src
  pub produced-le :
      (c : Ctx) (src : Bytes) (room : ℕ) (end : Bool)
      → length (Step.produced (compress_stream c src room end)) ≤ room

-- `Limits`, `kCodecLimits` and `kFrameLimits`
pub record Limits : Type 0 where
  pub input : ℕ
  pub output : ℕ

abbrev pub codec_limits : Limits
codec_limits = record { input = raw_max; output = payload_max }

abbrev pub frame_limits : Limits
frame_limits = record { input = frame_max; output = frame_max }

-- What the loops carry: the context, the position in the chunk, and `encoded`.
pub record Flow (C : Type 0) : Type 0 where
  pub ctx : C
  pub at : ℕ
  pub encoded : Growable

-- A call for a chunk that asks for another has read or written a byte, so this is enough.
abbrev pub calls_for : ℕ → Growable → ℕ
calls_for limit encoded = chunk_size + (limit - encoded.size) + 1

module _ (alloc : ℕ → Bool) (Z : Encoder) where
  open Z use {Ctx, compress_stream, memory_allocation}

  -- The lambda `set` for each setting in turn.
  unfoldable pub set_all : List (Parameter × ℕ) → Ctx → Cpp Ctx
  set_all [] ctx = done ctx
  set_all ((p, v) ∷ rest) ctx = zcheck memory_allocation (Z.set_parameter ctx p v).1 >>= λ _.
      set_all rest (Z.set_parameter ctx p v).0

  -- One call on what is left of the chunk; `true` asks for another.
  unfoldable pub encode_call : ℕ → Bytes → Bool → Flow Ctx → Cpp (Bool × Flow Ctx)
  encode_call limit chunk last f = do
    let s = compress_stream f.ctx (drop f.at chunk) chunk_size last
    remaining ← zcheck memory_allocation s.code
    require (leb (length s.produced) (limit - f.encoded.size)) status_limit
    encoded ← append alloc s.produced f.encoded
    done (
      if last then not (remaining == 0) else not (f.at + s.consumed == length chunk),
      record { ctx = s.ctx; at = f.at + s.consumed; encoded = encoded },
    )

  -- `do { … } while (last ? remaining != 0 : ib.pos != ib.size);`
  unfoldable pub chunk_loop : ℕ → ℕ → Bytes → Bool → Flow Ctx → Cpp (Flow Ctx)
  chunk_loop zero limit chunk last f = diverges
  chunk_loop (suc fuel) limit chunk last f = encode_call limit chunk last f >>= λ r. elim r.0 [
    | true ↦ chunk_loop fuel limit chunk last r.1
    | false ↦ done r.1
  ]

  -- `do { … } while (pos != tn);`, on the rest of the target.
  unfoldable pub encode_loop : ℕ → ℕ → Bytes → Ctx → Growable → Cpp Growable
  encode_loop zero limit target ctx encoded = diverges
  encode_loop (suc rounds) limit target ctx encoded =
      chunk_loop (calls_for limit encoded) limit (take chunk_size target)
        (leb (length target) chunk_size) (record { ctx = ctx; at = 0; encoded = encoded })
      >>= λ f. elim (leb (length target) chunk_size) [
        | true ↦ done f.encoded
        | false ↦ encode_loop rounds limit (drop chunk_size target) f.ctx f.encoded
      ]

  unfoldable pub open_encode : Bytes → Bytes → Options → Cpp Ctx
  unfolding zcheck
  open_encode base target o = do
    ctx ← created Z.create
    set ← set_all (settings Z.presets o (length base) (length target)) ctx
    _ ← zcheck memory_allocation (Z.set_pledged_size set (length target)).1
    let pledged = (Z.set_pledged_size set (length target)).0
    _ ← zcheck memory_allocation (Z.ref_prefix pledged base).1
    done (Z.ref_prefix pledged base).0

  -- A round for each chunk, of which there are no more than bytes, and one for the empty target.
  unfoldable pub zstd_encode : Bytes → Bytes → Options → Limits → Cpp Growable
  zstd_encode base target o limits = do
    require (leb (length base) raw_max && leb (length target) limits.input) status_limit
    ctx ← open_encode base target o
    encode_loop (length target + 1) limits.output target ctx empty
