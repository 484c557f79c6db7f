-- ===== src/Bridge/Streams.antt =====
-- `Input` and `Output` of src/native/bridge.cpp: the streams that HDiffPatch reads and writes.
pub mod Laws
use pyhdiff.Base.{
  ℕ, ◌+◌, ◌-◌, Bool, true, false, ◌&&◌, ◌||◌, Option, none, some, Bytes, length, take, drop, ltb,
  leb, if◌then◌else◌,
}
use pyhdiff.Status.{status_limit, status_invalid}
use pyhdiff.Bridge.Throw.{Cpp, done, require, ◌>>=◌, ◌>>◌}
use pyhdiff.Bridge.Growable.{Growable, resize, overwrite}

-- `stream.read` of an `Input`: `n` bytes from `pos` on; `none` is `hpatch_FALSE`.
unfoldable pub read : Bytes → ℕ → ℕ → Option Bytes
read bytes pos n =
    if ltb (length bytes) pos || ltb (length bytes - pos) n
    then none
    else some (take n (drop pos bytes))

module _ (alloc : ℕ → Bool) where
  -- `if (finish > self.bytes.size()) self.bytes.resize(finish);`
  unfoldable pub extend : ℕ → Growable → Cpp Growable
  extend finish g = if ltb g.size finish then resize alloc finish g else done g

  -- `stream.write` of an `Output` whose `streamSize` is `limit`. It throws or returns `hpatch_TRUE`.
  unfoldable pub write : ℕ → ℕ → Bytes → Growable → Cpp Growable
  write limit pos src g = do
    require (leb pos limit && leb (length src) (limit - pos)) status_limit
    require (leb pos g.size) status_invalid
    h ← extend (pos + length src) g
    done (record h { storage = overwrite pos src h.storage })
