-- ===== src/Bridge/Growable.antt =====
-- `Growable` of src/native/bridge.cpp: malloc storage that grows without filling.
pub mod Contents
pub mod Memory
use pyhdiff.Base.{
  ℕ, ◌+◌, ◌-◌, ◌/◌, ◌≤◌, max, Bool, true, false, some, [], Bytes, ◌++◌, length, take, drop,
  replicate, ltb, ◌==◌, if◌then◌else◌,
}
use pyhdiff.Status.{status_ok}
use pyhdiff.Bridge.Throw.{Cpp, done, throw, bad_alloc, ◌>>=◌, PhdResult}

-- The storage that realloc gave, whose length is the capacity, and how much of it is in use.
-- No storage stands for the null pointer: grow_to is never asked for 0 bytes.
pub record Growable : Type 0 where
  pub storage : Bytes
  pub size : ℕ

abbrev pub capacity : Growable → ℕ
capacity g = length g.storage

abbrev pub contents : Growable → Bytes
contents g = take g.size g.storage

-- `Growable()`
abbrev pub empty : Growable
empty = record { storage = []; size = 0 }

-- Bytes laid over others from an offset on.
abbrev pub overwrite : ℕ → Bytes → Bytes → Bytes
overwrite pos src dst = take pos dst ++ (src ++ drop (pos + length src) dst)

-- `alloc` says for how many bytes realloc succeeds.
module _ (alloc : ℕ → Bool) where
  -- What realloc adds is unspecified; nothing reads it before it is written.
  unfoldable pub grow_to : ℕ → Growable → Cpp Growable
  grow_to n g =
      if alloc n
      then done (record g { storage = take n g.storage ++ replicate (n - capacity g) 0 })
      else throw bad_alloc

  -- `Growable(reserve)`
  unfoldable pub reserve : ℕ → Cpp Growable
  unfolding grow_to
  reserve n = if n == 0 then done empty else grow_to n empty

  -- `spare(minimum)`: afterwards at least `minimum` bytes of storage lie past the size.
  unfoldable pub spare : ℕ → Growable → Cpp Growable
  spare minimum g =
      if ltb (capacity g - g.size) minimum
      then grow_to (max (g.size + minimum) (capacity g + capacity g / 2)) g
      else done g

  unfoldable pub resize : ℕ → Growable → Cpp Growable
  resize n g = do
    h ← if ltb g.size n then spare (n - g.size) g else done g
    done (record h { size = n })

  unfoldable pub append : Bytes → Growable → Cpp Growable
  append b g = do
    h ← spare (length b) g
    done (record { storage = overwrite h.size b h.storage; size = h.size + length b })

  unfoldable pub release : Growable → Cpp PhdResult
  release g = do
    h ← if capacity g == 0 then grow_to 1 g else done g
    done (record { contents = some (contents h); status = status_ok })

-- Bytes that a decoder wrote into the spare storage, before `resize` counts them.
abbrev pub write_spare : Bytes → Growable → Growable
write_spare b g = record g { storage = overwrite g.size b g.storage }
