-- ===== src/Scripts/Pack.antt =====
-- scripts/golden.py: `pack`, which writes the files of a directory into one archive.
pub mod Order
pub mod Listing
use Prim.Native.Char.{code}
use Prim.Native.String.{[] as empty, ◌∷◌ as ◌⊳◌}
use pyhdiff.Base.{
  ℕ, Bool, true, false, ◌&&◌, Option, none, some, String, List, [], ◌∷◌, Bytes, length, ltb, ◌==◌,
  if◌then◌else◌,
}

-- `a <= b` of `str`, by code points.
unfoldable pub before : String → String → Bool
before empty t = true
before (c ⊳ s) empty = false
before (c ⊳ s) (d ⊳ t) =
    let rest = before s t in if ltb (code c) (code d) then true else code c == code d && rest

abbrev pub insert : String → List String → List String
insert name [] = name ∷ []
insert name (n ∷ names) =
    let rest = insert name names in if before name n then name ∷ n ∷ names else n ∷ rest

-- `sorted`. Python's sort is stable, which two equal names do not show.
unfoldable pub sorted : List String → List String
sorted [] = []
sorted (n ∷ names) = insert n (sorted names)

-- What `pack` sets of a `TarInfo`, and what the constructor leaves: no time and no owner.
pub record TarEntry : Type 0 where
  pub name : String
  pub size : ℕ
  pub mode : ℕ
  pub mtime : ℕ
  pub uid : ℕ
  pub gid : ℕ
  pub content : Bytes

-- The writers of `tarfile`, in the USTAR format, and of `gzip`, with the time and the name that they
-- record.
pub record Archivers : Type 0 where
  pub tar : List TarEntry → Bytes
  pub gzip : ℕ → String → Bytes → Bytes

-- `read` is what stands below the directory by name, `none` where it cannot be opened.
module _ (read : String → Option Bytes) where
  abbrev pub entry_for : String → Bytes → TarEntry
  entry_for name content = record {
    name = name;
    size = length content;
    mode = 420;
    mtime = 0;
    uid = 0;
    gid = 0;
    content = content;
  }

  abbrev with_entry : Option TarEntry → Option (List TarEntry) → Option (List TarEntry)
  with_entry none entries = none
  with_entry (some e) none = none
  with_entry (some e) (some es) = some (e ∷ es)

  -- The body of the loop; `none` for the `OSError` of a file that does not open.
  abbrev pub tar_entry : String → Option Bytes → Option TarEntry
  tar_entry name none = none
  tar_entry name (some content) = some (entry_for name content)

  unfoldable pub tar_entries : List String → Option (List TarEntry)
  tar_entries [] = some []
  tar_entries (name ∷ names) = with_entry (tar_entry name (read name)) (tar_entries names)

  abbrev archived : Archivers → Option (List TarEntry) → Option Bytes
  archived A none = none
  archived A (some entries) = some (A.gzip 0 "" (A.tar entries))

  -- `pack`, on the names in the order in which `iterdir` gives them.
  unfoldable pub pack : Archivers → List String → Option Bytes
  pack A listing = archived A (tar_entries (sorted listing))
