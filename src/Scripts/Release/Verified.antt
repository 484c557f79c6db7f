-- ===== src/Scripts/Release/Verified.antt =====
-- What `import_release` commits was checked against the published digests.
use Prim.Native.String.{◌++◌ as ◌<>◌}
use pyhdiff.Base.{◌≡◌, some, String, List, Bytes}
use pyhdiff.Scripts.Release.{Located, within, elsewhere, Library, finished, read_file}

module _ (L : Library) where
  -- A path leads to this content: in the committed file of that name, or elsewhere.
  abbrev pub Holds : List (String × Bytes) → Located → Bytes → Type 0
  Holds files (within name) content = read_file L name files ≡ finished content
  Holds files (elsewhere o) content = o ≡ some content

  -- What the path of the blob leads to has the recorded digest.
  abbrev pub IsIntact : (String → Located) → List (String × Bytes) → String × String → Type 0
  IsIntact located files (blob, sha) =
      (content : Bytes) × Holds files (located blob) content × (L.hex_digest content ≡ sha)
