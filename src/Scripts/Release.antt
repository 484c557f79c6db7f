-- ===== src/Scripts/Release.antt =====
-- scripts/golden.py: `import_release`.
pub mod Verified
use Prim.Native.String.{◌++◌ as ◌<>◌}
use pyhdiff.Base.{
  ◌≡◌, refl, Bool, true, false, not, Option, none, some, String, str_eq, List, [], ◌∷◌, Bytes,
  if◌then◌else◌,
}

-- What a path below the directory of the extracted archive leads to: a file of that directory, by its
-- name, or something else, such as manifest.json, a file below a subdirectory, or a file of the machine
-- for an absolute path or one with `..`; with what it holds, if it can be read.
pub data Located : Type 0 where
  within : String → Located
  elsewhere : Option Bytes → Located

-- What the script reads of an extracted archive.
pub record Unpacked : Type 0 where
  pub version : String
  -- `blob` and `blob_sha256` of each entry.
  pub entries : List (String × String)
  -- The files right below the directory but manifest.json, by name.
  pub files : List (String × Bytes)
  -- `Path(tmp) / name`
  pub located : String → Located
  pub has_subdirectory : Bool

-- The methods of `str` that the script calls, `hexdigest` of SHA-256, and `extractall` with the
-- parsed manifest.json.
pub record Library : Type 0 where
  pub without_prefix : String → String → String
  pub ends_with : String → String → Bool
  pub first_word : String → String
  pub hex_digest : Bytes → String
  pub extract : Bytes → Unpacked

-- What ends the script early: no line for the archive, a blob that cannot be read, a subdirectory,
-- or a message.
pub data Stop : Type 0 where
  no_line no_blob is_a_directory : Stop
  system_exit : String → Stop

pub data Script (A : Type 0) : Type 0 where
  stopped : Stop → Script A
  finished : A → Script A

infixl 5 ◌>>=◌
abbrev pub ◌>>=◌ : {A B : Type 0} → Script A → (A → Script B) → Script B
stopped s >>= next = stopped s
finished a >>= next = next a

infixl 5 ◌>>◌
abbrev pub ◌>>◌ : {B : Type 0} → Script Unit → Script B → Script B
first >> second = first >>= (λ _. second)

-- `if bad: raise SystemExit(message)`
abbrev pub exit_if : Bool → String → Script Unit
exit_if true message = stopped (system_exit message)
exit_if false message = finished tt

-- What is committed below tests/golden/TAG: the blobs, and the manifest with its release asset.
pub record Imported : Type 0 where
  pub corpus : Unpacked
  pub asset_name : String
  pub asset_sha256 : String

abbrev pub archive_name : String → String
archive_name version = "pyhdiff-" <> version <> "-golden.tar.gz"

module _ (L : Library) where
  -- `next(line.split()[0] for line in sums.splitlines() if line.endswith(f"  {name}"))`
  unfoldable pub expected_digest : String → List String → Script String
  expected_digest name [] = stopped no_line
  expected_digest name (line ∷ lines) =
      let rest = expected_digest name lines in
      if L.ends_with line ("  " <> name) then finished (L.first_word line) else rest

  -- The file of that name.
  unfoldable pub read_file : String → List (String × Bytes) → Script Bytes
  read_file name [] = stopped no_blob
  read_file name ((n, content) ∷ files) =
      let rest = read_file name files in if str_eq n name then finished content else rest

  -- `(Path(tmp) / entry["blob"]).read_bytes()`
  unfoldable pub read_blob : Located → List (String × Bytes) → Script Bytes
  read_blob (within name) files = read_file name files
  read_blob (elsewhere none) files = stopped no_blob
  read_blob (elsewhere (some content)) files = finished content

  -- `for entry in manifest["entries"]`
  unfoldable pub check_blobs :
      (String → Located) → List (String × Bytes) → List (String × String) → Script Unit
  check_blobs located files [] = finished tt
  check_blobs located files ((blob, sha) ∷ entries) = do
    content ← read_blob (located blob) files
    exit_if (not (str_eq (L.hex_digest content) sha)) ("corrupt corpus entry " <> blob)
    check_blobs located files entries

  -- `for path in Path(tmp).iterdir()`, which cannot copy a directory.
  abbrev pub copy_files : Unpacked → Script Unit
  copy_files corpus = if corpus.has_subdirectory then stopped is_a_directory else finished tt

  -- `sums` and `archive` are the downloads, and `exists` says whether the directory is there.
  unfoldable pub import_release : String → List String → Bytes → Bool → Script Imported
  import_release tag sums archive exists = do
    let version = L.without_prefix tag "v"
    let name = archive_name version
    expected ← expected_digest name sums
    exit_if (not (str_eq (L.hex_digest archive) expected)) (name <> " does not match SHA256SUMS")
    exit_if exists (tag <> " exists")
    let corpus = L.extract archive
    exit_if (not (str_eq corpus.version version)) "corpus version does not match the tag"
    check_blobs corpus.located corpus.files corpus.entries
    copy_files corpus
    finished (record { corpus = corpus; asset_name = name; asset_sha256 = expected })
