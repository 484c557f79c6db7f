-- ===== src/Scripts/Generate.antt =====
-- scripts/golden.py: `generate`, which writes a corpus with its manifest.
pub mod Names
pub mod Importable
use Prim.Native.String.{◌++◌ as ◌<>◌}
use pyhdiff.Base.{
  ℕ, Bool, true, false, Option, none, some, String, str_eq, List, [], ◌∷◌, Bytes, if◌then◌else◌,
}
use pyhdiff.Errors.{Result, ok, ◌>>=◌}
use pyhdiff.Native.{Native}
use pyhdiff.Api.{Hash, format_version}
use pyhdiff.Scripts.Text.{before_last_dot}
use pyhdiff.Scripts.Golden.{Spec, Kind, Entry, encode_corpus}

-- An entry of manifest.json.
pub record Listed : Type 0 where
  pub name : String
  pub kind : Kind
  pub blob : String
  pub blob_sha256 : String
  pub base_file : String
  pub target_file : String
  pub target_sha256 : String

-- The directory that `generate` leaves: the blobs by name, and what manifest.json holds.
pub record Generated : Type 0 where
  pub blobs : List (String × Bytes)
  pub pyhdiff_version : String
  pub format : ℕ
  pub inputs : String
  pub entries : List Listed

abbrev pub without_file : String → List (String × Bytes) → List (String × Bytes)
without_file name [] = []
without_file name ((n, content) ∷ files) =
    let rest = without_file name files in if str_eq n name then rest else (n, content) ∷ rest

-- `(out / name).write_bytes(blob)`, which replaces a file of that name.
abbrev pub put : String → Bytes → List (String × Bytes) → List (String × Bytes)
put name content files = (name, content) ∷ without_file name files

unfoldable pub put_all : List Entry → List (String × Bytes) → List (String × Bytes)
put_all [] written = written
put_all (e ∷ es) written = put_all es (put e.name e.blob written)

-- `hex_digest` is `hexdigest` of SHA-256, `files` what `inputs` reads.
module _ (hex_digest : Bytes → String) (files : String → Bytes) where
  abbrev pub listed : Entry → Listed
  listed e = record {
    name = before_last_dot e.name;
    kind = e.kind;
    blob = e.name;
    blob_sha256 = hex_digest e.blob;
    base_file = e.base_file;
    target_file = e.target_file;
    target_sha256 = hex_digest (files e.target_file);
  }

  abbrev pub all_listed : List Entry → List Listed
  all_listed [] = []
  all_listed (e ∷ es) = listed e ∷ all_listed es

  -- `generate`. A failure leaves the blobs of the entries before it, which are not shown here.
  unfoldable pub generate :
      Hash → Native → (String → Spec) → String → List (String × Bytes) → Result Generated
  generate H N specs version before = do
    entries ← encode_corpus H N files specs
    ok (record {
      blobs = put_all entries before;
      pyhdiff_version = version;
      format = format_version;
      inputs = "tests/vectors";
      entries = all_listed entries;
    })
