-- ===== src/Scripts/Wheel.antt =====
-- scripts/wheel.py: `retag`, which rewrites the platform tag of a built wheel.
pub mod Record
pub mod Names
pub mod Consistent
pub mod Publish
pub mod Tests
use Prim.Native.String.{◌++◌ as ◌<>◌}
use text.Mathlib.Text.{starts_with}
use pyhdiff.Base.{
  ℕ, Bool, true, false, not, Option, none, some, String, str_eq, List, [], ◌∷◌, Bytes, length, ◌==◌,
  if◌then◌else◌,
}
use pyhdiff.Scripts.Text.{ends_with}

abbrev pub platform : String
platform = "manylinux_2_34_x86_64"

-- What `retag` keeps of a `ZipInfo`.
pub record ZipInfo : Type 0 where
  pub filename : String
  pub date_time : List ℕ
  pub compress_type : ℕ

abbrev pub ZipEntry : Type 0
ZipEntry = ZipInfo × Bytes

-- UTF-8, `str` methods, the base64 form of SHA-256 without padding, and `str` of a number.
pub record TextLibrary : Type 0 where
  pub decode : Bytes → Option String
  pub encode : String → Bytes
  pub count : String → String → ℕ
  pub replace : String → String → String → String
  pub split_lines : String → List String
  pub digest64 : Bytes → String
  pub decimal : ℕ → String

-- `StopIteration` of `next`, `UnicodeDecodeError`, `UnboundLocalError` and `SystemExit`.
pub data Refusal : Type 0 where
  stop_iteration unicode_error unbound_local : Refusal
  unexpected_tags : String → Refusal

pub data Retag (A : Type 0) : Type 0 where
  refused : Refusal → Retag A
  written : A → Retag A

infixl 5 ◌>>=◌
abbrev pub ◌>>=◌ : {A B : Type 0} → Retag A → (A → Retag B) → Retag B
refused r >>= next = refused r
written a >>= next = next a

abbrev pub or_refused : {A : Type 0} → Refusal → Option A → Retag A
or_refused r none = refused r
or_refused r (some a) = written a

-- `next(i.filename for i, _ in entries if i.filename.endswith(suffix))`
abbrev pub name_with : String → List ZipEntry → Retag String
name_with suffix [] = refused stop_iteration
name_with suffix ((info, data') ∷ entries) =
    let rest = name_with suffix entries in
    if ends_with suffix info.filename then written info.filename else rest

-- `"\n".join(lines)`
abbrev pub joined_lines : List String → String
joined_lines [] = ""
joined_lines (a ∷ []) = a
joined_lines (a ∷ (b ∷ s)) = a <> "\n" <> joined_lines (b ∷ s)

module _ (L : TextLibrary) where
  -- The line of RECORD for the file with these contents.
  abbrev pub line_for : String → Bytes → String
  line_for name content =
      name <> ",sha256=" <> L.digest64 content <> "," <> L.decimal (length content)

  abbrev pub retagged : String → String
  retagged text = L.replace text "cp312-abi3-linux_x86_64" ("cp312-abi3-" <> platform)

  abbrev pub check_tags : String → Retag Unit
  check_tags text =
      if not (L.count text "Tag: cp312-abi3-linux_x86_64\n" == 1)
      then refused (unexpected_tags text)
      else written tt

  -- An entry in the first loop, with `meta_line`; the Boolean says whether it is WHEEL.
  abbrev pub rewrite_if :
      Bool → String → ZipEntry → Option String → Retag (ZipEntry × Option String)
  rewrite_if false wheel_meta e line = written (e, line)
  rewrite_if true wheel_meta (info, data') line = do
    text ← or_refused unicode_error (L.decode data')
    _ ← check_tags text
    let changed = L.encode (retagged text)
    written ((info, changed), some (line_for wheel_meta changed))

  abbrev pub rewrite_entry : String → ZipEntry → Option String → Retag (ZipEntry × Option String)
  rewrite_entry wheel_meta e line = rewrite_if (str_eq e.0.filename wheel_meta) wheel_meta e line

  unfoldable pub rewrite_all :
      String → List ZipEntry → Option String → Retag (List ZipEntry × Option String)
  rewrite_all wheel_meta [] line = written ([], line)
  rewrite_all wheel_meta (e ∷ entries) line = do
    first ← rewrite_entry wheel_meta e line
    rest ← rewrite_all wheel_meta entries first.1
    written (first.0 ∷ rest.0, rest.1)

  -- A line of RECORD.
  abbrev pub recorded_line : String → String → String → String
  recorded_line wheel_meta meta_line line =
      if starts_with line (wheel_meta <> ",") then meta_line else line

  abbrev pub recorded_lines : String → String → List String → List String
  recorded_lines wheel_meta meta_line [] = []
  recorded_lines wheel_meta meta_line (line ∷ lines) =
      recorded_line wheel_meta meta_line line ∷ recorded_lines wheel_meta meta_line lines

  -- An entry in the second loop; the Boolean says whether it is RECORD.
  abbrev pub finish_if : Bool → String → String → ZipEntry → Retag ZipEntry
  finish_if false wheel_meta meta_line e = written e
  finish_if true wheel_meta meta_line (info, data') = do
    text ← or_refused unicode_error (L.decode data')
    let lines = recorded_lines wheel_meta meta_line (L.split_lines text)
    written (info, L.encode (joined_lines lines <> "\n"))

  abbrev pub finish_entry : String → String → String → ZipEntry → Retag ZipEntry
  finish_entry wheel_meta record_name meta_line e =
      finish_if (str_eq e.0.filename record_name) wheel_meta meta_line e

  unfoldable pub finish_all : String → String → String → List ZipEntry → Retag (List ZipEntry)
  finish_all wheel_meta record_name meta_line [] = written []
  finish_all wheel_meta record_name meta_line (e ∷ entries) = do
    first ← finish_entry wheel_meta record_name meta_line e
    rest ← finish_all wheel_meta record_name meta_line entries
    written (first ∷ rest)

  -- `meta_line` has a value behind the first loop, since WHEEL was found among the entries.
  -- `retag`: the name of the wheel that is written, and its entries.
  unfoldable pub retag : String → List ZipEntry → Retag (String × List ZipEntry)
  retag built entries = do
    let name = L.replace built "-linux_x86_64.whl" ("-" <> platform <> ".whl")
    wheel_meta ← name_with ".dist-info/WHEEL" entries
    record_name ← name_with ".dist-info/RECORD" entries
    rewritten ← rewrite_all wheel_meta entries none
    meta_line ← or_refused unbound_local rewritten.1
    final ← finish_all wheel_meta record_name meta_line rewritten.0
    written (name, final)
