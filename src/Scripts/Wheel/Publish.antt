-- ===== src/Scripts/Wheel/Publish.antt =====
-- scripts/wheel.py: `policy`, and `main` behind its argument parser. The directory of the release is a
-- list of files by name.
pub mod Wheels
pub mod Published
pub mod Tests
use Prim.Native.String.{[] as empty, ◌∷◌ as ◌⊳◌, ◌++◌ as ◌<>◌}
use text.Mathlib.Text.{◌==◌ as str_eq}
use pyhdiff.Base.{
  ℕ, Bool, true, false, ◌||◌, Option, none, some, String, List, [], ◌∷◌, Bytes, ltb, if◌then◌else◌,
}
use pyhdiff.Scripts.Text.{ends_with}
use pyhdiff.Scripts.Generate.{put}
use pyhdiff.Scripts.Checks.{Environment, with_variable}
use pyhdiff.Scripts.Wheel.{platform, ZipEntry, TextLibrary, Refusal, Retag, refused, written, retag}

-- What `pip wheel` leaves: the wheels in its directory, and the files `_native.debug` of the build.
pub record Built : Type 0 where
  pub wheels : List (String × Bytes)
  pub debug_files : List Bytes

-- The commands, `none` where one fails: `git log`, `pip wheel` in an empty build directory, and
-- `auditwheel show`. `search` is the number of the first match of the pattern of `policy` in the words
-- of a text.
pub record Host : Type 0 where
  pub commit_time : Environment → Option String
  pub pip_wheel : Environment → Option Built
  pub audit : Bytes → Environment → Option String
  pub search : String → Option ℕ
  pub read_zip : Bytes → Option (List ZipEntry)
  pub write_zip : List ZipEntry → Bytes
  pub hex_digest : Bytes → String

-- `CalledProcessError`, the `ValueError` of an unpacking, the two messages of `SystemExit`, a wheel that
-- is no archive, a file that is not there, and what stops `retag`.
pub data Trouble : Type 0 where
  command_failed value_error no_policy too_new bad_zip no_file : Trouble
  not_retagged : Refusal → Trouble

abbrev pub Release : Type 0
Release = List (String × Bytes)

-- The script stops, or goes on, with what the directory of the release holds.
pub data Attempt (A : Type 0) : Type 0 where
  stopped : Trouble → Release → Attempt A
  finished : A → Release → Attempt A

abbrev pub Publishing : Type 0 → Type 0
Publishing A = Release → Attempt A

abbrev pub proceed : {A B : Type 0} → Attempt A → (A → Publishing B) → Attempt B
proceed (stopped t out) next = stopped t out
proceed (finished a out) next = next a out

infixl 5 ◌>>=◌
abbrev pub ◌>>=◌ : {A B : Type 0} → Publishing A → (A → Publishing B) → Publishing B
first >>= next = λ out. proceed (first out) next

infixl 5 ◌>>◌
abbrev pub ◌>>◌ : {B : Type 0} → Publishing Unit → Publishing B → Publishing B
first >> second = first >>= (λ _. second)

abbrev pub give : {A : Type 0} → A → Publishing A
give a out = finished a out

abbrev pub or_trouble : {A : Type 0} → Trouble → Option A → Publishing A
or_trouble t none out = stopped t out
or_trouble t (some a) out = finished a out

-- `(a,) = items`
abbrev pub only : {A : Type 0} → List A → Option A
only [] = none
only (a ∷ []) = some a
only (a ∷ (b ∷ s)) = none

-- What stands behind a prefix.
abbrev pub after_prefix : String → String → Option String
after_prefix empty s = some s
after_prefix (c ⊳ p) empty = none
after_prefix (c ⊳ p) (d ⊳ s) =
    let rest = after_prefix p s in if str_eq (c ⊳ empty) (d ⊳ empty) then rest else none

abbrev pub ends_in : String → Option String → Bool
ends_in suffix none = false
ends_in suffix (some s) = ends_with suffix s

-- A name that the pattern "pyhdiff-*" with this end matches.
abbrev pub is_match : String → String → Bool
is_match suffix name = ends_in suffix (after_prefix "pyhdiff-" name)

-- `out.glob(...)`
abbrev pub glob : String → Release → List String
glob suffix [] = []
glob suffix ((name, content) ∷ files) =
    let rest = glob suffix files in if is_match suffix name then name ∷ rest else rest

-- `stale.unlink()` for all of both patterns.
abbrev pub is_stale : String → Bool
is_stale name = is_match ".whl" name || is_match ".debug" name

abbrev pub without_stale : Release → Release
without_stale [] = []
without_stale ((name, content) ∷ files) =
    let rest = without_stale files in if is_stale name then rest else (name, content) ∷ rest

abbrev pub wheel_suffix : String
wheel_suffix = "-cp312-abi3-" <> platform <> ".whl"

abbrev pub variable : String → Environment → Option String
variable name [] = none
variable name ((n, v) ∷ env) =
    let rest = variable name env in if str_eq n name then some v else rest

abbrev pub file_named : String → Release → Option Bytes
file_named name [] = none
file_named name ((n, b) ∷ files) =
    let rest = file_named name files in if str_eq n name then some b else rest

module _ (L : TextLibrary) (M : Host) where
  -- `policy`
  abbrev pub policy : Bytes → Environment → Publishing ℕ
  policy wheel env = or_trouble command_failed (M.audit wheel env) >>= λ shown.
      or_trouble no_policy (M.search shown)

  -- `env`, without the time of the commit.
  abbrev pub pinned : String → Environment → Environment
  pinned toolchain environ = with_variable "GIT_CONFIG_VALUE_0" "*" (
      with_variable "GIT_CONFIG_KEY_0" "safe.directory" (
        with_variable "GIT_CONFIG_COUNT" "1" (with_variable "PYHDIFF_TOOLCHAIN" toolchain environ)))

  abbrev pub dated : Environment → Option String → Publishing Environment
  dated env (some time) = give env
  dated env none = or_trouble command_failed (M.commit_time env) >>= λ time.
      give (with_variable "SOURCE_DATE_EPOCH" time env)

  abbrev pub retagged_into : Retag (String × List ZipEntry) → Publishing Unit
  retagged_into (refused r) out = stopped (not_retagged r) out
  retagged_into (written w) out = finished tt (put w.0 (M.write_zip w.1) out)

  abbrev pub refuse_newer : ℕ → Publishing Unit
  refuse_newer n out = if ltb 34 n then stopped too_new out else finished tt out

  abbrev pub remove_stale : Publishing Unit
  remove_stale out = finished tt (without_stale out)

  -- `retag(built, a.out)`, with the reading and the writing of the archive.
  abbrev pub retag_into : String × Bytes → Publishing Unit
  retag_into built =
      or_trouble bad_zip (M.read_zip built.1) >>= λ entries. retagged_into (retag L built.0 entries)

  abbrev pub only_wheel : Publishing String
  only_wheel out = or_trouble value_error (only (glob wheel_suffix out)) out

  abbrev pub copy_debug : String → Bytes → Publishing Unit
  copy_debug name content out = finished tt (put name content out)

  abbrev pub digest_line : String → Publishing (String × String)
  digest_line name out =
      proceed (or_trouble no_file (file_named name out) out) λ b. give (M.hex_digest b, name)

  -- `main` up to the check of the policy: the built wheel, and the debug files of the build.
  unfoldable pub build_wheel : String → Environment → Publishing ((String × Bytes) × List Bytes)
  build_wheel toolchain environ = do
    let start = pinned toolchain environ
    env ← dated start (variable "SOURCE_DATE_EPOCH" start)
    made ← or_trouble command_failed (M.pip_wheel env)
    built ← or_trouble value_error (only made.wheels)
    newest ← policy built.1 env
    _ ← refuse_newer newest
    give (built, made.debug_files)

  -- The last loop of `main`.
  abbrev pub print_digests : String → String → Publishing (List (String × String))
  print_digests debug_name wheel =
      digest_line debug_name >>= λ first. digest_line wheel >>= λ second. give (first ∷ second ∷ [])

  -- The rest of `main`: the printed digests with their names.
  unfoldable pub release_wheel : (String × Bytes) × List Bytes → Publishing (List (String × String))
  release_wheel (built, debug_files) = do
    _ ← remove_stale
    _ ← retag_into built
    wheel ← only_wheel
    debug ← or_trouble value_error (only debug_files)
    _ ← copy_debug (L.replace wheel ".whl" ".debug") debug
    print_digests (L.replace wheel ".whl" ".debug") wheel

  unfoldable pub main : String → Environment → Publishing (List (String × String))
  main toolchain environ = build_wheel toolchain environ >>= release_wheel
