-- ===== src/Scripts/Build.antt =====
-- What the statements of scripts/toolchain.py do: steps on a world that end with a value or stop
-- with an exception, and keep what they changed either way.
pub mod Keeps
use pyhdiff.Base.{
  Bool, true, false, ◌&&◌, Option, none, some, String, List, [], ◌∷◌, ◌++◌, Bytes, if◌then◌else◌,
}
use pyhdiff.Scripts.Files.{
  FilePath, Files, find, exists, without, renamed, made_directory, made_directories, written,
  contents_of,
}

-- The files, and the list `COMMANDS`.
pub record World : Type 0 where
  pub files : Files
  pub commands : List (List String)

-- `SystemExit`, `CalledProcessError`, `OSError`, and a failure of `urlopen` or of its response.
pub data Fault : Type 0 where
  system_exit : String → Fault
  command_failed : List String → Fault
  os_error download_failed : Fault

pub data Ran (A : Type 0) : Type 0 where
  stopped : Fault → World → Ran A
  finished : A → World → Ran A

abbrev pub Build : Type 0 → Type 0
Build A = World → Ran A

abbrev pub continue : {A B : Type 0} → Ran A → (A → Build B) → Ran B
continue (stopped e w) next = stopped e w
continue (finished a w) next = next a w

infixl 5 ◌>>=◌
abbrev pub ◌>>=◌ : {A B : Type 0} → Build A → (A → Build B) → Build B
first >>= next = λ w. continue (first w) next

infixl 5 ◌>>◌
abbrev pub ◌>>◌ : {B : Type 0} → Build Unit → Build B → Build B
first >> second = first >>= (λ _. second)

abbrev pub give : {A : Type 0} → A → Build A
give a w = finished a w

abbrev pub stop : {A : Type 0} → Fault → Build A
stop e w = stopped e w

-- `if bad: raise SystemExit(message)`
abbrev pub exit_if : Bool → String → Build Unit
exit_if true message = stop (system_exit message)
exit_if false message = give tt

abbrev pub look : {A : Type 0} → (Files → A) → Build A
look f w = finished (f w.files) w

abbrev pub or_error : Option Files → Build Unit
or_error none w = stopped os_error w
or_error (some fs) w = finished tt (record w { files = fs })

abbrev pub make_directory : Bool → FilePath → Build Unit
make_directory exist_ok p w = or_error (made_directory exist_ok p w.files) w

abbrev pub make_directories : Bool → FilePath → Build Unit
make_directories exist_ok p w = or_error (made_directories exist_ok p w.files) w

-- `shutil.rmtree(p, ignore_errors=True)`
abbrev pub remove_tree : FilePath → Build Unit
remove_tree p w = finished tt (record w { files = without p w.files })

-- `shutil.rmtree(p)`
abbrev pub remove_existing : FilePath → Build Unit
remove_existing p w = or_error (if exists p w.files then some (without p w.files) else none) w

abbrev pub rename : FilePath → FilePath → Build Unit
rename source target w = or_error (renamed source target w.files) w

abbrev pub write_file : FilePath → Bytes → Build Unit
write_file p b w = or_error (written p b w.files) w

abbrev pub given : {A : Type 0} → Option A → Build A
given none = stop os_error
given (some a) = give a

abbrev pub read_file : FilePath → Build Bytes
read_file p w = given (contents_of (find p w.files)) w
