-- ===== src/Scripts/Files.antt =====
-- The file system as scripts/toolchain.py sees it through pathlib and shutil: a list of paths with
-- what stands there. The root is a directory and has no entry.
pub mod Paths
pub mod Moves
use Prim.Native.String.{◌++◌ as ◌<>◌}
use pyhdiff.Base.{
  Bool, true, false, not, ◌&&◌, ◌||◌, Option, none, some, String, str_eq, List, [], ◌∷◌, ◌++◌,
  Bytes, if◌then◌else◌,
}

abbrev pub FilePath : Type 0
FilePath = List String

pub data Node : Type 0 where
  directory : Node
  file : Bytes → Node

abbrev pub Files : Type 0
Files = List (FilePath × Node)

-- `str(path)`
abbrev pub shown : FilePath → String
shown [] = ""
shown (name ∷ path) = "/" <> name <> shown path

-- The part of the second path behind the first, if it stands at or below it.
abbrev pub below : FilePath → FilePath → Option FilePath
below [] p = some p
below (a ∷ d) [] = none
below (a ∷ d) (b ∷ p) = let rest = below d p in if str_eq a b then rest else none

abbrev pub is_some {ℓ} : {A : Type ℓ} → Option A → Bool
is_some none = false
is_some (some a) = true

abbrev pub path_eq : FilePath → FilePath → Bool
path_eq [] [] = true
path_eq [] (b ∷ q) = false
path_eq (a ∷ p) [] = false
path_eq (a ∷ p) (b ∷ q) = str_eq a b && path_eq p q

abbrev pub find : FilePath → Files → Option Node
find p [] = none
find p ((q, n) ∷ fs) = let rest = find p fs in if path_eq q p then some n else rest

abbrev pub exists : FilePath → Files → Bool
exists p fs = is_some (find p fs)

-- `shutil.rmtree`
abbrev pub without : FilePath → Files → Files
without d [] = []
without d ((q, n) ∷ fs) =
    let rest = without d fs in if is_some (below d q) then rest else (q, n) ∷ rest

-- Where the entry at a path goes when what stands at or below a directory moves.
abbrev pub relocated : FilePath → Option FilePath → FilePath → FilePath
relocated target none q = q
relocated target (some rest) q = target ++ rest

abbrev pub moved : FilePath → FilePath → Files → Files
moved source target [] = []
moved source target ((q, n) ∷ fs) =
    (relocated target (below source q) q, n) ∷ moved source target fs

-- Whether a directory has an entry.
abbrev pub is_inside : Option FilePath → Bool
is_inside none = false
is_inside (some []) = false
is_inside (some (a ∷ p)) = true

abbrev pub has_entry : FilePath → Files → Bool
has_entry d [] = false
has_entry d ((q, n) ∷ fs) = is_inside (below d q) || has_entry d fs

-- `rename` puts a file in place of a file, and a directory in place of an empty one.
abbrev pub may_replace : Node → Option Node → Bool
may_replace n none = true
may_replace directory (some directory) = true
may_replace directory (some (file b)) = false
may_replace (file a) (some directory) = false
may_replace (file a) (some (file b)) = true

abbrev pub rename_node : Option Node → FilePath → FilePath → Files → Option Files
rename_node none source target fs = none
rename_node (some n) source target fs =
    if may_replace n (find target fs) && not (has_entry target fs)
    then some (moved source target (without target fs))
    else none

-- `source.rename(target)`, `none` for an `OSError`.
abbrev pub renamed : FilePath → FilePath → Files → Option Files
renamed source target fs = rename_node (find source fs) source target fs

abbrev pub is_directory : Option Node → Bool
is_directory none = false
is_directory (some directory) = true
is_directory (some (file b)) = false

-- `path.parent`, with what stands before the path.
abbrev pub parent : FilePath → FilePath
parent [] = []
parent (a ∷ []) = []
parent (a ∷ (b ∷ p)) = a ∷ parent (b ∷ p)

abbrev pub has_parent : FilePath → Files → Bool
has_parent [] fs = true
has_parent (a ∷ []) fs = true
has_parent (a ∷ (b ∷ p)) fs = is_directory (find (parent (a ∷ (b ∷ p))) fs)

abbrev pub make_at : Option Node → Bool → FilePath → Files → Option Files
make_at (some n) exist_ok p fs = if exist_ok && is_directory (some n) then some fs else none
make_at none exist_ok p fs = if has_parent p fs then some ((p, directory) ∷ fs) else none

-- `path.mkdir(exist_ok=…)`
abbrev pub made_directory : Bool → FilePath → Files → Option Files
made_directory exist_ok p fs = make_at (find p fs) exist_ok p fs

abbrev pub made_in_turn : FilePath → FilePath → Option Files → Option Files
made_in_turn before [] fs = fs
made_in_turn before (a ∷ p) none = none
made_in_turn before (a ∷ p) (some fs) =
    made_in_turn (before ++ a ∷ []) p (made_directory true (before ++ a ∷ []) fs)

-- `path.mkdir(parents=True, exist_ok=…)`
abbrev pub made_directories : Bool → FilePath → Files → Option Files
made_directories exist_ok p fs =
    if exists p fs && not exist_ok then none else made_in_turn [] p (some fs)

abbrev pub write_at : Option Node → FilePath → Bytes → Files → Option Files
write_at (some directory) p b fs = none
write_at (some (file a)) p b fs = some ((p, file b) ∷ without p fs)
write_at none p b fs = if has_parent p fs then some ((p, file b) ∷ fs) else none

-- `open("wb")` with what is written.
abbrev pub written : FilePath → Bytes → Files → Option Files
written p b fs = write_at (find p fs) p b fs

abbrev pub contents_of : Option Node → Option Bytes
contents_of none = none
contents_of (some directory) = none
contents_of (some (file b)) = some b
