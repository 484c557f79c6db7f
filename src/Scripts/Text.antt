-- ===== src/Scripts/Text.antt =====
-- Methods of `str` that the scripts call.
use Prim.Native.String.{String, [], ◌∷◌}
use Prim.Native.Char.{Char}
use text.Mathlib.Text.{◌==◌, find?}
use pyhdiff.Base.{Bool, true, false, Option, none, some, if◌then◌else◌}

-- `text.removesuffix(suffix)`
abbrev pub remove_suffix : String → String → String
remove_suffix suffix [] = []
remove_suffix suffix (c ∷ s) =
    let rest = c ∷ remove_suffix suffix s in if (c ∷ s) == suffix then [] else rest

-- `text.endswith(suffix)`
abbrev pub ends_with : String → String → Bool
ends_with suffix [] = suffix == []
ends_with suffix (c ∷ s) = let rest = ends_with suffix s in if (c ∷ s) == suffix then true else rest

-- What stands before the last dot, if there is one.
abbrev pub extended : Bool → Option String → Char → Option String
extended is_dot (some rest) c = some (c ∷ rest)
extended true none c = some []
extended false none c = none

abbrev pub last_dot : String → Option String
last_dot [] = none
last_dot (c ∷ s) = extended ((c ∷ []) == ".") (last_dot s) c

abbrev pub given_or : Option String → String → String
given_or none s = s
given_or (some r) s = r

-- `text.rsplit(".", 1)[0]`
abbrev pub before_last_dot : String → String
before_last_dot s = given_or (last_dot s) s

-- `part in text`
abbrev is_found : {A : Type 0} → Option A → Bool
is_found none = false
is_found (some n) = true

abbrev pub contains : String → String → Bool
contains part text = is_found (find? text part)
