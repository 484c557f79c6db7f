-- ===== src/Scripts/Files/Paths.antt =====
-- Operations on the file system at a path where nothing stands.
use text.Mathlib.TextEquality.{eq_iff}
use pyhdiff.Base.{
  ◌≡◌, ◌≢◌, refl, Bool, false, ◌&&◌, Option, none, some, [], ◌∷◌, ◌++◌, Bytes, inl, inr, Bool-cases,
}
use pyhdiff.Scripts.Files.{
  FilePath, Node, directory, file, Files, below, is_some, path_eq, find, without, make_at, write_at,
  has_parent, is_directory,
}

-- Nothing stands at the path, where the operation succeeded.
abbrev pub IsAbsentIn : FilePath → Option Files → Type 0
IsAbsentIn p none = Unit
IsAbsentIn p (some fs) = find p fs ≡ none

-- Paths below one directory differ as their rests do.
pub path_eq-append : (d p q : FilePath) → path_eq (d ++ p) (d ++ q) ≡ path_eq p q
path_eq-append [] p q = refl
path_eq-append (a ∷ d) p q = rw ((eq_iff a a).1 refl) (path_eq-append d p q)

pub without_absent : (d p : FilePath) (fs : Files) → find p fs ≡ none → find p (without d fs) ≡ none
without_absent d p [] h = refl
without_absent d p ((q, n) ∷ fs) h = elim (Bool-cases (path_eq q p)) [
  | inl e ↦ absurd (some-ne-none (rw e at h))
  | inr e ↦
      let tail : find p fs ≡ none = rw e at h in
      elim (Bool-cases (is_some (below d q))) [
        | inl f ↦ rw f (without_absent d p fs tail)
        | inr f ↦ rw (f, e) (without_absent d p fs tail)
      ]
]
  where
    some-ne-none : some n ≢ none
    some-ne-none e = cc

pub make_at-IsAbsentIn :
    (o : Option Node) (exist_ok : Bool) (q p : FilePath) (fs : Files)
    → path_eq q p ≡ false
    → find p fs ≡ none
    → IsAbsentIn p (make_at o exist_ok q fs)
make_at-IsAbsentIn (some n) exist_ok q p fs e h =
    elim (Bool-cases (exist_ok && is_directory (some n))) [ inl f ↦ rw f h | inr f ↦ rw f tt ]
make_at-IsAbsentIn none exist_ok q p fs e h = elim (Bool-cases (has_parent q fs)) [
  | inl f ↦ rw (f, e) h
  | inr f ↦ rw f tt
]

pub write_at-IsAbsentIn :
    (o : Option Node) (q : FilePath) (b : Bytes) (p : FilePath) (fs : Files)
    → path_eq q p ≡ false
    → find p fs ≡ none
    → IsAbsentIn p (write_at o q b fs)
write_at-IsAbsentIn (some directory) q b p fs e h = tt
write_at-IsAbsentIn (some (file a)) q b p fs e h = rw e (without_absent q p fs h)
write_at-IsAbsentIn none q b p fs e h = elim (Bool-cases (has_parent q fs)) [
  | inl f ↦ rw (f, e) h
  | inr f ↦ rw f tt
]
