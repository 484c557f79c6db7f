-- ===== src/Scripts/Files/Moves.antt =====
-- `rename` and `rmtree` on what stands below a directory.
use mathlib.Core.Path.{subst}
use text.Mathlib.TextEquality.{eq_iff}
use pyhdiff.Base.{
  ◌≡◌, ◌≢◌, refl, sym, ap, ap₂, ◌∙◌, Bool, true, false, Option, none, some, str_eq, [], ◌∷◌, ◌++◌,
  Bytes, inl, inr, Bool-cases,
}
use pyhdiff.Scripts.Files.{
  FilePath, Node, directory, file, Files, below, is_some, path_eq, find, without, moved, relocated,
  write_at, has_parent,
}
use pyhdiff.Scripts.Files.Paths.{path_eq-append}

pub path_eq_refl : (p : FilePath) → path_eq p p ≡ true
path_eq_refl [] = refl
path_eq_refl (a ∷ p) = rw ((eq_iff a a).1 refl) (path_eq_refl p)

path_eq_sound : (p q : FilePath) → path_eq p q ≡ true → p ≡ q
path_eq_sound [] [] h = refl
path_eq_sound [] (b ∷ q) h = cc
path_eq_sound (a ∷ p) [] h = cc
path_eq_sound (a ∷ p) (b ∷ q) h = elim (Bool-cases (str_eq a b)) [
  | inl e ↦ ap₂ (λ x y. x ∷ y) ((eq_iff a b).0 e) (path_eq_sound p q (rw e at h))
  | inr e ↦ absurd (false-ne-true (rw e at h))
]
  where
    false-ne-true : false ≢ true
    false-ne-true e = cc

below_own : (d r : FilePath) → below d (d ++ r) ≡ some r
below_own [] r = refl
below_own (a ∷ d) r = rw ((eq_iff a a).1 refl) (below_own d r)

pub below-append : (d p q : FilePath) → below (d ++ p) (d ++ q) ≡ below p q
below-append [] p q = refl
below-append (a ∷ d) p q = rw ((eq_iff a a).1 refl) (below-append d p q)

below_sound : (d q : FilePath) {r : FilePath} → below d q ≡ some r → q ≡ d ++ r
below_sound [] q h = some-injective h
  where
    some-injective : {a b : FilePath} → some a ≡ some b → a ≡ b
    some-injective h = cc
below_sound (a ∷ d) [] h = cc
below_sound (a ∷ d) (b ∷ q) h = elim (Bool-cases (str_eq a b)) [
  | inl e ↦ ap₂ (λ x y. x ∷ y) (sym ((eq_iff a b).0 e)) (below_sound d q (rw e at h))
  | inr e ↦ absurd (none-ne-some (rw e at h))
]
  where
    none-ne-some : {r : FilePath} → none ≢ some r
    none-ne-some e = cc

false-unless : (b : Bool) → b ≢ true → b ≡ false
false-unless true h = absurd (h refl)
false-unless false h = refl

is_some-ne-none : (o : Option FilePath) → is_some o ≡ true → o ≢ none
is_some-ne-none none h e = cc
is_some-ne-none (some a) h e = cc

-- Paths of which one is below the directory and the other is not.
other_path :
    (d q p : FilePath) → is_some (below d q) ≡ true → below d p ≡ none → path_eq q p ≡ false
other_path d q p h e =
    false-unless (path_eq q p) λ s.
      is_some-ne-none (below d q) h (subst (λ x. below d x ≡ none) (sym (path_eq_sound q p s)) e)

pub find-without :
    (d p : FilePath) (fs : Files) → below d p ≡ none → find p (without d fs) ≡ find p fs
find-without d p [] e = refl
find-without d p ((q, n) ∷ fs) e = elim (Bool-cases (is_some (below d q))) [
  | inl f ↦ rw (f, other_path d q p f e) (find-without d p fs e)
  | inr f ↦ elim (Bool-cases (path_eq q p)) [
    | inl g ↦ rw (f, g) refl
    | inr g ↦ rw (f, g) (find-without d p fs e)
  ]
]

pub find-write_at :
    (o : Option Node) (p : FilePath) (b : Bytes) (fs : Files) {r : Files}
    → write_at o p b fs ≡ some r
    → find p r ≡ some (file b)
find-write_at (some directory) p b fs h = cc
find-write_at (some (file a)) p b fs {r} h =
    subst (λ x. found x ≡ some (file b)) h (rw (path_eq_refl p) refl)
  where
    found : Option Files → Option Node
    found none = none
    found (some x) = find p x
find-write_at none p b fs {r} h = elim (Bool-cases (has_parent p fs)) [
  | inl e ↦ subst (λ x. found x ≡ some (file b)) (rw e at h) (rw (path_eq_refl p) refl)
  | inr e ↦ absurd (none-ne-some (rw e at h))
]
  where
    found : Option Files → Option Node
    found none = none
    found (some x) = find p x

    none-ne-some : {r : Files} → none ≢ some r
    none-ne-some e = cc

relocated-other :
    (source target rest q : FilePath) (o : Option FilePath)
    → below source q ≡ o
    → is_some (below target q) ≡ false
    → path_eq q (source ++ rest) ≡ false
    → path_eq (relocated target o q) (target ++ rest) ≡ false
relocated-other source target rest q none h out other =
    false-unless (path_eq q (target ++ rest))
      λ s. true-ne-false (sym (inside (path_eq_sound q (target ++ rest) s)) ∙ out)
  where
    inside : q ≡ target ++ rest → is_some (below target q) ≡ true
    inside e = rw (e, below_own target rest) refl

    true-ne-false : true ≢ false
    true-ne-false e = cc
relocated-other source target rest q (some r) h out other = rw (path_eq-append target r rest) (
    false-unless (path_eq r rest) λ s. true-ne-false (
      sym (same (below_sound source q h ∙ ap (λ x. source ++ x) (path_eq_sound r rest s))) ∙ other))
  where
    same : q ≡ source ++ rest → path_eq q (source ++ rest) ≡ true
    same e = rw e (path_eq_refl (source ++ rest))

    true-ne-false : true ≢ false
    true-ne-false e = cc

pub find-moved :
    (source target rest : FilePath) (fs : Files) {n : Node}
    → below target (source ++ rest) ≡ none
    → find (source ++ rest) fs ≡ some n
    → find (target ++ rest) (moved source target (without target fs)) ≡ some n
find-moved source target rest [] e h = cc
find-moved source target rest ((q, m) ∷ fs) {n} e h = elim (Bool-cases (is_some (below target q))) [
  | inl f ↦
      let tail : find (source ++ rest) fs ≡ some n =
        rw (other_path target q (source ++ rest) f e) at h in
      rw f (find-moved source target rest fs e tail)
  | inr f ↦ elim (Bool-cases (path_eq q (source ++ rest))) [
    | inl g ↦
        let here : some m ≡ some n = rw g at h in
        rw (f, moved_to (path_eq_sound q (source ++ rest) g), path_eq_refl (target ++ rest)) here
    | inr g ↦
        let tail : find (source ++ rest) fs ≡ some n = rw g at h in
        rw (f, relocated-other source target rest q (below source q) refl f g)
          (find-moved source target rest fs e tail)
  ]
]
  where
    moved_to : q ≡ source ++ rest → relocated target (below source q) q ≡ target ++ rest
    moved_to s = rw (s, below_own source rest) refl
