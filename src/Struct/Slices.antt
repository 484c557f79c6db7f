-- ===== src/Struct/Slices.antt =====
-- A byte string cut into consecutive slices of given sizes, and put together again.
use pyhdiff.Base.{
  ℕ, ◌+◌, ◌≡◌, refl, List, [], ◌∷◌, ◌++◌, Bytes, length, length-append, take, drop, take-append,
  drop-append, take-add, arith,
}
use mathlib.Core.List.{append_assoc}

unfoldable pub slices : List ℕ → Bytes → List Bytes
slices [] bs = []
slices (n ∷ ns) bs = take n bs ∷ slices ns (drop n bs)

unfoldable pub concat : List Bytes → Bytes
concat [] = []
concat (p ∷ ps) = p ++ concat ps

abbrev pub total : List ℕ → ℕ
total [] = 0
total (n ∷ ns) = n + total ns

-- Each part has the size that stands at its place.
abbrev pub HaveSizes : List ℕ → List Bytes → Type 0
HaveSizes [] [] = Unit {0}
HaveSizes (n ∷ ns) (p ∷ ps) = (length p ≡ n) × HaveSizes ns ps
HaveSizes _ _ = ⊥

pub slices-concat :
    (ns : List ℕ) (ps : List Bytes) (rest : Bytes)
    → HaveSizes ns ps
    → slices ns (concat ps ++ rest) ≡ ps
unfolding slices concat
slices-concat [] [] rest h = refl
slices-concat [] (p ∷ ps) rest h = absurd h
slices-concat (n ∷ ns) [] rest h = absurd h
slices-concat (n ∷ ns) (p ∷ ps) rest (e, h) = rw (
  append_assoc p (concat ps) rest,
  take-append n p (concat ps ++ rest) e,
  drop-append n p (concat ps ++ rest) e,
  slices-concat ns ps rest h,
)

pub length-concat :
    (ns : List ℕ) (ps : List Bytes) → HaveSizes ns ps → length (concat ps) ≡ total ns
unfolding concat
length-concat [] [] h = refl
length-concat [] (p ∷ ps) h = absurd h
length-concat (n ∷ ns) [] h = absurd h
length-concat (n ∷ ns) (p ∷ ps) (e, h) =
    omega (arith, length-append p (concat ps), length-concat ns ps h)

pub concat-slices : (ns : List ℕ) (bs : Bytes) → concat (slices ns bs) ≡ take (total ns) bs
unfolding slices concat
concat-slices [] bs = refl
concat-slices (n ∷ ns) bs = rw (concat-slices ns (drop n bs)) (take-add n (total ns) _ bs refl)
