-- ===== src/Scripts/Pack/Listing.antt =====
-- `pack` on the orders in which a directory may be listed.
use mathlib.Core.List.{Permᴰ}
use pyhdiff.Base.{
  ◌≡◌, refl, sym, ap, ap₂, ◌∙◌, true, false, Option, String, List, [], ◌∷◌, Bytes, inl, inr,
  Bool-cases,
}
use pyhdiff.Scripts.Pack.{before, insert, sorted, Archivers, pack}
use pyhdiff.Scripts.Pack.Order.{before_antisymm, before_total, before_trans}

true-ne-false : ¬ (true ≡ false)
true-ne-false e = cc

insert_same :
    (a b : String) (names : List String)
    → before a b ≡ true
    → before b a ≡ true
    → insert a (insert b names) ≡ insert b (insert a names)
insert_same a b names p q =
    let same = before_antisymm a b p q in ap₂ (λ x y. insert x (insert y names)) same (sym same)

insert_comm :
    (a b : String) (names : List String) → insert a (insert b names) ≡ insert b (insert a names)
insert_comm a b [] = elim (Bool-cases (before a b)) [
  | inl p ↦ elim (Bool-cases (before b a)) [
    | inl q ↦ insert_same a b [] p q
    | inr q ↦ rw (p, q) refl
  ]
  | inr p ↦ rw (p, before_total a b p) refl
]
insert_comm a b (c ∷ names) = elim (Bool-cases (before a c)) [
  | inl ac ↦ elim (Bool-cases (before b c)) [
    | inl bc ↦ elim (Bool-cases (before a b)) [
      | inl p ↦ elim (Bool-cases (before b a)) [
        | inl q ↦ insert_same a b (c ∷ names) p q
        | inr q ↦ rw (ac, bc, p, q) refl
      ]
      | inr p ↦ rw (ac, bc, p, before_total a b p, ac) refl
    ]
    | inr bc ↦
        let ba : before b a ≡ false = elim (Bool-cases (before b a)) [
          | inl q ↦ absurd (true-ne-false (sym (before_trans b a c q ac) ∙ bc))
          | inr q ↦ q
        ] in
        rw (ac, bc, ba, ac) refl
  ]
  | inr ac ↦ elim (Bool-cases (before b c)) [
    | inl bc ↦
        let ab : before a b ≡ false = elim (Bool-cases (before a b)) [
          | inl q ↦ absurd (true-ne-false (sym (before_trans a b c q bc) ∙ ac))
          | inr q ↦ q
        ] in
        rw (ac, bc, ab, ac) refl
    | inr bc ↦ rw (ac, bc, ac) (ap (λ l. c ∷ l) (insert_comm a b names))
  ]
]

sorted-eq_of_perm : {l r : List String} → Permᴰ l r → sorted l ≡ sorted r
unfolding sorted
sorted-eq_of_perm Permᴰ.nil = refl
sorted-eq_of_perm (Permᴰ.cons e p) = ap₂ insert e (sorted-eq_of_perm p)
sorted-eq_of_perm (Permᴰ.swap {a} {b} {l = l} e f) =
    insert_comm a b (sorted l) ∙ ap₂ (λ x y. insert x (insert y (sorted l))) f e
sorted-eq_of_perm (Permᴰ.trans p q) = sorted-eq_of_perm p ∙ sorted-eq_of_perm q

-- The archive does not depend on the order in which the directory is listed.
pub pack-eq_of_perm :
    (read : String → Option Bytes) (A : Archivers) {listing other : List String}
    → Permᴰ listing other
    → pack read A listing ≡ pack read A other
unfolding pack
pack-eq_of_perm read A p = rw (sorted-eq_of_perm p) refl
