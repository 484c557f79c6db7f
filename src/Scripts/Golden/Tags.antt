-- ===== src/Scripts/Golden/Tags.antt =====
-- `check_complete` names the missing tags.
use pyhdiff.Base.{
  ◌≡◌, ◌↔◌, ◌⊎◌, refl, Bool, true, false, String, str_eq, List, [], ◌∷◌, All, arith, Bool-cases,
  inl, inr,
}
use pyhdiff.Scripts.Golden.{is_missing, missing, verdict, complete, check_complete}

verdict-eq-complete : (ts : List String) → verdict ts ≡ complete → ts ≡ []
verdict-eq-complete [] h = refl
verdict-eq-complete (t ∷ ts) h = cc

module _ (exists : String → Bool) (exclude : String) where
  -- The tag is excluded, or its corpus is there.
  abbrev pub IsPresent : String → Type 0
  IsPresent tag = (str_eq tag exclude ≡ true) ⊎ (exists tag ≡ true)

  is_missing-eq-false : (tag : String) → (is_missing exists exclude tag ≡ false) ↔ IsPresent tag
  is_missing-eq-false tag = (λ h. ground arith, λ h. ground arith)

  missing-eq-nil : (tags : List String) → missing exists exclude tags ≡ [] → All IsPresent tags
  unfolding missing
  missing-eq-nil [] h = tt
  missing-eq-nil (tag ∷ tags) h = elim (Bool-cases (is_missing exists exclude tag)) [
    | inl gone ↦ absurd (cons-ne-nil (rw gone at h))
    | inr here ↦ ((is_missing-eq-false tag).0 here, missing-eq-nil tags (rw here at h))
  ]
    where
      cons-ne-nil : {t : String} {ts : List String} → ¬ (t ∷ ts ≡ [])
      cons-ne-nil e = cc

  missing-of-All : (tags : List String) → All IsPresent tags → missing exists exclude tags ≡ []
  unfolding missing
  missing-of-All [] h = refl
  missing-of-All (tag ∷ tags) h = rw ((is_missing-eq-false tag).1 h.0) (missing-of-All tags h.1)

  -- `check_complete` goes on if and only if each tag is the excluded one or has its corpus.
  pub check_complete-eq-complete :
      (tags : List String) → (check_complete exists exclude tags ≡ complete) ↔ All IsPresent tags
  unfolding check_complete
  check_complete-eq-complete tags =
      (λ h. missing-eq-nil tags (verdict-eq-complete _ h), λ h. rw (missing-of-All tags h) refl)
