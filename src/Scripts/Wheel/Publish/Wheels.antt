-- ===== src/Scripts/Wheel/Publish/Wheels.antt =====
-- The wheels in the directory of the release, by the patterns of scripts/wheel.py.
use Prim.Native.String.{[] as empty, ◌∷◌ as ◌⊳◌}
use mathlib.Core.Path.{subst}
use text.Mathlib.TextEquality.{eq_iff}
use pyhdiff.Base.{
  ◌≡◌, inl, inr, refl, sym, ap, ◌∙◌, true, false, Option, none, some, String, str_eq, List, [], ◌∷◌,
  Bytes, Bool-cases,
}
use pyhdiff.Scripts.Text.{ends_with}
use pyhdiff.Scripts.Generate.{put, without_file}
use pyhdiff.Scripts.Wheel.Publish.{
  Release, only, is_match, ends_in, after_prefix, glob, is_stale, without_stale, wheel_suffix,
}

ends_with_trans :
    (a b s : String) → ends_with a b ≡ true → ends_with b s ≡ true → ends_with a s ≡ true
ends_with_trans a b empty h k = subst (λ t. ends_with a t ≡ true) ((eq_iff b empty).0 k) h
ends_with_trans a b (c ⊳ s) h k = elim (Bool-cases (str_eq (c ⊳ s) b)) [
  | inl e ↦ subst (λ t. ends_with a t ≡ true) (sym ((eq_iff (c ⊳ s) b).0 e)) h
  | inr e ↦ elim (Bool-cases (str_eq (c ⊳ s) a)) [
    | inl f ↦ rw f refl
    | inr f ↦ rw f (ends_with_trans a b s h (rw e at k))
  ]
]

-- A wheel for the platform is a wheel.
is_match_wheel : (name : String) → is_match wheel_suffix name ≡ true → is_match ".whl" name ≡ true
is_match_wheel name h = behind (after_prefix "pyhdiff-" name) h
  where
    behind : (o : Option String) → ends_in wheel_suffix o ≡ true → ends_in ".whl" o ≡ true
    behind none h = cc
    behind (some s) h = ends_with_trans ".whl" wheel_suffix s refl h

not_stale : (name : String) → is_stale name ≡ false → is_match wheel_suffix name ≡ false
not_stale name h = elim (Bool-cases (is_match wheel_suffix name)) [
  | inr e ↦ e
  | inl e ↦ absurd (true-ne-false (sym (rw (is_match_wheel name e) refl) ∙ h))
]
  where
    true-ne-false : ¬ (true ≡ false)
    true-ne-false e = cc

glob-without_stale : (out : Release) → glob wheel_suffix (without_stale out) ≡ []
glob-without_stale [] = refl
glob-without_stale ((name, content) ∷ files) = elim (Bool-cases (is_stale name)) [
  | inl e ↦ rw e (glob-without_stale files)
  | inr e ↦ rw (e, not_stale name e) (glob-without_stale files)
]

glob-without_file :
    (suffix name : String) (out : Release)
    → glob suffix out ≡ []
    → glob suffix (without_file name out) ≡ []
glob-without_file suffix name [] h = refl
glob-without_file suffix name ((n, content) ∷ files) h = elim (Bool-cases (is_match suffix n)) [
  | inl e ↦ absurd (cons-ne-nil (rw e at h))
  | inr e ↦ elim (Bool-cases (str_eq n name)) [
    | inl f ↦ rw f (glob-without_file suffix name files (rw e at h))
    | inr f ↦ rw (f, e) (glob-without_file suffix name files (rw e at h))
  ]
]
  where
    cons-ne-nil : {a : String} {l : List String} → ¬ (a ∷ l ≡ [])
    cons-ne-nil e = cc

-- The only wheel after `retag` is the one it wrote.
pub only_retagged :
    (name : String) (content : Bytes) (out : Release) {w : String}
    → only (glob wheel_suffix (put name content (without_stale out))) ≡ some w
    → (w ≡ name) × (is_match wheel_suffix name ≡ true)
only_retagged name content out e =
    let rest : glob wheel_suffix (without_file name (without_stale out)) ≡ [] =
      glob-without_file wheel_suffix name (without_stale out) (glob-without_stale out) in
    elim (Bool-cases (is_match wheel_suffix name)) [
      | inl h ↦ (some-injective (sym (rw (h, rest) at e)), h)
      | inr h ↦ absurd (none-ne-some (rw (h, rest) at e))
    ]
  where
    some-injective : {a b : String} → some a ≡ some b → a ≡ b
    some-injective {a} x = ap (λ o. elim o [ some y ↦ y | none ↦ a ]) x

    none-ne-some : {a : String} → ¬ (none ≡ some a)
    none-ne-some x = cc
