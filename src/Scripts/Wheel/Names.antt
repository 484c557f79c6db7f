-- ===== src/Scripts/Wheel/Names.antt =====
-- The names of WHEEL and RECORD in a wheel.
use Prim.Native.String.{[], ◌∷◌}
use mathlib.Core.List as Lists
use mathlib.Core.Path.{subst}
use text.Mathlib.TextEquality.{eq_iff}
use pyhdiff.Base.{
  ◌≡◌, ◌≢◌, refl, sym, ap, ◌∙◌, Bool, true, false, String, str_eq, List, inl, inr, Bool-cases,
}
use pyhdiff.Scripts.Text.{ends_with}
use pyhdiff.Scripts.Wheel.Record.{written-injective}
use pyhdiff.Scripts.Wheel.{ZipEntry, written, name_with}

abbrev final : String → String
final [] = []
final (c ∷ []) = c ∷ []
final (c ∷ (d ∷ s)) = final (d ∷ s)

ends_with-final : (s t : String) → s ≢ [] → ends_with s t ≡ true → final t ≡ final s
ends_with-final s [] n h = absurd (n ((eq_iff s []).0 h))
ends_with-final s (c ∷ []) n h = elim (Bool-cases (str_eq (c ∷ []) s)) [
  | inl e ↦ ap final ((eq_iff (c ∷ []) s).0 e)
  | inr e ↦ absurd (n ((eq_iff s []).0 (rw e at h)))
]
ends_with-final s (c ∷ (d ∷ u)) n h = elim (Bool-cases (str_eq (c ∷ (d ∷ u)) s)) [
  | inl e ↦ ap final ((eq_iff (c ∷ (d ∷ u)) s).0 e)
  | inr e ↦ ends_with-final s (d ∷ u) n (rw e at h)
]

pub false-unless : (b : Bool) → b ≢ true → b ≡ false
false-unless true h = absurd (h refl)
false-unless false h = refl

pub wheel-ne-record :
    (m r : String)
    → ends_with ".dist-info/WHEEL" m ≡ true
    → ends_with ".dist-info/RECORD" r ≡ true
    → m ≢ r
wheel-ne-record m r hm hr e = letters (
    sym (ends_with-final ".dist-info/WHEEL" m wheel_some hm)
    ∙ ap final e
    ∙ ends_with-final ".dist-info/RECORD" r record_some hr)
  where
    false-ne-true : false ≢ true
    false-ne-true y = cc

    wheel_some : ◌≢◌ {A = String} ".dist-info/WHEEL" []
    wheel_some x = false-ne-true ((eq_iff ".dist-info/WHEEL" []).1 x)

    record_some : ◌≢◌ {A = String} ".dist-info/RECORD" []
    record_some x = false-ne-true ((eq_iff ".dist-info/RECORD" []).1 x)

    letters : ◌≢◌ {A = String} "L" "D"
    letters x = false-ne-true ((eq_iff "L" "D").1 x)

pub name_with-ends_with :
    (suffix : String) (es : List ZipEntry) {n : String}
    → name_with suffix es ≡ written n
    → ends_with suffix n ≡ true
name_with-ends_with suffix Lists.[] h = cc
name_with-ends_with suffix (Lists.◌∷◌ (info, data') es) {n} h =
    elim (Bool-cases (ends_with suffix info.filename)) [
      | inl e ↦ subst (λ x. ends_with suffix x ≡ true) (written-injective (rw e at h)) e
      | inr e ↦ name_with-ends_with suffix es (rw e at h)
    ]
