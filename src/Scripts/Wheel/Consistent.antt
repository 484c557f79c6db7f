-- ===== src/Scripts/Wheel/Consistent.antt =====
-- `retag` of scripts/wheel.py as a whole.
use mathlib.Core.Path.{subst}
use text.Mathlib.TextEquality.{eq_iff}
use pyhdiff.Base.{
  ◌≡◌, ◌≢◌, ◌⊎◌, inl, inr, refl, sym, ap, ◌∙◌, Bool, true, false, Option, none, some, String,
  str_eq, List, [], ◌∷◌,
}
use pyhdiff.Scripts.Wheel.{
  ZipInfo, ZipEntry, TextLibrary, written, unicode_error, unbound_local, or_refused, name_with,
  line_for, rewrite_all, finish_if, finish_entry, finish_all, retag,
}
use pyhdiff.Scripts.Wheel.Record.{
  Each, none_left, both, Each-compose, States, here, there, IsRetagged, IsRecorded, AfterFirst,
  rewrite_all_lem, written_through, written-injective, or_refused_lem,
}
use pyhdiff.Scripts.Wheel.Names.{false-unless, wheel-ne-record, name_with-ends_with}

module _ (L : TextLibrary) where
  -- What the second loop does to an entry.
  abbrev AfterSecond : String → String → String → ZipEntry → ZipEntry → Type 0
  AfterSecond wheel_meta record_name line m f =
      (f.0 ≡ m.0)
      × (str_eq m.0.filename record_name ≡ false → f.1 ≡ m.1)
      × (str_eq m.0.filename record_name ≡ true → IsRecorded L wheel_meta line m.1 f.1)

  -- What `retag` does to an entry: WHEEL has its tag replaced, RECORD its line for WHEEL, and any
  -- other is as it was; none has another name, time or compression.
  abbrev pub AfterRetag : String → String → String → ZipEntry → ZipEntry → Type 0
  AfterRetag wheel_meta record_name line e f =
      (f.0 ≡ e.0)
      × (str_eq e.0.filename wheel_meta ≡ false
          → str_eq e.0.filename record_name ≡ false
          → f.1 ≡ e.1)
      × (str_eq e.0.filename wheel_meta ≡ true → IsRetagged L e.1 f.1)
      × (str_eq e.0.filename record_name ≡ true → IsRecorded L wheel_meta line e.1 f.1)

  true-ne-false : true ≢ false
  true-ne-false x = cc

  finish_if_lem :
      (b : Bool) (wheel_meta record_name line : String) (m : ZipEntry) {f : ZipEntry}
      → str_eq m.0.filename record_name ≡ b
      → finish_if L b wheel_meta line m ≡ written f
      → AfterSecond wheel_meta record_name line m f
  finish_if_lem false wheel_meta record_name line (info, data') same h =
      subst (AfterSecond wheel_meta record_name line (info, data')) (written-injective h)
        (refl, (λ n. refl), λ y. absurd (true-ne-false (sym y ∙ same)))
  finish_if_lem true wheel_meta record_name line (info, data') same h =
      let (text, read, h₁) = written_through (or_refused unicode_error (L.decode data')) _ h in
      subst (AfterSecond wheel_meta record_name line (info, data')) (written-injective h₁) (
        refl,
        (λ n. absurd (true-ne-false (sym same ∙ n))),
        λ y. (text, or_refused_lem _ (L.decode data') read, refl),
      )

  finish_all_lem :
      (wheel_meta record_name line : String) (ms : List ZipEntry) {fs : List ZipEntry}
      → finish_all L wheel_meta record_name line ms ≡ written fs
      → Each (AfterSecond wheel_meta record_name line) ms fs
  unfolding finish_all
  finish_all_lem wheel_meta record_name line [] h =
      subst (Each (AfterSecond wheel_meta record_name line) []) (written-injective h) none_left
  finish_all_lem wheel_meta record_name line (m ∷ ms) h =
      let (first, x, h₁) = written_through (finish_entry L wheel_meta record_name line m) _ h in
      let (rest, y, h₂) = written_through (finish_all L wheel_meta record_name line ms) _ h₁ in
      subst (Each (AfterSecond wheel_meta record_name line) (m ∷ ms)) (written-injective h₂) (
        both (finish_if_lem (str_eq m.0.filename record_name) wheel_meta record_name line m refl x)
          (finish_all_lem wheel_meta record_name line ms y))

  States-finish :
      {wheel_meta record_name line : String} {ms fs : List ZipEntry}
      → wheel_meta ≢ record_name
      → States L wheel_meta line ms
      → Each (AfterSecond wheel_meta record_name line) ms fs
      → States L wheel_meta line fs
  States-finish {wheel_meta} {record_name} {line} d (here {f = m} named stated)
        (both (same, kept, _) rest) =
      let other =
        false-unless (str_eq m.0.filename record_name) (λ s. d (sym named ∙ (eq_iff _ _).0 s)) in
      here (ap (λ i. ZipInfo.filename i) same ∙ named)
        (stated ∙ ap (λ b. line_for L wheel_meta b) (sym (kept other)))
  States-finish d (there s) (both r rest) = there (States-finish d s rest)

  AfterRetag-compose :
      (wheel_meta record_name line : String)
      → wheel_meta ≢ record_name
      → (e m f : ZipEntry) → AfterFirst L wheel_meta e m
      → AfterSecond wheel_meta record_name line m f
      → AfterRetag wheel_meta record_name line e f
  AfterRetag-compose wheel_meta record_name line d e m f (k, u, t) (l, v, w) =
      let named : m.0.filename ≡ e.0.filename = ap (λ i. ZipInfo.filename i) k in
      let as_m = ap (λ n. str_eq n record_name) named in
      (
        l ∙ k,
        (λ x y. v (as_m ∙ y) ∙ u x),
        (λ x.
            let other =
              false-unless (str_eq e.0.filename record_name)
                λ s. d (sym ((eq_iff _ _).0 x) ∙ (eq_iff _ _).0 s) in
            subst (IsRetagged L e.1) (sym (v (as_m ∙ other))) (t x)),
        λ y.
            let other =
              false-unless (str_eq e.0.filename wheel_meta)
                λ s. d (sym ((eq_iff _ _).0 s) ∙ (eq_iff _ _).0 y) in
            subst (λ b. IsRecorded L wheel_meta line b f.1) (u other) (w (as_m ∙ y)),
      )

  -- A wheel that was rewritten without an error.
  pub record Consistent (es fs : List ZipEntry) : Type 0 where
    pub wheel_meta : String
    pub record_name : String
    pub line : String
    pub found_meta : name_with ".dist-info/WHEEL" es ≡ written wheel_meta
    pub found_record : name_with ".dist-info/RECORD" es ≡ written record_name
    pub entries : Each (AfterRetag wheel_meta record_name line) es fs
    pub stated : States L wheel_meta line fs

  -- The entries that `retag` writes are those of the built wheel in order, with their names, times
  -- and compression: WHEEL with its one tag replaced, RECORD with its line for WHEEL replaced by one
  -- with the size and the digest of a WHEEL that is written, any other unchanged.
  pub retag-Consistent :
      (built : String) (es : List ZipEntry) {name : String} {fs : List ZipEntry}
      → retag L built es ≡ written (name, fs)
      → Consistent es fs
  unfolding retag
  retag-Consistent built es {name} {fs} h =
      let (m, found_m, h₁) = written_through (name_with ".dist-info/WHEEL" es) _ h in
      let (r, found_r, h₂) = written_through (name_with ".dist-info/RECORD" es) _ h₁ in
      let (rewritten, first, h₃) = written_through (rewrite_all L m es none) _ h₂ in
      let (line, there', h₄) = written_through (or_refused unbound_local rewritten.1) _ h₃ in
      let (final, second, h₅) = written_through (finish_all L m r line rewritten.0) _ h₄ in
      let d =
        wheel-ne-record m r (name_with-ends_with ".dist-info/WHEEL" es found_m)
          (name_with-ends_with ".dist-info/RECORD" es found_r) in
      let (kept, states) = rewrite_all_lem L m es none first in
      let after = finish_all_lem m r line rewritten.0 second in
      subst (Consistent es) (ap (λ (x : String × List ZipEntry). x.1) (written-injective h₅))
        (record {
          wheel_meta = m;
          record_name = r;
          line = line;
          found_meta = found_m;
          found_record = found_r;
          entries = Each-compose (AfterRetag-compose m r line d) kept after;
          stated = States-finish d (line_stated (or_refused_lem _ rewritten.1 there') states) after;
        })
    where
      none-ne-some : {a : String} → none ≢ some a
      none-ne-some x = cc

      some-injective : {a b : String} → some a ≡ some b → a ≡ b
      some-injective x = cc

      line_stated :
          {m line : String} {r : List ZipEntry × Option String}
          → r.1 ≡ some line
          → (r.1 ≡ none) ⊎ ((n : String) × (r.1 ≡ some n) × States L m n r.0)
          → States L m line r.0
      line_stated e (inl x) = absurd (none-ne-some (sym x ∙ e))
      line_stated {m} {line} {r} e (inr (n, x, s)) =
          subst (λ l. States L m l r.0) (some-injective (sym x ∙ e)) s
