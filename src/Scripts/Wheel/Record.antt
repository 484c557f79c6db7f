-- ===== src/Scripts/Wheel/Record.antt =====
-- The entries that `retag` of scripts/wheel.py writes.
use mathlib.Core.Path.{subst}
use Prim.Native.String.{◌++◌ as ◌<>◌}
use text.Mathlib.TextEquality.{eq_iff}
use pyhdiff.Base.{
  ◌≡◌, ◌≢◌, ◌⊎◌, inl, inr, refl, sym, ap, ◌∙◌, Bool, true, false, Option, none, some, String,
  str_eq, List, [], ◌∷◌, Bytes, Bool-cases, ◌==◌,
}
use pyhdiff.Scripts.Wheel.{
  ZipEntry, TextLibrary, Retag, refused, written, unicode_error, or_refused, joined_lines, line_for,
  retagged, check_tags, rewrite_if, rewrite_entry, rewrite_all, recorded_lines, ◌>>=◌,
}

-- What relates the entries of two lists one by one.
pub data Each (R : ZipEntry → ZipEntry → Type 0) : List ZipEntry → List ZipEntry → Type 0 where
  none_left : Each R [] []
  both : {e f : ZipEntry} {es fs : List ZipEntry} → R e f → Each R es fs → Each R (e ∷ es) (f ∷ fs)

pub Each-compose :
    {R S T : ZipEntry → ZipEntry → Type 0}
    → ((e m f : ZipEntry) → R e m → S m f → T e f)
    → {es ms fs : List ZipEntry} → Each R es ms
    → Each S ms fs
    → Each T es fs
Each-compose c none_left none_left = none_left
Each-compose c (both r rs) (both s ss) = both (c _ _ _ r s) (Each-compose c rs ss)

pub written_through :
    {A B : Type 0} (first : Retag A) (next : A → Retag B) {b : B}
    → (first >>= next) ≡ written b
    → (a : A) × (first ≡ written a) × (next a ≡ written b)
written_through (refused r) next h = cc
written_through (written a) next h = (a, refl, h)

pub written-injective : {A : Type 0} {a b : A} → written a ≡ written b → a ≡ b
written-injective {A} {a} {b} h = ap value h
  where
    value : Retag A → A
    value (refused r) = a
    value (written x) = x

pub or_refused_lem :
    {A : Type 0} (r : _) (o : Option A) {a : A} → or_refused r o ≡ written a → o ≡ some a
or_refused_lem r none h = cc
or_refused_lem r (some a) h = ap some (written-injective h)

module _ (L : TextLibrary) where
  -- A list has an entry of this name, for which the line of RECORD is this one.
  pub data States (name line : String) : List ZipEntry → Type 0 where
    here :
        {f : ZipEntry} {fs : List ZipEntry}
        → f.0.filename ≡ name
        → line ≡ line_for L name f.1
        → States name line (f ∷ fs)
    there : {f : ZipEntry} {fs : List ZipEntry} → States name line fs → States name line (f ∷ fs)

  -- WHEEL has its one tag replaced.
  abbrev pub IsRetagged : Bytes → Bytes → Type 0
  IsRetagged old new =
      (text : String) × (L.decode old ≡ some text)
      × ((L.count text "Tag: cp312-abi3-linux_x86_64\n" == 1) ≡ true)
      × (new ≡ L.encode (retagged L text))

  -- RECORD has the line of WHEEL replaced, and its others as they were.
  abbrev pub IsRecorded : String → String → Bytes → Bytes → Type 0
  IsRecorded wheel_meta line old new =
      (text : String) × (L.decode old ≡ some text)
      × (new
          ≡ L.encode (joined_lines (recorded_lines L wheel_meta line (L.split_lines text)) <> "\n"))

  -- What the first loop does to an entry.
  abbrev pub AfterFirst : String → ZipEntry → ZipEntry → Type 0
  AfterFirst wheel_meta e m =
      (m.0 ≡ e.0)
      × (str_eq e.0.filename wheel_meta ≡ false → m.1 ≡ e.1)
      × (str_eq e.0.filename wheel_meta ≡ true → IsRetagged e.1 m.1)

  check_tags_lem :
      (text : String) {u : Unit}
      → check_tags L text ≡ written u
      → (L.count text "Tag: cp312-abi3-linux_x86_64\n" == 1) ≡ true
  check_tags_lem text h = elim (Bool-cases (L.count text "Tag: cp312-abi3-linux_x86_64\n" == 1)) [
    | inl e ↦ e
    | inr e ↦ absurd (refused-ne-written (rw e at h))
  ]
    where
      refused-ne-written : {r : _} {u : Unit} → refused r ≢ written u
      refused-ne-written x = cc

  true-ne-false : true ≢ false
  true-ne-false x = cc

  rewrite_if_lem :
      (b : Bool) (wheel_meta : String) (e : ZipEntry) (line : Option String)
      {r : ZipEntry × Option String}
      → str_eq e.0.filename wheel_meta ≡ b
      → rewrite_if L b wheel_meta e line ≡ written r
      → AfterFirst wheel_meta e r.0
        × ((r.1 ≡ line)
            ⊎ ((r.0.0.filename ≡ wheel_meta) × (r.1 ≡ some (line_for L wheel_meta r.0.1))))
  rewrite_if_lem false wheel_meta (info, data') line {r} same h =
      subst
        (λ (q : ZipEntry × Option String).
          AfterFirst wheel_meta (info, data') q.0
          × ((q.1 ≡ line)
              ⊎ ((q.0.0.filename ≡ wheel_meta) × (q.1 ≡ some (line_for L wheel_meta q.0.1)))))
        (written-injective h)
        ((refl, (λ n. refl), λ y. absurd (true-ne-false (sym y ∙ same))), inl refl)
  rewrite_if_lem true wheel_meta (info, data') line {r} same h =
      let (text, read, h₁) = written_through (or_refused unicode_error (L.decode data')) _ h in
      let (_, tags, h₂) = written_through (check_tags L text) _ h₁ in
      subst
        (λ (q : ZipEntry × Option String).
          AfterFirst wheel_meta (info, data') q.0
          × ((q.1 ≡ line)
              ⊎ ((q.0.0.filename ≡ wheel_meta) × (q.1 ≡ some (line_for L wheel_meta q.0.1)))))
        (written-injective h₂)
        (
          (
            refl,
            (λ n. absurd (true-ne-false (sym same ∙ n))),
            λ y. (text, or_refused_lem _ (L.decode data') read, check_tags_lem text tags, refl),
          ),
          inr ((eq_iff _ _).0 same, refl),
        )

  pub rewrite_all_lem :
      (wheel_meta : String) (es : List ZipEntry) (line : Option String)
      {r : List ZipEntry × Option String}
      → rewrite_all L wheel_meta es line ≡ written r
      → Each (AfterFirst wheel_meta) es r.0
        × ((r.1 ≡ line) ⊎ ((m : String) × (r.1 ≡ some m) × States wheel_meta m r.0))
  unfolding rewrite_all
  rewrite_all_lem wheel_meta [] line {r} h =
      subst
        (λ (q : List ZipEntry × Option String).
          Each (AfterFirst wheel_meta) [] q.0
          × ((q.1 ≡ line) ⊎ ((m : String) × (q.1 ≡ some m) × States wheel_meta m q.0)))
        (written-injective h) (none_left, inl refl)
  rewrite_all_lem wheel_meta (e ∷ es) line {r} h =
      let (first, x, h₁) = written_through (rewrite_entry L wheel_meta e line) _ h in
      let (rest, y, h₂) = written_through (rewrite_all L wheel_meta es first.1) _ h₁ in
      let (kept, stated) =
        rewrite_if_lem (str_eq e.0.filename wheel_meta) wheel_meta e line refl x in
      let (kepts, later) = rewrite_all_lem wheel_meta es first.1 y in
      subst
        (λ (q : List ZipEntry × Option String).
          Each (AfterFirst wheel_meta) (e ∷ es) q.0
          × ((q.1 ≡ line) ⊎ ((m : String) × (q.1 ≡ some m) × States wheel_meta m q.0)))
        (written-injective h₂) (both kept kepts, joined stated later)
    where
      joined :
          {first : ZipEntry × Option String} {rest : List ZipEntry × Option String}
          → (first.1 ≡ line)
            ⊎ ((first.0.0.filename ≡ wheel_meta)
                × (first.1 ≡ some (line_for L wheel_meta first.0.1)))
          → (rest.1 ≡ first.1) ⊎ ((m : String) × (rest.1 ≡ some m) × States wheel_meta m rest.0)
          → (rest.1 ≡ line)
            ⊎ ((m : String) × (rest.1 ≡ some m) × States wheel_meta m (first.0 ∷ rest.0))
      joined a (inr (m, s, t)) = inr (m, s, there t)
      joined (inl a) (inl b) = inl (b ∙ a)
      joined {first} (inr (n, a)) (inl b) =
          inr (line_for L wheel_meta first.0.1, b ∙ a, here n refl)
