-- ===== src/Scripts/Wheel/Publish/Published.antt =====
-- What scripts/wheel.py leaves in the directory of the release.
use mathlib.Core.Path.{subst}
use pyhdiff.Base.{
  ℕ, ◌≤◌, ◌≡◌, inl, inr, refl, sym, ap, ap₂, ◌∙◌, true, Option, none, some, String, List, [], ◌∷◌,
  Bytes, ltb, arith, Bool-cases,
}
use pyhdiff.Scripts.Generate.{put}
use pyhdiff.Scripts.Checks.{Environment}
use pyhdiff.Scripts.Wheel.{ZipEntry, TextLibrary, Retag, refused, written, retag}
use pyhdiff.Scripts.Wheel.Consistent.{Consistent, retag-Consistent}
use pyhdiff.Scripts.Wheel.Publish.Wheels.{only_retagged}
use pyhdiff.Scripts.Wheel.Publish.{
  Host, Trouble, Release, Attempt, stopped, finished, Publishing, proceed, ◌>>=◌, or_trouble, only,
  is_match, glob, without_stale, wheel_suffix, variable, pinned, dated, file_named, command_failed,
  value_error, no_policy, no_file, policy, refuse_newer, retag_into, bad_zip, retagged_into,
  digest_line, print_digests, build_wheel, release_wheel, main,
}

module _ {A B : Type 0} where
  finished_through :
      (first : Publishing A) (next : A → Publishing B) {out end : Release} {b : B}
      → (first >>= next) out ≡ finished b end
      → (a : A) × (mid : Release) × (first out ≡ finished a mid) × (next a mid ≡ finished b end)
  finished_through first next {out} {end} {b} e = through (first out) next e
    where
      through :
          (r : Attempt A) (next : A → Publishing B)
          → proceed r next ≡ finished b end
          → (a : A) × (mid : Release) × (r ≡ finished a mid) × (next a mid ≡ finished b end)
      through (stopped t o) next e = cc
      through (finished a o) next e = (a, o, refl, e)

  or_trouble_through :
      (t : Trouble) (o : Option A) (next : A → Publishing B) {out end : Release} {b : B}
      → (or_trouble t o >>= next) out ≡ finished b end
      → (a : A) × (o ≡ some a) × (next a out ≡ finished b end)
  or_trouble_through t none next e = cc
  or_trouble_through t (some a) next e = (a, refl, e)

only_lem : {A : Type 0} (l : List A) {a : A} → only l ≡ some a → l ≡ a ∷ []
only_lem [] e = cc
only_lem (x ∷ []) {a} e = ap (λ o. elim o [ some y ↦ y ∷ [] | none ↦ x ∷ [] ]) e
only_lem (x ∷ (y ∷ l)) e = cc

same_release :
    {A : Type 0} {a b : A} {out end : Release} → finished a out ≡ finished b end → out ≡ end
same_release {out} e = ap (λ r. elim r [ finished x o ↦ o | stopped t o ↦ out ]) e

same_value : {A : Type 0} {a b : A} {out end : Release} → finished a out ≡ finished b end → a ≡ b
same_value {a} e = ap (λ r. elim r [ finished x o ↦ x | stopped t o ↦ a ]) e

stopped-ne-finished :
    {A : Type 0} {t : Trouble} {a : A} {out end : Release} → ¬ (stopped t out ≡ finished a end)
stopped-ne-finished e = cc

module _ (L : TextLibrary) (M : Host) where
  dated_keeps :
      (env : Environment) (o : Option String) {out end : Release} {env' : Environment}
      → dated L M env o out ≡ finished env' end
      → end ≡ out
  dated_keeps env (some time) e = sym (same_release e)
  dated_keeps env none {out} e =
      let (time, _, e₁) = or_trouble_through command_failed (M.commit_time env) _ e in
      sym (same_release e₁)

  refuse_newer_lem :
      (n : ℕ) {out end : Release} {u : Unit}
      → refuse_newer L M n out ≡ finished u end
      → (n ≤ 34) × (end ≡ out)
  refuse_newer_lem n {out} e = elim (Bool-cases (ltb 34 n)) [
    | inl h ↦ absurd (stopped-ne-finished (rw h at e))
    | inr h ↦ (ground arith, sym (same_release (rw h at e)))
  ]

  retagged_into_lem :
      (r : Retag (String × List ZipEntry)) (out : Release) {end : Release} {u : Unit}
      → retagged_into L M r out ≡ finished u end
      → (w : String × List ZipEntry) × (r ≡ written w) × (end ≡ put w.0 (M.write_zip w.1) out)
  retagged_into_lem (refused r) out e = cc
  retagged_into_lem (written w) out e = (w, refl, sym (same_release e))

  digest_line_lem :
      (name : String) {out end : Release} {p : String × String}
      → digest_line L M name out ≡ finished p end
      → (b : Bytes) × (file_named name out ≡ some b) × (p ≡ (M.hex_digest b, name)) × (end ≡ out)
  digest_line_lem name {out} e =
      let (b, there, e₁) = or_trouble_through no_file (file_named name out) _ e in
      (b, there, sym (same_value e₁), sym (same_release e₁))

  -- Both files are in the directory, and the digests of their contents are printed with their names.
  pub record Digests (debug_name wheel : String) (after : Release)
      (printed : List (String × String)) : Type 0 where
    pub debug_bytes : Bytes
    pub wheel_bytes : Bytes
    pub debug_there : file_named debug_name after ≡ some debug_bytes
    pub wheel_there : file_named wheel after ≡ some wheel_bytes
    pub lines :
        printed ≡ (M.hex_digest debug_bytes, debug_name) ∷ (M.hex_digest wheel_bytes, wheel) ∷ []

  print_digests_lem :
      (debug_name wheel : String) (out : Release) {end : Release} {printed : List (String × String)}
      → print_digests L M debug_name wheel out ≡ finished printed end
      → Digests debug_name wheel end printed × (end ≡ out)
  print_digests_lem debug_name wheel out e =
      let (first, out₁, h₁, e₁) = finished_through (digest_line L M debug_name) _ e in
      let (second, out₂, h₂, e₂) = finished_through (digest_line L M wheel) _ e₁ in
      let (a, a_there, first_is, kept₁) = digest_line_lem debug_name h₁ in
      let (b, b_there, second_is, kept₂) = digest_line_lem wheel h₂ in
      let kept = sym (same_release e₂) ∙ kept₂ ∙ kept₁ in
      (
        record {
          debug_bytes = a;
          wheel_bytes = b;
          debug_there = ap (file_named debug_name) kept ∙ a_there;
          wheel_there = ap (file_named wheel) (sym (same_release e₂) ∙ kept₂) ∙ b_there;
          lines = sym (same_value e₂) ∙ ap₂ (λ x y. x ∷ y ∷ []) first_is second_is;
        },
        kept,
      )

  -- One wheel was built, which auditwheel found consistent with a policy up to 34.
  pub record BuiltWheel (built : String × Bytes) (debug_files : List Bytes) : Type 0 where
    pub env : Environment
    pub made : M.pip_wheel env ≡ some (record { wheels = built ∷ []; debug_files = debug_files })
    pub shown : String
    pub audited : M.audit built.1 env ≡ some shown
    pub newest : ℕ
    pub found : M.search shown ≡ some newest
    pub allowed : newest ≤ 34

  audited_lem :
      (wheel : Bytes) (env : Environment) {n : ℕ} {out end : Release}
      → policy L M wheel env out ≡ finished n end
      → (shown : String) × (M.audit wheel env ≡ some shown)
        × (M.search shown ≡ some n)
        × (end ≡ out)
  audited_lem wheel env {n} {out} e =
      let (shown, h, e₁) = or_trouble_through command_failed (M.audit wheel env) _ e in
      let (m, k, same, kept) = found (M.search shown) out e₁ in (shown, h, k ∙ ap some same, kept)
    where
      found :
          (o : Option ℕ) (out : Release) {n : ℕ} {end : Release}
          → or_trouble no_policy o out ≡ finished n end
          → (m : ℕ) × (o ≡ some m) × (m ≡ n) × (end ≡ out)
      found none out e = cc
      found (some m) out e = (m, refl, same_value e, sym (same_release e))

  build_wheel_lem :
      (toolchain : String) (environ : Environment) (before : Release) {w : String × Bytes}
      {ds : List Bytes} {after : Release}
      → build_wheel L M toolchain environ before ≡ finished (w, ds) after
      → BuiltWheel w ds × (after ≡ before)
  unfolding build_wheel
  build_wheel_lem toolchain environ before {w} {ds} {after} e =
      let start = pinned L M toolchain environ in
      let (env, out₁, h₁, e₁) =
        finished_through (dated L M start (variable "SOURCE_DATE_EPOCH" start)) _ e in
      let (made, h₂, e₂) = or_trouble_through command_failed (M.pip_wheel env) _ e₁ in
      let (built, h₃, e₃) = or_trouble_through value_error (only made.wheels) _ e₂ in
      let (newest, out₄, h₄, e₄) = finished_through (policy L M built.1 env) _ e₃ in
      let (shown, h₅, h₆, kept) = audited_lem built.1 env h₄ in
      let (_, out₅, h₇, e₅) = finished_through (refuse_newer L M newest) _ e₄ in
      let (allowed, kept') = refuse_newer_lem newest h₇ in
      let one : M.pip_wheel env
          ≡ some (record { wheels = built ∷ []; debug_files = made.debug_files }) =
        h₂
        ∙ ap (λ (l : List (String × Bytes)). some (record made { wheels = l }))
            (only_lem made.wheels h₃) in
      (
        subst (λ (p : (String × Bytes) × List Bytes). BuiltWheel p.0 p.1) (same_value e₅)
            (record {
              env = env;
              made = one;
              shown = shown;
              audited = h₅;
              newest = newest;
              found = h₆;
              allowed = allowed;
            }),
        sym (same_release e₅) ∙ kept' ∙ kept ∙ dated_keeps start _ h₁,
      )

  -- The release is the files that were there before without those of an earlier wheel, the built wheel
  -- with its platform tag replaced, which has the name of a wheel for the platform, and the debug
  -- file. The digests of the debug file and of what has the name of the wheel are printed.
  pub record Released (built : String × Bytes) (debug_files : List Bytes) (before : Release)
      (printed : List (String × String)) (after : Release) : Type 0 where
    pub debug : Bytes
    pub one_debug : debug_files ≡ debug ∷ []
    pub entries : List ZipEntry
    pub opened : M.read_zip built.1 ≡ some entries
    pub name : String
    pub rewritten : List ZipEntry
    pub tagged : retag L built.0 entries ≡ written (name, rewritten)
    pub consistent : Consistent L entries rewritten
    pub for_platform : is_match wheel_suffix name ≡ true
    pub left :
        after
        ≡ put
            (L.replace name ".whl" ".debug")
            debug
            (put name (M.write_zip rewritten) (without_stale before))
    pub digests : Digests (L.replace name ".whl" ".debug") name after printed

  release_wheel_lem :
      (built : String × Bytes) (ds : List Bytes) (before : Release)
      {printed : List (String × String)} {after : Release}
      → release_wheel L M (built, ds) before ≡ finished printed after
      → Released built ds before printed after
  unfolding release_wheel
  release_wheel_lem built ds before {printed} {after} e =
      let (_, out₁, h₁, e₁) = finished_through (retag_into L M built) _ e in
      let (entries, opened, h₂) = or_trouble_through bad_zip (M.read_zip built.1) _ h₁ in
      let (w, tagged, kept) =
        retagged_into_lem (retag L built.0 entries) (without_stale before) h₂ in
      let (wheel, h₃, e₃) = or_trouble_through value_error (only (glob wheel_suffix out₁)) _ e₁ in
      let (named, for_platform) =
        only_retagged w.0 (M.write_zip w.1) before
          (subst (λ o. only (glob wheel_suffix o) ≡ some wheel) kept h₃) in
      let (debug, h₄, e₄) = or_trouble_through value_error (only ds) _ e₃ in
      let debug_name = L.replace wheel ".whl" ".debug" in
      let (digests, kept') = print_digests_lem debug_name wheel (put debug_name debug out₁) e₄ in
      record {
        debug = debug;
        one_debug = only_lem ds h₄;
        entries = entries;
        opened = opened;
        name = w.0;
        rewritten = w.1;
        tagged = tagged;
        consistent = retag-Consistent L built.0 entries tagged;
        for_platform = for_platform;
        left = kept' ∙ ap₂ (λ n o. put (L.replace n ".whl" ".debug") debug o) named kept;
        digests = subst (λ n. Digests (L.replace n ".whl" ".debug") n after printed) named digests;
      }

  -- Where `main` ends with success, it has built one wheel that the policy allows, and released it.
  pub main-Released :
      (toolchain : String) (environ : Environment) (before : Release)
      {printed : List (String × String)} {after : Release}
      → main L M toolchain environ before ≡ finished printed after
      → (built : String × Bytes) × (debug_files : List Bytes) × BuiltWheel built debug_files
        × Released built debug_files before printed after
  unfolding main
  main-Released toolchain environ before e =
      let ((w, ds), mid, b, r) = finished_through (build_wheel L M toolchain environ) _ e in
      let (built, same) = build_wheel_lem toolchain environ before b in
      (w, ds, built, release_wheel_lem w ds before (rw same at r))
