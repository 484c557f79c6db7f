-- ===== src/Scripts/Toolchain/Done.antt =====
-- `build_runtime` of scripts/toolchain.py, where it returns, and a second call.
use mathlib.Core.Path.{subst}
use mathlib.Core.List.{append_assoc}
use Prim.Native.String.{◌++◌ as ◌<>◌}
use pyhdiff.Base.{
  ◌≡◌, ◌≢◌, refl, sym, ap, ◌∙◌, true, false, not, ◌&&◌, [], ◌∷◌, ◌++◌, Bytes, Option, none, some,
  inl, inr, Bool-cases,
}
use pyhdiff.Scripts.Files.{
  FilePath, Node, file, Files, below, find, exists, without, moved, may_replace, has_entry,
  rename_node,
}
use pyhdiff.Scripts.Files.Moves.{find-without, find-write_at, find-moved, below-append}
use pyhdiff.Scripts.Build.{
  World, finished, look, or_error, make_directory, remove_tree, remove_existing, rename, write_file,
}
use pyhdiff.Scripts.Build.Keeps.{Ends-bind, finished_through, finished-injective}
use pyhdiff.Scripts.Toolchain.{Machine, Mode, extensive, debug, out_name}
use pyhdiff.Scripts.Toolchain.Runtime.{
  common, builtins_settings, runtimes_settings, licensed, copy_licenses, digests, installed, built,
  staged_runtime, fresh_runtime, build_runtime,
}
use pyhdiff.Scripts.Toolchain.Whole.{marker}

or_error_lem :
    (o : Option Files) (v : World) {u : Unit} {w : World}
    → or_error o v ≡ finished u w
    → o ≡ some w.files
or_error_lem none v h = cc
or_error_lem (some fs) v h = ap (λ w. some (World.files w)) (finished-injective h).1

write_file_lem :
    (p : FilePath) (b : Bytes) (v : World) {u : Unit} {w : World}
    → write_file p b v ≡ finished u w
    → find p w.files ≡ some (file b)
write_file_lem p b v h = find-write_at (find p v.files) p b v.files (or_error_lem _ v h)

remove_existing_lem :
    (d p : FilePath) (v : World) {u : Unit} {w : World} {n : Node}
    → below d p ≡ none
    → find p v.files ≡ some n
    → remove_existing d v ≡ finished u w
    → find p w.files ≡ some n
remove_existing_lem d p v {u} {w} {n} e f h = elim (Bool-cases (exists d v.files)) [
  | inl g ↦
      let now = or_error_lem (some (without d v.files)) v (rw g at h) in
      subst (λ fs. find p fs ≡ some n) (some-injective now) (find-without d p v.files e ∙ f)
  | inr g ↦ absurd (stopped-ne-finished (rw g at h))
]
  where
    some-injective : {a b : Files} → some a ≡ some b → a ≡ b
    some-injective x = cc

    stopped-ne-finished : or_error none v ≢ finished u w
    stopped-ne-finished x = cc

rename_lem :
    (source target rest : FilePath) (v : World) {u : Unit} {w : World} {n : Node}
    → below target (source ++ rest) ≡ none
    → find (source ++ rest) v.files ≡ some n
    → rename source target v ≡ finished u w
    → find (target ++ rest) w.files ≡ some n
rename_lem source target rest v {u} {w} {n} e f h =
    subst (λ fs. find (target ++ rest) fs ≡ some n)
      (sym (moves (find source v.files) (or_error_lem _ v h)))
      (find-moved source target rest v.files e f)
  where
    some-injective : {a b : Files} → some a ≡ some b → a ≡ b
    some-injective x = cc

    none-ne-some : {a : Files} → none ≢ some a
    none-ne-some x = cc

    moves :
        (o : Option Node)
        → rename_node o source target v.files ≡ some w.files
        → w.files ≡ moved source target (without target v.files)
    moves none x = absurd (none-ne-some x)
    moves (some m) x =
        elim (Bool-cases (may_replace m (find target v.files) && not (has_entry target v.files))) [
          | inl g ↦ sym (some-injective (rw g at x))
          | inr g ↦ absurd (none-ne-some (rw g at x))
        ]

module _ (M : Machine) (llvm source : FilePath) where
  staged_runtime_lem :
      (work staging : FilePath) (mode : Mode) (v w : World) (u : Unit)
      → staged_runtime M llvm source work staging mode v ≡ finished u w
      → (b : Bytes) × (find (staging ++ "provenance.json" ∷ []) w.files ≡ some (file b))
  unfolding staged_runtime
  staged_runtime_lem work staging mode =
      let Q = λ (w : World).
        (b : Bytes) × (find (staging ++ "provenance.json" ∷ []) w.files ≡ some (file b)) in
      Ends-bind Q (remove_tree staging) _ λ _.
        Ends-bind Q
          (built M (source ++ "compiler-rt" ∷ "lib" ∷ "builtins" ∷ []) (work ++ "builtins" ∷ [])
            (common llvm source work staging) builtins_settings)
          _
          λ _.
            Ends-bind Q
              (built M (source ++ "runtimes" ∷ []) (work ++ "runtimes" ∷ [])
                (common llvm source work staging) (runtimes_settings mode))
              _
              λ _. Ends-bind Q (make_directory true (staging ++ "licenses" ∷ [])) _ λ _.
                Ends-bind Q (copy_licenses source (staging ++ "licenses" ∷ []) licensed) _ λ _.
                  Ends-bind Q (look (installed staging)) _ λ files.
                    Ends-bind Q (digests M staging (M.listed files)) _ λ shas v w u h.
                      let b = M.dumps (record { mode = mode; sha256 = shas }) in
                      (b, write_file_lem (staging ++ "provenance.json" ∷ []) b v h)

  fresh_runtime_lem :
      (staging out : FilePath) (mode : Mode)
      → below out (staging ++ "provenance.json" ∷ []) ≡ none
      → ((fs : Files) → below (M.temporary fs) (staging ++ "provenance.json" ∷ []) ≡ none)
      → (v : World) {path : FilePath} {w : World}
      → fresh_runtime M llvm source staging out mode v ≡ finished path w
      → (path ≡ out) × (exists (out ++ "provenance.json" ∷ []) w.files ≡ true)
  fresh_runtime_lem staging out mode apart other v {path} {w} h =
      let work = M.temporary v.files in
      let p₁ = finished_through (make_directory false work v) _ h in
      let p₂ =
        finished_through (staged_runtime M llvm source work staging mode p₁.between) _ p₁.later in
      let p₃ = finished_through (remove_existing work p₂.between) _ p₂.later in
      let p₄ = finished_through (rename staging out p₃.between) _ p₃.later in
      let (at, last) = finished-injective p₄.later in
      let (b, there) = staged_runtime_lem work staging mode p₁.between p₂.between p₂.value p₂.ran in
      let kept = remove_existing_lem work _ p₂.between (other v.files) there p₃.ran in
      let now = rename_lem staging out ("provenance.json" ∷ []) p₃.between apart kept p₄.ran in
      (
        sym at,
        subst (λ u. exists (out ++ "provenance.json" ∷ []) (World.files u) ≡ true) last
            (rw now refl),
      )

staging_apart :
    (prefix : FilePath) (mode : Mode)
    → below
        (prefix ++ out_name mode ∷ [])
        ((prefix ++ (out_name mode <> ".partial") ∷ []) ++ "provenance.json" ∷ [])
      ≡ none
staging_apart prefix mode =
    rw
      (
        append_assoc prefix ((out_name mode <> ".partial") ∷ []) ("provenance.json" ∷ []),
        below-append prefix (out_name mode ∷ [])
            ((out_name mode <> ".partial") ∷ "provenance.json" ∷ []),
      )
      (names mode)
  where
    names :
        (mode : Mode)
        → below (out_name mode ∷ []) ((out_name mode <> ".partial") ∷ "provenance.json" ∷ []) ≡ none
    names extensive = refl
    names debug = refl

-- What `build_runtime` returns is the directory of the mode, with its marker in place.
pub build_runtime_done :
    (M : Machine) (llvm source prefix : FilePath) (mode : Mode)
    → ((fs : Files)
        → below
            (M.temporary fs)
            ((prefix ++ (out_name mode <> ".partial") ∷ []) ++ "provenance.json" ∷ [])
          ≡ none)
    → (v : World) {path : FilePath} {w : World}
    → build_runtime M llvm source prefix mode v ≡ finished path w
    → (path ≡ prefix ++ out_name mode ∷ []) × (exists (marker prefix mode) w.files ≡ true)
unfolding build_runtime
build_runtime_done M llvm source prefix mode other v {path} {w} h =
    elim (Bool-cases (exists (marker prefix mode) v.files)) [
      | inl e ↦
          let (at, still) = finished-injective (rw e at h) in
          (sym at, subst (λ u. exists (marker prefix mode) (World.files u) ≡ true) still e)
      | inr e ↦
          fresh_runtime_lem M llvm source _ (prefix ++ out_name mode ∷ []) mode
            (staging_apart prefix mode) other v (rw e at h)
    ]

-- Once `build_runtime` has returned, a further call returns the same and changes nothing, on any
-- machine and with any compiler and source.
pub build_runtime_again :
    (M N : Machine) (llvm source llvm₂ source₂ prefix : FilePath) (mode : Mode)
    → ((fs : Files)
        → below
            (M.temporary fs)
            ((prefix ++ (out_name mode <> ".partial") ∷ []) ++ "provenance.json" ∷ [])
          ≡ none)
    → (v : World) {path : FilePath} {w : World}
    → build_runtime M llvm source prefix mode v ≡ finished path w
    → build_runtime N llvm₂ source₂ prefix mode w ≡ finished path w
unfolding build_runtime
build_runtime_again M N llvm source llvm₂ source₂ prefix mode other v {path} {w} h =
    let (at, there) = build_runtime_done M llvm source prefix mode other v h in rw (there, at) refl
