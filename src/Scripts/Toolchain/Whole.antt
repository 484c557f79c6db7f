-- ===== src/Scripts/Toolchain/Whole.antt =====
-- `build_runtime` of scripts/toolchain.py, where it stops before its last step.
use mathlib.Core.Path.{subst}
use mathlib.Core.List.{append_assoc}
use Prim.Native.String.{◌++◌ as ◌<>◌}
use pyhdiff.Base.{
  ◌≡◌, refl, Bool, true, false, String, List, [], ◌∷◌, ◌++◌, Bytes, Option, none, some, inl, inr,
  Bool-cases,
}
use pyhdiff.Scripts.Files.{FilePath, Files, find, exists, path_eq, renamed, make_at, write_at}
use pyhdiff.Scripts.Files.Paths.{
  IsAbsentIn, path_eq-append, without_absent, make_at-IsAbsentIn, write_at-IsAbsentIn,
}
use pyhdiff.Scripts.Build.{
  World, Fault, Ran, stopped, finished, Build, give, look, or_error, make_directory, remove_tree,
  remove_existing, write_file, read_file, continue,
}
use pyhdiff.Scripts.Build.Keeps.{EndsIn, Keeps, Keeps-bind, Keeps-then, Keeps-read_file}
use pyhdiff.Scripts.Toolchain.{Machine, Mode, extensive, debug, out_name, run, digest}
use pyhdiff.Scripts.Toolchain.Runtime.{
  copy_licenses, digests, installed, built, staged_runtime, fresh_runtime, build_runtime,
}

abbrev pub IsAbsent : FilePath → World → Type 0
IsAbsent p w = find p w.files ≡ none

-- No command puts anything at the path.
abbrev pub LeavesAbsent : Machine → FilePath → Type 0
LeavesAbsent M p =
    (args : List String) (fs : Files) → find p fs ≡ none → find p (M.execute args fs).files ≡ none

module _ (p : FilePath) where
  or_error-EndsIn :
      (o : Option Files) (w : World)
      → IsAbsent p w
      → IsAbsentIn p o
      → EndsIn (IsAbsent p) (or_error o w)
  or_error-EndsIn none w a h = a
  or_error-EndsIn (some fs) w a h = h

  Keeps-write_file :
      (q : FilePath) (b : Bytes) → path_eq q p ≡ false → Keeps (IsAbsent p) (write_file q b)
  Keeps-write_file q b e w a =
      or_error-EndsIn (write_at (find q w.files) q b w.files) w a
        (write_at-IsAbsentIn (find q w.files) q b p w.files e a)

  Keeps-make_directory :
      (exist_ok : Bool) (q : FilePath)
      → path_eq q p ≡ false
      → Keeps (IsAbsent p) (make_directory exist_ok q)
  Keeps-make_directory exist_ok q e w a =
      or_error-EndsIn (make_at (find q w.files) exist_ok q w.files) w a
        (make_at-IsAbsentIn (find q w.files) exist_ok q p w.files e a)

  Keeps-remove_tree : (q : FilePath) → Keeps (IsAbsent p) (remove_tree q)
  Keeps-remove_tree q w a = without_absent q p w.files a

  Keeps-remove_existing : (q : FilePath) → Keeps (IsAbsent p) (remove_existing q)
  Keeps-remove_existing q w a = elim (Bool-cases (exists q w.files)) [
    | inl e ↦ rw e (without_absent q p w.files a)
    | inr e ↦ rw e a
  ]

module _ (P : World → Type 0) where
  -- The property holds where the script stops.
  abbrev pub StopsIn : {A : Type 0} → Ran A → Type 0
  StopsIn (stopped e w) = P w
  StopsIn (finished a w) = Unit

  continue-StopsIn :
      {A B : Type 0} (r : Ran A) (next : A → Build B)
      → EndsIn P r
      → ((a : A) (w : World) → P w → StopsIn (next a w))
      → StopsIn (continue r next)
  continue-StopsIn (stopped e w) next h k = h
  continue-StopsIn (finished a w) next h k = k a w h

module _ (M : Machine) (p : FilePath) (L : LeavesAbsent M p) where
  Keeps-run : (args : List String) → Keeps (IsAbsent p) (run M args)
  Keeps-run args w a = elim (Bool-cases (M.execute args w.files).success) [
    | inl e ↦ rw e (L args w.files a)
    | inr e ↦ rw e (L args w.files a)
  ]

  Keeps-digest : (q : FilePath) → Keeps (IsAbsent p) (digest M q)
  Keeps-digest q =
      Keeps-bind (IsAbsent p) (read_file q) _ (Keeps-read_file (IsAbsent p) q) (λ b w a. a)

  Keeps-digests :
      (staging : FilePath) (fs : List FilePath) → Keeps (IsAbsent p) (digests M staging fs)
  unfolding digests
  Keeps-digests staging [] = λ w a. a
  Keeps-digests staging (f ∷ fs) = Keeps-bind (IsAbsent p) (digest M f) _ (Keeps-digest f) λ sha.
      Keeps-bind (IsAbsent p) (digests M staging fs) _ (Keeps-digests staging fs) (λ r w a. a)

  Keeps-built :
      (source build : FilePath) (base settings : List String)
      → Keeps (IsAbsent p) (built M source build base settings)
  unfolding built
  Keeps-built source build base settings =
      Keeps-then (IsAbsent p) (run M _) _ (Keeps-run _)
        (Keeps-then (IsAbsent p) (run M _) _ (Keeps-run _) (Keeps-run _))

  -- The path is not below the staging directory.
  module _ (staging : FilePath)
      (apart : (rest : FilePath) → path_eq (staging ++ rest) p ≡ false) where
    Keeps-copy_licenses :
        (source : FilePath) (projects : List String)
        → Keeps (IsAbsent p) (copy_licenses source (staging ++ "licenses" ∷ []) projects)
    unfolding copy_licenses
    Keeps-copy_licenses source [] = λ w a. a
    Keeps-copy_licenses source (project ∷ projects) =
        Keeps-bind (IsAbsent p) (read_file (source ++ project ∷ "LICENSE.TXT" ∷ [])) _
          (Keeps-read_file (IsAbsent p) _)
          λ text.
            Keeps-then (IsAbsent p)
              (write_file ((staging ++ "licenses" ∷ []) ++ ("llvm-" <> project <> ".txt") ∷ [])
                text)
              _
              (Keeps-write_file p _ text (
                rw (append_assoc staging ("licenses" ∷ []) (("llvm-" <> project <> ".txt") ∷ []))
                  (apart ("licenses" ∷ ("llvm-" <> project <> ".txt") ∷ []))))
              (Keeps-copy_licenses source projects)

    Keeps-staged_runtime :
        (llvm source work : FilePath) (mode : Mode)
        → Keeps (IsAbsent p) (staged_runtime M llvm source work staging mode)
    unfolding staged_runtime
    Keeps-staged_runtime llvm source work mode =
        let P = IsAbsent p in
        Keeps-then P (remove_tree staging) _ (Keeps-remove_tree p staging) (
          Keeps-then P (built M _ _ _ _) _ (Keeps-built _ _ _ _) (
            Keeps-then P (built M _ _ _ _) _ (Keeps-built _ _ _ _) (
              Keeps-then P (make_directory true (staging ++ "licenses" ∷ [])) _
                (Keeps-make_directory p true _ (apart ("licenses" ∷ [])))
                (Keeps-then P (copy_licenses source (staging ++ "licenses" ∷ []) _) _
                  (Keeps-copy_licenses source _)
                  (Keeps-bind P (look (installed staging)) _ (λ w a. a)
                    λ files.
                      Keeps-bind P (digests M staging (M.listed files)) _ (Keeps-digests staging _)
                        λ shas.
                          Keeps-write_file p _ (M.dumps (record { mode = mode; sha256 = shas }))
                            (apart ("provenance.json" ∷ [])))))))

    fresh_runtime_stopped :
        (llvm source out : FilePath) (mode : Mode)
        → ((fs : Files) → path_eq (M.temporary fs) p ≡ false)
        → (v : World) → IsAbsent p v
        → StopsIn (IsAbsent p) (fresh_runtime M llvm source staging out mode v)
    fresh_runtime_stopped llvm source out mode other v a =
        let P = IsAbsent p in
        let work = M.temporary v.files in
        continue-StopsIn P (make_directory false work v) _
          (Keeps-make_directory p false work (other v.files) v a)
          λ _ w₁ a₁.
            continue-StopsIn P (staged_runtime M llvm source work staging mode w₁) _
              (Keeps-staged_runtime llvm source work mode w₁ a₁)
              λ _ w₂ a₂.
                continue-StopsIn P (remove_existing work w₂) _ (Keeps-remove_existing p work w₂ a₂)
                  λ _ w₃ a₃. last (renamed staging out w₃.files) w₃ a₃
      where
        last :
            (o : Option Files) (w : World)
            → IsAbsent p w
            → StopsIn (IsAbsent p) (continue (or_error o w) (λ _. give out))
        last none w a = a
        last (some fs) w a = tt

-- provenance.json of a runtime below the prefix, by which `build_runtime` knows that it is there.
abbrev pub marker : FilePath → Mode → FilePath
marker prefix mode = (prefix ++ out_name mode ∷ []) ++ "provenance.json" ∷ []

apart_from_marker :
    (prefix rest : FilePath) (mode : Mode)
    → path_eq ((prefix ++ (out_name mode <> ".partial") ∷ []) ++ rest) (marker prefix mode) ≡ false
apart_from_marker prefix rest mode =
    rw
      (
        append_assoc prefix ((out_name mode <> ".partial") ∷ []) rest,
        append_assoc prefix (out_name mode ∷ []) ("provenance.json" ∷ []),
        path_eq-append prefix ((out_name mode <> ".partial") ∷ rest)
            (out_name mode ∷ "provenance.json" ∷ []),
      )
      (names mode)
  where
    names :
        (mode : Mode)
        → path_eq ((out_name mode <> ".partial") ∷ rest) (out_name mode ∷ "provenance.json" ∷ [])
          ≡ false
    names extensive = refl
    names debug = refl

-- If `build_runtime` stops, at whatever step, then the marker of the runtime is absent where it
-- was absent before, so that the next run builds the runtime anew, if no command puts a file there
-- and `mkdtemp` picks another path.
pub build_runtime_stopped :
    (M : Machine) (llvm source prefix : FilePath) (mode : Mode)
    → LeavesAbsent M (marker prefix mode)
    → ((fs : Files) → path_eq (M.temporary fs) (marker prefix mode) ≡ false)
    → (v : World) {e : Fault} {w : World} → IsAbsent (marker prefix mode) v
    → build_runtime M llvm source prefix mode v ≡ stopped e w
    → IsAbsent (marker prefix mode) w
unfolding build_runtime
build_runtime_stopped M llvm source prefix mode L other v {e} {w} a h =
    subst (StopsIn (IsAbsent (marker prefix mode))) h (
      rw a (
        fresh_runtime_stopped M (marker prefix mode) L
          (prefix ++ (out_name mode <> ".partial") ∷ [])
          (λ rest. apart_from_marker prefix rest mode) llvm source (prefix ++ out_name mode ∷ [])
          mode other v a))
