-- ===== src/Scripts/Generate/Importable.antt =====
-- `generate` of scripts/golden.py against the checks of `import_release`.
use mathlib.Core.Path.{subst}
use text.Mathlib.TextEquality.{eq_iff}
use pyhdiff.Base.{
  ◌≡◌, refl, sym, ◌∙◌, Bool, true, false, not, ◌&&◌, String, str_eq, List, [], ◌∷◌, Bytes, All, inl,
  inr, Bool-cases,
}
use pyhdiff.Errors.{ok, returned_through, ok-injective}
use pyhdiff.Native.{Native}
use pyhdiff.Api.{Hash}
use pyhdiff.Scripts.Golden.{Spec, Entry, encode_corpus}
use pyhdiff.Scripts.Release.{Located, within, Library, finished, read_file, read_blob, check_blobs}
use pyhdiff.Scripts.Generate.Names.{
  not_in, all_different, is_plain, all_plain, names, encode_corpus_different, encode_corpus_plain,
}
use pyhdiff.Scripts.Generate.{Listed, Generated, without_file, put, put_all, all_listed, generate}

-- The files of a manifest's entries with their digests.
abbrev pub to_check : List Listed → List (String × String)
to_check [] = []
to_check (l ∷ ls) = (l.blob, l.blob_sha256) ∷ to_check ls

both : (a b : Bool) → (a && b) ≡ true → (a ≡ true) × (b ≡ true)
both true b h = (refl, h)
both false b h = cc

flipped : (b : Bool) → not b ≡ true → b ≡ false
flipped true h = cc
flipped false h = refl

-- pathlib and POSIX: below a directory, a plain name leads to the file of that name.
abbrev pub IsPlainBelow : (String → Located) → Type 0
IsPlainBelow located = (n : String) → is_plain n ≡ true → located n ≡ within n

module _ (L : Library) where
  read_file-without :
      (n m : String) (files : List (String × Bytes))
      → str_eq m n ≡ false
      → read_file L n (without_file m files) ≡ read_file L n files
  unfolding read_file
  read_file-without n m [] h = refl
  read_file-without n m ((k, content) ∷ files) h = elim (Bool-cases (str_eq k m)) [
    | inl e ↦ rw (e, k_other e) (read_file-without n m files h)
    | inr e ↦ elim (Bool-cases (str_eq k n)) [
      | inl f ↦ rw (e, f) refl
      | inr f ↦ rw (e, f) (read_file-without n m files h)
    ]
  ]
    where
      k_other : str_eq k m ≡ true → str_eq k n ≡ false
      k_other e = subst (λ s. str_eq s n ≡ false) (sym ((eq_iff k m).0 e)) h

  -- What is written later under other names leaves a blob as it is.
  read_file-put_all :
      (n : String) (es : List Entry) (files : List (String × Bytes))
      → not_in n (names es) ≡ true
      → read_file L n (put_all es files) ≡ read_file L n files
  unfolding put_all read_file
  read_file-put_all n [] files h = refl
  read_file-put_all n (e ∷ es) files h =
      let (other, rest) = both (not (str_eq e.name n)) (not_in n (names es)) h in
      let e_other = flipped (str_eq e.name n) other in
      read_file-put_all n es (put e.name e.blob files) rest
      ∙ rw e_other (read_file-without n e.name files e_other)

  IsWritten : List (String × Bytes) → Entry → Type 0
  IsWritten files e = read_file L e.name files ≡ finished e.blob

  put_all-IsWritten :
      (es : List Entry) (files : List (String × Bytes))
      → all_different (names es) ≡ true
      → All (IsWritten (put_all es files)) es
  unfolding put_all read_file IsWritten
  put_all-IsWritten [] files h = tt
  put_all-IsWritten (e ∷ es) files h =
      let (fresh, rest) = both (not_in e.name (names es)) (all_different (names es)) h in
      (
        read_file-put_all e.name es (put e.name e.blob files) fresh
            ∙ rw ((eq_iff e.name e.name).1 refl) refl,
        put_all-IsWritten es (put e.name e.blob files) rest,
      )

  check_blobs-all_listed :
      (located : String → Located)
      → IsPlainBelow located
      → (sources : String → Bytes) (files : List (String × Bytes)) (es : List Entry)
      → all_plain (names es) ≡ true
      → All (IsWritten files) es
      → check_blobs L located files (to_check (all_listed L.hex_digest sources es)) ≡ finished tt
  unfolding check_blobs read_blob IsWritten
  check_blobs-all_listed located below sources files [] plain h = refl
  check_blobs-all_listed located below sources files (e ∷ es) plain (there, rest) =
      let (first, more) = both (is_plain e.name) (all_plain (names es)) plain in
      rw (below e.name first, there, (eq_iff (L.hex_digest e.blob) (L.hex_digest e.blob)).1 refl)
        (check_blobs-all_listed located below sources files es more rest)

-- What `generate` writes has each blob under the name and with the digest that its manifest gives,
-- and the names are plain, so that the loop of `import_release` over it passes, whatever the directory
-- held before, if a plain name leads to the file of that name.
pub generate-check_blobs :
    (L : Library) (H : Hash) (N : Native) (files : String → Bytes) (specs : String → Spec)
    (version : String) (before : List (String × Bytes)) {g : Generated}
    → generate L.hex_digest files H N specs version before ≡ ok g
    → (located : String → Located) → IsPlainBelow located
    → check_blobs L located g.blobs (to_check g.entries) ≡ finished tt
unfolding generate
generate-check_blobs L H N files specs version before e located below =
    let (es, x, e₁) = returned_through (encode_corpus H N files specs) _ e in
    rw (← ok-injective e₁) (
      check_blobs-all_listed L located below files (put_all es before) es
        (encode_corpus_plain H N files specs x)
        (put_all-IsWritten L es before (encode_corpus_different H N files specs x)))
