-- ===== src/Scripts/Generate/Names.antt =====
-- The names of the files that `generate` of scripts/golden.py writes.
use Prim.Native.String.{◌++◌ as ◌<>◌}
use pyhdiff.Base.{
  ◌≡◌, refl, sym, ap, ap₂, ◌∙◌, Bool, true, not, ◌&&◌, String, str_eq, List, [], ◌∷◌, ◌++◌, Bytes,
  if◌then◌else◌, ℕ,
}
use pyhdiff.Base.Int.{pos}
use pyhdiff.Errors.{ok, returned_through, ok-injective}
use pyhdiff.Native.{Native}
use pyhdiff.Api.{Hash, bytes_object, compress}
use pyhdiff.Scripts.Text.{contains}
use pyhdiff.Scripts.Golden.{
  pairs, profiles, frame_levels, Spec, Entry, target_of, encode_spec, envelopes, frames,
  encode_pairs, encode_corpus,
}

-- Whether a name is not among others, and whether all are different.
abbrev pub not_in : String → List String → Bool
not_in n [] = true
not_in n (m ∷ ms) = not (str_eq m n) && not_in n ms

abbrev pub all_different : List String → Bool
all_different [] = true
all_different (n ∷ ns) = not_in n ns && all_different ns

-- A name of a file of a directory other than manifest.json: one component, which is not special.
abbrev pub is_plain : String → Bool
is_plain n = not (contains "/" n) && not_in n ("" ∷ "." ∷ ".." ∷ "manifest.json" ∷ [])

abbrev pub all_plain : List String → Bool
all_plain [] = true
all_plain (n ∷ ns) = is_plain n && all_plain ns

abbrev pub names : List Entry → List String
names [] = []
names (e ∷ es) = e.name ∷ names es

abbrev pub envelope_names : String → List String → List String
envelope_names pair [] = []
envelope_names pair (name ∷ more) = (pair <> "." <> name <> ".phdf") ∷ envelope_names pair more

abbrev pub frame_names : String → List (ℕ × String) → List String
frame_names pair [] = []
frame_names pair ((level, shown) ∷ more) =
    (pair <> ".compress-" <> shown <> ".zst") ∷ frame_names pair more

abbrev pub pair_names : List (String × Bool) → List String
pair_names [] = []
pair_names ((pair, medium) ∷ rest) =
    envelope_names pair profiles
    ++ frame_names pair (if medium then frame_levels else [])
    ++ pair_names rest

names-append : (a b : List Entry) → names (a ++ b) ≡ names a ++ names b
names-append [] b = refl
names-append (e ∷ a) b = ap (λ s. e.name ∷ s) (names-append a b)

module _ (H : Hash) (N : Native) (files : String → Bytes) (specs : String → Spec) where
  names-envelopes :
      (pair : String) (profile_names : List String) {es : List Entry}
      → envelopes H N files specs pair profile_names ≡ ok es
      → names es ≡ envelope_names pair profile_names
  unfolding envelopes
  names-envelopes pair [] e = rw (← ok-injective e) refl
  names-envelopes pair (name ∷ more) e =
      let (made, _, e₁) = returned_through (encode_spec H N files specs (specs name) pair) _ e in
      let (rest, x, e₂) = returned_through (envelopes H N files specs pair more) _ e₁ in
      rw (← ok-injective e₂)
        (ap (λ s. (pair <> "." <> name <> ".phdf") ∷ s) (names-envelopes pair more x))

  names-frames :
      (pair : String) (levels : List (ℕ × String)) {es : List Entry}
      → frames H N files specs pair levels ≡ ok es
      → names es ≡ frame_names pair levels
  unfolding frames
  names-frames pair [] e = rw (← ok-injective e) refl
  names-frames pair ((level, shown) ∷ more) e =
      let (blob, _, e₁) =
        returned_through
          (compress N (bytes_object (files (target_of pair))) (pos level) (pos 0) true) _ e in
      let (rest, x, e₂) = returned_through (frames H N files specs pair more) _ e₁ in
      rw (← ok-injective e₂)
        (ap (λ s. (pair <> ".compress-" <> shown <> ".zst") ∷ s) (names-frames pair more x))

  names-encode_pairs :
      (ps : List (String × Bool)) {es : List Entry}
      → encode_pairs H N files specs ps ≡ ok es
      → names es ≡ pair_names ps
  unfolding encode_pairs
  names-encode_pairs [] e = rw (← ok-injective e) refl
  names-encode_pairs ((pair, medium) ∷ ps) e =
      let (sealed, x, e₁) = returned_through (envelopes H N files specs pair profiles) _ e in
      let (framed, y, e₂) =
        returned_through (frames H N files specs pair (if medium then frame_levels else [])) _ e₁ in
      let (more, z, e₃) = returned_through (encode_pairs H N files specs ps) _ e₂ in
      ap names (sym (ok-injective e₃))
      ∙ names-append (sealed ++ framed) more
      ∙ ap₂ (λ a b. a ++ b)
          (names-append sealed framed
            ∙ ap₂ (λ a b. a ++ b) (names-envelopes pair profiles x)
                (names-frames pair (if medium then frame_levels else []) y))
          (names-encode_pairs ps z)

  pub encode_corpus_different :
      {es : List Entry} → encode_corpus H N files specs ≡ ok es → all_different (names es) ≡ true
  unfolding encode_corpus
  encode_corpus_different e = rw (names-encode_pairs pairs e) refl

  pub encode_corpus_plain :
      {es : List Entry} → encode_corpus H N files specs ≡ ok es → all_plain (names es) ≡ true
  unfolding encode_corpus
  encode_corpus_plain e = rw (names-encode_pairs pairs e) refl
