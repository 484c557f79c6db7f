-- ===== src/Scripts/Golden/Corpus.antt =====
-- Every blob that `encode_corpus` yields gives its target back.
use Prim.Native.String as Text
use text.Mathlib.TextLemmas.{cons-append}
use pyhdiff.Base.{
  ℕ, ◌≡◌, refl, Bool, true, false, String, List, [], ◌∷◌, ◌++◌, Bytes, All, All-append, length, ltb,
  if◌then◌else◌, arith,
}
use pyhdiff.Base.Int.{ℤ, pos}
use pyhdiff.Errors.{ok, returned_through, ok-injective, exc, limit_error, raise_if}
use pyhdiff.Native.{Native, returned}
use pyhdiff.Status.{raw_max, frame_max}
use pyhdiff.Api.{
  Hash, bytes, bytes_object, hdiff_profile, zstd_profile, encode_delta, encode_base, compress,
  decompress, apply, call,
}
use pyhdiff.Api.Apply.{call-eq-ok}
use pyhdiff.Api.Encode.{IsCodecPair, apply-encode_delta}
use pyhdiff.Scripts.Golden.{
  pairs, profiles, frame_levels, Spec, hdiff_spec, zstd_spec, Kind, envelope_kind, frame_kind,
  Entry, base_of, target_of, encode_spec, envelopes, frames, encode_pairs, encode_corpus,
}

-- A frame decompresses to what was compressed, bounded by exactly its length.
pub record IsFramePair (N : Native) : Type 0 where
  pub decompress-compress :
      (data' : Bytes) (args : List ℤ) {frame : Bytes}
      → Native.compress N data' args ≡ returned frame
      → Native.decompress N frame (pos (length data')) ≡ returned data'

pub decompress-compress :
    (N : Native)
    → IsFramePair N
    → (data' : Bytes) (level log : ℤ) (checksum : Bool) {frame : Bytes}
    → compress N (bytes_object data') level log checksum ≡ ok frame
    → decompress N (bytes_object frame) (pos (length data')) ≡ ok data'
unfolding compress decompress call bytes
decompress-compress N P data' level log checksum e =
    let (_, small, made) =
      returned_through
        (raise_if (ltb frame_max (length data')) (exc limit_error "input exceeds FRAME_MAX")) _ e in
    let back = IsFramePair.decompress-compress P data' _ (call-eq-ok false _ made) in
    rw back (ground arith)

module _ (H : Hash) (N : Native) (files : String → Bytes) (specs : String → Spec) where
  -- The base that an entry names: none, or a file.
  abbrev pub read_base : String → Bytes
  read_base Text.[] = []
  read_base (Text.◌∷◌ c s) = files (Text.◌∷◌ c s)

  read_base-base_of : (pair : String) → read_base (base_of pair) ≡ files (base_of pair)
  read_base-base_of Text.[] = refl
  read_base-base_of (Text.◌∷◌ c s) = rw (cons-append c s ".base") refl

  -- The blob of an entry gives the target file back: an envelope by `apply` on its base, a frame
  -- by `decompress` with the target's length as the bound.
  abbrev pub ReproducesAs : Kind → String → String → Bytes → Type 0
  ReproducesAs envelope_kind b t blob =
      apply H N (bytes_object (read_base b)) (bytes_object blob) (pos raw_max) ≡ ok (files t)
  ReproducesAs frame_kind b t blob =
      decompress N (bytes_object blob) (pos (length (files t))) ≡ ok (files t)

  abbrev pub Reproduces : Entry → Type 0
  Reproduces e = ReproducesAs e.kind e.base_file e.target_file e.blob

  module _ (P : IsCodecPair N) (F : IsFramePair N) where
    encode_spec-Reproduces :
        (spec : Spec) (pair : String) {made : Bytes × String}
        → encode_spec H N files specs spec pair ≡ ok made
        → ReproducesAs envelope_kind made.1 (target_of pair) made.0
    unfolding encode_spec encode_base
    encode_spec-Reproduces (hdiff_spec p) pair e =
        let (blob, b, w) = returned_through (encode_delta H N _ _ (hdiff_profile p)) _ e in
        rw (← ok-injective w, read_base-base_of pair)
          (apply-encode_delta H N P (files (base_of pair)) (files (target_of pair))
            (hdiff_profile p) b)
    encode_spec-Reproduces (zstd_spec true p) pair e =
        let (blob, b, w) = returned_through (encode_delta H N _ _ (zstd_profile p)) _ e in
        rw (← ok-injective w)
          (apply-encode_delta H N P [] (files (target_of pair)) (zstd_profile p) b)
    encode_spec-Reproduces (zstd_spec false p) pair e =
        let (blob, b, w) = returned_through (encode_delta H N _ _ (zstd_profile p)) _ e in
        rw (← ok-injective w, read_base-base_of pair)
          (apply-encode_delta H N P (files (base_of pair)) (files (target_of pair)) (zstd_profile p)
            b)

    envelopes-Reproduces :
        (pair : String) (names : List String) {entries : List Entry}
        → envelopes H N files specs pair names ≡ ok entries
        → All Reproduces entries
    unfolding envelopes
    envelopes-Reproduces pair [] e = rw (← ok-injective e) tt
    envelopes-Reproduces pair (name ∷ names) e =
        let (made, m, e₁) = returned_through (encode_spec H N files specs (specs name) pair) _ e in
        let (rest, r, w) = returned_through (envelopes H N files specs pair names) _ e₁ in
        rw (← ok-injective w)
          (encode_spec-Reproduces (specs name) pair m, envelopes-Reproduces pair names r)

    frames-Reproduces :
        (pair : String) (levels : List (ℕ × String)) {entries : List Entry}
        → frames H N files specs pair levels ≡ ok entries
        → All Reproduces entries
    unfolding frames
    frames-Reproduces pair [] e = rw (← ok-injective e) tt
    frames-Reproduces pair ((level, shown) ∷ levels) e =
        let (blob, b, e₁) =
          returned_through
            (compress N (bytes_object (files (target_of pair))) (pos level) (pos 0) true) _ e in
        let (rest, r, w) = returned_through (frames H N files specs pair levels) _ e₁ in
        rw (← ok-injective w) (
          decompress-compress N F (files (target_of pair)) _ _ _ b,
          frames-Reproduces pair levels r,
        )

    encode_pairs-Reproduces :
        (ps : List (String × Bool)) {entries : List Entry}
        → encode_pairs H N files specs ps ≡ ok entries
        → All Reproduces entries
    unfolding encode_pairs
    encode_pairs-Reproduces [] e = rw (← ok-injective e) tt
    encode_pairs-Reproduces ((pair, medium) ∷ ps) e =
        let (sealed, s, e₁) = returned_through (envelopes H N files specs pair profiles) _ e in
        let (framed, f, e₂) =
          returned_through (frames H N files specs pair (if medium then frame_levels else [])) _
            e₁ in
        let (more, m, w) = returned_through (encode_pairs H N files specs ps) _ e₂ in
        rw (← ok-injective w) (
          All-append Reproduces (sealed ++ framed) more
            (All-append Reproduces sealed framed (envelopes-Reproduces pair profiles s)
              (frames-Reproduces pair _ f))
            (encode_pairs-Reproduces ps m))

    -- Every entry that `encode_corpus` yields gives its target file back, if the codecs decode
    -- what they encode and the frames decompress to what was compressed.
    pub encode_corpus-Reproduces :
        {entries : List Entry} → encode_corpus H N files specs ≡ ok entries → All Reproduces entries
    unfolding encode_corpus
    encode_corpus-Reproduces e = encode_pairs-Reproduces pairs e
