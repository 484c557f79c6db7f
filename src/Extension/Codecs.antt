-- ===== src/Extension/Codecs.antt =====
-- The codecs of src/native/bridge.cpp as the extension module passes them on.
use pyhdiff.Base.{
  ℕ, ◌^◌, ◌≤◌, ◌<◌, ◌≡◌, refl, Bool, true, false, none, some, List, Bytes, ◌++◌, length, ltb, leb,
  arith, inl, inr, Bool-cases, drop-append, length-append, Option, ◌&&◌, ◌-◌, [], ◌∷◌,
}
use pyhdiff.Base.Int.{ℤ, pos}
use pyhdiff.Status.{raw_max, payload_max, status_limit, status_invalid}
use pyhdiff.Native.{Outcome, returned}
use pyhdiff.Api.Encode.{IsCodecPair}
use pyhdiff.Bridge.Throw.{done, done_through, require, require_ok, boundary, ◌>>=◌}
use pyhdiff.Bridge.Options.{HdiffOptions, Options, hdiff_options, zstd_options}
use pyhdiff.Bridge.Options.Ranges.{hdiff_options-InHdiffRanges}
use pyhdiff.Bridge.Growable.{Growable, capacity, contents, release, spare, resize, empty}
use pyhdiff.Bridge.Growable.Contents.{release_lem}
use pyhdiff.Bridge.Streams.{extend, write}
use pyhdiff.Bridge.Hdiff.{Write, DiffLibrary, ending, write_all, hdiff_encode, hdiff_apply}
use pyhdiff.Bridge.Hdiff.Laws.{hdiff_encode_done}
use pyhdiff.Bridge.Apply.{zstd_apply}
use pyhdiff.Bridge.Encode.{zstd_encode, codec_limits, frame_limits}
use pyhdiff.Bridge.Encode.Laws.{zstd_encode-Encoding}
use pyhdiff.Bridge.Encode.Failures.{
  IsLoud, IsLoud-through, require-IsLoud, grow_to-IsLoud, release-IsLoud, encode_body-IsLoud,
}
use pyhdiff.Bridge.Entry.{
  apply_body, phd_hdiff_encode, phd_hdiff_apply, phd_zstd_encode, phd_zstd_apply, phd_zstd_compress,
  frame_options,
}
use pyhdiff.Extension.Frames.{finish-returned, raised-ne-returned}
use pyhdiff.Extension.{
  Libraries, parse_ints, all_ints, fits, hdiff_ints, zstd_ints, frame_ints, compress, settled,
  filled, apply, apply_sized, native,
}
use pyhdiff.Extension

hdiff_options-IsLoud : (o : HdiffOptions) → IsLoud (hdiff_options o)
hdiff_options-IsLoud o = elim (hdiff_options-InHdiffRanges o) [
  | inl (_, (out, e, _)) ↦ rw e tt
  | inr (_, e) ↦ rw e (λ x. ground arith)
]

parse_ints_returned :
    {A : Type 0} (o : Option A) (args : List ℤ) (next : A → Outcome) {p : Bytes}
    → parse_ints o args next ≡ returned p
    → (a : A) × (next a ≡ returned p)
parse_ints_returned none args next e = absurd (raised-ne-returned e)
parse_ints_returned (some a) args next e = elim (Bool-cases (all_ints args)) [
  | inl narrow ↦ (a, rw narrow at e)
  | inr wide ↦ absurd (raised-ne-returned (rw wide at e))
]

module _ (alloc : ℕ → Bool) where
  spare-IsLoud : (n : ℕ) (g : Growable) → IsLoud (spare alloc n g)
  unfolding spare
  spare-IsLoud n g = elim (Bool-cases (ltb (capacity g - g.size) n)) [
    | inl e ↦ rw e (grow_to-IsLoud alloc _ g)
    | inr e ↦ rw e tt
  ]

  extend-IsLoud : (n : ℕ) (g : Growable) → IsLoud (extend alloc n g)
  unfolding extend resize
  extend-IsLoud n g = elim (Bool-cases (ltb g.size n)) [
    | inl e ↦ rw e (IsLoud-through (spare alloc (n - g.size) g) _ (spare-IsLoud _ g) λ h. tt)
    | inr e ↦ rw e tt
  ]

  write-IsLoud : (limit at : ℕ) (b : Bytes) (g : Growable) → IsLoud (write alloc limit at b g)
  unfolding write
  write-IsLoud limit at b g =
      IsLoud-through (require (leb at limit && _) status_limit) _
        (require-IsLoud _ _ (λ e. ground arith))
        λ _.
          IsLoud-through (require (leb at g.size) status_invalid) _
            (require-IsLoud _ _ (λ e. ground arith))
            λ _. IsLoud-through (extend alloc _ g) _ (extend-IsLoud _ g) λ h. tt

  write_all-IsLoud :
      (limit : ℕ) (ws : List Write) (g : Growable) → IsLoud (write_all alloc limit ws g)
  unfolding write_all
  write_all-IsLoud limit [] g = tt
  write_all-IsLoud limit (w ∷ ws) g =
      IsLoud-through (write alloc limit w.at w.bytes g) _ (write-IsLoud limit w.at w.bytes g)
        λ h. write_all-IsLoud limit ws h

-- What `compress` of the extension module returns is what `zstd_encode` made of the input.
pub compress_encoded :
    (L : Libraries) (src : Bytes) (args : List ℤ) {f : Bytes}
    → compress L src args ≡ returned f
    → (o : Options) × (g : Growable) × (zstd_encode L.alloc L.encoder [] src o frame_limits
        ≡ done g)
      × (contents g ≡ f)
unfolding compress phd_zstd_compress
compress_encoded L src args e =
    let (o, ran) = parse_ints_returned (frame_ints args) args _ e in
    let (r, x, same) =
      finish-returned L _
        (encode_body-IsLoud L.alloc L.encoder [] src (frame_options o.0 o.1 o.2) frame_limits)
        ran in
    let (options, _, x₁) = done_through (zstd_options (frame_options o.0 o.1 o.2)) _ x in
    let (g, y, x₂) =
      done_through (zstd_encode L.alloc L.encoder [] src options frame_limits) _ x₁ in
    let (_, _, (valid, _), _) =
      zstd_encode-Encoding L.alloc L.encoder [] src options frame_limits y in
    let (c, _) = release_lem L.alloc g valid x₂ in (options, g, y, rw c at same)

-- The codecs of the bridge, with the libraries that it is linked with, decode what they encode; and
-- HDiffPatch throws nothing with the status of a success.
pub record CodecLaws (L : Libraries) : Type 0 where
  pub loud :
      (base target : Bytes) (o : Options) (g : Growable)
      → IsLoud (ending (DiffLibrary.create_diff (Libraries.diff L) target base o).thrown g)
  pub hdiff_decodes :
      (base target : Bytes) (o : Options) {g : Growable}
      → hdiff_encode (Libraries.alloc L) (Libraries.diff L) base target o ≡ done g
      → hdiff_apply (Libraries.alloc L) (Libraries.diff L) base (contents g) (length target)
        ≡ done target
  pub zstd_decodes :
      (base target : Bytes) (o : Options) {g : Growable}
      → zstd_encode (Libraries.alloc L) (Libraries.encoder L) base target o codec_limits ≡ done g
      → zstd_apply (Libraries.decoder L) base (contents g) (length target) ≡ done target

module _ (L : Libraries) (laws : CodecLaws L)
    (bytes_memory : (n : ℕ) → L.alloc_bytes n ≡ true) where
  hdiff_body-IsLoud :
      (base target : Bytes) (o : HdiffOptions)
      → IsLoud (
          hdiff_options o >>= λ options.
          hdiff_encode L.alloc L.diff base target options >>= λ g. release L.alloc g)
  unfolding hdiff_encode
  hdiff_body-IsLoud base target o =
      IsLoud-through (hdiff_options o) _ (hdiff_options-IsLoud o) λ options.
        IsLoud-through (hdiff_encode L.alloc L.diff base target options) _
          (IsLoud-through
            (require (leb (length base) raw_max && leb (length target) raw_max) status_limit) _
            (require-IsLoud _ _ (λ e. ground arith))
            λ _.
              IsLoud-through (write_all L.alloc payload_max _ empty) _
                (write_all-IsLoud L.alloc payload_max _ empty) λ g. laws.loud base target options g)
          λ g. release-IsLoud L.alloc g

  hdiff_encoded :
      (base target : Bytes) (args : List ℤ) {p : Bytes}
      → Extension.hdiff_encode L base target args ≡ returned p
      → (o : Options) × (g : Growable) × (hdiff_encode L.alloc L.diff base target o ≡ done g)
        × (contents g ≡ p)
  unfolding Extension.hdiff_encode phd_hdiff_encode
  hdiff_encoded base target args e =
      let (o, ran) = parse_ints_returned (hdiff_ints args) args _ e in
      let (r, x, same) = finish-returned L _ (hdiff_body-IsLoud base target o) ran in
      let (options, _, x₁) = done_through (hdiff_options o) _ x in
      let (g, y, x₂) = done_through (hdiff_encode L.alloc L.diff base target options) _ x₁ in
      let (valid, _, _, _) = hdiff_encode_done L.alloc L.diff base target options y in
      let (c, _) = release_lem L.alloc g valid x₂ in (options, g, y, rw c at same)

  zstd_encoded :
      (base target : Bytes) (args : List ℤ) {p : Bytes}
      → Extension.zstd_encode L base target args ≡ returned p
      → (o : Options) × (g : Growable) × (zstd_encode L.alloc L.encoder base target o codec_limits
          ≡ done g)
        × (contents g ≡ p)
  unfolding Extension.zstd_encode phd_zstd_encode
  zstd_encoded base target args e =
      let (o, ran) = parse_ints_returned (zstd_ints args) args _ e in
      let (r, x, same) =
        finish-returned L _ (encode_body-IsLoud L.alloc L.encoder base target o codec_limits) ran in
      let (options, _, x₁) = done_through (zstd_options o) _ x in
      let (g, y, x₂) =
        done_through (zstd_encode L.alloc L.encoder base target options codec_limits) _ x₁ in
      let (_, _, (valid, _), _) =
        zstd_encode-Encoding L.alloc L.encoder base target options codec_limits y in
      let (c, _) = release_lem L.alloc g valid x₂ in (options, g, y, rw c at same)

  hdiff_apply_bound :
      (base p : Bytes) (n : ℕ) {t : Bytes}
      → hdiff_apply L.alloc L.diff base p n ≡ done t
      → n ≤ raw_max
  unfolding hdiff_apply
  hdiff_apply_bound base p n e =
      let (_, q, _) =
        done_through
          (require (leb (length base) raw_max && leb n raw_max && leb (length p) payload_max)
            status_limit)
          _ e in
      let ok' = require_ok _ _ q in ground arith

  zstd_apply_bound :
      (base p : Bytes) (n : ℕ) {t : Bytes} → zstd_apply L.decoder base p n ≡ done t → n ≤ raw_max
  unfolding zstd_apply
  zstd_apply_bound base p n e =
      let (_, q, _) =
        done_through
          (require (leb (length base) raw_max && leb n raw_max && leb (length p) payload_max)
            status_limit)
          _ e in
      let ok' = require_ok _ _ q in ground arith

  -- `apply` behind a front is the codec on what stands behind it.
  apply_sized-hdiff :
      (base p t : Bytes) (n : ℕ)
      → n ≤ raw_max
      → hdiff_apply L.alloc L.diff base p n ≡ done t
      → apply_sized L false base p n ≡ returned t
  unfolding apply_sized phd_hdiff_apply apply_body boundary
  apply_sized-hdiff base p t n h e =
      let small : leb n raw_max ≡ true = ground arith in rw (bytes_memory n, small, e) refl

  apply_sized-zstd :
      (base p t : Bytes) (n : ℕ)
      → n ≤ raw_max
      → zstd_apply L.decoder base p n ≡ done t
      → apply_sized L true base p n ≡ returned t
  unfolding apply_sized phd_zstd_apply apply_body boundary
  apply_sized-zstd base p t n h e =
      let small : leb n raw_max ≡ true = ground arith in rw (bytes_memory n, small, e) refl

  apply-behind :
      (zstd : Bool) (base front p t : Bytes) (n : ℕ)
      → length front < 2 ^ 63
      → n ≤ raw_max
      → apply_sized L zstd base p n ≡ returned t
      → apply L zstd base (front ++ p) (pos (length front)) (pos n) ≡ returned t
  unfolding apply
  apply-behind zstd base front p t n h small e =
      let fits_front : ltb (length front) (2 ^ 63) ≡ true = ground arith in
      let fits_size : ltb n (2 ^ 63) ≡ true = ground arith in
      let inside : ltb (length (front ++ p)) (length front) ≡ false =
        ground (arith, length-append front p) in
      let not_refused : ltb raw_max n ≡ false = ground arith in
      rw (fits_front, fits_size, inside, drop-append (length front) front p refl, not_refused) e

  -- If the codecs of the bridge decode what they encode, and memory suffices, the codecs of the
  -- extension module do, behind any front.
  pub native-IsCodecPair : IsCodecPair (native L)
  native-IsCodecPair = record {
    hdiff_pair = record {
      decode-encode = λ b t args {p} front h e.
          (let (o, g, x, same) = hdiff_encoded b t args e in
            let back = rw same at (laws.hdiff_decodes b t o x) in
            let small = hdiff_apply_bound b p (length t) back in
            apply-behind false b front p t (length t) h small
              (apply_sized-hdiff b p t (length t) small back));
    };
    zstd_pair = record {
      decode-encode = λ b t args {p} front h e.
          (let (o, g, x, same) = zstd_encoded b t args e in
            let back = rw same at (laws.zstd_decodes b t o x) in
            let small = zstd_apply_bound b p (length t) back in
            apply-behind true b front p t (length t) h small
              (apply_sized-zstd b p t (length t) small back));
    };
  }
