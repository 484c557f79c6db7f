-- ===== src/Extension/Frames.antt =====
-- `compress` and `decompress` of src/pyhdiff/__init__.py over the extension module and the bridge.
use mathlib.Core.Path.{subst}
use pyhdiff.Base.{
  ℕ, ◌^◌, ◌≤◌, ◌<◌, ◌≡◌, refl, ap, Bool, true, false, [], ◌∷◌, Bytes, length, ltb, ◌==◌, arith, inl,
  inr, Bool-cases,
}
use pyhdiff.Base.Int.{ℤ, pos, negsuc}
use pyhdiff.Errors.{Exc, ok, raise_if, returned_through, ok-injective}
use pyhdiff.Status.{Status, frame_max, status_ok}
use pyhdiff.Native.{Outcome, returned, native_error, raised}
use pyhdiff.Api.{Value, bytes_object, bytes, call, int_of_bool, outside}
use pyhdiff.Api
use pyhdiff.Bridge.Throw.{
  Cpp, diverges, throw, done, done_through, bad_alloc, failure, std_exception, other_exception,
  PhdResult, boundary, ◌>>=◌,
}
use pyhdiff.Bridge.Zstd.{Decoder}
use pyhdiff.Bridge.Options.{Options, zstd_options}
use pyhdiff.Bridge.Growable.{Growable, contents, release}
use pyhdiff.Bridge.Growable.Contents.{release_lem}
use pyhdiff.Bridge.Growable.Memory.{release_total}
use pyhdiff.Bridge.Frame.{frame_decompress, open_frame}
use pyhdiff.Bridge.Frame.Loop.{frame_decompress-FrameDecoding}
use pyhdiff.Bridge.Encode.{zstd_encode, frame_limits}
use pyhdiff.Bridge.Encode.Laws.{zstd_encode-Encoding}
use pyhdiff.Bridge.Encode.Failures.{IsLoud, encode_body-IsLoud}
use pyhdiff.Bridge.Entry.Contract.{Holds, phd_zstd_decompress-Returns}
use pyhdiff.Bridge.Entry.Encoders.{size-contents}
use pyhdiff.Extension.Sizes.{settled-Holds}
use pyhdiff.Bridge.Entry.{frame_options, phd_zstd_compress, phd_zstd_decompress}
use pyhdiff.Bridge.Pair.{FramePair, frame_window, window_of, frame_decompress-zstd_encode}
use pyhdiff.Extension.{
  Libraries, fits, all_ints, settled, filled, new_bytes, finish, compress, decompress, native,
}

returned-injective : {a b : Bytes} → returned a ≡ returned b → a ≡ b
returned-injective {a} e = ap (λ o. elim o [ returned x ↦ x | native_error s ↦ a | raised x ↦ a ]) e

call-returned :
    (decoding : Bool) (o : Outcome) {f : Bytes} → call decoding o ≡ ok f → o ≡ returned f
unfolding call
call-returned decoding (returned b) e = ap returned (ok-injective e)
call-returned decoding (native_error s) e = cc
call-returned decoding (raised x) e = cc

pub raised-ne-returned : {x : Exc} {b : Bytes} → ¬ (raised x ≡ returned b)
raised-ne-returned e = cc

native_error-ne-returned : {s : Status} {b : Bytes} → ¬ (native_error s ≡ returned b)
native_error-ne-returned e = cc

allowed : (m : ℕ) (e : Exc) → raise_if (ltb frame_max m) e ≡ ok tt → m ≤ frame_max
allowed m e h = ground arith

module _ (L : Libraries) where
  new_bytes-returned : (b : Bytes) {f : Bytes} → new_bytes L b ≡ returned f → b ≡ f
  new_bytes-returned b e = elim (Bool-cases (L.alloc_bytes (length b))) [
    | inl a ↦ returned-injective (rw a at e)
    | inr a ↦ absurd (raised-ne-returned (rw a at e))
  ]

  -- What `finish` returns is the result of a call that was done.
  pub finish-returned :
      (c : Cpp PhdResult) {f : Bytes}
      → IsLoud c
      → finish L (settled (boundary c)) ≡ returned f
      → (r : PhdResult) × (c ≡ done r) × (filled 0 r.contents ≡ f)
  unfolding finish boundary
  finish-returned diverges l e = cc
  finish-returned (throw bad_alloc) l e = cc
  finish-returned (throw (failure s)) l e =
      let not_ok : (s == status_ok) ≡ false = ground arith in
      absurd (native_error-ne-returned (rw not_ok at e))
  finish-returned (throw std_exception) l e = cc
  finish-returned (throw other_exception) l e = cc
  finish-returned (done r) l e = elim (Bool-cases (r.status == status_ok)) [
    | inl h ↦ (r, refl, new_bytes-returned (filled 0 r.contents) (rw h at e))
    | inr h ↦ absurd (native_error-ne-returned (rw h at e))
  ]

  -- What a result holds that was returned.
  finish-Holds :
      (P : Bytes → Type 0) (r : PhdResult) {f : Bytes}
      → P []
      → Holds P r
      → finish L r ≡ returned f
      → P f
  unfolding finish
  finish-Holds P r p h e = elim (Bool-cases (r.status == status_ok)) [
    | inr x ↦ absurd (native_error-ne-returned (rw x at e))
    | inl x ↦
        subst P (new_bytes-returned (filled 0 r.contents) (rw x at e))
          (elim h [ inl (t, c, _, q) ↦ rw c q | inr c ↦ rw c p ])
  ]

  -- A result of `compress` of the extension module is what `zstd_encode` made of the input.
  compress_done :
      (src : Bytes) (level window_log checksum : ℤ) {f : Bytes}
      → compress L src (level ∷ window_log ∷ checksum ∷ []) ≡ returned f
      → (o : Options) × (g : Growable) × (zstd_encode L.alloc L.encoder [] src o frame_limits
          ≡ done g)
        × (contents g ≡ f)
  unfolding compress phd_zstd_compress
  compress_done src level window_log checksum {f} e =
      elim (Bool-cases (all_ints (level ∷ window_log ∷ checksum ∷ []))) [
        | inr wide ↦ absurd (raised-ne-returned (rw wide at e))
        | inl narrow ↦
            let o = frame_options level window_log checksum in
            let (r, x, same) =
              finish-returned
                (zstd_options o >>= λ options.
                  zstd_encode L.alloc L.encoder [] src options frame_limits >>= λ g.
                  release L.alloc g)
                (encode_body-IsLoud L.alloc L.encoder [] src o frame_limits) (rw narrow at e) in
            let (options, _, x₁) = done_through (zstd_options o) _ x in
            let (g, y, x₂) =
              done_through (zstd_encode L.alloc L.encoder [] src options frame_limits) _ x₁ in
            let (_, _, (valid, _), _) =
              zstd_encode-Encoding L.alloc L.encoder [] src options frame_limits y in
            let (c, _) = release_lem L.alloc g valid x₂ in (options, g, y, rw c at same)
      ]

  public_compress_done :
      (src : Bytes) (level window_log : ℤ) (checksum : Bool) {f : Bytes}
      → Api.compress (native L) (bytes_object src) level window_log checksum ≡ ok f
      → (o : Options) × (g : Growable) × (zstd_encode L.alloc L.encoder [] src o frame_limits
          ≡ done g)
        × (contents g ≡ f)
  unfolding Api.compress bytes
  public_compress_done src level window_log checksum e =
      let (_, _, e₁) = returned_through (raise_if (ltb frame_max (length src)) _) _ e in
      compress_done src level window_log (int_of_bool checksum) (call-returned false _ e₁)

  -- What `compress` returns for bytes is within FRAME_MAX.
  pub compress-bounded :
      (src : Bytes) (level window_log : ℤ) (checksum : Bool) {f : Bytes}
      → Api.compress (native L) (bytes_object src) level window_log checksum ≡ ok f
      → (length src ≤ frame_max) × (length f ≤ frame_max)
  compress-bounded src level window_log checksum e =
      let (o, g, x, same) = public_compress_done src level window_log checksum e in
      let (_, small, (_, within), _) =
        zstd_encode-Encoding L.alloc L.encoder [] src o frame_limits x in
      (small, rw same at (size-contents g frame_max within))

  -- What `decompress` returns for bytes is within the bound, which is from 0 to FRAME_MAX.
  pub decompress-bounded :
      (src : Bytes) (max_output : ℤ) {t : Bytes}
      → Api.decompress (native L) (bytes_object src) max_output ≡ ok t
      → (m : ℕ) × (max_output ≡ pos m) × (m ≤ frame_max) × (length t ≤ m)
  unfolding Api.decompress bytes decompress
  decompress-bounded src (negsuc n) e = cc
  decompress-bounded src (pos m) {t} e =
      let (_, h, e₁) = returned_through (raise_if (ltb frame_max m) _) _ e in
      let small : m ≤ frame_max = allowed m _ h in
      let narrow : fits 63 (pos m) ≡ true = ground arith in
      let ran = call-returned true _ e₁ in
      (
        m,
        refl,
        small,
        finish-Holds (λ b. length b ≤ m) (settled (phd_zstd_decompress L.alloc L.decoder src m))
            (omega arith) (settled-Holds _ _ (phd_zstd_decompress-Returns L.alloc L.decoder src m))
            (rw narrow at ran),
      )

  module _ (pair : FramePair L.alloc L.encoder L.decoder) (memory : (n : ℕ) → L.alloc n ≡ true)
      (bytes_memory : (n : ℕ) → L.alloc_bytes n ≡ true) where
    pub decompress_whole :
        (f src : Bytes) (m : ℕ) {g : Growable}
        → m ≤ frame_max
        → frame_decompress L.alloc L.decoder f m ≡ done g
        → contents g ≡ src
        → decompress L f (pos m) ≡ returned src
    unfolding decompress phd_zstd_decompress finish boundary
    decompress_whole f src m {g} small e same =
        let narrow : fits 63 (pos m) ≡ true = ground arith in
        let (_, _, _, _, valid) = frame_decompress-FrameDecoding L.alloc L.decoder f m e in
        let (r, x) = release_total L.alloc memory g in
        let (c, ok') = release_lem L.alloc g valid x in
        rw (narrow, e, x, ok', c, bytes_memory) (ap returned same)

    -- If the compressor and the decoder make a pair and memory suffices, `decompress` with a bound
    -- from the size of the data up to FRAME_MAX returns the data that `compress` was given for
    -- whatever it returned, if the decoder can be opened for the bound and allows the window of the
    -- frame, and the frame is not empty.
    pub decompress-compress :
        (src : Bytes) (level window_log : ℤ) (checksum : Bool) (max_output : ℕ) {f : Bytes}
        {d : Decoder.Ctx L.decoder}
        → Api.compress (native L) (bytes_object src) level window_log checksum ≡ ok f
        → 0 < length f
        → length src ≤ max_output
        → max_output ≤ frame_max
        → open_frame L.alloc L.decoder max_output ≡ done d
        → window_of L.decoder f ≤ 2 ^ frame_window max_output
        → Api.decompress (native L) (bytes_object f) (pos max_output) ≡ ok src
    unfolding Api.decompress bytes call
    decompress-compress src level window_log checksum m {f} {d} e some' fits' small opened window =
        let (o, g, x, same) = public_compress_done src level window_log checksum e in
        let (_, within) = compress-bounded src level window_log checksum e in
        let (h, y, back) =
          frame_decompress-zstd_encode L.alloc L.encoder L.decoder pair memory src o frame_limits m
            x opened (rw (← same) at window) (rw (← same) at some') (rw (← same) at within) fits'
            small in
        let allowed' : ltb frame_max m ≡ false = ground arith in
        let ran = decompress_whole f src m small (rw same at y) back in rw (allowed', ran) refl
