-- ===== src/Api/Encode.antt =====
-- `encode_delta` and `encode_base`: what they seal, and the round trip through `apply`.
use pyhdiff.Base.{
  ◌≤◌, ◌≡◌, ◌∙◌, sym, ap, false, Bytes, ◌++◌, List, length, take, drop, take-append-drop,
  length-take, arith, bytes_eq_refl, not-ltb,
}
use pyhdiff.Base.Int.{ℤ, pos}
use pyhdiff.Errors.{ok, returned_through}
use pyhdiff.Native.{Native, returned, Decodes, IsSized}
use pyhdiff.Status.{raw_max}
use pyhdiff.Api.{
  bytes_object, Profile, hdiff_profile, zstd_profile, other_profile, Codec, hdiff, zstd, Hash, call,
  hdiff_args, zstd_args, envelope_size, envelope, inspect, decode, apply_checked, apply,
  encode_with, encode_delta,
}
use pyhdiff.Api.Inspect.{header_for, inspect-envelope, envelope_layout, envelope_total}
use pyhdiff.Api.Apply.{call-eq-ok}

-- The codec that a profile selects.
abbrev pub codec_for : Profile → Codec
codec_for (hdiff_profile p) = hdiff
codec_for (zstd_profile p) = zstd
codec_for other_profile = zstd

-- Both codecs decode what they encode, behind any front that fits.
pub record IsCodecPair (N : Native) : Type 0 where
  pub hdiff_pair : Decodes (Native.hdiff_encode N) (Native.hdiff_apply N)
  pub zstd_pair : Decodes (Native.zstd_encode N) (Native.zstd_apply N)

module _ (H : Hash) (N : Native) where
  -- The payload was returned by the encoder that the profile selects.
  abbrev pub Encoded : Bytes → Bytes → Profile → Bytes → Type 0
  Encoded base target (hdiff_profile p) encoded =
      N.hdiff_encode base target (hdiff_args p) ≡ returned encoded
  Encoded base target (zstd_profile p) encoded =
      (args : List ℤ) × (zstd_args p ≡ ok args)
      × (N.zstd_encode base target args ≡ returned encoded)
  Encoded base target other_profile encoded = ⊥

  encode_with_ok :
      (base target : Bytes) (profile : Profile) {blob : Bytes}
      → encode_with H N base target profile ≡ ok blob
      → (encoded : Bytes) × Encoded base target profile encoded
        × (envelope H (codec_for profile) base target encoded ≡ ok blob)
  unfolding encode_with
  encode_with_ok base target (hdiff_profile p) e =
      let (encoded, c, sealed) = returned_through (call false _) _ e in
      (encoded, call-eq-ok false _ c, sealed)
  encode_with_ok base target (zstd_profile p) e =
      let (args, a, rest) = returned_through (zstd_args p) _ e in
      let (encoded, c, sealed) = returned_through (call false _) _ rest in
      (encoded, (args, a, call-eq-ok false _ c), sealed)
  encode_with_ok base target other_profile e = cc

  -- A successful `encode_delta` had inputs within RAW_MAX, and sealed what the encoder returned.
  pub encode_delta_ok :
      (base target : Bytes) (profile : Profile) {blob : Bytes}
      → encode_delta H N (bytes_object base) (bytes_object target) profile ≡ ok blob
      → (length base ≤ raw_max)
        × (length target ≤ raw_max)
        × (encode_with H N base target profile ≡ ok blob)
  unfolding encode_delta
  encode_delta_ok base target profile e = ground arith

  -- The header of a delta names the codec of the profile and the lengths and hashes of both
  -- inputs, and its payload is what the encoder returned.
  pub inspect-encode_delta :
      (base target : Bytes) (profile : Profile) {blob : Bytes}
      → encode_delta H N (bytes_object base) (bytes_object target) profile ≡ ok blob
      → (encoded : Bytes) × Encoded base target profile encoded
        × (inspect (bytes_object blob) ≡ ok (header_for H (codec_for profile) base target encoded))
        × (drop envelope_size blob ≡ encoded)
  inspect-encode_delta base target profile e =
      let (_, _, w) = encode_delta_ok base target profile e in
      let (encoded, made, sealed) = encode_with_ok base target profile w in
      (
        encoded,
        made,
        inspect-envelope H _ base target encoded sealed,
        (envelope_layout H _ base target encoded sealed).1,
      )

  decode-Encoded :
      IsCodecPair N
      → (base target : Bytes) (profile : Profile) (front encoded : Bytes)
      → Encoded base target profile encoded
      → length front ≡ envelope_size
      → decode H N (codec_for profile) base (front ++ encoded) (length target) ≡ ok target
  unfolding decode call
  decode-Encoded P base target (hdiff_profile p) front encoded made size =
      let d = P.hdiff_pair.decode-encode base target (hdiff_args p) front (omega arith) made in
      rw (rw size at d)
  decode-Encoded P base target (zstd_profile p) front encoded (args, _, made) size =
      let d = P.zstd_pair.decode-encode base target args front (omega arith) made in
      rw (rw size at d)
  decode-Encoded P base target other_profile front encoded made size = absurd made

  -- The checks of `apply` pass on the header of an encoding, once the target is decoded.
  apply_checked-header_for :
      (c : Codec) (base target encoded blob : Bytes)
      → length target ≤ raw_max
      → decode H N c base blob (length target) ≡ ok target
      → apply_checked H N base blob (pos raw_max) (header_for H c base target encoded) ≡ ok target
  unfolding apply_checked
  apply_checked-header_for c base target encoded blob bound decoded =
      ground (arith, bytes_eq_refl (H.digest base), bytes_eq_refl (H.digest target))

  -- If both codecs decode what they encode, `apply` on the base gives back the target of every delta
  -- that `encode_delta` made.
  pub apply-encode_delta :
      IsCodecPair N
      → (base target : Bytes) (profile : Profile) {blob : Bytes}
      → encode_delta H N (bytes_object base) (bytes_object target) profile ≡ ok blob
      → apply H N (bytes_object base) (bytes_object blob) (pos raw_max) ≡ ok target
  unfolding apply
  apply-encode_delta P base target profile {blob} e =
      let (_, bound, w) = encode_delta_ok base target profile e in
      let (encoded, made, sealed) = encode_with_ok base target profile w in
      let (size, tail) = envelope_layout H _ base target encoded sealed in
      let front : Bytes = take envelope_size blob in
      let whole : front ++ encoded ≡ blob =
        ap (λ t. front ++ t) (sym tail) ∙ take-append-drop envelope_size blob in
      let decoded =
        decode-Encoded P base target profile front encoded made
          (omega (arith, length-take envelope_size blob)) in
      rw (inspect-envelope H _ base target encoded sealed)
        (apply_checked-header_for _ base target encoded blob bound (rw whole at decoded))

  encode_with-of_Encoded :
      IsSized N
      → (base target : Bytes) (profile : Profile) (encoded : Bytes) → length base ≤ raw_max
      → length target ≤ raw_max
      → Encoded base target profile encoded
      → (blob : Bytes) × (encode_with H N base target profile ≡ ok blob)
  unfolding encode_with call
  encode_with-of_Encoded S base target (hdiff_profile p) encoded hb ht made =
      let size = rw made at (S.hdiff_encode_size base target (hdiff_args p)) in
      let (blob, sealed) =
        envelope_total H hdiff base target encoded (omega arith) (omega arith) (omega arith) in
      (blob, rw made sealed)
  encode_with-of_Encoded S base target (zstd_profile p) encoded hb ht (args, a, made) =
      let size = rw made at (S.zstd_encode_size base target args) in
      let (blob, sealed) =
        envelope_total H zstd base target encoded (omega arith) (omega arith) (omega arith) in
      (blob, rw (a, made) sealed)
  encode_with-of_Encoded S base target other_profile encoded hb ht made = absurd made

  -- On inputs within RAW_MAX `encode_delta` returns an envelope whenever the encoder returns a
  -- payload: sealing never fails on what an encoder may return.
  pub encode_delta_total :
      IsSized N
      → (base target : Bytes) (profile : Profile) (encoded : Bytes) → length base ≤ raw_max
      → length target ≤ raw_max
      → Encoded base target profile encoded
      → (blob : Bytes) × (encode_delta H N (bytes_object base) (bytes_object target) profile
          ≡ ok blob)
  unfolding encode_delta
  encode_delta_total S base target profile encoded hb ht made =
      let (blob, w) = encode_with-of_Encoded S base target profile encoded hb ht made in
      (blob, rw (not-ltb (length base) raw_max hb, not-ltb (length target) raw_max ht) w)
