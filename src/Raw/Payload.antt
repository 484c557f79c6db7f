-- ===== src/Raw/Payload.antt =====
-- The payloads of src/pyhdiff/raw.py are those inside the envelopes, and they round-trip.
use pyhdiff.Base.{◌≤◌, ◌≡◌, refl, false, Bytes, [], String, length, drop, arith}
use pyhdiff.Base.Int.{pos}
use pyhdiff.Errors.{ok, returned_through}
use pyhdiff.Native.{Native}
use pyhdiff.Status.{raw_max}
use pyhdiff.Api.{
  Hash, Profile, hdiff_profile, zstd_profile, other_profile, bytes, bytes_object, envelope_size,
  call, encode_delta, hdiff_args, zstd_args,
}
use pyhdiff.Api.Apply.{call-eq-ok}
use pyhdiff.Api.Encode.{IsCodecPair, Encoded, inspect-encode_delta, encode_delta_ok}
use pyhdiff.Raw.{inputs, hdiff_encode, hdiff_apply, zstd_encode, zstd_apply}

inputs-within :
    (base other : Bytes) (name : String)
    → length base ≤ raw_max
    → inputs (bytes_object base) (bytes_object other) name ≡ ok (base, other)
unfolding inputs bytes
inputs-within base other name h = ground arith

inputs_bound :
    (base other : Bytes) (name : String) {r : Bytes × Bytes}
    → inputs (bytes_object base) (bytes_object other) name ≡ ok r
    → length base ≤ raw_max
unfolding inputs bytes
inputs_bound base other name e = ground arith

module _ (N : Native) where
  -- The encoder of raw.py for the codec of the profile returns the payload.
  abbrev pub RawEncodes : Bytes → Bytes → Profile → Bytes → Type 0
  RawEncodes base target (hdiff_profile p) payload =
      hdiff_encode N (bytes_object base) (bytes_object target) p ≡ ok payload
  RawEncodes base target (zstd_profile p) payload =
      zstd_encode N (bytes_object base) (bytes_object target) p ≡ ok payload
  RawEncodes base target other_profile payload = ⊥

  -- The decoder of raw.py for the codec of the profile returns the target.
  abbrev pub RawDecodes : Bytes → Bytes → Profile → Bytes → Type 0
  RawDecodes base target (hdiff_profile p) payload =
      hdiff_apply N (bytes_object base) (bytes_object payload) (pos (length target)) ≡ ok target
  RawDecodes base target (zstd_profile p) payload =
      zstd_apply N (bytes_object base) (bytes_object payload) (pos (length target)) ≡ ok target
  RawDecodes base target other_profile payload = ⊥

  Encoded-RawEncodes :
      (H : Hash) (base target : Bytes) (profile : Profile) (payload : Bytes)
      → length base ≤ raw_max
      → Encoded H N base target profile payload
      → RawEncodes base target profile payload
  unfolding hdiff_encode zstd_encode call
  Encoded-RawEncodes H base target (hdiff_profile p) payload h made =
      rw (inputs-within base target "target" h, made) refl
  Encoded-RawEncodes H base target (zstd_profile p) payload h (args, a, made) =
      rw (inputs-within base target "target" h, a, made) refl
  Encoded-RawEncodes H base target other_profile payload h made = absurd made

  -- What stands behind the header of a delta is the payload that raw.py encodes for the same
  -- inputs and profile.
  pub encode_delta-RawEncodes :
      (H : Hash) (base target : Bytes) (profile : Profile) {blob : Bytes}
      → encode_delta H N (bytes_object base) (bytes_object target) profile ≡ ok blob
      → RawEncodes base target profile (drop envelope_size blob)
  encode_delta-RawEncodes H base target profile e =
      let (encoded, made, _, tail) = inspect-encode_delta H N base target profile e in
      let (bound, _, _) = encode_delta_ok H N base target profile e in
      rw tail (Encoded-RawEncodes H base target profile encoded bound made)

  -- If the codecs decode what they encode, a payload that raw.py encoded for a target within
  -- RAW_MAX gives the target back.
  pub RawEncodes-RawDecodes :
      IsCodecPair N
      → (base target : Bytes) (profile : Profile) (payload : Bytes) → length target ≤ raw_max
      → RawEncodes base target profile payload
      → RawDecodes base target profile payload
  unfolding hdiff_encode zstd_encode hdiff_apply zstd_apply call
  RawEncodes-RawDecodes P base target (hdiff_profile p) payload h e =
      let (i, t, rest) =
        returned_through (inputs (bytes_object base) (bytes_object target) "target") _ e in
      let bound = inputs_bound base target "target" t in
      let made = call-eq-ok false _ (rw (inputs-within base target "target" bound) at e) in
      let back = P.hdiff_pair.decode-encode base target (hdiff_args p) [] (omega arith) made in
      rw (inputs-within base payload "payload" bound, back) (ground arith)
  RawEncodes-RawDecodes P base target (zstd_profile p) payload h e =
      let (i, t, rest) =
        returned_through (inputs (bytes_object base) (bytes_object target) "target") _ e in
      let bound = inputs_bound base target "target" t in
      let (args, a, made) =
        returned_through (zstd_args p) _ (rw (inputs-within base target "target" bound) at e) in
      let back =
        P.zstd_pair.decode-encode base target args [] (omega arith) (call-eq-ok false _ made) in
      rw (inputs-within base payload "payload" bound, back) (ground arith)
  RawEncodes-RawDecodes P base target other_profile payload h e = absurd e
