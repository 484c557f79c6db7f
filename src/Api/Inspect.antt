-- ===== src/Api/Inspect.antt =====
-- `_envelope` and `inspect`: what one writes the other reads, and `inspect` accepts nothing else.
use pyhdiff.Base.{
  ℕ, ◌+◌, ◌-◌, ◌^◌, ◌≤◌, ◌<◌, ◌≡◌, refl, ◌∙◌, sym, ap, Option, none, some, Bytes, IsByte, All, ◌++◌,
  length, length-append, take, drop, drop-append, arith, bytes_eq_refl, bytes_eq→eq, Bool-cases,
  inl, inr, ltb, not-ltb, ◌⊎◌,
}
use pyhdiff.Struct.{Fields, pack, unpack_from}
use pyhdiff.Struct.RoundTrip.{
  HasSizes, InRange, length-pack, unpack_from-pack, pack-unpack_from, unpack_from_total,
  pack-of_InRange,
}
use pyhdiff.Errors.{
  Exc, exc, envelope_error, struct_error, ok, raise, need, ◌>>=◌, RaisesOnly, returned_through,
  ok-injective,
}
use pyhdiff.Api.{
  bytes_object, Codec, hdiff, zstd, codec_id, Header, Hash, magic_bytes, format_version,
  envelope_size, envelope_fields, envelope, check_fields, inspect,
}

-- The header that describes an encoding.
abbrev pub header_for : Hash → Codec → Bytes → Bytes → Bytes → Header
header_for H codec base target payload = record {
  version = format_version;
  codec = codec;
  base_length = length base;
  target_length = length target;
  payload_length = length payload;
  base_sha256 = H.digest base;
  target_sha256 = H.digest target;
}

-- The nine packed values of a header.
abbrev pub header_fields : Header → Fields
header_fields h = record {
  magic = magic_bytes;
  format = h.version;
  codec = codec_id h.codec;
  reserved = 0;
  base_length = h.base_length;
  target_length = h.target_length;
  payload_length = h.payload_length;
  base_hash = h.base_sha256;
  target_hash = h.target_sha256;
}

-- The checks pass on the values of a header of version 1 with the right payload length.
check_fields-header_fields :
    (h : Header) (size : ℕ)
    → h.version ≡ format_version
    → h.payload_length ≡ size - envelope_size
    → check_fields (header_fields h) size ≡ ok h
unfolding check_fields
check_fields-header_fields h size v p = ground (arith, bytes_eq_refl magic_bytes)

-- They pass on nothing else.
check_fields_ok :
    (f : Fields) (size : ℕ) {h : Header}
    → check_fields f size ≡ ok h
    → (f ≡ header_fields h)
      × (h.version ≡ format_version)
      × (h.payload_length ≡ size - envelope_size)
unfolding check_fields
check_fields_ok f size e = ground (arith, bytes_eq→eq f.magic magic_bytes)

check_fields_raises :
    (f : Fields) (size : ℕ) → RaisesOnly (λ e. e.cls ≡ envelope_error) (check_fields f size)
unfolding check_fields
check_fields_raises f size = ground arith

-- `need o e` succeeds on what is there.
need-eq-ok {ℓ} : {A : Type ℓ} (o : Option A) (e : Exc) {a : A} → need o e ≡ ok a → o ≡ some a
need-eq-ok none e h = cc
need-eq-ok (some a) e h = ground arith

-- A sealed envelope is a packed header and then the payload.
envelope-cases :
    (H : Hash) (codec : Codec) (base target payload : Bytes) {blob : Bytes}
    → envelope H codec base target payload ≡ ok blob
    → (head : Bytes) × (pack (envelope_fields H codec base target payload) ≡ some head)
      × (head ++ payload ≡ blob)
unfolding envelope
envelope-cases H codec base target payload e =
    let (head, packed, rest) = returned_through (need (pack _) _) _ e in
    (head, need-eq-ok _ _ packed, ok-injective rest)

envelope_fields-HasSizes :
    (H : Hash) (codec : Codec) (base target payload : Bytes)
    → HasSizes (envelope_fields H codec base target payload)
envelope_fields-HasSizes H codec base target payload = record {
  magic_size = refl;
  base_hash_size = H.digest_size base;
  target_hash_size = H.digest_size target;
}

-- The payload starts at offset 96.
pub envelope_layout :
    (H : Hash) (codec : Codec) (base target payload : Bytes) {blob : Bytes}
    → envelope H codec base target payload ≡ ok blob
    → (length blob ≡ envelope_size + length payload) × (drop envelope_size blob ≡ payload)
envelope_layout H codec base target payload e =
    let (head, packed, same) = envelope-cases H codec base target payload e in
    let size = length-pack _ packed in
    rw (← same)
      (omega (arith, length-append head payload), drop-append envelope_size head payload size)

-- On a byte string of 96 bytes or more `inspect` is the checks of the unpacked values.
inspect-eq-check_fields :
    (blob : Bytes) {f : Fields}
    → envelope_size ≤ length blob
    → unpack_from blob ≡ some f
    → inspect (bytes_object blob) ≡ check_fields f (length blob)
unfolding inspect
inspect-eq-check_fields blob long e = rw (not-ltb envelope_size (length blob) long, e)

inspect-cases :
    (blob : Bytes)
    → ((e : Exc) × (inspect (bytes_object blob) ≡ raise e) × (e.cls ≡ envelope_error))
      ⊎ ((envelope_size ≤ length blob)
          × ((f : Fields) × (unpack_from blob ≡ some f)
              × (inspect (bytes_object blob) ≡ check_fields f (length blob))))
unfolding inspect
inspect-cases blob = elim (Bool-cases (ltb (length blob) envelope_size)) [
  | inl e ↦ inl (exc envelope_error "shorter than the envelope header", rw e, refl)
  | inr e ↦
      let long : envelope_size ≤ length blob = ground arith in
      let (f, read) = unpack_from_total blob long in
      inr (long, (f, read, inspect-eq-check_fields blob long read))
]

-- `inspect` reads back from an envelope exactly the header that describes the encoding.
pub inspect-envelope :
    (H : Hash) (codec : Codec) (base target payload : Bytes) {blob : Bytes}
    → envelope H codec base target payload ≡ ok blob
    → inspect (bytes_object blob) ≡ ok (header_for H codec base target payload)
inspect-envelope H codec base target payload {blob} e =
    let (head, packed, same) = envelope-cases H codec base target payload e in
    let fields : unpack_from blob ≡ some (envelope_fields H codec base target payload) =
      rw (← same) (
        unpack_from-pack _ payload (envelope_fields-HasSizes H codec base target payload) packed) in
    let (size, _) = envelope_layout H codec base target payload e in
    let checked =
      check_fields-header_fields (header_for H codec base target payload) (length blob) refl
        (omega arith) in
    inspect-eq-check_fields blob (omega arith) fields ∙ checked

-- Sealing fails on no input whose three lengths fit 64 bits.
pub envelope_total :
    (H : Hash) (codec : Codec) (base target payload : Bytes)
    → length base < 256 ^ 8
    → length target < 256 ^ 8
    → length payload < 256 ^ 8
    → (blob : Bytes) × (envelope H codec base target payload ≡ ok blob)
unfolding envelope
envelope_total H codec base target payload hb ht hp = (
  _,
  ap (λ o. need o (exc struct_error "out of range") >>= λ head. ok (head ++ payload))
      (pack-of_InRange _ in_range),
)
  where
    codec_range : (c : Codec) → codec_id c < 256 ^ 1
    codec_range hdiff = omega arith
    codec_range zstd = omega arith

    in_range : InRange (envelope_fields H codec base target payload)
    in_range = record {
      format_range = omega arith;
      codec_range = codec_range codec;
      reserved_range = omega arith;
      base_range = hb;
      target_range = ht;
      payload_range = hp;
    }

-- What `inspect` accepts is the packed header that it returns and then a payload of the recorded
-- length: no second envelope has the same header and payload.
pub inspect_canonical :
    (blob : Bytes) {h : Header}
    → All IsByte blob
    → inspect (bytes_object blob) ≡ ok h
    → (h.version ≡ format_version)
      × (pack (header_fields h) ≡ some (take envelope_size blob))
      × (length blob ≡ envelope_size + h.payload_length)
inspect_canonical blob b e = elim (inspect-cases blob) [
  | inl (_, bad, _) ↦ cc
  | inr (long, (f, read, same)) ↦
      let (fields, v, p) = check_fields_ok f (length blob) (sym same ∙ e) in
      let (_, packed) = pack-unpack_from blob b read in (v, rw fields at packed, omega arith)
]

-- On a byte string `inspect` raises nothing but `EnvelopeError`.
pub inspect_raises :
    (blob : Bytes) → RaisesOnly (λ e. e.cls ≡ envelope_error) (inspect (bytes_object blob))
inspect_raises blob = elim (inspect-cases blob) [
  | inl (_, bad, c) ↦ rw bad c
  | inr (_, (f, _, same)) ↦ rw same (check_fields_raises f (length blob))
]

-- What `inspect` accepts has the size of a header at least.
pub inspect_long :
    (blob : Bytes) {h : Header} → inspect (bytes_object blob) ≡ ok h → envelope_size ≤ length blob
inspect_long blob e = elim (inspect-cases blob) [ inl (_, bad, _) ↦ cc | inr (long, _) ↦ long ]
