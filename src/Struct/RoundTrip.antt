-- ===== src/Struct/RoundTrip.antt =====
-- The two directions of `pack` and `unpack_from`.
use pyhdiff.Base.{
  ℕ, ◌^◌, ◌≤◌, ◌<◌, ◌≡◌, ap, Bool, true, none, some, List, [], ◌∷◌, ◌++◌, Bytes, IsByte, All,
  All-take, All-drop, length, length-append, length-take, length-drop, take, drop, take-append,
  arith, Bool-cases, inl, inr, replicate, length-replicate, leb, leb→le, le→leb, if◌then◌else◌,
}
use mathlib.Core.Option.{none-ne-some, some-injective}
use pyhdiff.Struct.{Fields, widths, header_size, fit, in_range, parts, pack, fields_of, unpack_from}
use pyhdiff.Struct.Numbers.{length-be_bytes, be_value-be_bytes, be_bytes-be_value, be_value-lt}
use pyhdiff.Struct.Slices.{
  total, slices, concat, HaveSizes, slices-concat, length-concat, concat-slices,
}

-- The byte strings of a header have the sizes of their items.
pub record HasSizes (f : Fields) : Type 0 where
  pub magic_size : length f.magic ≡ 4
  pub base_hash_size : length f.base_hash ≡ 32
  pub target_hash_size : length f.target_hash ≡ 32

length-fit : (n : ℕ) (bs : Bytes) → length (fit n bs) ≡ n
length-fit n bs = omega (
  arith,
  length-take n (bs ++ replicate n 0),
  length-append bs (replicate n 0),
  length-replicate {A = ℕ} n 0,
)

pub fit-of_size : (n : ℕ) (bs : Bytes) → length bs ≡ n → fit n bs ≡ bs
fit-of_size n bs h = take-append n bs (replicate n 0) h

parts-HaveSizes : (f : Fields) → HaveSizes widths (parts f)
parts-HaveSizes f = (
  length-fit 4 f.magic,
  (
    length-be_bytes 1 f.format,
    (
      length-be_bytes 1 f.codec,
      (
        length-be_bytes 2 f.reserved,
        (
          length-be_bytes 8 f.base_length,
          (
            length-be_bytes 8 f.target_length,
            (
              length-be_bytes 8 f.payload_length,
              (length-fit 32 f.base_hash, (length-fit 32 f.target_hash, tt)),
            ),
          ),
        ),
      ),
    ),
  ),
)

pub length-pack : (f : Fields) {bs : Bytes} → pack f ≡ some bs → length bs ≡ header_size
unfolding pack
length-pack f h = ground (arith, length-concat widths (parts f) (parts-HaveSizes f))

-- The numbers of a header fit their items.
pub record InRange (f : Fields) : Type 0 where
  pub format_range : f.format < 256 ^ 1
  pub codec_range : f.codec < 256 ^ 1
  pub reserved_range : f.reserved < 256 ^ 2
  pub base_range : f.base_length < 256 ^ 8
  pub target_range : f.target_length < 256 ^ 8
  pub payload_range : f.payload_length < 256 ^ 8

pub in_range→InRange : (f : Fields) → in_range f ≡ true → InRange f
unfolding in_range
in_range→InRange f h = ground arith

pub InRange→in_range : (f : Fields) → InRange f → in_range f ≡ true
unfolding in_range
InRange→in_range f r = ground arith

fields_of-parts : (f : Fields) → HasSizes f → InRange f → fields_of (parts f) ≡ some f
fields_of-parts f s r = rw (
  fit-of_size 4 f.magic s.magic_size,
  be_value-be_bytes 1 f.format r.format_range,
  be_value-be_bytes 1 f.codec r.codec_range,
  be_value-be_bytes 2 f.reserved r.reserved_range,
  be_value-be_bytes 8 f.base_length r.base_range,
  be_value-be_bytes 8 f.target_length r.target_range,
  be_value-be_bytes 8 f.payload_length r.payload_range,
  fit-of_size 32 f.base_hash s.base_hash_size,
  fit-of_size 32 f.target_hash s.target_hash_size,
)

-- A header that `pack` wrote holds numbers in range.
pub pack-InRange :
    (f : Fields) {bs : Bytes} → pack f ≡ some bs → InRange f × (concat (parts f) ≡ bs)
unfolding pack
pack-InRange f h = elim (Bool-cases (in_range f)) [
  | inl e ↦ (in_range→InRange f e, some-injective _ _ (rw e at h))
  | inr e ↦ absurd (none-ne-some _ (rw e at h))
]

-- `pack` fails on nothing else.
pub pack-of_InRange : (f : Fields) → InRange f → pack f ≡ some (concat (parts f))
unfolding pack
pack-of_InRange f r = rw (InRange→in_range f r)

-- `unpack_from` reads back the fields that `pack` wrote, whatever bytes follow the header.
pub unpack_from-pack :
    (f : Fields) (rest : Bytes) {bs : Bytes}
    → HasSizes f
    → pack f ≡ some bs
    → unpack_from (bs ++ rest) ≡ some f
unfolding unpack_from
unpack_from-pack f rest {bs} s h =
    let (r, e) = pack-InRange f h in
    let long : header_size ≤ length (bs ++ rest) =
      omega (arith, length-append bs rest, length-pack f h) in
    rw (le→leb header_size (length (bs ++ rest)) long, ← e)
      (rw (slices-concat widths (parts f) rest (parts-HaveSizes f)) (fields_of-parts f s r))

-- Each part is a byte string.
abbrev AreBytes : List Bytes → Type 0
AreBytes = All (All IsByte)

slices-HaveSizes : (ns : List ℕ) (bs : Bytes) → total ns ≤ length bs → HaveSizes ns (slices ns bs)
unfolding slices
slices-HaveSizes [] bs h = tt
slices-HaveSizes (n ∷ ns) bs h = (
  omega (arith, length-take n bs),
  slices-HaveSizes ns (drop n bs) (omega (arith, length-drop n bs)),
)

slices-AreBytes : (ns : List ℕ) (bs : Bytes) → All IsByte bs → AreBytes (slices ns bs)
unfolding slices
slices-AreBytes [] bs h = tt
slices-AreBytes (n ∷ ns) bs h =
    (All-take IsByte n bs h, slices-AreBytes ns (drop n bs) (All-drop IsByte n bs h))

-- Nine byte strings of the right sizes are the parts of the fields that they stand for.
parts-fields_of :
    (ps : List Bytes) {f : Fields}
    → HaveSizes widths ps
    → AreBytes ps
    → fields_of ps ≡ some f
    → HasSizes f × InRange f × (parts f ≡ ps)
parts-fields_of (m ∷ v ∷ c ∷ r ∷ b ∷ t ∷ p ∷ x ∷ y ∷ []) {f} s h e =
    let (sm, (sv, (sc, (sr, (sb, (st, (sp, (sx, (sy, _))))))))) = s in
    let (hm, (hv, (hc, (hr, (hb, (ht, (hp, _))))))) = h in
    rw (← some-injective _ _ e) (
      record { magic_size = sm; base_hash_size = sx; target_hash_size = sy },
      record {
        format_range = be_value-lt 1 v sv hv;
        codec_range = be_value-lt 1 c sc hc;
        reserved_range = be_value-lt 2 r sr hr;
        base_range = be_value-lt 8 b sb hb;
        target_range = be_value-lt 8 t st ht;
        payload_range = be_value-lt 8 p sp hp;
      },
      rw (
        fit-of_size 4 m sm,
        be_bytes-be_value 1 v sv hv,
        be_bytes-be_value 1 c sc hc,
        be_bytes-be_value 2 r sr hr,
        be_bytes-be_value 8 b sb hb,
        be_bytes-be_value 8 t st ht,
        be_bytes-be_value 8 p sp hp,
        fit-of_size 32 x sx,
        fit-of_size 32 y sy,
      ),
    )
parts-fields_of _ s h e = absurd (none-ne-some _ e)

unpack_from-cases :
    (bs : Bytes) {f : Fields}
    → unpack_from bs ≡ some f
    → (header_size ≤ length bs) × (fields_of (slices widths bs) ≡ some f)
unfolding unpack_from
unpack_from-cases bs h = elim (Bool-cases (leb header_size (length bs))) [
  | inl e ↦ (leb→le _ _ e, rw e at h)
  | inr e ↦ absurd (none-ne-some _ (rw e at h))
]

-- `pack` writes back the header that `unpack_from` read: 96 bytes hold nothing else.
pub pack-unpack_from :
    (bs : Bytes) {f : Fields}
    → All IsByte bs
    → unpack_from bs ≡ some f
    → HasSizes f × (pack f ≡ some (take header_size bs))
unfolding pack
pack-unpack_from bs {f} h e =
    let (long, e') = unpack_from-cases bs e in
    let (s, r, same) =
      parts-fields_of (slices widths bs) (slices-HaveSizes widths bs long)
        (slices-AreBytes widths bs h) e' in
    (s, rw (InRange→in_range f r, same) (ap some (concat-slices widths bs)))

-- On at least 96 bytes `unpack_from` never fails.
pub unpack_from_total :
    (bs : Bytes) → header_size ≤ length bs → (f : Fields) × (unpack_from bs ≡ some f)
unfolding unpack_from slices
unpack_from_total bs h = (
  _,
  ap (λ (b : Bool). if b then fields_of (slices widths bs) else none)
      (le→leb header_size (length bs) h),
)
