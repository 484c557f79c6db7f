-- ===== src/Struct.antt =====
-- `struct.Struct(">4sBBHQQQ32s32s")` of src/pyhdiff/__init__.py: what CPython's struct module
-- does with that format. A number of w bytes is written with its highest byte first.
mod Numbers
mod Slices
pub mod RoundTrip
unfoldable pub use Numbers.{le_bytes, le_value, be_bytes, be_value}
unfoldable pub use Slices.{slices, concat}
use pyhdiff.Base.{
  ℕ, ◌+◌, ◌^◌, ◌<◌, Bool, true, ◌&&◌, if◌then◌else◌, ltb, leb, Option, none, some, List, [], ◌∷◌,
  ◌++◌, Bytes, length, take, replicate,
}

-- The nine values that the format names, in its order.
pub record Fields : Type 0 where
  pub magic : Bytes
  pub format : ℕ
  pub codec : ℕ
  pub reserved : ℕ
  pub base_length : ℕ
  pub target_length : ℕ
  pub payload_length : ℕ
  pub base_hash : Bytes
  pub target_hash : Bytes

-- The sizes of the nine items of the format.
abbrev pub widths : List ℕ
widths = 4 ∷ 1 ∷ 1 ∷ 2 ∷ 8 ∷ 8 ∷ 8 ∷ 32 ∷ 32 ∷ []

abbrev pub header_size : ℕ
header_size = 96

-- `4s` and `32s` cut a byte string to the size, or fill it with zeros.
abbrev pub fit : ℕ → Bytes → Bytes
fit n bs = take n (bs ++ replicate n 0)

-- `B`, `H` and `Q` refuse a number that does not fit.
pub in_range : Fields → Bool
in_range f =
    ltb f.format (256 ^ 1)
    && ltb f.codec (256 ^ 1)
    && ltb f.reserved (256 ^ 2)
    && ltb f.base_length (256 ^ 8)
    && ltb f.target_length (256 ^ 8)
    && ltb f.payload_length (256 ^ 8)

abbrev pub parts : Fields → List Bytes
parts f =
    fit 4 f.magic
    ∷ be_bytes 1 f.format
    ∷ be_bytes 1 f.codec
    ∷ be_bytes 2 f.reserved
    ∷ be_bytes 8 f.base_length
    ∷ be_bytes 8 f.target_length
    ∷ be_bytes 8 f.payload_length
    ∷ fit 32 f.base_hash
    ∷ fit 32 f.target_hash
    ∷ []

-- `pack`; `none` is `struct.error`.
unfoldable pub pack : Fields → Option Bytes
unfolding in_range
pack f = if in_range f then some (concat (parts f)) else none

abbrev pub fields_of : List Bytes → Option Fields
fields_of (m ∷ v ∷ c ∷ r ∷ b ∷ t ∷ p ∷ bh ∷ th ∷ []) = some (record {
  magic = m;
  format = be_value v;
  codec = be_value c;
  reserved = be_value r;
  base_length = be_value b;
  target_length = be_value t;
  payload_length = be_value p;
  base_hash = bh;
  target_hash = th;
})
fields_of _ = none

-- `unpack_from` at offset 0; `none` is `struct.error`, for a buffer that is too short.
unfoldable pub unpack_from : Bytes → Option Fields
unpack_from bs = if leb header_size (length bs) then fields_of (slices widths bs) else none
