-- ===== src/Api/Envelope.antt =====
-- The envelope of src/pyhdiff/__init__.py: `Codec`, `Header`, `_envelope` and `inspect`.
use pyhdiff.Base.{
  ℕ, ◌-◌, ◌≡◌, Bool, true, not, ◌||◌, Option, none, some, [], ◌∷◌, ◌++◌, Bytes, IsByte, All, length,
  ltb, ◌==◌, bytes_eq, if◌then◌else◌,
}
use pyhdiff.Struct.{Fields, pack, unpack_from}
use pyhdiff.Errors.{
  exc, exc_number, Result, ok, raise, need, raise_if, ◌>>=◌, ◌>>◌, envelope_error, type_error,
  struct_error, value_error,
}
use pyhdiff.Api.Values.{Value, bytes_object, buffer_object, str_object, other_object}

-- `MAGIC`, `FORMAT_VERSION`, `ENVELOPE_SIZE`
abbrev pub magic_bytes : Bytes
magic_bytes = b'P' ∷ b'H' ∷ b'D' ∷ b'F' ∷ []

abbrev pub format_version : ℕ
format_version = 1

abbrev pub envelope_size : ℕ
envelope_size = 96

pub data Codec : Type 0 where
  hdiff zstd : Codec

abbrev pub codec_id : Codec → ℕ
codec_id hdiff = 1
codec_id zstd = 2

-- `Codec(n)`, which raises `ValueError` where there is no such member.
abbrev pub codec_of : ℕ → Option Codec
codec_of n = if n == 1 then some hdiff else if n == 2 then some zstd else none

pub record Header : Type 0 where
  pub version : ℕ
  pub codec : Codec
  pub base_length : ℕ
  pub target_length : ℕ
  pub payload_length : ℕ
  pub base_sha256 : Bytes
  pub target_sha256 : Bytes

-- `hashlib.sha256(b).digest()`: a digest has 32 bytes.
pub record Hash : Type 0 where
  pub digest : Bytes → Bytes
  pub digest_size : (b : Bytes) → length (digest b) ≡ 32
  pub digest-IsByte : (b : Bytes) → All IsByte (digest b)

-- The nine values that `_envelope` packs.
abbrev pub envelope_fields : Hash → Codec → Bytes → Bytes → Bytes → Fields
envelope_fields H codec base target payload = record {
  magic = magic_bytes;
  format = format_version;
  codec = codec_id codec;
  reserved = 0;
  base_length = length base;
  target_length = length target;
  payload_length = length payload;
  base_hash = H.digest base;
  target_hash = H.digest target;
}

-- `_envelope`
unfoldable pub envelope : Hash → Codec → Bytes → Bytes → Bytes → Result Bytes
envelope H codec base target payload = do
  header ←
      need (pack (envelope_fields H codec base target payload)) (exc struct_error "out of range")
  ok (header ++ payload)

-- The checks of `inspect` on the unpacked fields, in the order of the source.
unfoldable pub check_fields : Fields → ℕ → Result Header
check_fields f size = do
  raise_if (not (bytes_eq f.magic magic_bytes)) (exc envelope_error "bad magic")
  raise_if (not (f.format == format_version))
      (exc_number envelope_error "unsupported format version" f.format)
  raise_if (not (f.codec == codec_id hdiff || f.codec == codec_id zstd))
      (exc_number envelope_error "unsupported codec" f.codec)
  raise_if (not (f.reserved == 0)) (exc envelope_error "reserved bytes are not zero")
  raise_if (not (f.payload_length == size - envelope_size))
      (exc envelope_error "payload length does not match the envelope size")
  codec ← need (codec_of f.codec) (exc_number value_error "not a valid Codec" f.codec)
  ok (record {
    version = f.format;
    codec = codec;
    base_length = f.base_length;
    target_length = f.target_length;
    payload_length = f.payload_length;
    base_sha256 = f.base_hash;
    target_sha256 = f.target_hash;
  })

-- `inspect` inside the `with`: `castable` says whether `view.cast("B")` accepts the layout.
unfoldable pub inspect_view : Bool → Bytes → Result Header
inspect_view castable blob = do
  raise_if (ltb (length blob) envelope_size) (exc envelope_error "shorter than the envelope header")
  raise_if (not castable) (exc type_error "casts are restricted to C-contiguous views")
  fields ← need (unpack_from blob) (exc struct_error "buffer too small")
  check_fields fields (length blob)

unfoldable pub inspect : Value → Result Header
unfolding inspect_view
inspect (bytes_object b) = inspect_view true b
inspect (buffer_object castable b) = inspect_view castable b
inspect str_object = raise (exc type_error "blob must be a bytes-like object")
inspect other_object = raise (exc type_error "blob must be a bytes-like object")
