-- ===== src/Extension.antt =====
-- src/pyhdiff/_native.c: the extension module, over the entry points of the bridge.
pub mod Sizes
pub mod Failures
pub mod Frames
pub mod Codecs
pub mod Stored
pub mod Tests
use pyhdiff.Base.{
  ℕ, zero, suc, ◌-◌, ◌^◌, Bool, true, false, not, ◌&&◌, ◌||◌, Option, none, some, List, [], ◌∷◌,
  Bytes, length, drop, replicate, ltb, leb, ◌==◌, if◌then◌else◌,
}
use pyhdiff.Base.Int.{ℤ, pos, negsuc}
use pyhdiff.Errors.{Exc, exc, type_error, overflow_error, value_error, memory_error}
use pyhdiff.Status.{raw_max, status_ok, status_limit, status_unknown}
use pyhdiff.Native.{Native, Outcome, returned, native_error, raised}
use pyhdiff.Bridge.Throw.{PhdResult, failed}
use pyhdiff.Bridge.Zstd.{Decoder}
use pyhdiff.Bridge.Options.{HdiffOptions, ZstdOptions}
use pyhdiff.Bridge.Hdiff.{DiffLibrary}
use pyhdiff.Bridge.Encode.{Encoder}
use pyhdiff.Bridge.Entry.{
  phd_hdiff_encode, phd_hdiff_apply, phd_zstd_encode, phd_zstd_apply, phd_zstd_compress,
  phd_zstd_decompress,
}

-- What the extension module is linked with, and for which sizes realloc and
-- `PyBytes_FromStringAndSize` succeed.
pub record Libraries : Type 1 where
  pub alloc : ℕ → Bool
  pub alloc_bytes : ℕ → Bool
  pub diff : DiffLibrary
  pub decoder : Decoder
  pub encoder : Encoder

-- Whether an `int` of Python fits a signed C integer of so many bits besides the sign.
abbrev pub fits : ℕ → ℤ → Bool
fits bits (pos n) = ltb n (2 ^ bits)
fits bits (negsuc n) = ltb n (2 ^ bits)

abbrev pub all_ints : List ℤ → Bool
all_ints [] = true
all_ints (v ∷ vs) = fits 31 v && all_ints vs

-- The message depends on the value; one stands for all.
abbrev pub too_large : Exc
too_large = exc overflow_error "Python int too large to convert to C int"

abbrev pub overflow : Outcome
overflow = raised too_large

abbrev pub wrong_count : Outcome
wrong_count = raised (exc type_error "function takes another number of arguments")

-- `PyArg_ParseTuple` with the format "i" for each option, and what follows it.
abbrev pub parse_ints {ℓ} : {A : Type ℓ} → Option A → List ℤ → (A → Outcome) → Outcome
parse_ints none args next = wrong_count
parse_ints (some o) args next = if all_ints args then next o else overflow

-- The options that the seven arguments fill in.
abbrev pub hdiff_ints : List ℤ → Option HdiffOptions
hdiff_ints
      (match_score ∷ level ∷ window_log ∷ fast_block_bytes ∷ step_bytes ∷ content_size ∷ checksum
        ∷ []) =
    some (record {
      match_score = match_score;
      level = level;
      window_log = window_log;
      fast_block_bytes = fast_block_bytes;
      step_bytes = step_bytes;
      content_size = content_size;
      checksum = checksum;
    })
hdiff_ints args = none

abbrev pub zstd_ints : List ℤ → Option ZstdOptions
zstd_ints
      (level ∷ window_log ∷ ldm ∷ content_size ∷ checksum ∷ hash_log ∷ min_match ∷ bucket_log
        ∷ rate_log ∷ []) =
    some (record {
      level = level;
      window_log = window_log;
      ldm = ldm;
      content_size = content_size;
      checksum = checksum;
      ldm_hash_log = hash_log;
      ldm_min_match = min_match;
      ldm_bucket_log = bucket_log;
      ldm_rate_log = rate_log;
    })
zstd_ints args = none

abbrev pub frame_ints : List ℤ → Option (ℤ × ℤ × ℤ)
frame_ints (level ∷ window_log ∷ checksum ∷ []) = some (level, window_log, checksum)
frame_ints args = none

-- The result of a call; `none` stands for a call that does not return.
abbrev pub settled : Option PhdResult → PhdResult
settled none = failed status_unknown
settled (some r) = r

-- `tail_view`, given the offset: what lies behind it.
abbrev pub tail_view : Bytes → ℤ → Option Bytes
tail_view payload (pos offset) =
    if ltb (length payload) offset then none else some (drop offset payload)
tail_view payload (negsuc offset) = none

-- Whether `apply` refuses the size of the target.
abbrev pub refuses_size : ℤ → Bool
refuses_size (pos n) = ltb raw_max n
refuses_size (negsuc n) = true

abbrev pub size_of : ℤ → ℕ
size_of (pos n) = n
size_of (negsuc n) = 0

-- The buffer that was decoded into. A success has filled it; nothing else is read of it.
abbrev pub filled : ℕ → Option Bytes → Bytes
filled n none = replicate n 0
filled n (some t) = t

module _ (L : Libraries) where
  abbrev pub new_bytes : Bytes → Outcome
  new_bytes b = if L.alloc_bytes (length b) then returned b else raised (exc memory_error "")

  -- `finish`: a null pointer with size 0 makes the empty `bytes`.
  unfoldable pub finish : PhdResult → Outcome
  finish r =
      if not (r.status == status_ok) then native_error r.status else new_bytes (filled 0 r.contents)

  unfoldable pub hdiff_encode : Bytes → Bytes → List ℤ → Outcome
  hdiff_encode base target args =
      parse_ints (hdiff_ints args) args
        λ o. finish (settled (phd_hdiff_encode L.alloc L.diff base target o))

  unfoldable pub zstd_encode : Bytes → Bytes → List ℤ → Outcome
  zstd_encode base target args =
      parse_ints (zstd_ints args) args
        λ o. finish (settled (phd_zstd_encode L.alloc L.encoder base target o))

  -- The call of the bridge that `apply` selects.
  abbrev pub decode_into : Bool → Bytes → Bytes → ℕ → PhdResult
  decode_into true base payload n = settled (phd_zstd_apply L.decoder base payload n)
  decode_into false base payload n = settled (phd_hdiff_apply L.alloc L.diff base payload n)

  -- `apply` behind its argument checks.
  unfoldable pub apply_sized : Bool → Bytes → Bytes → ℕ → Outcome
  apply_sized zstd base payload n =
      let r = decode_into zstd base payload n in
      if not (L.alloc_bytes n)
      then raised (exc memory_error "")
      else if not (r.status == status_ok)
      then native_error r.status
      else returned (filled n r.contents)

  -- `apply` behind `tail_view`.
  abbrev pub apply_tail : Bool → Bytes → Option Bytes → ℤ → Outcome
  apply_tail zstd base none target_size = raised (exc value_error "offset outside the buffer")
  apply_tail zstd base (some payload) target_size =
      if refuses_size target_size
      then native_error status_limit
      else apply_sized zstd base payload (size_of target_size)

  unfoldable pub apply : Bool → Bytes → Bytes → ℤ → ℤ → Outcome
  apply zstd base payload offset target_size =
      if fits 63 offset && fits 63 target_size
      then apply_tail zstd base (tail_view payload offset) target_size
      else overflow

  unfoldable pub compress : Bytes → List ℤ → Outcome
  compress src args =
      parse_ints (frame_ints args) args
        λ o. finish (settled (phd_zstd_compress L.alloc L.encoder src o.0 o.1 o.2))

  abbrev pub decompress_bounded : Bytes → ℤ → Outcome
  decompress_bounded src (pos n) = finish (settled (phd_zstd_decompress L.alloc L.decoder src n))
  decompress_bounded src (negsuc n) = raised (exc value_error "negative output bound")

  unfoldable pub decompress : Bytes → ℤ → Outcome
  decompress src max_output =
      if fits 63 max_output then decompress_bounded src max_output else overflow

  -- `methods`
  abbrev pub native : Native
  native = record {
    hdiff_encode = hdiff_encode;
    hdiff_apply = apply false;
    zstd_encode = zstd_encode;
    zstd_apply = apply true;
    compress = compress;
    decompress = decompress;
  }
