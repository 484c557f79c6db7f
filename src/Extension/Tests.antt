-- ===== src/Extension/Tests.antt =====
-- The extension module on sample libraries, and the theorems at concrete inputs.
use pyhdiff.Base.{ℕ, length, ◌≤◌, ◌^◌, ◌≡◌, refl, true, false, [], ◌∷◌, Bytes, arith}
use pyhdiff.Base.Int.{pos}
use pyhdiff.Errors.{Result, Exc, ok, raise, RaisesOnly, catches, error, overflow_error}
use pyhdiff.Native.{IsSized, returned, native_error}
use pyhdiff.Status.{status_limit, frame_max, raw_max}
use pyhdiff.Api.{
  HDiffProfile, bytes_object, bytes, call, hdiff_profile, zstd_profile, default_hdiff, default_zstd,
  encode_delta, encode_with, envelope, hdiff_args, zstd_args,
}
use pyhdiff.Api
use pyhdiff.Api.Sample.{sample_hash}
use pyhdiff.Bridge.Throw.{boundary, done}
use pyhdiff.Bridge.Zstd.{zcheck}
use pyhdiff.Bridge.Growable.{release, reserve, spare, resize, grow_to, append}
use pyhdiff.Bridge.Frame.{
  frame_decompress, frame_loop, frame_round, open_round, full_round, open_frame, window_for,
}
use pyhdiff.Bridge.Encode.{zstd_encode, encode_loop, chunk_loop, encode_call, set_all, open_encode}
use pyhdiff.Bridge.Tuning.{settings, log_of}
use pyhdiff.Bridge.Options.{zstd_options, hdiff_options, hdiff_ranges}
use pyhdiff.Bridge.Pair.{window_of, frame_window}
use pyhdiff.Bridge.Copying.{copying, pair}
use pyhdiff.Bridge.Entry.{phd_zstd_decompress, phd_zstd_compress, phd_zstd_encode, phd_hdiff_encode}
use pyhdiff.Bridge.Sample.{
  allocates, sample_decoder, sample_library, sample_encoder, sample_library-PatchKeepsSize,
  sample_encoder-MakesProgress,
}
use pyhdiff.Extension.{Libraries, all_ints, native, apply, compress, decompress, finish}
use pyhdiff.Extension.Sizes.{native-IsSized}
use pyhdiff.Extension.Failures.{IsReported, apply-IsReported, encode_delta_overflow}
use pyhdiff.Extension.Frames.{compress-bounded, decompress-bounded, decompress-compress}
use pyhdiff.Struct.{pack, be_bytes, concat}
use pyhdiff.Api.Encode.{apply-encode_delta}
use pyhdiff.Raw
use pyhdiff.Raw.{inputs}
use pyhdiff.Raw.Payload.{RawDecodes, RawEncodes-RawDecodes}
use pyhdiff.Bridge.Hdiff.{write_all, hdiff_encode}
use pyhdiff.Bridge.Streams.{extend, write}
use pyhdiff.Extension
use pyhdiff.Extension.Stored.{stored_libraries, stored-IsCodecPair}

abbrev sample_libraries : Libraries
sample_libraries = record {
  alloc = allocates;
  alloc_bytes = allocates;
  diff = sample_library;
  decoder = sample_decoder;
  encoder = sample_encoder;
}

abbrev base : Bytes
base = 5 ∷ 6 ∷ []

abbrev target : Bytes
target = 7 ∷ 8 ∷ 9 ∷ []

decompress_run : decompress sample_libraries target (pos 3) ≡ returned target
unfolding decompress finish phd_zstd_decompress boundary release frame_decompress frame_loop
    frame_round open_round full_round open_frame zcheck spare resize grow_to reserve
decompress_run = refl

decompress_over : decompress sample_libraries target (pos 2) ≡ native_error status_limit
unfolding decompress finish phd_zstd_decompress boundary release frame_decompress frame_loop
    frame_round open_round full_round open_frame zcheck spare resize grow_to reserve
decompress_over = refl

apply_oversized :
    apply sample_libraries true base target (pos 0) (pos (2 ^ 29)) ≡ native_error status_limit
unfolding apply
apply_oversized = refl

native-IsSized_example : IsSized (native sample_libraries)
native-IsSized_example =
    native-IsSized sample_libraries sample_library-PatchKeepsSize sample_encoder-MakesProgress

apply-IsReported_example : RaisesOnly IsReported (
    Api.apply sample_hash
      (native sample_libraries)
      (bytes_object base)
      (bytes_object target)
      (pos 100))
apply-IsReported_example = apply-IsReported sample_libraries sample_hash base target (pos 100)

abbrev wide_profile : HDiffProfile
wide_profile = record default_hdiff { level = pos (2 ^ 31) }

wide_profile-wide : all_ints (hdiff_args wide_profile) ≡ false
unfolding hdiff_args
wide_profile-wide = refl

encode_delta_overflow_example :
    (e : Exc) × (encode_delta sample_hash
        (native sample_libraries)
        (bytes_object base)
        (bytes_object target)
        (hdiff_profile wide_profile)
      ≡ raise e)
    × (e.cls ≡ overflow_error)
    × (catches error e.cls ≡ false)
encode_delta_overflow_example =
    encode_delta_overflow sample_libraries sample_hash base target wide_profile (omega arith)
      (omega arith) wide_profile-wide

abbrev copying_libraries : Libraries
copying_libraries = record sample_libraries { decoder = copying }

compress_run :
    Api.compress (native copying_libraries) (bytes_object target) (pos 3) (pos 0) true ≡ ok target
unfolding Api.compress bytes call compress finish phd_zstd_compress boundary zstd_options
    zstd_encode open_encode encode_loop chunk_loop encode_call set_all append release spare grow_to
    zcheck settings
compress_run = refl

compress-bounded_example : (length target ≤ frame_max) × (length target ≤ frame_max)
compress-bounded_example =
    compress-bounded copying_libraries target (pos 3) (pos 0) true compress_run

public_run : Api.decompress (native sample_libraries) (bytes_object target) (pos 3) ≡ ok target
unfolding Api.decompress bytes call decompress finish phd_zstd_decompress boundary release
    frame_decompress frame_loop frame_round open_round full_round open_frame zcheck spare resize
    grow_to reserve
public_run = refl

decompress-bounded_example : (m : ℕ) × (pos 3 ≡ pos m) × (m ≤ frame_max) × (length target ≤ m)
decompress-bounded_example = decompress-bounded sample_libraries target (pos 3) public_run

frame_opened : open_frame allocates copying 5 ≡ done tt
unfolding open_frame zcheck window_for
frame_opened = refl

window_allowed : window_of copying target ≤ 2 ^ frame_window 5
unfolding window_for
window_allowed = omega arith

decompress-compress_example :
    Api.decompress (native copying_libraries) (bytes_object target) (pos 5) ≡ ok target
decompress-compress_example =
    decompress-compress copying_libraries pair (λ n. refl) (λ n. refl) target (pos 3) (pos 0) true 5
      compress_run (omega arith) (omega arith) (omega arith) frame_opened window_allowed

-- The envelope functions on the extension module, over codecs that store the target.
abbrev sealed : Result Bytes
sealed =
    encode_delta sample_hash (native stored_libraries) (bytes_object base) (bytes_object target)
      (zstd_profile default_zstd)

abbrev sealed_bytes : Result Bytes → Bytes
sealed_bytes (ok b) = b
sealed_bytes (raise x) = []

sealed_run : sealed ≡ ok (sealed_bytes sealed)
unfolding encode_delta encode_with zstd_args call envelope pack be_bytes concat
    Extension.zstd_encode finish phd_zstd_encode boundary zstd_options zstd_encode open_encode
    encode_loop chunk_loop encode_call set_all append release spare grow_to zcheck settings log_of
sealed_run = refl

apply-encode_delta_example :
    Api.apply sample_hash
      (native stored_libraries)
      (bytes_object base)
      (bytes_object (sealed_bytes sealed))
      (pos raw_max)
    ≡ ok target
apply-encode_delta_example =
    apply-encode_delta sample_hash (native stored_libraries) stored-IsCodecPair base target
      (zstd_profile default_zstd) sealed_run

hdiff_encode_run :
    Raw.hdiff_encode
      (native stored_libraries)
      (bytes_object base)
      (bytes_object target)
      default_hdiff
    ≡ ok (2 ∷ target)
unfolding Raw.hdiff_encode inputs bytes call hdiff_args Extension.hdiff_encode finish
    phd_hdiff_encode boundary hdiff_options hdiff_ranges hdiff_encode write_all write extend resize
    spare grow_to release
hdiff_encode_run = refl

RawEncodes-RawDecodes_example :
    RawDecodes (native stored_libraries) base target (hdiff_profile default_hdiff) (2 ∷ target)
RawEncodes-RawDecodes_example =
    RawEncodes-RawDecodes (native stored_libraries) stored-IsCodecPair base target
      (hdiff_profile default_hdiff) (2 ∷ target) (omega arith) hdiff_encode_run
