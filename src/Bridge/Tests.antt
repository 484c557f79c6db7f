-- ===== src/Bridge/Tests.antt =====
-- Runs of the bridge, and the theorems at concrete inputs.
use pyhdiff.Base.{ℕ, ◌<◌, ◌≤◌, ◌≡◌, ◌≢◌, ◌⊎◌, refl, some, none, [], ◌∷◌, Bytes, length, arith}
use pyhdiff.Base.Int.{pos}
use pyhdiff.Status.{raw_max, payload_max, frame_max, status_option, status_ok}
use pyhdiff.Bridge.Throw.{boundary, done, throw, failure, diverges}
use pyhdiff.Bridge.Zstd.{zcheck}
use pyhdiff.Bridge.Options.{Options, HdiffOptions, ZstdOptions, hdiff_options, zstd_options}
use pyhdiff.Bridge.Options.Ranges.{
  InHdiffRanges, CarriesHdiff, IsRefused, hdiff_options-InHdiffRanges,
}
use pyhdiff.Bridge.Options.Ldm.{InZstdRanges, KeepsLdmRules, CarriesZstd, zstd_options-InZstdRanges}
use pyhdiff.Bridge.Growable.{Growable, contents, append, spare, resize, grow_to, reserve}
use pyhdiff.Bridge.Growable.Contents.{IsValid}
use pyhdiff.Bridge.Streams.{write, extend}
use pyhdiff.Bridge.Streams.Laws.{write_at, write_lem}
use pyhdiff.Bridge.Apply.{chunk_size, zstd_apply, check_frame, open_apply, apply_loop, apply_checks}
use pyhdiff.Bridge.Apply.Loop.{Decoding, zstd_apply-Decoding, zstd_apply-ne-diverges}
use pyhdiff.Bridge.Frame.{
  frame_decompress, frame_loop, frame_round, open_round, full_round, open_frame,
}
use pyhdiff.Bridge.Frame.Loop.{
  FrameDecoding, frame_decompress-FrameDecoding, frame_decompress-ne-diverges,
}
use pyhdiff.Bridge.Hdiff.{DiffInfo, DiffLibrary, hdiff_encode, hdiff_apply, write_all, check_info}
use pyhdiff.Bridge.Hdiff.Laws.{replay, Fits, hdiff_encode_done, hdiff_apply-Fits}
use pyhdiff.Bridge.Tuning.{settings}
use pyhdiff.Bridge.Encode.{
  zstd_encode, encode_loop, chunk_loop, encode_call, set_all, open_encode, codec_limits,
}
use pyhdiff.Bridge.Encode.Calls.{IsWithin}
use pyhdiff.Bridge.Encode.Run.{Encoding}
use pyhdiff.Bridge.Encode.Laws.{zstd_encode-ne-diverges, zstd_encode-Encoding}
use pyhdiff.Bridge.Entry.{apply_body, phd_zstd_apply, phd_zstd_decompress}
use pyhdiff.Bridge.Entry.Contract.{Returns, phd_zstd_decompress-Returns}
use pyhdiff.Bridge.Sample.{
  allocates, sample_decoder, sample_library, sample_library-PatchKeepsSize, sample_encoder,
  sample_encoder-MakesProgress,
}

abbrev base : Bytes
base = 5 ∷ 6 ∷ []

abbrev target : Bytes
target = 7 ∷ 8 ∷ 9 ∷ []

abbrev tuned : Options
tuned = record {
  level = 3;
  window_log = 20;
  workers = 0;
  content_size = 1;
  checksum = 0;
  match_score = 0;
  fast_block_bytes = 0;
  step_bytes = 0;
  ldm = 1;
  ldm_hash_log = 0;
  ldm_min_match = 0;
  ldm_bucket_log = 8;
  ldm_rate_log = 0;
}

zstd_apply_run : zstd_apply sample_decoder base target 3 ≡ done target
unfolding zstd_apply check_frame open_apply apply_loop apply_checks zcheck
zstd_apply_run = refl

zstd_apply-Decoding_example :
    (length target ≡ 3)
    × (length base ≤ raw_max)
    × (3 ≤ raw_max)
    × (length target ≤ payload_max)
    × ((ctx : ℕ) × (open_apply sample_decoder base ≡ done ctx)
        × Decoding sample_decoder ctx target target)
zstd_apply-Decoding_example = zstd_apply-Decoding sample_decoder base target 3 zstd_apply_run

zstd_apply-ne-diverges_example : zstd_apply sample_decoder base target 4 ≢ diverges
zstd_apply-ne-diverges_example = zstd_apply-ne-diverges sample_decoder base target 4

abbrev decompressed : Growable
decompressed = record { storage = target; size = 3 }

frame_decompress_run : frame_decompress allocates sample_decoder target 3 ≡ done decompressed
unfolding frame_decompress frame_loop frame_round open_round full_round open_frame zcheck spare
    resize grow_to reserve
frame_decompress_run = refl

frame_decompress-FrameDecoding_example :
    (length target ≤ 3)
    × (3 ≤ frame_max)
    × (0 < length target)
    × ((ctx : ℕ) × (open_frame allocates sample_decoder 3 ≡ done ctx)
        × FrameDecoding allocates sample_decoder ctx target target)
    × IsValid decompressed
frame_decompress-FrameDecoding_example =
    frame_decompress-FrameDecoding allocates sample_decoder target 3 frame_decompress_run

frame_decompress-ne-diverges_example : frame_decompress allocates sample_decoder target 2 ≢ diverges
frame_decompress-ne-diverges_example =
    frame_decompress-ne-diverges allocates sample_decoder target 2

abbrev small : Growable
small = record { storage = 1 ∷ 2 ∷ 0 ∷ []; size = 2 }

abbrev appended : Growable
appended = record { storage = 1 ∷ 2 ∷ 7 ∷ 8 ∷ 9 ∷ []; size = 5 }

append_run : append allocates target small ≡ done appended
unfolding append spare grow_to
append_run = refl

abbrev written : Growable
written = record { storage = 1 ∷ 7 ∷ 8 ∷ 9 ∷ []; size = 4 }

write_run : write allocates 8 1 target small ≡ done written
unfolding write extend resize spare grow_to
write_run = refl

write_lem_example :
    IsValid written × (4 ≤ 8) × (1 ≤ 2) × (contents written ≡ write_at 1 target (contents small))
write_lem_example = write_lem allocates 8 1 target small (omega arith) (omega arith) write_run

abbrev diff : Growable
diff = record { storage = 7 ∷ 8 ∷ 9 ∷ 9 ∷ []; size = 4 }

hdiff_encode_run : hdiff_encode allocates sample_library base target tuned ≡ done diff
unfolding hdiff_encode write_all write extend resize spare grow_to
hdiff_encode_run = refl

hdiff_encode_done_example :
    IsValid diff
    × (4 ≤ payload_max)
    × (contents diff ≡ replay (DiffLibrary.create_diff sample_library target base tuned).writes [])
    × ((DiffLibrary.create_diff sample_library target base tuned).thrown ≡ none)
hdiff_encode_done_example =
    hdiff_encode_done allocates sample_library base target tuned hdiff_encode_run

hdiff_apply_run : hdiff_apply allocates sample_library base target 3 ≡ done target
unfolding hdiff_apply check_info
hdiff_apply_run = refl

hdiff_apply-Fits_example :
    (length target ≡ 3)
    × (length base ≤ raw_max)
    × (3 ≤ raw_max)
    × (length target ≤ payload_max)
    × ((info : DiffInfo) × (DiffLibrary.diff_info sample_library target ≡ some info)
        × Fits allocates sample_library info base target 3)
hdiff_apply-Fits_example =
    hdiff_apply-Fits allocates sample_library sample_library-PatchKeepsSize base target 3
      hdiff_apply_run

zstd_encode_run :
    zstd_encode allocates sample_encoder base target tuned codec_limits ≡ done decompressed
unfolding zstd_encode open_encode encode_loop chunk_loop encode_call set_all append spare grow_to
    zcheck settings
zstd_encode_run = refl

zstd_encode-Encoding_example :
    (length base ≤ raw_max)
    × (length target ≤ raw_max)
    × IsWithin payload_max decompressed
    × ((c : Unit) × (open_encode allocates sample_encoder base target tuned ≡ done c)
        × Encoding sample_encoder chunk_size chunk_size c target target)
zstd_encode-Encoding_example =
    zstd_encode-Encoding allocates sample_encoder base target tuned codec_limits zstd_encode_run

zstd_encode-ne-diverges_example :
    zstd_encode allocates sample_encoder base target tuned codec_limits ≢ diverges
zstd_encode-ne-diverges_example =
    zstd_encode-ne-diverges allocates sample_encoder sample_encoder-MakesProgress base target tuned
      codec_limits

abbrev profile : HdiffOptions
profile = record {
  match_score = pos 6;
  level = pos 19;
  window_log = pos 23;
  fast_block_bytes = pos 1024;
  step_bytes = pos 262144;
  content_size = pos 1;
  checksum = pos 0;
}

hdiff_options-InHdiffRanges_example :
    (InHdiffRanges profile
      × ((out : Options) × (hdiff_options profile ≡ done out) × CarriesHdiff profile out))
    ⊎ ((¬ InHdiffRanges profile) × IsRefused (hdiff_options profile))
hdiff_options-InHdiffRanges_example = hdiff_options-InHdiffRanges profile

abbrev tuned_off : ZstdOptions
tuned_off = record {
  level = pos 3;
  window_log = pos 0;
  ldm = pos 2;
  content_size = pos 1;
  checksum = pos 1;
  ldm_hash_log = pos 0;
  ldm_min_match = pos 0;
  ldm_bucket_log = pos 4;
  ldm_rate_log = pos 0;
}

zstd_options_refused : zstd_options tuned_off ≡ throw (failure status_option)
unfolding zstd_options
zstd_options_refused = refl

zstd_options-InZstdRanges_example :
    (InZstdRanges tuned_off
      × KeepsLdmRules tuned_off
      × ((out : Options) × (zstd_options tuned_off ≡ done out) × CarriesZstd tuned_off out))
    ⊎ ((¬ (InZstdRanges tuned_off × KeepsLdmRules tuned_off)) × IsRefused (zstd_options tuned_off))
zstd_options-InZstdRanges_example = zstd_options-InZstdRanges tuned_off

phd_zstd_apply_run :
    phd_zstd_apply sample_decoder base target 3
    ≡ some (record { contents = some target; status = status_ok })
unfolding phd_zstd_apply apply_body boundary zstd_apply check_frame open_apply apply_loop
    apply_checks zcheck
phd_zstd_apply_run = refl

phd_zstd_decompress-Returns_example :
    Returns (λ t. length t ≤ 3) (phd_zstd_decompress allocates sample_decoder target 3)
phd_zstd_decompress-Returns_example = phd_zstd_decompress-Returns allocates sample_decoder target 3
