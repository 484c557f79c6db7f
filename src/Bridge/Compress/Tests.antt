-- ===== src/Bridge/Compress/Tests.antt =====
-- Runs of the compression plugin on a source of three bytes, with a codec that stores them.
use pyhdiff.Base.{
  ℕ, ◌+◌, ◌^◌, ◌≤◌, ◌≡◌, ◌≢◌, refl, true, false, ◌&&◌, none, some, [], ◌∷◌, Bytes, ◌++◌, length,
  take, drop, ◌==◌, leb, arith, if◌then◌else◌,
}
use pyhdiff.Bridge.Throw.{done, diverges}
use pyhdiff.Bridge.Zstd.{zcheck}
use pyhdiff.Bridge.Options.{Options}
use pyhdiff.Bridge.Growable.{Growable, append, spare, grow_to}
use pyhdiff.Bridge.Tuning.{settings}
use pyhdiff.Bridge.Encode.{
  zstd_encode, encode_loop, chunk_loop, encode_call, set_all, open_encode, codec_limits,
}
use pyhdiff.Bridge.Frame.{open_frame, window_for}
use pyhdiff.Bridge.Streams.{read}
use pyhdiff.Bridge.Decompress.{
  Plugin, refill, open_plugin, part_round, part_loop, decompress_part, close_loop, close,
}
use pyhdiff.Bridge.Decompress.Session.{opened, part}
use pyhdiff.Bridge.Compress.{
  Source, Sink, Put, accepted, refused, compress, compress_turn, turn_loop, source_loop,
  open_compress,
}
use pyhdiff.Bridge.Compress.Laws.{Reads, compress-ne-diverges}
use pyhdiff.Bridge.Pair.{Appends, window_of, frame_window, Session-compress}
use pyhdiff.Bridge.Copying.{copying, pair}
use pyhdiff.Bridge.Sample.{allocates, sample_encoder, sample_encoder-MakesProgress}

abbrev target : Bytes
target = 7 ∷ 8 ∷ 9 ∷ []

abbrev tuned : Options
tuned = record {
  level = 3;
  window_log = 20;
  workers = 0;
  content_size = 1;
  checksum = 0;
  match_score = 0;
  fast_block_bytes = 0;
  step_bytes = 0;
  ldm = 0;
  ldm_hash_log = 0;
  ldm_min_match = 0;
  ldm_bucket_log = 0;
  ldm_rate_log = 0;
}

abbrev source : Source
source = record {
  size = 3;
  read = λ at n. if leb (at + n) 3 then some (take n (drop at target)) else none;
}

source-Reads : Reads source target
source-Reads = record { same_size = refl; reads = λ at n h. ground arith }

-- A stream that holds what is written to it from its start on.
abbrev put_behind : ℕ → Bytes → ℕ → Bytes → Put Bytes
put_behind size s at b =
    if at == length s && leb (at + length b) size then accepted (s ++ b) else refused s

abbrev bounded : ℕ → Sink
bounded limit = record {
  State = Bytes;
  size = limit;
  write = put_behind limit;
  accepted-le = λ s at b e. ground arith;
}

abbrev appends : Appends (bounded 3)
appends = record { stored = λ s. s; appended = λ s b e. ground arith }

-- Two chunks, each in one call.
compress_run : compress allocates sample_encoder (bounded 3) 2 4 tuned source [] ≡ done (3, target)
unfolding compress open_compress source_loop turn_loop compress_turn set_all zcheck
compress_run = refl

-- The stream refuses what is beyond its size.
compress_refused :
    compress allocates sample_encoder (bounded 2) 2 4 tuned source [] ≡ done (0, 7 ∷ 8 ∷ [])
unfolding compress open_compress source_loop turn_loop compress_turn set_all zcheck
compress_refused = refl

compress-ne-diverges_example :
    compress allocates sample_encoder (bounded 2) 2 4 tuned source [] ≢ diverges
compress-ne-diverges_example =
    compress-ne-diverges allocates sample_encoder (bounded 2) 2 4 sample_encoder-MakesProgress
      (omega arith) (omega arith) tuned source target source-Reads []

abbrev frame : Growable
frame = record { storage = target; size = 3 }

abbrev diff : Bytes
diff = 1 ∷ 7 ∷ 8 ∷ 9 ∷ []

abbrev fresh : Plugin Unit
fresh = record {
  ctx = tt;
  source = diff;
  pos = 1;
  stop = 4;
  remaining = 3;
  input = [];
  at = 0;
  finished = false;
}

abbrev drained : Plugin Unit
drained = record fresh { ctx = tt; pos = 4; remaining = 0; input = target; at = 3; finished = true }

open_run : open_plugin copying 3 diff 1 4 ≡ done fresh
unfolding open_plugin
open_run = refl

part_run : decompress_part copying 3 fresh ≡ done (drained, target)
unfolding decompress_part part_loop part_round refill read zcheck
part_run = refl

close_run : close copying drained ≡ done true
unfolding close close_loop
close_run = refl

Session-compress_example : (length target ≡ 3) × (length target ≡ 3) × (target ≡ target)
Session-compress_example =
    Session-compress allocates sample_encoder copying pair (bounded 3) 2 4 tuned source target [] 3
      diff 1 4 appends source-Reads refl (omega arith) compress_run refl (omega arith) open_run
      (part 3 opened part_run) close_run

encode_run : zstd_encode allocates sample_encoder [] target tuned codec_limits ≡ done frame
unfolding zstd_encode open_encode encode_loop chunk_loop encode_call set_all append spare grow_to
    zcheck settings
encode_run = refl

open_run_frame : open_frame allocates copying 5 ≡ done tt
unfolding open_frame zcheck window_for
open_run_frame = refl

window_allowed : window_of copying target ≤ 2 ^ frame_window 5
unfolding window_for
window_allowed = omega arith
