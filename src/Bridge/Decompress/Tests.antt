-- ===== src/Bridge/Decompress/Tests.antt =====
-- A session of the plugin on a frame of three bytes that stands inside a diff.
use pyhdiff.Base.{
  ℕ, ◌-◌, ◌≡◌, ◌≢◌, refl, true, false, [], ◌∷◌, Bytes, ◌++◌, length, take, drop, arith,
}
use pyhdiff.Bridge.Throw.{done, throw, failure, diverges}
use pyhdiff.Bridge.Zstd.{zcheck}
use pyhdiff.Bridge.Streams.{read}
use pyhdiff.Status.{status_invalid}
use pyhdiff.Bridge.Sample.{sample_decoder}
use pyhdiff.Bridge.Decompress.{
  Plugin, refill, open_plugin, part_round, part_loop, decompress_part, close_loop, close,
}
use pyhdiff.Bridge.Decompress.View.{IsValid, Feeds}
use pyhdiff.Bridge.Decompress.Session.{
  Session, opened, part, Reached, Session-Reached, Session-close, Session-ends,
}

abbrev diff : Bytes
diff = 1 ∷ 7 ∷ 8 ∷ 9 ∷ []

abbrev whole : Bytes
whole = 7 ∷ 8 ∷ 9 ∷ []

abbrev fresh : Plugin ℕ
fresh = record {
  ctx = 3;
  source = diff;
  pos = 1;
  stop = 4;
  remaining = 3;
  input = [];
  at = 0;
  finished = false;
}

abbrev halfway : Plugin ℕ
halfway = record fresh { ctx = 1; pos = 4; remaining = 1; input = 7 ∷ 8 ∷ 9 ∷ []; at = 2 }

abbrev drained : Plugin ℕ
drained = record halfway { ctx = 0; remaining = 0; at = 3; finished = true }

open_run : open_plugin sample_decoder 3 diff 1 4 ≡ done fresh
unfolding open_plugin
open_run = refl

first_part : decompress_part sample_decoder 2 fresh ≡ done (halfway, 7 ∷ 8 ∷ [])
unfolding decompress_part part_loop part_round refill read zcheck
first_part = refl

second_part : decompress_part sample_decoder 1 halfway ≡ done (drained, 9 ∷ [])
unfolding decompress_part part_loop part_round refill read zcheck
second_part = refl

-- Output beyond the stated size is refused.
third_part : decompress_part sample_decoder 1 drained ≡ throw (failure status_invalid)
unfolding decompress_part
third_part = refl

close_run : close sample_decoder drained ≡ done true
unfolding close close_loop
close_run = refl

session : Session sample_decoder fresh ((([]) ++ 7 ∷ 8 ∷ []) ++ 9 ∷ []) drained
session = part 1 (part 2 opened first_part) second_part

fresh-IsValid : IsValid fresh
fresh-IsValid = record {
  source_order = omega arith;
  source_end = omega arith;
  input_order = omega arith;
  input_size = omega arith;
}

Session-Reached_example : Reached sample_decoder fresh whole drained
Session-Reached_example = Session-Reached sample_decoder fresh-IsValid session

Session-close_example :
    (length whole ≡ 3)
    × ((c : ℕ) × Feeds sample_decoder
          (record { ctx = 3; rest = take (4 - 1) (drop 1 diff); finished = false })
          whole
          (record { ctx = c; rest = []; finished = true }))
Session-close_example = Session-close sample_decoder 3 diff 1 4 open_run session close_run

Session-ends_example :
    ((size : ℕ) → decompress_part sample_decoder size drained ≢ diverges)
    × (close sample_decoder drained ≢ diverges)
Session-ends_example = Session-ends sample_decoder fresh-IsValid session
