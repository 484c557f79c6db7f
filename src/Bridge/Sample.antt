-- ===== src/Bridge/Sample.antt =====
-- Libraries to run the model of the bridge with: codecs that store three bytes as they are.
use pyhdiff.Base.{
  ℕ, ◌-◌, min, Bool, true, false, some, none, [], ◌∷◌, Bytes, ◌++◌, length, take, replicate,
  length-take, length-append, length-replicate, arith,
}
use pyhdiff.Bridge.Zstd.{Decoder, value, content_size_unknown}
use pyhdiff.Bridge.Hdiff.{DiffLibrary, PatchKeepsSize, patched, uncompressed}
use pyhdiff.Bridge.Tuning.{CParams, Presets}
use pyhdiff.Bridge.Encode.{Encoder}
use pyhdiff.Bridge.Encode.Run.{MakesProgress}

abbrev pub allocates : ℕ → Bool
allocates n = true

-- A frame is three bytes long, and the context counts what is left of it.
abbrev stored : ℕ → Bytes → ℕ → ℕ
stored left src room = min left (min (length src) room)

abbrev pub sample_decoder : Decoder
sample_decoder = record {
  Ctx = ℕ;
  create = some 3;
  set_window_log_max = λ left log. (left, value 0);
  ref_prefix = λ left base. (left, value 0);
  decompress_stream = λ left src room. record {
    ctx = left - stored left src room;
    consumed = stored left src room;
    produced = take (stored left src room) src;
    code = value (left - stored left src room);
  };
  frame_header = λ src. (
    record { is_frame = true; window_size = 1024; content_size = content_size_unknown },
    value 0,
  );
  frame_content_size = λ src. content_size_unknown;
  memory_allocation = 64;
  consumed-le = λ left src room. omega arith;
  produced-le = λ left src room. omega (arith, length-take (stored left src room) src);
}

abbrev pub sample_library : DiffLibrary
sample_library = record {
  create_diff = λ target base o. record {
    writes = record { at = 0; bytes = 0 ∷ target } ∷ record { at = 0; bytes = target } ∷ [];
    thrown = none;
  };
  diff_info = λ diff. some (record {
    old_size = 2;
    new_size = 3;
    step_size = 4096;
    uncompressed_size = 3;
    compressed_size = 0;
    diff_pos = 0;
    compress_type = uncompressed;
  });
  patch = λ base diff info plugin n. patched true (take n (diff ++ replicate n 0));
  stream_cache_size = 256;
}

pub sample_library-PatchKeepsSize : PatchKeepsSize sample_library
sample_library-PatchKeepsSize base diff info plugin n = omega (
  arith,
  length-take n (diff ++ replicate n 0),
  length-append diff (replicate n 0),
  length-replicate {A = ℕ} n 0,
)

abbrev sample_cparams : CParams
sample_cparams = record { window_log = 20; chain_log = 16; strategy = 2 }

abbrev pub sample_presets : Presets
sample_presets = record {
  get_cparams = λ level target base. sample_cparams;
  adjust_cparams = λ p target base. p;
  btlazy2 = 6;
}

abbrev pub sample_encoder : Encoder
sample_encoder = record {
  Ctx = Unit;
  create = some tt;
  set_parameter = λ c p v. (tt, value 0);
  set_pledged_size = λ c n. (tt, value 0);
  ref_prefix = λ c base. (tt, value 0);
  compress_stream = λ c src room end. record {
    ctx = tt;
    consumed = min (length src) room;
    produced = take (min (length src) room) src;
    code = value (length src - min (length src) room);
  };
  presets = sample_presets;
  memory_allocation = 64;
  consumed-le = λ c src room end. omega arith;
  produced-le = λ c src room end. omega (arith, length-take (min (length src) room) src);
}

pub sample_encoder-MakesProgress : MakesProgress sample_encoder
sample_encoder-MakesProgress c src room true n h e more =
    ground (arith, length-take (min (length src) room) src)
sample_encoder-MakesProgress c src room false n h e more =
    ground (arith, length-take (min (length src) room) src)
