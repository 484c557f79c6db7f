-- ===== src/Bridge/Options.antt =====
-- The option ranges of src/native/bridge.cpp: `within`, `automatic_or`, `hdiff_options`,
-- `zstd_options`. A C `int` is an integer here; the extension module has checked its range.
pub mod Ranges
pub mod Ldm
use pyhdiff.Base.{ℕ, Bool, false, not, ◌&&◌, ◌||◌, leb, ◌==◌}
use pyhdiff.Base.Int.{ℤ, pos, negsuc}
use pyhdiff.Status.{status_option, hdiff_window_log_max, zstd_window_log_max}
use pyhdiff.Bridge.Throw.{Cpp, done, require, ◌>>◌}

-- `phd_hdiff_options`
pub record HdiffOptions : Type 0 where
  pub match_score : ℤ
  pub level : ℤ
  pub window_log : ℤ
  pub fast_block_bytes : ℤ
  pub step_bytes : ℤ
  pub content_size : ℤ
  pub checksum : ℤ

-- `phd_zstd_options`
pub record ZstdOptions : Type 0 where
  pub level : ℤ
  pub window_log : ℤ
  pub ldm : ℤ
  pub content_size : ℤ
  pub checksum : ℤ
  pub ldm_hash_log : ℤ
  pub ldm_min_match : ℤ
  pub ldm_bucket_log : ℤ
  pub ldm_rate_log : ℤ

-- `Options`, the one option set of both codecs.
pub record Options : Type 0 where
  pub level : ℕ
  pub window_log : ℕ
  pub workers : ℕ
  pub content_size : ℕ
  pub checksum : ℕ
  pub match_score : ℕ
  pub fast_block_bytes : ℕ
  pub step_bytes : ℕ
  pub ldm : ℕ
  pub ldm_hash_log : ℕ
  pub ldm_min_match : ℕ
  pub ldm_bucket_log : ℕ
  pub ldm_rate_log : ℕ

abbrev pub within : ℤ → ℕ → ℕ → Bool
within (pos v) low high = leb low v && leb v high
within (negsuc v) low high = false

abbrev pub is_zero : ℤ → Bool
is_zero (pos v) = v == 0
is_zero (negsuc v) = false

abbrev pub automatic_or : ℤ → ℕ → ℕ → Bool
automatic_or v low high = is_zero v || within v low high

-- The value of an `int` that a range check has let pass.
abbrev pub natural : ℤ → ℕ
natural (pos v) = v
natural (negsuc v) = 0

unfoldable pub hdiff_ranges : HdiffOptions → Bool
hdiff_ranges o =
    within o.match_score 0 64
    && within o.level 1 22
    && within o.window_log 10 hdiff_window_log_max
    && automatic_or o.fast_block_bytes 4 1048576
    && within o.step_bytes 4096 262144
    && within o.content_size 0 1
    && within o.checksum 0 1

-- The option set that `hdiff_options` returns.
abbrev pub carried_hdiff : HdiffOptions → Options
carried_hdiff o = record {
  level = natural o.level;
  window_log = natural o.window_log;
  workers = 0;
  content_size = natural o.content_size;
  checksum = natural o.checksum;
  match_score = natural o.match_score;
  fast_block_bytes = natural o.fast_block_bytes;
  step_bytes = natural o.step_bytes;
  ldm = 0;
  ldm_hash_log = 0;
  ldm_min_match = 0;
  ldm_bucket_log = 0;
  ldm_rate_log = 0;
}

unfoldable pub hdiff_options : HdiffOptions → Cpp Options
unfolding hdiff_ranges
hdiff_options o = do require (hdiff_ranges o) status_option; done (carried_hdiff o)

zstd_ranges : ZstdOptions → Bool
zstd_ranges o =
    within o.level 1 22
    && automatic_or o.window_log 10 zstd_window_log_max
    && within o.ldm 0 2
    && within o.content_size 0 1
    && within o.checksum 0 1
    && automatic_or o.ldm_hash_log 6 23
    && automatic_or o.ldm_min_match 4 4096
    && automatic_or o.ldm_bucket_log 1 8
    && automatic_or o.ldm_rate_log 1 24

-- Some LDM value is not automatic.
abbrev pub is_tuned : ZstdOptions → Bool
is_tuned o =
    not (is_zero o.ldm_hash_log)
    || not (is_zero o.ldm_min_match)
    || not (is_zero o.ldm_bucket_log)
    || not (is_zero o.ldm_rate_log)

-- `!o.ldm_hash_log || o.ldm_bucket_log <= o.ldm_hash_log`
bucket_fits : ZstdOptions → Bool
bucket_fits o = is_zero o.ldm_hash_log || leb (natural o.ldm_bucket_log) (natural o.ldm_hash_log)

-- LDM values want LDM on.
tuning_allowed : ZstdOptions → Bool
tuning_allowed o = within o.ldm 1 1 || not (is_tuned o)

-- The option set that `zstd_options` returns.
abbrev pub carried_zstd : ZstdOptions → Options
carried_zstd o = record {
  level = natural o.level;
  window_log = natural o.window_log;
  workers = 0;
  content_size = natural o.content_size;
  checksum = natural o.checksum;
  match_score = 0;
  fast_block_bytes = 0;
  step_bytes = 0;
  ldm = natural o.ldm;
  ldm_hash_log = natural o.ldm_hash_log;
  ldm_min_match = natural o.ldm_min_match;
  ldm_bucket_log = natural o.ldm_bucket_log;
  ldm_rate_log = natural o.ldm_rate_log;
}

unfoldable pub zstd_options : ZstdOptions → Cpp Options
unfolding zstd_ranges bucket_fits tuning_allowed
zstd_options o = do
  require (zstd_ranges o) status_option
  require (bucket_fits o) status_option
  require (tuning_allowed o) status_option
  done (carried_zstd o)
