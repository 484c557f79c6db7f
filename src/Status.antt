-- ===== src/Status.antt =====
-- src/native/bridge.h: the limits and the status codes that the bridge, the C extension and the
-- Python module share.
use pyhdiff.Base.{ℕ, ◌-◌, ◌*◌}

abbrev pub raw_max : ℕ
raw_max = 256 * 1024 * 1024

abbrev pub payload_max : ℕ
payload_max = 512 * 1024 * 1024 - 96

abbrev pub step_max : ℕ
step_max = 256 * 1024

abbrev pub hdiff_window_log_max : ℕ
hdiff_window_log_max = 23

abbrev pub zstd_window_log_max : ℕ
zstd_window_log_max = 30

abbrev pub frame_max : ℕ
frame_max = 1024 * 1024 * 1024

-- `phd_status`. An error of zstd is `zstd_error_base` plus its number.
abbrev pub Status : Type 0
Status = ℕ

abbrev pub status_ok : Status
status_ok = 0

abbrev pub status_invalid : Status
status_invalid = 1

abbrev pub status_limit : Status
status_limit = 2

abbrev pub status_alloc : Status
status_alloc = 3

abbrev pub status_exception : Status
status_exception = 4

abbrev pub status_unknown : Status
status_unknown = 5

abbrev pub status_option : Status
status_option = 6

abbrev pub status_cancelled : Status
status_cancelled = 7

abbrev pub zstd_error_base : Status
zstd_error_base = 1000
