-- ===== src/Bridge/Tuning.antt =====
-- The parameters that `zstd_encode` of src/native/bridge.cpp sets, in order.
pub mod Laws
use pyhdiff.Base.{
  ℕ, zero, suc, ◌+◌, ◌-◌, ◌/◌, ◌%◌, ◌^◌, min, max, Bool, true, false, not, ◌&&◌, ◌||◌, List, [],
  ◌∷◌, ◌++◌, ltb, leb, ◌==◌, if◌then◌else◌,
}
use pyhdiff.Bridge.Options.{Options}

-- `ZSTD_cParameter`, as far as the bridge sets it.
pub data Parameter : Type 0 where
  compression_level nb_workers content_size_flag checksum_flag window_log : Parameter
  enable_ldm ldm_hash_log ldm_min_match ldm_bucket_size_log ldm_hash_rate_log : Parameter

-- What the bridge reads of `ZSTD_compressionParameters`.
pub record CParams : Type 0 where
  pub window_log : ℕ
  pub chain_log : ℕ
  pub strategy : ℕ

-- `ZSTD_getCParams`, `ZSTD_adjustCParams` and the number of `ZSTD_btlazy2`.
pub record Presets : Type 0 where
  pub get_cparams : ℕ → ℕ → ℕ → CParams
  pub adjust_cparams : CParams → ℕ → ℕ → CParams
  pub btlazy2 : ℕ

abbrev pub clamp : ℕ → ℕ → ℕ → ℕ
clamp v low high = max low (min v high)

-- `for (size_t n = tn; n; n >>= 1) ++log;` on fuel: a `size_t` has 64 bits.
unfoldable pub log_loop : ℕ → ℕ → ℕ → ℕ
log_loop zero n log = log
log_loop (suc fuel) n log =
    let more = log_loop fuel (n / 2) (log + 1) in if n == 0 then log else more

unfoldable pub log_of : ℕ → ℕ
unfolding log_loop
log_of n = log_loop 64 n 0

-- The window and the LDM switch that are set.
pub record Window : Type 0 where
  pub log : ℕ
  pub ldm : ℕ

-- `p.chainLog - (p.strategy >= ZSTD_btlazy2)`, on 32 bits.
abbrev pub chain_bound : Presets → CParams → ℕ
chain_bound P p = (p.chain_log + 2 ^ 32 - (if leb P.btlazy2 p.strategy then 1 else 0)) % 2 ^ 32

-- An automatic window for a nonempty base follows the target's size.
abbrev pub auto_window : Presets → Options → ℕ → ℕ → Window
auto_window P o base_size target_size = record {
  log = clamp (log_of target_size) 10 30;
  ldm =
      if o.ldm == 0
        && ltb (chain_bound P (P.get_cparams o.level target_size base_size)) (log_of target_size)
      then 1
      else o.ldm;
}

unfoldable pub window_of : Presets → Options → ℕ → ℕ → Window
window_of P o base_size target_size =
    if not (base_size == 0) && o.window_log == 0
    then auto_window P o base_size target_size
    else if not (base_size == 0) && o.ldm == 0
    then record { log = o.window_log; ldm = 1 }
    else record { log = o.window_log; ldm = o.ldm }

-- The parameters from which an automatic hash log is taken.
abbrev pub hash_params : Presets → Options → Window → ℕ → ℕ → CParams
hash_params P o w base_size target_size =
    P.adjust_cparams
      (record (P.get_cparams o.level target_size base_size) {
        window_log = if w.log == 0 then 27 else w.log;
      })
      (max target_size 1) base_size

-- `clamp(windowLog - rate, 6, 30)`, where the automatic rate is `7 - strategy / 3`. A difference
-- below 0 is clamped to 6, as 0 is.
abbrev pub resolved_hash_log : CParams → ℕ → ℕ
resolved_hash_log p rate =
    clamp (if rate == 0 then p.window_log + p.strategy / 3 - 7 else p.window_log - rate) 6 30

unfoldable pub hash_log_of : Presets → Options → Window → ℕ → ℕ → ℕ
hash_log_of P o w base_size target_size =
    if o.ldm_hash_log == 0 && (not (o.ldm_bucket_log == 0) || not (o.ldm_rate_log == 0))
    then max o.ldm_bucket_log
        (resolved_hash_log (hash_params P o w base_size target_size) o.ldm_rate_log)
    else o.ldm_hash_log

-- `if (v) set(p, v);`
abbrev pub set_if : Parameter → ℕ → List (Parameter × ℕ)
set_if p v = if v == 0 then [] else (p, v) ∷ []

unfoldable pub settings : Presets → Options → ℕ → ℕ → List (Parameter × ℕ)
unfolding window_of hash_log_of
settings P o base_size target_size =
    let w = window_of P o base_size target_size in
    ((compression_level, o.level)
      ∷ (nb_workers, o.workers)
      ∷ (content_size_flag, o.content_size)
      ∷ (checksum_flag, o.checksum)
      ∷ [])
    ++ set_if window_log w.log
    ++ set_if enable_ldm w.ldm
    ++ set_if ldm_hash_log (hash_log_of P o w base_size target_size)
    ++ set_if ldm_min_match o.ldm_min_match
    ++ set_if ldm_bucket_size_log o.ldm_bucket_log
    ++ set_if ldm_hash_rate_log o.ldm_rate_log
