-- ===== src/Extension/Stored.antt =====
-- Libraries whose codecs store the target, which the extension module decodes as it encoded them.
pub mod Framed
use pyhdiff.Base.{
  ℕ, zero, suc, ap₂, ◌+◌, ◌-◌, ◌≤◌, ◌<◌, ◌≡◌, refl, ap, ◌∙◌, min, Bool, true, false, ◌||◌, ◌&&◌,
  none, some, Option, [], ◌∷◌, Bytes, ◌++◌, length, take, drop, take-all, drop-all, ltb, leb, ◌==◌,
  ==_iff, arith, inl, inr, Bool-cases, if◌then◌else◌,
}
use mathlib.Core.List.{append-nil}
use pyhdiff.Status.{raw_max, payload_max, status_limit}
use pyhdiff.Api.Encode.{IsCodecPair}
use pyhdiff.Bridge.Throw.{done, done_through, require, require_ok, ◌>>=◌}
use pyhdiff.Bridge.Zstd.{Decoder, Code, Step, value, error, zcheck, zcheck_ok}
use pyhdiff.Bridge.Options.{Options}
use pyhdiff.Bridge.Growable.{Growable, contents}
use pyhdiff.Bridge.Hdiff.{
  DiffInfo, DiffLibrary, uncompressed, patched, check_info, hdiff_encode, hdiff_apply,
}
use pyhdiff.Bridge.Hdiff.Laws.{replay, hdiff_encode_done}
use pyhdiff.Bridge.Apply.{
  created, chunk_size, apply_call, apply_checks, apply_loop, check_frame, open_apply, zstd_apply,
}
use pyhdiff.Bridge.Encode.{Encoder, set_all, open_encode, zstd_encode, codec_limits}
use pyhdiff.Bridge.Tuning.{settings}
use pyhdiff.Bridge.Encode.Laws.{zstd_encode-Encoding}
use pyhdiff.Bridge.Sample.{allocates}
use pyhdiff.Bridge.Copying.{
  copying, storing, Encoding-stores, copied_size, copied_code, copied_code_moved,
}
use pyhdiff.Extension.{Libraries, native}
use pyhdiff.Extension.Codecs.{native-IsCodecPair}

-- The compressor takes a source of one chunk only.
abbrev pub one_chunk : ℕ → Code
one_chunk n = if n == 0 || ltb chunk_size n then error 72 else value 0

one_chunk_ok : (n r : ℕ) → one_chunk n ≡ value r → (0 < n) × (n ≤ chunk_size)
one_chunk_ok n r e = elim (Bool-cases (n == 0 || ltb chunk_size n)) [
  | inl c ↦ absurd (error-ne-value (rw c at e))
  | inr c ↦ (ground arith, ground arith)
]
  where
    error-ne-value : {m k : ℕ} → ¬ (error m ≡ value k)
    error-ne-value e = cc

-- A diff is the size of the base and then the target.
abbrev stored_info : Bytes → Option DiffInfo
stored_info [] = none
stored_info (old ∷ t) = some (record {
  old_size = old;
  new_size = length t;
  step_size = 0;
  uncompressed_size = length t;
  compressed_size = 0;
  diff_pos = 1;
  compress_type = uncompressed;
})

abbrev stored_library : DiffLibrary
stored_library = record {
  create_diff = λ target base o. record {
    writes = record { at = 0; bytes = length base ∷ target } ∷ [];
    thrown = none;
  };
  diff_info = stored_info;
  patch = λ base diff info plugin n. patched true (drop 1 diff);
  stream_cache_size = 256;
}

abbrev pub stored_libraries : Libraries
stored_libraries = record {
  alloc = allocates;
  alloc_bytes = allocates;
  diff = stored_library;
  decoder = copying;
  encoder = storing one_chunk;
}

-- The compressor took the size of the source.
open_encode_pledged :
    (alloc : ℕ → Bool) (E : Encoder) (base target : Bytes) (o : Options) {c : Encoder.Ctx E}
    → open_encode alloc E base target o ≡ done c
    → (set : Encoder.Ctx E) × (r : ℕ) × ((Encoder.set_pledged_size E set (length target)).1
        ≡ value r)
unfolding open_encode
open_encode_pledged alloc E base target o e =
    let ps = settings (Encoder.presets E) o (length base) (length target) in
    let (fresh, _, e₁) = done_through (created (Encoder.create E)) _ e in
    let (set, _, e₂) = done_through (set_all alloc E ps fresh) _ e₁ in
    let (r, z, _) =
      done_through
        (zcheck (Encoder.memory_allocation E) (Encoder.set_pledged_size E set (length target)).1) _
        e₂ in
    (set, r, zcheck_ok _ _ z)

pub open_encode-one_chunk :
    (base target : Bytes) (o : Options) {c : Unit}
    → open_encode allocates (storing one_chunk) base target o ≡ done c
    → (0 < length target) × (length target ≤ chunk_size)
open_encode-one_chunk base target o e =
    let (_, r, z) = open_encode_pledged allocates (storing one_chunk) base target o e in
    one_chunk_ok (length target) r z

abbrev called : Bytes → ℕ → Code → Step Unit
called t n c = record { ctx = tt; consumed = n; produced = take n t; code = c }

copying_call :
    (t : Bytes)
    → 0 < length t
    → Decoder.decompress_stream copying tt t (length t)
      ≡ record { ctx = tt; consumed = length t; produced = t; code = value 0 }
copying_call t some' =
    let whole : copied_size t (length t) ≡ length t = omega arith in
    let none_left : length t - length t ≡ 0 = omega arith in
    let all = take-all (length t) t (omega arith) in
    let code = copied_code_moved (length t) (length t) some' ∙ ap value none_left in
    ap₂ (called t) whole (ap (λ n. copied_code n (length t)) whole ∙ code)
    ∙ ap (λ b. record { ctx = tt; consumed = length t; produced = b; code = value 0 }) all

copying_whole :
    (t : Bytes)
    → 0 < length t
    → length t ≤ chunk_size
    → apply_call copying tt t 0 0 (length t)
      ≡ record { ctx = tt; consumed = length t; produced = t; code = value 0 }
copying_whole t some' small =
    let room = min chunk_size (length t - 0) in
    let has_room : (room == 0) ≡ false = ground arith in
    let room_is : (if room == 0 then 1 else room) ≡ length t = rw has_room (omega arith) in
    ap₂ (λ b r. Decoder.decompress_stream copying tt b r) (take-all chunk_size t small) room_is
    ∙ copying_call t some'

apply_loop-copying :
    (fuel : ℕ) (t : Bytes)
    → 0 < fuel
    → 0 < length t
    → length t ≤ chunk_size
    → apply_loop copying fuel tt t (length t) 0 [] ≡ done (length t, t)
unfolding apply_loop apply_checks zcheck
apply_loop-copying zero t h some' small = absurd (omega arith)
apply_loop-copying (suc fuel) t h some' small =
    let fits_whole : leb (length t) (length t - 0) ≡ true = ground arith in
    ap
      (λ (s : Step Unit). apply_checks copying s 0 (length t) >>= λ remaining. elim remaining [
        | zero ↦ done (0 + s.consumed, [] ++ s.produced)
        | suc more ↦ apply_loop copying fuel s.ctx t (length t) (0 + s.consumed) ([] ++ s.produced)
      ])
      (copying_whole t some' small)
    ∙ rw fits_whole (ap (λ (n : ℕ). done (n, t)) (omega arith))

zstd_apply-copying :
    (base t : Bytes)
    → length base ≤ raw_max
    → 0 < length t
    → length t ≤ chunk_size
    → zstd_apply copying base t (length t) ≡ done t
unfolding zstd_apply check_frame open_apply zcheck
zstd_apply-copying base t hb some' small =
    let limits : (leb (length base) raw_max && leb (length t) raw_max && leb (length t) payload_max)
        ≡ true =
      ground arith in
    let same = (==_iff (length t) (length t)).1 refl in
    rw (limits, apply_loop-copying (length t + length t + 1) t (omega arith) some' small, same) refl

stored_zstd :
    (base target : Bytes) (o : Options) {g : Growable}
    → zstd_encode allocates (storing one_chunk) base target o codec_limits ≡ done g
    → zstd_apply copying base (contents g) (length target) ≡ done target
stored_zstd base target o e =
    let (hb, _, _, (c, opened, run)) =
      zstd_encode-Encoding allocates (storing one_chunk) base target o codec_limits e in
    let (some', small) = open_encode-one_chunk base target o opened in
    let same = Encoding-stores one_chunk chunk_size chunk_size run in
    rw same (zstd_apply-copying base target hb some' small)

hdiff_apply-stored :
    (base t : Bytes)
    → length base ≤ raw_max
    → length t ≤ raw_max
    → hdiff_apply allocates stored_library base (length base ∷ t) (length t) ≡ done t
unfolding hdiff_apply check_info
hdiff_apply-stored base t hb ht =
    let limits : (leb (length base) raw_max
          && leb (length t) raw_max
          && leb (suc (length t)) payload_max)
        ≡ true =
      ground arith in
    let same_base = (==_iff (length base) (length base)).1 refl in
    let same = (==_iff (length t) (length t)).1 refl in
    let payload : leb (length t) payload_max ≡ true = ground arith in
    let starts : leb 1 (suc (length t)) ≡ true = ground arith in
    let rest : (length t == suc (length t) - 1) ≡ true = ground arith in
    rw (limits, same_base, same, payload, starts, rest) refl

hdiff_encode_bounds :
    (base target : Bytes) (o : Options) {g : Growable}
    → hdiff_encode allocates stored_library base target o ≡ done g
    → (length base ≤ raw_max) × (length target ≤ raw_max)
unfolding hdiff_encode
hdiff_encode_bounds base target o e =
    let (_, q, _) =
      done_through (require (leb (length base) raw_max && leb (length target) raw_max) status_limit)
        _ e in
    let ok' = require_ok _ _ q in (ground arith, ground arith)

replay_one : (b : Bytes) → replay (record { at = 0; bytes = b } ∷ []) [] ≡ b
unfolding replay
replay_one b = ap (λ r. b ++ r) (drop-all (0 + length b) [] (omega arith)) ∙ append-nil b

stored_hdiff :
    (base target : Bytes) (o : Options) {g : Growable}
    → hdiff_encode allocates stored_library base target o ≡ done g
    → hdiff_apply allocates stored_library base (contents g) (length target) ≡ done target
stored_hdiff base target o e =
    let (hb, ht) = hdiff_encode_bounds base target o e in
    let (_, _, same, _) = hdiff_encode_done allocates stored_library base target o e in
    rw (same ∙ replay_one (length base ∷ target)) (hdiff_apply-stored base target hb ht)

-- The codecs of the extension module, over these libraries, decode what they encode.
pub stored-IsCodecPair : IsCodecPair (native stored_libraries)
stored-IsCodecPair =
    native-IsCodecPair stored_libraries
      (record { loud = λ b t o g. tt; hdiff_decodes = stored_hdiff; zstd_decodes = stored_zstd })
      (λ n. refl)
