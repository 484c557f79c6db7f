-- ===== src/Bridge/Pair.antt =====
-- Encoders and decoders of src/native/bridge.cpp together: a frame of `zstd_encode` through
-- `frame_decompress`, and the compression plugin through the decompression plugin.
use mathlib.Core.Path.{subst}
use mathlib.Core.List.{append_assoc, append-nil}
use pyhdiff.Base.{
  ℕ, ◌-◌, ◌≡◌, ◌<◌, refl, sym, ap, ◌∙◌, Bool, true, false, Option, some, List, [], Bytes, length,
  length-append, ◌++◌, take, drop, arith, ◌^◌, ==_iff, ◌≤◌, ◌&&◌, leb, max,
}
use pyhdiff.Status.{hdiff_window_log_max, frame_max, payload_max, status_invalid}
use pyhdiff.Bridge.Throw.{done, done_through, done-injective, require}
use pyhdiff.Bridge.Zstd.{Decoder, value, zcheck, zcheck_ok}
use pyhdiff.Bridge.Apply.{created, chunk_size}
use pyhdiff.Bridge.Options.{Options}
use pyhdiff.Bridge.Growable.{Growable, contents}
use pyhdiff.Bridge.Hdiff.{cache_allocated}
use pyhdiff.Bridge.Tuning.{Parameter, settings}
use pyhdiff.Bridge.Encode.{Encoder, Limits, set_all, open_encode, zstd_encode}
use pyhdiff.Bridge.Encode.Run.{Encoding}
use pyhdiff.Bridge.Encode.Laws.{zstd_encode-Encoding}
use pyhdiff.Bridge.Frame.{window_for, open_frame, frame_decompress}
use pyhdiff.Bridge.Frame.Accepts.{Accepts}
use pyhdiff.Bridge.Frame.Whole.{frame_decompress_whole}
use pyhdiff.Bridge.Decompress.{Plugin, open_plugin, close}
use pyhdiff.Bridge.Decompress.View.{View, Feeds, fed, feed}
use pyhdiff.Bridge.Decompress.Session.{Session, Session-close}
use pyhdiff.Bridge.Compress.{accepted, Source, Sink, plugin_settings, open_compress, compress}
use pyhdiff.Bridge.Compress.Calls.{Wrote, nothing, piece}
use pyhdiff.Bridge.Compress.Laws.{Reads, compress-Encoding}

created-some : {A : Type 0} (o : Option A) {a : A} → created o ≡ done a → o ≡ some a
created-some o e = ground arith

false-ne-true : ¬ (false ≡ true)
false-ne-true e = cc

module _ (alloc : ℕ → Bool) (E : Encoder) where
  -- A context of the compressor with some parameters and the size of its source set, and no prefix
  -- or an empty one.
  pub data IsReady (n : ℕ) : Encoder.Ctx E → Type 0 where
    pledged :
        (fresh set : Encoder.Ctx E) (ps : List (Parameter × ℕ)) (r : ℕ)
        → Encoder.create E ≡ some fresh
        → set_all alloc E ps fresh ≡ done set
        → (Encoder.set_pledged_size E set n).1 ≡ value r
        → IsReady n (Encoder.set_pledged_size E set n).0
    no_prefix :
        (c : Encoder.Ctx E) (r : ℕ)
        → IsReady n c
        → (Encoder.ref_prefix E c []).1 ≡ value r
        → IsReady n (Encoder.ref_prefix E c []).0

  open_encode-IsReady :
      (target : Bytes) (o : Options) {c : Encoder.Ctx E}
      → open_encode alloc E [] target o ≡ done c
      → IsReady (length target) c
  unfolding open_encode
  open_encode-IsReady target o e =
      let ps = settings (Encoder.presets E) o 0 (length target) in
      let (fresh, x, e₁) = done_through (created (Encoder.create E)) _ e in
      let (set, y, e₂) = done_through (set_all alloc E ps fresh) _ e₁ in
      let c = (Encoder.set_pledged_size E set (length target)).0 in
      let (r, z, e₃) =
        done_through
          (zcheck (Encoder.memory_allocation E) (Encoder.set_pledged_size E set (length target)).1)
          _ e₂ in
      let (q, w, e₄) =
        done_through (zcheck (Encoder.memory_allocation E) (Encoder.ref_prefix E c []).1) _ e₃ in
      subst (IsReady (length target)) (done-injective e₄) (
        no_prefix c q (pledged fresh set ps r (created-some _ x) y (zcheck_ok _ _ z))
          (zcheck_ok _ _ w))

  open_compress-IsReady :
      (K : Sink) (in_size out_size : ℕ) (o : Options) (n : ℕ) {c : Encoder.Ctx E}
      → open_compress alloc E K in_size out_size o n ≡ done c
      → IsReady n c
  unfolding open_compress
  open_compress-IsReady K in_size out_size o n e =
      let (fresh, x, e₁) = done_through (created (Encoder.create E)) _ e in
      let (_, _, e₂) = done_through (cache_allocated (alloc in_size)) _ e₁ in
      let (_, _, e₃) = done_through (cache_allocated (alloc out_size)) _ e₂ in
      let (set, y, e₄) = done_through (set_all alloc E (plugin_settings o) fresh) _ e₃ in
      let (r, z, e₅) =
        done_through (zcheck (Encoder.memory_allocation E) (Encoder.set_pledged_size E set n).1) _
          e₄ in
      subst (IsReady n) (done-injective e₅)
        (pledged fresh set (plugin_settings o) r (created-some _ x) y (zcheck_ok _ _ z))

-- A context of the decoder as `open_frame` and the plugin make it, which took the largest window log.
pub data IsOpen (D : Decoder) (log : ℕ) : Decoder.Ctx D → Type 0 where
  windowed :
      (fresh : Decoder.Ctx D) (r : ℕ)
      → Decoder.create D ≡ some fresh
      → (Decoder.set_window_log_max D fresh log).1 ≡ value r
      → IsOpen D log (Decoder.set_window_log_max D fresh log).0

abbrev pub frame_window : ℕ → ℕ
frame_window m = max (window_for m) 23

open_frame-IsOpen :
    (alloc : ℕ → Bool) (D : Decoder) (m : ℕ) {d : Decoder.Ctx D}
    → open_frame alloc D m ≡ done d
    → IsOpen D (frame_window m) d
unfolding open_frame
open_frame-IsOpen alloc D m e =
    let log = frame_window m in
    let (fresh, x, e₁) = done_through (created (Decoder.create D)) _ e in
    let (r, z, e₂) =
      done_through (zcheck (Decoder.memory_allocation D) (Decoder.set_window_log_max D fresh log).1)
        _ e₁ in
    subst (IsOpen D log) (done-injective e₂) (windowed fresh r (created-some _ x) (zcheck_ok _ _ z))

open_plugin-IsOpen :
    (D : Decoder) (size : ℕ) (source : Bytes) (begin end : ℕ) {p : Plugin (Decoder.Ctx D)}
    → open_plugin D size source begin end ≡ done p
    → IsOpen D hdiff_window_log_max p.ctx
unfolding open_plugin
open_plugin-IsOpen D size source begin end e =
    let (_, _, e₁) =
      done_through
        (require (leb begin end && leb end (length source) && leb size payload_max) status_invalid)
        _ e in
    let (fresh, x, e₂) = done_through (created (Decoder.create D)) _ e₁ in
    let (r, z, e₃) =
      done_through
        (zcheck (Decoder.memory_allocation D)
          (Decoder.set_window_log_max D fresh hdiff_window_log_max).1)
        _ e₂ in
    subst (λ (p : Plugin (Decoder.Ctx D)). IsOpen D hdiff_window_log_max p.ctx) (done-injective e₃)
      (windowed fresh r (created-some _ x) (zcheck_ok _ _ z))

-- A stream that holds what it has accepted, where each write goes on behind the one before.
pub record Appends (K : Sink) : Type 0 where
  pub stored : Sink.State K → Bytes
  pub appended :
      (s : Sink.State K) (b : Bytes) {t : Sink.State K}
      → Sink.write K s (length (stored s)) b ≡ accepted t
      → stored t ≡ stored s ++ b

Wrote-Appends :
    (K : Sink) (a : Appends K) {s u : Sink.State K} {at : ℕ} {t : Bytes}
    → Wrote K s at t u
    → at ≡ length (a.stored s)
    → a.stored u ≡ a.stored s ++ t
Wrote-Appends K a (nothing s at) h = sym (append-nil (a.stored s))
Wrote-Appends K a (piece {s} {t} {u} at b {rest = rest} e more) h =
    let first = a.appended s b (rw h at e) in
    let next =
      Wrote-Appends K a more (omega (arith, h, ap length first, length-append (a.stored s) b)) in
    next ∙ ap (λ x. x ++ rest) first ∙ append_assoc (a.stored s) b rest

-- The window that the header of a frame asks for.
abbrev pub window_of : Decoder → Bytes → ℕ
window_of D frame = (Decoder.frame_header D frame).0.window_size

-- zstd.h: what a run of the compressor wrote for a source is a frame that every decoder with memory to
-- spare accepts which allows its window, and that decodes to the source.
pub record FramePair (alloc : ℕ → Bool) (E : Encoder) (D : Decoder) : Type 1 where
  pub accepts : Accepts D
  pub frame_accepted :
      (c : Encoder.Ctx E) (d : Decoder.Ctx D) (room size log : ℕ) (src frame : Bytes)
      → IsReady alloc E (length src) c
      → Encoding E room size c src frame
      → IsOpen D log d
      → window_of D frame ≤ 2 ^ log
      → Accepts.Owes accepts d frame src

module _ (D : Decoder) (K : Accepts D) where
  open K use {Owes}

  -- A decoder that is fed the end of its input, and ends a frame there, has written what it owed.
  Feeds-Owes :
      {v w : View (Decoder.Ctx D)} {out : Bytes} (t : Bytes)
      → Owes v.ctx v.rest t
      → (v.finished ≡ true → v.rest ≡ [] → t ≡ [])
      → Feeds D v out w
      → w.finished ≡ true
      → w.rest ≡ []
      → out ≡ t
  Feeds-Owes t o ends (fed v) f r = sym (ends f r)
  Feeds-Owes {w = w} t o ends (feed v k room r {out} open' code rest) f last =
      let s = Decoder.decompress_stream D v.ctx (take k v.rest) room in
      let c = K.called v.ctx v.rest t k room r o code in
      ap (λ b. s.produced ++ b)
        (Feeds-Owes c.owed c.next_owes (λ z e. c.ends ((==_iff r 0).0 z) e) rest f last)
      ∙ sym c.split

module _ (alloc : ℕ → Bool) (E : Encoder) (D : Decoder) (pair : FramePair alloc E D) where
  open pair use {accepts}

  -- If every allocation succeeds, `frame_decompress` with a bound from the size of the source up to
  -- FRAME_MAX returns the source of whatever `zstd_encode` wrote without a base, if the decoder can be
  -- opened for the bound and allows the window of the frame, and the frame is not empty and within
  -- FRAME_MAX.
  pub frame_decompress-zstd_encode :
      ((n : ℕ) → alloc n ≡ true)
      → (src : Bytes) (o : Options) (limits : Limits) (max_output : ℕ) {f : Growable}
        {d : Decoder.Ctx D}
      → zstd_encode alloc E [] src o limits ≡ done f
      → open_frame alloc D max_output ≡ done d
      → window_of D (contents f) ≤ 2 ^ frame_window max_output
      → 0 < length (contents f)
      → length (contents f) ≤ frame_max
      → length src ≤ max_output
      → max_output ≤ frame_max
      → (g : Growable) × (frame_decompress alloc D (contents f) max_output ≡ done g)
        × (contents g ≡ src)
  frame_decompress-zstd_encode memory src o limits m {f} {d} e opened window some' small fits
        bounded =
      let (_, _, _, (c, ready, run)) = zstd_encode-Encoding alloc E [] src o limits e in
      frame_decompress_whole alloc memory D accepts (contents f) src m d some' small fits bounded
        opened
        (pair.frame_accepted c d chunk_size chunk_size (frame_window m) src (contents f)
          (open_encode-IsReady alloc E src o ready) run (open_frame-IsOpen alloc D m opened) window)

  -- If the plugin `compress` returns a positive number for a source, on a stream that holds nothing
  -- yet, and HDiffPatch opens the decompression plugin on a part of a diff that holds what the stream
  -- holds then, with a window that the plugin allows, reads parts of any sizes and closes it with
  -- success, then the stream holds so many bytes, and the parts make up the source, which has the
  -- stated size.
  pub Session-compress :
      (K : Sink) (in_size out_size : ℕ) (o : Options) (src : Source) (bytes : Bytes)
      (s : Sink.State K) {w : ℕ} {u : Sink.State K} (size : ℕ) (diff : Bytes) (begin end : ℕ)
      {p q : Plugin (Decoder.Ctx D)} {out : Bytes}
      → (a : Appends K) → Reads src bytes
      → a.stored s ≡ []
      → 0 < w
      → compress alloc E K in_size out_size o src s ≡ done (w, u)
      → take (end - begin) (drop begin diff) ≡ a.stored u
      → window_of D (a.stored u) ≤ 2 ^ hdiff_window_log_max
      → open_plugin D size diff begin end ≡ done p
      → Session D p out q
      → close D q ≡ done true
      → (length (a.stored u) ≡ w) × (length bytes ≡ size) × (out ≡ bytes)
  Session-compress K in_size out_size o src bytes s {w} {u} size diff begin end {p} {q} {out} a R
        empty' hw e same window op session closed =
      let (t, n, wrote, (c, ready, run)) =
        compress-Encoding alloc E K in_size out_size o src bytes R s hw e in
      let holds : a.stored u ≡ t =
        Wrote-Appends K a wrote (omega (arith, ap length empty')) ∙ ap (λ b. b ++ t) empty' in
      let (m, (d, feeds)) = Session-close D size diff begin end op session closed in
      let accepted' =
        pair.frame_accepted c p.ctx out_size in_size hdiff_window_log_max bytes t
          (open_compress-IsReady alloc E K in_size out_size o (length bytes) ready) run
          (open_plugin-IsOpen D size diff begin end op) (rw holds at window) in
      let back =
        Feeds-Owes D accepts bytes
          (subst (λ b. Accepts.Owes accepts p.ctx b bytes) (sym (same ∙ holds)) accepted')
          (λ x. absurd (false-ne-true x)) feeds refl refl in
      (ap length holds ∙ n, ap length (sym back) ∙ m, back)
