-- ===== src/Bridge/Compress/Laws.antt =====
-- `compress` of the plugin over the calls for its chunks.
use mathlib.Core.List.{append_assoc}
use mathlib.Core.Path.{subst}
use pyhdiff.Base.{
  ℕ, zero, suc, ◌+◌, ◌-◌, ◌≤◌, ◌<◌, ◌≡◌, ◌≢◌, refl, sym, ap, ◌∙◌, min, Bool, true, false, Bytes,
  ◌++◌, length, length-append, length-take, length-drop, drop-drop, drop, take, ◌==◌, arith, inl,
  inr, Bool-cases, ◌⊎◌, leb, leb→le, take-all, Option, none, some,
}
use pyhdiff.Bridge.Throw.{diverges, done, done_through, done-injective, ne-diverges_through}
use pyhdiff.Bridge.Zstd.{zcheck}
use pyhdiff.Bridge.Apply.{created}
use pyhdiff.Bridge.Options.{Options}
use pyhdiff.Bridge.Hdiff.{cache_allocated}
use pyhdiff.Bridge.Decompress.{read_or_fail}
use pyhdiff.Bridge.Encode.{Encoder, set_all}
use pyhdiff.Bridge.Encode.Run.{MakesProgress, Compressing, Encoding, last_chunk, next_chunk}
use pyhdiff.Bridge.Encode.Laws.{set_all-ne-diverges}
use pyhdiff.Bridge.Compress.{
  Source, Sink, Stream, Left, turned, abandoned, plugin_settings, turns_for, turn_loop, source_loop,
  open_compress, compress,
}
use pyhdiff.Bridge.Compress.Calls.{Wrote, nothing, piece, turn_loop-ne-diverges, turn_loop_done}

-- The stream reads these bytes.
pub record Reads (src : Source) (bytes : Bytes) : Type 0 where
  pub same_size : src.size ≡ length bytes
  pub reads : (at n : ℕ) → at + n ≤ length bytes → src.read at n ≡ some (take n (drop at bytes))

Wrote-append :
    (K : Sink) {s t u : Sink.State K} {at : ℕ} {a b : Bytes}
    → Wrote K s at a t
    → Wrote K t (at + length a) b u
    → Wrote K s at (a ++ b) u
Wrote-append K {u = u} {b = b} (nothing s at) w = subst (λ (k : ℕ). Wrote K s k b u) (omega arith) w
Wrote-append K {t = t} {u = u} {b = b} (piece at c {rest = rest} e more) w =
    rw (append_assoc c rest b) (
      piece at c e (
        Wrote-append K more
          (subst (λ (k : ℕ). Wrote K t k b u) (omega (arith, length-append c rest)) w)))

read_or_fail-ne-diverges : (o : Option Bytes) → read_or_fail o ≢ diverges
read_or_fail-ne-diverges none = λ e. cc
read_or_fail-ne-diverges (some b) = λ e. cc

last_lt :
    (at n size in_size : ℕ)
    → n ≡ min in_size (size - at)
    → at ≤ size
    → (at + n == size) ≡ true
    → size - at ≤ in_size
last_lt at n size in_size e h l = ground arith

more_lt :
    (at n size in_size : ℕ)
    → n ≡ min in_size (size - at)
    → at ≤ size
    → (at + n == size) ≡ false
    → in_size < size - at
more_lt at n size in_size e h l = ground arith

-- `take` of no more than there is.
take-min : (n : ℕ) (b : Bytes) → take (min n (length b)) b ≡ take n b
take-min n b = elim (le_total' n (length b)) [
  | inl h ↦ ap (λ (k : ℕ). take k b) (omega arith)
  | inr h ↦
      ap (λ (k : ℕ). take k b) (omega arith)
      ∙ take-all (length b) b (omega arith)
      ∙ sym (take-all n b h)
]
  where
    le_total' : (a b : ℕ) → (a ≤ b) ⊎ (b ≤ a)
    le_total' a b = elim (Bool-cases (leb a b)) [
      | inl h ↦ inl (leb→le a b h)
      | inr h ↦ inr (ground arith)
    ]

-- A chunk stops at the end of the source.
chunk-eq-take :
    (in_size at : ℕ) (bytes : Bytes)
    → take (min in_size (length bytes - at)) (drop at bytes) ≡ take in_size (drop at bytes)
chunk-eq-take in_size at bytes = rw (← length-drop at bytes) (take-min in_size (drop at bytes))

Left-cases :
    {C S : Type 0} (l : Left C S)
    → ((g : Stream C S) × (l ≡ turned g)) ⊎ ((s : S) × (l ≡ abandoned s))
Left-cases (turned g) = inl (g, refl)
Left-cases (abandoned s) = inr (s, refl)

module _ (alloc : ℕ → Bool) (Z : Encoder) (K : Sink) (in_size out_size : ℕ) where
  open Z use {Ctx, memory_allocation}
  open K use {State}

  source_loop-ne-diverges :
      MakesProgress Z
      → 0 < in_size
      → 0 < out_size
      → (src : Source) (bytes : Bytes) → Reads src bytes
      → (rounds at : ℕ) (c : Ctx) (s : State) (written : ℕ) → at ≤ length bytes
      → length bytes - at < rounds
      → source_loop alloc Z K in_size out_size rounds src at c s written ≢ diverges
  unfolding source_loop
  source_loop-ne-diverges P i o src bytes R zero at c s written ha h = absurd (omega arith)
  source_loop-ne-diverges P i o src bytes R (suc rounds) at c s written ha h =
      let n = min in_size (src.size - at) in
      let same = R.same_size in
      rw (R.reads at n (omega arith)) (
        ne-diverges_through
          (turn_loop alloc Z K in_size out_size (turns_for n K.size written)
            (take n (drop at bytes)) (at + n == src.size)
            (record { ctx = c; at = 0; sink = s; written = written }))
          _
          (turn_loop-ne-diverges alloc Z K in_size out_size P o _ (take n (drop at bytes)) _
            (record { ctx = c; at = 0; sink = s; written = written }) (omega arith)
            (omega (arith, length-take n (drop at bytes), length-drop at bytes)))
          λ l _. elim (Left-cases l) [
            | inr (t, x) ↦ rw x (λ e. cc)
            | inl (g, x) ↦ elim (Bool-cases (at + n == src.size)) [
              | inl last ↦ rw (x, last) (λ e. cc)
              | inr more ↦
                  let goes = more_lt at n src.size in_size refl (omega arith) more in
                  rw (x, more)
                    (source_loop-ne-diverges P i o src bytes R rounds (at + n) g.ctx g.sink
                      g.written (omega arith) (omega arith))
            ]
          ])

  -- A run for the rest of the source, whose output the stream accepted.
  abbrev Sourced : Bytes → ℕ → Ctx → State → ℕ → ℕ × State → Type 0
  Sourced bytes at c s written p =
      (t : Bytes) × Encoding Z out_size in_size c (drop at bytes) t
      × Wrote K s written t p.1
      × (p.0 ≡ written + length t)

  -- A run for one chunk of the source.
  abbrev Chunked : Bytes → ℕ → Bool → Ctx → State → ℕ → Stream Ctx State → Type 0
  Chunked bytes at last c s written g =
      (t : Bytes) × Compressing Z out_size last g.ctx c (take in_size (drop at bytes)) t
      × Wrote K s written t g.sink
      × (g.written ≡ written + length t)

  Sourced-last :
      (bytes : Bytes) (at : ℕ) (c : Ctx) (s : State) (written : ℕ) (g : Stream Ctx State)
      → length bytes - at ≤ in_size
      → Chunked bytes at true c s written g
      → Sourced bytes at c s written (g.written, g.sink)
  Sourced-last bytes at c s written g small (t, run, wrote, size) =
      (t, last_chunk c g.ctx (drop at bytes) (omega (arith, length-drop at bytes)) run, wrote, size)

  Sourced-next :
      (bytes : Bytes) (at next : ℕ) (c : Ctx) (s : State) (written : ℕ) (g : Stream Ctx State)
      (p : ℕ × State)
      → in_size < length bytes - at
      → next ≡ at + in_size
      → Chunked bytes at false c s written g
      → Sourced bytes next g.ctx g.sink g.written p
      → Sourced bytes at c s written p
  Sourced-next bytes at next c s written g p goes behind (t, run, wrote, size)
        (t', encoding, wrote', size') =
      (
        t ++ t',
        next_chunk c g.ctx (drop at bytes) (omega (arith, length-drop at bytes)) run
            (rw (drop-drop in_size at next bytes (omega arith)) encoding),
        Wrote-append K wrote (subst (λ k. Wrote K g.sink k t' p.1) size wrote'),
        omega (arith, size, size', length-append t t'),
      )

  source_loop_done :
      (src : Source) (bytes : Bytes)
      → Reads src bytes
      → (rounds at : ℕ) (c : Ctx) (s : State) (written : ℕ) {w : ℕ} {u : State} → at ≤ length bytes
      → 0 < w
      → source_loop alloc Z K in_size out_size rounds src at c s written ≡ done (w, u)
      → Sourced bytes at c s written (w, u)
  unfolding source_loop
  source_loop_done src bytes R zero at c s written ha hw e = cc
  source_loop_done src bytes R (suc rounds) at c s written {w} {u} ha hw e =
      let n = min in_size (src.size - at) in
      let same = R.same_size in
      let read' = R.reads at n (omega arith) in
      let f : Stream Ctx State = record { ctx = c; at = 0; sink = s; written = written } in
      let (l, x, e₁) =
        done_through
          (turn_loop alloc Z K in_size out_size (turns_for n K.size written)
            (take n (drop at bytes)) (at + n == src.size) f)
          _ (rw read' at e) in
      elim (Left-cases l) [
        | inr (t, y) ↦
            let stopped = ap (λ (p : ℕ × State). p.0) (done-injective (rw y at e₁)) in
            absurd (omega arith)
        | inl (g, y) ↦
            let (t, run, wrote, size) =
              turn_loop_done alloc Z K in_size out_size _ (take n (drop at bytes)) _ f (omega arith)
                (x ∙ ap done y) in
            let whole : take n (drop at bytes) ≡ take in_size (drop at bytes) =
              ap (λ (k : ℕ). take (min in_size (k - at)) (drop at bytes)) same
              ∙ chunk-eq-take in_size at bytes in
            let chunk : Chunked bytes at (at + n == src.size) c s written g = (
              t,
              subst (λ b. Compressing Z out_size (at + n == src.size) g.ctx c b t) whole run,
              wrote,
              size,
            ) in
            elim (Bool-cases (at + n == src.size)) [
              | inl last ↦
                  let small = last_lt at n src.size in_size refl (omega arith) last in
                  subst (Sourced bytes at c s written) (done-injective (rw (y, last) at e₁)) (
                    Sourced-last bytes at c s written g (omega arith)
                      (subst (λ b. Chunked bytes at b c s written g) last chunk))
              | inr more ↦
                  let goes = more_lt at n src.size in_size refl (omega arith) more in
                  Sourced-next bytes at (at + n) c s written g (w, u) (omega arith) (omega arith)
                    (subst (λ b. Chunked bytes at b c s written g) more chunk)
                    (source_loop_done src bytes R rounds (at + n) g.ctx g.sink g.written
                      (omega arith) hw (rw (y, more) at e₁))
            ]
      ]

  open_compress-ne-diverges :
      (o : Options) (size : ℕ) → open_compress alloc Z K in_size out_size o size ≢ diverges
  unfolding open_compress zcheck
  open_compress-ne-diverges o size = ne-diverges_through (created Z.create) _ (ground arith) λ c _.
      ne-diverges_through (cache_allocated (alloc in_size)) _ (ground arith) λ _ _.
        ne-diverges_through (cache_allocated (alloc out_size)) _ (ground arith) λ _ _.
          ne-diverges_through (set_all alloc Z (plugin_settings o) c) _
            (set_all-ne-diverges alloc Z _ c) λ set _. ground arith

  -- `compress` ends on every stream that reads a string of bytes, if the compressor makes progress
  -- and its two sizes are positive.
  pub compress-ne-diverges :
      MakesProgress Z
      → 0 < in_size
      → 0 < out_size
      → (o : Options) (src : Source) (bytes : Bytes) → Reads src bytes
      → (s : State) → compress alloc Z K in_size out_size o src s ≢ diverges
  unfolding compress
  compress-ne-diverges P i k o src bytes R s =
      ne-diverges_through (open_compress alloc Z K in_size out_size o src.size) _
        (open_compress-ne-diverges o src.size)
        λ c _.
          let same = R.same_size in
          source_loop-ne-diverges P i k src bytes R _ 0 c s 0 (omega arith) (omega arith)

  -- Where `compress` returns a positive number, the stream has accepted so many bytes from its start
  -- on, in pieces in order, and they are what a run of the compressor wrote that was fed the whole
  -- source a chunk at a time and flushed the frame with the last chunk.
  pub compress-Encoding :
      (o : Options) (src : Source) (bytes : Bytes)
      → Reads src bytes
      → (s : State) {w : ℕ} {u : State} → 0 < w
      → compress alloc Z K in_size out_size o src s ≡ done (w, u)
      → (t : Bytes) × (length t ≡ w)
        × Wrote K s 0 t u
        × ((c : Ctx) × (open_compress alloc Z K in_size out_size o (length bytes) ≡ done c)
            × Encoding Z out_size in_size c bytes t)
  unfolding compress
  compress-Encoding o src bytes R s hw e =
      let (c, opened, e₁) =
        done_through (open_compress alloc Z K in_size out_size o src.size) _ e in
      let (t, run, wrote, size) = source_loop_done src bytes R _ 0 c s 0 (omega arith) hw e₁ in
      (t, omega arith, wrote, (c, rw R.same_size at opened, run))
