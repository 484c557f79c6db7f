-- ===== src/Bridge/Decompress/View.antt =====
-- The state of the plugin seen as a decoder and the bytes that it has not read.
use mathlib.Core.Path.{subst}
use mathlib.Core.List.{append_assoc, append-nil}
use pyhdiff.Base.{
  ℕ, zero, suc, ◌+◌, ◌-◌, ◌≤◌, ◌≡◌, ◌≢◌, refl, sym, ap, ◌∙◌, Bool, false, not, ◌||◌, [], ◌∷◌, Bytes,
  ◌++◌, length, take, drop, length-drop, take-append, drop-drop, drop-all, take-add, Option, none,
  some, ◌==◌, arith, inl, inr, Bool-cases,
}
use pyhdiff.Bridge.Throw.{diverges, done, done_through, done-injective}
use pyhdiff.Bridge.Zstd.{Decoder, Step, value}
use pyhdiff.Bridge.Apply.{chunk_size}
use pyhdiff.Bridge.Streams.{read}
use pyhdiff.Bridge.Streams.Laws.{read_lem}
use pyhdiff.Bridge.Decompress.{Plugin, read_or_fail, refill_size, refill, advanced}

-- The positions are in their ranges.
pub record IsValid {C : Type 0} (p : Plugin C) : Type 0 where
  pub source_order : p.pos ≤ p.stop
  pub source_end : p.stop ≤ length p.source
  pub input_order : p.at ≤ length p.input
  pub input_size : length p.input ≤ chunk_size

-- What the decoder has still to read: the rest of the buffer, then that of the source's part.
abbrev pub unread : {C : Type 0} → Plugin C → Bytes
unread p = drop p.at p.input ++ take (p.stop - p.pos) (drop p.pos p.source)

pub record View (C : Type 0) : Type 0 where
  pub ctx : C
  pub rest : Bytes
  pub finished : Bool

-- The view after a call of the decoder with the result `r`.
abbrev pub fed_view : {C : Type 0} → View C → Step C → ℕ → View C
fed_view v s r = record { ctx = s.ctx; rest = drop s.consumed v.rest; finished = r == 0 }

abbrev pub view : {C : Type 0} → Plugin C → View C
view p = record { ctx = p.ctx; rest = unread p; finished = p.finished }

pub drop-append_le : (n : ℕ) (b c : Bytes) → n ≤ length b → drop n (b ++ c) ≡ drop n b ++ c
drop-append_le zero b c h = refl
drop-append_le (suc n) [] c h = absurd (omega arith)
drop-append_le (suc n) (x ∷ b) c h = drop-append_le n b c (omega arith)

read_or_fail_ok : (o : Option Bytes) {b : Bytes} → read_or_fail o ≡ done b → o ≡ some b
read_or_fail_ok none e = cc
read_or_fail_ok (some c) e = ap some (done-injective e)

-- The next `n` bytes of a part, and those behind them.
part-split :
    (source : Bytes) (pos stop n : ℕ)
    → n ≤ stop - pos
    → take n (drop pos source) ++ take (stop - (pos + n)) (drop (pos + n) source)
      ≡ take (stop - pos) (drop pos source)
part-split source pos stop n h =
    rw (← drop-drop n pos (pos + n) source refl)
      (take-add n (stop - (pos + n)) (stop - pos) (drop pos source) (omega arith))

module _ {C : Type 0} where
  -- `refill` keeps the view; only the positions of the buffer change.
  pub record Refilled (p q : Plugin C) : Type 0 where
    pub valid : IsValid q
    pub same_unread : unread q ≡ unread p
    pub same_ctx : q.ctx ≡ p.ctx
    pub same_finished : q.finished ≡ p.finished
    pub same_remaining : q.remaining ≡ p.remaining
    pub same_left :
        (q.stop - q.pos) + (length q.input - q.at) ≡ (p.stop - p.pos) + (length p.input - p.at)

  Refilled-read :
      (p : Plugin C) (b : Bytes)
      → IsValid p
      → p.at ≡ length p.input
      → read p.source p.pos (refill_size p) ≡ some b
      → Refilled p (record p { pos = p.pos + refill_size p; input = b; at = 0 })
  Refilled-read p b v used e =
      let (_, size, same) = read_lem p.source p.pos (refill_size p) e in
      record {
        valid = record {
          source_order = omega (arith, v.source_order);
          source_end = v.source_end;
          input_order = omega arith;
          input_size = omega arith;
        };
        same_unread =
            rw (same, drop-all p.at p.input (omega arith))
              (part-split p.source p.pos p.stop (refill_size p) (omega arith));
        same_ctx = refl;
        same_finished = refl;
        same_remaining = refl;
        same_left = omega (arith, v.source_order);
      }

  pub refill_lem : (p : Plugin C) {q : Plugin C} → IsValid p → refill p ≡ done q → Refilled p q
  unfolding refill
  refill_lem p {q} v e = elim (Bool-cases (not (p.at == length p.input) || p.pos == p.stop)) [
    | inl skip ↦ rw (← done-injective (rw skip at e)) (record {
      valid = v;
      same_unread = refl;
      same_ctx = refl;
      same_finished = refl;
      same_remaining = refl;
      same_left = refl;
    })
    | inr fill ↦
        let (b, x, w) =
          done_through (read_or_fail (read p.source p.pos (refill_size p))) _ (rw fill at e) in
        subst (Refilled p) (done-injective w)
          (Refilled-read p b v (used p.at (length p.input) p.pos p.stop fill) (read_or_fail_ok _ x))
  ]
    where
      used : (at size pos stop : ℕ) → (not (at == size) || pos == stop) ≡ false → at ≡ size
      used at size pos stop h = ground arith

  pub refill-ne-diverges : (p : Plugin C) → refill p ≢ diverges
  unfolding refill
  refill-ne-diverges p = ground arith

  -- After a call that consumed no more than the rest of the buffer.
  pub advanced-IsValid :
      (p : Plugin C) (s : Step C) (r : ℕ)
      → IsValid p
      → s.consumed ≤ length (drop p.at p.input)
      → IsValid (advanced p s r)
  advanced-IsValid p s r v h = record {
    source_order = v.source_order;
    source_end = v.source_end;
    input_order = omega (arith, length-drop p.at p.input, v.input_order);
    input_size = v.input_size;
  }

  pub unread-advanced :
      (p : Plugin C) (s : Step C) (r : ℕ)
      → s.consumed ≤ length (drop p.at p.input)
      → unread (advanced p s r) ≡ drop s.consumed (unread p)
  unread-advanced p s r h =
      rw
        (
          drop-append_le s.consumed (drop p.at p.input)
              (take (p.stop - p.pos) (drop p.pos p.source)) h,
          drop-drop s.consumed p.at (p.at + s.consumed) p.input refl,
        )
        refl

module _ (Z : Decoder) where
  open Z use {Ctx, decompress_stream}

  -- Calls of a decoder that has not ended its frame, each on bytes from the front of what it has
  -- not read, and what they write.
  pub data Feeds : View Ctx → Bytes → View Ctx → Type 0 where
    fed : (v : View Ctx) → Feeds v [] v
    feed :
        (v : View Ctx) (k room r : ℕ) {out : Bytes} {w : View Ctx}
        → v.finished ≡ false
        → Step.code (decompress_stream v.ctx (take k v.rest) room) ≡ value r
        → Feeds (fed_view v (decompress_stream v.ctx (take k v.rest) room) r) out w
        → Feeds v (Step.produced (decompress_stream v.ctx (take k v.rest) room) ++ out) w

  pub Feeds-trans :
      {u v w : View Ctx} {a b : Bytes} → Feeds u a v → Feeds v b w → Feeds u (a ++ b) w
  Feeds-trans (fed v) g = g
  Feeds-trans {w = w} {b = b} (feed v k room r {out} open' code rest) g =
      subst (λ t. Feeds v t w) (sym (append_assoc _ out b))
        (feed v k room r open' code (Feeds-trans rest g))

  Feeds-once :
      (v : View Ctx) (src : Bytes) (k room r : ℕ)
      → take k v.rest ≡ src
      → v.finished ≡ false
      → Step.code (decompress_stream v.ctx src room) ≡ value r
      → Feeds v
          (Step.produced (decompress_stream v.ctx src room))
          (fed_view v (decompress_stream v.ctx src room) r)
  Feeds-once v src k room r e open' code = rw (← e) (
      subst (λ t. Feeds v t (fed_view v (decompress_stream v.ctx (take k v.rest) room) r))
        (append-nil _) (feed v k room r open' (rw (← e) at code) (fed _)))

  -- One call on the rest of the buffer feeds the decoder.
  pub Feeds-advanced :
      (p q : Plugin Ctx) (room r : ℕ)
      → Refilled p q
      → p.finished ≡ false
      → Step.code (decompress_stream q.ctx (drop q.at q.input) room) ≡ value r
      → Feeds
          (view p)
          (Step.produced (decompress_stream q.ctx (drop q.at q.input) room))
          (view (advanced q (decompress_stream q.ctx (drop q.at q.input) room) r))
  Feeds-advanced p q room r f open' code =
      let s = decompress_stream q.ctx (drop q.at q.input) room in
      let same : view q ≡ view p = ground (arith, f.same_ctx, f.same_unread, f.same_finished) in
      let reads = Z.consumed-le q.ctx (drop q.at q.input) room in
      rw (← same, unread-advanced q s r reads)
        (Feeds-once (view q) (drop q.at q.input) (length (drop q.at q.input)) room r
          (take-append (length (drop q.at q.input)) (drop q.at q.input) _ refl)
          (f.same_finished ∙ open') code)
