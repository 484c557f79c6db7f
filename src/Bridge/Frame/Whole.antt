-- ===== src/Bridge/Frame/Whole.antt =====
-- `frame_decompress` on input that the decoder accepts, with memory to spare.
use mathlib.Core.Path.{subst}
use pyhdiff.Base.{
  ℕ, zero, suc, ◌+◌, ◌-◌, ◌≤◌, ◌<◌, ◌≡◌, refl, ap, ◌∙◌, min, Bool, true, not, ◌&&◌, Bytes, ◌++◌,
  length, length-take, length-drop, drop, leb, ◌==◌, arith, inl, inr, Bool-cases,
}
use pyhdiff.Status.{frame_max}
use pyhdiff.Bridge.Throw.{done}
use pyhdiff.Bridge.Zstd.{Decoder}
use pyhdiff.Bridge.Apply.{chunk_size}
use pyhdiff.Bridge.Growable.{Growable, contents}
use pyhdiff.Bridge.Growable.Memory.{spare_total, reserve_total}
use pyhdiff.Bridge.Growable.Contents.{IsValid, spare_lem, reserve_lem}
use pyhdiff.Bridge.Frame.Accepts.{
  Accepts, Remains, RoundOf, Round-cases, eq-nil, full_round_whole, open_round_whole,
}
use pyhdiff.Bridge.Frame.{
  Progress, Round, frame_round, frame_loop, open_frame, reserved, frame_decompress,
}

module _ (alloc : ℕ → Bool) (memory : (n : ℕ) → alloc n ≡ true) (D : Decoder) (K : Accepts D) where
  open D use {Ctx}
  open K use {Owes}

  frame_round_whole :
      (src : Bytes) (m : ℕ) (p : Progress Ctx) (t : Bytes)
      → IsValid p.out
      → p.out.size + length t ≤ m
      → p.at ≤ length src
      → 0 < (length src - p.at) + length t
      → Owes p.ctx (drop p.at src) t
      → (r : Round Ctx) × (frame_round alloc D src m p ≡ done r)
        × RoundOf alloc memory D K src m p t r
  unfolding frame_round
  frame_round_whole src m p t v fits inside rests o =
      let rests' : 0 < length (drop p.at src) + length t = omega (arith, length-drop p.at src) in
      elim (Bool-cases (p.out.size == m)) [
        | inl c ↦
            rw c (full_round_whole alloc memory D K src m p t v (ground arith) fits inside rests' o)
        | inr c ↦
            let n = min (m - p.out.size) chunk_size in
            let below : p.out.size < m = ground arith in
            let (out, spared) = spare_total alloc memory n p.out in
            let (kept, room) = spare_lem alloc n p.out v spared in
            let same = kept.same_size in
            rw (c, spared)
              (open_round_whole alloc memory D K src m p t out (omega arith) kept below
                (omega arith) fits inside rests' o)
      ]

  frame_loop_whole :
      (fuel : ℕ) (src : Bytes) (m : ℕ) (p : Progress Ctx) (t : Bytes)
      → IsValid p.out
      → p.out.size + length t ≤ m
      → p.at ≤ length src
      → 0 < (length src - p.at) + length t
      → Owes p.ctx (drop p.at src) t
      → (length src - p.at) + length t < fuel
      → (g : Growable) × (frame_loop alloc D fuel src m p ≡ done g)
        × (contents g ≡ contents p.out ++ t)
  unfolding frame_loop
  frame_loop_whole zero src m p t v fits inside rests o h = absurd (omega arith)
  frame_loop_whole (suc fuel) src m p t v fits inside rests o h =
      let (r, e, w) = frame_round_whole src m p t v fits inside rests o in
      elim (Round-cases r) [
        | inl (g, x) ↦ rw (e, x) (g, refl, subst (RoundOf alloc memory D K src m p t) x w)
        | inr (q, x) ↦
            let l : Remains alloc memory D K src m p t q =
              subst (RoundOf alloc memory D K src m p t) x w in
            let less = l.less in
            let (g, ends, same) =
              frame_loop_whole fuel src m q l.owed l.valid l.fits l.inside l.rests l.owes
                (omega arith) in
            rw (e, x) (g, ends, same ∙ l.whole)
      ]

  -- If every allocation succeeds and the decoder, opened for the bound, accepts the input and owes
  -- `out` for it, then `frame_decompress` returns `out`, where the input is not empty, `out` is within
  -- the bound, and the input and the bound are within FRAME_MAX.
  pub frame_decompress_whole :
      (src out : Bytes) (max_output : ℕ) (c : Ctx)
      → 0 < length src
      → length src ≤ frame_max
      → length out ≤ max_output
      → max_output ≤ frame_max
      → open_frame alloc D max_output ≡ done c
      → Owes c src out
      → (g : Growable) × (frame_decompress alloc D src max_output ≡ done g) × (contents g ≡ out)
  unfolding frame_decompress
  frame_decompress_whole src out m c some' within fits bounded opened o =
      let (g, r) = reserve_total alloc memory (reserved alloc D src m) in
      let size = reserve_lem alloc (reserved alloc D src m) r in
      let limits : (leb (length src) frame_max && leb m frame_max) ≡ true = ground arith in
      let not_empty : not (length src == 0) ≡ true = ground arith in
      let (h, e, same) =
        frame_loop_whole (length src + m + 1) src m (record { ctx = c; at = 0; out = g }) out
          (omega arith) (omega arith) (omega arith) (omega arith) o (omega arith) in
      rw (limits, not_empty, opened, r)
        (
          h,
          e,
          same
              ∙ ap (λ b. b ++ out)
                  (eq-nil (contents g) (omega (arith, length-take g.size g.storage))),
        )
