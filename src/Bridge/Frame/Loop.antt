-- ===== src/Bridge/Frame/Loop.antt =====
-- `frame_decompress` ends, keeps the output bound, and returns what the decoder made of the input.
use pyhdiff.Base.{
  ℕ, zero, suc, ◌+◌, ◌-◌, ◌≤◌, ◌<◌, ◌≡◌, ◌≢◌, refl, sym, ap, ◌∙◌, Bytes, [], ◌++◌, length, take,
  drop, drop-drop, length-take, length-drop, arith, Bool, not, ◌&&◌, ◌==◌, leb, inl, inr,
}
use mathlib.Core.Path.{subst}
use mathlib.Core.List.{append_assoc}
use pyhdiff.Status.{frame_max, status_limit, status_invalid}
use pyhdiff.Bridge.Throw.{
  diverges, done, done_through, done-injective, throw-ne-done, ne-diverges_through,
  require-ne-diverges, require_ok, require, ◌>>=◌, Cpp-cases,
}
use pyhdiff.Bridge.Zstd.{Decoder, Step, value, zcheck}
use pyhdiff.Bridge.Growable.{Growable, contents, reserve}
use pyhdiff.Bridge.Growable.Contents.{IsValid, reserve-ne-diverges, reserve_lem}
use pyhdiff.Bridge.Frame.{
  Progress, finished, next, frame_round, frame_loop, open_frame, reserved, frame_decompress,
}
use pyhdiff.Bridge.Frame.Rounds.{frame_round_sound, frame_round-ne-diverges}

module _ (alloc : ℕ → Bool) (Z : Decoder) where
  open Z use {Ctx, decompress_stream, memory_allocation}

  -- A run of the decoder over `src` that ends a frame exactly at the end of `src`, and what it
  -- writes. Frames may end on the way.
  pub data FrameDecoding : Ctx → Bytes → Bytes → Type 0 where
    last :
        (ctx : Ctx) (src : Bytes) (room : ℕ)
        → Step.code (decompress_stream ctx src room) ≡ value 0
        → Step.consumed (decompress_stream ctx src room) ≡ length src
        → FrameDecoding ctx src (Step.produced (decompress_stream ctx src room))
    more :
        (ctx : Ctx) (src : Bytes) (room left : ℕ) {rest : Bytes}
        → Step.code (decompress_stream ctx src room) ≡ value left
        → FrameDecoding
            (Step.ctx (decompress_stream ctx src room))
            (drop (Step.consumed (decompress_stream ctx src room)) src)
            rest
        → FrameDecoding ctx src (Step.produced (decompress_stream ctx src room) ++ rest)

  frame_loop-ne-diverges :
      (fuel : ℕ) (src : Bytes) (m : ℕ) (p : Progress Ctx)
      → IsValid p.out
      → p.out.size ≤ m
      → p.at ≤ length src
      → (length src - p.at) + (m - p.out.size) < fuel
      → frame_loop alloc Z fuel src m p ≢ diverges
  unfolding frame_loop
  frame_loop-ne-diverges zero src m p v hs ha h = absurd (omega arith)
  frame_loop-ne-diverges (suc fuel) src m p v hs ha h =
      elim (Cpp-cases (frame_round alloc Z src m p)) [
        | inl d ↦ absurd (frame_round-ne-diverges alloc Z src m p d)
        | inr (inl (t, e)) ↦ rw (e, ◌>>=◌) (λ x. cc)
        | inr (inr (finished g, e)) ↦ rw (e, ◌>>=◌) (λ x. cc)
        | inr (inr (next q, e)) ↦
            let (room, left, grown, _, _, at, moved) = frame_round_sound alloc Z src m p v hs e in
            let reads = Z.consumed-le p.ctx (drop p.at src) room in
            rw (e, ◌>>=◌)
              (frame_loop-ne-diverges fuel src m q grown.valid grown.bounded
                (omega (arith, length-drop p.at src))
                (omega (arith, length-drop p.at src, grown.grown_size, grown.bounded)))
      ]

  frame_loop_done :
      (fuel : ℕ) (src : Bytes) (m : ℕ) (p : Progress Ctx) {g : Growable}
      → IsValid p.out
      → p.out.size ≤ m
      → p.at ≤ length src
      → frame_loop alloc Z fuel src m p ≡ done g
      → IsValid g
        × (g.size ≤ m)
        × ((t : Bytes) × (contents g ≡ contents p.out ++ t) × FrameDecoding p.ctx (drop p.at src) t)
  unfolding frame_loop
  frame_loop_done zero src m p v hs ha e = cc
  frame_loop_done (suc fuel) src m p {g} v hs ha e =
      elim (Cpp-cases (frame_round alloc Z src m p)) [
        | inl d ↦ absurd (frame_round-ne-diverges alloc Z src m p d)
        | inr (inl (t, c)) ↦ absurd (throw-ne-done (rw (c, ◌>>=◌) at e))
        | inr (inr (finished out, c)) ↦
            let (room, grown, code, full) = frame_round_sound alloc Z src m p v hs c in
            rw (← done-injective (rw (c, ◌>>=◌) at e)) (
              grown.valid,
              grown.bounded,
              (
                _,
                grown.grown_contents,
                last p.ctx (drop p.at src) room code (omega (arith, length-drop p.at src)),
              ),
            )
        | inr (inr (next q, c)) ↦
            let (room, left, grown, code, ctx, at, _) = frame_round_sound alloc Z src m p v hs c in
            let reads = Z.consumed-le p.ctx (drop p.at src) room in
            let s = decompress_stream p.ctx (drop p.at src) room in
            let (valid, bounded, (t, same, decoding)) =
              frame_loop_done fuel src m q grown.valid grown.bounded
                (omega (arith, length-drop p.at src)) (rw (c, ◌>>=◌) at e) in
            (
              valid,
              bounded,
              (
                s.produced ++ t,
                same
                    ∙ ap (λ b. b ++ t) grown.grown_contents
                    ∙ append_assoc (contents p.out) s.produced t,
                more p.ctx (drop p.at src) room left code (
                    rw (drop-drop s.consumed p.at q.at src (sym at))
                      (subst (λ k. FrameDecoding k (drop q.at src) t) ctx decoding)),
              ),
            )
      ]

  open_frame-ne-diverges : (m : ℕ) → open_frame alloc Z m ≢ diverges
  unfolding open_frame zcheck
  open_frame-ne-diverges m = ground arith

  abbrev limits : Bytes → ℕ → Bool
  limits src m = leb (length src) frame_max && leb m frame_max

  -- `frame_decompress` ends on every input and bound.
  pub frame_decompress-ne-diverges :
      (src : Bytes) (max_output : ℕ) → frame_decompress alloc Z src max_output ≢ diverges
  unfolding frame_decompress
  frame_decompress-ne-diverges src m =
      ne-diverges_through (require (limits src m) status_limit) _ (require-ne-diverges _ _) λ _ _.
        ne-diverges_through (require (not (length src == 0)) status_invalid) _
          (require-ne-diverges _ _)
          λ _ _. ne-diverges_through (open_frame alloc Z m) _ (open_frame-ne-diverges m) λ ctx _.
            ne-diverges_through (reserve alloc (reserved alloc Z src m)) _
              (reserve-ne-diverges alloc _)
              λ out r.
                let size = reserve_lem alloc _ r in
                frame_loop-ne-diverges _ src m (record { ctx = ctx; at = 0; out = out })
                  (omega arith) (omega arith) (omega arith) (omega arith)

  take-zero : (b : Bytes) (n : ℕ) → n ≡ 0 → take n b ≡ []
  take-zero b zero h = refl
  take-zero b (suc n) h = absurd (omega arith)

  -- What `frame_decompress` returns is within the bound, and is what the decoder, opened with the
  -- window for the bound, writes for the whole input, which is not empty and ends with a frame.
  pub frame_decompress-FrameDecoding :
      (src : Bytes) (max_output : ℕ) {g : Growable}
      → frame_decompress alloc Z src max_output ≡ done g
      → (length (contents g) ≤ max_output)
        × (max_output ≤ frame_max)
        × (0 < length src)
        × ((ctx : Ctx) × (open_frame alloc Z max_output ≡ done ctx)
            × FrameDecoding ctx src (contents g))
        × IsValid g
  unfolding frame_decompress
  frame_decompress-FrameDecoding src m {g} e =
      let (_, l, e₁) = done_through (require (limits src m) status_limit) _ e in
      let (_, q, e₂) = done_through (require (not (length src == 0)) status_invalid) _ e₁ in
      let (ctx, opened, e₃) = done_through (open_frame alloc Z m) _ e₂ in
      let (out, r, e₄) = done_through (reserve alloc (reserved alloc Z src m)) _ e₃ in
      let size = reserve_lem alloc _ r in
      let l' = require_ok _ _ l in
      let q' = require_ok _ _ q in
      let (valid, bounded, (t, same, decoding)) =
        frame_loop_done _ src m (record { ctx = ctx; at = 0; out = out }) (omega arith)
          (omega arith) (omega arith) e₄ in
      let whole : contents g ≡ t = same ∙ ap (λ b. b ++ t) (take-zero out.storage out.size size) in
      (
        omega (arith, length-take g.size g.storage),
        ground arith,
        ground arith,
        (ctx, opened, rw whole decoding),
        valid,
      )
