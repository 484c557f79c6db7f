-- ===== src/Bridge/Apply/Loop.antt =====
-- `zstd_apply` ends, fills the target exactly, and returns what the decoder made of the payload.
use pyhdiff.Base.{
  ℕ, zero, suc, ◌+◌, ◌-◌, ◌≤◌, ◌<◌, ◌≡◌, ◌≢◌, refl, sym, ap, ◌∙◌, Bytes, [], ◌++◌, length, take,
  drop, drop-drop, length-append, length-take, length-drop, arith, ◌&&◌, ◌==◌, leb, min,
  if◌then◌else◌, inl, inr, ◌⊎◌,
}
use pyhdiff.Status.{raw_max, payload_max, status_limit, status_invalid}
use pyhdiff.Bridge.Throw.{
  diverges, done, done_through, Cpp-cases, done-injective, throw-ne-done, ne-diverges_through,
  require-ne-diverges, require_ok, require, ◌>>=◌,
}
use pyhdiff.Bridge.Zstd.{Decoder, Step, Code, value, zcheck}
use pyhdiff.Bridge.Apply.{
  chunk_size, apply_call, apply_checks, apply_loop, check_frame, open_apply, zstd_apply,
}
use mathlib.Core.List.{append_assoc}

module _ (Z : Decoder) where
  open Z use {Ctx, decompress_stream, memory_allocation}

  -- A run of the decoder, fed a chunk at a time, that ends a frame exactly at the end of `src`,
  -- and what it writes.
  pub data Decoding : Ctx → Bytes → Bytes → Type 0 where
    last :
        (ctx : Ctx) (src : Bytes) (room : ℕ)
        → Step.code (decompress_stream ctx (take chunk_size src) room) ≡ value 0
        → Step.consumed (decompress_stream ctx (take chunk_size src) room) ≡ length src
        → Decoding ctx src (Step.produced (decompress_stream ctx (take chunk_size src) room))
    more :
        (ctx : Ctx) (src : Bytes) (room left : ℕ) {rest : Bytes}
        → Step.code (decompress_stream ctx (take chunk_size src) room) ≡ value (suc left)
        → Decoding
            (Step.ctx (decompress_stream ctx (take chunk_size src) room))
            (drop (Step.consumed (decompress_stream ctx (take chunk_size src) room)) src)
            rest
        → Decoding ctx src
            (Step.produced (decompress_stream ctx (take chunk_size src) room) ++ rest)

  apply_checks_ok :
      (s : Step Ctx) (written n : ℕ) {remaining : ℕ}
      → apply_checks Z s written n ≡ done remaining
      → (s.code ≡ value remaining)
        × (length s.produced ≤ n - written)
        × ((remaining ≡ 0) ⊎ (0 < s.consumed + length s.produced))
  unfolding apply_checks
  apply_checks_ok s written n e = ground arith

  apply_checks-ne-diverges : (s : Step Ctx) (written n : ℕ) → apply_checks Z s written n ≢ diverges
  unfolding apply_checks
  apply_checks-ne-diverges s written n = ground arith

  apply_call_reads :
      (ctx : Ctx) (src : Bytes) (read written n : ℕ)
      → read ≤ length src
      → read + Step.consumed (apply_call Z ctx src read written n) ≤ length src
  apply_call_reads ctx src read written n h = omega (
    arith,
    Z.consumed-le ctx (take chunk_size (drop read src))
        (if min chunk_size (n - written) == 0 then 1 else min chunk_size (n - written)),
    length-take chunk_size (drop read src),
    length-drop read src,
  )

  apply_loop-ne-diverges :
      (fuel : ℕ) (ctx : Ctx) (src : Bytes) (n read : ℕ) (out : Bytes)
      → read ≤ length src
      → length out ≤ n
      → (length src - read) + (n - length out) < fuel
      → apply_loop Z fuel ctx src n read out ≢ diverges
  unfolding apply_loop
  apply_loop-ne-diverges zero ctx src n read out hr ho h = absurd (omega arith)
  apply_loop-ne-diverges (suc fuel) ctx src n read out hr ho h =
      elim (Cpp-cases (apply_checks Z (apply_call Z ctx src read (length out) n) (length out) n)) [
        | inl d ↦ absurd (apply_checks-ne-diverges _ _ _ d)
        | inr (inl (t, e)) ↦ rw (e, ◌>>=◌) (λ x. cc)
        | inr (inr (zero, e)) ↦ rw (e, ◌>>=◌) (λ x. cc)
        | inr (inr (suc left, e)) ↦
            let s = apply_call Z ctx src read (length out) n in
            let (_, short, progress) = apply_checks_ok s (length out) n e in
            let reads = apply_call_reads ctx src read (length out) n hr in
            rw (e, ◌>>=◌)
              (apply_loop-ne-diverges fuel s.ctx src n (read + s.consumed) (out ++ s.produced) reads
                (omega (arith, length-append out s.produced))
                (omega (arith, length-append out s.produced)))
      ]

  -- What the loop adds to the output fits, and is the output of a decoding of the rest of the
  -- payload, where the loop reads that to its end.
  apply_loop_done :
      (fuel : ℕ) (ctx : Ctx) (src : Bytes) (n read : ℕ) (out : Bytes) {r : ℕ} {o : Bytes}
      → apply_loop Z fuel ctx src n read out ≡ done (r, o)
      → (t : Bytes) × (o ≡ out ++ t)
        × (read ≤ length src → r ≡ length src → Decoding ctx (drop read src) t)
  unfolding apply_loop
  apply_loop_done zero ctx src n read out e = cc
  apply_loop_done (suc fuel) ctx src n read out {r} {o} e =
      elim (Cpp-cases (apply_checks Z (apply_call Z ctx src read (length out) n) (length out) n)) [
        | inl d ↦ absurd (apply_checks-ne-diverges _ _ _ d)
        | inr (inl (t, c)) ↦ absurd (throw-ne-done (rw (c, ◌>>=◌) at e))
        | inr (inr (zero, c)) ↦
            let s = apply_call Z ctx src read (length out) n in
            let (code, _, _) = apply_checks_ok s (length out) n c in
            let same : (read + s.consumed, out ++ s.produced) ≡ (r, o) =
              done-injective (rw (c, ◌>>=◌) at e) in
            (
              s.produced,
              sym (ap (λ p. p.1) same),
              λ hr full.
                  last ctx (drop read src) _ code
                    (omega (arith, ap (λ p. p.0) same, length-drop read src)),
            )
        | inr (inr (suc left, c)) ↦
            let s = apply_call Z ctx src read (length out) n in
            let (code, _, _) = apply_checks_ok s (length out) n c in
            let (t, same, decoding) =
              apply_loop_done fuel s.ctx src n (read + s.consumed) (out ++ s.produced)
                (rw (c, ◌>>=◌) at e) in
            (
              s.produced ++ t,
              same ∙ append_assoc out s.produced t,
              λ hr full. more ctx (drop read src) _ left code (
                  rw (drop-drop s.consumed read (read + s.consumed) src refl)
                    (decoding (apply_call_reads ctx src read (length out) n hr) full)),
            )
      ]

  zcheck-ne-diverges : (c : Code) → zcheck memory_allocation c ≢ diverges
  unfolding zcheck
  zcheck-ne-diverges c = ground arith

  check_frame-ne-diverges : (src : Bytes) (n : ℕ) → check_frame Z src n ≢ diverges
  unfolding check_frame
  check_frame-ne-diverges src n = ground arith

  open_apply-ne-diverges : (base : Bytes) → open_apply Z base ≢ diverges
  unfolding open_apply
  open_apply-ne-diverges base = ground arith

  -- `zstd_apply` ends on every base and payload.
  pub zstd_apply-ne-diverges :
      (base src : Bytes) (target_size : ℕ) → zstd_apply Z base src target_size ≢ diverges
  unfolding zstd_apply
  zstd_apply-ne-diverges base src n =
      ne-diverges_through
        (require (leb (length base) raw_max && leb n raw_max && leb (length src) payload_max)
          status_limit)
        _ (require-ne-diverges _ _)
        λ _ _. ne-diverges_through (check_frame Z src n) _ (check_frame-ne-diverges src n) λ _ _.
          ne-diverges_through (open_apply Z base) _ (open_apply-ne-diverges base) λ ctx _.
            ne-diverges_through (apply_loop Z _ ctx src n 0 []) _
              (apply_loop-ne-diverges _ ctx src n 0 [] (omega arith) (omega arith) (omega arith))
              λ (read, out) _.
                ne-diverges_through (require (read == length src && length out == n) status_invalid)
                  _ (require-ne-diverges _ _) λ _ _ x. cc

  -- What `zstd_apply` returns has exactly the size of the target, and is what the decoder, opened
  -- with the base as its prefix, writes for the payload as one frame with nothing after it. The
  -- inputs were within their limits.
  pub zstd_apply-Decoding :
      (base src : Bytes) (target_size : ℕ) {t : Bytes}
      → zstd_apply Z base src target_size ≡ done t
      → (length t ≡ target_size)
        × (length base ≤ raw_max)
        × (target_size ≤ raw_max)
        × (length src ≤ payload_max)
        × ((ctx : Ctx) × (open_apply Z base ≡ done ctx) × Decoding ctx src t)
  unfolding zstd_apply
  zstd_apply-Decoding base src n {t} e =
      let (_, limits, e₁) =
        done_through
          (require (leb (length base) raw_max && leb n raw_max && leb (length src) payload_max)
            status_limit)
          _ e in
      let (_, _, e₂) = done_through (check_frame Z src n) _ e₁ in
      let (ctx, opened, e₃) = done_through (open_apply Z base) _ e₂ in
      let ((read, out), looped, e₄) = done_through (apply_loop Z _ ctx src n 0 []) _ e₃ in
      let (_, full, e₅) =
        done_through (require (read == length src && length out == n) status_invalid) _ e₄ in
      let limits' = require_ok _ _ limits in
      let full' = require_ok _ _ full in
      let (o, same, decoding) = apply_loop_done _ ctx src n 0 [] looped in
      let ended : (read ≡ length src) × (length out ≡ n) = ground arith in
      let result : o ≡ t = sym same ∙ done-injective e₅ in
      (
        sym (ap (λ b. length b) (done-injective e₅)) ∙ ended.1,
        ground arith,
        ground arith,
        ground arith,
        (ctx, opened, rw (← result) (decoding (omega arith) ended.0)),
      )
