-- ===== src/Bridge/Encode/Calls.antt =====
-- The calls of the compressor that `zstd_encode` makes for one chunk.
use mathlib.Core.List.{append_assoc}
use mathlib.Core.Path.{subst}
use pyhdiff.Base.{
  ℕ, zero, suc, ◌+◌, ◌-◌, ◌≤◌, ◌<◌, ◌≡◌, ◌≢◌, refl, sym, ap, ◌∙◌, Bool, not, Bytes, ◌++◌, length,
  length-append, length-take, length-drop, drop-drop, drop, leb, leb→le, ◌==◌, arith, inl, inr,
  Bool-cases, if◌then◌else◌,
}
use pyhdiff.Status.{status_limit}
use pyhdiff.Bridge.Throw.{
  diverges, done, done_through, done-injective, Cpp-cases, require, require_ok, ◌>>=◌,
}
use pyhdiff.Bridge.Zstd.{Step, value, zcheck, zcheck_ok}
use pyhdiff.Bridge.Apply.{chunk_size}
use pyhdiff.Bridge.Growable.{Growable, contents, append}
use pyhdiff.Bridge.Growable.Contents.{IsValid, append_lem, append-ne-diverges}
use pyhdiff.Bridge.Encode.Run.{MakesProgress, again-eq-wants_call, Compressing, stop, more}
use pyhdiff.Bridge.Encode.{Encoder, Flow, encode_call, chunk_loop}

-- The encoding so far is a valid buffer within the limit.
abbrev pub IsWithin : ℕ → Growable → Type 0
IsWithin limit g = IsValid g × (g.size ≤ limit)

length-contents : (g : Growable) → IsValid g → length (contents g) ≡ g.size
length-contents g v = omega (arith, length-take g.size g.storage)

module _ (alloc : ℕ → Bool) (Z : Encoder) where
  open Z use {Ctx, compress_stream, memory_allocation}

  -- What a call that returns has done.
  pub record Called (limit : ℕ) (chunk : Bytes) (last : Bool) (f : Flow Ctx) (r : Bool × Flow Ctx)
      : Type 0 where
    pub remaining : ℕ
    pub code : Step.code (compress_stream f.ctx (drop f.at chunk) chunk_size last) ≡ value remaining
    pub again : r.0 ≡ (
        if last
        then not (remaining == 0)
        else not (
            f.at + Step.consumed (compress_stream f.ctx (drop f.at chunk) chunk_size last)
            == length chunk))
    pub ctx_after : r.1.ctx ≡ Step.ctx (compress_stream f.ctx (drop f.at chunk) chunk_size last)
    pub at_after :
        r.1.at ≡ f.at + Step.consumed (compress_stream f.ctx (drop f.at chunk) chunk_size last)
    pub within : IsWithin limit r.1.encoded
    pub written :
        contents r.1.encoded
        ≡ contents f.encoded
          ++ Step.produced (compress_stream f.ctx (drop f.at chunk) chunk_size last)
    pub grown :
        r.1.encoded.size
        ≡ f.encoded.size
          + length (Step.produced (compress_stream f.ctx (drop f.at chunk) chunk_size last))

  pub encode_call_lem :
      (limit : ℕ) (chunk : Bytes) (last : Bool) (f : Flow Ctx) {r : Bool × Flow Ctx}
      → IsWithin limit f.encoded
      → encode_call alloc Z limit chunk last f ≡ done r
      → Called limit chunk last f r
  unfolding encode_call
  encode_call_lem limit chunk last f (v, b) e =
      let s = compress_stream f.ctx (drop f.at chunk) chunk_size last in
      let (n, z, e₁) = done_through (zcheck memory_allocation s.code) _ e in
      let (_, q, e₂) =
        done_through (require (leb (length s.produced) (limit - f.encoded.size)) status_limit) _
          e₁ in
      let (g, x, e₃) = done_through (append alloc s.produced f.encoded) _ e₂ in
      let (valid, same) = append_lem alloc s.produced f.encoded v x in
      let room = leb→le _ _ (require_ok _ _ q) in
      let grown : g.size ≡ f.encoded.size + length s.produced = omega (
        arith,
        ap (λ c. length c) same,
        length-append (contents f.encoded) s.produced,
        length-contents f.encoded v,
        length-contents g valid,
      ) in
      subst (Called limit chunk last f) (done-injective e₃) (record {
        remaining = n;
        code = zcheck_ok memory_allocation s.code z;
        again = refl;
        ctx_after = refl;
        at_after = refl;
        within = (valid, omega arith);
        written = same;
        grown = grown;
      })

  encode_call-ne-diverges :
      (limit : ℕ) (chunk : Bytes) (last : Bool) (f : Flow Ctx)
      → encode_call alloc Z limit chunk last f ≢ diverges
  unfolding encode_call zcheck
  encode_call-ne-diverges limit chunk last f =
      let s = compress_stream f.ctx (drop f.at chunk) chunk_size last in
      ground (arith, append-ne-diverges alloc s.produced f.encoded)

  pub chunk_loop-ne-diverges :
      MakesProgress Z
      → (fuel limit : ℕ) (chunk : Bytes) (last : Bool) (f : Flow Ctx) → IsWithin limit f.encoded
      → f.at ≤ length chunk
      → (length chunk - f.at) + (limit - f.encoded.size) < fuel
      → chunk_loop alloc Z fuel limit chunk last f ≢ diverges
  unfolding chunk_loop
  chunk_loop-ne-diverges P zero limit chunk last f w ha h = absurd (omega arith)
  chunk_loop-ne-diverges P (suc fuel) limit chunk last f w ha h =
      elim (Cpp-cases (encode_call alloc Z limit chunk last f)) [
        | inl d ↦ absurd (encode_call-ne-diverges limit chunk last f d)
        | inr (inl (t, e)) ↦ rw (e, ◌>>=◌) (λ x. cc)
        | inr (inr (r, e)) ↦
            let k = encode_call_lem limit chunk last f w e in
            let reads = Z.consumed-le f.ctx (drop f.at chunk) chunk_size last in
            elim (Bool-cases r.0) [
              | inr over ↦ rw (e, ◌>>=◌, over) (λ x. cc)
              | inl goes ↦
                  let moved =
                    P f.ctx (drop f.at chunk) chunk_size last k.remaining (omega arith) k.code (
                      sym (
                        again-eq-wants_call chunk last f.at k.remaining
                          (compress_stream f.ctx (drop f.at chunk) chunk_size last) ha)
                      ∙ sym k.again
                      ∙ goes) in
                  rw (e, ◌>>=◌, goes)
                    (chunk_loop-ne-diverges P fuel limit chunk last r.1 k.within
                      (omega (arith, k.at_after, length-drop f.at chunk))
                      (omega (arith, k.at_after, k.grown, k.within, length-drop f.at chunk)))
            ]
      ]

  pub chunk_loop_done :
      (fuel limit : ℕ) (chunk : Bytes) (last : Bool) (f : Flow Ctx) {h : Flow Ctx}
      → IsWithin limit f.encoded
      → f.at ≤ length chunk
      → chunk_loop alloc Z fuel limit chunk last f ≡ done h
      → IsWithin limit h.encoded
        × ((t : Bytes) × (contents h.encoded ≡ contents f.encoded ++ t)
            × Compressing Z chunk_size last h.ctx f.ctx (drop f.at chunk) t)
  unfolding chunk_loop
  chunk_loop_done zero limit chunk last f w ha e = cc
  chunk_loop_done (suc fuel) limit chunk last f {h} w ha e =
      let (r, x, rest) = done_through (encode_call alloc Z limit chunk last f) _ e in
      let k = encode_call_lem limit chunk last f w x in
      let s = compress_stream f.ctx (drop f.at chunk) chunk_size last in
      let reads = Z.consumed-le f.ctx (drop f.at chunk) chunk_size last in
      elim (Bool-cases r.0) [
        | inr over ↦
            let same : r.1 ≡ h = done-injective (rw over at rest) in
            rw (← same) (
              k.within,
              (
                s.produced,
                k.written,
                stop f.ctx (drop f.at chunk) k.remaining k.code
                    (sym (again-eq-wants_call chunk last f.at k.remaining s ha)
                      ∙ sym k.again
                      ∙ over)
                    k.ctx_after,
              ),
            )
        | inl goes ↦
            let (within, (t, same, run)) =
              chunk_loop_done fuel limit chunk last r.1 k.within
                (omega (arith, k.at_after, length-drop f.at chunk)) (rw goes at rest) in
            (
              within,
              (
                s.produced ++ t,
                same ∙ ap (λ b. b ++ t) k.written ∙ append_assoc (contents f.encoded) s.produced t,
                more f.ctx (drop f.at chunk) k.remaining k.code (
                    rw (drop-drop s.consumed f.at r.1.at chunk (sym k.at_after)) (
                      subst (λ c. Compressing Z chunk_size last h.ctx c (drop r.1.at chunk) t)
                        k.ctx_after run)),
              ),
            )
      ]
