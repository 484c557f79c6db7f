-- ===== src/Bridge/Encode/Laws.antt =====
-- `zstd_encode` over the calls for its chunks.
use mathlib.Core.List.{append_assoc}
use mathlib.Core.Path.{subst}
use pyhdiff.Base.{
  ℕ, zero, suc, ◌≤◌, ◌<◌, ◌≡◌, ◌≢◌, ap, ◌∙◌, Bool, false, ◌&&◌, Bytes, [], ◌++◌, length,
  length-take, length-drop, take, drop, leb, leb→le, arith, inl, inr, Bool-cases, List, ◌∷◌,
}
use pyhdiff.Status.{status_limit, raw_max}
use pyhdiff.Bridge.Throw.{
  diverges, done, done_through, done-injective, ne-diverges_through, require, require_ok,
  require-ne-diverges,
}
use pyhdiff.Bridge.Zstd.{zcheck, zcheck-ne-diverges}
use pyhdiff.Bridge.Apply.{created, chunk_size}
use pyhdiff.Bridge.Options.{Options}
use pyhdiff.Bridge.Growable.{Growable, contents, empty}
use pyhdiff.Bridge.Tuning.{Parameter, settings}
use pyhdiff.Bridge.Encode.{
  Encoder, Limits, Flow, set_all, chunk_loop, calls_for, encode_loop, open_encode, zstd_encode,
}
use pyhdiff.Bridge.Encode.Run.{MakesProgress, Compressing, Encoding, last_chunk, next_chunk}
use pyhdiff.Bridge.Encode.Calls.{IsWithin, chunk_loop-ne-diverges, chunk_loop_done}

longer : (a b : ℕ) → leb a b ≡ false → b < a
longer a b h = ground arith

module _ (alloc : ℕ → Bool) (Z : Encoder) where
  open Z use {Ctx, compress_stream, memory_allocation}

  encode_loop-ne-diverges :
      MakesProgress Z
      → (rounds limit : ℕ) (target : Bytes) (c : Ctx) (encoded : Growable) → IsWithin limit encoded
      → length target < rounds
      → encode_loop alloc Z rounds limit target c encoded ≢ diverges
  unfolding encode_loop
  encode_loop-ne-diverges P zero limit target c encoded w h = absurd (omega arith)
  encode_loop-ne-diverges P (suc rounds) limit target c encoded w h =
      let f : Flow Ctx = record { ctx = c; at = 0; encoded = encoded } in
      ne-diverges_through
        (chunk_loop alloc Z (calls_for limit encoded) limit (take chunk_size target)
          (leb (length target) chunk_size) f)
        _
        (chunk_loop-ne-diverges alloc Z P (calls_for limit encoded) limit (take chunk_size target)
          (leb (length target) chunk_size) f w (omega arith)
          (omega (arith, length-take chunk_size target)))
        λ g x. elim (Bool-cases (leb (length target) chunk_size)) [
          | inl last ↦ rw last (λ e. cc)
          | inr more ↦
              let (within, _) =
                chunk_loop_done alloc Z _ limit (take chunk_size target) _ f w (omega arith) x in
              rw more (
                encode_loop-ne-diverges P rounds limit (drop chunk_size target) g.ctx g.encoded
                  within
                  (omega
                    (arith, length-drop chunk_size target, longer (length target) chunk_size more)))
        ]

  encode_loop_done :
      (rounds limit : ℕ) (target : Bytes) (c : Ctx) (encoded : Growable) {g : Growable}
      → IsWithin limit encoded
      → encode_loop alloc Z rounds limit target c encoded ≡ done g
      → IsWithin limit g
        × ((t : Bytes) × (contents g ≡ contents encoded ++ t)
            × Encoding Z chunk_size chunk_size c target t)
  unfolding encode_loop
  encode_loop_done zero limit target c encoded w e = cc
  encode_loop_done (suc rounds) limit target c encoded {g} w e =
      let f : Flow Ctx = record { ctx = c; at = 0; encoded = encoded } in
      let (h, x, rest) =
        done_through
          (chunk_loop alloc Z (calls_for limit encoded) limit (take chunk_size target)
            (leb (length target) chunk_size) f)
          _ e in
      let (within, (t, same, run)) =
        chunk_loop_done alloc Z _ limit (take chunk_size target) (leb (length target) chunk_size) f
          w (omega arith) x in
      elim (Bool-cases (leb (length target) chunk_size)) [
        | inl last ↦ rw (← done-injective (rw last at rest)) (
          within,
          (
            t,
            same,
            last_chunk c h.ctx target (leb→le _ _ last) (
                subst (λ b. Compressing Z chunk_size b h.ctx c (take chunk_size target) t) last
                  run),
          ),
        )
        | inr more ↦
            let (within', (t', same', encoding)) =
              encode_loop_done rounds limit (drop chunk_size target) h.ctx h.encoded within
                (rw more at rest) in
            (
              within',
              (
                t ++ t',
                same' ∙ ap (λ b. b ++ t') same ∙ append_assoc (contents encoded) t t',
                next_chunk c h.ctx target (longer _ _ more)
                    (subst (λ b. Compressing Z chunk_size b h.ctx c (take chunk_size target) t) more
                      run)
                    encoding,
              ),
            )
      ]

  pub set_all-ne-diverges : (ps : List (Parameter × ℕ)) (c : Ctx) → set_all alloc Z ps c ≢ diverges
  unfolding set_all
  set_all-ne-diverges [] c = λ e. cc
  set_all-ne-diverges ((p, v) ∷ ps) c =
      ne-diverges_through (zcheck memory_allocation (Z.set_parameter c p v).1) _
        (zcheck-ne-diverges memory_allocation _)
        λ n e. set_all-ne-diverges ps (Z.set_parameter c p v).0

  open_encode-ne-diverges :
      (base target : Bytes) (o : Options) → open_encode alloc Z base target o ≢ diverges
  unfolding open_encode zcheck
  open_encode-ne-diverges base target o =
      ne-diverges_through (created Z.create) _ (ground arith) λ c _.
        ne-diverges_through (set_all alloc Z (settings Z.presets o (length base) (length target)) c)
          _ (set_all-ne-diverges _ c) λ set _. ground arith

  abbrev sizes_fit : Bytes → Bytes → Limits → Bool
  sizes_fit base target limits = leb (length base) raw_max && leb (length target) limits.input

  -- `zstd_encode` ends, if the compressor makes progress.
  pub zstd_encode-ne-diverges :
      MakesProgress Z
      → (base target : Bytes) (o : Options) (limits : Limits)
      → zstd_encode alloc Z base target o limits ≢ diverges
  unfolding zstd_encode
  zstd_encode-ne-diverges P base target o limits =
      ne-diverges_through (require (sizes_fit base target limits) status_limit) _
        (require-ne-diverges _ _)
        λ _ _.
          ne-diverges_through (open_encode alloc Z base target o) _
            (open_encode-ne-diverges base target o)
            λ c _.
              encode_loop-ne-diverges P _ limits.output target c empty (omega arith, omega arith)
                (omega arith)

  -- Whatever `zstd_encode` returns, the base was within `raw_max` and the target within the input
  -- limit, and the result is a valid buffer within the output limit that holds what a run of the
  -- compressor, opened for the base and the target, wrote for the whole target.
  pub zstd_encode-Encoding :
      (base target : Bytes) (o : Options) (limits : Limits) {g : Growable}
      → zstd_encode alloc Z base target o limits ≡ done g
      → (length base ≤ raw_max)
        × (length target ≤ limits.input)
        × IsWithin limits.output g
        × ((c : Ctx) × (open_encode alloc Z base target o ≡ done c)
            × Encoding Z chunk_size chunk_size c target (contents g))
  unfolding zstd_encode
  zstd_encode-Encoding base target o limits e =
      let (_, q, e₁) = done_through (require (sizes_fit base target limits) status_limit) _ e in
      let (c, opened, e₂) = done_through (open_encode alloc Z base target o) _ e₁ in
      let ok' = require_ok _ _ q in
      let (within, (t, same, run)) =
        encode_loop_done _ limits.output target c empty (omega arith, omega arith) e₂ in
      (leb→le _ _ (ground arith), leb→le _ _ (ground arith), within, (c, opened, rw same run))
