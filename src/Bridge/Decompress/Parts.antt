-- ===== src/Bridge/Decompress/Parts.antt =====
-- `decompress_part` of the plugin.
use mathlib.Core.Path.{subst}
use mathlib.Core.List.{append_assoc, append-nil}
use pyhdiff.Base.{
  ℕ, zero, suc, ◌+◌, ◌-◌, ◌≤◌, ◌<◌, ◌≡◌, ◌≢◌, refl, sym, ◌∙◌, Bool, true, false, not, ◌||◌, [],
  Bytes, ◌++◌, length, drop, leb, leb→le, length-append, length-drop, ◌==◌, ==_iff, arith, inl, inr,
  Bool-cases,
}
use pyhdiff.Status.{status_invalid}
use pyhdiff.Bridge.Throw.{
  diverges, done, done_through, done-injective, ne-diverges_through, require, require_ok,
  require-ne-diverges,
}
use pyhdiff.Bridge.Zstd.{Decoder, Step, value, zcheck, zcheck_ok, zcheck-ne-diverges}
use pyhdiff.Bridge.Decompress.{
  Plugin, left, refill, advanced, part_round, part_loop, part_fuel, decompress_part,
}
use pyhdiff.Bridge.Decompress.View.{
  IsValid, view, Refilled, refill_lem, refill-ne-diverges, advanced-IsValid, Feeds, fed,
  Feeds-trans, Feeds-advanced,
}

module _ (Z : Decoder) where
  open Z use {Ctx, decompress_stream, memory_allocation}

  -- What a round that returns has done: it wrote `b`, no more than there was room for, and read or
  -- wrote a byte at least.
  pub record Rounded (room : ℕ) (p q : Plugin Ctx) (b : Bytes) : Type 0 where
    pub valid : IsValid q
    pub same_remaining : q.remaining ≡ p.remaining
    pub fits : length b ≤ room
    pub reads : left q ≤ left p
    pub progress : left q < left p + length b
    pub feeds : Feeds Z (view p) b (view q)

  -- The state after a call on the refilled buffer, which read or wrote something.
  Rounded-advanced :
      (room : ℕ) (p q : Plugin Ctx) (r : ℕ)
      → Refilled p q
      → p.finished ≡ false
      → Step.code (decompress_stream q.ctx (drop q.at q.input) room) ≡ value r
      → (not (Step.consumed (decompress_stream q.ctx (drop q.at q.input) room) == 0)
          || not (length (Step.produced (decompress_stream q.ctx (drop q.at q.input) room)) == 0))
        ≡ true
      → Rounded room p
          (advanced q (decompress_stream q.ctx (drop q.at q.input) room) r)
          (Step.produced (decompress_stream q.ctx (drop q.at q.input) room))
  Rounded-advanced room p q r f open' code moved =
      let s = decompress_stream q.ctx (drop q.at q.input) room in
      let within = Z.consumed-le q.ctx (drop q.at q.input) room in
      let some' : 0 < s.consumed + length s.produced =
        positive s.consumed (length s.produced) moved in
      record {
        valid = advanced-IsValid q s r f.valid within;
        same_remaining = f.same_remaining;
        fits = Z.produced-le q.ctx (drop q.at q.input) room;
        reads = omega (arith, f.same_left, length-drop q.at q.input);
        progress = omega (arith, f.same_left, length-drop q.at q.input);
        feeds = Feeds-advanced Z p q room r f open' code;
      }
    where
      positive : (a b : ℕ) → (not (a == 0) || not (b == 0)) ≡ true → 0 < a + b
      positive a b h = ground arith

  part_round_lem :
      (room : ℕ) (p : Plugin Ctx) {r : Plugin Ctx × Bytes}
      → IsValid p
      → part_round Z room p ≡ done r
      → Rounded room p r.0 r.1
  unfolding part_round
  part_round_lem room p v e =
      let (_, o, e₁) = done_through (require (not p.finished) status_invalid) _ e in
      let (q, f, e₂) = done_through (refill p) _ e₁ in
      let s = decompress_stream q.ctx (drop q.at q.input) room in
      let (n, z, e₃) = done_through (zcheck memory_allocation s.code) _ e₂ in
      let (_, m, e₄) =
        done_through
          (require (not (s.consumed == 0) || not (length s.produced == 0)) status_invalid) _ e₃ in
      subst (λ t. Rounded room p t.0 t.1) (done-injective e₄)
        (Rounded-advanced room p q n (refill_lem p v f) (open-flag p.finished (require_ok _ _ o))
          (zcheck_ok memory_allocation s.code z) (require_ok _ _ m))
    where
      open-flag : (b : Bool) → not b ≡ true → b ≡ false
      open-flag true h = cc
      open-flag false h = refl

  part_round-ne-diverges : (room : ℕ) (p : Plugin Ctx) → part_round Z room p ≢ diverges
  unfolding part_round
  part_round-ne-diverges room p =
      ne-diverges_through (require (not p.finished) status_invalid) _ (require-ne-diverges _ _)
        λ _ _. ne-diverges_through (refill p) _ (refill-ne-diverges p) λ q _.
          ne-diverges_through
            (zcheck memory_allocation
              (Step.code (decompress_stream q.ctx (drop q.at q.input) room)))
            _ (zcheck-ne-diverges memory_allocation _) λ n _. ground arith

  part_loop-ne-diverges :
      (fuel size : ℕ) (p : Plugin Ctx) (out : Bytes)
      → IsValid p
      → length out ≤ size
      → left p + (size - length out) < fuel
      → part_loop Z fuel size p out ≢ diverges
  unfolding part_loop
  part_loop-ne-diverges zero size p out v h k = absurd (omega arith)
  part_loop-ne-diverges (suc fuel) size p out v h k = elim (Bool-cases (length out == size)) [
    | inl full ↦ rw (full, part_loop) (λ e. cc)
    | inr short ↦
        rw (short, part_loop)
          (ne-diverges_through (part_round Z (size - length out) p) _
            (part_round-ne-diverges (size - length out) p)
            λ r e.
              let d = part_round_lem (size - length out) p v e in
              part_loop-ne-diverges fuel size r.0 (out ++ r.1) d.valid
                (omega (arith, length-append out r.1, d.fits))
                (omega (arith, length-append out r.1, d.fits, d.reads, d.progress)))
  ]

  -- What the loop adds to `out`.
  pub record Filled (size : ℕ) (p : Plugin Ctx) (out : Bytes) (r : Plugin Ctx × Bytes)
      : Type 0 where
    pub valid : IsValid r.0
    pub same_remaining : r.0.remaining ≡ p.remaining
    pub added : Bytes
    pub same_out : r.1 ≡ out ++ added
    pub full : length r.1 ≡ size
    pub feeds : Feeds Z (view p) added (view r.0)

  part_loop_done :
      (fuel size : ℕ) (p : Plugin Ctx) (out : Bytes) {r : Plugin Ctx × Bytes}
      → IsValid p
      → part_loop Z fuel size p out ≡ done r
      → Filled size p out r
  unfolding part_loop
  part_loop_done zero size p out v e = cc
  part_loop_done (suc fuel) size p out {r} v e = elim (Bool-cases (length out == size)) [
    | inl full ↦ rw (← done-injective (rw (full, part_loop) at e)) (record {
      valid = v;
      same_remaining = refl;
      added = [];
      same_out = sym (append-nil out);
      full = (==_iff _ _).0 full;
      feeds = fed (view p);
    })
    | inr short ↦
        let (t, x, rest) =
          done_through (part_round Z (size - length out) p) _ (rw (short, part_loop) at e) in
        let d = part_round_lem (size - length out) p v x in
        let w = part_loop_done fuel size t.0 (out ++ t.1) d.valid rest in
        record {
          valid = w.valid;
          same_remaining = w.same_remaining ∙ d.same_remaining;
          added = t.1 ++ w.added;
          same_out = w.same_out ∙ append_assoc out t.1 w.added;
          full = w.full;
          feeds = Feeds-trans Z d.feeds w.feeds;
        }
  ]

  pub decompress_part-ne-diverges :
      (size : ℕ) (p : Plugin Ctx) → IsValid p → decompress_part Z size p ≢ diverges
  unfolding decompress_part
  decompress_part-ne-diverges size p v =
      ne-diverges_through (require (leb size p.remaining) status_invalid) _
        (require-ne-diverges _ _)
        λ _ _.
          ne-diverges_through (part_loop Z (part_fuel size p) size p []) _
            (part_loop-ne-diverges (part_fuel size p) size p [] v (omega arith) (omega arith))
            λ r _ e. cc

  -- A part that returns has filled its output of `size` bytes, which are off what remains.
  pub record Part (size : ℕ) (p q : Plugin Ctx) (out : Bytes) : Type 0 where
    pub valid : IsValid q
    pub full : length out ≡ size
    pub taken : q.remaining + size ≡ p.remaining
    pub feeds : Feeds Z (view p) out (view q)

  pub decompress_part_lem :
      (size : ℕ) (p : Plugin Ctx) {r : Plugin Ctx × Bytes}
      → IsValid p
      → decompress_part Z size p ≡ done r
      → Part size p r.0 r.1
  unfolding decompress_part
  decompress_part_lem size p v e =
      let (_, o, e₁) = done_through (require (leb size p.remaining) status_invalid) _ e in
      let (t, x, e₂) = done_through (part_loop Z (part_fuel size p) size p []) _ e₁ in
      let w = part_loop_done (part_fuel size p) size p [] v x in
      let enough = leb→le _ _ (require_ok _ _ o) in
      subst (λ r. Part size p r.0 r.1) (done-injective e₂)
        (record {
          valid = record {
            source_order = w.valid.source_order;
            source_end = w.valid.source_end;
            input_order = w.valid.input_order;
            input_size = w.valid.input_size;
          };
          full = w.full;
          taken = omega (arith, w.same_remaining);
          feeds = rw w.same_out w.feeds;
        })
