-- ===== src/Bridge/Frame/Rounds.antt =====
-- One round of the loop of `frame_decompress`.
use pyhdiff.Base.{
  ℕ, ◌+◌, ◌-◌, ◌≤◌, ◌<◌, min, ◌≡◌, ◌≢◌, refl, sym, ap, ◌∙◌, Bytes, [], ◌∷◌, ◌++◌, length, drop,
  arith, Bool, true, not, ◌&&◌, ◌||◌, ◌==◌, ==_iff, inl, inr, Bool-cases,
}
use mathlib.Core.Path.{subst}
use mathlib.Core.List.{append-nil}
use pyhdiff.Status.{status_limit, status_invalid}
use pyhdiff.Bridge.Throw.{
  diverges, done, done_through, done-injective, ne-diverges_through, require_ok, require,
}
use pyhdiff.Bridge.Zstd.{Decoder, Step, value, zcheck, zcheck_ok, zcheck-ne-diverges}
use pyhdiff.Bridge.Apply.{chunk_size}
use pyhdiff.Bridge.Growable.{Growable, capacity, contents, spare, resize, write_spare}
use pyhdiff.Bridge.Growable.Contents.{
  IsValid, IsKept, spare_lem, resize-write_spare, spare-ne-diverges, resize-ne-diverges,
}
use pyhdiff.Bridge.Frame.{Progress, Round, finished, next, full_round, open_round, frame_round}

eq-nil : (b : Bytes) → (length b == 0) ≡ true → b ≡ []
eq-nil [] h = refl
eq-nil (x ∷ xs) h = absurd (omega (arith, (==_iff _ 0).0 h))

module _ (alloc : ℕ → Bool) (Z : Decoder) where
  open Z use {Ctx, decompress_stream, memory_allocation}

  -- The output after a call is the output before it and then what the call produced, and is within
  -- the bound.
  pub record Grown (max_output : ℕ) (before : Growable) (produced : Bytes) (after : Growable)
      : Type 0 where
    pub valid : IsValid after
    pub grown_size : after.size ≡ before.size + length produced
    pub bounded : after.size ≤ max_output
    pub grown_contents : contents after ≡ contents before ++ produced

  -- What a round that ends well has done with one call of the decoder.
  abbrev pub RoundIsSound : Bytes → ℕ → Progress Ctx → Round Ctx → Type 0
  RoundIsSound src m p (finished g) =
      (room : ℕ) × Grown m p.out (Step.produced (decompress_stream p.ctx (drop p.at src) room)) g
      × (Step.code (decompress_stream p.ctx (drop p.at src) room) ≡ value 0)
      × (p.at + Step.consumed (decompress_stream p.ctx (drop p.at src) room) ≡ length src)
  RoundIsSound src m p (next q) =
      (room left : ℕ) × Grown m p.out (Step.produced (decompress_stream p.ctx (drop p.at src) room))
        q.out
      × (Step.code (decompress_stream p.ctx (drop p.at src) room) ≡ value left)
      × (q.ctx ≡ Step.ctx (decompress_stream p.ctx (drop p.at src) room))
      × (q.at ≡ p.at + Step.consumed (decompress_stream p.ctx (drop p.at src) room))
      × (0
          < Step.consumed (decompress_stream p.ctx (drop p.at src) room)
            + length (Step.produced (decompress_stream p.ctx (drop p.at src) room)))

  Grown-nil :
      (m : ℕ) (g : Growable) (b : Bytes)
      → IsValid g
      → g.size ≤ m
      → (length b == 0) ≡ true
      → Grown m g b g
  Grown-nil m g b v h e = rw (eq-nil b e) (record {
    valid = v;
    grown_size = omega arith;
    bounded = h;
    grown_contents = sym (append-nil (contents g));
  })

  full_round_sound :
      (src : Bytes) (m : ℕ) (p : Progress Ctx) {r : Round Ctx}
      → IsValid p.out
      → p.out.size ≤ m
      → full_round alloc Z src p ≡ done r
      → RoundIsSound src m p r
  unfolding full_round
  full_round_sound src m p {r} v h e =
      let s = decompress_stream p.ctx (drop p.at src) 1 in
      let (n, z, e₁) = done_through (zcheck memory_allocation s.code) _ e in
      let (_, q, e₂) = done_through (require (length s.produced == 0) status_limit) _ e₁ in
      let grown = Grown-nil m p.out s.produced v h (require_ok _ _ q) in
      elim (Bool-cases (n == 0 && p.at + s.consumed == length src)) [
        | inl c ↦
            subst (RoundIsSound src m p) (done-injective (rw c at e₂))
              (1, grown, ground (arith, zcheck_ok memory_allocation s.code z), ground arith)
        | inr c ↦
            let (_, moved, e₃) =
              done_through (require (not (s.consumed == 0)) status_invalid) _ (rw c at e₂) in
            let moved' = require_ok _ _ moved in
            subst (RoundIsSound src m p) (done-injective e₃)
              (1, n, grown, zcheck_ok memory_allocation s.code z, refl, refl, ground arith)
      ]

  open_round_sound :
      (src : Bytes) (m : ℕ) (p : Progress Ctx) (out : Growable) {r : Round Ctx}
      → IsValid out
      → IsKept p.out out
      → p.out.size ≤ m
      → open_round alloc Z src m p out ≡ done r
      → RoundIsSound src m p r
  unfolding open_round
  open_round_sound src m p out {r} v k h e =
      let room = min (capacity out - out.size) (m - out.size) in
      let s = decompress_stream p.ctx (drop p.at src) room in
      let fits = Z.produced-le p.ctx (drop p.at src) room in
      let (n, z, e₁) = done_through (zcheck memory_allocation s.code) _ e in
      let (g, resized, e₂) =
        done_through (resize alloc (out.size + length s.produced) (write_spare s.produced out)) _
          e₁ in
      let (g', resized', v', size, same) =
        resize-write_spare alloc s.produced out v (omega arith) in
      let eq : g' ≡ g = done-injective (sym resized' ∙ resized) in
      let grown : Grown m p.out s.produced g = subst (Grown m p.out s.produced) eq (record {
        valid = v';
        grown_size = omega (arith, k.same_size);
        bounded = omega (arith, k.same_size);
        grown_contents = same ∙ ap (λ c. c ++ s.produced) k.same_contents;
      }) in
      elim (Bool-cases (n == 0 && p.at + s.consumed == length src)) [
        | inl c ↦
            subst (RoundIsSound src m p) (done-injective (rw c at e₂))
              (room, grown, ground (arith, zcheck_ok memory_allocation s.code z), ground arith)
        | inr c ↦
            let (_, moved, e₃) =
              done_through
                (require (not (s.consumed == 0) || not (length s.produced == 0)) status_invalid) _
                (rw c at e₂) in
            let moved' = require_ok _ _ moved in
            subst (RoundIsSound src m p) (done-injective e₃)
              (room, n, grown, zcheck_ok memory_allocation s.code z, refl, refl, ground arith)
      ]

  IsKept-IsValid : (g h : Growable) (n : ℕ) → IsKept g h → g.size + n ≤ capacity h → IsValid h
  IsKept-IsValid g h n k room = omega (arith, k.same_size)

  pub frame_round_sound :
      (src : Bytes) (m : ℕ) (p : Progress Ctx) {r : Round Ctx}
      → IsValid p.out
      → p.out.size ≤ m
      → frame_round alloc Z src m p ≡ done r
      → RoundIsSound src m p r
  unfolding frame_round
  frame_round_sound src m p v h e = elim (Bool-cases (p.out.size == m)) [
    | inl c ↦ full_round_sound src m p v h (rw c at e)
    | inr c ↦
        let (out, spared, e₁) =
          done_through (spare alloc (min (m - p.out.size) chunk_size) p.out) _ (rw c at e) in
        let (k, room) = spare_lem alloc (min (m - p.out.size) chunk_size) p.out v spared in
        open_round_sound src m p out (IsKept-IsValid p.out out _ k room) k h e₁
  ]

  full_round-ne-diverges : (src : Bytes) (p : Progress Ctx) → full_round alloc Z src p ≢ diverges
  unfolding full_round
  full_round-ne-diverges src p = ground (
    arith,
    zcheck-ne-diverges memory_allocation (Step.code (decompress_stream p.ctx (drop p.at src) 1)),
  )

  open_round-ne-diverges :
      (src : Bytes) (m : ℕ) (p : Progress Ctx) (out : Growable)
      → open_round alloc Z src m p out ≢ diverges
  unfolding open_round
  open_round-ne-diverges src m p out =
      let room = min (capacity out - out.size) (m - out.size) in
      let s = decompress_stream p.ctx (drop p.at src) room in
      ground (
        arith,
        zcheck-ne-diverges memory_allocation s.code,
        resize-ne-diverges alloc (out.size + length s.produced) (write_spare s.produced out),
      )

  pub frame_round-ne-diverges :
      (src : Bytes) (m : ℕ) (p : Progress Ctx) → frame_round alloc Z src m p ≢ diverges
  unfolding frame_round
  frame_round-ne-diverges src m p = elim (Bool-cases (p.out.size == m)) [
    | inl c ↦ rw c (full_round-ne-diverges src p)
    | inr c ↦ rw c (
        ne-diverges_through (spare alloc (min (m - p.out.size) chunk_size) p.out) _
          (spare-ne-diverges alloc _ p.out) λ out _. open_round-ne-diverges src m p out)
  ]
