-- ===== src/Bridge/Frame/Accepts.antt =====
-- Decoders on input that they accept, and a round of `frame_decompress` on it.
use mathlib.Core.Path.{subst}
use mathlib.Core.List.{append_assoc, append-nil}
use pyhdiff.Base.{
  ℕ, ◌+◌, ◌-◌, ◌≤◌, ◌<◌, ◌≡◌, ◌⊎◌, refl, sym, ap, ◌∙◌, min, Bool, true, false, not, ◌&&◌, ◌||◌,
  Bytes, [], ◌∷◌, ◌++◌, length, length-append, length-drop, take, drop, take-all, drop-all,
  drop-drop, ◌==◌, ==_iff, zero, suc, arith, inl, inr, Bool-cases,
}
use pyhdiff.Bridge.Throw.{done}
use pyhdiff.Bridge.Zstd.{Decoder, Step, value, zcheck}
use pyhdiff.Bridge.Growable.{Growable, capacity, contents}
use pyhdiff.Bridge.Growable.Contents.{IsValid, IsKept, resize-write_spare}
use pyhdiff.Bridge.Frame.{Progress, Round, finished, next, full_round, open_round}

-- A call that returned `left`, on input whose rest is `src`, of a decoder that has `out` still to
-- write: what it writes is the start of `out`. If it returned 0 where the input ends, nothing is left
-- to write; and 0 is what it returns where it reads the end of the input and writes the end of `out`.
pub record Called {C : Type 0} (Owes : C → Bytes → Bytes → Type 0) (src out : Bytes) (left : ℕ)
    (s : Step C) : Type 0 where
  pub owed : Bytes
  pub split : out ≡ s.produced ++ owed
  pub next_owes : Owes s.ctx (drop s.consumed src) owed
  pub ends : left ≡ 0 → drop s.consumed src ≡ [] → owed ≡ []
  pub over : 0 < length src + length out → drop s.consumed src ≡ [] → owed ≡ [] → left ≡ 0

-- zstd.h: contexts within a frame, which write the given bytes for the rest of it, with memory to
-- spare. Such a context may be fed any part of the rest, with any room; a call may fail, as zstd does
-- after too many calls without progress. A call with room on all of the rest succeeds, and consumes
-- or writes a byte, as long as there is one to consume or to write. Nothing is asked of a call behind
-- the end of the frame.
pub record Accepts (D : Decoder) : Type 1 where
  pub Owes : Decoder.Ctx D → Bytes → Bytes → Type 0
  pub called :
      (c : Decoder.Ctx D) (src out : Bytes) (k room left : ℕ)
      → Owes c src out
      → Step.code (Decoder.decompress_stream D c (take k src) room) ≡ value left
      → Called Owes src out left (Decoder.decompress_stream D c (take k src) room)
  pub moves :
      (c : Decoder.Ctx D) (src out : Bytes) (room : ℕ)
      → Owes c src out
      → 0 < length src + length out
      → 0 < room
      → ((left : ℕ) × (Step.code (Decoder.decompress_stream D c src room) ≡ value left))
        × (0
            < Step.consumed (Decoder.decompress_stream D c src room)
              + length (Step.produced (Decoder.decompress_stream D c src room)))

pub eq-nil : (b : Bytes) → length b ≡ 0 → b ≡ []
eq-nil [] h = refl
eq-nil (x ∷ xs) h = absurd (omega arith)

-- The steps of a round behind its call, on facts about it.
ends_test :
    (n at consumed size : ℕ)
    → (n == 0 && at + consumed == size) ≡ true
    → (n ≡ 0) × (at + consumed ≡ size)
ends_test n at consumed size h = (ground arith, ground arith)

goes_test :
    (n at consumed size owed : ℕ)
    → (n == 0 && at + consumed == size) ≡ false
    → at + consumed ≤ size
    → (at + consumed ≡ size → owed ≡ 0 → n ≡ 0)
    → 0 < (size - (at + consumed)) + owed
goes_test n at consumed size zero h l over = elim (Bool-cases (at + consumed == size)) [
  | inl c ↦ (let z = over ((==_iff _ _).0 c) refl in absurd (ground arith))
  | inr c ↦ ground arith
]
goes_test n at consumed size (suc owed) h l over = omega arith

pub Round-cases :
    {C : Type 0} (r : Round C)
    → ((g : Growable) × (r ≡ finished g)) ⊎ ((q : Progress C) × (r ≡ next q))
Round-cases (finished g) = inl (g, refl)
Round-cases (next q) = inr (q, refl)

module _ (alloc : ℕ → Bool) (memory : (n : ℕ) → alloc n ≡ true) (D : Decoder) (K : Accepts D) where
  open D use {Ctx, decompress_stream, memory_allocation}
  open K use {Owes}

  -- What a call on all of the rest does.
  record Moved (src out : Bytes) (s : Step Ctx) : Type 0 where
    left : ℕ
    code : s.code ≡ value left
    moved : 0 < s.consumed + length s.produced
    call : Called Owes src out left s

  call_whole :
      (c : Ctx) (src out : Bytes) (room : ℕ)
      → Owes c src out
      → 0 < length src + length out
      → 0 < room
      → Moved src out (decompress_stream c src room)
  call_whole c src out room o some' has_room =
      let all = sym (take-all (length src) src (omega arith)) in
      let ((left, code), moved) = K.moves c src out room o some' has_room in
      record {
        left = left;
        code = code;
        moved = moved;
        call =
            subst (λ b. Called Owes src out left (decompress_stream c b room)) (sym all)
              (K.called c src out (length src) room left o
                (subst (λ b. Step.code (decompress_stream c b room) ≡ value left) all code));
      }

  -- What a round leaves, which had `t` still to write.
  pub record Remains (src : Bytes) (m : ℕ) (p : Progress Ctx) (t : Bytes) (q : Progress Ctx)
      : Type 0 where
    pub owed : Bytes
    pub valid : IsValid q.out
    pub whole : contents q.out ++ owed ≡ contents p.out ++ t
    pub fits : q.out.size + length owed ≤ m
    pub inside : q.at ≤ length src
    pub rests : 0 < (length src - q.at) + length owed
    pub less : (length src - q.at) + length owed < (length src - p.at) + length t
    pub owes : Owes q.ctx (drop q.at src) owed

  abbrev pub RoundOf : Bytes → ℕ → Progress Ctx → Bytes → Round Ctx → Type 0
  RoundOf src m p t (finished g) = contents g ≡ contents p.out ++ t
  RoundOf src m p t (next q) = Remains src m p t q

  -- Behind a call, with the output `g`.
  record Grew (p : Progress Ctx) (produced : Bytes) (g : Growable) : Type 0 where
    valid : IsValid g
    grown_size : g.size ≡ p.out.size + length produced
    grown_contents : contents g ≡ contents p.out ++ produced

  module _ (src : Bytes) (m : ℕ) (p : Progress Ctx) (t : Bytes) (room : ℕ)
      (fits : p.out.size + length t ≤ m) (inside : p.at ≤ length src)
      (rests : 0 < length (drop p.at src) + length t) (owes : Owes p.ctx (drop p.at src) t) where
    abbrev call_of : Step Ctx
    call_of = decompress_stream p.ctx (drop p.at src) room

    finished_whole :
        (d : Moved (drop p.at src) t call_of) (g : Growable)
        → Grew p call_of.produced g
        → (d.left == 0 && p.at + call_of.consumed == length src) ≡ true
        → contents g ≡ contents p.out ++ t
    finished_whole d g w h =
        let k = d.call in
        let (z, full) = ends_test d.left p.at call_of.consumed (length src) h in
        let nothing_owed =
          k.ends z
            (drop-all call_of.consumed (drop p.at src) (omega (arith, length-drop p.at src))) in
        w.grown_contents
        ∙ ap (λ b. contents p.out ++ b)
            (sym (append-nil call_of.produced)
              ∙ ap (λ b. call_of.produced ++ b) (sym nothing_owed)
              ∙ sym k.split)

    next_whole :
        (d : Moved (drop p.at src) t call_of) (g : Growable)
        → Grew p call_of.produced g
        → (d.left == 0 && p.at + call_of.consumed == length src) ≡ false
        → Remains src m p t (record { ctx = call_of.ctx; at = p.at + call_of.consumed; out = g })
    next_whole d g w h =
        let k = d.call in
        let moved = d.moved in
        let reads = D.consumed-le p.ctx (drop p.at src) room in
        let rest = length-drop p.at src in
        let sizes = ap length k.split ∙ length-append call_of.produced k.owed in
        record {
          owed = k.owed;
          valid = w.valid;
          whole =
              ap (λ b. b ++ k.owed) w.grown_contents
              ∙ append_assoc (contents p.out) call_of.produced k.owed
              ∙ ap (λ b. contents p.out ++ b) (sym k.split);
          fits = omega (arith, w.grown_size, sizes);
          inside = omega arith;
          rests =
              goes_test d.left p.at call_of.consumed (length src) (length k.owed) h (omega arith)
                λ full nothing_owed.
                  k.over rests (drop-all call_of.consumed (drop p.at src) (omega arith))
                    (eq-nil k.owed nothing_owed);
          less = omega (arith, sizes);
          owes =
              rw (← drop-drop call_of.consumed p.at (p.at + call_of.consumed) src refl) k.next_owes;
        }

  pub full_round_whole :
      (src : Bytes) (m : ℕ) (p : Progress Ctx) (t : Bytes)
      → IsValid p.out
      → p.out.size ≡ m
      → p.out.size + length t ≤ m
      → p.at ≤ length src
      → 0 < length (drop p.at src) + length t
      → Owes p.ctx (drop p.at src) t
      → (r : Round Ctx) × (full_round alloc D src p ≡ done r) × RoundOf src m p t r
  unfolding full_round zcheck
  full_round_whole src m p t v full fits inside rests o =
      let s = decompress_stream p.ctx (drop p.at src) 1 in
      let d = call_whole p.ctx (drop p.at src) t 1 o rests (omega arith) in
      let k = d.call in
      let moved = d.moved in
      let sizes = ap length k.split ∙ length-append s.produced k.owed in
      let quiet : (length s.produced == 0) ≡ true = ground arith in
      let w : Grew p s.produced p.out = record {
        valid = v;
        grown_size = omega arith;
        grown_contents =
            sym (append-nil (contents p.out))
            ∙ ap (λ b. contents p.out ++ b) (sym (eq-nil s.produced (omega arith)));
      } in
      elim (Bool-cases (d.left == 0 && p.at + s.consumed == length src)) [
        | inl c ↦
            rw (d.code, quiet, c)
              (finished p.out, refl, finished_whole src m p t 1 fits inside rests o d p.out w c)
        | inr c ↦
            let l = next_whole src m p t 1 fits inside rests o d p.out w c in
            let goes : not (s.consumed == 0) ≡ true = ground arith in
            rw (d.code, quiet, c, goes)
              (next (record { ctx = s.ctx; at = p.at + s.consumed; out = p.out }), refl, l)
      ]

  pub open_round_whole :
      (src : Bytes) (m : ℕ) (p : Progress Ctx) (t : Bytes) (out : Growable)
      → IsValid out
      → IsKept p.out out
      → p.out.size < m
      → out.size < capacity out
      → p.out.size + length t ≤ m
      → p.at ≤ length src
      → 0 < length (drop p.at src) + length t
      → Owes p.ctx (drop p.at src) t
      → (r : Round Ctx) × (open_round alloc D src m p out ≡ done r) × RoundOf src m p t r
  unfolding open_round zcheck
  open_round_whole src m p t out v kept below spare' fits inside rests o =
      let room = min (capacity out - out.size) (m - out.size) in
      let s = decompress_stream p.ctx (drop p.at src) room in
      let d = call_whole p.ctx (drop p.at src) t room o rests (omega (arith, kept.same_size)) in
      let moved = d.moved in
      let same = kept.same_size in
      let stays = D.produced-le p.ctx (drop p.at src) room in
      let (g, resized, v', size, grown) = resize-write_spare alloc s.produced out v (omega arith) in
      let w : Grew p s.produced g = record {
        valid = v';
        grown_size = omega (arith, same);
        grown_contents = grown ∙ ap (λ c. c ++ s.produced) kept.same_contents;
      } in
      elim (Bool-cases (d.left == 0 && p.at + s.consumed == length src)) [
        | inl c ↦
            rw (d.code, resized, c)
              (finished g, refl, finished_whole src m p t room fits inside rests o d g w c)
        | inr c ↦
            let l = next_whole src m p t room fits inside rests o d g w c in
            let goes : (not (s.consumed == 0) || not (length s.produced == 0)) ≡ true =
              ground arith in
            rw (d.code, resized, c, goes)
              (next (record { ctx = s.ctx; at = p.at + s.consumed; out = g }), refl, l)
      ]
