-- ===== src/Bridge/Compress/Calls.antt =====
-- The calls of the compressor that the plugin makes for one chunk.
use mathlib.Core.List.{append-nil}
use mathlib.Core.Path.{subst}
use pyhdiff.Base.{
  ℕ, zero, suc, ◌+◌, ◌-◌, ◌≤◌, ◌<◌, ◌≡◌, ◌≢◌, refl, sym, ap, ◌∙◌, Bool, true, false, not, Bytes, [],
  ◌++◌, length, length-append, length-drop, drop-drop, drop, ◌==◌, arith, if◌then◌else◌, inl, inr,
}
use pyhdiff.Bridge.Throw.{
  diverges, done, done_through, done-injective, ◌>>=◌, Cpp-cases, throw-ne-done,
  ne-diverges_through,
}
use pyhdiff.Bridge.Zstd.{Step, value, zcheck, zcheck_ok, zcheck-ne-diverges}
use pyhdiff.Bridge.Encode.{Encoder}
use pyhdiff.Bridge.Encode.Run.{MakesProgress, again-eq-wants_call, Compressing, stop, more}
use pyhdiff.Bridge.Compress.{
  Sink, Put, accepted, refused, put_threw, Stream, turned, abandoned, Turn, again, ended, put_turn,
  compress_turn, turn_loop,
}

module _ (K : Sink) where
  open K use {State}

  -- The stream accepted these bytes, in pieces one behind the other, from a position on.
  pub data Wrote : State → ℕ → Bytes → State → Type 0 where
    nothing : (s : State) (at : ℕ) → Wrote s at [] s
    piece :
        {s t u : State} (at : ℕ) (b : Bytes) {rest : Bytes}
        → K.write s at b ≡ accepted t
        → Wrote t (at + length b) rest u
        → Wrote s at (b ++ rest) u

module _ (alloc : ℕ → Bool) (Z : Encoder) (K : Sink) (in_size out_size : ℕ) where
  open Z use {Ctx, compress_stream, memory_allocation}
  open K use {State}

  abbrev call_of : Bytes → Bool → Stream Ctx State → Step Ctx
  call_of chunk last f = compress_stream f.ctx (drop f.at chunk) out_size last

  -- What a call has done whose output was accepted.
  pub record Took (chunk : Bytes) (last : Bool) (f : Stream Ctx State) (goes : Bool)
      (g : Stream Ctx State) : Type 0 where
    pub remaining : ℕ
    pub code : Step.code (call_of chunk last f) ≡ value remaining
    pub test :
        (if last
          then not (remaining == 0)
          else not (f.at + Step.consumed (call_of chunk last f) == length chunk))
        ≡ goes
    pub ctx_after : g.ctx ≡ Step.ctx (call_of chunk last f)
    pub at_after : g.at ≡ f.at + Step.consumed (call_of chunk last f)
    pub put : K.write f.sink f.written (Step.produced (call_of chunk last f)) ≡ accepted g.sink
    pub written_after : g.written ≡ f.written + length (Step.produced (call_of chunk last f))

  abbrev pub TurnOf : Bytes → Bool → Stream Ctx State → Turn Ctx State → Type 0
  TurnOf chunk last f (again g) = Took chunk last f true g
  TurnOf chunk last f (ended (turned g)) = Took chunk last f false g
  TurnOf chunk last f (ended (abandoned s)) = Unit

  put_turn_lem :
      (chunk : Bytes) (last : Bool) (f : Stream Ctx State) (p : Put State) (goes : Bool)
      (remaining : ℕ) {r : Turn Ctx State}
      → Step.code (call_of chunk last f) ≡ value remaining
      → (if last
          then not (remaining == 0)
          else not (f.at + Step.consumed (call_of chunk last f) == length chunk))
        ≡ goes
      → K.write f.sink f.written (Step.produced (call_of chunk last f)) ≡ p
      → put_turn alloc Z K in_size out_size p goes
          (Step.ctx (call_of chunk last f))
          (f.at + Step.consumed (call_of chunk last f))
          (f.written + length (Step.produced (call_of chunk last f)))
        ≡ done r
      → TurnOf chunk last f r
  put_turn_lem chunk last f (put_threw t) goes remaining c q w e = cc
  put_turn_lem chunk last f (refused s) goes remaining c q w e =
      subst (TurnOf chunk last f) (done-injective e) tt
  put_turn_lem chunk last f (accepted s) true remaining c q w e =
      subst (TurnOf chunk last f) (done-injective e) (record {
        remaining = remaining;
        code = c;
        test = q;
        ctx_after = refl;
        at_after = refl;
        put = w;
        written_after = refl;
      })
  put_turn_lem chunk last f (accepted s) false remaining c q w e =
      subst (TurnOf chunk last f) (done-injective e) (record {
        remaining = remaining;
        code = c;
        test = q;
        ctx_after = refl;
        at_after = refl;
        put = w;
        written_after = refl;
      })

  pub compress_turn_lem :
      (chunk : Bytes) (last : Bool) (f : Stream Ctx State) {r : Turn Ctx State}
      → compress_turn alloc Z K in_size out_size chunk last f ≡ done r
      → TurnOf chunk last f r
  unfolding compress_turn
  compress_turn_lem chunk last f e =
      let (n, z, e₁) =
        done_through (zcheck memory_allocation (Step.code (call_of chunk last f))) _ e in
      put_turn_lem chunk last f _ _ n (zcheck_ok memory_allocation _ z) refl refl e₁

  put_turn-ne-diverges :
      (p : Put State) (goes : Bool) (c : Ctx) (at written : ℕ)
      → put_turn alloc Z K in_size out_size p goes c at written ≢ diverges
  put_turn-ne-diverges (put_threw t) goes c at written = λ e. cc
  put_turn-ne-diverges (refused s) goes c at written = λ e. cc
  put_turn-ne-diverges (accepted s) true c at written = λ e. cc
  put_turn-ne-diverges (accepted s) false c at written = λ e. cc

  compress_turn-ne-diverges :
      (chunk : Bytes) (last : Bool) (f : Stream Ctx State)
      → compress_turn alloc Z K in_size out_size chunk last f ≢ diverges
  unfolding compress_turn
  compress_turn-ne-diverges chunk last f =
      ne-diverges_through (zcheck memory_allocation (Step.code (call_of chunk last f))) _
        (zcheck-ne-diverges memory_allocation _) λ n _. put_turn-ne-diverges _ _ _ _ _

  pub turn_loop-ne-diverges :
      MakesProgress Z
      → 0 < out_size
      → (fuel : ℕ) (chunk : Bytes) (last : Bool) (f : Stream Ctx State) → f.at ≤ length chunk
      → (length chunk - f.at) + (K.size - f.written) < fuel
      → turn_loop alloc Z K in_size out_size fuel chunk last f ≢ diverges
  unfolding turn_loop
  turn_loop-ne-diverges P o zero chunk last f ha h = absurd (omega arith)
  turn_loop-ne-diverges P o (suc fuel) chunk last f ha h =
      elim (Cpp-cases (compress_turn alloc Z K in_size out_size chunk last f)) [
        | inl d ↦ absurd (compress_turn-ne-diverges chunk last f d)
        | inr (inl (t, e)) ↦ rw (e, ◌>>=◌) (λ x. cc)
        | inr (inr (ended l, e)) ↦ rw (e, ◌>>=◌) (λ x. cc)
        | inr (inr (again g, e)) ↦
            let k = compress_turn_lem chunk last f e in
            let reads = Z.consumed-le f.ctx (drop f.at chunk) out_size last in
            let room =
              K.accepted-le f.sink f.written (Step.produced (call_of chunk last f)) k.put in
            let moved = P f.ctx (drop f.at chunk) out_size last k.remaining o k.code (
              sym (again-eq-wants_call chunk last f.at k.remaining (call_of chunk last f) ha)
              ∙ k.test) in
            rw (e, ◌>>=◌)
              (turn_loop-ne-diverges P o fuel chunk last g
                (omega (arith, k.at_after, length-drop f.at chunk))
                (omega (arith, k.at_after, k.written_after, length-drop f.at chunk)))
      ]

  -- A run for the rest of the chunk, whose output the stream accepted.
  abbrev pub Fed : Bytes → Bool → Stream Ctx State → Stream Ctx State → Type 0
  Fed chunk last f h =
      (t : Bytes) × Compressing Z out_size last h.ctx f.ctx (drop f.at chunk) t
      × Wrote K f.sink f.written t h.sink
      × (h.written ≡ f.written + length t)

  Fed-stop :
      (chunk : Bytes) (last : Bool) (f g : Stream Ctx State)
      → f.at ≤ length chunk
      → Took chunk last f false g
      → Fed chunk last f g
  Fed-stop chunk last f g ha k =
      let b = Step.produced (call_of chunk last f) in
      let whole : Wrote K f.sink f.written (b ++ []) g.sink =
        piece f.written b k.put (nothing g.sink (f.written + length b)) in
      (
        b,
        stop f.ctx (drop f.at chunk) k.remaining k.code
            (sym (again-eq-wants_call chunk last f.at k.remaining (call_of chunk last f) ha)
              ∙ k.test)
            k.ctx_after,
        rw (append-nil b) at whole,
        k.written_after,
      )

  Fed-more :
      (chunk : Bytes) (last : Bool) (f g h : Stream Ctx State)
      → Took chunk last f true g
      → Fed chunk last g h
      → Fed chunk last f h
  Fed-more chunk last f g h k (t, run, wrote, size) =
      let s = call_of chunk last f in
      (
        s.produced ++ t,
        more f.ctx (drop f.at chunk) k.remaining k.code (
            rw (drop-drop s.consumed f.at g.at chunk (sym k.at_after)) (
              subst (λ x. Compressing Z out_size last h.ctx x (drop g.at chunk) t) k.ctx_after
                run)),
        piece f.written s.produced k.put
            (subst (λ n. Wrote K g.sink n t h.sink) k.written_after wrote),
        omega (arith, k.written_after, size, length-append s.produced t),
      )

  pub turn_loop_done :
      (fuel : ℕ) (chunk : Bytes) (last : Bool) (f : Stream Ctx State) {h : Stream Ctx State}
      → f.at ≤ length chunk
      → turn_loop alloc Z K in_size out_size fuel chunk last f ≡ done (turned h)
      → Fed chunk last f h
  unfolding turn_loop
  turn_loop_done zero chunk last f ha e = cc
  turn_loop_done (suc fuel) chunk last f {h} ha e =
      elim (Cpp-cases (compress_turn alloc Z K in_size out_size chunk last f)) [
        | inl d ↦ absurd (compress_turn-ne-diverges chunk last f d)
        | inr (inl (t, c)) ↦ absurd (throw-ne-done (rw (c, ◌>>=◌) at e))
        | inr (inr (ended (abandoned s), c)) ↦
            absurd (abandoned-ne-turned (done-injective (rw (c, ◌>>=◌) at e)))
        | inr (inr (ended (turned g), c)) ↦
            subst (Fed chunk last f) (turned-injective (done-injective (rw (c, ◌>>=◌) at e)))
              (Fed-stop chunk last f g ha (compress_turn_lem chunk last f c))
        | inr (inr (again g, c)) ↦
            let k = compress_turn_lem chunk last f c in
            let reads = Z.consumed-le f.ctx (drop f.at chunk) out_size last in
            Fed-more chunk last f g h k (
              turn_loop_done fuel chunk last g (omega (arith, k.at_after, length-drop f.at chunk))
                (rw (c, ◌>>=◌) at e))
      ]
    where
      abandoned-ne-turned : {s : State} {g : Stream Ctx State} → abandoned s ≢ turned g
      abandoned-ne-turned x = cc

      turned-injective : {g k : Stream Ctx State} → turned g ≡ turned k → g ≡ k
      turned-injective {g} x = ap (λ l. elim l [ turned y ↦ y | abandoned s ↦ g ]) x
