-- ===== src/Scripts/Checks/Steps.antt =====
-- Statements of scripts/native_checks.py that pass where the processes that they start do well.
use mathlib.Core.Path.{subst}
use pyhdiff.Base.{
  ◌≡◌, ◌↔◌, refl, ap, ◌∙◌, Option, none, some, Bool, true, false, ◌&&◌, String, List, [], ◌∷◌, ◌++◌,
  inl, inr, ◌⊎◌,
}
use pyhdiff.Scripts.Checks.{
  Environment, Completed, Processes, Failure, RunState, Course, stopped_at, passed, Statement,
  carry_on, ◌>>=◌, ◌>>◌, started, after, answered, subprocess_run, fails_unless, forbid_core_dumps,
}

-- A process to start, and what is asked of its completion.
abbrev pub Demand : Type 0
Demand = List String × Environment × (Completed → Bool)

false-ne-true : ¬ (false ≡ true)
false-ne-true e = cc

both : (b c : Bool) → (b && c) ≡ true → (b ≡ true) × (c ≡ true)
both true c h = (refl, h)
both false c h = absurd (false-ne-true h)

module _ (P : Processes) where
  -- The processes run one behind the other, no other does, and each meets what is asked of it.
  pub data Follows : List Demand → RunState P → RunState P → Type 0 where
    over : (w : RunState P) → Follows [] w w
    meets :
        {w v : RunState P} {rest : List Demand} (args : List String) (env : Environment)
        (test : Completed → Bool) (c : Completed)
        → (P.execute w.state (started P args env w)).1 ≡ some c
        → test c ≡ true
        → Follows rest (after P w (started P args env w)) v
        → Follows ((args, env, test) ∷ rest) w v

  -- A statement passes exactly where the plan is followed.
  abbrev pub Does : Statement P Unit → List Demand → Type 0
  Does s plan = (w v : RunState P) → (s w ≡ passed tt v) ↔ Follows plan w v

  passed-injective : {A : Type 0} {a b : A} {w v : RunState P} → passed a w ≡ passed b v → w ≡ v
  passed-injective {w} e = ap (λ c. elim c [ passed a x ↦ x | stopped_at f x ↦ w ]) e

  Course-cases :
      (c : Course P Unit)
      → ((w : RunState P) × (c ≡ passed tt w))
        ⊎ ((f : Failure) × (w : RunState P) × (c ≡ stopped_at f w))
  Course-cases (passed a w) = inl (w, refl)
  Course-cases (stopped_at f w) = inr (f, w, refl)

  stopped_at-ne-passed :
      {A : Type 0} {a : A} {f : Failure} {w v : RunState P} → ¬ (stopped_at f w ≡ passed a v)
  stopped_at-ne-passed e = cc

  Follows-append :
      {p q : List Demand} {u v w : RunState P}
      → Follows p u v
      → Follows q v w
      → Follows (p ++ q) u w
  Follows-append (over w) g = g
  Follows-append (meets args env test c e h rest) g =
      meets args env test c e h (Follows-append rest g)

  Follows-split :
      (p : List Demand) {q : List Demand} {u w : RunState P}
      → Follows (p ++ q) u w
      → (v : RunState P) × Follows p u v × Follows q v w
  Follows-split [] f = (_, over _, f)
  Follows-split (d ∷ p) (meets args env test c e h rest) =
      let (v, f, g) = Follows-split p rest in (v, meets args env test c e h f, g)

  pub Does-then :
      {s t : Statement P Unit} {p q : List Demand}
      → Does s p
      → Does t q
      → Does (◌>>◌ P s t) (p ++ q)
  Does-then {s} {t} {p} {q} d f w v = (there, back)
    where
      there : carry_on P (s w) (λ _. t) ≡ passed tt v → Follows (p ++ q) w v
      there e = elim (Course-cases (s w)) [
        | inl (u, x) ↦ Follows-append ((d w u).0 x) ((f u v).0 (rw x at e))
        | inr (g, u, x) ↦ absurd (stopped_at-ne-passed (rw x at e))
      ]

      back : Follows (p ++ q) w v → carry_on P (s w) (λ _. t) ≡ passed tt v
      back g = let (u, a, b) = Follows-split p g in rw ((d w u).1 a) ((f u v).1 b)

  Follows-nothing : {w v : RunState P} → Follows [] w v → w ≡ v
  Follows-nothing (over w) = refl

  pub Does-nothing : Does (λ w. passed tt w) []
  Does-nothing w v = (
    λ e. subst (Follows [] w) (passed-injective e) (over w),
    λ f. ap (passed tt) (Follows-nothing f),
  )

  -- A statement that passes exactly where a test holds, and leaves the world.
  abbrev pub Asks : Statement P Unit → Bool → Type 0
  Asks s b = (w v : RunState P) → (s w ≡ passed tt v) ↔ ((b ≡ true) × (w ≡ v))

  pub Asks-fails_unless : (b : Bool) (f : Failure) → Asks (fails_unless P b f) b
  Asks-fails_unless true f w v = (λ e. (refl, passed-injective e), λ h. ap (passed tt) h.1)
  Asks-fails_unless false f w v =
      (λ e. absurd (stopped_at-ne-passed e), λ h. absurd (false-ne-true h.0))

  pub Asks-then :
      {s t : Statement P Unit} {b c : Bool} → Asks s b → Asks t c → Asks (◌>>◌ P s t) (b && c)
  Asks-then {s} {t} {b} {c} a d w v = (there, back)
    where
      there : carry_on P (s w) (λ _. t) ≡ passed tt v → ((b && c) ≡ true) × (w ≡ v)
      there e = elim (Course-cases (s w)) [
        | inr (g, u, x) ↦ absurd (stopped_at-ne-passed (rw x at e))
        | inl (u, x) ↦
            let (h, same) = (a w u).0 x in
            let (k, same') = (d u v).0 (rw x at e) in (rw (h, k) refl, same ∙ same')
      ]

      back : ((b && c) ≡ true) × (w ≡ v) → carry_on P (s w) (λ _. t) ≡ passed tt v
      back (h, same) = let (k, l) = both b c h in rw ((a w w).1 (k, refl)) ((d w v).1 (l, same))

  Follows-one :
      {args : List String} {env : Environment} {test : Completed → Bool} {w v : RunState P}
      → Follows ((args, env, test) ∷ []) w v
      → (c : Completed) × ((P.execute w.state (started P args env w)).1 ≡ some c)
        × (test c ≡ true)
        × (after P w (started P args env w) ≡ v)
  Follows-one (meets args env test c h ok' rest) = (c, h, ok', Follows-nothing rest)

  answered_done :
      (a : Option Completed) (x : RunState P) (next : Completed → Statement P Unit) {v : RunState P}
      → carry_on P (answered P a x) next ≡ passed tt v
      → (c : Completed) × (a ≡ some c) × (next c x ≡ passed tt v)
  answered_done none x next e = absurd (stopped_at-ne-passed e)
  answered_done (some c) x next e = (c, refl, e)

  answered-some :
      (a : Option Completed) (x : RunState P) (next : Completed → Statement P Unit) {v : RunState P}
      {c : Completed}
      → a ≡ some c
      → next c x ≡ passed tt v
      → carry_on P (answered P a x) next ≡ passed tt v
  answered-some a x next h e = rw h e

  pub Does-run :
      (args : List String) (env : Environment) (test : Completed → Bool)
      (next : Completed → Statement P Unit)
      → ((c : Completed) → Asks (next c) (test c))
      → Does (◌>>=◌ P (subprocess_run P args env) next) ((args, env, test) ∷ [])
  Does-run args env test next asks w v = (there, back)
    where
      there :
          carry_on P (subprocess_run P args env w) next ≡ passed tt v
          → Follows ((args, env, test) ∷ []) w v
      there e =
          let (c, h, e₁) =
            answered_done (P.execute w.state (started P args env w)).1
              (after P w (started P args env w)) next e in
          let (ok', same) = (asks c (after P w (started P args env w)) v).0 e₁ in
          meets args env test c h ok' (
            subst (Follows [] (after P w (started P args env w))) same
              (over (after P w (started P args env w))))

      back :
          Follows ((args, env, test) ∷ []) w v
          → carry_on P (subprocess_run P args env w) next ≡ passed tt v
      back f =
          let (c, h, ok', same) = Follows-one f in
          answered-some (P.execute w.state (started P args env w)).1
            (after P w (started P args env w)) next h
            ((asks c (after P w (started P args env w)) v).1 (ok', same))

  -- Two phases, the second without core dumps.
  pub phases :
      (b t q : Statement P Unit) {p r : List Demand}
      → Does b p
      → Does (◌>>◌ P t q) r
      → (w v : RunState P)
      → (◌>>◌ P (◌>>◌ P (◌>>◌ P b (forbid_core_dumps P)) t) q w ≡ passed tt v)
        ↔ ((u : RunState P) × Follows p w u × Follows r (record u { core_dumps = false }) v)
  phases b t q {p} {r} d f w v = (there, back)
    where
      there :
          ◌>>◌ P (◌>>◌ P (◌>>◌ P b (forbid_core_dumps P)) t) q w ≡ passed tt v
          → (u : RunState P) × Follows p w u × Follows r (record u { core_dumps = false }) v
      there e = elim (Course-cases (b w)) [
        | inr (g, u, x) ↦ absurd (stopped_at-ne-passed (rw x at e))
        | inl (u, x) ↦ (u, (d w u).0 x, (f (record u { core_dumps = false }) v).0 (rw x at e))
      ]

      back :
          (u : RunState P) × Follows p w u × Follows r (record u { core_dumps = false }) v
          → ◌>>◌ P (◌>>◌ P (◌>>◌ P b (forbid_core_dumps P)) t) q w ≡ passed tt v
      back (u, first, second) =
          rw ((d w u).1 first) ((f (record u { core_dumps = false }) v).1 second)
