-- ===== src/Bridge/Throw.antt =====
-- `Failure`, `require`, `boundary` and `phd_result` of src/native/bridge.cpp and bridge.h.
use pyhdiff.Base.{ap, ◌≡◌, ◌≢◌, ◌⊎◌, inl, inr, refl, Bool, true, false, Option, none, some, Bytes}
use pyhdiff.Status.{Status, status_alloc, status_exception, status_unknown}

-- What a C++ function throws: `std::bad_alloc`, a `Failure`, another standard exception, or
-- anything else.
pub data Thrown : Type 0 where
  bad_alloc : Thrown
  failure : Status → Thrown
  std_exception : Thrown
  other_exception : Thrown

-- A C++ computation. `diverges` is no result of the program: a loop of the model ran out of fuel.
pub data Cpp {ℓ} (A : Type ℓ) : Type ℓ where
  diverges : Cpp A
  throw : Thrown → Cpp A
  done : A → Cpp A

module _ {ℓ κ} {A : Type ℓ} {B : Type κ} where
  infixl 5 ◌>>=◌
  abbrev pub ◌>>=◌ : Cpp A → (A → Cpp B) → Cpp B
  diverges >>= next = diverges
  throw t >>= next = throw t
  done value >>= next = next value

  pub done_through :
      (first : Cpp A) (next : A → Cpp B) {b : B}
      → (first >>= next) ≡ done b
      → (value : A) × (first ≡ done value) × (next value ≡ done b)
  done_through diverges next e = cc
  done_through (throw t) next e = cc
  done_through (done value) next e = (value, refl, e)

pub Cpp-cases {ℓ} :
    {A : Type ℓ} (r : Cpp A)
    → (r ≡ diverges) ⊎ (((t : Thrown) × (r ≡ throw t)) ⊎ ((a : A) × (r ≡ done a)))
Cpp-cases diverges = inl refl
Cpp-cases (throw t) = inr (inl (t, refl))
Cpp-cases (done a) = inr (inr (a, refl))

pub done-injective {ℓ} : {A : Type ℓ} {a b : A} → done a ≡ done b → a ≡ b
done-injective {a} h = ap (λ r. elim r [ done x ↦ x | throw t ↦ a | diverges ↦ a ]) h

pub throw-ne-done {ℓ} : {A : Type ℓ} {t : Thrown} {a : A} → ¬ (throw t ≡ done a)
throw-ne-done h = cc

module _ {ℓ κ} {A : Type ℓ} {B : Type κ} where
  -- A sequence ends if its parts end.
  pub ne-diverges_through :
      (first : Cpp A) (next : A → Cpp B)
      → first ≢ diverges
      → ((value : A) → first ≡ done value → next value ≢ diverges)
      → (first >>= next) ≢ diverges
  ne-diverges_through diverges next f g = absurd (f refl)
  ne-diverges_through (throw t) next f g = λ e. cc
  ne-diverges_through (done value) next f g = g value refl

infixl 5 ◌>>◌
abbrev pub ◌>>◌ {κ} : {B : Type κ} → Cpp (Unit {0}) → Cpp B → Cpp B
first >> second = first >>= (λ _. second)

-- `require(condition, status)`
abbrev pub require : Bool → Status → Cpp (Unit {0})
require true s = done tt
require false s = throw (failure s)

pub require_ok : (b : Bool) (s : Status) {u : Unit {0}} → require b s ≡ done u → b ≡ true
require_ok true s e = refl
require_ok false s e = cc

pub require-ne-diverges : (b : Bool) (s : Status) → require b s ≢ diverges
require-ne-diverges true s = λ e. cc
require-ne-diverges false s = λ e. cc

-- `phd_result`: its storage, which a failure does not have, and the status.
pub record PhdResult : Type 0 where
  pub contents : Option Bytes
  pub status : Status

abbrev pub failed : Status → PhdResult
failed s = record { contents = none; status = s }

-- `boundary`: every exception becomes a status.
unfoldable pub boundary : Cpp PhdResult → Option PhdResult
boundary diverges = none
boundary (done r) = some r
boundary (throw bad_alloc) = some (failed status_alloc)
boundary (throw (failure s)) = some (failed s)
boundary (throw std_exception) = some (failed status_exception)
boundary (throw other_exception) = some (failed status_unknown)
