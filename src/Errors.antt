-- ===== src/Errors.antt =====
-- The exceptions of src/pyhdiff/__init__.py, and the calls that return or raise.
use pyhdiff.Base.{
  ℕ, zero, suc, String, ◌≡◌, refl, Bool, true, false, ◌||◌, List, [], ◌∷◌, ◌==◌, Option, none, some,
  ap, ◌⊎◌, inl, inr,
}

-- The classes that the module declares, and those of Python that its code raises or derives from.
pub data ExcClass : Type 0 where
  error envelope_error base_mismatch_error decode_error integrity_error limit_error : ExcClass
  option_error native_error allocation_error : ExcClass
  exception value_error runtime_error memory_error type_error arithmetic_error : ExcClass
  overflow_error struct_error system_exit : ExcClass

-- The direct bases of a class.
unfoldable pub bases : ExcClass → List ExcClass
bases error = exception ∷ []
bases envelope_error = error ∷ value_error ∷ []
bases base_mismatch_error = error ∷ value_error ∷ []
bases decode_error = error ∷ value_error ∷ []
bases integrity_error = error ∷ value_error ∷ []
bases limit_error = error ∷ value_error ∷ []
bases option_error = error ∷ value_error ∷ []
bases native_error = error ∷ runtime_error ∷ []
bases allocation_error = error ∷ memory_error ∷ []
bases exception = []
bases value_error = exception ∷ []
bases runtime_error = exception ∷ []
bases memory_error = exception ∷ []
bases type_error = exception ∷ []
bases arithmetic_error = exception ∷ []
bases overflow_error = arithmetic_error ∷ []
bases struct_error = exception ∷ []
bases system_exit = []

-- An index for each class, by which two classes are compared.
abbrev rank : ExcClass → ℕ
rank error = 0
rank envelope_error = 1
rank base_mismatch_error = 2
rank decode_error = 3
rank integrity_error = 4
rank limit_error = 5
rank option_error = 6
rank native_error = 7
rank allocation_error = 8
rank exception = 9
rank value_error = 10
rank runtime_error = 11
rank memory_error = 12
rank type_error = 13
rank arithmetic_error = 14
rank overflow_error = 15
rank struct_error = 16
rank system_exit = 17

-- Whether one of the classes derives from `d`, by a given test.
any_derives : (ExcClass → ExcClass → Bool) → List ExcClass → ExcClass → Bool
any_derives test [] d = false
any_derives test (c ∷ cs) d = test c d || any_derives test cs d

derives : ℕ → ExcClass → ExcClass → Bool
derives zero c d = rank c == rank d
derives (suc depth) c d = rank c == rank d || any_derives (derives depth) (bases c) d

-- `except d:` handles an exception of class `c`. No class above stands more than three steps
-- below its farthest base.
unfoldable pub catches : ExcClass → ExcClass → Bool
unfolding derives any_derives bases
catches d c = derives 3 c d

-- What an exception carries: a message, or a message that ends in a number.
pub data Detail : Type 0 where
  text : String → Detail
  numbered : String → ℕ → Detail

pub record Exc : Type 0 where
  pub cls : ExcClass
  pub detail : Detail

abbrev pub exc : ExcClass → String → Exc
exc c message = record { cls = c; detail = text message }

abbrev pub exc_number : ExcClass → String → ℕ → Exc
exc_number c message n = record { cls = c; detail = numbered message n }

-- A call returns or raises.
pub data Result {ℓ} (A : Type ℓ) : Type ℓ where
  raise : Exc → Result A
  ok : A → Result A

module _ {ℓ κ} {A : Type ℓ} {B : Type κ} where
  infixl 5 ◌>>=◌
  -- Statements in sequence: an exception ends them.
  abbrev pub ◌>>=◌ : Result A → (A → Result B) → Result B
  raise x >>= next = raise x
  ok value >>= next = next value

  -- The parts of a sequence that returned.
  pub returned_through :
      (first : Result A) (next : A → Result B) {b : B}
      → (first >>= next) ≡ ok b
      → (value : A) × (first ≡ ok value) × (next value ≡ ok b)
  returned_through (raise x) next e = cc
  returned_through (ok value) next e = (value, refl, e)

infixl 5 ◌>>◌
abbrev pub ◌>>◌ {κ} : {B : Type κ} → Result (Unit {0}) → Result B → Result B
first >> second = first >>= (λ _. second)

-- `if bad: raise e`
abbrev pub raise_if : Bool → Exc → Result (Unit {0})
raise_if true e = raise e
raise_if false e = ok tt

-- A value that is there, or the exception for its absence.
abbrev pub need {ℓ} : {A : Type ℓ} → Option A → Exc → Result A
need none e = raise e
need (some a) e = ok a

-- The call raises, and what it raises satisfies `P`.
abbrev pub Raises {ℓ} : {A : Type ℓ} → (Exc → Type 0) → Result A → Type 0
Raises P (ok a) = ⊥
Raises P (raise e) = P e

-- What the call raises, if it raises, satisfies `P`.
abbrev pub RaisesOnly {ℓ} : {A : Type ℓ} → (Exc → Type 0) → Result A → Type 0
RaisesOnly P (ok a) = Unit
RaisesOnly P (raise e) = P e

pub Result-cases {ℓ} :
    {A : Type ℓ} (r : Result A) → ((a : A) × (r ≡ ok a)) ⊎ ((e : Exc) × (r ≡ raise e))
Result-cases (ok a) = inl (a, refl)
Result-cases (raise e) = inr (e, refl)

pub ok-injective {ℓ} : {A : Type ℓ} {a b : A} → ok a ≡ ok b → a ≡ b
ok-injective {a} h = ap (λ r. elim r [ ok x ↦ x | raise e ↦ a ]) h

-- A sequence raises what its parts raise.
pub RaisesOnly-through {ℓ κ} :
    {A : Type ℓ} {B : Type κ} (P : Exc → Type 0) (first : Result A) (next : A → Result B)
    → RaisesOnly P first
    → ((a : A) → first ≡ ok a → RaisesOnly P (next a))
    → RaisesOnly P (first >>= next)
RaisesOnly-through P (raise e) next h k = h
RaisesOnly-through P (ok a) next h k = k a refl

pub RaisesOnly-check {ℓ} :
    {A : Type ℓ} (P : Exc → Type 0) (bad : Bool) (e : Exc) (next : Result A)
    → P e
    → (bad ≡ false → RaisesOnly P next)
    → RaisesOnly P (raise_if bad e >> next)
RaisesOnly-check P true e next h k = h
RaisesOnly-check P false e next h k = k refl

pub RaisesOnly-weaken {ℓ} :
    {A : Type ℓ} (P Q : Exc → Type 0) (r : Result A)
    → ((e : Exc) → P e → Q e)
    → RaisesOnly P r
    → RaisesOnly Q r
RaisesOnly-weaken P Q (raise e) f h = f e h
RaisesOnly-weaken P Q (ok a) f h = tt
