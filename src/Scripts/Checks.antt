-- ===== src/Scripts/Checks.antt =====
-- scripts/native_checks.py, behind its argument parser.
pub mod Steps
pub mod Plan
pub mod Tests
use Prim.Native.String.{◌++◌ as ◌<>◌}
use pyhdiff.Base.{
  ℕ, zero, suc, ◌+◌, Option, none, some, Bool, true, false, not, ◌&&◌, String, str_eq, List, [],
  ◌∷◌, ◌++◌, ◌==◌, if◌then◌else◌,
}
use pyhdiff.Base.Int.{ℤ, pos, negsuc}
use pyhdiff.Scripts.Text.{contains}

abbrev pub Environment : Type 0
Environment = List (String × String)

-- `dict(env, NAME=value)`
abbrev pub with_variable : String → String → Environment → Environment
with_variable name value [] = (name, value) ∷ []
with_variable name value ((n, v) ∷ env) =
    let rest = with_variable name value env in
    if str_eq n name then (name, value) ∷ env else (n, v) ∷ rest

-- What a process is started with. `core_dumps` says whether its limit allows them.
pub record Launch : Type 0 where
  pub arguments : List String
  pub environment : Environment
  pub core_dumps : Bool

-- `CompletedProcess`. The code of a process that a signal ended is negative.
pub record Completed : Type 0 where
  pub returncode : ℤ
  pub stdout : String
  pub stderr : String

-- The processes: what one leaves of the machine, and how it completes, `none` if it does not start.
-- `decimal` is `str` of a number.
pub record Processes : Type 1 where
  pub State : Type 0
  pub execute : State → Launch → State × Option Completed
  pub decimal : ℤ → String

-- `CalledProcessError`, `AssertionError`, and the `OSError` of a program that does not start.
pub data Failure : Type 0 where
  called_process_error : List String → Failure
  assertion_error : String → Failure
  os_error : Failure

pub record Arguments : Type 0 where
  pub toolchain : String
  pub sanitize : Bool
  pub jobs : String

abbrev pub exited_well : ℤ → Bool
exited_well (pos n) = n == 0
exited_well (negsuc n) = false

abbrev pub was_signalled : ℤ → Bool
was_signalled (pos n) = false
was_signalled (negsuc n) = true

abbrev pub build_directory : String → Bool → String
build_directory root sanitize =
    root <> "/build/" <> (if sanitize then "native-sanitize" else "native")

-- `env`
abbrev pub build_environment : Environment → Arguments → Environment
build_environment environ o =
    let env = with_variable "PYHDIFF_TOOLCHAIN" o.toolchain environ in
    if o.sanitize
    then with_variable "PYHDIFF_RUNTIME" (o.toolchain <> "/runtime-debug") env
    else env

-- `run_env`
abbrev pub run_environment : Environment → Environment
run_environment env =
    with_variable "UBSAN_OPTIONS" "halt_on_error=1:print_stacktrace=1"
      (with_variable "ASAN_OPTIONS" "detect_leaks=1:halt_on_error=1" env)

abbrev pub configure : String → String → Bool → List String
configure root build sanitize =
    "cmake"
    ∷ "-S"
    ∷ root
    ∷ "-B"
    ∷ build
    ∷ "-G"
    ∷ "Ninja"
    ∷ ("-DCMAKE_TOOLCHAIN_FILE=" <> root <> "/cmake/toolchain.cmake")
    ∷ ("-DCMAKE_BUILD_TYPE=" <> (if sanitize then "Debug" else "Release"))
    ∷ "-DPYHDIFF_NATIVE_TESTS=ON"
    ∷ ("-DPYHDIFF_SANITIZE=" <> (if sanitize then "ON" else "OFF"))
    ∷ ("-DPYHDIFF_HARDENING=" <> (if sanitize then "debug" else "extensive"))
    ∷ []

-- The programs of the first loop, each with the text that says it passed.
abbrev pub test_programs : List (String × String)
test_programs =
    ("native_test", "native tests passed") ∷ ("hdiff_regression", "UBSan regressions passed") ∷ []

module _ (P : Processes) where
  -- The machine, what has run, and the limit of core dumps.
  pub record RunState : Type 0 where
    pub state : Processes.State P
    pub ran : List (Launch × Option Completed)
    pub core_dumps : Bool

  -- A statement fails, or the script goes on.
  pub data Course (A : Type 0) : Type 0 where
    stopped_at : Failure → RunState → Course A
    passed : A → RunState → Course A

  abbrev pub Statement : Type 0 → Type 0
  Statement A = RunState → Course A

  abbrev pub carry_on : {A B : Type 0} → Course A → (A → Statement B) → Course B
  carry_on (stopped_at e w) next = stopped_at e w
  carry_on (passed a w) next = next a w

  infixl 5 ◌>>=◌
  abbrev pub ◌>>=◌ : {A B : Type 0} → Statement A → (A → Statement B) → Statement B
  first >>= next = λ w. carry_on (first w) next

  infixl 5 ◌>>◌
  abbrev pub ◌>>◌ : {B : Type 0} → Statement Unit → Statement B → Statement B
  first >> second = first >>= (λ _. second)

  abbrev pub started : List String → Environment → RunState → Launch
  started args env w = record { arguments = args; environment = env; core_dumps = w.core_dumps }

  -- The world after a process.
  abbrev pub after : RunState → Launch → RunState
  after w l = record w {
    state = (P.execute w.state l).0;
    ran = w.ran ++ (l, (P.execute w.state l).1) ∷ [];
  }

  abbrev pub answered : Option Completed → Statement Completed
  answered none w = stopped_at os_error w
  answered (some c) w = passed c w

  -- `subprocess.run`
  abbrev pub subprocess_run : List String → Environment → Statement Completed
  subprocess_run args env w =
      let l = started args env w in answered (P.execute w.state l).1 (after w l)

  abbrev pub fails_unless : Bool → Failure → Statement Unit
  fails_unless true e w = passed tt w
  fails_unless false e w = stopped_at e w

  -- `subprocess.run(..., check=True)`
  abbrev pub run_checked : List String → Environment → Statement Unit
  run_checked args env = subprocess_run args env >>= λ c.
      fails_unless (exited_well c.returncode) (called_process_error args)

  -- `resource.setrlimit(resource.RLIMIT_CORE, (0, 0))`
  abbrev pub forbid_core_dumps : Statement Unit
  forbid_core_dumps w = passed tt (record w { core_dumps = false })

  -- The body of the loop over the test programs, without its output.
  abbrev pub check_test : String → Environment → String × String → Statement Unit
  check_test build env (binary, success) =
      subprocess_run ((build <> "/" <> binary) ∷ []) env >>= λ c.
      fails_unless (exited_well c.returncode)
        (assertion_error (binary <> " exited " <> P.decimal c.returncode))
      >> fails_unless (contains success c.stdout) (assertion_error "")
      >> fails_unless (str_eq c.stderr "") (assertion_error "unexpected diagnostics")

  unfoldable pub check_tests : String → Environment → List (String × String) → Statement Unit
  check_tests build env [] = λ w. passed tt w
  check_tests build env (t ∷ ts) = check_test build env t >> check_tests build env ts

  -- The body of the loop over the hardening probes.
  abbrev pub check_probe : String → Environment → ℕ → Statement Unit
  check_probe build env kind =
      let shown = P.decimal (pos kind) in
      subprocess_run ((build <> "/hardening_test") ∷ shown ∷ []) env >>= λ c.
      fails_unless (was_signalled c.returncode) (
        assertion_error
          ("hardening probe " <> shown <> " did not trap: " <> P.decimal c.returncode))
      >> fails_unless
          (not (contains "AddressSanitizer" c.stderr) && not (contains "runtime error:" c.stderr))
          (assertion_error "")

  -- `for kind in range(...)`, from `kind` on.
  unfoldable pub check_probes : String → Environment → ℕ → ℕ → Statement Unit
  check_probes build env kind zero = λ w. passed tt w
  check_probes build env kind (suc more) =
      check_probe build env kind >> check_probes build env (kind + 1) more

  -- `main`. `root` is `ROOT`, and `environ` is `os.environ`.
  unfoldable pub main : String → Environment → Arguments → Statement Unit
  unfolding check_tests check_probes
  main root environ o =
      let build = build_directory root o.sanitize in
      let env = build_environment environ o in
      run_checked (configure root build o.sanitize) env
      >> run_checked ("cmake" ∷ "--build" ∷ build ∷ "-j" ∷ o.jobs ∷ []) env
      >> forbid_core_dumps
      >> check_tests build (run_environment env) test_programs
      >> check_probes build (run_environment env) 0 7
