-- ===== src/Scripts/Checks/Plan.antt =====
-- What a run of scripts/native_checks.py that passes has seen.
use Prim.Native.String.{◌++◌ as ◌<>◌}
use pyhdiff.Base.{
  ℕ, zero, suc, ◌+◌, ◌≡◌, ◌↔◌, Bool, false, not, ◌&&◌, String, str_eq, List, [], ◌∷◌,
}
use pyhdiff.Base.Int.{pos}
use pyhdiff.Scripts.Text.{contains}
use pyhdiff.Scripts.Checks.Steps.{
  Demand, Follows, Does, Does-then, Asks-then, Asks-fails_unless, Does-run, Does-nothing, phases,
}
use pyhdiff.Scripts.Checks.{
  Environment, Completed, Processes, Arguments, exited_well, was_signalled, build_directory,
  build_environment, run_environment, configure, test_programs, RunState, passed, ◌>>◌, run_checked,
  check_test, check_tests, check_probe, check_probes, main,
}

abbrev succeeds : Completed → Bool
succeeds c = exited_well c.returncode

-- A test program exits with 0, prints that it passed, and writes no diagnostics.
abbrev clean : String → Completed → Bool
clean success c = (exited_well c.returncode && contains success c.stdout) && str_eq c.stderr ""

-- A probe is ended by a signal that no sanitizer reports.
abbrev trapped : Completed → Bool
trapped c =
    was_signalled c.returncode
    && (not (contains "AddressSanitizer" c.stderr) && not (contains "runtime error:" c.stderr))

abbrev pub build_plan : String → Environment → Arguments → List Demand
build_plan root environ o =
    let build = build_directory root o.sanitize in
    let env = build_environment environ o in
    (configure root build o.sanitize, env, succeeds)
    ∷ ("cmake" ∷ "--build" ∷ build ∷ "-j" ∷ o.jobs ∷ [], env, succeeds)
    ∷ []

module _ (P : Processes) where
  abbrev probe_demand : String → Environment → ℕ → Demand
  probe_demand build env kind =
      ((build <> "/hardening_test") ∷ P.decimal (pos kind) ∷ [], env, trapped)

  -- The two test programs, then the seven probes.
  abbrev pub test_plan : String → Environment → Arguments → List Demand
  test_plan root environ o =
      let build = build_directory root o.sanitize in
      let env = run_environment (build_environment environ o) in
      ((build <> "/native_test") ∷ [], env, clean "native tests passed")
      ∷ ((build <> "/hdiff_regression") ∷ [], env, clean "UBSan regressions passed")
      ∷ probe_demand build env 0
      ∷ probe_demand build env 1
      ∷ probe_demand build env 2
      ∷ probe_demand build env 3
      ∷ probe_demand build env 4
      ∷ probe_demand build env 5
      ∷ probe_demand build env 6
      ∷ []

  Does-run_checked :
      (args : List String) (env : Environment)
      → Does P (run_checked P args env) ((args, env, succeeds) ∷ [])
  Does-run_checked args env =
      Does-run P args env succeeds _ λ c. Asks-fails_unless P (exited_well c.returncode) _

  Does-check_test :
      (build : String) (env : Environment) (binary success : String)
      → Does P
          (check_test P build env (binary, success))
          (((build <> "/" <> binary) ∷ [], env, clean success) ∷ [])
  Does-check_test build env binary success =
      Does-run P ((build <> "/" <> binary) ∷ []) env (clean success) _ λ c.
        Asks-then P (Asks-then P (Asks-fails_unless P _ _) (Asks-fails_unless P _ _))
          (Asks-fails_unless P _ _)

  Does-check_probe :
      (build : String) (env : Environment) (kind : ℕ)
      → Does P (check_probe P build env kind) (probe_demand build env kind ∷ [])
  Does-check_probe build env kind =
      Does-run P _ env trapped _
        λ c. Asks-then P (Asks-fails_unless P _ _) (Asks-fails_unless P _ _)

  Does-check_tests :
      (build : String) (env : Environment)
      → Does P (check_tests P build env test_programs) (
          ((build <> "/native_test") ∷ [], env, clean "native tests passed")
          ∷ ((build <> "/hdiff_regression") ∷ [], env, clean "UBSan regressions passed")
          ∷ [])
  unfolding check_tests
  Does-check_tests build env =
      Does-then P (Does-check_test build env "native_test" "native tests passed") (
        Does-then P (Does-check_test build env "hdiff_regression" "UBSan regressions passed")
          (Does-nothing P))

  abbrev probe_plan : String → Environment → ℕ → ℕ → List Demand
  probe_plan build env kind zero = []
  probe_plan build env kind (suc more) =
      probe_demand build env kind ∷ probe_plan build env (kind + 1) more

  Does-check_probes :
      (build : String) (env : Environment) (kind more : ℕ)
      → Does P (check_probes P build env kind more) (probe_plan build env kind more)
  unfolding check_probes
  Does-check_probes build env kind zero = Does-nothing P
  Does-check_probes build env kind (suc more) =
      Does-then P (Does-check_probe build env kind) (Does-check_probes build env (kind + 1) more)

  -- A run of `main` passes exactly where the two commands of the build succeed and then, without core
  -- dumps, the two test programs and the seven probes meet what is asked of them, in this order, and
  -- no other process is started.
  pub main-Follows :
      (root : String) (environ : Environment) (o : Arguments) (w v : RunState P)
      → (main P root environ o w ≡ passed tt v) ↔ (
          (u : RunState P) × Follows P (build_plan root environ o) w u
          × Follows P (test_plan root environ o) (record u { core_dumps = false }) v)
  unfolding main
  main-Follows root environ o =
      let build = build_directory root o.sanitize in
      let env = build_environment environ o in
      phases P
        (◌>>◌ P (run_checked P (configure root build o.sanitize) env)
          (run_checked P ("cmake" ∷ "--build" ∷ build ∷ "-j" ∷ o.jobs ∷ []) env))
        (check_tests P build (run_environment env) test_programs)
        (check_probes P build (run_environment env) 0 7)
        (Does-then P (Does-run_checked (configure root build o.sanitize) env)
          (Does-run_checked ("cmake" ∷ "--build" ∷ build ∷ "-j" ∷ o.jobs ∷ []) env))
        (Does-then P (Does-check_tests build (run_environment env))
          (Does-check_probes build (run_environment env) 0 7))
