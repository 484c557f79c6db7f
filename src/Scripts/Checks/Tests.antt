-- ===== src/Scripts/Checks/Tests.antt =====
-- A run of scripts/native_checks.py on a sample machine.
use pyhdiff.Base.{ℕ, zero, suc, ◌+◌, ◌≡◌, ◌↔◌, refl, true, false, String, some, [], ◌∷◌}
use pyhdiff.Base.Int.{ℤ, pos, negsuc}
use pyhdiff.Scripts.Checks.{
  Environment, Completed, Processes, assertion_error, Arguments, RunState, Course, stopped_at,
  passed, check_tests, check_probes, main,
}
use pyhdiff.Scripts.Checks.Steps.{Follows}
use pyhdiff.Scripts.Checks.Plan.{build_plan, test_plan, main-Follows}

abbrev completed : ℤ → String → Completed
completed code text = record { returncode = code; stdout = text; stderr = "" }

-- The state counts the processes: two commands, two test programs, and probes that trap.
abbrev answer : ℕ → Completed
answer zero = completed (pos 0) ""
answer (suc zero) = completed (pos 0) ""
answer (suc (suc zero)) = completed (pos 0) "native tests passed\n"
answer (suc (suc (suc zero))) = completed (pos 0) "UBSan regressions passed\n"
answer (suc (suc (suc (suc n)))) = completed (negsuc 5) ""

abbrev machine : Processes
machine = record { State = ℕ; execute = λ n l. (n + 1, some (answer n)); decimal = λ n. "" }

abbrev arguments_given : Arguments
arguments_given = record { toolchain = "/tool"; sanitize = true; jobs = "4" }

abbrev environ : Environment
environ = ("HOME", "/root") ∷ []

abbrev first : RunState machine
first = record { state = 0; ran = []; core_dumps = true }

abbrev world_of : Course machine Unit → RunState machine
world_of (passed a w) = w
world_of (stopped_at e w) = w

unfoldable last : RunState machine
unfolding main
last = world_of (main machine "/repo" environ arguments_given first)

main_run : main machine "/repo" environ arguments_given first ≡ passed tt last
unfolding last main check_tests check_probes
main_run = refl

main-Follows_example : (main machine "/repo" environ arguments_given first ≡ passed tt last) ↔ (
    (u : RunState machine) × Follows machine (build_plan "/repo" environ arguments_given) first u
    × Follows machine
        (test_plan machine "/repo" environ arguments_given)
        (record u { core_dumps = false })
        last)
main-Follows_example = main-Follows machine "/repo" environ arguments_given first last

-- A machine on which a signal ends the first test program.
skipped : RunState machine
skipped = record first { state = 2 }

main_stopped :
    (w : RunState machine) × (main machine "/repo" environ arguments_given skipped
      ≡ stopped_at (assertion_error "native_test exited ") w)
unfolding main check_tests check_probes skipped
main_stopped = (_, refl)
