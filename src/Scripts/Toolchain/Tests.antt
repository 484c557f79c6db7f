-- ===== src/Scripts/Toolchain/Tests.antt =====
-- Runs of scripts/toolchain.py on a small machine, and the theorems at them.
use pyhdiff.Base.{◌≡◌, refl, true, false, String, List, [], ◌∷◌, ◌++◌, none, some}
use pyhdiff.Scripts.Files.{FilePath, directory, file, Files}
use pyhdiff.Scripts.Build.{World, Fault, command_failed, Ran, stopped, finished}
use pyhdiff.Scripts.Toolchain.{Machine, Executed, compiler, extensive, fetch}
use pyhdiff.Scripts.Toolchain.Runtime.{copy_licenses, digests, built, staged_runtime, build_runtime}
use pyhdiff.Scripts.Toolchain.Fetch.{IsVerified, fetch-IsVerified}
use pyhdiff.Scripts.Toolchain.Whole.{IsAbsent, marker, build_runtime_stopped}
use pyhdiff.Scripts.Toolchain.Done.{build_runtime_again}

-- `cmake --install` of this machine puts a library into the staging directory.
abbrev staging : FilePath
staging = "p" ∷ "runtime.partial" ∷ []

abbrev install : List String → Files → Executed
install args fs = record {
  files =
      (staging, directory)
      ∷ (staging ++ "lib" ∷ [], directory)
      ∷ (staging ++ "lib" ∷ "libc++.a" ∷ [], file (1 ∷ []))
      ∷ fs;
  success = true;
}

abbrev working : Machine
working = record {
  url_open = λ url. some (record { received = 9 ∷ []; complete = true });
  execute = install;
  version_output = λ fs. none;
  hex_digest = λ b. compiler.sha256;
  dumps = λ p. 2 ∷ [];
  temporary = λ fs. "tmp" ∷ [];
  listed = λ paths. paths;
  jobs = "4";
}

-- Its network is down and its commands fail.
abbrev broken : Machine
broken = record working {
  url_open = λ url. none;
  execute = λ args fs. record { files = fs; success = false };
}

abbrev blank : World
blank = record { files = []; commands = [] }

abbrev archive_path : FilePath
archive_path = "c" ∷ compiler.name ∷ []

abbrev fetched : World
fetched = record {
  files = (archive_path, file (9 ∷ [])) ∷ ("c" ∷ [], directory) ∷ [];
  commands = [];
}

fetch_run : fetch working compiler ("c" ∷ []) blank ≡ finished archive_path fetched
unfolding fetch
fetch_run = refl

fetch-IsVerified_example :
    (archive_path ≡ ("c" ∷ []) ++ compiler.name ∷ [])
    × IsVerified working archive_path compiler.sha256 fetched
fetch-IsVerified_example = fetch-IsVerified working compiler ("c" ∷ []) blank fetch_run

abbrev sources : World
sources = record {
  files =
      ("p" ∷ [], directory)
      ∷ ("s" ∷ "libcxx" ∷ "LICENSE.TXT" ∷ [], file [])
      ∷ ("s" ∷ "libcxxabi" ∷ "LICENSE.TXT" ∷ [], file [])
      ∷ ("s" ∷ "libunwind" ∷ "LICENSE.TXT" ∷ [], file [])
      ∷ ("s" ∷ "compiler-rt" ∷ "LICENSE.TXT" ∷ [], file [])
      ∷ [];
  commands = [];
}

abbrev out : FilePath
out = "p" ∷ "runtime" ∷ []

abbrev world_of : {A : Type 0} → Ran A → World
world_of (stopped e w) = w
world_of (finished a w) = w

abbrev ran : Machine → Ran FilePath
ran M = build_runtime M ("p" ∷ "llvm" ∷ []) ("s" ∷ []) ("p" ∷ []) extensive sources

build_run : ran working ≡ finished out (world_of (ran working))
unfolding build_runtime staged_runtime built copy_licenses digests
build_run = refl

abbrev fault_of : {A : Type 0} → Ran A → Fault
fault_of (stopped e w) = e
fault_of (finished a w) = command_failed []

build_failed : ran broken ≡ stopped (fault_of (ran broken)) (world_of (ran broken))
unfolding build_runtime staged_runtime built
build_failed = refl

build_runtime_stopped_example : IsAbsent (marker ("p" ∷ []) extensive) (world_of (ran broken))
build_runtime_stopped_example =
    build_runtime_stopped broken ("p" ∷ "llvm" ∷ []) ("s" ∷ []) ("p" ∷ []) extensive
      (λ args fs a. a) (λ fs. refl) sources refl build_failed

build_runtime_again_example :
    build_runtime broken ("q" ∷ []) ("t" ∷ []) ("p" ∷ []) extensive (world_of (ran working))
    ≡ finished out (world_of (ran working))
build_runtime_again_example =
    build_runtime_again working broken ("p" ∷ "llvm" ∷ []) ("s" ∷ []) ("q" ∷ []) ("t" ∷ [])
      ("p" ∷ []) extensive (λ fs. refl) sources build_run
