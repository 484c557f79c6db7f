-- ===== src/Scripts/Toolchain/Main.antt =====
-- `main` of scripts/toolchain.py, behind the argument parser.
use pyhdiff.Scripts.Text.{contains, remove_suffix}
use Prim.Native.String.{◌++◌ as ◌<>◌}
use pyhdiff.Base.{
  Option, none, some, Bool, false, not, ◌||◌, String, List, [], ◌∷◌, ◌++◌, if◌then◌else◌,
}
use pyhdiff.Scripts.Files.{FilePath, shown, exists}
use pyhdiff.Scripts.Build.{
  command_failed, stop, Build, ◌>>=◌, ◌>>◌, give, exit_if, look, make_directory, remove_tree,
  rename,
}
use pyhdiff.Scripts.Toolchain.{
  Machine, Mode, extensive, compiler, source_archive, source_dirs, llvm_version, llvm_rev,
  last_name, run, fetch, install_compiler,
}
use pyhdiff.Scripts.Toolchain.Runtime.{build_runtime}

-- The version that `clang --version` shows is not the pinned one.
abbrev pub is_unexpected : String → Bool
is_unexpected version =
    not (contains ("clang version " <> llvm_version <> " ") version)
    || not (contains llvm_rev version)

abbrev pub below_top : String → List String → List String
below_top top [] = []
below_top top (d ∷ ds) = (top <> "/" <> d) ∷ below_top top ds

-- `subprocess.check_output` of `clang --version`.
abbrev pub checked_output : FilePath → Option String → Build String
checked_output clang none = stop (command_failed (shown clang ∷ "--version" ∷ []))
checked_output clang (some version) = give version

module _ (M : Machine) where
  abbrev pub fetch_source : FilePath → FilePath → FilePath → Build Unit
  fetch_source prefix cache source = do
    archive ← fetch M source_archive cache
    let staging = prefix ++ "llvm-project.partial" ∷ []
    remove_tree staging
    make_directory false staging
    run M (
        "tar"
        ∷ "-xJf"
        ∷ shown archive
        ∷ "-C"
        ∷ shown staging
        ∷ "--strip-components=1"
        ∷ below_top (remove_suffix ".tar.xz" (last_name archive)) source_dirs)
    rename staging source

  unfoldable pub build_all : FilePath → FilePath → FilePath → List Mode → Build (List FilePath)
  build_all llvm source prefix [] = give []
  build_all llvm source prefix (mode ∷ modes) = do
    out ← build_runtime M llvm source prefix mode
    rest ← build_all llvm source prefix modes
    give (out ∷ rest)

  -- `a.mode or ["extensive"]`
  abbrev pub modes_or_default : List Mode → List Mode
  modes_or_default [] = extensive ∷ []
  modes_or_default (mode ∷ modes) = mode ∷ modes

  -- The printed paths are the result.
  unfoldable pub main : FilePath → FilePath → List Mode → Build (List FilePath)
  main prefix cache modes = do
    archive ← fetch M compiler cache
    llvm ← install_compiler M archive prefix
    shown_version ← look M.version_output
    version ← checked_output (llvm ++ "bin" ∷ "clang" ∷ []) shown_version
    exit_if (is_unexpected version) ("unexpected compiler: " <> version)
    let source = prefix ++ "llvm-project" ∷ []
    present ← look (exists source)
    if present then give tt else fetch_source prefix cache source
    build_all llvm source prefix (modes_or_default modes)
