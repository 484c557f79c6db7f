-- ===== src/Scripts/Toolchain/Runtime.antt =====
-- `build_runtime` of scripts/toolchain.py.
use Prim.Native.String.{◌++◌ as ◌<>◌}
use pyhdiff.Scripts.Text.{ends_with}
use pyhdiff.Base.{
  Bool, true, false, ◌&&◌, ◌||◌, Option, none, some, String, str_eq, List, [], ◌∷◌, ◌++◌,
  if◌then◌else◌,
}
use pyhdiff.Scripts.Files.{FilePath, directory, file, Files, shown, below, exists}
use pyhdiff.Scripts.Build.{
  Build, ◌>>=◌, ◌>>◌, give, look, make_directory, remove_tree, remove_existing, rename, write_file,
  read_file,
}
use pyhdiff.Scripts.Toolchain.{
  Machine, Mode, mode_name, out_name, abi, abi_namespace, harden, relative, last_name, run, digest,
}

-- `";".join(parts)`
abbrev pub joined : List String → String
joined [] = ""
joined (a ∷ []) = a
joined (a ∷ (b ∷ s)) = a <> ";" <> joined (b ∷ s)

abbrev pub flags : FilePath → FilePath → String
flags source work =
    harden
    <> " -ffile-prefix-map="
    <> shown source
    <> "=llvm-project -ffile-prefix-map="
    <> shown work
    <> "=build"

abbrev pub common : FilePath → FilePath → FilePath → FilePath → List String
common llvm source work staging =
    "-G"
    ∷ "Ninja"
    ∷ "-DCMAKE_BUILD_TYPE=Release"
    ∷ "-DCMAKE_POSITION_INDEPENDENT_CODE=ON"
    ∷ "-DCMAKE_C_COMPILER_TARGET=x86_64-unknown-linux-gnu"
    ∷ "-DCMAKE_CXX_COMPILER_TARGET=x86_64-unknown-linux-gnu"
    ∷ ("-DCMAKE_C_COMPILER=" <> shown llvm <> "/bin/clang")
    ∷ ("-DCMAKE_CXX_COMPILER=" <> shown llvm <> "/bin/clang++")
    ∷ ("-DCMAKE_INSTALL_PREFIX=" <> shown staging)
    ∷ ("-DCMAKE_C_FLAGS=" <> flags source work)
    ∷ ("-DCMAKE_CXX_FLAGS=" <> flags source work)
    ∷ "-DLLVM_ENABLE_PER_TARGET_RUNTIME_DIR=OFF"
    ∷ []

abbrev pub builtins_settings : List String
builtins_settings =
    "-DCOMPILER_RT_DEFAULT_TARGET_ONLY=ON" ∷ "-DCOMPILER_RT_BUILTINS_HIDE_SYMBOLS=ON" ∷ []

abbrev pub runtimes_settings : Mode → List String
runtimes_settings mode =
    "-DLLVM_INCLUDE_TESTS=OFF"
    ∷ "-DLLVM_ENABLE_RUNTIMES=libcxx;libcxxabi;libunwind"
    ∷ ("-DLIBCXX_HARDENING_MODE=" <> mode_name mode)
    ∷ ("-DLIBCXX_ABI_NAMESPACE=" <> abi_namespace)
    ∷ ("-DLIBCXX_ABI_DEFINES=" <> joined abi)
    ∷ "-DLIBCXX_ENABLE_SHARED=OFF"
    ∷ "-DLIBCXX_ENABLE_STATIC=ON"
    ∷ "-DLIBCXX_HERMETIC_STATIC_LIBRARY=ON"
    ∷ "-DLIBCXX_ENABLE_EXCEPTIONS=ON"
    ∷ "-DLIBCXX_ENABLE_RTTI=ON"
    ∷ "-DLIBCXX_INCLUDE_TESTS=OFF"
    ∷ "-DLIBCXX_INCLUDE_BENCHMARKS=OFF"
    ∷ "-DLIBCXX_ENABLE_TIME_ZONE_DATABASE=OFF"
    ∷ "-DLIBCXXABI_ENABLE_SHARED=OFF"
    ∷ "-DLIBCXXABI_ENABLE_STATIC=ON"
    ∷ "-DLIBCXXABI_HERMETIC_STATIC_LIBRARY=ON"
    ∷ "-DLIBCXXABI_USE_LLVM_UNWINDER=ON"
    ∷ "-DLIBCXXABI_ENABLE_STATIC_UNWINDER=ON"
    ∷ "-DLIBCXXABI_INCLUDE_TESTS=OFF"
    ∷ "-DLIBCXXABI_NON_DEMANGLING_TERMINATE=ON"
    ∷ "-DLIBUNWIND_ENABLE_SHARED=OFF"
    ∷ "-DLIBUNWIND_ENABLE_STATIC=ON"
    ∷ "-DLIBUNWIND_HIDE_SYMBOLS=ON"
    ∷ "-DLIBUNWIND_INCLUDE_TESTS=OFF"
    ∷ []

-- Whether a path below `staging` is one of the globs "licenses/*", "lib/**/*.a" and "include/**/*".
abbrev pub is_listed : Option FilePath → Bool
is_listed none = false
is_listed (some []) = false
is_listed (some (top ∷ [])) = false
is_listed (some (top ∷ (a ∷ []))) =
    str_eq top "licenses" || str_eq top "lib" && ends_with ".a" a || str_eq top "include"
is_listed (some (top ∷ (a ∷ (b ∷ p)))) =
    str_eq top "lib" && ends_with ".a" (last_name (b ∷ p)) || str_eq top "include"

-- The files among them.
abbrev pub installed : FilePath → Files → List FilePath
installed staging [] = []
installed staging ((q, directory) ∷ fs) = installed staging fs
installed staging ((q, file b) ∷ fs) =
    let rest = installed staging fs in if is_listed (below staging q) then q ∷ rest else rest

abbrev pub below_or_self : FilePath → FilePath → FilePath
below_or_self d p = elim (below d p) [ none ↦ p | some r ↦ r ]

abbrev pub licensed : List String
licensed = "libcxx" ∷ "libcxxabi" ∷ "libunwind" ∷ "compiler-rt" ∷ []

unfoldable pub copy_licenses : FilePath → FilePath → List String → Build Unit
copy_licenses source licenses [] = give tt
copy_licenses source licenses (project ∷ projects) = do
  text ← read_file (source ++ project ∷ "LICENSE.TXT" ∷ [])
  write_file (licenses ++ ("llvm-" <> project <> ".txt") ∷ []) text
  copy_licenses source licenses projects

module _ (M : Machine) where
  -- `{str(f.relative_to(staging)): digest(f) for f in files}`
  unfoldable pub digests : FilePath → List FilePath → Build (List (String × String))
  digests staging [] = give []
  digests staging (f ∷ fs) = do
    sha ← digest M f
    rest ← digests staging fs
    give ((relative (below_or_self staging f), sha) ∷ rest)

  -- The three commands of each of the two CMake projects.
  unfoldable pub built : FilePath → FilePath → List String → List String → Build Unit
  built source build common' settings = do
    run M ("cmake" ∷ "-S" ∷ shown source ∷ "-B" ∷ shown build ∷ common' ++ settings)
    run M ("cmake" ∷ "--build" ∷ shown build ∷ "-j" ∷ M.jobs ∷ [])
    run M ("cmake" ∷ "--install" ∷ shown build ∷ [])

  -- What `build_runtime` does in `work` and `staging`, up to the last two lines.
  unfoldable pub staged_runtime : FilePath → FilePath → FilePath → FilePath → Mode → Build Unit
  staged_runtime llvm source work staging mode = do
    remove_tree staging
    let base = common llvm source work staging
    built (source ++ "compiler-rt" ∷ "lib" ∷ "builtins" ∷ []) (work ++ "builtins" ∷ []) base
        builtins_settings
    built (source ++ "runtimes" ∷ []) (work ++ "runtimes" ∷ []) base (runtimes_settings mode)
    make_directory true (staging ++ "licenses" ∷ [])
    copy_licenses source (staging ++ "licenses" ∷ []) licensed
    files ← look (installed staging)
    shas ← digests staging (M.listed files)
    write_file (staging ++ "provenance.json" ∷ []) (M.dumps (record { mode = mode; sha256 = shas }))

  -- `mkdtemp`, and what follows it.
  abbrev pub fresh_runtime : FilePath → FilePath → FilePath → FilePath → Mode → Build FilePath
  fresh_runtime llvm source staging out mode = do
    work ← look M.temporary
    make_directory false work
    staged_runtime llvm source work staging mode
    remove_existing work
    rename staging out
    give out

  unfoldable pub build_runtime : FilePath → FilePath → FilePath → Mode → Build FilePath
  build_runtime llvm source prefix mode = do
    let out = prefix ++ out_name mode ∷ []
    present ← look (exists (out ++ "provenance.json" ∷ []))
    if present
        then give out
        else fresh_runtime llvm source (prefix ++ (out_name mode <> ".partial") ∷ []) out mode
