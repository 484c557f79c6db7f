-- ===== src/Scripts/Toolchain.antt =====
-- scripts/toolchain.py: the downloads, the compiler, the runtimes and `main`.
pub mod Runtime
pub mod Main
pub mod Fetch
pub mod Whole
pub mod Done
pub mod Tests
use Prim.Native.String.{◌++◌ as ◌<>◌}
use pyhdiff.Scripts.Text.{remove_suffix}
use pyhdiff.Base.{
  Bool, true, false, not, ◌&&◌, ◌||◌, Option, none, some, String, str_eq, List, [], ◌∷◌, ◌++◌,
  Bytes, if◌then◌else◌,
}
use pyhdiff.Scripts.Files.{FilePath, Node, directory, file, Files, shown, below, is_some, exists}
use pyhdiff.Scripts.Build.{
  World, Fault, system_exit, command_failed, download_failed, Ran, stopped, finished, Build, ◌>>=◌,
  ◌>>◌, give, stop, exit_if, look, make_directory, make_directories, remove_tree, rename,
  write_file, given, read_file,
}

abbrev pub llvm_version : String
llvm_version = "23.1.1"

abbrev pub llvm_rev : String
llvm_rev = "6dfe1677ab8dffbc6ec13d53a1e0215d75147689"

abbrev pub release_url : String
release_url = "https://github.com/llvm/llvm-project/releases/download/llvmorg-" <> llvm_version

-- An archive: its name and its SHA-256.
pub record Archive : Type 0 where
  pub name : String
  pub sha256 : String

abbrev pub compiler : Archive
compiler = record {
  name = "LLVM-" <> llvm_version <> "-Linux-X64.tar.xz";
  sha256 = "832aeb58d105de1cabc7b982dd2c65de0610f7377df48ae8fc2dd8e97420a15c";
}

abbrev pub source_archive : Archive
source_archive = record {
  name = "llvm-project-" <> llvm_version <> ".src.tar.xz";
  sha256 = "ebe9be46fe8756d58c5b198ffad0fa2a766257add81a4dc52179bfacc7888ee6";
}

abbrev pub source_dirs : List String
source_dirs =
    "cmake" ∷ "compiler-rt" ∷ "libc" ∷ "libcxx" ∷ "libcxxabi" ∷ "libunwind" ∷ "runtimes"
    ∷ "llvm/cmake" ∷ "llvm/include" ∷ "llvm/utils" ∷ []

abbrev pub abi_namespace : String
abi_namespace = "__phd23"

abbrev pub abi : List String
abi =
    "_LIBCPP_ABI_BOUNDED_ITERATORS" ∷ "_LIBCPP_ABI_BOUNDED_ITERATORS_IN_VECTOR"
    ∷ "_LIBCPP_ABI_BOUNDED_ITERATORS_IN_STRING" ∷ "_LIBCPP_ABI_BOUNDED_ITERATORS_IN_STD_ARRAY"
    ∷ "_LIBCPP_ABI_BOUNDED_UNIQUE_PTR" ∷ []

abbrev pub harden : String
harden =
    "-O2 -D_FORTIFY_SOURCE=3 -fstack-protector-strong "
    <> "-fstack-clash-protection -ftrivial-auto-var-init=zero"

-- `--mode`
pub data Mode : Type 0 where
  extensive debug : Mode

abbrev pub mode_name : Mode → String
mode_name extensive = "extensive"
mode_name debug = "debug"

abbrev pub out_name : Mode → String
out_name extensive = "runtime"
out_name debug = "runtime-debug"

-- What provenance.json records. The archives and the constants are those above.
pub record Provenance : Type 0 where
  pub mode : Mode
  pub sha256 : List (String × String)

-- What a response has sent, and whether it came to its end.
pub record Response : Type 0 where
  pub received : Bytes
  pub complete : Bool

-- What a command leaves, and whether it succeeded.
pub record Executed : Type 0 where
  pub files : Files
  pub success : Bool

-- The network (`none` where `urlopen` fails), the commands, the output of `clang --version`
-- (`none` where it fails),
-- SHA-256, JSON, and the name that `mkdtemp` picks. `listed` sorts paths.
pub record Machine : Type 0 where
  pub url_open : String → Option Response
  pub execute : List String → Files → Executed
  pub version_output : Files → Option String
  pub hex_digest : Bytes → String
  pub dumps : Provenance → Bytes
  pub temporary : Files → FilePath
  pub listed : List FilePath → List FilePath
  pub jobs : String

-- `path.name`
abbrev pub last_name : FilePath → String
last_name [] = ""
last_name (a ∷ []) = a
last_name (a ∷ (b ∷ p)) = last_name (b ∷ p)

-- The parts of a path joined by slashes, as `str(f.relative_to(staging))`.
abbrev pub relative : FilePath → String
relative [] = "."
relative (a ∷ []) = a
relative (a ∷ (b ∷ p)) = a <> "/" <> relative (b ∷ p)

module _ (M : Machine) where
  abbrev pub executed : List String → Executed → Build Unit
  executed args x w =
      if x.success
      then finished tt (record w { files = x.files })
      else stopped (command_failed args) (record w { files = x.files })

  -- `run`
  abbrev pub run : List String → Build Unit
  run args w =
      executed args (M.execute args w.files) (record w { commands = w.commands ++ args ∷ [] })

  abbrev pub digest : FilePath → Build String
  digest path = read_file path >>= λ b. give (M.hex_digest b)

  -- `path.with_suffix(path.suffix + ".partial")` appends to a name that has a suffix.
  -- `urlopen` and `copyfileobj` into the partial file, which keeps what came before a failure.
  abbrev pub copied : FilePath → Option Response → Build Unit
  copied partial none = stop download_failed
  copied partial (some r) =
      write_file partial r.received >> (if r.complete then give tt else stop download_failed)

  abbrev pub download : String → FilePath → FilePath → Build Unit
  download name cache path =
      make_directories true cache
      >> copied (cache ++ (name <> ".partial") ∷ []) (M.url_open (release_url <> "/" <> name))
      >> rename (cache ++ (name <> ".partial") ∷ []) path

  unfoldable pub fetch : Archive → FilePath → Build FilePath
  fetch a cache = do
    let path = cache ++ a.name ∷ []
    present ← look (exists path)
    if present then give tt else download a.name cache path
    sha ← digest path
    exit_if (not (str_eq sha a.sha256)) ("SHA-256 mismatch: " <> shown path)
    give path

  abbrev pub staged_compiler : FilePath → FilePath → FilePath → Build FilePath
  staged_compiler archive staging llvm = do
    let top = remove_suffix ".tar.xz" (last_name archive)
    remove_tree staging
    make_directories false staging
    run (
        "tar"
        ∷ "-xJf"
        ∷ shown archive
        ∷ "-C"
        ∷ shown staging
        ∷ "--strip-components=1"
        ∷ (top <> "/bin/clang")
        ∷ (top <> "/bin/clang++")
        ∷ (top <> "/bin/clang-23")
        ∷ (top <> "/lib/clang")
        ∷ [])
    rename staging llvm
    give llvm

  unfoldable pub install_compiler : FilePath → FilePath → Build FilePath
  install_compiler archive prefix = do
    let llvm = prefix ++ "llvm" ∷ []
    present ← look (exists (llvm ++ "bin" ∷ "clang-23" ∷ []))
    if present then give llvm else staged_compiler archive (prefix ++ "llvm.partial" ∷ []) llvm
