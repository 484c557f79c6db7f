-- ===== src/Scripts/Wheel/Publish/Tests.antt =====
-- A run of scripts/wheel.py on a sample host.
use pyhdiff.Base.{ℕ, ◌≡◌, refl, Option, some, String, str_eq, List, [], ◌∷◌, Bytes, if◌then◌else◌}
use pyhdiff.Scripts.Wheel.{ZipInfo, ZipEntry, TextLibrary, rewrite_all, finish_all, retag}
use pyhdiff.Scripts.Wheel.Publish.{
  Host, Release, finished, stopped, too_new, build_wheel, release_wheel, main,
}
use pyhdiff.Scripts.Wheel.Publish.Published.{BuiltWheel, Released, main-Released}

abbrev new_name : String
new_name = "pyhdiff-1.0-cp312-abi3-manylinux_2_34_x86_64.whl"

abbrev replaced : String → String → String → String
replaced text old new =
    if str_eq old ".whl"
    then "pyhdiff-1.0.debug"
    else if str_eq text "wheel"
    then "retagged"
    else new_name

abbrev decoded : Bytes → Option String
decoded [] = some "record"
decoded (b ∷ bs) = some "wheel"

abbrev texts : TextLibrary
texts = record {
  decode = decoded;
  encode = λ text. if str_eq text "retagged" then 3 ∷ [] else [];
  count = λ text part. 1;
  replace = replaced;
  split_lines = λ text. "d.dist-info/WHEEL,sha256=old,9" ∷ [];
  digest64 = λ b. "new";
  decimal = λ n. "1";
}

abbrev info : String → ZipInfo
info name = record { filename = name; date_time = 1980 ∷ []; compress_type = 8 }

abbrev zipped : List ZipEntry → Bytes
zipped [] = []
zipped ((i, b ∷ bs) ∷ es) = b ∷ zipped es
zipped ((i, []) ∷ es) = 0 ∷ zipped es

-- A host whose auditwheel names this policy.
abbrev host : ℕ → Host
host n = record {
  commit_time = λ env. some "1700000000";
  pip_wheel = λ env. some (record {
    wheels = ("pyhdiff-1.0-cp312-abi3-linux_x86_64.whl", 9 ∷ []) ∷ [];
    debug_files = (4 ∷ []) ∷ [];
  });
  audit = λ wheel env. some "";
  search = λ shown. some n;
  read_zip = λ b. some ((info "d.dist-info/WHEEL", 1 ∷ []) ∷ (info "d.dist-info/RECORD", []) ∷ []);
  write_zip = zipped;
  hex_digest = λ b. "digest";
}

abbrev before : Release
before =
    ("pyhdiff-0.9-cp312-abi3-manylinux_2_34_x86_64.whl", 8 ∷ [])
    ∷ ("notes.txt", 2 ∷ [])
    ∷ ("pyhdiff-0.9.debug", 8 ∷ [])
    ∷ []

abbrev after : Release
after = ("pyhdiff-1.0.debug", 4 ∷ []) ∷ (new_name, 3 ∷ 0 ∷ []) ∷ ("notes.txt", 2 ∷ []) ∷ []

abbrev printed : List (String × String)
printed = ("digest", "pyhdiff-1.0.debug") ∷ ("digest", new_name) ∷ []

main_run : main texts (host 34) "/tool" [] before ≡ finished printed after
unfolding main build_wheel release_wheel retag rewrite_all finish_all
main_run = refl

-- A wheel that needs a newer glibc leaves the earlier release.
main_refused : main texts (host 35) "/tool" [] before ≡ stopped too_new before
unfolding main build_wheel
main_refused = refl

main-Released_example :
    (built : String × Bytes) × (debug_files : List Bytes) × BuiltWheel texts
      (host 34)
      built
      debug_files
    × Released texts (host 34) built debug_files before printed after
main-Released_example = main-Released texts (host 34) "/tool" [] before main_run
