-- ===== src/Scripts/Tests.antt =====
-- Runs of the scripts, and the theorems at concrete inputs.
use Prim.Native.String.{◌++◌ as ◌<>◌}
use pyhdiff.Base.{
  true, false, ◌≡◌, refl, Bool, false, String, str_eq, List, [], ◌∷◌, ◌++◌, Bytes, All, Option,
  some, none, if◌then◌else◌,
}
use mathlib.Core.List.{Permᴰ}
use pyhdiff.Errors.{Result, ok, raise}
use pyhdiff.Struct.{pack, be_bytes, concat}
use pyhdiff.Api.{
  default_zstd, bytes, encode_with, encode_delta, compress, call, zstd_args, envelope,
}
use pyhdiff.Api.Sample.{sample_hash, sample_native}
use pyhdiff.Bridge.Throw.{boundary}
use pyhdiff.Bridge.Zstd.{zcheck}
use pyhdiff.Bridge.Growable.{release, spare, grow_to, append}
use pyhdiff.Bridge.Encode.{zstd_encode, encode_loop, chunk_loop, encode_call, set_all, open_encode}
use pyhdiff.Bridge.Tuning.{settings, log_of}
use pyhdiff.Bridge.Options.{zstd_options}
use pyhdiff.Bridge.Entry.{phd_zstd_compress, phd_zstd_encode}
use pyhdiff.Extension
use pyhdiff.Extension.{native, finish}
use pyhdiff.Extension.Stored.{stored_libraries, stored-IsCodecPair}
use pyhdiff.Extension.Stored.Framed.{stored-IsFramePair}
use pyhdiff.Scripts.Golden.{
  Spec, zstd_spec, Entry, encode_spec, envelopes, frames, encode_pairs, encode_corpus,
}
use pyhdiff.Scripts.Golden.Corpus.{Reproduces, encode_corpus-Reproduces}
use pyhdiff.Scripts.Release.{
  Located, within, elsewhere, Unpacked, Library, stopped, is_a_directory, finished, Imported,
  expected_digest, read_file, read_blob, check_blobs, import_release,
}
use pyhdiff.Scripts.Text.{before_last_dot, contains, remove_suffix, ends_with}
use pyhdiff.Scripts.Generate.{Generated, generate}
use pyhdiff.Scripts.Generate.Names.{is_plain}
use pyhdiff.Scripts.Generate.Importable.{IsPlainBelow, to_check, generate-check_blobs}
use pyhdiff.Scripts.Pack.{Archivers, TarEntry, before, sorted, tar_entries, pack as pack_names}
use pyhdiff.Scripts.Pack.Listing.{pack-eq_of_perm}

abbrev files : String → Bytes
files name = 7 ∷ 8 ∷ 9 ∷ []

abbrev specs : String → Spec
specs name = zstd_spec false default_zstd

abbrev yielded : Result (List Entry) → List Entry
yielded (ok entries) = entries
yielded (raise x) = []

encode_corpus_run :
    encode_corpus sample_hash (native stored_libraries) files specs
    ≡ ok (yielded (encode_corpus sample_hash (native stored_libraries) files specs))
unfolding encode_corpus encode_pairs envelopes frames encode_spec encode_delta encode_with compress
    call zstd_args envelope bytes pack be_bytes concat Extension.zstd_encode Extension.compress
    finish phd_zstd_encode phd_zstd_compress boundary zstd_options zstd_encode open_encode
    encode_loop chunk_loop encode_call set_all append release spare grow_to zcheck settings log_of
encode_corpus_run = refl

encode_corpus-Reproduces_example :
    All
      (Reproduces sample_hash (native stored_libraries) files specs)
      (yielded (encode_corpus sample_hash (native stored_libraries) files specs))
encode_corpus-Reproduces_example =
    encode_corpus-Reproduces sample_hash (native stored_libraries) files specs stored-IsCodecPair
      stored-IsFramePair encode_corpus_run

abbrev released : String → Bool
released tag = str_eq tag "v1.0.0"

-- A digest that tells the empty string from others, and an archive with one blob.
abbrev short_digest : Bytes → String
short_digest [] = "00"
short_digest (b ∷ bs) = "01"

-- Where plain names lead to, and one file of the machine.
abbrev located_in : Bytes → String → Located
located_in outside name = if is_plain name then within name else elsewhere (some outside)

located_in-IsPlainBelow : (outside : Bytes) → IsPlainBelow (located_in outside)
located_in-IsPlainBelow outside n h = rw h refl

abbrev unpacked : Unpacked
unpacked = record {
  version = "1.0.0";
  entries = ("a.phdf", "00") ∷ ("b.zst", "01") ∷ [];
  files = ("a.phdf", []) ∷ ("b.zst", 7 ∷ []) ∷ [];
  located = located_in [];
  has_subdirectory = false;
}

abbrev sample_library : Library
sample_library = record {
  without_prefix = λ tag prefix. "1.0.0";
  ends_with = λ line end. str_eq line ("01" <> end);
  first_word = λ line. "01";
  hex_digest = short_digest;
  extract = λ archive. unpacked;
}

abbrev imported : Imported
imported = record {
  corpus = unpacked;
  asset_name = "pyhdiff-1.0.0-golden.tar.gz";
  asset_sha256 = "01";
}

abbrev sums : List String
sums = "02  other.whl" ∷ "01  pyhdiff-1.0.0-golden.tar.gz" ∷ []

-- A blob outside the archive is checked, and the corpus is committed without it.
abbrev escaping : Unpacked
escaping = record unpacked { entries = ("../c.phdf", "01") ∷ []; located = located_in (4 ∷ []) }

outside_run :
    check_blobs sample_library escaping.located escaping.files escaping.entries ≡ finished tt
unfolding check_blobs read_blob
outside_run = refl

-- A directory in the archive ends the script.
subdirectory_run :
    import_release
      (record sample_library { extract = λ archive. record unpacked { has_subdirectory = true } })
      "v1.0.0"
      sums
      (9 ∷ [])
      false
    ≡ stopped is_a_directory
unfolding import_release expected_digest check_blobs read_blob read_file
subdirectory_run = refl

abbrev made : Result Generated → Generated
made (ok g) = g
made (raise x) = record { blobs = []; pyhdiff_version = ""; format = 0; inputs = ""; entries = [] }

generate_run :
    generate short_digest files sample_hash sample_native specs "1.0.0" []
    ≡ ok (made (generate short_digest files sample_hash sample_native specs "1.0.0" []))
unfolding generate encode_corpus encode_pairs envelopes frames encode_spec encode_delta encode_with
    compress call zstd_args envelope bytes pack be_bytes concat
generate_run = refl

generate-check_blobs_example :
    check_blobs sample_library
      (located_in [])
      (made (generate short_digest files sample_hash sample_native specs "1.0.0" [])).blobs
      (to_check
        (made (generate short_digest files sample_hash sample_native specs "1.0.0" [])).entries)
    ≡ finished tt
generate-check_blobs_example =
    generate-check_blobs sample_library sample_hash sample_native files specs "1.0.0" []
      generate_run (located_in []) (located_in-IsPlainBelow [])

named : before_last_dot "small.zstd-auto19.phdf" ≡ "small.zstd-auto19"
named = refl

contained : contains "clang version 23.1.1 " "Ubuntu clang version 23.1.1 (x)" ≡ true
contained = refl

not_contained : contains "23.1.2" "clang version 23.1.1 (x)" ≡ false
not_contained = refl

stripped : remove_suffix ".tar.xz" "llvm.src.tar.xz" ≡ "llvm.src"
stripped = refl

ending : ends_with ".a" "libc++.a" ≡ true
ending = refl

abbrev all_contents : List TarEntry → Bytes
all_contents [] = []
all_contents (e ∷ es) = e.content ++ all_contents es

abbrev directory : String → Option Bytes
directory name =
    if str_eq name "b.phdf"
    then some (2 ∷ [])
    else if str_eq name "a.zst"
    then some (1 ∷ [])
    else none

abbrev archivers : Archivers
archivers = record { tar = all_contents; gzip = λ mtime name data'. mtime ∷ data' }

sorted_run : sorted ("b.phdf" ∷ "a.zst" ∷ "a" ∷ []) ≡ "a" ∷ "a.zst" ∷ "b.phdf" ∷ []
unfolding sorted before
sorted_run = refl

pack_run : pack_names directory archivers ("b.phdf" ∷ "a.zst" ∷ []) ≡ some (0 ∷ 1 ∷ 2 ∷ [])
unfolding pack_names tar_entries sorted before
pack_run = refl

pack-eq_of_perm_example :
    pack_names directory archivers ("b.phdf" ∷ "a.zst" ∷ [])
    ≡ pack_names directory archivers ("a.zst" ∷ "b.phdf" ∷ [])
pack-eq_of_perm_example =
    pack-eq_of_perm directory archivers {listing = "b.phdf" ∷ "a.zst" ∷ []}
      {other = "a.zst" ∷ "b.phdf" ∷ []} (Permᴰ.swap refl refl)
