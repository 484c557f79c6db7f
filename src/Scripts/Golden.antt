-- ===== src/Scripts/Golden.antt =====
-- scripts/golden.py: `encode_corpus`, `generate` and `check_complete`.
pub mod Corpus
pub mod Tags
use Prim.Native.String.{◌++◌ as ◌<>◌}
use pyhdiff.Base.{
  str_eq, ℕ, Bool, true, false, not, ◌&&◌, String, List, [], ◌∷◌, ◌++◌, Bytes, length,
  if◌then◌else◌,
}
use pyhdiff.Base.Int.{ℤ, pos}
use pyhdiff.Errors.{Result, ok, raise, ◌>>=◌}
use pyhdiff.Native.{Native}
use pyhdiff.Api.{
  Hash, HDiffProfile, ZstdProfile, Value, bytes_object, hdiff_profile, zstd_profile, encode_delta,
  encode_base, compress,
}

-- `PAIRS`, each with whether its name starts with "medium".
abbrev pub pairs : List (String × Bool)
pairs =
    ("small-sparse-edits", false)
    ∷ ("small-bulk-churn", false)
    ∷ ("medium-sparse-edits", true)
    ∷ ("medium-bulk-churn", true)
    ∷ ("identical", false)
    ∷ ("unrelated", false)
    ∷ ("empty-base-and-small-target", false)
    ∷ []

-- `PROFILES`
abbrev pub profiles : List String
profiles =
    "hdiff-default" ∷ "hdiff-score4" ∷ "zstd-auto19" ∷ "zstd-prefix12" ∷ "zstd-standalone3" ∷ []

-- `FRAME_LEVELS`, each with how it is printed.
abbrev pub frame_levels : List (ℕ × String)
frame_levels = (1, "1") ∷ (3, "3") ∷ (19, "19") ∷ []

-- A profile of tests/vectors/manifest.json: the keyword arguments of the class of its codec, and
-- `empty_base`, which is read for zstd only.
pub data Spec : Type 0 where
  hdiff_spec : HDiffProfile → Spec
  zstd_spec : Bool → ZstdProfile → Spec

pub data Kind : Type 0 where
  envelope_kind frame_kind : Kind

-- What `encode_corpus` yields. `base_file` is empty where no base is used.
pub record Entry : Type 0 where
  pub name : String
  pub kind : Kind
  pub base_file : String
  pub target_file : String
  pub blob : Bytes

abbrev pub base_of : String → String
base_of pair = pair <> ".base"

abbrev pub target_of : String → String
target_of pair = pair <> ".target"

-- `files` is what `inputs` reads, by file name; `specs` is `manifest["profiles"]`.
module _ (H : Hash) (N : Native) (files : String → Bytes) (specs : String → Spec) where
  -- The blob and the base file of one profile.
  unfoldable pub encode_spec : Spec → String → Result (Bytes × String)
  encode_spec (hdiff_spec p) pair = do
    blob ←
        encode_delta H N (bytes_object (files (base_of pair)))
          (bytes_object (files (target_of pair))) (hdiff_profile p)
    ok (blob, base_of pair)
  encode_spec (zstd_spec true p) pair = do
    blob ← encode_base H N (bytes_object (files (target_of pair))) (zstd_profile p)
    ok (blob, "")
  encode_spec (zstd_spec false p) pair = do
    blob ←
        encode_delta H N (bytes_object (files (base_of pair)))
          (bytes_object (files (target_of pair))) (zstd_profile p)
    ok (blob, base_of pair)

  -- `for name in PROFILES`
  unfoldable pub envelopes : String → List String → Result (List Entry)
  envelopes pair [] = ok []
  envelopes pair (name ∷ names) = do
    made ← encode_spec (specs name) pair
    rest ← envelopes pair names
    ok (
        record {
          name = pair <> "." <> name <> ".phdf";
          kind = envelope_kind;
          base_file = made.1;
          target_file = target_of pair;
          blob = made.0;
        }
        ∷ rest)

  -- `for level in FRAME_LEVELS`
  unfoldable pub frames : String → List (ℕ × String) → Result (List Entry)
  frames pair [] = ok []
  frames pair ((level, shown) ∷ levels) = do
    blob ← compress N (bytes_object (files (target_of pair))) (pos level) (pos 0) true
    rest ← frames pair levels
    ok (
        record {
          name = pair <> ".compress-" <> shown <> ".zst";
          kind = frame_kind;
          base_file = "";
          target_file = target_of pair;
          blob = blob;
        }
        ∷ rest)

  -- `encode_corpus`, on the pairs that are given it.
  unfoldable pub encode_pairs : List (String × Bool) → Result (List Entry)
  encode_pairs [] = ok []
  encode_pairs ((pair, medium) ∷ rest) = do
    sealed ← envelopes pair profiles
    framed ← frames pair (if medium then frame_levels else [])
    more ← encode_pairs rest
    ok (sealed ++ framed ++ more)

  unfoldable pub encode_corpus : Result (List Entry)
  unfolding encode_pairs
  encode_corpus = encode_pairs pairs

-- `t != exclude and not (GOLDEN / t / "manifest.json").exists()`
abbrev pub is_missing : (String → Bool) → String → String → Bool
is_missing exists exclude tag = not (str_eq tag exclude) && not (exists tag)

-- The list `missing`.
unfoldable pub missing : (String → Bool) → String → List String → List String
missing exists exclude [] = []
missing exists exclude (tag ∷ tags) =
    let rest = missing exists exclude tags in
    if is_missing exists exclude tag then tag ∷ rest else rest

-- The script exits with the missing tags, or goes on.
pub data Check : Type 0 where
  system_exit : List String → Check
  complete : Check

abbrev pub verdict : List String → Check
verdict [] = complete
verdict (t ∷ ts) = system_exit (t ∷ ts)

unfoldable pub check_complete : (String → Bool) → String → List String → Check
unfolding missing
check_complete exists exclude tags = verdict (missing exists exclude tags)
