-- ===== src/Scripts/Toolchain/Fetch.antt =====
-- `fetch` of scripts/toolchain.py: the file that it returns, and a second call.
use Prim.Native.String.{◌++◌ as ◌<>◌}
use mathlib.Core.Path.{subst}
use text.Mathlib.TextEquality.{eq_iff}
use pyhdiff.Base.{
  ◌≡◌, refl, sym, ap, ◌∙◌, Bool, true, false, not, String, str_eq, [], ◌∷◌, ◌++◌, Bytes, Option,
  none, some, if◌then◌else◌,
}
use pyhdiff.Scripts.Files.{FilePath, Node, directory, file, shown, find, exists, contents_of}
use pyhdiff.Scripts.Build.{World, finished, give, given, read_file, exit_if}
use pyhdiff.Scripts.Build.Keeps.{finished_through, finished-injective, exit_if_lem}
use pyhdiff.Scripts.Toolchain.{Machine, Archive, digest, download, fetch}

-- The file at the path is there, with this SHA-256.
abbrev pub IsVerified : Machine → FilePath → String → World → Type 0
IsVerified M path sha256 w =
    (b : Bytes) × (find path w.files ≡ some (file b)) × (M.hex_digest b ≡ sha256)

not-false : (b : Bool) → not b ≡ false → b ≡ true
not-false true h = refl
not-false false h = cc

given_file :
    (n : Option Node) (v : World) {b : Bytes} {w : World}
    → given (contents_of n) v ≡ finished b w
    → (n ≡ some (file b)) × (v ≡ w)
given_file none v h = cc
given_file (some directory) v h = cc
given_file (some (file a)) v h =
    let (same, still) = finished-injective h in (ap (λ x. some (file x)) same, still)

module _ (M : Machine) where
  -- A digest is that of a file that is there, and changes nothing.
  pub digest_file :
      (path : FilePath) (v : World) {sha : String} {w : World}
      → digest M path v ≡ finished sha w
      → IsVerified M path sha w × (v ≡ w)
  digest_file path v {sha} {w} h =
      let p = finished_through (read_file path v) (λ b. give (M.hex_digest b)) h in
      let (there, still) = given_file (find path v.files) v p.ran in
      let (same, last) = finished-injective p.later in
      subst (λ u. IsVerified M path sha u × (v ≡ u)) (still ∙ last) ((p.value, there, same), refl)

  -- The path that `fetch` returns is that of the archive in the cache, where a file with its
  -- SHA-256 stands.
  pub fetch-IsVerified :
      (a : Archive) (cache : FilePath) (v : World) {path : FilePath} {w : World}
      → fetch M a cache v ≡ finished path w
      → (path ≡ cache ++ a.name ∷ []) × IsVerified M path a.sha256 w
  unfolding fetch
  fetch-IsVerified a cache v {path} {w} h =
      let there = cache ++ a.name ∷ [] in
      let p =
        finished_through
          ((if exists there v.files then give tt else download M a.name cache there) v) _ h in
      let q = finished_through (digest M there p.between) _ p.later in
      let r =
        finished_through
          (exit_if (not (str_eq q.value a.sha256)) ("SHA-256 mismatch: " <> shown there) q.between)
          _ q.later in
      let (verified, _) = digest_file there p.between q.ran in
      let (same, still) = exit_if_lem _ _ q.between r.ran in
      let (at, last) = finished-injective r.later in
      let sha = (eq_iff q.value a.sha256).0 (not-false _ same) in
      subst2 M at (still ∙ last) sha verified
    where
      subst2 :
          (M : Machine) {p q : FilePath} {v w : World} {s t : String}
          → p ≡ q
          → v ≡ w
          → s ≡ t
          → IsVerified M p s v
          → (q ≡ p) × IsVerified M q t w
      subst2 M e f g h = (sym e, rw (← e, ← f, ← g) h)

digest_found :
    (M : Machine) (path : FilePath) (w : World) {b : Bytes}
    → find path w.files ≡ some (file b)
    → digest M path w ≡ finished (M.hex_digest b) w
digest_found M path w h = rw h refl

-- A `fetch` after one that returned returns the same, whatever the network and the commands do by
-- then, and changes nothing, if SHA-256 is the same.
pub fetch_again :
    (M N : Machine)
    → ((b : Bytes) → N.hex_digest b ≡ M.hex_digest b)
    → (a : Archive) (cache : FilePath) (v : World) {path : FilePath} {w : World}
    → fetch M a cache v ≡ finished path w
    → fetch N a cache w ≡ finished path w
unfolding fetch
fetch_again M N same_hash a cache v {path} {w} h =
    let (at, (b, there, sha)) = fetch-IsVerified M a cache v h in
    let placed : find (cache ++ a.name ∷ []) w.files ≡ some (file b) = rw at at there in
    let good : str_eq (N.hex_digest b) a.sha256 ≡ true = (eq_iff _ _).1 (same_hash b ∙ sha) in
    rw (placed, digest_found N _ w placed, good, at) refl
