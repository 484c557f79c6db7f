-- ===== src/Bridge/Growable/Contents.antt =====
-- What the operations of `Growable` do to its contents.
use pyhdiff.Base.{
  ℕ, ◌+◌, ◌-◌, ◌≤◌, ◌≡◌, ◌≢◌, refl, sym, ap, ◌∙◌, Bool, some, Bytes, ◌++◌, length, take, drop,
  replicate, ltb, ◌==◌, length-append, length-take, length-drop, length-replicate, take-append,
  take-append_le, take-all, arith, Bool-cases, inl, inr,
}
use mathlib.Core.List.{append_assoc}
use pyhdiff.Bridge.Throw.{PhdResult, diverges, done, done_through, done-injective, throw-ne-done}
use pyhdiff.Status.{status_ok}
use pyhdiff.Bridge.Growable.{
  Growable, capacity, contents, overwrite, grow_to, reserve, spare, resize, append, release,
  write_spare,
}

-- The size is within the capacity.
abbrev pub IsValid : Growable → Type 0
IsValid g = g.size ≤ capacity g

pub length-overwrite :
    (pos : ℕ) (src dst : Bytes)
    → pos + length src ≤ length dst
    → length (overwrite pos src dst) ≡ length dst
length-overwrite pos src dst h = omega (
  arith,
  length-append (take pos dst) (src ++ drop (pos + length src) dst),
  length-append src (drop (pos + length src) dst),
  length-take pos dst,
  length-drop (pos + length src) dst,
)

-- Up to the end of what was written, the bytes are the old ones and then the new.
pub take-overwrite :
    (pos : ℕ) (src dst : Bytes)
    → pos + length src ≤ length dst
    → take (pos + length src) (overwrite pos src dst) ≡ take pos dst ++ src
take-overwrite pos src dst h =
    ap (take (pos + length src)) (sym (append_assoc (take pos dst) src _))
    ∙ take-append (pos + length src) (take pos dst ++ src) _
        (omega (arith, length-append (take pos dst) src, length-take pos dst))

-- The size and the contents are as before.
pub record IsKept (g h : Growable) : Type 0 where
  pub same_size : h.size ≡ g.size
  pub same_contents : contents h ≡ contents g

module _ (alloc : ℕ → Bool) where
  grow_to_lem :
      (n : ℕ) (g : Growable) {h : Growable}
      → IsValid g
      → capacity g ≤ n
      → grow_to alloc n g ≡ done h
      → IsKept g h × (capacity h ≡ n)
  unfolding grow_to
  grow_to_lem n g {h} v le e = elim (Bool-cases (alloc n)) [
    | inl yes' ↦ grown (done-injective (rw yes' at e))
    | inr no' ↦ absurd (throw-ne-done (rw no' at e))
  ]
    where
      big : Growable
      big = record g { storage = take n g.storage ++ replicate (n - capacity g) 0 }

      kept : IsKept g big
      kept = record {
        same_size = refl;
        same_contents = rw (take-all n g.storage le) (take-append_le g.size g.storage _ v);
      }

      grown : big ≡ h → IsKept g h × (capacity h ≡ n)
      grown same = rw (← same) (
        kept,
        omega (
          arith,
          length-append (take n g.storage) (replicate (n - capacity g) 0),
          length-take n g.storage,
          length-replicate {A = ℕ} (n - capacity g) 0,
        ),
      )

  -- `spare` keeps the contents and makes room for what was asked.
  pub spare_lem :
      (minimum : ℕ) (g : Growable) {h : Growable}
      → IsValid g
      → spare alloc minimum g ≡ done h
      → IsKept g h × (g.size + minimum ≤ capacity h)
  unfolding spare
  spare_lem minimum g v e = elim (Bool-cases (ltb (capacity g - g.size) minimum)) [
    | inl small ↦ let (k, c) = grow_to_lem _ g v (omega arith) (rw small at e) in (k, omega arith)
    | inr room ↦
        let same = done-injective (rw room at e) in
        rw (← same) (record { same_size = refl; same_contents = refl }, ground arith)
  ]

  -- `append` adds the bytes behind the contents.
  pub append_lem :
      (b : Bytes) (g : Growable) {h : Growable}
      → IsValid g
      → append alloc b g ≡ done h
      → IsValid h × (contents h ≡ contents g ++ b)
  unfolding append
  append_lem b g v e =
      let (m, s, w) = done_through (spare alloc (length b) g) _ e in
      let (k, room) = spare_lem (length b) g v s in
      let fits : m.size + length b ≤ length m.storage = omega (arith, k.same_size) in
      rw (← done-injective w) (
        omega (arith, length-overwrite m.size b m.storage fits),
        take-overwrite m.size b m.storage fits ∙ ap (λ c. c ++ b) k.same_contents,
      )

  -- `resize` over spare storage that was written adds exactly what was written, and allocates
  -- nothing.
  pub resize-write_spare :
      (b : Bytes) (g : Growable)
      → IsValid g
      → g.size + length b ≤ capacity g
      → (h : Growable) × (resize alloc (g.size + length b) (write_spare b g) ≡ done h)
        × IsValid h
        × (h.size ≡ g.size + length b)
        × (contents h ≡ contents g ++ b)
  unfolding resize spare
  resize-write_spare b g v room =
      let keeps = length-overwrite g.size b g.storage room in
      let h : Growable = record {
        storage = overwrite g.size b g.storage;
        size = g.size + length b;
      } in
      (h, ground arith, omega arith, refl, take-overwrite g.size b g.storage room)

  -- `release` hands over exactly the contents.
  pub release_lem :
      (g : Growable) {r : PhdResult}
      → IsValid g
      → release alloc g ≡ done r
      → (r.contents ≡ some (contents g)) × (r.status ≡ status_ok)
  unfolding release
  release_lem g v e = elim (Bool-cases (capacity g == 0)) [
    | inl null ↦
        let (m, s, w) = done_through (grow_to alloc 1 g) _ (rw null at e) in
        let (k, _) = grow_to_lem 1 g v (ground arith) s in
        rw (← done-injective w) (ap some k.same_contents, refl)
    | inr owned ↦ rw (← done-injective (rw owned at e)) (refl, refl)
  ]

  -- The operations have no loops.
  grow_to-ne-diverges : (n : ℕ) (g : Growable) → grow_to alloc n g ≢ diverges
  unfolding grow_to
  grow_to-ne-diverges n g = ground arith

  pub reserve-ne-diverges : (n : ℕ) → reserve alloc n ≢ diverges
  unfolding reserve
  reserve-ne-diverges n = ground arith

  pub spare-ne-diverges : (n : ℕ) (g : Growable) → spare alloc n g ≢ diverges
  unfolding spare grow_to
  spare-ne-diverges n g = ground arith

  pub resize-ne-diverges : (n : ℕ) (g : Growable) → resize alloc n g ≢ diverges
  unfolding resize spare grow_to
  resize-ne-diverges n g = ground arith

  pub append-ne-diverges : (b : Bytes) (g : Growable) → append alloc b g ≢ diverges
  unfolding append spare grow_to
  append-ne-diverges b g = ground arith

  pub release-ne-diverges : (g : Growable) → release alloc g ≢ diverges
  unfolding release grow_to
  release-ne-diverges g = ground arith

  -- `Growable(n)` is empty.
  pub reserve_lem : (n : ℕ) {g : Growable} → reserve alloc n ≡ done g → g.size ≡ 0
  unfolding reserve
  reserve_lem n e = ground arith
