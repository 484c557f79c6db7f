-- ===== src/Bridge/Growable/Memory.antt =====
-- `Growable` of src/native/bridge.cpp where every allocation succeeds.
use pyhdiff.Base.{ℕ, ◌-◌, ◌≡◌, refl, Bool, true, ltb, ◌==◌, inl, inr, Bool-cases}
use pyhdiff.Bridge.Throw.{done, PhdResult}
use pyhdiff.Bridge.Growable.{Growable, capacity, empty, grow_to, reserve, spare, release}

module _ (alloc : ℕ → Bool) (memory : (n : ℕ) → alloc n ≡ true) where
  pub spare_total : (n : ℕ) (g : Growable) → (h : Growable) × (spare alloc n g ≡ done h)
  unfolding spare grow_to
  spare_total n g = elim (Bool-cases (ltb (capacity g - g.size) n)) [
    | inl c ↦ rw (c, memory) (_, refl)
    | inr c ↦ rw c (g, refl)
  ]

  pub reserve_total : (n : ℕ) → (h : Growable) × (reserve alloc n ≡ done h)
  unfolding reserve grow_to
  reserve_total n = elim (Bool-cases (n == 0)) [
    | inl c ↦ rw c (empty, refl)
    | inr c ↦ rw (c, memory) (_, refl)
  ]

  pub release_total : (g : Growable) → (r : PhdResult) × (release alloc g ≡ done r)
  unfolding release grow_to
  release_total g = elim (Bool-cases (capacity g == 0)) [
    | inl c ↦ rw (c, memory) (_, refl)
    | inr c ↦ rw c (_, refl)
  ]
