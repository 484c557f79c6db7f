-- ===== src/Scripts/Pack/Order.antt =====
-- The order of `str`.
use Prim.Native.Char.{code}
use Prim.Native.String.{[] as empty, ◌∷◌ as ◌⊳◌}
use text.Mathlib.TextEquality.{Char-path}
use pyhdiff.Base.{
  ℕ, ◌≡◌, refl, ap₂, Bool, true, false, ◌&&◌, String, ltb, ◌==◌, arith, if◌then◌else◌,
}
use pyhdiff.Scripts.Pack.{before}

pub before_antisymm : (s t : String) → before s t ≡ true → before t s ≡ true → s ≡ t
unfolding before
before_antisymm empty empty p q = refl
before_antisymm empty (d ⊳ t) p q = cc
before_antisymm (c ⊳ s) empty p q = cc
before_antisymm (c ⊳ s) (d ⊳ t) p q =
    let (same, first, second) = step (code c) (code d) (before s t) (before t s) p q in
    ap₂ (λ x y. x ⊳ y) (Char-path c d same) (before_antisymm s t first second)
  where
    step :
        (m n : ℕ) (b r : Bool)
        → (if ltb m n then true else m == n && b) ≡ true
        → (if ltb n m then true else n == m && r) ≡ true
        → (m ≡ n) × (b ≡ true) × (r ≡ true)
    step m n b r p q = (ground arith, ground arith, ground arith)

pub before_total : (s t : String) → before s t ≡ false → before t s ≡ true
unfolding before
before_total empty t p = cc
before_total (c ⊳ s) empty p = refl
before_total (c ⊳ s) (d ⊳ t) p = let rest = before_total s t in ground arith

pub before_trans : (s t u : String) → before s t ≡ true → before t u ≡ true → before s u ≡ true
unfolding before
before_trans empty t u p q = refl
before_trans (c ⊳ s) empty u p q = cc
before_trans (c ⊳ s) (d ⊳ t) empty p q = cc
before_trans (c ⊳ s) (d ⊳ t) (e ⊳ u) p q = let rest = before_trans s t u in ground arith
