-- ===== src/Struct/Numbers.antt =====
-- Numbers as bytes. The big-endian form is the little-endian one in reverse.
use pyhdiff.Base.{
  ℕ, zero, suc, ◌+◌, ◌*◌, ◌/◌, ◌%◌, ◌^◌, ◌<◌, ◌≡◌, refl, ap, ◌∙◌, [], ◌∷◌, ◌++◌, Bytes, IsByte, All,
  All-append, length, length-append, arith,
}
use mathlib.Core.List.{reverse, reverse-reverse, reverse-append}
use native.Mathlib.Nat.{pow-suc}

unfoldable pub le_bytes : ℕ → ℕ → Bytes
le_bytes zero v = []
le_bytes (suc w) v = (v % 256) ∷ le_bytes w (v / 256)

unfoldable pub le_value : Bytes → ℕ
le_value [] = 0
le_value (b ∷ bs) = b + 256 * le_value bs

unfoldable pub be_bytes : ℕ → ℕ → Bytes
unfolding le_bytes
be_bytes w v = reverse (le_bytes w v)

unfoldable pub be_value : Bytes → ℕ
unfolding le_value
be_value bs = le_value (reverse bs)

le_value-le_bytes : (w v : ℕ) → v < 256 ^ w → le_value (le_bytes w v) ≡ v
unfolding le_value le_bytes
le_value-le_bytes zero v h = omega arith
le_value-le_bytes (suc w) v h =
    omega (arith, le_value-le_bytes w (v / 256) (omega (arith, pow-suc 256 w)))

le_bytes-le_value : (bs : Bytes) → All IsByte bs → le_bytes (length bs) (le_value bs) ≡ bs
unfolding le_value le_bytes
le_bytes-le_value [] h = refl
le_bytes-le_value (b ∷ bs) h = ground (arith, le_bytes-le_value bs)

length-le_bytes : (w v : ℕ) → length (le_bytes w v) ≡ w
unfolding le_bytes
length-le_bytes zero v = refl
length-le_bytes (suc w) v = ap suc (length-le_bytes w (v / 256))

le_bytes-IsByte : (w v : ℕ) → All IsByte (le_bytes w v)
unfolding le_bytes
le_bytes-IsByte zero v = tt
le_bytes-IsByte (suc w) v = (omega arith, le_bytes-IsByte w (v / 256))

le_value-lt : (bs : Bytes) → All IsByte bs → le_value bs < 256 ^ length bs
unfolding le_value
le_value-lt [] h = omega arith
le_value-lt (b ∷ bs) h = omega (arith, le_value-lt bs h.1, pow-suc 256 (length bs))

length-append_single : (bs : Bytes) (b : ℕ) → length (bs ++ (b ∷ [])) ≡ suc (length bs)
length-append_single bs b = omega (arith, length-append bs (b ∷ []))

length-reverse : (bs : Bytes) → length (reverse bs) ≡ length bs
length-reverse [] = refl
length-reverse (b ∷ bs) =
    ap length (reverse-append (b ∷ []) bs)
    ∙ length-append_single (reverse bs) b
    ∙ ap suc (length-reverse bs)

All-reverse : (bs : Bytes) → All IsByte bs → All IsByte (reverse bs)
All-reverse [] h = tt
All-reverse (b ∷ bs) h =
    rw (reverse-append (b ∷ []) bs)
      (All-append IsByte (reverse bs) (b ∷ []) (All-reverse bs h.1) (h.0, tt))

pub length-be_bytes : (w v : ℕ) → length (be_bytes w v) ≡ w
unfolding be_bytes
length-be_bytes w v = length-reverse (le_bytes w v) ∙ length-le_bytes w v

pub be_bytes-IsByte : (w v : ℕ) → All IsByte (be_bytes w v)
unfolding be_bytes
be_bytes-IsByte w v = All-reverse (le_bytes w v) (le_bytes-IsByte w v)

pub be_value-be_bytes : (w v : ℕ) → v < 256 ^ w → be_value (be_bytes w v) ≡ v
unfolding be_value be_bytes
be_value-be_bytes w v h = rw (reverse-reverse (le_bytes w v)) (le_value-le_bytes w v h)

pub be_bytes-be_value :
    (w : ℕ) (bs : Bytes) → length bs ≡ w → All IsByte bs → be_bytes w (be_value bs) ≡ bs
unfolding be_value be_bytes
be_bytes-be_value w bs e h =
    rw (← e, ← length-reverse bs, le_bytes-le_value (reverse bs) (All-reverse bs h))
      (reverse-reverse bs)

pub be_value-lt : (w : ℕ) (bs : Bytes) → length bs ≡ w → All IsByte bs → be_value bs < 256 ^ w
unfolding be_value
be_value-lt w bs e h = rw (← e, ← length-reverse bs) (le_value-lt (reverse bs) (All-reverse bs h))
