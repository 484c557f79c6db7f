-- ===== src/Bridge/Streams/Laws.antt =====
-- What a write to an `Output` leaves, against a file that is a plain byte string.
use pyhdiff.Base.{
  ℕ, ◌+◌, ◌-◌, ◌≤◌, ◌<◌, max, ◌≡◌, ◌≢◌, refl, sym, ap, ap₂, ◌∙◌, Bool, ◌&&◌, Bytes, ◌++◌, length,
  take, drop, length-take, length-drop, take-append_more, drop-take, take-take, drop-all, ltb,
  ltb→lt, lt→ltb, leb, leb→le, arith, Bool-cases, inl, inr, ◌⊎◌, some,
}
use pyhdiff.Status.{status_limit, status_invalid}
use pyhdiff.Bridge.Throw.{diverges, done, done_through, done-injective, require, require_ok}
use pyhdiff.Bridge.Growable.{Growable, capacity, contents, spare, resize}
use pyhdiff.Bridge.Growable.Contents.{IsValid, spare_lem, length-overwrite, resize-ne-diverges}
use pyhdiff.Bridge.Streams.{read, extend, write}

-- A file after `src` is written at `pos`.
abbrev pub write_at : ℕ → Bytes → Bytes → Bytes
write_at pos src file = take pos file ++ (src ++ drop (pos + length src) file)

-- A read within the bytes gives exactly the slice; any other fails.
pub read_lem :
    (bytes : Bytes) (pos n : ℕ) {r : Bytes}
    → read bytes pos n ≡ some r
    → (pos + n ≤ length bytes) × (length r ≡ n) × (r ≡ take n (drop pos bytes))
unfolding read
read_lem bytes pos n e = ground (arith, length-take n (drop pos bytes), length-drop pos bytes)

-- Cutting a file that was overwritten is overwriting the cut file.
take-write_at :
    (size pos : ℕ) (src s : Bytes)
    → pos + length src ≤ size
    → size ≤ length s
    → take size (write_at pos src s) ≡ write_at pos src (take size s)
take-write_at size pos src s h k =
    let a : Bytes = take pos s in
    let c : Bytes = drop (pos + length src) s in
    let left : ℕ = size - (pos + length src) in
    take-append_more size (length src + left) a (src ++ c) (omega (arith, length-take pos s))
    ∙ ap (λ b. a ++ b) (take-append_more (length src + left) left src c refl)
    ∙ ap₂ (λ x y. x ++ (src ++ y)) (sym (take-take pos size s (omega arith)))
        (sym (drop-take (pos + length src) size left s (omega arith)))

-- The bytes past the end of a write are the old ones, whether or not the write extended the file.
tail-kept :
    (finish : ℕ) (g m : Growable)
    → IsValid g
    → m.size ≡ max g.size finish
    → ((g.size < finish) ⊎ (m ≡ g))
    → drop finish (contents m) ≡ drop finish (contents g)
tail-kept finish g m v size (inl more) =
    drop-all finish (contents m) (omega (arith, length-take m.size m.storage))
    ∙ sym (drop-all finish (contents g) (omega (arith, length-take g.size g.storage)))
tail-kept finish g m v size (inr same) = ap (λ k. drop finish (contents k)) same

head-kept :
    (pos : ℕ) (g m : Growable)
    → pos ≤ g.size
    → g.size ≤ m.size
    → take g.size m.storage ≡ contents g
    → take pos (contents m) ≡ take pos (contents g)
head-kept pos g m h k same =
    take-take pos m.size m.storage (omega arith)
    ∙ sym (take-take pos g.size m.storage h)
    ∙ ap (take pos) same

module _ (alloc : ℕ → Bool) where
  -- `resize` to more bytes keeps those that there are.
  resize_lem :
      (n : ℕ) (g : Growable) {h : Growable}
      → IsValid g
      → g.size < n
      → resize alloc n g ≡ done h
      → IsValid h × (h.size ≡ n) × (take g.size h.storage ≡ contents g)
  unfolding resize
  resize_lem n g {h} v lt e =
      let (m, s, w) = done_through (spare alloc (n - g.size) g) _ (rw (lt→ltb _ _ lt) at e) in
      let (k, room) = spare_lem alloc (n - g.size) g v s in
      let fits : n ≤ capacity m = omega arith in
      let same : take g.size m.storage ≡ contents g =
        ap (λ (i : ℕ). take i m.storage) (sym k.same_size) ∙ k.same_contents in
      rw (← done-injective w) (fits, refl, same)

  -- After `extend` there is room for the write, and the bytes before it are the old ones.
  extend_lem :
      (finish : ℕ) (g : Growable) {h : Growable}
      → IsValid g
      → extend alloc finish g ≡ done h
      → IsValid h
        × (h.size ≡ max g.size finish)
        × (take g.size h.storage ≡ contents g)
        × ((g.size < finish) ⊎ (h ≡ g))
  unfolding extend
  extend_lem finish g {h} v e = elim (Bool-cases (ltb g.size finish)) [
    | inl more ↦
        let (valid, size, same) = resize_lem finish g v (ltb→lt _ _ more) (rw more at e) in
        (valid, ground arith, same, inl (ltb→lt _ _ more))
    | inr enough ↦
        let same : g ≡ h = done-injective (rw enough at e) in
        rw (← same) (v, ground arith, refl, inr refl)
  ]

  -- A write that succeeds keeps the output within its limit, and leaves the file with the bytes
  -- at their position and all else as it was.
  pub write_lem :
      (limit pos : ℕ) (src : Bytes) (g : Growable) {h : Growable}
      → IsValid g
      → g.size ≤ limit
      → write alloc limit pos src g ≡ done h
      → IsValid h × (h.size ≤ limit) × (pos ≤ g.size) × (contents h ≡ write_at pos src (contents g))
  unfolding write
  write_lem limit pos src g {h} v bound e =
      let (_, q₁, e₁) =
        done_through (require (leb pos limit && leb (length src) (limit - pos)) status_limit) _ e in
      let (_, q₂, e₂) = done_through (require (leb pos g.size) status_invalid) _ e₁ in
      let (m, x, e₃) = done_through (extend alloc (pos + length src) g) _ e₂ in
      let in_limit = require_ok _ _ q₁ in
      let starts : pos ≤ g.size = leb→le _ _ (require_ok _ _ q₂) in
      let (valid, size, same, either) = extend_lem (pos + length src) g v x in
      let ends : pos + length src ≤ limit = ground arith in
      let fits : pos + length src ≤ length m.storage = omega arith in
      rw (← done-injective e₃) (
        omega (arith, length-overwrite pos src m.storage fits),
        omega arith,
        starts,
        take-write_at m.size pos src m.storage (omega arith) valid
            ∙ ap₂ (λ a b. a ++ (src ++ b)) (head-kept pos g m starts (omega arith) same)
                (tail-kept (pos + length src) g m v size either),
      )

  pub write-ne-diverges :
      (limit pos : ℕ) (src : Bytes) (g : Growable) → write alloc limit pos src g ≢ diverges
  unfolding write extend
  write-ne-diverges limit pos src g = ground (arith, resize-ne-diverges alloc (pos + length src) g)
