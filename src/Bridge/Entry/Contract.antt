-- ===== src/Bridge/Entry/Contract.antt =====
-- The entry points that decode always return, and what they return is what bridge.h promises.
use pyhdiff.Base.{
  ℕ, ◌≤◌, ◌≡◌, ◌≢◌, ◌⊎◌, inl, inr, refl, Bool, Option, none, some, Bytes, length, leb,
}
use pyhdiff.Status.{raw_max, status_ok, status_limit}
use pyhdiff.Bridge.Throw.{
  bad_alloc, failure, std_exception, other_exception, Cpp, diverges, throw, done, require,
  require-ne-diverges, boundary, PhdResult, ne-diverges_through, done_through, done-injective,
}
use pyhdiff.Bridge.Zstd.{Decoder}
use pyhdiff.Bridge.Growable.{contents}
use pyhdiff.Bridge.Growable.Contents.{release_lem, release-ne-diverges}
use pyhdiff.Bridge.Apply.Loop.{zstd_apply-ne-diverges, zstd_apply-Decoding}
use pyhdiff.Bridge.Frame.{frame_decompress}
use pyhdiff.Bridge.Frame.Loop.{frame_decompress-ne-diverges, frame_decompress-FrameDecoding}
use pyhdiff.Bridge.Hdiff.{DiffLibrary, PatchKeepsSize}
use pyhdiff.Bridge.Hdiff.Laws.{hdiff_apply-ne-diverges, hdiff_apply-Fits}
use pyhdiff.Bridge.Entry.{apply_body, phd_hdiff_apply, phd_zstd_apply, phd_zstd_decompress}

-- The result is a success whose contents satisfy `P`, or has no storage.
abbrev pub Holds : (Bytes → Type 0) → PhdResult → Type 0
Holds P r =
    ((t : Bytes) × (r.contents ≡ some t) × (r.status ≡ status_ok) × P t) ⊎ (r.contents ≡ none)

-- The call returns, and its result holds.
abbrev pub Returns : (Bytes → Type 0) → Option PhdResult → Type 0
Returns P c = (r : PhdResult) × (c ≡ some r) × Holds P r

pub boundary-Returns :
    (P : Bytes → Type 0) (c : Cpp PhdResult)
    → c ≢ diverges
    → ((r : PhdResult) → c ≡ done r → Holds P r)
    → Returns P (boundary c)
unfolding boundary
boundary-Returns P diverges n h = absurd (n refl)
boundary-Returns P (done r) n h = (r, refl, h r refl)
boundary-Returns P (throw bad_alloc) n h = (_, refl, inr refl)
boundary-Returns P (throw (failure s)) n h = (_, refl, inr refl)
boundary-Returns P (throw std_exception) n h = (_, refl, inr refl)
boundary-Returns P (throw other_exception) n h = (_, refl, inr refl)

apply_body-Holds :
    (P : Bytes → Type 0) (codec : Cpp Bytes) (n : ℕ) {r : PhdResult}
    → ((t : Bytes) → codec ≡ done t → P t)
    → apply_body codec n ≡ done r
    → Holds P r
unfolding apply_body
apply_body-Holds P codec n h e =
    let (_, _, e₁) = done_through (require (leb n raw_max) status_limit) _ e in
    let (out, c, e₂) = done_through codec _ e₁ in
    rw (← done-injective e₂) (inl (out, refl, refl, h out c))

apply_body-ne-diverges :
    (codec : Cpp Bytes) (n : ℕ) → codec ≢ diverges → apply_body codec n ≢ diverges
unfolding apply_body
apply_body-ne-diverges codec n ends =
    ne-diverges_through (require (leb n raw_max) status_limit) _ (require-ne-diverges _ _)
      λ _ _. ne-diverges_through codec _ ends λ out _ e. cc

-- What a codec guarantees of a filled buffer, `apply_into` returns.
apply_body-Returns :
    (P : Bytes → Type 0) (codec : Cpp Bytes) (n : ℕ)
    → codec ≢ diverges
    → ((t : Bytes) → codec ≡ done t → P t)
    → Returns P (boundary (apply_body codec n))
apply_body-Returns P codec n ends h =
    boundary-Returns P (apply_body codec n) (apply_body-ne-diverges codec n ends)
      λ r e. apply_body-Holds P codec n h e

-- `phd_zstd_apply` returns, and either fills exactly `target_size` bytes or fails.
pub phd_zstd_apply-Returns :
    (Z : Decoder) (base payload : Bytes) (target_size : ℕ)
    → Returns (λ t. length t ≡ target_size) (phd_zstd_apply Z base payload target_size)
unfolding phd_zstd_apply
phd_zstd_apply-Returns Z base payload n =
    apply_body-Returns _ _ n (zstd_apply-ne-diverges Z base payload n)
      λ t e. (zstd_apply-Decoding Z base payload n e).0

-- `phd_hdiff_apply` returns, and either fills exactly `target_size` bytes or fails, if the patcher
-- keeps the size of the buffer that it fills.
pub phd_hdiff_apply-Returns :
    (alloc : ℕ → Bool) (D : DiffLibrary)
    → PatchKeepsSize D
    → (base payload : Bytes) (target_size : ℕ)
    → Returns (λ t. length t ≡ target_size) (phd_hdiff_apply alloc D base payload target_size)
unfolding phd_hdiff_apply
phd_hdiff_apply-Returns alloc D K base payload n =
    apply_body-Returns _ _ n (hdiff_apply-ne-diverges alloc D base payload n)
      λ t e. (hdiff_apply-Fits alloc D K base payload n e).0

-- `phd_zstd_decompress` returns, and either its contents are within `max_output` or it failed and
-- has no storage.
pub phd_zstd_decompress-Returns :
    (alloc : ℕ → Bool) (Z : Decoder) (src : Bytes) (max_output : ℕ)
    → Returns (λ t. length t ≤ max_output) (phd_zstd_decompress alloc Z src max_output)
unfolding phd_zstd_decompress
phd_zstd_decompress-Returns alloc Z src m =
    boundary-Returns _ _
      (ne-diverges_through (frame_decompress alloc Z src m) _
        (frame_decompress-ne-diverges alloc Z src m) λ out _. release-ne-diverges alloc out)
      λ r e.
        let (out, d, e₁) = done_through (frame_decompress alloc Z src m) _ e in
        let (small, _, _, _, valid) = frame_decompress-FrameDecoding alloc Z src m d in
        let (c, s) = release_lem alloc out valid e₁ in inl (contents out, c, s, small)
