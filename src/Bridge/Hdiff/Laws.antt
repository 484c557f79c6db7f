-- ===== src/Bridge/Hdiff/Laws.antt =====
-- What `hdiff_encode` and `hdiff_apply` return.
use pyhdiff.Base.{
  ℕ, ◌+◌, ◌≤◌, ◌≡◌, ◌≢◌, refl, sym, ap, ◌∙◌, Bool, true, false, not, ◌&&◌, Bytes, List, [], ◌∷◌,
  Option, none, some, ◌*◌, length, leb, ◌==◌, arith,
}
use pyhdiff.Status.{raw_max, payload_max, step_max, status_limit}
use pyhdiff.Bridge.Throw.{
  Thrown, diverges, done, done_through, done-injective, ne-diverges_through, require, require_ok,
  require-ne-diverges,
}
use pyhdiff.Bridge.Options.{Options}
use pyhdiff.Bridge.Growable.{Growable, empty, contents}
use pyhdiff.Bridge.Growable.Contents.{IsValid}
use pyhdiff.Bridge.Streams.{write}
use pyhdiff.Bridge.Streams.Laws.{write_at, write_lem, write-ne-diverges}
use pyhdiff.Bridge.Hdiff.{
  Write, DiffInfo, PatchRun, patched, plugin_threw, DiffLibrary, KeepsSize, PatchKeepsSize,
  write_all, ending, info_of, encoded_size, check_info, is_supported, cache_allocated, patch_result,
  hdiff_encode, hdiff_apply,
}

-- The writes of a run applied to a plain file, in order.
unfoldable pub replay : List Write → Bytes → Bytes
replay [] file = file
replay (w ∷ ws) file = replay ws (write_at w.at w.bytes file)

module _ (alloc : ℕ → Bool) where
  write_all_lem :
      (limit : ℕ) (ws : List Write) (g : Growable) {h : Growable}
      → IsValid g
      → g.size ≤ limit
      → write_all alloc limit ws g ≡ done h
      → IsValid h × (h.size ≤ limit) × (contents h ≡ replay ws (contents g))
  unfolding write_all replay
  write_all_lem limit [] g v b e = rw (← done-injective e) (v, b, refl)
  write_all_lem limit (w ∷ ws) g v b e =
      let (m, x, rest) = done_through (write alloc limit w.at w.bytes g) _ e in
      let (vm, bm, _, same) = write_lem alloc limit w.at w.bytes g v b x in
      let (vh, bh, whole) = write_all_lem limit ws m vm bm rest in
      (vh, bh, whole ∙ ap (replay ws) same)

module _ (alloc : ℕ → Bool) (D : DiffLibrary) where
  -- A diff that is returned is the replay of the writes of HDiffPatch, which threw nothing, and has
  -- at most PAYLOAD_MAX bytes.
  pub hdiff_encode_done :
      (base target : Bytes) (options : Options) {g : Growable}
      → hdiff_encode alloc D base target options ≡ done g
      → IsValid g
        × (g.size ≤ payload_max)
        × (contents g ≡ replay (D.create_diff target base options).writes [])
        × ((D.create_diff target base options).thrown ≡ none)
  unfolding hdiff_encode
  hdiff_encode_done base target options e =
      let (_, _, e₁) =
        done_through
          (require (leb (length base) raw_max && leb (length target) raw_max) status_limit) _ e in
      let (out, w, e₂) =
        done_through (write_all alloc payload_max (D.create_diff target base options).writes empty)
          _ e₁ in
      let (v, b, same) = write_all_lem alloc payload_max _ empty (omega arith) (omega arith) w in
      let (t, eq) = ending_done (D.create_diff target base options).thrown out e₂ in
      rw (← eq) (v, b, same, t)
    where
      ending_done :
          (t : Option Thrown) (out : Growable) {g : Growable}
          → ending t out ≡ done g
          → (t ≡ none) × (out ≡ g)
      ending_done none out h = (refl, done-injective h)
      ending_done (some t) out h = cc

  write_all-ne-diverges :
      (limit : ℕ) (ws : List Write) (g : Growable) → write_all alloc limit ws g ≢ diverges
  unfolding write_all
  write_all-ne-diverges limit [] g = λ e. cc
  write_all-ne-diverges limit (w ∷ ws) g =
      ne-diverges_through (write alloc limit w.at w.bytes g) _
        (write-ne-diverges alloc limit w.at w.bytes g) λ h _. write_all-ne-diverges limit ws h

  pub hdiff_encode-ne-diverges :
      (base target : Bytes) (options : Options)
      → hdiff_encode alloc D base target options ≢ diverges
  unfolding hdiff_encode
  hdiff_encode-ne-diverges base target options =
      ne-diverges_through
        (require (leb (length base) raw_max && leb (length target) raw_max) status_limit) _
        (require-ne-diverges _ _)
        λ _ _.
          ne-diverges_through
            (write_all alloc payload_max (D.create_diff target base options).writes empty) _
            (write_all-ne-diverges payload_max _ empty)
            λ out _. ends (D.create_diff target base options).thrown out
    where
      ends : (t : Option Thrown) (out : Growable) → ending t out ≢ diverges
      ends none out = λ e. cc
      ends (some t) out = λ e. cc

  -- The header of a diff agrees with the sizes of the base, the diff and the target, and is within
  -- the limits.
  pub record Fits (info : DiffInfo) (base diff : Bytes) (target_size : ℕ) : Type 0 where
    pub old : info.old_size ≡ length base
    pub new : info.new_size ≡ target_size
    pub step : info.step_size ≤ step_max
    pub uncompressed : info.uncompressed_size ≤ payload_max
    pub whole : info.diff_pos + encoded_size info ≡ length diff
    pub supported : is_supported info.compress_type ≡ true

  check_info_ok :
      (info : DiffInfo) (base diff : Bytes) (n : ℕ) {u : Unit {0}}
      → check_info info (length base) (length diff) n ≡ done u
      → Fits info base diff n
  unfolding check_info
  check_info_ok info base diff n e = ground arith

  patch_result_size :
      (n : ℕ) (r : PatchRun) {t : Bytes} → KeepsSize n r → patch_result r ≡ done t → length t ≡ n
  patch_result_size n (patched true out) k e = sym (ap (λ b. length b) (done-injective e)) ∙ k
  patch_result_size n (patched false out) k e = cc
  patch_result_size n (plugin_threw t) k e = cc

  -- What `hdiff_apply` returns has exactly the size of the target. The inputs were within their
  -- limits, and the header of the diff, which was there, fits them all.
  pub hdiff_apply-Fits :
      PatchKeepsSize D
      → (base diff : Bytes) (target_size : ℕ) {t : Bytes}
      → hdiff_apply alloc D base diff target_size ≡ done t
      → (length t ≡ target_size)
        × (length base ≤ raw_max)
        × (target_size ≤ raw_max)
        × (length diff ≤ payload_max)
        × ((info : DiffInfo) × (D.diff_info diff ≡ some info) × Fits info base diff target_size)
  unfolding hdiff_apply
  hdiff_apply-Fits K base diff n e =
      let limits = leb (length base) raw_max && leb n raw_max && leb (length diff) payload_max in
      let (_, l, e₁) = done_through (require limits status_limit) _ e in
      let (info, read, e₂) = done_through (info_of (D.diff_info diff)) _ e₁ in
      let (_, checked, e₃) = done_through (check_info info (length base) (length diff) n) _ e₂ in
      let (_, _, e₄) =
        done_through (cache_allocated (alloc (info.step_size + D.stream_cache_size * 3))) _ e₃ in
      let l' = require_ok _ _ l in
      (
        patch_result_size n _ (K base diff info (not (info.compressed_size == 0)) n) e₄,
        ground arith,
        ground arith,
        ground arith,
        (info, info_of_ok (D.diff_info diff) read, check_info_ok info base diff n checked),
      )
    where
      info_of_ok : (o : Option DiffInfo) {i : DiffInfo} → info_of o ≡ done i → o ≡ some i
      info_of_ok none h = cc
      info_of_ok (some i) h = ap some (done-injective h)

  pub hdiff_apply-ne-diverges :
      (base diff : Bytes) (target_size : ℕ) → hdiff_apply alloc D base diff target_size ≢ diverges
  unfolding hdiff_apply check_info
  hdiff_apply-ne-diverges base diff n = ground arith
