-- ===== src/Extension/Sizes.antt =====
-- The sizes of the results of src/pyhdiff/_native.c.
use mathlib.Core.Path.{subst}
use pyhdiff.Base.{
  sym, ◌&&◌, ℕ, ◌≤◌, ◌≡◌, ap, Bool, true, false, Option, none, some, List, Bytes, length,
  length-replicate, ltb, ◌==◌, arith, inl, inr, Bool-cases,
}
use pyhdiff.Base.Int.{ℤ, pos, negsuc}
use pyhdiff.Status.{raw_max, payload_max, status_ok}
use pyhdiff.Native.{Outcome, ReturnsPayload, ReturnsSize, IsSized}
use pyhdiff.Bridge.Throw.{PhdResult}
use pyhdiff.Bridge.Hdiff.{PatchKeepsSize}
use pyhdiff.Bridge.Encode.Run.{MakesProgress}
use pyhdiff.Bridge.Entry.Contract.{Returns, Holds, phd_zstd_apply-Returns, phd_hdiff_apply-Returns}
use pyhdiff.Bridge.Entry.Encoders.{phd_hdiff_encode-Returns, phd_zstd_encode-Returns}
use pyhdiff.Extension.{
  Libraries, all_ints, fits, parse_ints, hdiff_ints, zstd_ints, settled, tail_view, filled,
  new_bytes, finish, hdiff_encode, zstd_encode, decode_into, apply_sized, apply_tail, apply, native,
}

pub settled-Holds : (P : Bytes → Type 0) (c : Option PhdResult) → Returns P c → Holds P (settled c)
settled-Holds P none (r, e, h) = cc
settled-Holds P (some q) (r, e, h) = subst (Holds P) (ap settled (sym e)) h

module _ (L : Libraries) where
  new_bytes-ReturnsPayload : (b : Bytes) → length b ≤ payload_max → ReturnsPayload (new_bytes L b)
  new_bytes-ReturnsPayload b h = elim (Bool-cases (L.alloc_bytes (length b))) [
    | inl e ↦ rw e h
    | inr e ↦ rw e tt
  ]

  filled-within :
      (r : PhdResult)
      → Holds (λ t. length t ≤ payload_max) r
      → length (filled 0 r.contents) ≤ payload_max
  filled-within r (inl (t, c, _, h)) = rw c h
  filled-within r (inr c) = rw c (omega arith)

  finish-ReturnsPayload :
      (r : PhdResult) → Holds (λ t. length t ≤ payload_max) r → ReturnsPayload (finish L r)
  unfolding finish
  finish-ReturnsPayload r h = elim (Bool-cases (r.status == status_ok)) [
    | inl e ↦ rw e (new_bytes-ReturnsPayload (filled 0 r.contents) (filled-within r h))
    | inr e ↦ rw e tt
  ]

  parse_ints-ReturnsPayload :
      {A : Type 0} (o : Option A) (args : List ℤ) (next : A → Outcome)
      → ((a : A) → ReturnsPayload (next a))
      → ReturnsPayload (parse_ints o args next)
  parse_ints-ReturnsPayload none args next h = tt
  parse_ints-ReturnsPayload (some a) args next h = elim (Bool-cases (all_ints args)) [
    | inl e ↦ rw e (h a)
    | inr e ↦ rw e tt
  ]

  decode_into-Holds :
      PatchKeepsSize L.diff
      → (zstd : Bool) (base payload : Bytes) (n : ℕ)
      → Holds (λ t. length t ≡ n) (decode_into L zstd base payload n)
  decode_into-Holds K true base payload n =
      settled-Holds _ _ (phd_zstd_apply-Returns L.decoder base payload n)
  decode_into-Holds K false base payload n =
      settled-Holds _ _ (phd_hdiff_apply-Returns L.alloc L.diff K base payload n)

  length-filled :
      (n : ℕ) (r : PhdResult) → Holds (λ t. length t ≡ n) r → length (filled n r.contents) ≡ n
  length-filled n r (inl (t, c, _, h)) = rw c h
  length-filled n r (inr c) = rw c (length-replicate n 0)

  apply_sized-ReturnsSize :
      PatchKeepsSize L.diff
      → (zstd : Bool) (base payload : Bytes) (n : ℕ)
      → ReturnsSize (pos n) (apply_sized L zstd base payload n)
  unfolding apply_sized
  apply_sized-ReturnsSize K zstd base payload n =
      let r = decode_into L zstd base payload n in
      elim (Bool-cases (L.alloc_bytes n)) [
        | inr e ↦ rw e tt
        | inl e ↦ elim (Bool-cases (r.status == status_ok)) [
          | inr f ↦ rw (e, f) tt
          | inl f ↦ rw (e, f) (ap pos (length-filled n r (decode_into-Holds K zstd base payload n)))
        ]
      ]

  apply_tail-ReturnsSize :
      PatchKeepsSize L.diff
      → (zstd : Bool) (base : Bytes) (tail : Option Bytes) (n : ℤ)
      → ReturnsSize n (apply_tail L zstd base tail n)
  apply_tail-ReturnsSize K zstd base none n = tt
  apply_tail-ReturnsSize K zstd base (some payload) (negsuc n) = tt
  apply_tail-ReturnsSize K zstd base (some payload) (pos n) = elim (Bool-cases (ltb raw_max n)) [
    | inl e ↦ rw e tt
    | inr e ↦ rw e (apply_sized-ReturnsSize K zstd base payload n)
  ]

  apply-ReturnsSize :
      PatchKeepsSize L.diff
      → (zstd : Bool) (base payload : Bytes) (offset n : ℤ)
      → ReturnsSize n (apply L zstd base payload offset n)
  unfolding apply
  apply-ReturnsSize K zstd base payload offset n = elim (Bool-cases (fits 63 offset && fits 63 n)) [
    | inl e ↦ rw e (apply_tail-ReturnsSize K zstd base (tail_view payload offset) n)
    | inr e ↦ rw e tt
  ]

  -- Encoders return at most PAYLOAD_MAX bytes and decoders exactly the size that they are told,
  -- if the patcher keeps the size of the buffer it fills and the compressor makes progress.
  pub native-IsSized : PatchKeepsSize L.diff → MakesProgress L.encoder → IsSized (native L)
  unfolding hdiff_encode zstd_encode
  native-IsSized K P = record {
    hdiff_encode_size = λ b t args. parse_ints-ReturnsPayload (hdiff_ints args) args _ λ o.
        finish-ReturnsPayload _ (settled-Holds _ _ (phd_hdiff_encode-Returns L.alloc L.diff b t o));
    zstd_encode_size = λ b t args. parse_ints-ReturnsPayload (zstd_ints args) args _ λ o.
        finish-ReturnsPayload _
          (settled-Holds _ _ (phd_zstd_encode-Returns L.alloc L.encoder P b t o));
    hdiff_apply_size = apply-ReturnsSize K false;
    zstd_apply_size = apply-ReturnsSize K true;
  }
