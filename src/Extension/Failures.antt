-- ===== src/Extension/Failures.antt =====
-- The exceptions of the public functions over src/pyhdiff/_native.c.
use pyhdiff.Base.{
  ℕ, ◌^◌, ◌≤◌, ◌≡◌, ◌⊎◌, inl, inr, refl, Bool, true, false, not, some, Bytes, length, drop, ltb,
  ◌==◌, arith, Bool-cases, bytes_eq,
}
use pyhdiff.Base.Int.{ℤ, pos, negsuc, ltb_ℤ}
use pyhdiff.Errors.{
  Exc, raise, RaisesOnly, RaisesOnly-through, RaisesOnly-check, RaisesOnly-weaken, catches, error,
  envelope_error, memory_error, overflow_error, base_mismatch_error, limit_error, integrity_error,
}
use pyhdiff.Status.{raw_max, status_ok}
use pyhdiff.Native.{Outcome, returned, native_error, raised}
use pyhdiff.Api.{
  Hash, Header, Codec, hdiff, zstd, HDiffProfile, bytes_object, bytes, hdiff_profile, call, decode,
  apply_checked, output_limit, hdiff_args, inspect, envelope_size, encode_delta, encode_with,
}
use pyhdiff.Api
use pyhdiff.Api.Classes.{exception_of-IsError}
use pyhdiff.Api.Inspect.{inspect_raises, inspect_long}
use pyhdiff.Extension.{
  Libraries, all_ints, too_large, tail_view, hdiff_encode, decode_into, apply_sized, apply, native,
}

-- The exception is one of the module's, or the `MemoryError` of an allocation of the interpreter.
abbrev pub IsReported : Exc → Type 0
IsReported e = (catches error e.cls ≡ true) ⊎ (e.cls ≡ memory_error)

-- A native function raises `_native.Error` or `MemoryError`, and nothing else.
abbrev pub RaisesMemory : Outcome → Type 0
RaisesMemory (returned b) = Unit
RaisesMemory (native_error s) = Unit
RaisesMemory (raised e) = e.cls ≡ memory_error

call-IsReported :
    (decoding : Bool) (o : Outcome) → RaisesMemory o → RaisesOnly IsReported (call decoding o)
unfolding call
call-IsReported decoding (returned b) h = tt
call-IsReported decoding (native_error s) h = inl (exception_of-IsError s decoding)
call-IsReported decoding (raised e) h = inr h

error_classes :
    (catches error envelope_error ≡ true)
    × (catches error base_mismatch_error ≡ true)
    × (catches error limit_error ≡ true)
    × (catches error integrity_error ≡ true)
unfolding catches
error_classes = (refl, refl, refl, refl)

not-longer : (limit n : ℕ) → n ≤ limit → ltb limit n ≡ false
not-longer limit n h = ground arith

tail_view_total :
    (blob : Bytes) (n : ℕ) → n ≤ length blob → tail_view blob (pos n) ≡ some (drop n blob)
tail_view_total blob n h = ground arith

module _ (L : Libraries) where
  apply_sized-RaisesMemory :
      (z : Bool) (base payload : Bytes) (n : ℕ) → RaisesMemory (apply_sized L z base payload n)
  unfolding apply_sized
  apply_sized-RaisesMemory z base payload n = elim (Bool-cases (L.alloc_bytes n)) [
    | inr e ↦ rw e refl
    | inl e ↦ elim (Bool-cases ((decode_into L z base payload n).status == status_ok)) [
      | inr f ↦ rw (e, f) tt
      | inl f ↦ rw (e, f) tt
    ]
  ]

  -- `apply` of the extension module, on an envelope and a size within RAW_MAX.
  apply-RaisesMemory :
      (z : Bool) (base blob : Bytes) (n : ℕ)
      → envelope_size ≤ length blob
      → n ≤ raw_max
      → RaisesMemory (apply L z base blob (pos envelope_size) (pos n))
  unfolding apply
  apply-RaisesMemory z base blob n h k =
      let small : ltb n (2 ^ 63) ≡ true = ground arith in
      let allowed : ltb raw_max n ≡ false = ground arith in
      rw (small, tail_view_total blob envelope_size h, allowed)
        (apply_sized-RaisesMemory z base (drop envelope_size blob) n)

  module _ (H : Hash) where
    decode-IsReported :
        (c : Codec) (base blob : Bytes) (n : ℕ)
        → envelope_size ≤ length blob
        → n ≤ raw_max
        → RaisesOnly IsReported (decode H (native L) c base blob n)
    unfolding decode
    decode-IsReported hdiff base blob n h k =
        call-IsReported true _ (apply-RaisesMemory false base blob n h k)
    decode-IsReported zstd base blob n h k =
        call-IsReported true _ (apply-RaisesMemory true base blob n h k)

    within_raw_max : (m : ℤ) (n : ℕ) → ltb_ℤ (output_limit m) n ≡ false → n ≤ raw_max
    within_raw_max (pos m) n h = ground arith
    within_raw_max (negsuc m) n h = cc

    apply_checked-IsReported :
        (base blob : Bytes) (m : ℤ) (h : Header)
        → envelope_size ≤ length blob
        → RaisesOnly IsReported (apply_checked H (native L) base blob m h)
    unfolding apply_checked
    apply_checked-IsReported base blob m h long =
        RaisesOnly-check IsReported (not (h.base_length == length base)) _ _ (inl error_classes.1)
          λ _.
            RaisesOnly-check IsReported (ltb_ℤ (output_limit m) h.target_length) _ _
              (inl error_classes.2)
              λ within.
                RaisesOnly-check IsReported (not (bytes_eq (H.digest base) h.base_sha256)) _ _
                  (inl error_classes.1)
                  λ _.
                    RaisesOnly-through IsReported
                      (decode H (native L) h.codec base blob h.target_length) _
                      (decode-IsReported h.codec base blob h.target_length long
                        (within_raw_max m h.target_length within))
                      λ t _.
                        RaisesOnly-check IsReported (not (bytes_eq (H.digest t) h.target_sha256)) _
                          _ (inl error_classes.3) λ _. tt

    -- On bytes `apply` over the extension module raises nothing but the exceptions that derive
    -- from `pyhdiff.Error` and `MemoryError`.
    pub apply-IsReported :
        (base blob : Bytes) (max_output : ℤ)
        → RaisesOnly IsReported
            (Api.apply H (native L) (bytes_object base) (bytes_object blob) max_output)
    unfolding Api.apply
    apply-IsReported base blob m =
        RaisesOnly-through IsReported (inspect (bytes_object blob)) _
          (RaisesOnly-weaken (λ e. e.cls ≡ envelope_error) IsReported (inspect (bytes_object blob))
            (λ e c. inl (rw c error_classes.0)) (inspect_raises blob))
          λ h read. apply_checked-IsReported base blob m h (inspect_long blob read)

    -- A profile value that is no C `int` makes `encode_delta` raise an `OverflowError`, which does
    -- not derive from `pyhdiff.Error`.
    pub encode_delta_overflow :
        (base target : Bytes) (p : HDiffProfile)
        → length base ≤ raw_max
        → length target ≤ raw_max
        → all_ints (hdiff_args p) ≡ false
        → (e : Exc) × (encode_delta H
              (native L)
              (bytes_object base)
              (bytes_object target)
              (hdiff_profile p)
            ≡ raise e)
          × (e.cls ≡ overflow_error)
          × (catches error e.cls ≡ false)
    unfolding encode_delta encode_with hdiff_encode call hdiff_args catches
    encode_delta_overflow base target p hb ht wide = (
      too_large,
      rw (not-longer raw_max (length base) hb, not-longer raw_max (length target) ht, wide) refl,
      refl,
      refl,
    )
