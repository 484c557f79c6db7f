-- ===== src/Native.antt =====
-- The extension module `_native` as src/pyhdiff/__init__.py and src/pyhdiff/raw.py see it.
use pyhdiff.Base.{◌≤◌, ◌<◌, ◌^◌, ◌≡◌, List, ◌++◌, Bytes, length}
use pyhdiff.Base.Int.{ℤ, pos}
use pyhdiff.Errors.{Exc}
use pyhdiff.Status.{Status, payload_max}

-- A call returns bytes, raises `_native.Error` with a status, or raises an exception of Python.
pub data Outcome : Type 0 where
  returned : Bytes → Outcome
  native_error : Status → Outcome
  raised : Exc → Outcome

-- The six functions. Tuples of options are positional; an offset or a size is a Python `int`.
pub record Native : Type 0 where
  pub hdiff_encode : Bytes → Bytes → List ℤ → Outcome
  pub hdiff_apply : Bytes → Bytes → ℤ → ℤ → Outcome
  pub zstd_encode : Bytes → Bytes → List ℤ → Outcome
  pub zstd_apply : Bytes → Bytes → ℤ → ℤ → Outcome
  pub compress : Bytes → List ℤ → Outcome
  pub decompress : Bytes → ℤ → Outcome

-- An encoder returns no more bytes than a payload may have.
abbrev pub ReturnsPayload : Outcome → Type 0
ReturnsPayload (returned p) = length p ≤ payload_max
ReturnsPayload (native_error s) = Unit
ReturnsPayload (raised e) = Unit

-- A decoder that is told the size of the target returns exactly so many bytes.
abbrev pub ReturnsSize : ℤ → Outcome → Type 0
ReturnsSize n (returned t) = pos (length t) ≡ n
ReturnsSize n (native_error s) = Unit
ReturnsSize n (raised e) = Unit

-- What bridge.h promises of the results' sizes.
pub record IsSized (N : Native) : Type 0 where
  pub hdiff_encode_size :
      (b t : Bytes) (args : List ℤ) → ReturnsPayload (Native.hdiff_encode N b t args)
  pub zstd_encode_size :
      (b t : Bytes) (args : List ℤ) → ReturnsPayload (Native.zstd_encode N b t args)
  pub hdiff_apply_size :
      (b p : Bytes) (offset n : ℤ) → ReturnsSize n (Native.hdiff_apply N b p offset n)
  pub zstd_apply_size :
      (b p : Bytes) (offset n : ℤ) → ReturnsSize n (Native.zstd_apply N b p offset n)

-- The decoder, started behind a front whose size fits the `Py_ssize_t` of an offset, gives back what
-- the encoder was given.
pub record Decodes (encode : Bytes → Bytes → List ℤ → Outcome)
    (decode : Bytes → Bytes → ℤ → ℤ → Outcome) : Type 0 where
  pub decode-encode :
      (b t : Bytes) (args : List ℤ) {p : Bytes} (front : Bytes)
      → length front < 2 ^ 63
      → encode b t args ≡ returned p
      → decode b (front ++ p) (pos (length front)) (pos (length t)) ≡ returned t
