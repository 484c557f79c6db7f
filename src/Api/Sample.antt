-- ===== src/Api/Sample.antt =====
-- A hash and an extension module to run the model with: the hash repeats the first byte, and both
-- codecs store the target as it is.
use pyhdiff.Base.{
  ℕ, zero, suc, ◌%◌, Bytes, IsByte, All, List, [], ◌∷◌, length, drop, replicate, length-replicate,
  ap, inl, inr, Bool-cases, leb, leb→le, ◌==◌, ==_iff, if◌then◌else◌, arith,
}
use pyhdiff.Base.Int.{ℤ, pos, negsuc}
use pyhdiff.Status.{payload_max, status_limit, status_invalid}
use pyhdiff.Native.{Native, Outcome, returned, native_error, IsSized, ReturnsPayload, ReturnsSize}
use pyhdiff.Api.{Hash}

abbrev pub first_byte : Bytes → ℕ
first_byte [] = 0
first_byte (b ∷ bs) = b % 256

pub All-replicate : (n b : ℕ) → IsByte b → All IsByte (replicate n b)
All-replicate zero b h = tt
All-replicate (suc n) b h = (h, All-replicate n b h)

pub first_byte-IsByte : (b : Bytes) → IsByte (first_byte b)
first_byte-IsByte [] = omega arith
first_byte-IsByte (b ∷ bs) = omega arith

abbrev pub sample_hash : Hash
sample_hash = record {
  digest = λ b. replicate 32 (first_byte b);
  digest_size = λ b. length-replicate 32 (first_byte b);
  digest-IsByte = λ b. All-replicate 32 (first_byte b) (first_byte-IsByte b);
}

abbrev pub store : Bytes → Bytes → List ℤ → Outcome
store b t args = if leb (length t) payload_max then returned t else native_error status_limit

abbrev pub unstore_from : Bytes → ℕ → Outcome
unstore_from t n = if length t == n then returned t else native_error status_invalid

abbrev pub unstore : Bytes → Bytes → ℤ → ℤ → Outcome
unstore b p (pos offset) (pos n) = unstore_from (drop offset p) n
unstore b p (pos offset) (negsuc n) = native_error status_invalid
unstore b p (negsuc offset) n = native_error status_invalid

abbrev pub sample_native : Native
sample_native = record {
  hdiff_encode = store;
  hdiff_apply = unstore;
  zstd_encode = store;
  zstd_apply = unstore;
  compress = λ d args. returned d;
  decompress = λ d n. returned d;
}

store_size : (b t : Bytes) (args : List ℤ) → ReturnsPayload (store b t args)
store_size b t args = elim (Bool-cases (leb (length t) payload_max)) [
  | inl e ↦ rw e (leb→le _ _ e)
  | inr e ↦ rw e tt
]

unstore_from_size : (t : Bytes) (n : ℕ) → ReturnsSize (pos n) (unstore_from t n)
unstore_from_size t n = elim (Bool-cases (length t == n)) [
  | inl e ↦ rw e (ap pos ((==_iff _ _).0 e))
  | inr e ↦ rw e tt
]

unstore_size : (b p : Bytes) (offset n : ℤ) → ReturnsSize n (unstore b p offset n)
unstore_size b p (pos offset) (pos n) = unstore_from_size (drop offset p) n
unstore_size b p (pos offset) (negsuc n) = tt
unstore_size b p (negsuc offset) n = tt

pub sample_native-IsSized : IsSized sample_native
sample_native-IsSized = record {
  hdiff_encode_size = store_size;
  zstd_encode_size = store_size;
  hdiff_apply_size = unstore_size;
  zstd_apply_size = unstore_size;
}
