-- ===== src/Bridge/Encode/Failures.antt =====
-- The failures of the entry points of src/native/bridge.cpp that run the compressor: none has the
-- status of a success.
use pyhdiff.Base.{
  ℕ, Option, none, some, ltb, ◌-◌, ◌==◌, zero, suc, ◌≢◌, Bool, true, false, ◌&&◌, Bytes, [], ◌∷◌,
  length, take, drop, leb, List, arith, inl, inr, Bool-cases,
}
use pyhdiff.Status.{Status, status_ok, status_limit, raw_max}
use pyhdiff.Bridge.Throw.{
  Cpp, diverges, throw, done, Thrown, bad_alloc, failure, std_exception, other_exception, ◌>>=◌,
  require,
}
use pyhdiff.Bridge.Zstd.{Code, value, error, zcheck}
use pyhdiff.Bridge.Apply.{created, chunk_size}
use pyhdiff.Bridge.Options.{Options, ZstdOptions, zstd_options}
use pyhdiff.Bridge.Options.Ldm.{zstd_options-InZstdRanges}
use pyhdiff.Bridge.Growable.{Growable, capacity, empty, grow_to, spare, append, release}
use pyhdiff.Bridge.Tuning.{Parameter, settings}
use pyhdiff.Bridge.Encode.{
  Encoder, Limits, Flow, set_all, encode_call, chunk_loop, calls_for, encode_loop, open_encode,
  zstd_encode,
}

abbrev pub KeepsStatus : Thrown → Type 0
KeepsStatus bad_alloc = Unit
KeepsStatus (failure s) = s ≢ status_ok
KeepsStatus std_exception = Unit
KeepsStatus other_exception = Unit

-- It does not fail with the status of a success.
abbrev pub IsLoud {ℓ} : {A : Type ℓ} → Cpp A → Type 0
IsLoud diverges = Unit
IsLoud (throw t) = KeepsStatus t
IsLoud (done a) = Unit

pub IsLoud-through {ℓ κ} :
    {A : Type ℓ} {B : Type κ} (first : Cpp A) (next : A → Cpp B)
    → IsLoud first
    → ((a : A) → IsLoud (next a))
    → IsLoud (first >>= next)
IsLoud-through diverges next f g = tt
IsLoud-through (throw t) next f g = f
IsLoud-through (done a) next f g = g a

pub require-IsLoud : (b : Bool) (s : Status) → s ≢ status_ok → IsLoud (require b s)
require-IsLoud true s h = tt
require-IsLoud false s h = h

created-IsLoud : {A : Type 0} (o : Option A) → IsLoud (created o)
created-IsLoud none = tt
created-IsLoud (some a) = tt

zcheck-IsLoud : (memory_allocation : ℕ) (c : Code) → IsLoud (zcheck memory_allocation c)
unfolding zcheck
zcheck-IsLoud memory_allocation (value n) = tt
zcheck-IsLoud memory_allocation (error n) = λ e. ground arith

zstd_options-IsLoud : (o : ZstdOptions) → IsLoud (zstd_options o)
zstd_options-IsLoud o = elim (zstd_options-InZstdRanges o) [
  | inl (_, _, (out, e, _)) ↦ rw e tt
  | inr (_, e) ↦ rw e (λ x. ground arith)
]

module _ (alloc : ℕ → Bool) where
  pub grow_to-IsLoud : (n : ℕ) (g : Growable) → IsLoud (grow_to alloc n g)
  unfolding grow_to
  grow_to-IsLoud n g = elim (Bool-cases (alloc n)) [ inl e ↦ rw e tt | inr e ↦ rw e tt ]

  append-IsLoud : (b : Bytes) (g : Growable) → IsLoud (append alloc b g)
  unfolding append spare
  append-IsLoud b g = elim (Bool-cases (ltb (capacity g - g.size) (length b))) [
    | inl e ↦ rw e (IsLoud-through (grow_to alloc _ g) _ (grow_to-IsLoud _ g) λ h. tt)
    | inr e ↦ rw e tt
  ]

  pub release-IsLoud : (g : Growable) → IsLoud (release alloc g)
  unfolding release
  release-IsLoud g = elim (Bool-cases (capacity g == 0)) [
    | inl e ↦ rw e (IsLoud-through (grow_to alloc 1 g) _ (grow_to-IsLoud 1 g) λ h. tt)
    | inr e ↦ rw e tt
  ]

module _ (alloc : ℕ → Bool) (Z : Encoder) where
  open Z use {Ctx, memory_allocation}

  set_all-IsLoud : (ps : List (Parameter × ℕ)) (c : Ctx) → IsLoud (set_all alloc Z ps c)
  unfolding set_all
  set_all-IsLoud [] c = tt
  set_all-IsLoud ((p, v) ∷ ps) c =
      IsLoud-through (zcheck memory_allocation (Z.set_parameter c p v).1) _
        (zcheck-IsLoud memory_allocation _) λ _. set_all-IsLoud ps (Z.set_parameter c p v).0

  open_encode-IsLoud :
      (base target : Bytes) (o : Options) → IsLoud (open_encode alloc Z base target o)
  unfolding open_encode
  open_encode-IsLoud base target o =
      IsLoud-through (created Z.create) _ (created-IsLoud Z.create) λ c.
        IsLoud-through (set_all alloc Z (settings Z.presets o (length base) (length target)) c) _
          (set_all-IsLoud _ c)
          λ set.
            let n = length target in
            IsLoud-through (zcheck memory_allocation (Z.set_pledged_size set n).1) _
              (zcheck-IsLoud memory_allocation _)
              λ _.
                IsLoud-through
                  (zcheck memory_allocation (Z.ref_prefix (Z.set_pledged_size set n).0 base).1) _
                  (zcheck-IsLoud memory_allocation _) λ _. tt

  encode_call-IsLoud :
      (limit : ℕ) (chunk : Bytes) (last : Bool) (f : Flow Ctx)
      → IsLoud (encode_call alloc Z limit chunk last f)
  unfolding encode_call
  encode_call-IsLoud limit chunk last f =
      let s = Z.compress_stream f.ctx (drop f.at chunk) chunk_size last in
      IsLoud-through (zcheck memory_allocation s.code) _ (zcheck-IsLoud memory_allocation _) λ _.
        IsLoud-through (require (leb (length s.produced) (limit - f.encoded.size)) status_limit) _
          (require-IsLoud _ _ (λ e. ground arith))
          λ _.
            IsLoud-through (append alloc s.produced f.encoded) _
              (append-IsLoud alloc s.produced f.encoded) λ _. tt

  chunk_loop-IsLoud :
      (fuel limit : ℕ) (chunk : Bytes) (last : Bool) (f : Flow Ctx)
      → IsLoud (chunk_loop alloc Z fuel limit chunk last f)
  unfolding chunk_loop
  chunk_loop-IsLoud zero limit chunk last f = tt
  chunk_loop-IsLoud (suc fuel) limit chunk last f =
      IsLoud-through (encode_call alloc Z limit chunk last f) _
        (encode_call-IsLoud limit chunk last f)
        λ r. elim (Bool-cases r.0) [
          | inl e ↦ rw e (chunk_loop-IsLoud fuel limit chunk last r.1)
          | inr e ↦ rw e tt
        ]

  encode_loop-IsLoud :
      (rounds limit : ℕ) (target : Bytes) (c : Ctx) (encoded : Growable)
      → IsLoud (encode_loop alloc Z rounds limit target c encoded)
  unfolding encode_loop
  encode_loop-IsLoud zero limit target c encoded = tt
  encode_loop-IsLoud (suc rounds) limit target c encoded =
      let f : Flow Ctx = record { ctx = c; at = 0; encoded = encoded } in
      IsLoud-through
        (chunk_loop alloc Z (calls_for limit encoded) limit (take chunk_size target)
          (leb (length target) chunk_size) f)
        _ (chunk_loop-IsLoud _ limit _ _ f)
        λ g. elim (Bool-cases (leb (length target) chunk_size)) [
          | inl e ↦ rw e tt
          | inr e ↦ rw e (encode_loop-IsLoud rounds limit (drop chunk_size target) g.ctx g.encoded)
        ]

  zstd_encode-IsLoud :
      (base target : Bytes) (o : Options) (limits : Limits)
      → IsLoud (zstd_encode alloc Z base target o limits)
  unfolding zstd_encode
  zstd_encode-IsLoud base target o limits =
      IsLoud-through
        (require (leb (length base) raw_max && leb (length target) limits.input) status_limit) _
        (require-IsLoud _ _ (λ e. ground arith))
        λ _.
          IsLoud-through (open_encode alloc Z base target o) _ (open_encode-IsLoud base target o)
            λ c. encode_loop-IsLoud _ limits.output target c empty

  -- The body of `phd_zstd_encode` and `phd_zstd_compress`.
  pub encode_body-IsLoud :
      (base target : Bytes) (o : ZstdOptions) (limits : Limits)
      → IsLoud (
          zstd_options o >>= λ options.
          zstd_encode alloc Z base target options limits >>= λ encoded. release alloc encoded)
  encode_body-IsLoud base target o limits =
      IsLoud-through (zstd_options o) _ (zstd_options-IsLoud o) λ options.
        IsLoud-through (zstd_encode alloc Z base target options limits) _
          (zstd_encode-IsLoud base target options limits) λ g. release-IsLoud alloc g
