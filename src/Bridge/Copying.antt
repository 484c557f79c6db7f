-- ===== src/Bridge/Copying.antt =====
-- A sample pair of a compressor and a decoder: frames that are the bytes themselves.
use pyhdiff.Base.{
  ℕ, Bool-cases, ◌+◌, ◌-◌, ◌<◌, ◌≡◌, refl, sym, ap, ◌∙◌, min, Bool, true, false, not, some, [],
  Bytes, ◌++◌, length, take, drop, ◌==◌, arith, if◌then◌else◌, inl, inr, take-take, length-take,
  length-drop, ap₂, take-all, drop-all, take-append-drop,
}
use pyhdiff.Bridge.Zstd.{Decoder, Code, value, error, value-injective, content_size_unknown}
use pyhdiff.Bridge.Encode.{Encoder}
use pyhdiff.Bridge.Encode.Run.{Compressing, Encoding, last_chunk, next_chunk}
use pyhdiff.Bridge.Frame.Accepts.{Accepts}
use pyhdiff.Bridge.Pair.{FramePair}
use pyhdiff.Bridge.Sample.{allocates, sample_encoder}

all_consumed :
    (last : Bool) (n size room : ℕ)
    → size - min size room ≡ n
    → (if last then not (n == 0) else not (min size room == size)) ≡ false
    → min size room ≡ size
all_consumed true n size room e h = ground arith
all_consumed false n size room e h = ground arith

-- The sample compressor, with what it answers to the size of a source.
abbrev pub storing : (ℕ → Code) → Encoder
storing pledge = record sample_encoder { set_pledged_size = λ c n. (tt, pledge n) }

-- It stores the source.
Compressing-stores :
    (pledge : ℕ → Code) (room : ℕ) {last : Bool} {c end : Unit} {src out : Bytes}
    → Compressing (storing pledge) room last end c src out
    → out ≡ src
Compressing-stores pledge room {last} (Compressing.stop c src n code ends e) =
    take-all (min (length src) room) src
      (omega (arith, all_consumed last n (length src) room (value-injective code) ends))
Compressing-stores pledge room (Compressing.more c src n code rest) =
    ap (λ b. take (min (length src) room) src ++ b) (Compressing-stores pledge room rest)
    ∙ take-append-drop (min (length src) room) src

pub Encoding-stores :
    (pledge : ℕ → Code) (room size : ℕ) {c : Unit} {src out : Bytes}
    → Encoding (storing pledge) room size c src out
    → out ≡ src
Encoding-stores pledge room size (last_chunk c end src h run) =
    Compressing-stores pledge room run ∙ take-all size src h
Encoding-stores pledge room size (next_chunk c next src h run rest) =
    ap₂ (λ a b. a ++ b) (Compressing-stores pledge room run) (Encoding-stores pledge room size rest)
    ∙ take-append-drop size src

-- The code of a call that has copied so many of some bytes. A call without progress fails.
abbrev pub copied_code : ℕ → ℕ → Code
copied_code n size = if n == 0 then error 80 else value (size - n)

copied_code_lem : (n size left : ℕ) → copied_code n size ≡ value left → (0 < n) × (size - n ≡ left)
copied_code_lem n size left e = elim (Bool-cases (n == 0)) [
  | inl c ↦ absurd (error-ne-value (rw c at e))
  | inr c ↦ (ground arith, value-injective (rw c at e))
]
  where
    error-ne-value : {m k : ℕ} → ¬ (error m ≡ value k)
    error-ne-value e = cc

pub copied_code_moved : (n size : ℕ) → 0 < n → copied_code n size ≡ value (size - n)
copied_code_moved n size h = elim (Bool-cases (n == 0)) [
  | inl c ↦ absurd (ground arith)
  | inr c ↦ rw c refl
]

-- A decoder that copies its input, and ends a frame with each input that it has read to its end.
abbrev pub copied_size : Bytes → ℕ → ℕ
copied_size src room = min (length src) room

abbrev pub copying : Decoder
copying = record {
  Ctx = Unit;
  create = some tt;
  set_window_log_max = λ c log. (tt, value 0);
  ref_prefix = λ c base. (tt, value 0);
  decompress_stream = λ c src room. record {
    ctx = tt;
    consumed = copied_size src room;
    produced = take (copied_size src room) src;
    code = copied_code (copied_size src room) (length src);
  };
  frame_header = λ src. (
    record { is_frame = true; window_size = 1024; content_size = content_size_unknown },
    value 0,
  );
  frame_content_size = λ src. content_size_unknown;
  memory_allocation = 64;
  consumed-le = λ c src room. omega arith;
  produced-le = λ c src room. omega (arith, length-take (copied_size src room) src);
}

drop-nil : (n : ℕ) → drop {A = ℕ} n [] ≡ []
drop-nil n = drop-all n [] (omega arith)

copying_moves :
    (src out : Bytes) (room : ℕ)
    → out ≡ src
    → 0 < length src + length out
    → 0 < room
    → 0 < copied_size src room + length (take (copied_size src room) src)
copying_moves src out room e some' h = omega (arith, ap length e)

abbrev copying_accepts : Accepts copying
copying_accepts = record {
  Owes = λ c src out. out ≡ src;
  called = λ c src out k room left o code.
      let n = copied_size (take k src) room in
      let size = length-take k src in
      record {
        owed = drop n src;
        split =
            o
            ∙ sym (take-append-drop n src)
            ∙ ap (λ b. b ++ drop n src)
                (sym (take-take n k src (omega (arith, length-take k src))));
        next_owes = refl;
        ends = λ z e. e;
        over = λ some' e nothing_owed.
            (let read = length-drop n src in
              let none_left = ap length e in
              let left_is : length (take k src) - n ≡ left = (copied_code_lem n _ left code).1 in
              omega arith);
      };
  moves = λ c src out room o some' h. (
    (
      length src - copied_size src room,
      copied_code_moved (copied_size src room) (length src) (omega (arith, ap length o)),
    ),
    copying_moves src out room o some' h,
  );
}

pub storing_pair : (pledge : ℕ → Code) → FramePair allocates (storing pledge) copying
storing_pair pledge = record {
  accepts = copying_accepts;
  frame_accepted = λ c d room size log src frame ready run is_open window.
      sym (Encoding-stores pledge room size run);
}

pub pair : FramePair allocates sample_encoder copying
pair = storing_pair λ n. value 0
