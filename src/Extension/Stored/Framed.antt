-- ===== src/Extension/Stored/Framed.antt =====
-- `compress` and `decompress` of the extension module over libraries that store the target.
use package.native.Mathlib.Nat.{pow-le-pow_right}
use pyhdiff.Base.{ℕ, ◌^◌, ◌≤◌, ◌≡◌, refl, ap, List, [], Bytes, length, arith}
use pyhdiff.Base.Int.{ℤ, pos}
use pyhdiff.Native.{returned}
use pyhdiff.Status.{frame_max}
use pyhdiff.Bridge.Throw.{done}
use pyhdiff.Bridge.Zstd.{zcheck}
use pyhdiff.Bridge.Apply.{chunk_size}
use pyhdiff.Bridge.Encode.{frame_limits}
use pyhdiff.Bridge.Encode.Laws.{zstd_encode-Encoding}
use pyhdiff.Bridge.Entry.Encoders.{size-contents}
use pyhdiff.Bridge.Frame.{open_frame}
use pyhdiff.Bridge.Pair.{frame_window, frame_decompress-zstd_encode}
use pyhdiff.Bridge.Sample.{allocates}
use pyhdiff.Bridge.Copying.{copying, storing, storing_pair, Encoding-stores}
use pyhdiff.Scripts.Golden.Corpus.{IsFramePair}
use pyhdiff.Extension.{compress, decompress, native}
use pyhdiff.Extension.Frames.{decompress_whole}
use pyhdiff.Extension.Codecs.{compress_encoded}
use pyhdiff.Extension.Stored.{one_chunk, stored_libraries, open_encode-one_chunk}

open_copying : (m : ℕ) → open_frame allocates copying m ≡ done tt
unfolding open_frame zcheck
open_copying m = refl

window_fits : (m : ℕ) → 1024 ≤ 2 ^ frame_window m
window_fits m =
    let grows : 2 ^ 23 ≤ 2 ^ frame_window m =
      pow-le-pow_right (omega arith) {i = 23} {j = frame_window m} (omega arith) in
    omega arith

stored_frames :
    (src : Bytes) (args : List ℤ) {f : Bytes}
    → compress stored_libraries src args ≡ returned f
    → decompress stored_libraries f (pos (length src)) ≡ returned src
stored_frames src args {f} e =
    let (o, g, x, same) = compress_encoded stored_libraries src args e in
    let (_, bounded, (_, small), (c, opened, run)) =
      zstd_encode-Encoding allocates (storing one_chunk) [] src o frame_limits x in
    let (some', _) = open_encode-one_chunk [] src o opened in
    let stores = Encoding-stores one_chunk chunk_size chunk_size run in
    let (h, y, back) =
      frame_decompress-zstd_encode allocates (storing one_chunk) copying (storing_pair one_chunk)
        (λ n. refl) src o frame_limits (length src) x (open_copying (length src))
        (window_fits (length src)) (omega (arith, ap length stores))
        (size-contents g frame_max small) (omega arith) bounded in
    decompress_whole stored_libraries (storing_pair one_chunk) (λ n. refl) (λ n. refl) f src
      (length src) bounded (rw same at y) back

-- What these libraries compress, they decompress.
pub stored-IsFramePair : IsFramePair (native stored_libraries)
stored-IsFramePair = record { decompress-compress = stored_frames }
