-- ===== src/Bridge/Entry/Encoders.antt =====
-- The entry points of the bridge that encode.
use pyhdiff.Base.{ℕ, ◌≤◌, ◌≡◌, ◌≢◌, inl, Bool, [], Bytes, length, length-take, arith}
use pyhdiff.Base.Int.{ℤ}
use pyhdiff.Status.{payload_max, frame_max}
use pyhdiff.Bridge.Throw.{Cpp, diverges, done, boundary, ne-diverges_through, done_through, ◌>>=◌}
use pyhdiff.Bridge.Options.{Options, ZstdOptions, HdiffOptions, hdiff_options, zstd_options}
use pyhdiff.Bridge.Growable.{Growable, contents, release}
use pyhdiff.Bridge.Growable.Contents.{IsValid, release_lem, release-ne-diverges}
use pyhdiff.Bridge.Hdiff.{hdiff_encode, DiffLibrary}
use pyhdiff.Bridge.Hdiff.Laws.{hdiff_encode_done, hdiff_encode-ne-diverges}
use pyhdiff.Bridge.Encode.{Encoder, codec_limits, frame_limits, zstd_encode}
use pyhdiff.Bridge.Encode.Run.{MakesProgress}
use pyhdiff.Bridge.Encode.Laws.{zstd_encode-ne-diverges, zstd_encode-Encoding}
use pyhdiff.Bridge.Entry.{frame_options, phd_hdiff_encode, phd_zstd_encode, phd_zstd_compress}
use pyhdiff.Bridge.Entry.Contract.{Returns, boundary-Returns}

hdiff_options-ne-diverges : (o : HdiffOptions) → hdiff_options o ≢ diverges
unfolding hdiff_options
hdiff_options-ne-diverges o = ground arith

zstd_options-ne-diverges : (o : ZstdOptions) → zstd_options o ≢ diverges
unfolding zstd_options
zstd_options-ne-diverges o = ground arith

pub size-contents : (g : Growable) (n : ℕ) → g.size ≤ n → length (contents g) ≤ n
size-contents g n h = omega (arith, length-take g.size g.storage)

-- What an encoder guarantees of a valid buffer, an entry point that encodes returns.
encode-Returns :
    (alloc : ℕ → Bool) (P : Bytes → Type 0) (options : Cpp Options)
    (encode : Options → Cpp Growable)
    → options ≢ diverges
    → ((o : Options) → encode o ≢ diverges)
    → ((o : Options) (g : Growable) → encode o ≡ done g → IsValid g × P (contents g))
    → Returns P (boundary (options >>= λ o. encode o >>= λ g. release alloc g))
encode-Returns alloc P options encode hasOptions ends h =
    boundary-Returns P _
      (ne-diverges_through options _ hasOptions
        λ o _. ne-diverges_through (encode o) _ (ends o) λ g _. release-ne-diverges alloc g)
      λ r e.
        let (o, _, e₁) = done_through options _ e in
        let (g, x, e₂) = done_through (encode o) _ e₁ in
        let (valid, holds) = h o g x in
        let (c, s) = release_lem alloc g valid e₂ in inl (contents g, c, s, holds)

-- `phd_hdiff_encode` returns, and either its contents are within PAYLOAD_MAX or it failed and has
-- no storage.
pub phd_hdiff_encode-Returns :
    (alloc : ℕ → Bool) (D : DiffLibrary) (base target : Bytes) (o : HdiffOptions)
    → Returns (λ t. length t ≤ payload_max) (phd_hdiff_encode alloc D base target o)
unfolding phd_hdiff_encode
phd_hdiff_encode-Returns alloc D base target o =
    encode-Returns alloc _ (hdiff_options o) (hdiff_encode alloc D base target)
      (hdiff_options-ne-diverges o) (hdiff_encode-ne-diverges alloc D base target)
      λ options g e.
        let (valid, small, _, _) = hdiff_encode_done alloc D base target options e in
        (valid, size-contents g payload_max small)

-- `phd_zstd_encode` returns, if the compressor makes progress, and either its contents are within
-- PAYLOAD_MAX or it failed and has no storage.
pub phd_zstd_encode-Returns :
    (alloc : ℕ → Bool) (Z : Encoder)
    → MakesProgress Z
    → (base target : Bytes) (o : ZstdOptions)
    → Returns (λ t. length t ≤ payload_max) (phd_zstd_encode alloc Z base target o)
unfolding phd_zstd_encode
phd_zstd_encode-Returns alloc Z P base target o =
    encode-Returns alloc _ (zstd_options o) (λ p. zstd_encode alloc Z base target p codec_limits)
      (zstd_options-ne-diverges o)
      (λ p. zstd_encode-ne-diverges alloc Z P base target p codec_limits)
      λ p g e.
        let (_, _, (valid, small), _) = zstd_encode-Encoding alloc Z base target p codec_limits e in
        (valid, size-contents g payload_max small)

-- `phd_zstd_compress` returns, if the compressor makes progress, and either its contents are within
-- FRAME_MAX or it failed and has no storage.
pub phd_zstd_compress-Returns :
    (alloc : ℕ → Bool) (Z : Encoder)
    → MakesProgress Z
    → (src : Bytes) (level window_log checksum : ℤ)
    → Returns (λ t. length t ≤ frame_max) (phd_zstd_compress alloc Z src level window_log checksum)
unfolding phd_zstd_compress
phd_zstd_compress-Returns alloc Z P src level window_log checksum =
    encode-Returns alloc _ (zstd_options (frame_options level window_log checksum))
      (λ p. zstd_encode alloc Z [] src p frame_limits) (zstd_options-ne-diverges _)
      (λ p. zstd_encode-ne-diverges alloc Z P [] src p frame_limits)
      λ p g e.
        let (_, _, (valid, small), _) = zstd_encode-Encoding alloc Z [] src p frame_limits e in
        (valid, size-contents g frame_max small)
