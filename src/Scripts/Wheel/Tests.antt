-- ===== src/Scripts/Wheel/Tests.antt =====
-- `retag` on a wheel of three files.
use pyhdiff.Base.{◌≡◌, refl, Option, some, String, str_eq, List, [], ◌∷◌, Bytes, if◌then◌else◌}
use pyhdiff.Scripts.Wheel.{
  ZipInfo, ZipEntry, TextLibrary, refused, unexpected_tags, written, rewrite_all, finish_all, retag,
}

abbrev record_text : String
record_text = "d.dist-info/WHEEL,sha256=new,1\nx,,\n"

abbrev decoded : Bytes → Option String
decoded [] = some "record"
decoded (b ∷ bs) = some "wheel"

abbrev sample : TextLibrary
sample = record {
  decode = decoded;
  encode = λ text.
      if str_eq text "retagged" then 3 ∷ [] else if str_eq text record_text then 5 ∷ [] else [];
  count = λ text part. 1;
  replace =
      λ text old new. if str_eq text "wheel" then "retagged" else "d-manylinux_2_34_x86_64.whl";
  split_lines = λ text. "d.dist-info/WHEEL,sha256=old,9" ∷ "x,," ∷ [];
  digest64 = λ b. "new";
  decimal = λ n. "1";
}

abbrev info : String → ZipInfo
info name = record { filename = name; date_time = 1980 ∷ []; compress_type = 8 }

abbrev built : List ZipEntry
built =
    (info "x", 7 ∷ []) ∷ (info "d.dist-info/WHEEL", 1 ∷ []) ∷ (info "d.dist-info/RECORD", []) ∷ []

abbrev rebuilt : List ZipEntry
rebuilt =
    (info "x", 7 ∷ [])
    ∷ (info "d.dist-info/WHEEL", 3 ∷ [])
    ∷ (info "d.dist-info/RECORD", 5 ∷ [])
    ∷ []

retag_run :
    retag sample "d-linux_x86_64.whl" built ≡ written ("d-manylinux_2_34_x86_64.whl", rebuilt)
unfolding retag rewrite_all finish_all
retag_run = refl

-- A wheel without the expected tag is refused.
retag_refused :
    retag (record sample { count = λ text part. 0 }) "d-linux_x86_64.whl" built
    ≡ refused (unexpected_tags "wheel")
unfolding retag rewrite_all finish_all
retag_refused = refl
