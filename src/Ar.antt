-- ===== src/Ar.antt =====
-- lib/dpkg/ar.c: the headers of the members of an ar archive.
pub mod Number
pub mod RoundTrip
use dpkg.Base.{
  CString, ℕ, zero, suc, ◌+◌, ◌-◌, ◌*◌, ◌/◌, ◌%◌, Bool, not, ◌||◌, [], ◌∷◌, ◌++◌, Option, none,
  some, ltb, ◌==◌, if◌then◌else◌, length,
}
use mathlib.Core.List.{reverse}
use dpkg.VersionText.{decimal}

-- The loop of `dpkg_ar_normalize_name`, from the end of the field; a NUL ends the name, so the
-- characters that it overwrites are taken off.
unfoldable pub drop_spaces : CString → CString
drop_spaces [] = []
drop_spaces (c ∷ s) = if c == b' ' then drop_spaces s else c ∷ s

unfoldable pub drop_slash : CString → CString
drop_slash [] = []
drop_slash (c ∷ s) = if c == b'/' then s else c ∷ s

unfoldable pub dpkg_ar_normalize_name : CString → CString
unfolding drop_spaces drop_slash
dpkg_ar_normalize_name name = reverse (drop_slash (drop_spaces (reverse name)))

-- The second loop of `dpkg_ar_member_parse_size`; `none` is the error. The field has ten bytes, so
-- that the size fits `off_t`.
unfoldable pub size_loop : ℕ → CString → Option ℕ
size_loop size [] = some size
size_loop size (c ∷ s) =
    let rest = size_loop (size * 10 + (c - b'0')) s in
    if c == b' ' then some size else if ltb c b'0' || ltb b'9' c then none else rest

unfoldable pub dpkg_ar_member_parse_size : CString → Option ℕ
dpkg_ar_member_parse_size field = size_loop 0 (drop_spaces field)

pub record ArMember : Type 0 where
  pub name : CString
  pub size : ℕ
  pub time : ℕ
  pub mode : ℕ
  pub uid : ℕ
  pub gid : ℕ

-- The time is that of the archive.
unfoldable pub dpkg_ar_member_init : ℕ → CString → ℕ → ArMember
dpkg_ar_member_init time name size = record {
  name = name;
  size = size;
  time = time;
  mode = 0o100644;
  uid = 0;
  gid = 0;
}

-- `%lo`, with the number itself as fuel.
unfoldable pub octal_text_loop : ℕ → ℕ → CString → CString
octal_text_loop zero n out = (b'0' + n) ∷ out
octal_text_loop (suc f) n out =
    let rest = octal_text_loop f (n / 8) ((b'0' + n % 8) ∷ out) in
    if ltb n 8 then (b'0' + n) ∷ out else rest

unfoldable pub octal_text : ℕ → CString
unfolding octal_text_loop
octal_text n = octal_text_loop n n []

-- `%-16s` and the like: spaces up to a width.
unfoldable pub pad : ℕ → CString → CString
pad zero s = s
pad (suc w) [] = b' ' ∷ pad w []
pad (suc w) (c ∷ s) = c ∷ pad w s

pub data ArError : Type 0 where
  name_too_long size_too_large time_too_large corrupt_header : ArError

pub data ArHeader : Type 0 where
  header : CString → ArHeader
  refused : ArError → ArHeader

abbrev pub header_size : ℕ
header_size = 60

unfoldable pub header_text : ArMember → CString
unfolding pad octal_text
header_text m =
    pad 16 m.name
    ++ (pad 12 (decimal m.time)
        ++ (pad 6 (decimal m.uid)
            ++ (pad 6 (decimal m.gid)
                ++ (pad 8 (octal_text m.mode) ++ (pad 10 (decimal m.size) ++ (96 ∷ 10 ∷ []))))))

-- The bytes of the header that `dpkg_ar_member_put_header` writes.
unfoldable pub dpkg_ar_member_put_header : ArMember → ArHeader
dpkg_ar_member_put_header m =
    if ltb 15 (length m.name)
    then refused name_too_long
    else if ltb 9999999999 m.size
    then refused size_too_large
    else if ltb 999999999999 m.time
    then refused time_too_large
    else if not (length (header_text m) == header_size)
    then refused corrupt_header
    else header (header_text m)

-- The bytes behind the header: the data, and a newline where their number is odd.
unfoldable pub member_data : CString → CString
member_data bytes = bytes ++ (if length bytes % 2 == 1 then 10 ∷ [] else [])

-- `dpkg_ar_check_size` passes.
unfoldable pub dpkg_ar_check_size : ℕ → Bool
dpkg_ar_check_size size = size % 2 == 0
