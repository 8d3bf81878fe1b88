-- ===== src/FilePath.antt =====
-- lib/dpkg/path.c: trimming and canonical pathnames, and the quoting of file names.
pub mod Trim
pub mod Canonical
use dpkg.StrVec.{StrVec, strvec_drop, strvec_join, strvec_push, strvec_split}
use dpkg.Base.{
  Bool, CString, Option, [], codes, false, if◌then◌else◌, leb, none, not, peek, some, str_eq, true,
  ℕ, ◌%◌, ◌&&◌, ◌++◌, ◌+◌, ◌-◌, ◌/◌, ◌==◌, ◌||◌, ◌∷◌,
}
use Prim.Native.Nat.{bit_and}
use mathlib.Core.List.{reverse}

-- The loop of `path_trim_slash_slashdot`, from the end of the path. The first character stays.
unfoldable pub trim_loop : CString → CString
trim_loop [] = []
trim_loop (x ∷ []) = x ∷ []
trim_loop (x ∷ y ∷ r) =
    let rest = trim_loop (y ∷ r) in if x == b'/' || y == b'/' && x == b'.' then rest else x ∷ y ∷ r

-- The trimmed path, whose length is the result.
unfoldable pub path_trim_slash_slashdot : CString → CString
unfolding trim_loop
path_trim_slash_slashdot path = reverse (trim_loop (reverse path))

unfoldable pub path_skip_slash_dotslash : CString → CString
path_skip_slash_dotslash [] = []
path_skip_slash_dotslash (c ∷ s) =
    if c == b'/' || c == b'.' && peek s == b'/' then path_skip_slash_dotslash s else c ∷ s

-- `strrchr(path, '/')`: what follows the last slash, if there is one.
unfoldable pub base_or : Option CString → CString → Option CString
base_or (some b) s = some b
base_or none s = some s

unfoldable pub after_last_slash : CString → Option CString
unfolding base_or
after_last_slash [] = none
after_last_slash (c ∷ s) = if c == b'/' then base_or (after_last_slash s) s else after_last_slash s

unfoldable pub whole_or : Option CString → CString → CString
whole_or none path = path
whole_or (some b) path = b

unfoldable pub path_basename : CString → CString
unfolding after_last_slash whole_or
path_basename path = whole_or (after_last_slash path) path

-- `snprintf(dst, 5, "\\%03o", c)` of a byte.
abbrev pub octal_escape : ℕ → CString
octal_escape c = b'\\' ∷ (b'0' + c / 64) ∷ (b'0' + c / 8 % 8) ∷ (b'0' + c % 8) ∷ []

-- The loop of `path_quote_filename`: what it writes in front of the NUL, with `size` bytes left. The
-- difference is negative where the code's is, since the test is on its being positive.
unfoldable pub quote_loop : ℕ → CString → CString
quote_loop size [] = []
quote_loop size (c ∷ s) =
    let two = b'\\' ∷ b'\\' ∷ quote_loop (size - 2) s in
    let one = c ∷ quote_loop (size - 1) s in
    let four = octal_escape c ++ quote_loop (size - 4) s in
    if c == b'\\'
    then (if leb size 2 then [] else two)
    else if bit_and c 0x80 == 0
    then (if leb size 1 then [] else one)
    else if leb size 4
    then []
    else four

-- `none` is an empty buffer, to which nothing is written.
unfoldable pub path_quote_filename : CString → ℕ → Option CString
path_quote_filename src n = if n == 0 then none else some (quote_loop n src)

abbrev pub is_empty : CString → Bool
is_empty [] = true
is_empty (c ∷ s) = false

-- Whether a vector has one string.
abbrev pub is_one : StrVec → Bool
is_one (s ∷ []) = true
is_one _ = false

-- A round of the loop of `path_canonicalize`: what becomes of the new vector.
unfoldable pub canonicalize_part : Bool → Bool → CString → StrVec → StrVec
canonicalize_part is_absolute first part nsv =
    if str_eq part (codes "..")
    then (if is_absolute && is_one nsv then nsv else strvec_drop nsv)
    else if is_empty part && not first || str_eq part (codes ".")
    then nsv
    else strvec_push nsv part

unfoldable pub canonicalize_loop : Bool → Bool → StrVec → StrVec → StrVec
unfolding canonicalize_part
canonicalize_loop is_absolute first [] nsv = nsv
canonicalize_loop is_absolute first (part ∷ osv) nsv =
    canonicalize_loop is_absolute false osv (canonicalize_part is_absolute first part nsv)

unfoldable pub path_canonicalize : CString → CString
unfolding canonicalize_loop strvec_split strvec_join
path_canonicalize path =
    let is_absolute = peek path == b'/' in
    let nsv = canonicalize_loop is_absolute true (strvec_split path b'/' true) [] in
    strvec_join (if is_absolute && is_one nsv then strvec_push nsv [] else nsv) b'/'
