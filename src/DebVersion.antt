-- ===== src/DebVersion.antt =====
-- lib/dpkg/deb-version.c: the format version of a .deb archive, "X.Y".
pub mod Digits
pub mod Grammar
use dpkg.Base.{
  CString, ℕ, ◌+◌, ◌-◌, ◌*◌, ◌%◌, ◌^◌, ◌&&◌, ◌||◌, not, [], ◌∷◌, Option, none, some, ltb, ◌==◌,
  Bool, true, false, if◌then◌else◌,
}
use dpkg.CType.{c_isdigit}

pub record DebVersion : Type 0 where
  pub major : ℕ
  pub minor : ℕ

-- The error strings.
pub data DebVersionError : Type 0 where
  major_too_big major_empty no_dot minor_too_big minor_empty junk : DebVersionError

-- An error leaves `*version` alone.
pub data DebVersionResult : Type 0 where
  parsed : DebVersion → DebVersionResult
  failed : DebVersionError → DebVersionResult

abbrev pub int_max : ℕ
int_max = 2147483647

-- `INT_MAX / 10` and `INT_MAX % 10`.
abbrev pub div_limit : ℕ
div_limit = 214748364

abbrev pub mod_limit : ℕ
mod_limit = 7

-- The loop over the digits of a component: its value and `end`, or `none` if it is too big. The sum
-- is one of `unsigned int`.
unfoldable pub scan_component : ℕ → CString → Option (ℕ × CString)
scan_component n [] = some (n, [])
scan_component n (c ∷ s) =
    if c_isdigit c
    then (if ltb div_limit n || n == div_limit && ltb mod_limit (c - b'0')
        then none
        else scan_component ((n * 10 + (c - b'0')) % 2 ^ 32) s)
    else some (n, c ∷ s)

-- `end == str` holds when the loop made no round: there was no digit at the start.
abbrev pub no_digits : CString → Bool
no_digits [] = true
no_digits (c ∷ s) = not (c_isdigit c)

-- `*end != '\n' && *end != '\0'`
abbrev pub is_junk : CString → Bool
is_junk [] = false
is_junk (c ∷ s) = not (c == 10)

-- From the first character of the minor component.
unfoldable pub parse_minor : ℕ → CString → Option (ℕ × CString) → DebVersionResult
parse_minor major str none = failed minor_too_big
parse_minor major str (some (minor, end)) =
    if no_digits str
    then failed minor_empty
    else if is_junk end
    then failed junk
    else parsed (record { major = major; minor = minor })

-- `*end != '.'`, then the rest of the function.
unfoldable pub parse_dot : ℕ → CString → DebVersionResult
parse_dot major [] = failed no_dot
parse_dot major (c ∷ str) =
    if c == b'.' then parse_minor major str (scan_component 0 str) else failed no_dot

-- From the end of the major component.
unfoldable pub parse_major : CString → Option (ℕ × CString) → DebVersionResult
parse_major str none = failed major_too_big
parse_major str (some (major, end)) =
    if no_digits str then failed major_empty else parse_dot major end

unfoldable pub deb_version_parse : CString → DebVersionResult
deb_version_parse str = parse_major str (scan_component 0 str)
