-- ===== src/VersionText.antt =====
-- lib/dpkg/parsehelp.c: `parseversion`, which reads a version, and `varbufversion`, which writes one.
pub mod Text
pub mod Epoch
pub mod Verdict
use dpkg.Base.{
  CString, peek, in_set, codes, ℕ, zero, suc, ◌+◌, ◌-◌, ◌*◌, ◌/◌, ◌%◌, ◌<◌, Bool, true, false, not,
  ◌&&◌, ◌||◌, [], ◌∷◌, ◌++◌, Option, none, some, ltb, ◌==◌, if◌then◌else◌, drop,
}
use dpkg.Base.Int.{ℤ, pos, negsuc}
use dpkg.CType.{c_isblank, c_isdigit, c_isalpha, c_isspace}
use dpkg.Version.{DpkgVersion, dpkg_version_is_informative}

-- The messages of `dpkg_put_error`, and then those of `dpkg_put_warn`.
pub data VersionProblem : Type 0 where
  empty_string embedded_spaces empty_epoch bad_epoch negative_epoch big_epoch : VersionProblem
  nothing_after_colon empty_revision empty_version : VersionProblem
  no_leading_digit bad_version_char bad_revision_char : VersionProblem

unfoldable pub skip_blanks : CString → CString
skip_blanks [] = []
skip_blanks (c ∷ s) = if c_isblank c then skip_blanks s else c ∷ s

-- The text up to the first blank, and the text from there.
unfoldable pub word : CString → CString
word [] = []
word (c ∷ s) = if c_isblank c then [] else c ∷ word s

unfoldable pub after_word : CString → CString
after_word [] = []
after_word (c ∷ s) = if c_isblank c then c ∷ s else after_word s

-- The offset one character earlier in the text.
unfoldable pub shift : Option ℕ → Option ℕ
shift none = none
shift (some i) = some (suc i)

-- `strchr`, as the offset of the character.
unfoldable pub strchr : ℕ → CString → Option ℕ
unfolding shift
strchr x [] = none
strchr x (c ∷ s) = if c == x then some 0 else shift (strchr x s)

-- What `strtol(string, &end, 10)` gives with a 64-bit `long`: the number, the offset of `end`, and
-- whether `errno` is set to `ERANGE`.
pub record Strtol : Type 0 where
  pub number : ℤ
  pub end : ℕ
  pub erange : Bool

abbrev pub long_max : ℕ
long_max = 9223372036854775807

-- The digits from an offset: their value and the offset behind them.
unfoldable pub strtol_digits : ℕ → ℕ → CString → ℕ × ℕ
strtol_digits n i [] = (n, i)
strtol_digits n i (c ∷ s) =
    if c_isdigit c then strtol_digits (n * 10 + (c - b'0')) (i + 1) s else (n, i)

-- The number with its sign, cut off at the bounds of `long`.
unfoldable pub clamp : Bool → ℕ → ℤ × Bool
clamp false n = if ltb long_max n then (pos long_max, true) else (pos n, false)
clamp true zero = (pos 0, false)
clamp true (suc n) = if ltb long_max n then (negsuc long_max, true) else (negsuc n, false)

-- With no digit at all, `end` is the start of the text.
unfoldable pub strtol_at : Bool → ℕ → CString → Strtol
unfolding strtol_digits clamp
strtol_at negative i [] = record { number = pos 0; end = 0; erange = false }
strtol_at negative i (c ∷ s) =
    let (n, j) = strtol_digits 0 i (c ∷ s) in
    let (v, r) = clamp negative n in
    if c_isdigit c
    then record { number = v; end = j; erange = r }
    else record { number = pos 0; end = 0; erange = false }

unfoldable pub strtol_sign : ℕ → CString → Strtol
unfolding strtol_at
strtol_sign i [] = strtol_at false i []
strtol_sign i (c ∷ s) =
    if c == b'-'
    then strtol_at true (i + 1) s
    else if c == b'+'
    then strtol_at false (i + 1) s
    else strtol_at false i (c ∷ s)

unfoldable pub strtol_from : ℕ → CString → Strtol
unfolding strtol_sign
strtol_from i [] = strtol_sign i []
strtol_from i (c ∷ s) = if c_isspace c then strtol_from (i + 1) s else strtol_sign i (c ∷ s)

unfoldable pub strtol : CString → Strtol
unfolding strtol_from
strtol s = strtol_from 0 s

-- `strrchr` at a hyphen: the text before the last one, and the text after it.
unfoldable pub split_at : ℕ → CString → Option (CString × CString) → Option (CString × CString)
split_at c s none = if c == b'-' then some ([], s) else none
split_at c s (some (u, r)) = some (c ∷ u, r)

unfoldable pub split_hyphen : CString → Option (CString × CString)
unfolding split_at
split_hyphen [] = none
split_hyphen (c ∷ s) = split_at c s (split_hyphen s)

abbrev pub version_char : ℕ → Bool
version_char c = c_isdigit c || c_isalpha c || in_set c (codes ".-+~:")

abbrev pub revision_char : ℕ → Bool
revision_char c = c_isdigit c || c_isalpha c || in_set c (codes ".+~")

unfoldable pub all_chars : (ℕ → Bool) → CString → Bool
all_chars ok [] = true
all_chars ok (c ∷ s) = if ok c then all_chars ok s else false

-- The checks on the two parts, with the problem that they find.
unfoldable pub check_parts : CString → CString → Option VersionProblem
check_parts [] revision = some empty_version
check_parts (c ∷ s) revision =
    if not (c_isdigit c)
    then some no_leading_digit
    else if not (all_chars version_char s)
    then some bad_version_char
    else if not (all_chars revision_char revision)
    then some bad_revision_char
    else none

-- From `rversion->version = version_str`; the result is `*rversion` and the message, if any.
unfoldable pub store_parts : DpkgVersion → CString → CString → DpkgVersion × Option VersionProblem
store_parts v version revision =
    (record v { version = some version; revision = some revision }, check_parts version revision)

-- At the hyphen.
unfoldable pub parse_revision :
    DpkgVersion → CString → Option (CString × CString) → DpkgVersion × Option VersionProblem
parse_revision v text none = store_parts v text []
parse_revision v text (some (version, [])) = (v, some empty_revision)
parse_revision v text (some (version, c ∷ s)) = store_parts v version (c ∷ s)

-- The value of a number that is not negative.
unfoldable pub is_negative : ℤ → Bool
is_negative (pos n) = false
is_negative (negsuc n) = true

unfoldable pub magnitude : ℤ → ℕ
magnitude (pos n) = n
magnitude (negsuc n) = suc n

-- `if (…) return dpkg_put_error(…);` in front of what follows.
unfoldable pub fail_if :
    Bool
    → DpkgVersion
    → VersionProblem
    → DpkgVersion × Option VersionProblem
    → DpkgVersion × Option VersionProblem
fail_if b v p next = if b then (v, some p) else next

-- The epoch, at the offset of the colon. The second text is the word up to the first blank.
unfoldable pub parse_epoch :
    DpkgVersion → CString → CString → Option ℕ → DpkgVersion × Option VersionProblem
parse_epoch v s w none = parse_revision (record v { epoch = 0 }) w (split_hyphen w)
parse_epoch v s w (some colon) =
    let e = strtol s in
    let rest = drop (colon + 1) w in
    fail_if (e.end == 0) v empty_epoch (
      fail_if (not (colon == e.end)) v bad_epoch (
        fail_if (is_negative e.number) v negative_epoch (
          fail_if (ltb 2147483647 (magnitude e.number) || e.erange) v big_epoch (
            fail_if (peek (drop (colon + 1) s) == 0) v nothing_after_colon (
              parse_revision (record v { epoch = magnitude e.number }) rest (split_hyphen rest))))))

-- From the first character that is no blank.
unfoldable pub parse_trimmed : DpkgVersion → CString → DpkgVersion × Option VersionProblem
parse_trimmed v [] = (v, some empty_string)
parse_trimmed v (c ∷ s) =
    fail_if (not (peek (skip_blanks (after_word (c ∷ s))) == 0)) v embedded_spaces
      (parse_epoch v (c ∷ s) (word (c ∷ s)) (strchr b':' (c ∷ s)))

unfoldable pub parseversion : DpkgVersion → CString → DpkgVersion × Option VersionProblem
parseversion v string = parse_trimmed v (skip_blanks string)

-- The constructors of `enum versiondisplayepochwhen`.
pub data DisplayEpoch : Type 0 where
  vdew_never vdew_nonambig vdew_always : DisplayEpoch

-- `%u`. The fuel is the number itself, which has fewer digits.
unfoldable pub decimal_loop : ℕ → ℕ → CString → CString
decimal_loop zero n out = (b'0' + n) ∷ out
decimal_loop (suc f) n out =
    let rest = decimal_loop f (n / 10) ((b'0' + n % 10) ∷ out) in
    if ltb n 10 then (b'0' + n) ∷ out else rest

unfoldable pub decimal : ℕ → CString
unfolding decimal_loop
decimal n = decimal_loop n n []

unfoldable pub has_colon : Option CString → Bool
has_colon none = false
has_colon (some s) = in_set b':' s

unfoldable pub epoch_text : DpkgVersion → DisplayEpoch → CString
epoch_text v vdew_never = []
epoch_text v vdew_nonambig =
    if v.epoch == 0 && not (has_colon v.version) && not (has_colon v.revision)
    then []
    else decimal v.epoch ++ codes ":"
epoch_text v vdew_always = decimal v.epoch ++ codes ":"

unfoldable pub version_text : Option CString → CString
version_text none = []
version_text (some s) = s

unfoldable pub revision_text : Option CString → CString
revision_text none = []
revision_text (some []) = []
revision_text (some (c ∷ s)) = b'-' ∷ c ∷ s

-- What is appended to the buffer.
unfoldable pub varbufversion : DpkgVersion → DisplayEpoch → CString
varbufversion v vdew = epoch_text v vdew ++ (version_text v.version ++ revision_text v.revision)

-- `versiondescribe`; its rotating buffers are not modelled.
unfoldable pub versiondescribe : DpkgVersion → DisplayEpoch → CString
versiondescribe v vdew =
    if not (dpkg_version_is_informative v) then codes "<none>" else varbufversion v vdew
