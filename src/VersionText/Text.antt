-- ===== src/VersionText/Text.antt =====
-- lib/dpkg/parsehelp.c: what `parseversion` makes of the text of a version.
use dpkg.VersionText.{
  VersionProblem, after_word, all_chars, bad_revision_char, bad_version_char, check_parts,
  empty_version, no_leading_digit, revision_char, shift, skip_blanks, split_at, split_hyphen,
  strchr, version_char, word,
}
use dpkg.CType.{c_isblank}
use dpkg.CType.Classes.{
  c_isalpha_lem, c_isblank_lem, c_isdigit_lem, digit_range, lower_range, upper_range,
}
use dpkg.Names.Valid.{Every}
use dpkg.Base.{
  Bool, Bool-cases, CString, Option, [], ap, arith, drop, false, if◌then◌else◌, in_set, inl, inr,
  length, ltb, none, not, peek, refl, some, suc, true, ℕ, ◌&&◌, ◌++◌, ◌+◌, ◌<◌, ◌==◌, ◌||◌, ◌∙◌,
  ◌∷◌, ◌≡◌,
}

abbrev pub blank : ℕ → Bool
blank c = c == b' ' || c == 9

-- A byte that is neither a blank nor NUL.
abbrev pub solid : ℕ → Bool
solid c = ltb 0 c && ltb c 256 && not (blank c)

abbrev pub letter_or_digit : ℕ → Bool
letter_or_digit c = digit_range c || upper_range c || lower_range c

abbrev pub revision_ok : ℕ → Bool
revision_ok c = letter_or_digit c || c == b'.' || c == b'+' || c == b'~'

abbrev pub version_ok : ℕ → Bool
version_ok c = revision_ok c || c == b'-' || c == b':'

abbrev pub all_ok : (ℕ → Bool) → CString → Bool
all_ok ok [] = true
all_ok ok (c ∷ s) = ok c && all_ok ok s

-- What is wrong with the two parts of a version.
abbrev pub verdict : CString → CString → Option VersionProblem
verdict [] revision = some empty_version
verdict (c ∷ s) revision =
    if not (digit_range c)
    then some no_leading_digit
    else if not (all_ok version_ok s)
    then some bad_version_char
    else if all_ok revision_ok revision
    then none
    else some bad_revision_char

blank_lem : (c : ℕ) → blank c ≡ true → c_isblank c ≡ true
blank_lem c h = let small : c < 256 = ground (arith, h) in c_isblank_lem c small ∙ h

solid_lem : (c : ℕ) → solid c ≡ true → c_isblank c ≡ false
solid_lem c h =
    let small : c < 256 = ground (arith, h) in
    let none_here : blank c ≡ false = ground (arith, h) in c_isblank_lem c small ∙ none_here

pub skip_blanks-all : (s : CString) → Every blank s → skip_blanks s ≡ []
unfolding skip_blanks
skip_blanks-all [] h = refl
skip_blanks-all (c ∷ s) h = rw (blank_lem c h.0) (skip_blanks-all s h.1)

pub skip_blanks-append :
    (b : CString) (c : ℕ) (s : CString)
    → Every blank b
    → solid c ≡ true
    → skip_blanks (b ++ c ∷ s) ≡ c ∷ s
unfolding skip_blanks
skip_blanks-append [] c s h k = rw (solid_lem c k) refl
skip_blanks-append (x ∷ b) c s h k = rw (blank_lem x h.0) (skip_blanks-append b c s h.1 k)

-- The end of a word: nothing, or a blank.
abbrev pub ends_word : CString → Bool
ends_word [] = true
ends_word (c ∷ s) = blank c

pub word-append : (w b : CString) → Every solid w → ends_word b ≡ true → word (w ++ b) ≡ w
unfolding word
word-append [] [] h k = refl
word-append [] (c ∷ b) h k = rw (blank_lem c k) refl
word-append (c ∷ w) b h k = rw (solid_lem c h.0, word-append w b h.1 k) refl

pub after_word-append :
    (w b : CString) → Every solid w → ends_word b ≡ true → after_word (w ++ b) ≡ b
unfolding after_word
after_word-append [] [] h k = refl
after_word-append [] (c ∷ b) h k = rw (blank_lem c k) refl
after_word-append (c ∷ w) b h k = rw (solid_lem c h.0) (after_word-append w b h.1 k)

pub strchr-append :
    (x : ℕ) (a s : CString) → in_set x a ≡ false → strchr x (a ++ x ∷ s) ≡ some (length a)
unfolding strchr shift
strchr-append x [] s h = let same : (x == x) ≡ true = ground arith in rw same refl
strchr-append x (c ∷ a) s h =
    let other : (c == x) ≡ false = ground (arith, h) in
    let later : in_set x a ≡ false = ground (arith, h) in rw (other, strchr-append x a s later) refl

pub strchr-none : (x : ℕ) (a : CString) → in_set x a ≡ false → strchr x a ≡ none
unfolding strchr shift
strchr-none x [] h = refl
strchr-none x (c ∷ a) h =
    let other : (c == x) ≡ false = ground (arith, h) in
    let later : in_set x a ≡ false = ground (arith, h) in rw (other, strchr-none x a later) refl

pub split_hyphen-none : (a : CString) → in_set b'-' a ≡ false → split_hyphen a ≡ none
unfolding split_hyphen split_at
split_hyphen-none [] h = refl
split_hyphen-none (c ∷ a) h =
    let other : (c == b'-') ≡ false = ground (arith, h) in
    let later : in_set b'-' a ≡ false = ground (arith, h) in
    rw (split_hyphen-none a later, other) refl

pub split_hyphen-append :
    (a r : CString) → in_set b'-' r ≡ false → split_hyphen (a ++ b'-' ∷ r) ≡ some (a, r)
unfolding split_hyphen split_at
split_hyphen-append [] r h = rw (split_hyphen-none r h) refl
split_hyphen-append (c ∷ a) r h = rw (split_hyphen-append a r h) refl

pub drop_past : (a s : CString) (x : ℕ) → drop (length a + 1) (a ++ x ∷ s) ≡ s
drop_past [] s x = refl
drop_past (c ∷ a) s x =
    let e : suc (length a) + 1 ≡ suc (length a + 1) = omega arith in
    ap (λ n. drop n (c ∷ a ++ x ∷ s)) e ∙ drop_past a s x

-- Nothing but blanks is left of a text without NUL.
abbrev pub byte : ℕ → Bool
byte c = ltb 0 c && ltb c 256

pub skip_blanks-only : (s : CString) → Every byte s → (peek (skip_blanks s) == 0) ≡ all_ok blank s
unfolding skip_blanks
skip_blanks-only [] h = refl
skip_blanks-only (c ∷ s) h =
    let small : c < 256 = ground (arith, h.0) in
    elim (Bool-cases (blank c)) [
      | inl e ↦ rw (blank_lem c e, e) (skip_blanks-only s h.1)
      | inr e ↦ rw (c_isblank_lem c small ∙ e, e) ground (arith, h.0)
    ]

all_chars-all_ok :
    (p q : ℕ → Bool) (s : CString)
    → ((c : ℕ) → solid c ≡ true → p c ≡ q c)
    → Every solid s
    → all_chars p s ≡ all_ok q s
unfolding all_chars
all_chars-all_ok p q [] e h = refl
all_chars-all_ok p q (c ∷ s) e h = rw (e c h.0, all_chars-all_ok p q s e h.1) ground arith

revision_char_lem : (c : ℕ) → solid c ≡ true → revision_char c ≡ revision_ok c
revision_char_lem c h =
    let small : c < 256 = ground (arith, h) in
    rw (c_isdigit_lem c small, c_isalpha_lem c small) ground arith

version_char_lem : (c : ℕ) → solid c ≡ true → version_char c ≡ version_ok c
version_char_lem c h =
    let small : c < 256 = ground (arith, h) in
    rw (c_isdigit_lem c small, c_isalpha_lem c small) ground arith

pub check_parts-verdict :
    (u r : CString) → Every solid u → Every solid r → check_parts u r ≡ verdict u r
unfolding check_parts
check_parts-verdict [] r h k = refl
check_parts-verdict (c ∷ s) r h k =
    let small : c < 256 = ground (arith, h.0) in
    rw
      (
        c_isdigit_lem c small,
        all_chars-all_ok version_char version_ok s version_char_lem h.1,
        all_chars-all_ok revision_char revision_ok r revision_char_lem k,
      )
      ground arith
