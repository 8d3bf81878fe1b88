-- ===== src/VersionText/Epoch.antt =====
-- lib/dpkg/parsehelp.c: the epoch and the two parts of a version in `parseversion`.
use mathlib.Core.List.{append_assoc}
use dpkg.VersionText.Text.{
  all_ok, blank, byte, check_parts-verdict, drop_past, solid, split_hyphen-append,
  split_hyphen-none, strchr-append, strchr-none, verdict,
}
use dpkg.VersionText.{
  clamp, fail_if, is_negative, long_max, magnitude, parse_epoch, parse_revision, split_hyphen,
  store_parts, strchr, strtol, strtol_at, strtol_digits, strtol_from, strtol_sign, word,
}
use dpkg.Version.{DpkgVersion}
use dpkg.CType.Classes.{c_isdigit_lem}
use dpkg.Names.Valid.{Every}
use dpkg.DebVersion.Digits.{IsDigits, value}
use dpkg.Alternatives.Database.Numbers.{digit-c_isdigit, digit-c_isspace}
use dpkg.Base.{
  CString, [], ap, arith, drop, false, in_set, length, ltb, none, peek, refl, some, true, ℕ, ◌*◌,
  ◌++◌, ◌+◌, ◌-◌, ◌==◌, ◌||◌, ◌∙◌, ◌∷◌, ◌≡◌, ◌≤◌,
}
use dpkg.Base.Int.{pos}

strtol_digits-colon :
    (n i : ℕ) (s t : CString)
    → IsDigits s
    → strtol_digits n i (s ++ b':' ∷ t) ≡ (value n s, i + length s)
unfolding strtol_digits value
strtol_digits-colon n i [] t d =
    rw (c_isdigit_lem b':' (omega arith)) (ap (λ k. (n, k)) (omega arith))
strtol_digits-colon n i (c ∷ s) t d = rw (digit-c_isdigit c d.0.0 d.0.1) (
    strtol_digits-colon (n * 10 + (c - b'0')) (i + 1) s t d.1
    ∙ ap (λ k. (value (n * 10 + (c - b'0')) s, k)) (omega arith))

-- The digits in front of a colon are read up to the colon.
pub strtol-colon :
    (c : ℕ) (s t : CString)
    → IsDigits (c ∷ s)
    → value 0 (c ∷ s) ≤ 2147483647
    → strtol (c ∷ s ++ b':' ∷ t)
      ≡ record { number = pos (value 0 (c ∷ s)); end = length (c ∷ s); erange = false }
unfolding strtol strtol_from strtol_sign strtol_at clamp
strtol-colon c s t d h =
    let minus : (c == b'-') ≡ false = ground arith in
    let plus : (c == b'+') ≡ false = ground arith in
    let none_before : 0 + length (c ∷ s) ≡ length (c ∷ s) = omega arith in
    let fits : ltb long_max (value 0 (c ∷ s)) ≡ false = ground arith in
    rw
      (
        digit-c_isspace c d.0.0 d.0.1,
        minus,
        plus,
        strtol_digits-colon 0 0 (c ∷ s) t d,
        digit-c_isdigit c d.0.0 d.0.1,
        fits,
      )
      (ap (λ k. record { number = pos (value 0 (c ∷ s)); end = k; erange = false }) none_before)

-- The text of a revision, with its hyphen.
abbrev pub with_hyphen : CString → CString
with_hyphen [] = []
with_hyphen (c ∷ s) = b'-' ∷ c ∷ s

-- Without a revision the version has no hyphen.
abbrev pub HyphenFree : CString → CString → Type 0
HyphenFree u [] = in_set b'-' u ≡ false
HyphenFree u (c ∷ s) = in_set b'-' (c ∷ s) ≡ false

-- Without an epoch there is no colon.
abbrev pub ColonFree : CString → CString → Type 0
ColonFree [] word = in_set b':' word ≡ false
ColonFree (c ∷ s) word = Unit

append_nil : (s : CString) → s ++ [] ≡ s
append_nil [] = refl
append_nil (c ∷ s) = ap (λ k. c ∷ k) (append_nil s)

parse_revision_lem :
    (v : DpkgVersion) (u r : CString)
    → Every solid u
    → Every solid r
    → HyphenFree u r
    → parse_revision v (u ++ with_hyphen r) (split_hyphen (u ++ with_hyphen r))
      ≡ (record { epoch = v.epoch; version = some u; revision = some r }, verdict u r)
unfolding parse_revision store_parts
parse_revision_lem v u [] h k f =
    rw (append_nil u, split_hyphen-none u f)
      (ap (λ x. (record v { version = some u; revision = some [] }, x))
        (check_parts-verdict u [] h k))
parse_revision_lem v u (c ∷ s) h k f = rw (split_hyphen-append u (c ∷ s) f) (
    ap (λ x. (record v { version = some u; revision = some (c ∷ s) }, x))
      (check_parts-verdict u (c ∷ s) h k))

in_set-append : (x : ℕ) (s t : CString) → in_set x (s ++ t) ≡ (in_set x s || in_set x t)
in_set-append x [] t = refl
in_set-append x (c ∷ s) t = rw (in_set-append x s t) ground arith

pub blanks-in_set : (s : CString) → Every byte s → all_ok blank s ≡ true → in_set b':' s ≡ false
blanks-in_set [] h k = refl
blanks-in_set (c ∷ s) h k =
    let first : blank c ≡ true = ground (arith, k) in
    let later : all_ok blank s ≡ true = ground (arith, k) in
    rw (blanks-in_set s h.1 later) ground (arith, first)

digits-in_set : (s : CString) → IsDigits s → in_set b':' s ≡ false
digits-in_set [] d = refl
digits-in_set (c ∷ s) d =
    let other : (b':' == c) ≡ false = ground arith in rw other (digits-in_set s d.1)

-- Behind an epoch that is a number.
parse_epoch-number :
    (v : DpkgVersion) (text w rest behind : CString) (n k : ℕ)
    → strtol text ≡ record { number = pos n; end = k; erange = false }
    → (k == 0) ≡ false
    → n ≤ 2147483647
    → drop (k + 1) w ≡ rest
    → drop (k + 1) text ≡ behind
    → (peek behind == 0) ≡ false
    → parse_epoch v text w (some k)
      ≡ parse_revision (record v { epoch = n }) rest (split_hyphen rest)
unfolding parse_epoch fail_if is_negative magnitude
parse_epoch-number v text w rest behind n k e there small l m more =
    let equal : (k == k) ≡ true = ground arith in
    let fits : ltb 2147483647 n ≡ false = ground arith in
    rw (e, l, m, there, equal, fits, more) refl

-- The version as it is written, with its epoch and its revision.
abbrev pub written : CString → CString → CString → CString
written [] u r = u ++ with_hyphen r
written (c ∷ s) u r = (c ∷ s) ++ (b':' ∷ (u ++ with_hyphen r))

pub parse_epoch-written :
    (v : DpkgVersion) (ds u r after : CString)
    → IsDigits ds
    → value 0 ds ≤ 2147483647
    → Every solid u
    → Every solid r
    → HyphenFree u r
    → ColonFree ds (u ++ with_hyphen r)
    → in_set b':' after ≡ false
    → (peek ((u ++ with_hyphen r) ++ after) == 0) ≡ false
    → parse_epoch v
        (written ds u r ++ after)
        (written ds u r)
        (strchr b':' (written ds u r ++ after))
      ≡ (record { epoch = value 0 ds; version = some u; revision = some r }, verdict u r)
parse_epoch-written v [] u r after d small h k f g a more =
    let no_colon : strchr b':' ((u ++ with_hyphen r) ++ after) ≡ none =
      strchr-none b':' ((u ++ with_hyphen r) ++ after)
        (in_set-append b':' (u ++ with_hyphen r) after ∙ rw (g, a) refl) in
    rw no_colon (unfold parse_epoch value in parse_revision_lem (record v { epoch = 0 }) u r h k f)
parse_epoch-written v (c ∷ s) u r after d small h k f g a more =
    let t : CString = u ++ with_hyphen r in
    let text : CString = (c ∷ s) ++ (b':' ∷ (t ++ after)) in
    let here : (length (c ∷ s) == 0) ≡ false = ground arith in
    let free : in_set b':' (c ∷ s) ≡ false = digits-in_set (c ∷ s) d in
    let e : written (c ∷ s) u r ++ after ≡ text = append_assoc (c ∷ s) (b':' ∷ t) after in
    ap (λ x. parse_epoch v x (written (c ∷ s) u r) (strchr b':' x)) e
    ∙ ap (parse_epoch v text (written (c ∷ s) u r)) (strchr-append b':' (c ∷ s) (t ++ after) free)
    ∙ parse_epoch-number v text (written (c ∷ s) u r) t (t ++ after) (value 0 (c ∷ s))
        (length (c ∷ s)) (strtol-colon c s (t ++ after) d small) here small
        (drop_past (c ∷ s) t b':') (drop_past (c ∷ s) (t ++ after) b':') more
    ∙ parse_revision_lem (record v { epoch = value 0 (c ∷ s) }) u r h k f
