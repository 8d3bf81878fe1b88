-- ===== src/VersionText/Verdict.antt =====
-- lib/dpkg/parsehelp.c: `parseversion` on a version written with blanks around it.
use dpkg.VersionText.Text.{
  after_word-append, all_ok, blank, byte, ends_word, skip_blanks-append, skip_blanks-only, solid,
  verdict, word-append,
}
use dpkg.VersionText.Epoch.{
  ColonFree, HyphenFree, blanks-in_set, parse_epoch-written, with_hyphen, written,
}
use dpkg.VersionText.{
  embedded_spaces, fail_if, parse_epoch, parse_trimmed, parseversion, skip_blanks, strchr,
}
use dpkg.Version.{DpkgVersion}
use dpkg.Names.Valid.{Every}
use dpkg.DebVersion.Digits.{IsDigits, value}
use dpkg.Base.{
  All-append, Bool-cases, CString, [], ap, arith, false, if◌then◌else◌, inl, inr, peek, refl, some,
  sym, true, ℕ, ◌++◌, ◌==◌, ◌∙◌, ◌∷◌, ◌≡◌, ◌≢◌, ◌≤◌,
}

-- The digits of the epoch, the version and the revision of a text; no digits stand for no epoch.
pub record IsWritten (ds u r : CString) : Type 0 where
  pub digits : IsDigits ds
  pub fits : value 0 ds ≤ 2147483647
  pub version : Every solid u
  pub revision : Every solid r
  pub last_hyphen : HyphenFree u r
  pub first_colon : ColonFree ds (u ++ with_hyphen r)
  pub not_empty : (u ++ with_hyphen r) ≢ []

with_hyphen-Every : (r : CString) → Every solid r → Every solid (with_hyphen r)
with_hyphen-Every [] h = tt
with_hyphen-Every (c ∷ s) h = (refl, h)

digits-Every : (s : CString) → IsDigits s → Every solid s
digits-Every [] d = tt
digits-Every (c ∷ s) d = (ground arith, digits-Every s d.1)

written-Every : (ds u r : CString) → IsWritten ds u r → Every solid (written ds u r)
written-Every ds u r h =
    let t =
      All-append (λ c. solid c ≡ true) u (with_hyphen r) h.version
        (with_hyphen-Every r h.revision) in
    cases ds h.digits t
  where
    cases :
        (s : CString) → IsDigits s → Every solid (u ++ with_hyphen r) → Every solid (written s u r)
    cases [] d t = t
    cases (c ∷ s) d t =
        All-append (λ x. solid x ≡ true) (c ∷ s) (b':' ∷ (u ++ with_hyphen r))
          (digits-Every (c ∷ s) d) (refl, t)

peek-solid : (t after : CString) → t ≢ [] → Every solid t → (peek (t ++ after) == 0) ≡ false
peek-solid [] after n h = absurd (n refl)
peek-solid (c ∷ t) after n h = ground (arith, h.0)

written-cons :
    (ds u r : CString) → IsWritten ds u r → (c : ℕ) × (s : CString) × (written ds u r ≡ c ∷ s)
written-cons (c ∷ s) u r h = (c, s ++ (b':' ∷ (u ++ with_hyphen r)), refl)
written-cons [] u r h = cases (u ++ with_hyphen r) h.not_empty
  where
    cases : (t : CString) → t ≢ [] → (c : ℕ) × (s : CString) × (t ≡ c ∷ s)
    cases [] n = absurd (n refl)
    cases (c ∷ s) n = (c, s, refl)

-- A word with something behind it.
parse_trimmed-word :
    (v : DpkgVersion) (c : ℕ) (s after : CString)
    → Every solid (c ∷ s)
    → Every byte after
    → ends_word after ≡ true
    → parse_trimmed v (c ∷ s ++ after) ≡ (
        if all_ok blank after
        then parse_epoch v (c ∷ s ++ after) (c ∷ s) (strchr b':' (c ∷ s ++ after))
        else (v, some embedded_spaces))
unfolding parse_trimmed fail_if
parse_trimmed-word v c s after h b e =
    rw
      (after_word-append (c ∷ s) after h e, word-append (c ∷ s) after h e, skip_blanks-only after b)
      ground arith

-- Let a text be blanks; then an optional epoch, which is digits of a value within INT_MAX and a
-- colon; a version and an optional revision behind a hyphen, not both missing, whose bytes are
-- neither blank nor NUL, with no hyphen in the revision, none in the version where there is no
-- revision, and no colon where there is no epoch; and then a text without NUL that is empty or
-- starts with a blank. If what follows is all blanks, parsing stores the value of the epoch and the
-- two parts, and its message, if any, is the first of: an empty version, no digit at its start, a
-- character in it that is not allowed, one in the revision that is not allowed. Otherwise nothing
-- is stored, for embedded spaces.
pub parseversion-written :
    (v : DpkgVersion) (front ds u r after : CString)
    → Every blank front
    → IsWritten ds u r
    → Every byte after
    → ends_word after ≡ true
    → parseversion v (front ++ (written ds u r ++ after)) ≡ (
        if all_ok blank after
        then (record { epoch = value 0 ds; version = some u; revision = some r }, verdict u r)
        else (v, some embedded_spaces))
unfolding parseversion
parseversion-written v front ds u r after f h b e =
    let (c, s, same) = written-cons ds u r h in
    let solids : Every solid (c ∷ s) = rw same at (written-Every ds u r h) in
    let t : Every solid (u ++ with_hyphen r) =
      All-append (λ x. solid x ≡ true) u (with_hyphen r) h.version
        (with_hyphen-Every r h.revision) in
    let trimmed : skip_blanks (front ++ (written ds u r ++ after)) ≡ c ∷ (s ++ after) =
      rw same (skip_blanks-append front c (s ++ after) f solids.0) in
    let whole : parse_trimmed v (written ds u r ++ after) ≡ (
        if all_ok blank after
        then parse_epoch v (written ds u r ++ after) (written ds u r)
            (strchr b':' (written ds u r ++ after))
        else (v, some embedded_spaces)) =
      rw same (parse_trimmed-word v c s after solids b e) in
    let there : c ∷ (s ++ after) ≡ written ds u r ++ after = ap (λ x. x ++ after) (sym same) in
    ap (parse_trimmed v) (trimmed ∙ there) ∙ whole ∙ elim (Bool-cases (all_ok blank after)) [
      | inl k ↦
          rw
            (
              k,
              parse_epoch-written v ds u r after h.digits h.fits h.version h.revision h.last_hyphen
                  h.first_colon (blanks-in_set after b k)
                  (peek-solid (u ++ with_hyphen r) after h.not_empty t),
            )
            refl
      | inr k ↦ rw k refl
    ]
