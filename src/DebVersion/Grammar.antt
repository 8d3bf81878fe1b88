-- ===== src/DebVersion/Grammar.antt =====
-- lib/dpkg/deb-version.c: the texts of versions, and `deb_version_parse` on them.
use dpkg.Base.{
  CString, IsCString, ℕ, ◌≤◌, ◌<◌, ◌≡◌, refl, ap, ◌∙◌, ◌≢◌, true, false, [], ◌∷◌, ◌++◌, Option,
  none, some, arith, All-right,
}
use dpkg.CType.{c_isdigit}
use dpkg.DebVersion.Digits.{
  digit-true, IsDigits, value, scan_component-Component, scan_component-digits,
}
use dpkg.DebVersion.{
  DebVersion, parsed, failed, major_too_big, int_max, scan_component, no_digits, is_junk,
  parse_minor, parse_dot, parse_major, deb_version_parse,
}

-- The text of a version, as the format describes it.
pub record IsText (s : CString) (v : DebVersion) : Type 0 where
  pub major_digits : CString
  pub minor_digits : CString
  pub rest : CString
  pub splits : s ≡ major_digits ++ b'.' ∷ (minor_digits ++ rest)
  pub major_IsDigits : IsDigits major_digits
  pub minor_IsDigits : IsDigits minor_digits
  pub major_nonempty : major_digits ≢ []
  pub minor_nonempty : minor_digits ≢ []
  pub major_is : v.major ≡ value 0 major_digits
  pub minor_is : v.minor ≡ value 0 minor_digits
  pub major_in_range : v.major ≤ int_max
  pub minor_in_range : v.minor ≤ int_max
  pub ended : is_junk rest ≡ false

parse_minor-parsed :
    (major : ℕ) (str : CString) (o : Option (ℕ × CString)) {v : DebVersion}
    → scan_component 0 str ≡ o
    → parse_minor major str o ≡ parsed v
    → (end : CString) × (scan_component 0 str ≡ some (v.minor, end))
      × (v.major ≡ major)
      × (no_digits str ≡ false)
      × (is_junk end ≡ false)
unfolding parse_minor
parse_minor-parsed major str none {v} e h = cc
parse_minor-parsed major str (some (minor, end)) {v} e h =
    (end, ground (arith, e), ground arith, ground arith, ground arith)

parse_dot-parsed :
    (major : ℕ) (end : CString) {v : DebVersion}
    → parse_dot major end ≡ parsed v
    → (str : CString) × (end ≡ b'.' ∷ str)
      × (parse_minor major str (scan_component 0 str) ≡ parsed v)
unfolding parse_dot
parse_dot-parsed major [] {v} h = cc
parse_dot-parsed major (c ∷ str) {v} h = (str, ground arith, ground arith)

parse_major-parsed :
    (str : CString) (o : Option (ℕ × CString)) {v : DebVersion}
    → parse_major str o ≡ parsed v
    → (major : ℕ) × (end : CString) × (o ≡ some (major, end))
      × (no_digits str ≡ false)
      × (parse_dot major end ≡ parsed v)
unfolding parse_major
parse_major-parsed str none {v} h = cc
parse_major-parsed str (some (major, end)) {v} h = (major, end, refl, ground arith, ground arith)

-- A byte string that deb_version_parse accepts is two non-empty runs of digits within INT_MAX, with
-- a dot between them and a newline or the end behind them, and the version holds the two values.
pub deb_version_parse_sound :
    (s : CString) {v : DebVersion} → IsCString s → deb_version_parse s ≡ parsed v → IsText s v
unfolding deb_version_parse
deb_version_parse_sound s {v} b h =
    let (major, end, e, f, g) = parse_major-parsed s (scan_component 0 s) h in
    let k = scan_component-Component s 0 major end b (omega arith) e in
    let (str, e', g') = parse_dot-parsed major end g in
    let b' : IsCString (b'.' ∷ str) = rw e' at (All-right _ k.digits end (rw k.splits at b)) in
    let (rest, m, f', n, j) = parse_minor-parsed major str (scan_component 0 str) refl g' in
    let l = scan_component-Component str 0 v.minor rest b'.1 (omega arith) m in
    record {
      major_digits = k.digits;
      minor_digits = l.digits;
      rest = rest;
      splits = k.splits ∙ ap (◌++◌ k.digits) (e' ∙ ap (◌∷◌ b'.') l.splits);
      major_IsDigits = k.all_digits;
      minor_IsDigits = l.all_digits;
      major_nonempty = k.nonempty f;
      minor_nonempty = l.nonempty n;
      major_is = f' ∙ k.has_value;
      minor_is = l.has_value;
      major_in_range = omega (arith, k.in_range);
      minor_in_range = l.in_range;
      ended = j;
    }

no_digits-append : (ds rest : CString) → IsDigits ds → ds ≢ [] → no_digits (ds ++ rest) ≡ false
no_digits-append [] rest h n = absurd (n refl)
no_digits-append (c ∷ ds) rest h n = rw (digit-true c h.0.0 h.0.1)

no_digits-rest : (rest : CString) → is_junk rest ≡ false → no_digits rest ≡ true
no_digits-rest [] h = refl
no_digits-rest (c ∷ rest) h = let e : c ≡ 10 = ground arith in rw e (unfold c_isdigit in refl)

scan_fits :
    (ds rest : CString) (v : ℕ)
    → IsDigits ds
    → no_digits rest ≡ true
    → v ≡ value 0 ds
    → v ≤ int_max
    → scan_component 0 (ds ++ rest) ≡ some (v, rest)
scan_fits ds rest v h e f l =
    rw (scan_component-digits 0 ds rest h (omega arith) e, ← f) (ground arith)

-- Every text of a version within the bounds is accepted, with its two values.
pub deb_version_parse_complete :
    (s : CString) (v : DebVersion) → IsText s v → deb_version_parse s ≡ parsed v
unfolding deb_version_parse parse_major parse_dot parse_minor
deb_version_parse_complete s v t =
    let tail = t.minor_digits ++ t.rest in
    let dot : no_digits (b'.' ∷ tail) ≡ true = unfold c_isdigit in refl in
    rw
      (
        t.splits,
        scan_fits t.major_digits (b'.' ∷ tail) v.major t.major_IsDigits dot t.major_is
            t.major_in_range,
        no_digits-append t.major_digits (b'.' ∷ tail) t.major_IsDigits t.major_nonempty,
      )
      (rw (
        scan_fits t.minor_digits t.rest v.minor t.minor_IsDigits (no_digits-rest t.rest t.ended)
            t.minor_is t.minor_in_range,
        no_digits-append t.minor_digits t.rest t.minor_IsDigits t.minor_nonempty,
        t.ended,
      ))

-- A text that starts with a run of digits beyond INT_MAX is refused as too big, whatever follows.
pub deb_version_parse_too_big :
    (ds rest : CString)
    → IsDigits ds
    → no_digits rest ≡ true
    → int_max < value 0 ds
    → deb_version_parse (ds ++ rest) ≡ failed major_too_big
unfolding deb_version_parse parse_major
deb_version_parse_too_big ds rest h e l =
    rw (scan_component-digits 0 ds rest h (omega arith) e) (ground arith)
