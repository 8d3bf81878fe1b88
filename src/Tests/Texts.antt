-- ===== src/Tests/Texts.antt =====
-- The theorems on names, paths, texts and headers at concrete inputs.
use dpkg.VersionText.Verdict.{IsWritten, parseversion-written}
use dpkg.DebVersion.Digits.{value}
use dpkg.FilePath.Canonical.{directory_of, path_canonicalize-pathname_of, pathname_of}
use dpkg.FilePath.{canonicalize_loop, canonicalize_part, path_canonicalize}
use dpkg.StrVec.{strvec_join, strvec_split}
use dpkg.StrVec.Join.{strvec_join-strvec_split}
use dpkg.Base.{
  Bool, CString, [], arith, codes, false, if◌then◌else◌, length, none, not, refl, some, str_eq,
  true, ℕ, ◌&&◌, ◌++◌, ◌+◌, ◌<◌, ◌==◌, ◌^◌, ◌∷◌, ◌≡◌,
}
use dpkg.CType.{c_isalnum, c_isalpha, c_isdigit}
use dpkg.DebVersion.{
  deb_version_parse, failed, int_max, major_too_big, parse_dot, parse_major, parse_minor, parsed,
  scan_component,
}
use dpkg.Version.{dpkg_version_blank}
use dpkg.VersionText.{parseversion}
use dpkg.Tar.Octal.{octal_value, tar_atol8-octal}
use dpkg.Text.{is_meta, str_escape_fmt, str_quote_meta}
use dpkg.DebVersion.Grammar.{
  IsText, deb_version_parse_complete, deb_version_parse_sound, deb_version_parse_too_big,
}
use dpkg.Tar.{
  TarHeader, check_checksum, check_fillers, good, mismatch, no_error, octal_field, octal_loop,
  skip_spaces, sum_bytes, tar_atol8, tar_header_checksum, tar_ret_errno,
}
use dpkg.Filters.{FilterNode, filter_add, filter_should_skip}
use dpkg.Text.Quoting.{Escaped, str_escape_fmt-Escaped, str_quote_meta_overflow}
use dpkg.Names.Valid.{Every}
use dpkg.Filters.LastMatch.{filter_should_skip-filter_add}
use dpkg.Tar.Checksum.{before, check_checksum_finds_change}

abbrev two_oh : CString
two_oh = b'2' ∷ b'.' ∷ b'0' ∷ 10 ∷ []

two_oh-parsed : deb_version_parse two_oh ≡ parsed (record { major = 2; minor = 0 })
unfolding deb_version_parse parse_major parse_dot parse_minor scan_component c_isdigit
two_oh-parsed = refl

deb_version_parse_sound_example : IsText two_oh (record { major = 2; minor = 0 })
deb_version_parse_sound_example = deb_version_parse_sound two_oh (omega arith) two_oh-parsed

deb_version_parse_complete_example :
    deb_version_parse two_oh ≡ parsed (record { major = 2; minor = 0 })
deb_version_parse_complete_example =
    deb_version_parse_complete two_oh (record { major = 2; minor = 0 })
      (deb_version_parse_sound two_oh (omega arith) two_oh-parsed)

abbrev too_many : CString
too_many = b'2' ∷ b'1' ∷ b'4' ∷ b'7' ∷ b'4' ∷ b'8' ∷ b'3' ∷ b'6' ∷ b'4' ∷ b'8' ∷ []

too_many-value : int_max < value 0 too_many
unfolding value
too_many-value = omega arith

deb_version_parse_too_big_example : deb_version_parse (too_many ++ b'.' ∷ []) ≡ failed major_too_big
deb_version_parse_too_big_example =
    deb_version_parse_too_big too_many (b'.' ∷ []) (omega arith) (unfold c_isdigit in refl)
      too_many-value

-- " 1:2-3-4 "
last_hyphen-IsWritten : IsWritten (b'1' ∷ []) (codes "2-3") (codes "4")
last_hyphen-IsWritten = record {
  digits = (omega arith, tt);
  fits = unfold value in omega arith;
  version = (refl, (refl, (refl, tt)));
  revision = (refl, tt);
  last_hyphen = refl;
  first_colon = tt;
  not_empty = λ e. ground (arith, e);
}

parseversion-written_example :
    parseversion dpkg_version_blank (codes " 1:2-3-4 ")
    ≡ (record { epoch = 1; version = some (codes "2-3"); revision = some (codes "4") }, none)
unfolding value
parseversion-written_example =
    parseversion-written dpkg_version_blank (b' ' ∷ []) (b'1' ∷ []) (codes "2-3") (codes "4")
      (b' ' ∷ []) (refl, tt) last_hyphen-IsWritten (refl, tt) refl

str_escape_fmt-Escaped_example :
    (out : CString) × (str_escape_fmt (codes "50%") 5 ≡ some out) × Escaped 5 (codes "50%") out
str_escape_fmt-Escaped_example = str_escape_fmt-Escaped (codes "50%") 5 (omega arith)

stars-meta : Every is_meta (b'*' ∷ b'*' ∷ [])
unfolding c_isalnum c_isdigit c_isalpha
stars-meta = (refl, (refl, tt))

str_quote_meta_overflow_example :
    (str_quote_meta (b'*' ∷ b'*' ∷ [])).allocated
    < length (str_quote_meta (b'*' ∷ b'*' ∷ [])).text + 1
str_quote_meta_overflow_example = str_quote_meta_overflow (b'*' ∷ b'*' ∷ []) stars-meta

-- A matcher for patterns with no wildcard.
abbrev same : CString → CString → Bool
same [] [] = true
same [] (x ∷ s) = false
same (c ∷ p) [] = false
same (c ∷ p) (x ∷ s) = c == x && same p s

abbrev doc : FilterNode
doc = record { pattern = codes "/doc/*"; include = true }

filter_should_skip-filter_add_example :
    filter_should_skip same
      (filter_add (codes "/a") false (doc ∷ []))
      (record { name = codes "./a"; type = b'0' })
    ≡ (if same (codes "/a") (codes "/a")
        then not false
        else filter_should_skip same (doc ∷ []) (record { name = codes "./a"; type = b'0' }))
filter_should_skip-filter_add_example =
    filter_should_skip-filter_add same (doc ∷ []) (codes "/a") false
      (record { name = codes "./a"; type = b'0' }) refl

abbrev mode_digits : CString
mode_digits = b'7' ∷ b'5' ∷ b'5' ∷ []

mode-small : octal_value 0 mode_digits < 2 ^ 64
unfolding octal_value
mode-small = omega arith

tar_atol8-octal_example :
    tar_atol8 ((b' ' ∷ []) ++ (mode_digits ++ (0 ∷ [])))
    ≡ tar_ret_errno no_error (octal_value 0 mode_digits)
tar_atol8-octal_example =
    tar_atol8-octal (b' ' ∷ []) mode_digits (0 ∷ []) (omega arith) (omega arith) (λ e. cc)
      (refl, tt) mode-small

-- A header with one byte in its name field.
abbrev header_with : ℕ → TarHeader
header_with c = record {
  name = c ∷ [];
  mode = [];
  uid = [];
  gid = [];
  size = [];
  mtime = [];
  checksum = b'4' ∷ b'0' ∷ b'1' ∷ [];
  linkflag = 0;
  linkname = [];
  magic = [];
  user = [];
  group = [];
  devmajor = [];
  devminor = [];
  prefix = [];
  padding = [];
}

header-good : check_checksum (header_with 1) ≡ good
unfolding check_checksum tar_atol8 tar_header_checksum sum_bytes octal_field skip_spaces octal_loop
    check_fillers
header-good = refl

check_checksum_finds_change_example : check_checksum (header_with 2) ≡ mismatch
check_checksum_finds_change_example =
    check_checksum_finds_change (header_with 1) (header_with 2) header-good refl
      (before [] 1 2 [] refl refl refl (λ e. omega (arith, e)))

abbrev long_path : CString
long_path = codes "./foo/..///./bar///../././../..///end//."

path_canonicalize-pathname_of_example :
    path_canonicalize (b'/' ∷ long_path) ≡ pathname_of (directory_of long_path)
path_canonicalize-pathname_of_example = path_canonicalize-pathname_of long_path

path_canonicalize_end : path_canonicalize (b'/' ∷ long_path) ≡ codes "/end"
unfolding path_canonicalize strvec_split strvec_join canonicalize_part canonicalize_loop str_eq
path_canonicalize_end = refl

strvec_join-strvec_split_example : strvec_join (strvec_split long_path b'/' false) b'/' ≡ long_path
strvec_join-strvec_split_example = strvec_join-strvec_split long_path b'/'
