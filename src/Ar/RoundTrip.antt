-- ===== src/Ar/RoundTrip.antt =====
-- lib/dpkg/ar.c: the size field of a header, written and read.
use dpkg.Base.{
  CString, ℕ, zero, suc, ◌+◌, ◌-◌, ◌*◌, ◌≡◌, refl, ap, ◌∙◌, false, ◌||◌, [], ◌∷◌, some, arith, ltb,
  ◌==◌,
}
use dpkg.DebVersion.Digits.{IsDigits, value}
use dpkg.VersionText.{decimal}
use dpkg.Ar.{drop_spaces, size_loop, dpkg_ar_member_parse_size, pad}
use dpkg.Ar.Number.{value-decimal, decimal-IsDigits}

drop_spaces-pad : (w : ℕ) → drop_spaces (pad w []) ≡ []
unfolding drop_spaces pad
drop_spaces-pad zero = refl
drop_spaces-pad (suc w) = drop_spaces-pad w

size_loop-pad :
    (w size : ℕ) (s : CString) → IsDigits s → size_loop size (pad w s) ≡ some (value size s)
unfolding size_loop pad value
size_loop-pad zero size [] d = refl
size_loop-pad zero size (c ∷ s) d =
    let a : (c == b' ') ≡ false = ground arith in
    let b : (ltb c b'0' || ltb b'9' c) ≡ false = ground arith in
    rw (a, b) (size_loop-pad zero (size * 10 + (c - b'0')) s d.1)
size_loop-pad (suc w) size [] d = refl
size_loop-pad (suc w) size (c ∷ s) d =
    let a : (c == b' ') ≡ false = ground arith in
    let b : (ltb c b'0' || ltb b'9' c) ≡ false = ground arith in
    rw (a, b) (size_loop-pad w (size * 10 + (c - b'0')) s d.1)

drop_spaces-digits :
    (w : ℕ) (c : ℕ) (s : CString) → IsDigits (c ∷ s) → drop_spaces (pad w (c ∷ s)) ≡ pad w (c ∷ s)
unfolding drop_spaces pad
drop_spaces-digits zero c s d = let a : (c == b' ') ≡ false = ground arith in rw a refl
drop_spaces-digits (suc w) c s d = let a : (c == b' ') ≡ false = ground arith in rw a refl

parse_size-pad :
    (w : ℕ) (s : CString) → IsDigits s → dpkg_ar_member_parse_size (pad w s) ≡ some (value 0 s)
unfolding dpkg_ar_member_parse_size
parse_size-pad w [] d = rw (drop_spaces-pad w) (unfold size_loop value in refl)
parse_size-pad w (c ∷ s) d = rw (drop_spaces-digits w c s d) (size_loop-pad w 0 (c ∷ s) d)

-- The size of an ar member, written in decimal into its ten-byte field, is read back.
pub dpkg_ar_member_parse_size-decimal :
    (n : ℕ) → dpkg_ar_member_parse_size (pad 10 (decimal n)) ≡ some n
dpkg_ar_member_parse_size-decimal n =
    parse_size-pad 10 (decimal n) (decimal-IsDigits n) ∙ ap some (value-decimal n)
