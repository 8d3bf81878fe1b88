-- ===== src/Version.antt =====
-- lib/dpkg/version.c and lib/dpkg/version.h: Debian versions and their comparison.
pub mod Key
pub mod Weights
mod Text
mod Digits
pub mod Refine
pub mod KeyOrder
pub mod Order
pub mod Relate
use dpkg.Base.{
  CString, peek, ℕ, zero, suc, ◌+◌, Bool, true, false, not, ◌&&◌, ◌||◌, [], ◌∷◌, Option, none, some,
  length, ltb, ◌==◌, if◌then◌else◌,
}
use dpkg.Base.Int.{ℤ, pos, negsuc, sub_ℕ, ◌-ℤ◌}
use dpkg.CType.{c_isdigit, c_isalpha}

-- A byte as `char`, which is signed on the common platforms, promoted to `int`.
abbrev pub char_int : ℕ → ℤ
char_int c = if ltb c 128 then pos c else sub_ℕ c 256

pub record DpkgVersion : Type 0 where
  pub epoch : ℕ
  -- `none` is a null pointer.
  pub version : Option CString
  pub revision : Option CString

unfoldable pub dpkg_version_blank : DpkgVersion
dpkg_version_blank = record { epoch = 0; version = none; revision = none }

-- `str_is_set` of string.h: neither a null pointer nor empty.
unfoldable pub str_is_set : Option CString → Bool
str_is_set none = false
str_is_set (some []) = false
str_is_set (some (_ ∷ _)) = true

unfoldable pub dpkg_version_is_informative : DpkgVersion → Bool
unfolding str_is_set
dpkg_version_is_informative v = not (v.epoch == 0) || str_is_set v.version || str_is_set v.revision

-- The argument is a byte of the string; `c + 256` adds to its signed value.
unfoldable pub order : ℕ → ℤ
order c =
    if c_isdigit c
    then pos 0
    else if c_isalpha c
    then char_int c
    else if c == b'~'
    then negsuc 0
    else if not (c == 0)
    then (if ltb c 128 then pos (c + 256) else pos c)
    else pos 0

-- `*p && !c_isdigit(*p)`
unfoldable pub at_nondigit : CString → Bool
at_nondigit s = not (peek s == 0) && not (c_isdigit (peek s))

-- How an inner loop ends: with a result to return, with the two pointers where the next loop
-- starts, or by a step past a terminating NUL.
pub data Scan : Type 0 where
  differ : ℤ → Scan
  rests : CString → CString → Scan
  overrun : Scan

-- The comparison of `ac` and `bc`, which is by value.
unfoldable pub int_eq : ℤ → ℤ → Bool
int_eq (pos a) (pos b) = a == b
int_eq (negsuc a) (negsuc b) = a == b
int_eq (pos _) (negsuc _) = false
int_eq (negsuc _) (pos _) = false

-- The first inner loop: `a++` and `b++` are steps to the tails, and there is none at a NUL.
unfoldable pub scan_nondigits : CString → CString → Scan
unfolding at_nondigit order int_eq
scan_nondigits [] b =
    if at_nondigit b
    then (if int_eq (order 0) (order (peek b)) then overrun else differ (order 0 -ℤ order (peek b)))
    else rests [] b
scan_nondigits (x ∷ a) [] =
    if at_nondigit (x ∷ a)
    then (if int_eq (order x) (order 0) then overrun else differ (order x -ℤ order 0))
    else rests (x ∷ a) []
scan_nondigits (x ∷ a) (y ∷ b) =
    if at_nondigit (x ∷ a) || at_nondigit (y ∷ b)
    then (if int_eq (order x) (order y) then scan_nondigits a b else differ (order x -ℤ order y))
    else rests (x ∷ a) (y ∷ b)

-- `while (*p == '0') p++;`
unfoldable pub skip_zeros : CString → CString
skip_zeros [] = []
skip_zeros (c ∷ s) = if c == b'0' then skip_zeros s else c ∷ s

-- The loop over common digits, and the three tests behind it; the first argument is `first_diff`.
unfoldable pub scan_digits : ℤ → CString → CString → Scan
unfolding int_eq
scan_digits diff (x ∷ a) (y ∷ b) =
    if c_isdigit x && c_isdigit y
    then scan_digits (if int_eq diff (pos 0) then char_int x -ℤ char_int y else diff) a b
    else if c_isdigit x
    then differ (pos 1)
    else if c_isdigit y
    then differ (negsuc 0)
    else if not (int_eq diff (pos 0))
    then differ diff
    else rests (x ∷ a) (y ∷ b)
scan_digits diff (x ∷ a) [] =
    if c_isdigit x
    then differ (pos 1)
    else if not (int_eq diff (pos 0))
    then differ diff
    else rests (x ∷ a) []
scan_digits diff [] b =
    if c_isdigit (peek b)
    then differ (negsuc 0)
    else if not (int_eq diff (pos 0))
    then differ diff
    else rests [] b

-- The rest of the body of the outer loop, once the first inner loop is through.
unfoldable pub scan_numbers : Scan → Scan
unfolding scan_digits skip_zeros
scan_numbers (differ r) = differ r
scan_numbers overrun = overrun
scan_numbers (rests a b) = scan_digits (pos 0) (skip_zeros a) (skip_zeros b)

-- The end of a round: a return, or the next round.
unfoldable pub loop_next : (CString → CString → Option ℤ) → Scan → Option ℤ
loop_next again (differ r) = some r
loop_next again (rests a b) = again a b
loop_next again overrun = none

-- The outer loop; `none` is a step past a NUL, or the end of the fuel.
unfoldable pub verrevcmp_loop : ℕ → CString → CString → Option ℤ
verrevcmp_loop zero a b = none
verrevcmp_loop (suc fuel) a b =
    if not (peek a == 0) || not (peek b == 0)
    then loop_next (verrevcmp_loop fuel) (scan_numbers (scan_nondigits a b))
    else some (pos 0)

-- `if (a == NULL) a = "";`
abbrev pub or_empty : Option CString → CString
or_empty none = []
or_empty (some s) = s

unfoldable pub verrevcmp : Option CString → Option CString → Option ℤ
unfolding verrevcmp_loop loop_next scan_numbers scan_nondigits
verrevcmp a b =
    verrevcmp_loop (length (or_empty a) + length (or_empty b) + 1) (or_empty a) (or_empty b)

-- `if (rc) return rc;` before the second comparison.
unfoldable pub compare_parts : Option ℤ → Option ℤ → Option ℤ
unfolding int_eq
compare_parts none next = none
compare_parts (some rc) next = if int_eq rc (pos 0) then next else some rc

unfoldable pub dpkg_version_compare : DpkgVersion → DpkgVersion → Option ℤ
dpkg_version_compare a b =
    if ltb b.epoch a.epoch
    then some (pos 1)
    else if ltb a.epoch b.epoch
    then some (negsuc 0)
    else compare_parts (verrevcmp a.version b.version) (verrevcmp a.revision b.revision)

-- The constructors of `enum dpkg_relation`.
pub data DpkgRelation : Type 0 where
  relation_none relation_eq relation_lt relation_le relation_gt relation_ge : DpkgRelation

-- The switch on the relation, at the result of the comparison.
unfoldable pub relation_holds : DpkgRelation → ℤ → Bool
relation_holds relation_none rc = true
relation_holds relation_eq (pos n) = n == 0
relation_holds relation_eq (negsuc n) = false
relation_holds relation_lt (pos n) = false
relation_holds relation_lt (negsuc n) = true
relation_holds relation_le (pos n) = n == 0
relation_holds relation_le (negsuc n) = true
relation_holds relation_gt (pos n) = not (n == 0)
relation_holds relation_gt (negsuc n) = false
relation_holds relation_ge (pos n) = true
relation_holds relation_ge (negsuc n) = false

unfoldable pub relation_result : DpkgRelation → Option ℤ → Option Bool
relation_result rel none = none
relation_result rel (some rc) = some (relation_holds rel rc)

unfoldable pub dpkg_version_relate : DpkgVersion → DpkgRelation → DpkgVersion → Option Bool
unfolding relation_result
dpkg_version_relate a relation_none b = some true
dpkg_version_relate a rel b = relation_result rel (dpkg_version_compare a b)
