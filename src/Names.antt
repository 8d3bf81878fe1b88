-- ===== src/Names.antt =====
-- The checks of names: lib/dpkg/parsehelp.c (packages), lib/dpkg/arch.c (architectures) and
-- lib/dpkg/trigname.c (triggers).
pub mod Valid
use dpkg.Base.{
  CString, in_set, codes, ℕ, ◌+◌, ◌-◌, Bool, not, ◌&&◌, ◌||◌, [], ◌∷◌, Option, none, some, ltb, leb,
  ◌==◌, if◌then◌else◌,
}
use dpkg.CType.{c_isalnum}

-- The error strings; `none` is the null pointer, a valid name.
pub data NameProblem : Type 0 where
  empty_name bad_start : NameProblem
  bad_character : ℕ → NameProblem

-- The loop over a name: the character at which it breaks, or `none` at the NUL.
unfoldable pub first_bad : (ℕ → Bool) → CString → Option ℕ
first_bad allowed [] = none
first_bad allowed (c ∷ s) = if allowed c then first_bad allowed s else some c

-- The tests behind the loop.
unfoldable pub problem_at : Option ℕ → Option NameProblem
problem_at none = none
problem_at (some c) = some (bad_character c)

abbrev pub also_allowed : CString
also_allowed = codes "-+._"

unfoldable pub pkg_char : ℕ → Bool
pkg_char c = c_isalnum c || in_set c also_allowed

unfoldable pub pkg_name_is_invalid : CString → Option NameProblem
pkg_name_is_invalid [] = some empty_name
pkg_name_is_invalid (c ∷ s) =
    if not (c_isalnum c) then some bad_start else problem_at (first_bad pkg_char (c ∷ s))

unfoldable pub arch_char : ℕ → Bool
arch_char c = c_isalnum c || c == b'-'

-- The loop starts at the second character.
unfoldable pub dpkg_arch_name_is_invalid : CString → Option NameProblem
dpkg_arch_name_is_invalid [] = some empty_name
dpkg_arch_name_is_invalid (c ∷ s) =
    if not (c_isalnum c) then some bad_start else problem_at (first_bad arch_char s)

-- `c` is a signed `char`: a byte from 128 is negative, and so at most `' '`.
unfoldable pub trig_char : ℕ → Bool
trig_char c = ltb c 128 && not (leb c b' ' || leb 127 c)

unfoldable pub trig_name_is_invalid : CString → Option NameProblem
trig_name_is_invalid [] = some empty_name
trig_name_is_invalid (c ∷ s) = problem_at (first_bad trig_char (c ∷ s))
