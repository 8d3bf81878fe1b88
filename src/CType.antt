-- ===== src/CType.antt =====
-- lib/dpkg/c-ctype.c and lib/dpkg/c-ctype.h: the character classes of the C locale.
pub mod Classes
use Prim.Native.Nat.{bit_and, bit_or}
use dpkg.Base.{ℕ, ◌%◌, Bool, not, List, [], ◌∷◌, get_or, ◌==◌, if◌then◌else◌}

-- The bits of `enum c_ctype_bit`.
abbrev pub ctype_blank : ℕ
ctype_blank = 1

abbrev pub ctype_white : ℕ
ctype_white = 2

abbrev pub ctype_space : ℕ
ctype_space = 4

abbrev pub ctype_upper : ℕ
ctype_upper = 8

abbrev pub ctype_lower : ℕ
ctype_lower = 16

abbrev pub ctype_digit : ℕ
ctype_digit = 32

abbrev pub ctype_alpha : ℕ
ctype_alpha = 24

abbrev pub ctype_alnum : ℕ
ctype_alnum = 56

-- The initialised half of the table; C fills the other 128 entries with 0.
unfoldable pub c_ctype : List ℕ
c_ctype =
    0
    ∷ 0
    ∷ 0
    ∷ 0
    ∷ 0
    ∷ 0
    ∷ 0
    ∷ 0
    ∷ 0
    ∷ (bit_or (bit_or ctype_space ctype_white) ctype_blank)
    ∷ (bit_or ctype_space ctype_white)
    ∷ ctype_space
    ∷ ctype_space
    ∷ ctype_space
    ∷ 0
    ∷ 0
    ∷ 0
    ∷ 0
    ∷ 0
    ∷ 0
    ∷ 0
    ∷ 0
    ∷ 0
    ∷ 0
    ∷ 0
    ∷ 0
    ∷ 0
    ∷ 0
    ∷ 0
    ∷ 0
    ∷ 0
    ∷ 0
    ∷ (bit_or (bit_or ctype_space ctype_white) ctype_blank)
    ∷ 0
    ∷ 0
    ∷ 0
    ∷ 0
    ∷ 0
    ∷ 0
    ∷ 0
    ∷ 0
    ∷ 0
    ∷ 0
    ∷ 0
    ∷ 0
    ∷ 0
    ∷ 0
    ∷ 0
    ∷ ctype_digit
    ∷ ctype_digit
    ∷ ctype_digit
    ∷ ctype_digit
    ∷ ctype_digit
    ∷ ctype_digit
    ∷ ctype_digit
    ∷ ctype_digit
    ∷ ctype_digit
    ∷ ctype_digit
    ∷ 0
    ∷ 0
    ∷ 0
    ∷ 0
    ∷ 0
    ∷ 0
    ∷ 0
    ∷ ctype_upper
    ∷ ctype_upper
    ∷ ctype_upper
    ∷ ctype_upper
    ∷ ctype_upper
    ∷ ctype_upper
    ∷ ctype_upper
    ∷ ctype_upper
    ∷ ctype_upper
    ∷ ctype_upper
    ∷ ctype_upper
    ∷ ctype_upper
    ∷ ctype_upper
    ∷ ctype_upper
    ∷ ctype_upper
    ∷ ctype_upper
    ∷ ctype_upper
    ∷ ctype_upper
    ∷ ctype_upper
    ∷ ctype_upper
    ∷ ctype_upper
    ∷ ctype_upper
    ∷ ctype_upper
    ∷ ctype_upper
    ∷ ctype_upper
    ∷ ctype_upper
    ∷ 0
    ∷ 0
    ∷ 0
    ∷ 0
    ∷ 0
    ∷ 0
    ∷ ctype_lower
    ∷ ctype_lower
    ∷ ctype_lower
    ∷ ctype_lower
    ∷ ctype_lower
    ∷ ctype_lower
    ∷ ctype_lower
    ∷ ctype_lower
    ∷ ctype_lower
    ∷ ctype_lower
    ∷ ctype_lower
    ∷ ctype_lower
    ∷ ctype_lower
    ∷ ctype_lower
    ∷ ctype_lower
    ∷ ctype_lower
    ∷ ctype_lower
    ∷ ctype_lower
    ∷ ctype_lower
    ∷ ctype_lower
    ∷ ctype_lower
    ∷ ctype_lower
    ∷ ctype_lower
    ∷ ctype_lower
    ∷ ctype_lower
    ∷ ctype_lower
    ∷ 0
    ∷ 0
    ∷ 0
    ∷ 0
    ∷ 0
    ∷ []

-- The cast to `unsigned char` is the remainder by 256.
unfoldable pub c_isbits : ℕ → ℕ → Bool
unfolding c_ctype
c_isbits c bits = not (bit_and (get_or c_ctype (c % 256) 0) bits == 0)

unfoldable pub c_isblank : ℕ → Bool
unfolding c_isbits
c_isblank c = c_isbits c ctype_blank

unfoldable pub c_iswhite : ℕ → Bool
unfolding c_isbits
c_iswhite c = c_isbits c ctype_white

unfoldable pub c_isspace : ℕ → Bool
unfolding c_isbits
c_isspace c = c_isbits c ctype_space

unfoldable pub c_isdigit : ℕ → Bool
unfolding c_isbits
c_isdigit c = c_isbits c ctype_digit

unfoldable pub c_isupper : ℕ → Bool
unfolding c_isbits
c_isupper c = c_isbits c ctype_upper

unfoldable pub c_islower : ℕ → Bool
unfolding c_isbits
c_islower c = c_isbits c ctype_lower

unfoldable pub c_isalpha : ℕ → Bool
unfolding c_isbits
c_isalpha c = c_isbits c ctype_alpha

unfoldable pub c_isalnum : ℕ → Bool
unfolding c_isbits
c_isalnum c = c_isbits c ctype_alnum

-- `(c & ~0x20) | 0x20` on an upper-case letter.
unfoldable pub c_tolower : ℕ → ℕ
unfolding c_isupper
c_tolower c = if c_isupper c then bit_or (bit_and (c % 256) 0xdf) 0x20 else c
