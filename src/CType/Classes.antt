-- ===== src/CType/Classes.antt =====
-- lib/dpkg/c-ctype.c: what each character class holds, by evaluation of the table.
use dpkg.Base.{
  ℕ, ◌+◌, ◌<◌, ◌≡◌, refl, Bool, true, ◌&&◌, ◌||◌, leb, ◌==◌, ==_iff, iff, iff-eq, passes_below,
  passes_below_at, if◌then◌else◌,
}
use dpkg.CType.{
  c_isblank, c_iswhite, c_isspace, c_isdigit, c_isupper, c_islower, c_isalpha, c_isalnum, c_tolower,
}

-- Two tests that agree on every byte by evaluation are equal on each byte.
pub eq_of_table :
    (f g : ℕ → Bool)
    → passes_below (λ x. iff (f x) (g x)) 256 ≡ true
    → (c : ℕ) → c < 256
    → f c ≡ g c
eq_of_table f g t c h = iff-eq (f c) (g c) (passes_below_at (λ x. iff (f x) (g x)) 256 h t)

abbrev pub digit_range : ℕ → Bool
digit_range c = leb b'0' c && leb c b'9'

abbrev pub upper_range : ℕ → Bool
upper_range c = leb b'A' c && leb c b'Z'

abbrev pub lower_range : ℕ → Bool
lower_range c = leb b'a' c && leb c b'z'

pub c_isdigit_lem : (c : ℕ) → c < 256 → c_isdigit c ≡ digit_range c
c_isdigit_lem = eq_of_table c_isdigit digit_range (unfold passes_below c_isdigit in refl)

pub c_isupper_lem : (c : ℕ) → c < 256 → c_isupper c ≡ upper_range c
c_isupper_lem = eq_of_table c_isupper upper_range (unfold passes_below c_isupper in refl)

pub c_islower_lem : (c : ℕ) → c < 256 → c_islower c ≡ lower_range c
c_islower_lem = eq_of_table c_islower lower_range (unfold passes_below c_islower in refl)

pub c_isalpha_lem : (c : ℕ) → c < 256 → c_isalpha c ≡ (upper_range c || lower_range c)
c_isalpha_lem =
    eq_of_table c_isalpha (λ c. upper_range c || lower_range c)
      (unfold passes_below c_isalpha in refl)

-- On every byte, c_isalnum holds exactly for the ASCII letters and digits.
pub c_isalnum_lem :
    (c : ℕ) → c < 256 → c_isalnum c ≡ (upper_range c || lower_range c || digit_range c)
c_isalnum_lem =
    eq_of_table c_isalnum (λ c. upper_range c || lower_range c || digit_range c)
      (unfold passes_below c_isalnum in refl)

pub c_isblank_lem : (c : ℕ) → c < 256 → c_isblank c ≡ (c == b' ' || c == 9)
c_isblank_lem =
    eq_of_table c_isblank (λ c. c == b' ' || c == 9) (unfold passes_below c_isblank in refl)

pub c_iswhite_lem : (c : ℕ) → c < 256 → c_iswhite c ≡ (c == b' ' || c == 9 || c == 10)
c_iswhite_lem =
    eq_of_table c_iswhite (λ c. c == b' ' || c == 9 || c == 10)
      (unfold passes_below c_iswhite in refl)

pub c_isspace_lem : (c : ℕ) → c < 256 → c_isspace c ≡ (c == b' ' || leb 9 c && leb c 13)
c_isspace_lem =
    eq_of_table c_isspace (λ c. c == b' ' || leb 9 c && leb c 13)
      (unfold passes_below c_isspace in refl)

-- On every byte, c_tolower adds 32 to the ASCII upper-case letters and keeps every other byte.
pub c_tolower_lem : (c : ℕ) → c < 256 → c_tolower c ≡ (if upper_range c then c + 32 else c)
c_tolower_lem c h = (==_iff _ _).0 (
    passes_below_at (λ x. c_tolower x == (if upper_range x then x + 32 else x)) 256 h
      (unfold passes_below c_tolower in refl))
