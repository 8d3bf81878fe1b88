-- ===== src/Version/Weights.antt =====
-- Facts about the weight that lib/dpkg/version.c gives to one character, and about signs.
use Prim.Native.Nat.{Ordering}
use dpkg.Base.{◌==◌, if◌then◌else◌, ℕ, ◌<◌, ◌≡◌, true, false, arith}
use dpkg.Base.Int.{ℤ, pos, ◌-ℤ◌}
use dpkg.CType.Classes.{c_isalpha_lem}
use dpkg.CType.{c_isdigit}
use dpkg.Version.Key.{cmp_ℤ, sign}
use dpkg.Version.{order, int_eq}

-- The sign of a difference is the order of its terms.
pub sign-sub : (a b : ℤ) → sign (a -ℤ b) ≡ cmp_ℤ a b
sign-sub a b = ground arith

pub int_eq-eq : (a b : ℤ) → int_eq a b ≡ true → a ≡ b
unfolding int_eq
int_eq-eq a b h = ground arith

pub int_eq_refl : (a : ℤ) → int_eq a a ≡ true
unfolding int_eq
int_eq_refl a = ground arith

pub cmp_ℤ-eq : (a b : ℤ) → cmp_ℤ a b ≡ Ordering.eq → a ≡ b
cmp_ℤ-eq a b h = ground arith

pub cmp_ℤ-refl : (a : ℤ) → cmp_ℤ a a ≡ Ordering.eq
cmp_ℤ-refl a = ground arith

pub order-digit : (c : ℕ) → c_isdigit c ≡ true → order c ≡ pos 0
unfolding order
order-digit c h = ground arith

-- Only the NUL and the digits have weight zero.
pub order-ne-zero :
    (c : ℕ) → 0 < c → c < 256 → c_isdigit c ≡ false → int_eq (order c) (pos 0) ≡ false
unfolding order int_eq
order-ne-zero c p q h = ground (arith, c_isalpha_lem c q)

-- The weight of a tilde is negative, and that of any other character is positive.
pub sign-order :
    (c : ℕ)
    → 0 < c
    → c < 256
    → c_isdigit c ≡ false
    → sign (order c) ≡ (if c == b'~' then Ordering.lt else Ordering.gt)
unfolding order
sign-order c p q h = ground (arith, c_isalpha_lem c q)
