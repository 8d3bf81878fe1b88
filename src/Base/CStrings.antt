-- ===== src/Base/CStrings.antt =====
-- C strings: the bytes of a string, each from 1 to 255. The terminating NUL is the end of the list.
use Prim.Native.Char.{code}
use Prim.Native.Nat.{ℕ, ◌<◌, compare, Ordering}
use Prim.Native.String.{String}
use mathlib.Core.Bool.{Bool, true, false, ◌&&◌, ◌||◌}
use mathlib.Core.List.{List, [], ◌∷◌}
use mathlib.Core.Logic.{◌↔◌, ◌≢◌}
use mathlib.Core.Path.{◌≡◌, refl}
use native.Mathlib.Omega.{arith}
use dpkg.Base.Lists.{All}
use dpkg.Base.Tests.{◌==◌}

abbrev pub CString : Type 0
CString = List ℕ

abbrev pub IsCString : CString → Type 0
IsCString = All (λ c. (0 < c) × (c < 256))

-- `*p`, with the NUL at the end.
abbrev pub peek : CString → ℕ
peek [] = 0
peek (c ∷ s) = c

-- `strchr(set, c) != NULL` for a character that is not NUL.
abbrev pub in_set : ℕ → CString → Bool
in_set c [] = false
in_set c (x ∷ s) = c == x || in_set c s

-- The code points of a literal: its bytes, as every literal here is ASCII.
abbrev pub codes : String → CString
codes String.[] = []
codes (String.◌∷◌ c s) = code c ∷ codes s

-- `strcmp(a, b) == 0`
unfoldable pub str_eq : CString → CString → Bool
str_eq [] [] = true
str_eq (x ∷ a) (y ∷ b) = x == y && str_eq a b
str_eq _ _ = false

-- `strcmp`, by its sign.
unfoldable pub strcmp : CString → CString → Ordering
strcmp [] [] = Ordering.eq
strcmp [] (y ∷ b) = Ordering.lt
strcmp (x ∷ a) [] = Ordering.gt
strcmp (x ∷ a) (y ∷ b) = elim (compare x y) [ Ordering.eq ↦ strcmp a b | o ↦ o ]

pub str_eq-eq : (a b : CString) → str_eq a b ≡ true → a ≡ b
unfolding str_eq
str_eq-eq [] [] h = refl
str_eq-eq [] (y ∷ b) h = cc
str_eq-eq (x ∷ a) [] h = cc
str_eq-eq (x ∷ a) (y ∷ b) h = ground (arith, str_eq-eq a b)

pub str_eq_refl : (a : CString) → str_eq a a ≡ true
unfolding str_eq
str_eq_refl [] = refl
str_eq_refl (x ∷ a) = ground (arith, str_eq_refl a)

pub str_eq_iff : (a b : CString) → (str_eq a b ≡ true) ↔ (a ≡ b)
str_eq_iff a b = (str_eq-eq a b, λ e. rw e (str_eq_refl b))

pub str_eq_comm : (a b : CString) → str_eq a b ≡ str_eq b a
unfolding str_eq
str_eq_comm [] [] = refl
str_eq_comm [] (y ∷ b) = refl
str_eq_comm (x ∷ a) [] = refl
str_eq_comm (x ∷ a) (y ∷ b) = ground (arith, str_eq_comm a b)

pub str_eq-false : (a b : CString) → a ≢ b → str_eq a b ≡ false
str_eq-false a b n = ground (arith, str_eq-eq a b)

pub str_eq-ne : (a b : CString) → str_eq a b ≡ false → a ≢ b
str_eq-ne a b h e = ground (arith, str_eq_iff a b)

-- No two items have one key.
abbrev pub Distinct {ℓ} : {A : Type ℓ} → (A → CString) → List A → Type 0
Distinct key [] = Unit
Distinct key (x ∷ xs) = All (λ y. str_eq (key x) (key y) ≡ false) xs × Distinct key xs
