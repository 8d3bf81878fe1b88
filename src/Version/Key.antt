-- ===== src/Version/Key.antt =====
-- What the comparison of lib/dpkg/version.c means: a version part stands for a sequence of
-- integers, and two parts compare as their sequences, the shorter one continued by zeros.
use Prim.Native.Nat.{compare, Ordering}
use dpkg.Base.{CString, ℕ, ◌+◌, ◌-◌, ◌*◌, List, [], ◌∷◌, Option, none, some, if◌then◌else◌}
use dpkg.Base.Int.{ℤ, pos, pos_part, neg_part}
use dpkg.CType.{c_isdigit}
use dpkg.Version.{order}

-- The sequence of a part, read from a state: `none` outside a number, `some n` inside a number
-- whose digits so far have the value `n`. A run of other characters gives their weights, and the
-- end of a run before a number a zero; a number gives its value.
unfoldable pub key : Option ℕ → CString → List ℤ
key none [] = []
key none (c ∷ s) = if c_isdigit c then pos 0 ∷ key (some (c - b'0')) s else order c ∷ key none s
key (some n) [] = pos n ∷ []
key (some n) (c ∷ s) =
    if c_isdigit c then key (some (10 * n + (c - b'0'))) s else pos n ∷ order c ∷ key none s

abbrev pub cmp_ℤ : ℤ → ℤ → Ordering
cmp_ℤ a b = compare (pos_part a + neg_part b) (pos_part b + neg_part a)

-- The sign of a C result: negative, zero or positive.
abbrev pub sign : ℤ → Ordering
sign a = cmp_ℤ a (pos 0)

-- The first difference decides.
abbrev pub and_then : Ordering → Ordering → Ordering
and_then Ordering.lt o = Ordering.lt
and_then Ordering.eq o = o
and_then Ordering.gt o = Ordering.gt

-- Lexicographic order, with zeros behind the end of a sequence.
unfoldable pub cmp_key : List ℤ → List ℤ → Ordering
cmp_key [] [] = Ordering.eq
cmp_key [] (y ∷ ys) = and_then (cmp_ℤ (pos 0) y) (cmp_key [] ys)
cmp_key (x ∷ xs) [] = and_then (cmp_ℤ x (pos 0)) (cmp_key xs [])
cmp_key (x ∷ xs) (y ∷ ys) = and_then (cmp_ℤ x y) (cmp_key xs ys)

-- The order of two parts.
unfoldable pub cmp_part : CString → CString → Ordering
unfolding key cmp_key
cmp_part a b = cmp_key (key none a) (key none b)
