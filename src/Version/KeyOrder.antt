-- ===== src/Version/KeyOrder.antt =====
-- The order on the sequences of version parts, for lib/dpkg/version.c.
use Prim.Native.Nat.{compare, Ordering}
use dpkg.Base.{
  CString, ℕ, ◌+◌, ◌-◌, ◌*◌, ◌≡◌, refl, sym, ◌≢◌, inl, inr, false, List, [], ◌∷◌, ◌++◌, Option,
  none, some, arith, Bool-cases,
}
use dpkg.Base.Int.{ℤ, pos}
use dpkg.CType.{c_isdigit}
use dpkg.Version.Key.{key, cmp_ℤ, sign, and_then, cmp_key, cmp_part}
use dpkg.Version.Weights.{cmp_ℤ-refl}
use dpkg.Version.{order}

abbrev pub flip : Ordering → Ordering
flip Ordering.lt = Ordering.gt
flip Ordering.eq = Ordering.eq
flip Ordering.gt = Ordering.lt

-- The order of the first and the last of three, from the orders of neighbours; nothing is said
-- where the neighbours' orders point opposite ways.
abbrev pub Composes : Ordering → Ordering → Ordering → Type 0
Composes Ordering.eq q r = r ≡ q
Composes Ordering.lt Ordering.gt r = Unit
Composes Ordering.lt _ r = r ≡ Ordering.lt
Composes Ordering.gt Ordering.lt r = Unit
Composes Ordering.gt _ r = r ≡ Ordering.gt

pub flip-and_then : (p q : Ordering) → flip (and_then p q) ≡ and_then (flip p) (flip q)
flip-and_then Ordering.lt q = refl
flip-and_then Ordering.eq q = refl
flip-and_then Ordering.gt q = refl

pub cmp_ℤ-flip : (a b : ℤ) → cmp_ℤ b a ≡ flip (cmp_ℤ a b)
cmp_ℤ-flip a b = ground arith

pub compare-flip : (a b : ℕ) → compare b a ≡ flip (compare a b)
compare-flip a b = ground arith

pub cmp_ℤ-Composes : (a b c : ℤ) → Composes (cmp_ℤ a b) (cmp_ℤ b c) (cmp_ℤ a c)
cmp_ℤ-Composes a b c = ground arith

pub compare-Composes : (a b c : ℕ) → Composes (compare a b) (compare b c) (compare a c)
compare-Composes a b c = ground arith

pub and_then-Composes :
    (p q r p' q' r' : Ordering)
    → Composes p q r
    → Composes p' q' r'
    → Composes (and_then p p') (and_then q q') (and_then r r')
and_then-Composes Ordering.lt Ordering.lt r p' q' r' h k = ground arith
and_then-Composes Ordering.lt Ordering.eq r p' q' r' h k = ground arith
and_then-Composes Ordering.lt Ordering.gt r p' q' r' h k = tt
and_then-Composes Ordering.eq q r p' q' r' h k = ground arith
and_then-Composes Ordering.gt Ordering.lt r p' q' r' h k = tt
and_then-Composes Ordering.gt Ordering.eq r p' q' r' h k = ground arith
and_then-Composes Ordering.gt Ordering.gt r p' q' r' h k = ground arith

pub cmp_key_refl : (a : List ℤ) → cmp_key a a ≡ Ordering.eq
unfolding cmp_key
cmp_key_refl [] = refl
cmp_key_refl (x ∷ xs) = rw (cmp_ℤ-refl) (cmp_key_refl xs)

pub cmp_key-flip : (a b : List ℤ) → cmp_key b a ≡ flip (cmp_key a b)
unfolding cmp_key
cmp_key-flip [] [] = refl
cmp_key-flip [] (y ∷ ys) = rw (cmp_ℤ-flip (pos 0) y, cmp_key-flip [] ys) (sym (flip-and_then _ _))
cmp_key-flip (x ∷ xs) [] = rw (cmp_ℤ-flip x (pos 0), cmp_key-flip xs []) (sym (flip-and_then _ _))
cmp_key-flip (x ∷ xs) (y ∷ ys) = rw (cmp_ℤ-flip x y, cmp_key-flip xs ys) (sym (flip-and_then _ _))

compose_heads :
    (x y z : ℤ) (xs ys zs : List ℤ)
    → Composes (cmp_key xs ys) (cmp_key ys zs) (cmp_key xs zs)
    → Composes
        (and_then (cmp_ℤ x y) (cmp_key xs ys))
        (and_then (cmp_ℤ y z) (cmp_key ys zs))
        (and_then (cmp_ℤ x z) (cmp_key xs zs))
compose_heads x y z xs ys zs h =
    and_then-Composes (cmp_ℤ x y) (cmp_ℤ y z) (cmp_ℤ x z) (cmp_key xs ys) (cmp_key ys zs)
      (cmp_key xs zs) (cmp_ℤ-Composes x y z) h

pub cmp_key-Composes : (a b c : List ℤ) → Composes (cmp_key a b) (cmp_key b c) (cmp_key a c)
unfolding cmp_key
cmp_key-Composes [] [] [] = refl
cmp_key-Composes [] [] (z ∷ zs) =
    compose_heads (pos 0) (pos 0) z [] [] zs (cmp_key-Composes [] [] zs)
cmp_key-Composes [] (y ∷ ys) [] =
    compose_heads (pos 0) y (pos 0) [] ys [] (cmp_key-Composes [] ys [])
cmp_key-Composes [] (y ∷ ys) (z ∷ zs) =
    compose_heads (pos 0) y z [] ys zs (cmp_key-Composes [] ys zs)
cmp_key-Composes (x ∷ xs) [] [] =
    compose_heads x (pos 0) (pos 0) xs [] [] (cmp_key-Composes xs [] [])
cmp_key-Composes (x ∷ xs) [] (z ∷ zs) =
    compose_heads x (pos 0) z xs [] zs (cmp_key-Composes xs [] zs)
cmp_key-Composes (x ∷ xs) (y ∷ ys) [] =
    compose_heads x y (pos 0) xs ys [] (cmp_key-Composes xs ys [])
cmp_key-Composes (x ∷ xs) (y ∷ ys) (z ∷ zs) =
    compose_heads x y z xs ys zs (cmp_key-Composes xs ys zs)

and_then-ne-eq : (p q : Ordering) → p ≢ Ordering.eq → and_then p q ≡ p
and_then-ne-eq Ordering.lt q n = refl
and_then-ne-eq Ordering.eq q n = absurd (n refl)
and_then-ne-eq Ordering.gt q n = refl

-- A part that goes on with another character is ordered by that character's weight.
key-suffix :
    (m : Option ℕ) (p : CString) (c : ℕ) (t : CString)
    → c_isdigit c ≡ false
    → sign (order c) ≢ Ordering.eq
    → cmp_key (key m (p ++ c ∷ t)) (key m p) ≡ sign (order c)
unfolding key cmp_key
key-suffix none [] c t d n = rw d (and_then-ne-eq _ _ n)
key-suffix (some k) [] c t d n = rw d (rw cmp_ℤ-refl (and_then-ne-eq _ _ n))
key-suffix none (x ∷ p) c t d n = elim (Bool-cases (c_isdigit x)) [
  | inl h ↦ rw h (key-suffix (some (x - b'0')) p c t d n)
  | inr h ↦ rw (h, cmp_ℤ-refl) (key-suffix none p c t d n)
]
key-suffix (some k) (x ∷ p) c t d n = elim (Bool-cases (c_isdigit x)) [
  | inl h ↦ rw h (key-suffix (some (10 * k + (x - b'0'))) p c t d n)
  | inr h ↦ rw (h, cmp_ℤ-refl (pos k), cmp_ℤ-refl (order x)) (key-suffix none p c t d n)
]

pub cmp_part-suffix :
    (p : CString) (c : ℕ) (t : CString)
    → c_isdigit c ≡ false
    → sign (order c) ≢ Ordering.eq
    → cmp_part (p ++ c ∷ t) p ≡ sign (order c)
unfolding cmp_part
cmp_part-suffix = key-suffix none

pub cmp_part-flip : (a b : CString) → cmp_part b a ≡ flip (cmp_part a b)
unfolding cmp_part
cmp_part-flip a b = cmp_key-flip (key none a) (key none b)

pub cmp_part-Composes : (a b c : CString) → Composes (cmp_part a b) (cmp_part b c) (cmp_part a c)
unfolding cmp_part
cmp_part-Composes a b c = cmp_key-Composes (key none a) (key none b) (key none c)
