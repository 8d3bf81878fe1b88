-- ===== src/Version/Digits.antt =====
-- lib/dpkg/version.c: the second half of a round of `verrevcmp`, on numbers.
use Prim.Native.Nat.{compare, Ordering}
use dpkg.Base.{
  CString, IsCString, peek, ℕ, ◌+◌, ◌-◌, ◌*◌, ◌≤◌, ◌<◌, ◌≡◌, refl, sym, ap, ◌∙◌, inl, inr, true,
  false, not, ◌||◌, List, [], ◌∷◌, none, some, arith, if◌then◌else◌, Bool-cases, length,
}
use mathlib.Core.Path.{subst}
use dpkg.Base.Int.{ℤ, pos, ◌-ℤ◌}
use dpkg.CType.Classes.{c_isdigit_lem}
use dpkg.CType.{c_isdigit}
use dpkg.Version.Key.{key, cmp_ℤ, sign, and_then, cmp_key, cmp_part}
use dpkg.Version.Weights.{int_eq-eq}
use dpkg.Version.{order, char_int, int_eq, Scan, differ, rests, overrun, scan_digits}

-- The order of the two numbers that are being read, and of what follows them.
abbrev pub cmp_numbers : ℕ → CString → ℕ → CString → Ordering
cmp_numbers m a n b = cmp_key (key (some m) a) (key (some n) b)

pub digit_value : (c : ℕ) → c < 256 → c_isdigit c ≡ true → (48 ≤ c) × (c ≤ 57)
digit_value c h d = ground (arith, c_isdigit_lem c h)

-- The loop decides the comparison, or leaves one that is equal, past the digits.
abbrev pub NumbersEnd : Ordering → CString → CString → Scan → Type 0
NumbersEnd o a b (differ r) = sign r ≡ o
NumbersEnd o a b (rests a' b') =
    (cmp_part a' b' ≡ o)
    × (IsCString a' × IsCString b')
    × (length a' + length b' ≤ length a + length b)
    × ((c_isdigit (peek a) || c_isdigit (peek b)) ≡ true
        → length a' + length b' < length a + length b)
NumbersEnd o a b overrun = ⊥

-- A number read up to a character that is no digit is finished.
pub key-finished :
    (n : ℕ) (s : CString) → c_isdigit (peek s) ≡ false → key (some n) s ≡ pos n ∷ key none s
unfolding key
key-finished n [] h = refl
key-finished n (c ∷ s) h = rw h

-- Further digits make a number no smaller.
pub key-le : (n : ℕ) (s : CString) → (v : ℕ) × (r : List ℤ) × (key (some n) s ≡ pos v ∷ r) × (n ≤ v)
unfolding key
key-le n [] = (n, [], refl, omega arith)
key-le n (c ∷ s) = elim (Bool-cases (c_isdigit c)) [
  | inl h ↦ let (v, r, e, l) = key-le (10 * n + (c - b'0')) s in (v, r, rw h e, omega arith)
  | inr h ↦ (n, order c ∷ key none s, rw h refl, omega arith)
]

-- The other number is still below this one when it gets another digit.
abbrev pub Ahead : ℕ → ℕ → CString → Type 0
Ahead n m a = c_isdigit (peek a) ≡ true → n < 10 * m + (peek a - b'0')

digit_zero : c_isdigit 0 ≡ false
unfolding c_isdigit
digit_zero = refl

-- One number ends and the other goes on.
cmp-longer :
    (m n x : ℕ) (a b : CString)
    → c_isdigit x ≡ true
    → n < 10 * m + (x - b'0')
    → c_isdigit (peek b) ≡ false
    → cmp_numbers m (x ∷ a) n b ≡ Ordering.gt
unfolding key cmp_key
cmp-longer m n x a b d l e =
    let (v, r, q, le) = key-le (10 * m + (x - b'0')) a in
    rw (d, q, key-finished n b e) (ground arith)

cmp-shorter :
    (m n y : ℕ) (a b : CString)
    → c_isdigit y ≡ true
    → m < 10 * n + (y - b'0')
    → c_isdigit (peek a) ≡ false
    → cmp_numbers m a n (y ∷ b) ≡ Ordering.lt
unfolding key cmp_key
cmp-shorter m n y a b d l e =
    let (v, r, q, le) = key-le (10 * n + (y - b'0')) b in
    rw (d, q, key-finished m a e) (ground arith)

-- Both numbers end.
finish : ℤ → CString → CString → Scan
finish diff a b = if not (int_eq diff (pos 0)) then differ diff else rests a b

equal-numbers :
    (m n : ℕ) (o : Ordering) → compare m n ≡ Ordering.eq → and_then (cmp_ℤ (pos m) (pos n)) o ≡ o
equal-numbers m n o h = ground arith

unequal-numbers :
    (m n : ℕ) (o : Ordering) (diff : ℤ)
    → sign diff ≡ compare m n
    → int_eq diff (pos 0) ≡ false
    → sign diff ≡ and_then (cmp_ℤ (pos m) (pos n)) o
unfolding int_eq
unequal-numbers m n o diff s h = ground arith

finish-NumbersEnd :
    (diff : ℤ) (m n : ℕ) (a b : CString)
    → sign diff ≡ compare m n
    → c_isdigit (peek a) ≡ false
    → c_isdigit (peek b) ≡ false
    → IsCString a
    → IsCString b
    → NumbersEnd (cmp_numbers m a n b) a b (finish diff a b)
unfolding finish cmp_part cmp_key
finish-NumbersEnd diff m n a b s d e p q =
    rw (key-finished m a d, key-finished n b e)
      (elim (Bool-cases (int_eq diff (pos 0))) [
        | inl z ↦
            let zero_diff = int_eq-eq diff (pos 0) z in
            rw z (
              sym (equal-numbers m n _ (sym s ∙ ap sign zero_diff)),
              (p, q),
              omega arith,
              rw (d, e) (λ h. cc),
            )
        | inr z ↦ rw z (unequal-numbers m n _ diff s z)
      ])

-- The next value of `first_diff` has the sign of the next two values.
next_diff : ℤ → ℕ → ℕ → ℤ
next_diff diff x y = if int_eq diff (pos 0) then char_int x -ℤ char_int y else diff

sign-next_diff :
    (diff : ℤ) (m n x y : ℕ)
    → sign diff ≡ compare m n
    → (48 ≤ x) × (x ≤ 57)
    → (48 ≤ y) × (y ≤ 57)
    → sign (next_diff diff x y) ≡ compare (10 * m + (x - b'0')) (10 * n + (y - b'0'))
unfolding next_diff int_eq
sign-next_diff diff m n x y s p q = ground arith

NumbersEnd-cons :
    (x y : ℕ) (a b : CString) (o : Ordering) (r : Scan)
    → NumbersEnd o a b r
    → NumbersEnd o (x ∷ a) (y ∷ b) r
NumbersEnd-cons x y a b o (differ r) h = h
NumbersEnd-cons x y a b o (rests a' b') h = (h.0, h.1, omega arith, λ _. omega arith)
NumbersEnd-cons x y a b o overrun h = h

cmp-digits :
    (m n x y : ℕ) (a b : CString)
    → c_isdigit x ≡ true
    → c_isdigit y ≡ true
    → cmp_numbers m (x ∷ a) n (y ∷ b) ≡ cmp_numbers (10 * m + (x - b'0')) a (10 * n + (y - b'0')) b
unfolding key
cmp-digits m n x y a b d e = rw (d, e)

pub scan_digits-NumbersEnd :
    (diff : ℤ) (m n : ℕ) (a b : CString)
    → sign diff ≡ compare m n
    → Ahead n m a
    → Ahead m n b
    → IsCString a
    → IsCString b
    → NumbersEnd (cmp_numbers m a n b) a b (scan_digits diff a b)
unfolding scan_digits finish next_diff
scan_digits-NumbersEnd diff m n [] [] s f g p q =
    rw digit_zero (finish-NumbersEnd diff m n [] [] s digit_zero digit_zero p q)
scan_digits-NumbersEnd diff m n [] (y ∷ b) s f g p q = elim (Bool-cases (c_isdigit y)) [
  | inl e ↦ rw e (sym (cmp-shorter m n y [] b e (g e) digit_zero))
  | inr e ↦ rw e (finish-NumbersEnd diff m n [] (y ∷ b) s digit_zero e p q)
]
scan_digits-NumbersEnd diff m n (x ∷ a) [] s f g p q = elim (Bool-cases (c_isdigit x)) [
  | inl d ↦ rw d (sym (cmp-longer m n x a [] d (f d) digit_zero))
  | inr d ↦ rw d (finish-NumbersEnd diff m n (x ∷ a) [] s d digit_zero p q)
]
scan_digits-NumbersEnd diff m n (x ∷ a) (y ∷ b) s f g p q = elim (Bool-cases (c_isdigit x)) [
  | inl d ↦ elim (Bool-cases (c_isdigit y)) [
    | inl e ↦
        let dx = digit_value x p.0.1 d in
        let dy = digit_value y q.0.1 e in
        let nx = f d in
        let ny = g e in
        rw (d, e)
          (NumbersEnd-cons x y a b _ _ (
            subst (λ o. NumbersEnd o a b (scan_digits (next_diff diff x y) a b))
              (sym (cmp-digits m n x y a b d e))
              (scan_digits-NumbersEnd (next_diff diff x y) (10 * m + (x - b'0'))
                (10 * n + (y - b'0')) a b (sign-next_diff diff m n x y s dx dy) (λ _. omega arith)
                (λ _. omega arith) p.1 q.1)))
    | inr e ↦ rw (d, e) (sym (cmp-longer m n x a (y ∷ b) d (f d) e))
  ]
  | inr d ↦ elim (Bool-cases (c_isdigit y)) [
    | inl e ↦ rw (d, e) (sym (cmp-shorter m n y (x ∷ a) b e (g e) d))
    | inr e ↦ rw (d, e) (finish-NumbersEnd diff m n (x ∷ a) (y ∷ b) s d e p q)
  ]
]
