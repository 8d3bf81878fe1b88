-- ===== src/Version/Refine.antt =====
-- lib/dpkg/version.c: the whole of `verrevcmp` against the sequences of its parts.
use Prim.Native.Nat.{Ordering}
use dpkg.Base.{
  CString, IsCString, peek, ℕ, zero, suc, ◌+◌, ◌-◌, ◌*◌, ◌≤◌, ◌<◌, ◌≡◌, refl, sym, ◌∙◌, ◌≢◌, ◌⊎◌,
  inl, inr, true, false, not, ◌||◌, [], ◌∷◌, Option, none, some, arith, ◌==◌, ==_iff, Bool-cases,
  length,
}
use mathlib.Core.Path.{subst}
use dpkg.Base.Int.{ℤ, pos}
use dpkg.CType.{c_isdigit}
use dpkg.Version.Key.{key, sign, cmp_key, cmp_part}
use dpkg.Version.Digits.{cmp_numbers, digit_value, NumbersEnd, key-le, scan_digits-NumbersEnd}
use dpkg.Version.Text.{TextEnds, scan_nondigits-TextEnds, at_nondigit-cons}
use dpkg.Version.{
  at_nondigit, Scan, differ, rests, overrun, scan_nondigits, skip_zeros, scan_digits, scan_numbers,
  loop_next, verrevcmp_loop, verrevcmp, or_empty,
}

key-skip_zeros : (s : CString) → key (some 0) (skip_zeros s) ≡ key (some 0) s
unfolding skip_zeros key c_isdigit
key-skip_zeros [] = refl
key-skip_zeros (c ∷ s) = elim (Bool-cases (c == b'0')) [
  | inl h ↦ let e = (==_iff c b'0').0 h in rw (h, e) (key-skip_zeros s)
  | inr h ↦ rw h
]

skip_zeros-IsCString : (s : CString) → IsCString s → IsCString (skip_zeros s)
unfolding skip_zeros
skip_zeros-IsCString [] h = h
skip_zeros-IsCString (c ∷ s) h = ground (arith, skip_zeros-IsCString s h.1)

length-skip_zeros : (s : CString) → length (skip_zeros s) ≤ length s
unfolding skip_zeros
length-skip_zeros [] = omega arith
length-skip_zeros (c ∷ s) = ground (arith, length-skip_zeros s)

not_zero : (c : ℕ) → (c == b'0') ≡ false → c ≢ b'0'
not_zero c h = ground arith

-- A number that is left starts with a digit other than zero.
skip_zeros-Ahead :
    (s : CString)
    → IsCString s
    → c_isdigit (peek (skip_zeros s)) ≡ true
    → 0 < peek (skip_zeros s) - b'0'
unfolding skip_zeros
skip_zeros-Ahead [] p h = unfold c_isdigit in cc
skip_zeros-Ahead (c ∷ s) p h = elim (Bool-cases (c == b'0')) [
  | inl z ↦ rw z (skip_zeros-Ahead s p.1 (rw z at h))
  | inr z ↦ rw z (omega (arith, digit_value c p.0.1 (rw z at h), not_zero c z))
]

-- At a digit the zeros are skipped or the loop over digits makes a round.
skip_zeros-cases :
    (c : ℕ) (s : CString) → (length (skip_zeros (c ∷ s)) ≤ length s) ⊎ (skip_zeros (c ∷ s) ≡ c ∷ s)
unfolding skip_zeros
skip_zeros-cases c s = elim (Bool-cases (c == b'0')) [
  | inl h ↦ inl (rw h (length-skip_zeros s))
  | inr h ↦ inr (rw h)
]

-- Where a number may start, the sequences are those of two numbers.
start_number :
    (c : ℕ) (s : CString)
    → at_nondigit (c ∷ s) ≡ false
    → IsCString (c ∷ s)
    → (c_isdigit c ≡ true) × (key none (c ∷ s) ≡ pos 0 ∷ key (some 0) (c ∷ s))
unfolding key
start_number c s h p =
    let d : c_isdigit c ≡ true = ground (arith, at_nondigit-cons c s p.0.0) in
    let e : 10 * 0 + (c - b'0') ≡ c - b'0' = omega arith in (d, rw (d, e))

cmp_part-numbers :
    (a b : CString)
    → at_nondigit a ≡ false
    → at_nondigit b ≡ false
    → IsCString a
    → IsCString b
    → cmp_part a b ≡ cmp_numbers 0 a 0 b
unfolding cmp_part
cmp_part-numbers [] [] d e p q = unfold key cmp_key in refl
cmp_part-numbers [] (y ∷ b) d e p q =
    let (v, r, f, l) = key-le 0 (y ∷ b) in
    rw ((start_number y b e q).1, f) (unfold key cmp_key in refl)
cmp_part-numbers (x ∷ a) [] d e p q =
    let (v, r, f, l) = key-le 0 (x ∷ a) in
    rw ((start_number x a d p).1, f) (unfold key cmp_key in refl)
cmp_part-numbers (x ∷ a) (y ∷ b) d e p q =
    rw ((start_number x a d p).1, (start_number y b e q).1) (unfold cmp_key in refl)

-- The whole round from two pointers that each stand at a digit or at the end.
abbrev RoundEnds : CString → CString → Scan → Type 0
RoundEnds a b (differ r) = sign r ≡ cmp_part a b
RoundEnds a b (rests a' b') =
    (cmp_part a' b' ≡ cmp_part a b)
    × (IsCString a' × IsCString b')
    × (length a' + length b' ≤ length a + length b)
    × (0 < length a + length b → length a' + length b' < length a + length b)
RoundEnds a b overrun = ⊥

-- A pointer at a digit moves: its zeros are skipped, or it is still at a digit.
moves :
    (c : ℕ) (s : CString)
    → c_isdigit c ≡ true
    → (length (skip_zeros (c ∷ s)) < length (c ∷ s))
      ⊎ (c_isdigit (peek (skip_zeros (c ∷ s))) ≡ true)
moves c s d = elim (skip_zeros-cases c s) [ inl h ↦ inl (omega arith) | inr h ↦ inr (rw h d) ]

shorter_round :
    (a b : CString) (n : ℕ)
    → at_nondigit a ≡ false
    → at_nondigit b ≡ false
    → IsCString a
    → IsCString b
    → n ≤ length (skip_zeros a) + length (skip_zeros b)
    → ((c_isdigit (peek (skip_zeros a)) || c_isdigit (peek (skip_zeros b))) ≡ true
        → n < length (skip_zeros a) + length (skip_zeros b))
    → 0 < length a + length b
    → n < length a + length b
shorter_round [] [] n d e p q l f h = absurd (omega arith)
shorter_round (x ∷ a) b n d e p q l f h = elim (moves x a (start_number x a d p).0) [
  | inl k ↦ omega (arith, length-skip_zeros b)
  | inr k ↦ omega (arith, f (rw k refl), length-skip_zeros (x ∷ a), length-skip_zeros b)
]
shorter_round [] (y ∷ b) n d e p q l f h = elim (moves y b (start_number y b e q).0) [
  | inl k ↦ omega (arith, length-skip_zeros [])
  | inr k ↦ omega (arith, f (ground (arith, k)), length-skip_zeros [], length-skip_zeros (y ∷ b))
]

scan_numbers-RoundEnds :
    (a b : CString)
    → at_nondigit a ≡ false
    → at_nondigit b ≡ false
    → IsCString a
    → IsCString b
    → RoundEnds a b (scan_numbers (rests a b))
unfolding scan_numbers
scan_numbers-RoundEnds a b d e p q = ends (scan_digits (pos 0) (skip_zeros a) (skip_zeros b)) (
    scan_digits-NumbersEnd (pos 0) 0 0 (skip_zeros a) (skip_zeros b) refl
      (λ h. omega (arith, skip_zeros-Ahead a p h)) (λ h. omega (arith, skip_zeros-Ahead b q h))
      (skip_zeros-IsCString a p) (skip_zeros-IsCString b q))
  where
    same : cmp_numbers 0 (skip_zeros a) 0 (skip_zeros b) ≡ cmp_part a b
    same = rw (key-skip_zeros a, key-skip_zeros b) (sym (cmp_part-numbers a b d e p q))

    ends :
        (r : Scan)
        → NumbersEnd (cmp_numbers 0 (skip_zeros a) 0 (skip_zeros b)) (skip_zeros a) (skip_zeros b) r
        → RoundEnds a b r
    ends (differ r) h = h ∙ same
    ends (rests a' b') h = (
      h.0 ∙ same,
      h.1,
      omega (arith, length-skip_zeros a, length-skip_zeros b),
      shorter_round a b _ d e p q h.2 h.3,
    )
    ends overrun h = h

-- The body of the outer loop.
round-RoundEnds :
    (a b : CString) → IsCString a → IsCString b → RoundEnds a b (scan_numbers (scan_nondigits a b))
unfolding scan_numbers
round-RoundEnds a b p q = from (scan_nondigits a b) (scan_nondigits-TextEnds a b p q)
  where
    wider :
        (a' b' : CString) (r : Scan)
        → cmp_part a' b' ≡ cmp_part a b
        → ((length a' + length b' < length a + length b) ⊎ ((a' ≡ a) × (b' ≡ b)))
        → RoundEnds a' b' r
        → RoundEnds a b r
    wider a' b' (differ r) e l h = h ∙ e
    wider a' b' (rests s t) e (inl l) h = (h.0 ∙ e, h.1, omega arith, λ n. omega arith)
    wider a' b' (rests s t) e (inr (f, g)) h = (h.0 ∙ e, h.1, rw (← f, ← g) h.2, rw (← f, ← g) h.3)
    wider a' b' overrun e l h = h

    from : (r : Scan) → TextEnds a b r → RoundEnds a b (scan_numbers r)
    from (differ r) h = h
    from (rests a' b') h =
        wider a' b' _ h.0 h.3 (scan_numbers-RoundEnds a' b' h.1.0 h.1.1 h.2.0 h.2.1)
    from overrun h = h

-- The result of a comparison, by its sign; `none` is excluded.
abbrev pub Decides : Ordering → Option ℤ → Type 0
Decides o none = ⊥
Decides o (some r) = sign r ≡ o

nonempty :
    (a b : CString)
    → IsCString a
    → IsCString b
    → 0 < length a + length b
    → (not (peek a == 0) || not (peek b == 0)) ≡ true
nonempty [] [] p q h = absurd (omega arith)
nonempty (x ∷ a) b p q h = ground arith
nonempty [] (y ∷ b) p q h = ground arith

loop_next-Decides :
    (a b : CString) (fuel : ℕ)
    → ((a' b' : CString)
        → IsCString a'
        → IsCString b'
        → length a' + length b' < fuel
        → Decides (cmp_part a' b') (verrevcmp_loop fuel a' b'))
    → 0 < length a + length b
    → length a + length b < suc fuel
    → (r : Scan) → RoundEnds a b r
    → Decides (cmp_part a b) (loop_next (verrevcmp_loop fuel) r)
unfolding loop_next
loop_next-Decides a b fuel ih n l (differ r) h = h
loop_next-Decides a b fuel ih n l (rests a' b') h =
    subst (λ o. Decides o (verrevcmp_loop fuel a' b')) h.0
      (ih a' b' h.1.0 h.1.1 (omega (arith, h.3 n)))
loop_next-Decides a b fuel ih n l overrun h = h

verrevcmp_loop-Decides :
    (fuel : ℕ) (a b : CString)
    → IsCString a
    → IsCString b
    → length a + length b < fuel
    → Decides (cmp_part a b) (verrevcmp_loop fuel a b)
unfolding verrevcmp_loop
verrevcmp_loop-Decides zero a b p q l = absurd (omega arith)
verrevcmp_loop-Decides (suc fuel) [] [] p q l = unfold cmp_part in refl
verrevcmp_loop-Decides (suc fuel) (x ∷ a) b p q l = rw (nonempty (x ∷ a) b p q (omega arith)) (
    loop_next-Decides (x ∷ a) b fuel (verrevcmp_loop-Decides fuel) (omega arith) l _
      (round-RoundEnds (x ∷ a) b p q))
verrevcmp_loop-Decides (suc fuel) [] (y ∷ b) p q l = rw (nonempty [] (y ∷ b) p q (omega arith)) (
    loop_next-Decides [] (y ∷ b) fuel (verrevcmp_loop-Decides fuel) (omega arith) l _
      (round-RoundEnds [] (y ∷ b) p q))

-- verrevcmp, on byte strings or null pointers, always returns, within its fuel and without a step
-- past a NUL, and the sign of its result is the order of the sequences of integers that the two
-- parts stand for.
pub verrevcmp-Decides :
    (a b : Option CString)
    → IsCString (or_empty a)
    → IsCString (or_empty b)
    → Decides (cmp_part (or_empty a) (or_empty b)) (verrevcmp a b)
unfolding verrevcmp
verrevcmp-Decides a b p q = verrevcmp_loop-Decides _ (or_empty a) (or_empty b) p q (omega arith)
