-- ===== src/Version/Text.antt =====
-- lib/dpkg/version.c: the first inner loop of `verrevcmp`, on other characters.
use dpkg.Base.{
  CString, IsCString, ℕ, ◌+◌, ◌-◌, ◌<◌, ◌≡◌, refl, sym, ap, ◌∙◌, ◌⊎◌, inl, inr, Bool, true, false,
  not, ◌||◌, List, [], ◌∷◌, none, some, arith, if◌then◌else◌, Bool-cases, length,
}
use dpkg.Base.Int.{ℤ, pos, ◌-ℤ◌}
use dpkg.CType.{c_isdigit}
use dpkg.Version.Key.{key, cmp_ℤ, sign, and_then, cmp_key, cmp_part}
use dpkg.Version.Weights.{sign-sub, int_eq-eq, cmp_ℤ-refl, order-digit, order-ne-zero}
use dpkg.Version.{order, at_nondigit, int_eq, Scan, differ, rests, overrun, scan_nondigits}

-- The loop decides the comparison, or leaves one that is equal, with both pointers at a digit or
-- at the end; it never steps past a NUL.
abbrev pub TextEnds : CString → CString → Scan → Type 0
TextEnds a b (differ r) = sign r ≡ cmp_part a b
TextEnds a b (rests a' b') =
    (cmp_part a' b' ≡ cmp_part a b)
    × ((at_nondigit a' ≡ false) × (at_nondigit b' ≡ false))
    × (IsCString a' × IsCString b')
    × ((length a' + length b' < length a + length b) ⊎ ((a' ≡ a) × (b' ≡ b)))
TextEnds a b overrun = ⊥

-- A difference of weights decides.
cmp-weights :
    (v w : ℤ) (ks ls : List ℤ)
    → int_eq v w ≡ false
    → and_then (cmp_ℤ v w) (cmp_key ks ls) ≡ cmp_ℤ v w
unfolding int_eq
cmp-weights v w ks ls h = ground arith

shorter :
    (x y : ℕ) (a b a' b' : CString)
    → ((length a' + length b' < length a + length b) ⊎ ((a' ≡ a) × (b' ≡ b)))
    → length a' + length b' < length (x ∷ a) + length (y ∷ b)
shorter x y a b a' b' (inl h) = omega arith
shorter x y a b a' b' (inr (e, f)) = rw (e, f) (omega arith)

TextEnds-cons :
    (x y : ℕ) (a b : CString) (r : Scan)
    → cmp_part (x ∷ a) (y ∷ b) ≡ cmp_part a b
    → TextEnds a b r
    → TextEnds (x ∷ a) (y ∷ b) r
TextEnds-cons x y a b (differ r) e h = h ∙ sym e
TextEnds-cons x y a b (rests a' b') e h = (h.0 ∙ sym e, h.1, h.2, inl (shorter x y a b a' b' h.3))
TextEnds-cons x y a b overrun e h = h

-- The weight of a run's next character, or zero at its end, begins the sequence.
pub key-text : (x : ℕ) (a : CString) → c_isdigit x ≡ false → key none (x ∷ a) ≡ order x ∷ key none a
unfolding key
key-text x a h = rw h

pub key-number :
    (x : ℕ) (a : CString) → c_isdigit x ≡ true → key none (x ∷ a) ≡ pos 0 ∷ key (some (x - b'0')) a
unfolding key
key-number x a h = rw h

module _ (x : ℕ) (a : CString) (y : ℕ) (b : CString) where
  cmp_part-differ :
      (v w : ℤ) (ks ls : List ℤ)
      → key none (x ∷ a) ≡ v ∷ ks
      → key none (y ∷ b) ≡ w ∷ ls
      → int_eq v w ≡ false
      → cmp_part (x ∷ a) (y ∷ b) ≡ cmp_ℤ v w
  unfolding cmp_part
  cmp_part-differ v w ks ls e f h = rw (e, f) (cmp-weights v w ks ls h)

  cmp_part-text :
      c_isdigit x ≡ false
      → c_isdigit y ≡ false
      → order x ≡ order y
      → cmp_part (x ∷ a) (y ∷ b) ≡ cmp_part a b
  unfolding cmp_part
  cmp_part-text d e h = rw (key-text x a d, key-text y b e, h, cmp_key) (rw cmp_ℤ-refl)

pub at_nondigit-cons : (x : ℕ) (a : CString) → 0 < x → at_nondigit (x ∷ a) ≡ not (c_isdigit x)
unfolding at_nondigit
at_nondigit-cons x a h = ground arith

-- One round on two characters, by their classes.
scan_both :
    (x : ℕ) (a : CString) (y : ℕ) (b : CString)
    → IsCString (x ∷ a)
    → IsCString (y ∷ b)
    → (d e : Bool) → c_isdigit x ≡ d
    → c_isdigit y ≡ e
    → TextEnds a b (scan_nondigits a b)
    → TextEnds (x ∷ a) (y ∷ b) (
        if not d || not e
        then (if int_eq (order x) (order y)
            then scan_nondigits a b
            else differ (order x -ℤ order y))
        else rests (x ∷ a) (y ∷ b))
scan_both x a y b p q true true d e ih = (
  refl,
  (at_nondigit-cons x a p.0.0 ∙ ap not d, at_nondigit-cons y b q.0.0 ∙ ap not e),
  (p, q),
  inr (refl, refl),
)
scan_both x a y b p q true false d e ih =
    let n : int_eq (pos 0) (order y) ≡ false =
      unfold int_eq in ground (arith, order-ne-zero y q.0.0 q.0.1 e) in
    rw (order-digit x d, n)
      (sign-sub (pos 0) (order y)
        ∙ sym (cmp_part-differ x a y b (pos 0) (order y) _ _ (key-number x a d) (key-text y b e) n))
scan_both x a y b p q false true d e ih =
    let n = order-ne-zero x p.0.0 p.0.1 d in
    rw (order-digit y e, n)
      (sign-sub (order x) (pos 0)
        ∙ sym (cmp_part-differ x a y b (order x) (pos 0) _ _ (key-text x a d) (key-number y b e) n))
scan_both x a y b p q false false d e ih = elim (Bool-cases (int_eq (order x) (order y))) [
  | inl h ↦ rw h (TextEnds-cons x y a b _ (cmp_part-text x a y b d e (int_eq-eq _ _ h)) ih)
  | inr h ↦ rw h (
      sign-sub (order x) (order y)
      ∙ sym (cmp_part-differ x a y b (order x) (order y) _ _ (key-text x a d) (key-text y b e) h))
]

pub scan_nondigits-TextEnds :
    (a b : CString) → IsCString a → IsCString b → TextEnds a b (scan_nondigits a b)
unfolding scan_nondigits cmp_part
scan_nondigits-TextEnds [] [] p q = ground arith
scan_nondigits-TextEnds [] (y ∷ b) p q = elim (Bool-cases (c_isdigit y)) [
  | inl e ↦ ground (arith)
  | inr e ↦
      ground (arith, key-text y b e, order-ne-zero y q.0.0 q.0.1 e, sign-sub (pos 0) (order y))
]
scan_nondigits-TextEnds (x ∷ a) [] p q = elim (Bool-cases (c_isdigit x)) [
  | inl e ↦ ground (arith)
  | inr e ↦
      ground (arith, key-text x a e, order-ne-zero x p.0.0 p.0.1 e, sign-sub (order x) (pos 0))
]
scan_nondigits-TextEnds (x ∷ a) (y ∷ b) p q =
    rw (at_nondigit-cons x a p.0.0, at_nondigit-cons y b q.0.0)
      (scan_both x a y b p q (c_isdigit x) (c_isdigit y) refl refl
        (scan_nondigits-TextEnds a b p.1 q.1))
