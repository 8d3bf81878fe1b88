-- ===== src/Triggers/Lists.antt =====
-- lib/dpkg/triglib.c: lists of nodes without repetition.
use dpkg.Base.{
  Bool, Bool-cases, List, [], arith, false, inl, inr, length, refl, true, ℕ, ◌++◌, ◌<◌, ◌==◌, ◌||◌,
  ◌∙◌, ◌∷◌, ◌≡◌, ◌≤◌,
}
use dpkg.Triggers.{has, unlink}

abbrev pub NoDup : List ℕ → Type 0
NoDup [] = Unit
NoDup (x ∷ xs) = (has x xs ≡ false) × NoDup xs

pub has-unlink : (m n : ℕ) (xs : List ℕ) → (n == m) ≡ false → has m (unlink n xs) ≡ has m xs
has-unlink m n [] h = refl
has-unlink m n (x ∷ xs) h = elim (Bool-cases (n == x)) [
  | inl e ↦ let other : (m == x) ≡ false = ground arith in rw (e, other) refl
  | inr e ↦ rw (e, has-unlink m n xs h) refl
]

pub has-unlink-false : (m n : ℕ) (xs : List ℕ) → has m xs ≡ false → has m (unlink n xs) ≡ false
has-unlink-false m n [] h = refl
has-unlink-false m n (x ∷ xs) h = elim (Bool-cases (n == x)) [
  | inl e ↦ rw e (ground (arith, h))
  | inr e ↦
      let here : (m == x) ≡ false = ground (arith, h) in
      let later : has m xs ≡ false = ground (arith, h) in
      rw (e, here) (has-unlink-false m n xs later)
]

pub has-unlink_gone : (n : ℕ) (xs : List ℕ) → NoDup xs → has n (unlink n xs) ≡ false
has-unlink_gone n [] d = refl
has-unlink_gone n (x ∷ xs) d = elim (Bool-cases (n == x)) [
  | inl e ↦ let same : n ≡ x = ground arith in rw (e, same) (d.0)
  | inr e ↦ rw (e, has-unlink_gone n xs d.1, e) refl
]

pub NoDup-unlink : (n : ℕ) (xs : List ℕ) → NoDup xs → NoDup (unlink n xs)
NoDup-unlink n [] d = tt
NoDup-unlink n (x ∷ xs) d = elim (Bool-cases (n == x)) [
  | inl e ↦ rw e (d.1)
  | inr e ↦ rw e (has-unlink-false x n xs d.0, NoDup-unlink n xs d.1)
]

pub has-append : (m : ℕ) (xs ys : List ℕ) → has m (xs ++ ys) ≡ (has m xs || has m ys)
has-append m [] ys = refl
has-append m (x ∷ xs) ys = rw (has-append m xs ys) (assoc (m == x))
  where
    assoc : (b : Bool) → (b || (has m xs || has m ys)) ≡ ((b || has m xs) || has m ys)
    assoc true = refl
    assoc false = refl

pub NoDup-snoc : (xs : List ℕ) (n : ℕ) → NoDup xs → has n xs ≡ false → NoDup (xs ++ n ∷ [])
NoDup-snoc [] n d h = (refl, tt)
NoDup-snoc (x ∷ xs) n d h =
    let other : (x == n) ≡ false = ground (arith, h) in
    let later : has n xs ≡ false = ground (arith, h) in
    (rw (has-append x xs (n ∷ []), other, d.0) refl, NoDup-snoc xs n d.1 later)

pub length-unlink : (n : ℕ) (xs : List ℕ) → has n xs ≡ true → length (unlink n xs) < length xs
length-unlink n [] h = cc
length-unlink n (x ∷ xs) h = elim (Bool-cases (n == x)) [
  | inl e ↦ rw e (omega arith)
  | inr e ↦
      let later : has n xs ≡ true = ground (arith, h) in
      rw e (omega (arith, length-unlink n xs later))
]

pub length-unlink_le : (n : ℕ) (xs : List ℕ) → length (unlink n xs) ≤ length xs
length-unlink_le n [] = omega arith
length-unlink_le n (x ∷ xs) = elim (Bool-cases (n == x)) [
  | inl e ↦ rw e (omega arith)
  | inr e ↦ rw e (omega (arith, length-unlink_le n xs))
]

pub NoDup-append :
    (xs ys : List ℕ)
    → NoDup xs
    → NoDup ys
    → ((m : ℕ) → has m xs ≡ true → has m ys ≡ false)
    → NoDup (xs ++ ys)
NoDup-append [] ys d e h = e
NoDup-append (x ∷ xs) ys d e h =
    let first : has x (x ∷ xs) ≡ true = ground arith in
    (
      has-append x xs ys ∙ rw (d.0, h x first) refl,
      NoDup-append xs ys d.1 e (λ m k. h m (later m k)),
    )
  where
    later : (m : ℕ) → has m xs ≡ true → has m (x ∷ xs) ≡ true
    later m k = elim (Bool-cases (m == x)) [ inl q ↦ rw q refl | inr q ↦ rw q k ]
