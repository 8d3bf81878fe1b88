-- ===== src/Varbuf/Suffix.antt =====
-- lib/dpkg/varbuf.c: `varbuf_has_suffix` against the texts of the buffers.
use mathlib.Core.List.{append-nil}
use dpkg.Base.{
  All, Bool, Bool-cases, [], ap, arith, drop, false, if◌then◌else◌, inl, inr, length, length-append,
  ltb, none, not, refl, some, str_eq, str_eq-eq, str_eq_refl, suc, sym, take, true, zero, ℕ, ◌&&◌,
  ◌++◌, ◌-◌, ◌==◌, ◌↔◌, ◌∙◌, ◌∷◌, ◌≡◌, ◌≤◌, ◌⊎◌,
}
use dpkg.Varbuf.{Bytes, Varbuf, old_bytes, string_at, varbuf_has_suffix}
use dpkg.Varbuf.Room.{Holds}

-- A text without a NUL.
abbrev pub IsPlain : Bytes → Type 0
IsPlain s = All (λ (c : ℕ). (c == 0) ≡ false) s

string_at-append : (s rest : Bytes) → IsPlain s → string_at (s ++ 0 ∷ rest) ≡ s
unfolding string_at
string_at-append [] rest h = refl
string_at-append (c ∷ s) rest h = rw (h.0, string_at-append s rest h.1) refl

pub drop-append : (k : ℕ) (s rest : Bytes) → k ≤ length s → drop k (s ++ rest) ≡ drop k s ++ rest
drop-append zero s rest h = refl
drop-append (suc k) [] rest h = absurd (omega arith)
drop-append (suc k) (c ∷ s) rest h = drop-append k s rest (omega arith)

drop-IsPlain : (k : ℕ) (s : Bytes) → IsPlain s → IsPlain (drop k s)
drop-IsPlain zero s h = h
drop-IsPlain (suc k) [] h = tt
drop-IsPlain (suc k) (c ∷ s) h = drop-IsPlain k s h.1

pub take-drop : (k : ℕ) (s : Bytes) → s ≡ take k s ++ drop k s
take-drop zero s = refl
take-drop (suc k) [] = refl
take-drop (suc k) (c ∷ s) = ap (◌∷◌ c) (take-drop k s)

pub drop_front : (s t : Bytes) → drop (length s) (s ++ t) ≡ t
drop_front [] t = refl
drop_front (c ∷ s) t = drop_front s t

pub length-nil : (s : Bytes) → length s ≡ 0 → s ≡ []
length-nil [] e = refl
length-nil (c ∷ s) e = absurd (omega arith)

-- The bytes of a buffer that holds some text.
pub bytes_are :
    (v : Varbuf) (s : Bytes)
    → Holds v s
    → (s ≡ []) ⊎ ((rest : Bytes) × (old_bytes v.buf ≡ s ++ 0 ∷ rest))
bytes_are v s h = by_case h.backed
  where
    by_case :
        ((v.buf ≡ none) × (s ≡ []) × (v.size ≡ 0))
          ⊎ ((rest : Bytes) × (v.buf ≡ some (s ++ 0 ∷ rest)) × (v.size ≡ length (s ++ 0 ∷ rest)))
        → (s ≡ []) ⊎ ((rest : Bytes) × (old_bytes v.buf ≡ s ++ 0 ∷ rest))
    by_case (inl (e, f, z)) = inl f
    by_case (inr (rest, e, z)) = inr (rest, ap old_bytes e)

-- Whether a text ends in another, by their lengths.
abbrev ends_in : Bytes → Bytes → Bool
ends_in s p = not (ltb (length s) (length p)) && str_eq (drop (length s - length p) s) p

ends_in-append : (s p : Bytes) → ends_in s p ≡ true → (before : Bytes) × (s ≡ before ++ p)
ends_in-append s p h =
    let same : str_eq (drop (length s - length p) s) p ≡ true = ground arith in
    (
      take (length s - length p) s,
      take-drop (length s - length p) s
          ∙ ap (λ t. take (length s - length p) s ++ t)
              (str_eq-eq (drop (length s - length p) s) p same),
    )

append-ends_in : (before p : Bytes) → ends_in (before ++ p) p ≡ true
append-ends_in before p =
    let long : ltb (length (before ++ p)) (length p) ≡ false =
      ground (arith, length-append before p) in
    let cut : length (before ++ p) - length p ≡ length before =
      omega (arith, length-append before p) in
    rw (long, cut, drop_front before p) (str_eq_refl p)

-- The tests of `varbuf_has_suffix`, on the bytes of both buffers.
abbrev suffix_test : Bytes → Bytes → Bytes → Bytes → Bool
suffix_test s p mem mem' =
    if ltb (length s) (length p)
    then false
    else if length p == 0
    then true
    else if length s == 0
    then false
    else str_eq (string_at (drop (length s - length p) mem)) (string_at mem')

suffix_test_empty :
    (s p mem mem' : Bytes)
    → ltb (length s) (length p) ≡ false
    → (length p == 0) ≡ true
    → suffix_test s p mem mem' ≡ ends_in s p
suffix_test_empty s p mem mem' e f =
    let nil : p ≡ [] = length-nil p (ground arith) in
    let left : suffix_test s p mem mem' ≡ true = rw (e, f) refl in
    let right : ends_in s p ≡ true =
      ap (ends_in s) nil ∙ ap (λ t. ends_in t []) (sym (append-nil s)) ∙ append-ends_in s [] in
    left ∙ sym right

suffix_test_full :
    (s p rest rest' : Bytes)
    → IsPlain s
    → IsPlain p
    → ltb (length s) (length p) ≡ false
    → (length p == 0) ≡ false
    → suffix_test s p (s ++ 0 ∷ rest) (p ++ 0 ∷ rest') ≡ ends_in s p
suffix_test_full s p rest rest' a b e f =
    let some_left : (length s == 0) ≡ false = ground arith in
    let behind = drop-append (length s - length p) s (0 ∷ rest) (omega arith) in
    rw
      (
        e,
        f,
        some_left,
        behind,
        string_at-append (drop (length s - length p) s) rest
            (drop-IsPlain (length s - length p) s a),
        string_at-append p rest' b,
      )
      refl

varbuf_has_suffix-ends_in :
    (v w : Varbuf) (s p : Bytes)
    → Holds v s
    → Holds w p
    → IsPlain s
    → IsPlain p
    → varbuf_has_suffix v w ≡ ends_in s p
unfolding varbuf_has_suffix
varbuf_has_suffix-ends_in v w s p h k a b =
    rw (h.count, k.count)
      (by_length (Bool-cases (ltb (length s) (length p))) (Bool-cases (length p == 0)))
  where
    full :
        (s ≡ []) ⊎ ((rest : Bytes) × (old_bytes v.buf ≡ s ++ 0 ∷ rest))
        → (p ≡ []) ⊎ ((rest : Bytes) × (old_bytes w.buf ≡ p ++ 0 ∷ rest))
        → ltb (length s) (length p) ≡ false
        → (length p == 0) ≡ false
        → suffix_test s p (old_bytes v.buf) (old_bytes w.buf) ≡ ends_in s p
    full x (inl z) e f = let none_left : length p ≡ 0 = ap length z in absurd (ground arith)
    full (inl z) (inr y) e f = let none_left : length s ≡ 0 = ap length z in absurd (ground arith)
    full (inr (rest, m)) (inr (rest', m')) e f =
        ap (suffix_test s p (old_bytes v.buf)) m'
        ∙ ap (λ t. suffix_test s p t (p ++ 0 ∷ rest')) m
        ∙ suffix_test_full s p rest rest' a b e f

    by_length :
        (ltb (length s) (length p) ≡ true) ⊎ (ltb (length s) (length p) ≡ false)
        → ((length p == 0) ≡ true) ⊎ ((length p == 0) ≡ false)
        → suffix_test s p (old_bytes v.buf) (old_bytes w.buf) ≡ ends_in s p
    by_length (inl e) f = rw e refl
    by_length (inr e) (inl f) = suffix_test_empty s p (old_bytes v.buf) (old_bytes w.buf) e f
    by_length (inr e) (inr f) = full (bytes_are v s h) (bytes_are w p k) e f

-- For two buffers that hold texts without NULs, varbuf_has_suffix holds exactly if the first text
-- is something followed by the second.
pub varbuf_has_suffix_iff :
    (v w : Varbuf) (s p : Bytes)
    → Holds v s
    → Holds w p
    → IsPlain s
    → IsPlain p
    → (varbuf_has_suffix v w ≡ true) ↔ ((before : Bytes) × (s ≡ before ++ p))
varbuf_has_suffix_iff v w s p h k a b =
    let same = varbuf_has_suffix-ends_in v w s p h k a b in
    (
      λ e. ends_in-append s p (sym same ∙ e),
      λ x. same ∙ ap (λ t. ends_in t p) x.1 ∙ append-ends_in x.0 p,
    )
