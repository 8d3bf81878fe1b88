-- ===== src/Arch/Find.antt =====
-- lib/dpkg/arch.c: what `dpkg_arch_find` gives.
use dpkg.Base.{
  Bool-cases, CString, List, Option, [], ap, arith, false, inl, inr, length, none, refl, some,
  str_eq, str_eq-eq, str_eq_refl, suc, zero, ℕ, ◌++◌, ◌+◌, ◌<◌, ◌∙◌, ◌∷◌, ◌≡◌, ◌≢◌,
}
use dpkg.Arch.{
  ArchList, ArchRef, ArchType, DpkgArch, deref, dpkg_arch_find, find_added, find_result, item_added,
  item_all, item_any, item_native, nth_added,
}

abbrev pub item : CString → ArchType → DpkgArch
item name type = record { name = name; type = type }

-- The place found is counted from `i`, and holds the name.
find_added-some :
    (name : CString) (i : ℕ) (xs : List DpkgArch) {j : ℕ}
    → find_added name i xs ≡ some j
    → (k : ℕ) × (j ≡ i + k) × ((nth_added xs k).name ≡ name) × (k < length xs)
unfolding find_added nth_added
find_added-some name i [] {j} h = cc
find_added-some name i (a ∷ xs) {j} h = elim (Bool-cases (str_eq a.name name)) [
  | inl e ↦
      let same : ◌≡◌ {A = Option ℕ} (some i) (some j) = rw e at h in
      let is_j : i ≡ j = cc in (0, omega arith, str_eq-eq _ _ e, omega arith)
  | inr e ↦
      let (k, p, q, l) = find_added-some name (suc i) xs {j = j} (rw e at h) in
      (suc k, omega arith, q, omega arith)
]

find_added-append :
    (name : CString) (i : ℕ) (xs : List DpkgArch) (t : ArchType)
    → find_added name i xs ≡ none
    → find_added name i (xs ++ item name t ∷ []) ≡ some (i + length xs)
unfolding find_added
find_added-append name i [] t h = rw (str_eq_refl name) (ap some (omega arith))
find_added-append name i (a ∷ xs) t h = elim (Bool-cases (str_eq a.name name)) [
  | inl e ↦ let bad : ◌≡◌ {A = Option ℕ} (some i) none = rw e at h in cc
  | inr e ↦ rw e (find_added-append name (suc i) xs t (rw e at h) ∙ ap some (omega arith))
]

pub nth_added-append :
    (xs bs : List DpkgArch) (i : ℕ) → i < length xs → nth_added (xs ++ bs) i ≡ nth_added xs i
unfolding nth_added
nth_added-append [] bs i h = absurd (omega arith)
nth_added-append (a ∷ xs) bs zero h = refl
nth_added-append (a ∷ xs) bs (suc i) h = nth_added-append xs bs i (omega arith)

nth_added-last : (xs : List DpkgArch) (b : DpkgArch) → nth_added (xs ++ b ∷ []) (length xs) ≡ b
unfolding nth_added
nth_added-last [] b = refl
nth_added-last (a ∷ xs) b = nth_added-last xs b

-- What a lookup gives.
pub record Found (name : CString) (l : ArchList) (r : ArchRef) (l' : ArchList) : Type 0 where
  pub named : (deref l' r).name ≡ name
  pub builtin_kept : (l'.native ≡ l.native) × (l'.all ≡ l.all) × (l'.any ≡ l.any)
  pub dirty_kept : l'.dirty ≡ l.dirty
  pub added_kept : (i : ℕ) → i < length l.added → nth_added l'.added i ≡ nth_added l.added i
  pub again : dpkg_arch_find (some name) l' ≡ (r, l')

unchanged :
    (name : CString) (l : ArchList) (r : ArchRef)
    → (deref l r).name ≡ name
    → dpkg_arch_find (some name) l ≡ (r, l)
    → Found name l r l
unchanged name l r h e = record {
  named = h;
  builtin_kept = (refl, refl, refl);
  dirty_kept = refl;
  added_kept = λ i k. refl;
  again = e;
}

-- The lookup of a name that is not built in.
module _ (c : ℕ) (s : CString) (l : ArchList) (not_native : str_eq l.native.name (c ∷ s) ≡ false)
    (not_all : str_eq l.all.name (c ∷ s) ≡ false)
    (not_any : str_eq l.any.name (c ∷ s) ≡ false) where
  find_past :
      (xs : List DpkgArch)
      → dpkg_arch_find (some (c ∷ s)) (record l { added = xs })
        ≡ find_result (c ∷ s) (find_added (c ∷ s) 0 xs) (record l { added = xs })
  unfolding dpkg_arch_find
  find_past xs = rw (not_native, not_all, not_any)

  zero_left : 0 + length l.added ≡ length l.added
  zero_left = omega arith

  find_result-Found :
      (o : Option ℕ)
      → find_added (c ∷ s) 0 l.added ≡ o
      → Found (c ∷ s) l (find_result (c ∷ s) o l).0 (find_result (c ∷ s) o l).1
  unfolding find_result deref
  find_result-Found (some i) e =
      let (k, p, q, h) = find_added-some (c ∷ s) 0 l.added e in
      let is_k : i ≡ k = omega arith in
      unchanged (c ∷ s) l (item_added i) (rw is_k q) (find_past l.added ∙ rw (e, find_result) refl)
  find_result-Found none e = record {
    named = rw nth_added-last refl;
    builtin_kept = (refl, refl, refl);
    dirty_kept = refl;
    added_kept = λ i h. nth_added-append l.added _ i h;
    again = find_past _ ∙ rw (find_added-append (c ∷ s) 0 l.added _ e) (rw zero_left refl);
  }

-- A lookup of a name that is not empty refers to an item of that name, keeps the built-in items,
-- the dirty flag and every added item in its place, and finds the same item when it is repeated.
pub dpkg_arch_find-Found :
    (name : CString) (l : ArchList)
    → name ≢ []
    → Found name l (dpkg_arch_find (some name) l).0 (dpkg_arch_find (some name) l).1
dpkg_arch_find-Found [] l n = absurd (n refl)
dpkg_arch_find-Found (c ∷ s) l n = elim (Bool-cases (str_eq l.native.name (c ∷ s))) [
  | inl e ↦
      let f : dpkg_arch_find (some (c ∷ s)) l ≡ (item_native, l) = unfold dpkg_arch_find in rw e in
      rw f (unchanged (c ∷ s) l item_native (unfold deref in str_eq-eq _ _ e) f)
  | inr e ↦ elim (Bool-cases (str_eq l.all.name (c ∷ s))) [
    | inl d ↦
        let f : dpkg_arch_find (some (c ∷ s)) l ≡ (item_all, l) =
          unfold dpkg_arch_find in rw (e, d) in
        rw f (unchanged (c ∷ s) l item_all (unfold deref in str_eq-eq _ _ d) f)
    | inr d ↦ elim (Bool-cases (str_eq l.any.name (c ∷ s))) [
      | inl b ↦
          let f : dpkg_arch_find (some (c ∷ s)) l ≡ (item_any, l) =
            unfold dpkg_arch_find in rw (e, d, b) in
          rw f (unchanged (c ∷ s) l item_any (unfold deref in str_eq-eq _ _ b) f)
      | inr b ↦
          rw (find_past c s l e d b l.added)
            (find_result-Found c s l e d b (find_added (c ∷ s) 0 l.added) refl)
    ]
  ]
]
