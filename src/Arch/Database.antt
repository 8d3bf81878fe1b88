-- ===== src/Arch/Database.antt =====
-- lib/dpkg/arch.c: `dpkg_arch_save_list` and `dpkg_arch_load_list` together.
use dpkg.Arch.Lines.{IsLineName, load_lines-end, load_lines-line}
use dpkg.Arch.{
  ArchList, ArchType, DpkgArch, arch_all, arch_foreign, arch_list_init, arch_loaded, arch_native,
  arch_unknown, arch_wildcard, dpkg_arch_add, dpkg_arch_find, dpkg_arch_load_list,
  dpkg_arch_save_list, find_added, find_result, is_foreign, is_saved, item_added, load_lines,
  mark_foreign, nth_added, saved_text, set_type,
}
use dpkg.Base.{
  All, Bool, Bool-cases, CString, List, Option, [], ap, arith, codes, false, if◌then◌else◌, inl,
  inr, length, length-append, none, refl, some, str_eq, str_eq_refl, suc, sym, true, zero, ℕ, ◌++◌,
  ◌∙◌, ◌∷◌, ◌≡◌, ◌≢◌, ◌≤◌,
}
use mathlib.Core.List.{append-nil, append_assoc}
use dpkg.Arch.Find.{item}
use dpkg.Names.{dpkg_arch_name_is_invalid}

-- The name can be added: it is valid, and none of the built-in ones.
pub record IsAddable (native name : CString) : Type 0 where
  pub nonempty : name ≢ []
  pub valid : dpkg_arch_name_is_invalid name ≡ none
  pub not_native : str_eq native name ≡ false
  pub not_all : str_eq (codes "all") name ≡ false
  pub not_any : str_eq (codes "any") name ≡ false

-- An added item has one of the types that the operations give, and a foreign one a fit name.
abbrev pub IsEntry : CString → DpkgArch → Type 0
IsEntry native a =
    (is_saved a.type ≡ is_foreign a.type) × (is_foreign a.type ≡ true → IsAddable native a.name)

-- No two items have one name.
abbrev pub IsDistinct : List DpkgArch → Type 0
IsDistinct [] = Unit
IsDistinct (a ∷ rest) = All (λ (b : DpkgArch). str_eq a.name b.name ≡ false) rest × IsDistinct rest

pub record IsArchList (l : ArchList) : Type 0 where
  pub native_named : l.native.name ≢ []
  pub native_type : l.native.type ≡ arch_native
  pub all_type : l.all.type ≡ arch_all
  pub any_type : l.any.type ≡ arch_wildcard
  pub entries : All (IsEntry l.native.name) l.added
  pub distinct : IsDistinct l.added

abbrev pub foreign_only : List DpkgArch → List DpkgArch
foreign_only [] = []
foreign_only (a ∷ rest) = if is_foreign a.type then a ∷ foreign_only rest else foreign_only rest

-- The list with the built-in items and some added ones.
abbrev with_added : CString → List DpkgArch → Bool → ArchList
with_added native xs d = record (arch_list_init native) { added = xs; dirty = d }

-- The names saved, and the list after they are added.
abbrev pub saved_lines : List DpkgArch → List CString
saved_lines [] = []
saved_lines (a ∷ rest) = if is_saved a.type then a.name ∷ saved_lines rest else saved_lines rest

abbrev add_lines : List CString → ArchList → ArchList
add_lines [] l = l
add_lines (name ∷ lines) l = add_lines lines (dpkg_arch_add (some name) l).1

-- What is saved is read back line by line.
load_lines-saved :
    (xs : List DpkgArch) (fuel : ℕ) (l : ArchList)
    → All IsLineName (saved_lines xs)
    → length (saved_text xs) ≤ fuel
    → load_lines fuel (saved_text xs) l ≡ arch_loaded (add_lines (saved_lines xs) l)
unfolding saved_text
load_lines-saved [] fuel l h k = load_lines-end fuel l
load_lines-saved (a ∷ xs) fuel l h k = elim (Bool-cases (is_saved a.type)) [
  | inl e ↦ rw e (line fuel (rw e at h) (rw e at k) (λ f m j. load_lines-saved xs f m j))
  | inr e ↦ rw e (load_lines-saved xs fuel l (rw e at h) (rw e at k))
]
  where
    line :
        (fuel : ℕ)
        → All IsLineName (a.name ∷ saved_lines xs)
        → length (a.name ++ 10 ∷ saved_text xs) ≤ fuel
        → ((f : ℕ) (m : ArchList)
            → All IsLineName (saved_lines xs)
            → length (saved_text xs) ≤ f
            → load_lines f (saved_text xs) m ≡ arch_loaded (add_lines (saved_lines xs) m))
        → load_lines fuel (a.name ++ 10 ∷ saved_text xs) l
          ≡ arch_loaded (add_lines (saved_lines xs) (dpkg_arch_add (some a.name) l).1)
    line zero h k again = absurd (omega (arith, k, length-append a.name (10 ∷ saved_text xs)))
    line (suc fuel) h k again =
        load_lines-line fuel a.name (saved_text xs) l h.0
        ∙ again fuel (dpkg_arch_add (some a.name) l).1 h.1
            (omega (arith, k, length-append a.name (10 ∷ saved_text xs)))

set_type-last :
    (xs : List DpkgArch) (name : CString) (t u : ArchType)
    → set_type (xs ++ item name t ∷ []) (length xs) u ≡ xs ++ item name u ∷ []
unfolding set_type
set_type-last [] name t u = refl
set_type-last (a ∷ xs) name t u = ap (◌∷◌ a) (set_type-last xs name t u)

nth_added-last : (xs : List DpkgArch) (b : DpkgArch) → nth_added (xs ++ b ∷ []) (length xs) ≡ b
unfolding nth_added
nth_added-last [] b = refl
nth_added-last (a ∷ xs) b = nth_added-last xs b

find_fresh :
    (native name : CString) (xs : List DpkgArch) (d : Bool)
    → IsAddable native name
    → find_added name 0 xs ≡ none
    → dpkg_arch_find (some name) (with_added native xs d)
      ≡ (item_added (length xs), with_added native (xs ++ item name arch_unknown ∷ []) d)
unfolding dpkg_arch_find find_result
find_fresh native [] xs d a f = absurd (a.nonempty refl)
find_fresh native (c ∷ s) xs d a f = rw (a.not_native, a.not_all, a.not_any, f, a.valid) refl

-- Adding a name that is not there appends a foreign item.
add_fresh :
    (native name : CString) (xs : List DpkgArch) (d : Bool)
    → IsAddable native name
    → find_added name 0 xs ≡ none
    → (dpkg_arch_add (some name) (with_added native xs d)).1
      ≡ with_added native (xs ++ item name arch_foreign ∷ []) true
unfolding dpkg_arch_add mark_foreign
add_fresh native name xs d a f =
    rw (find_fresh native name xs d a f)
      (rw (nth_added-last xs (item name arch_unknown), set_type-last) refl)

find_added-snoc :
    (name : CString) (i : ℕ) (xs : List DpkgArch) (a : DpkgArch)
    → find_added name i xs ≡ none
    → str_eq a.name name ≡ false
    → find_added name i (xs ++ a ∷ []) ≡ none
unfolding find_added
find_added-snoc name i [] a f e = rw e
find_added-snoc name i (x ∷ xs) a f e = elim (Bool-cases (str_eq x.name name)) [
  | inl k ↦ let bad : ◌≡◌ {A = Option ℕ} (some i) none = rw k at f in cc
  | inr k ↦ rw k (find_added-snoc name (suc i) xs a (rw k at f) e)
]

-- None of the items that come is known yet.
abbrev AreFresh : List DpkgArch → List DpkgArch → Type 0
AreFresh xs = All (λ (b : DpkgArch). find_added b.name 0 xs ≡ none)

AreFresh-snoc :
    (xs rest : List DpkgArch) (a : DpkgArch)
    → AreFresh xs rest
    → All (λ (b : DpkgArch). str_eq a.name b.name ≡ false) rest
    → AreFresh (xs ++ a ∷ []) rest
AreFresh-snoc xs [] a f e = tt
AreFresh-snoc xs (b ∷ rest) a f e =
    (find_added-snoc b.name 0 xs a f.0 e.0, AreFresh-snoc xs rest a f.1 e.1)

foreign_item :
    (name : CString) (t : ArchType) → is_foreign t ≡ true → item name arch_foreign ≡ item name t
foreign_item name t h = ground arith

add_lines-saved :
    (native : CString) (rest xs : List DpkgArch) (d : Bool)
    → All (IsEntry native) rest
    → IsDistinct rest
    → AreFresh xs rest
    → (add_lines (saved_lines rest) (with_added native xs d)).added ≡ xs ++ foreign_only rest
add_lines-saved native [] xs d p q f = sym (append-nil xs)
add_lines-saved native (a ∷ rest) xs d p q f = elim (Bool-cases (is_foreign a.type)) [
  | inl e ↦
      rw (p.0.0, e)
        (ap (λ k. (add_lines (saved_lines rest) k).added)
            (add_fresh native a.name xs d (p.0.1 e) f.0)
          ∙ add_lines-saved native rest (xs ++ item a.name arch_foreign ∷ []) true p.1 q.1
              (AreFresh-snoc xs rest (item a.name arch_foreign) f.1 q.0)
          ∙ append_assoc xs _ (foreign_only rest)
          ∙ ap (λ b. xs ++ b ∷ foreign_only rest) (foreign_item a.name a.type e))
  | inr e ↦ rw (p.0.0, e) (add_lines-saved native rest xs d p.1 q.1 f.1)
]

AreFresh-nil : (rest : List DpkgArch) → AreFresh [] rest
unfolding find_added
AreFresh-nil [] = tt
AreFresh-nil (a ∷ rest) = (refl, AreFresh-nil rest)

add_native :
    (native : CString) (xs : List DpkgArch) (d : Bool)
    → native ≢ []
    → (dpkg_arch_add (some native) (with_added native xs d)).1 ≡ with_added native xs d
unfolding dpkg_arch_add dpkg_arch_find mark_foreign
add_native [] xs d n = absurd (n refl)
add_native (c ∷ s) xs d n = rw (str_eq_refl (c ∷ s)) refl

-- Saving a changed, well-formed list whose saved names have no newline and no NUL and at most 2046
-- bytes writes a text which, loaded into the initial list, is read to its end without an error and
-- gives its foreign architectures in their order.
pub save-load :
    (l : ArchList)
    → IsArchList l
    → All IsLineName (saved_lines (l.native ∷ l.added))
    → l.dirty ≡ true
    → (text : CString) × (k : ArchList) × ((dpkg_arch_save_list l).0 ≡ some text)
      × (dpkg_arch_load_list (some text) (arch_list_init l.native.name) ≡ arch_loaded k)
      × (k.added ≡ foreign_only l.added)
unfolding dpkg_arch_save_list dpkg_arch_load_list
save-load l v n d = (
  saved_text (l.native ∷ l.added),
  add_lines (saved_lines (l.native ∷ l.added)) (arch_list_init l.native.name),
  rw d (ap some written),
  load_lines-saved (l.native ∷ l.added) (length (saved_text (l.native ∷ l.added)))
      (arch_list_init l.native.name) n (omega arith),
  rw (v.native_type) (
      ap (λ k. (add_lines (saved_lines l.added) k).added)
        (add_native l.native.name [] false v.native_named)
      ∙ add_lines-saved l.native.name l.added [] false v.entries v.distinct (AreFresh-nil l.added)),
)
  where
    written : saved_text (l.native ∷ l.all ∷ l.any ∷ l.added) ≡ saved_text (l.native ∷ l.added)
    written = unfold saved_text in rw (v.all_type, v.any_type) refl
