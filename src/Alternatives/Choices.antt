-- ===== src/Alternatives/Choices.antt =====
-- utils/update-alternatives.c: the choices of a group as a map from their files, under
-- `alternative_add_choice` and `alternative_remove_choice`.
use dpkg.Base.{
  All, Bool, Bool-cases, CString, Distinct, List, Option, Option-cases, [], ap, false,
  if◌then◌else◌, inl, inr, none, refl, some, str_eq, str_eq-eq, str_eq_comm, sym, true, ◌∙◌, ◌∷◌,
  ◌≡◌, ◌⊎◌,
}
use dpkg.Alternatives.{
  Alternative, Fileset, alternative_add_choice, alternative_get_fileset, alternative_has_choice,
  alternative_remove_choice, drop_choice, find_fileset, put_choice,
}

abbrev file_of : Fileset → CString
file_of fs = fs.master_file

pub clash : {b : Bool} → b ≡ false → b ≡ true → ⊥
clash e h = cc

-- Two tests of which one holds at most, in either order.
if_swap :
    {A : Type 0} (p q : Bool) (u v r : A)
    → (p ≡ true → q ≡ false)
    → (if p then u else if q then v else r) ≡ (if q then v else if p then u else r)
if_swap true true u v r h = absurd (clash (h refl) refl)
if_swap true false u v r h = refl
if_swap false q u v r h = refl

if_again :
    {A : Type 0} (p : Bool) (u v r : A)
    → (if p then u else r) ≡ (if p then u else if p then v else r)
if_again true u v r = refl
if_again false u v r = refl

other_file :
    (a b file : CString) → str_eq a b ≡ false → str_eq a file ≡ true → str_eq b file ≡ false
other_file a b file n h =
    let e : a ≡ file = str_eq-eq a file h in str_eq_comm b file ∙ sym (ap (λ t. str_eq t b) e) ∙ n

find_fileset-put_choice :
    (xs : List Fileset) (fs : Fileset) (file : CString)
    → find_fileset (put_choice xs fs) file
      ≡ (if str_eq fs.master_file file then some fs else find_fileset xs file)
unfolding find_fileset put_choice
find_fileset-put_choice [] fs file = refl
find_fileset-put_choice (x ∷ xs) fs file = elim (Bool-cases (str_eq x.master_file fs.master_file)) [
  | inl h ↦
      let same : str_eq x.master_file file ≡ str_eq fs.master_file file =
        ap (λ t. str_eq t file) (str_eq-eq x.master_file fs.master_file h) in
      rw (h, same) (if_again (str_eq fs.master_file file) (some fs) (some x) (find_fileset xs file))
  | inr h ↦
      rw (h, find_fileset-put_choice xs fs file)
        (if_swap (str_eq x.master_file file) (str_eq fs.master_file file) (some x) (some fs)
          (find_fileset xs file) (other_file x.master_file fs.master_file file h))
]

-- After a choice is added, its file leads to it and every other file to what it led to before.
pub alternative_get_fileset-alternative_add_choice :
    (a : Alternative) (fs : Fileset) (file : CString)
    → alternative_get_fileset (alternative_add_choice a fs) file
      ≡ (if str_eq fs.master_file file then some fs else alternative_get_fileset a file)
unfolding alternative_get_fileset alternative_add_choice
alternative_get_fileset-alternative_add_choice a fs file = find_fileset-put_choice a.choices fs file

find_fileset_absent :
    (xs : List Fileset) (file : CString)
    → All (λ (fs : Fileset). str_eq file fs.master_file ≡ false) xs
    → find_fileset xs file ≡ none
unfolding find_fileset
find_fileset_absent [] file h = refl
find_fileset_absent (x ∷ xs) file h =
    rw (str_eq_comm x.master_file file ∙ h.0) (find_fileset_absent xs file h.1)

find_fileset-drop_choice :
    (xs : List Fileset) (path file : CString)
    → Distinct file_of xs
    → find_fileset (drop_choice xs path) file
      ≡ (if str_eq path file then none else find_fileset xs file)
unfolding find_fileset drop_choice
find_fileset-drop_choice [] path file d = by_test (str_eq path file)
  where
    by_test : (b : Bool) → ◌≡◌ {A = Option Fileset} none (if b then none else none)
    by_test true = refl
    by_test false = refl
find_fileset-drop_choice (x ∷ xs) path file d = elim (Bool-cases (str_eq x.master_file path)) [
  | inl h ↦
      let same : x.master_file ≡ path = str_eq-eq x.master_file path h in
      rw (h, ap (λ t. str_eq t file) same) (gone same (Bool-cases (str_eq path file)))
  | inr h ↦
      rw (h, find_fileset-drop_choice xs path file d.1)
        (if_swap (str_eq x.master_file file) (str_eq path file) (some x) none (find_fileset xs file)
          (other_file x.master_file path file h))
]
  where
    gone :
        x.master_file ≡ path
        → (str_eq path file ≡ true) ⊎ (str_eq path file ≡ false)
        → find_fileset xs file ≡ (
            if str_eq path file
            then none
            else if str_eq path file
            then some x
            else find_fileset xs file)
    gone same (inl e) =
        let at_file : x.master_file ≡ file = same ∙ str_eq-eq path file e in
        rw e (find_fileset_absent xs file (rw at_file at d.0))
    gone same (inr e) = rw e refl

module _ (a : Alternative) where
  -- No two choices have one file.
  abbrev pub IsMap : Type 0
  IsMap = Distinct file_of a.choices

pub alternative_get_fileset-alternative_remove_choice :
    (a : Alternative) (path file : CString)
    → IsMap a
    → alternative_get_fileset (alternative_remove_choice a path).0 file
      ≡ (if str_eq path file then none else alternative_get_fileset a file)
unfolding alternative_get_fileset alternative_remove_choice alternative_has_choice
alternative_get_fileset-alternative_remove_choice a path file d =
    elim (Option-cases (find_fileset a.choices path)) [
      | inl e ↦ rw e (stays (Bool-cases (str_eq path file)) e)
      | inr (fs, e) ↦ rw e (find_fileset-drop_choice a.choices path file d)
    ]
  where
    stays :
        (str_eq path file ≡ true) ⊎ (str_eq path file ≡ false)
        → find_fileset a.choices path ≡ none
        → find_fileset a.choices file
          ≡ (if str_eq path file then none else find_fileset a.choices file)
    stays (inl h) e = rw h (ap (find_fileset a.choices) (sym (str_eq-eq path file h)) ∙ e)
    stays (inr h) e = rw h refl

All-put_choice :
    (P : Fileset → Type 0) (xs : List Fileset) (fs : Fileset)
    → P fs
    → All P xs
    → All P (put_choice xs fs)
unfolding put_choice
All-put_choice P [] fs p h = (p, tt)
All-put_choice P (x ∷ xs) fs p h = elim (Bool-cases (str_eq x.master_file fs.master_file)) [
  | inl e ↦ rw e (p, h.1)
  | inr e ↦ rw e (h.0, All-put_choice P xs fs p h.1)
]

Distinct-put_choice :
    (xs : List Fileset) (fs : Fileset) → Distinct file_of xs → Distinct file_of (put_choice xs fs)
unfolding put_choice
Distinct-put_choice [] fs d = (tt, tt)
Distinct-put_choice (x ∷ xs) fs d = elim (Bool-cases (str_eq x.master_file fs.master_file)) [
  | inl e ↦
      let same : x.master_file ≡ fs.master_file = str_eq-eq x.master_file fs.master_file e in
      rw e (rw same at d.0, d.1)
  | inr e ↦ rw e (
    All-put_choice (λ (y : Fileset). str_eq x.master_file y.master_file ≡ false) xs fs e d.0,
    Distinct-put_choice xs fs d.1,
  )
]

All-drop_choice :
    (P : Fileset → Type 0) (xs : List Fileset) (file : CString)
    → All P xs
    → All P (drop_choice xs file)
unfolding drop_choice
All-drop_choice P [] file h = tt
All-drop_choice P (x ∷ xs) file h = elim (Bool-cases (str_eq x.master_file file)) [
  | inl e ↦ rw e h.1
  | inr e ↦ rw e (h.0, All-drop_choice P xs file h.1)
]

pub Distinct-drop_choice :
    (xs : List Fileset) (file : CString)
    → Distinct file_of xs
    → Distinct file_of (drop_choice xs file)
unfolding drop_choice
Distinct-drop_choice [] file d = tt
Distinct-drop_choice (x ∷ xs) file d = elim (Bool-cases (str_eq x.master_file file)) [
  | inl e ↦ rw e d.1
  | inr e ↦ rw e (
    All-drop_choice (λ (y : Fileset). str_eq x.master_file y.master_file ≡ false) xs file d.0,
    Distinct-drop_choice xs file d.1,
  )
]

-- Adding a choice to a group whose choices have different files keeps their files different.
pub IsMap-alternative_add_choice :
    (a : Alternative) (fs : Fileset) → IsMap a → IsMap (alternative_add_choice a fs)
unfolding alternative_add_choice
IsMap-alternative_add_choice a fs d = Distinct-put_choice a.choices fs d
