-- ===== src/Alternatives/Removal.antt =====
-- utils/update-alternatives.c: `alternative_remove`.
use dpkg.Alternatives.Links.{Files, System, alternative_get_best, alternative_get_current}
use dpkg.Alternatives.Actions.{alternative_remove, best_file, is_current, is_manual, leave_manual}
use dpkg.Base.{
  Bool-cases, CString, Option, ap, false, if◌then◌else◌, inl, inr, none, refl, some, str_eq, true,
  ◌∙◌, ◌≡◌,
}
use dpkg.Alternatives.{
  Alternative, alternative_get_fileset, alternative_has_choice, alternative_remove_choice,
  alternative_set_status, best_choice, find_fileset,
}
use dpkg.Alternatives.Choices.{
  Distinct-drop_choice, IsMap, alternative_get_fileset-alternative_remove_choice, clash,
}

-- What an operation on the choices or on the status leaves as it is.
record Keeps (a b : Alternative) : Type 0 where
  same_current : b.current ≡ a.current
  same_known : b.known_current ≡ a.known_current

alternative_remove_choice-Keeps :
    (a : Alternative) (path : CString)
    → Keeps a (alternative_remove_choice a path).0
      × ((alternative_remove_choice a path).0.status ≡ a.status)
unfolding alternative_remove_choice
alternative_remove_choice-Keeps a path = elim (Bool-cases (alternative_has_choice a path)) [
  | inl h ↦ rw h (record { same_current = refl; same_known = refl }, refl)
  | inr h ↦ rw h (record { same_current = refl; same_known = refl }, refl)
]

leave_manual-Keeps :
    (a : Alternative)
    → Keeps a (leave_manual a)
      × ((leave_manual a).choices ≡ a.choices)
      × (is_manual (leave_manual a).status ≡ false)
unfolding leave_manual alternative_set_status
leave_manual-Keeps a = elim (Bool-cases (is_manual a.status)) [
  | inl h ↦ rw h (record { same_current = refl; same_known = refl }, refl, refl)
  | inr h ↦ rw h (record { same_current = refl; same_known = refl }, refl, h)
]

alternative_get_best_known :
    (sys : System) (a : Alternative) (fs : Files)
    → a.known_current ≡ true
    → alternative_get_best sys a fs ≡ some (a, best_choice a.choices a.current)
unfolding alternative_get_best alternative_get_current
alternative_get_best_known sys a fs k = rw k refl

IsMap-alternative_remove_choice :
    (a : Alternative) (path : CString) → IsMap a → IsMap (alternative_remove_choice a path).0
unfolding alternative_remove_choice
IsMap-alternative_remove_choice a path d = elim (Bool-cases (alternative_has_choice a path)) [
  | inl h ↦ rw h (Distinct-drop_choice a.choices path d)
  | inr h ↦ rw h d
]

-- What a removal gives: the group, and the choice to install next.
pub record IsRemoved (a : Alternative) (path : CString) (b : Alternative) (new : Option CString)
    : Type 0 where
  pub choices_left :
      (file : CString)
      → alternative_get_fileset b file
        ≡ (if str_eq path file then none else alternative_get_fileset a file)
  pub still_map : IsMap b
  pub other_current : is_current a.current path ≡ false → (b.status ≡ a.status) × (new ≡ none)
  pub own_current :
      is_current a.current path ≡ true
      → (is_manual b.status ≡ false) × (new ≡ best_file (best_choice b.choices a.current))

module _ (sys : System) (a : Alternative) (path : CString) (fs : Files)
    (known : a.known_current ≡ true) (d : IsMap a) where
  abbrev left : Alternative
  left = (alternative_remove_choice a path).0

  remove_other :
      is_current a.current path ≡ false
      → (alternative_remove sys a a.current path fs ≡ some (left, none))
        × IsRemoved a path left none
  unfolding alternative_remove
  remove_other h = (
    rw h refl,
    record {
      choices_left = λ file. alternative_get_fileset-alternative_remove_choice a path file d;
      still_map = IsMap-alternative_remove_choice a path d;
      other_current = λ _. ((alternative_remove_choice-Keeps a path).1, refl);
      own_current = λ e. absurd (clash h e);
    },
  )

  get_left :
      (b : Alternative)
      → b.choices ≡ left.choices
      → (file : CString) → alternative_get_fileset b file ≡ alternative_get_fileset left file
  unfolding alternative_get_fileset
  get_left b e file = ap (λ xs. find_fileset xs file) e

  remove_own :
      is_current a.current path ≡ true
      → (alternative_remove sys a a.current path fs
          ≡ some (leave_manual left, best_file (best_choice (leave_manual left).choices a.current)))
        × IsRemoved a path
            (leave_manual left)
            (best_file (best_choice (leave_manual left).choices a.current))
  unfolding alternative_remove
  remove_own h =
      let k = (alternative_remove_choice-Keeps a path).0 in
      let l = leave_manual-Keeps left in
      let m = l.0 in
      (
        rw
            (
              h,
              alternative_get_best_known sys (leave_manual left) fs
                  (m.same_known ∙ k.same_known ∙ known),
            )
            (ap
              (λ c. some (leave_manual left, best_file (best_choice (leave_manual left).choices c)))
              (m.same_current ∙ k.same_current)),
        record {
          choices_left = λ file.
              get_left (leave_manual left) l.1 file
              ∙ alternative_get_fileset-alternative_remove_choice a path file d;
          still_map = rw (l.1) (IsMap-alternative_remove_choice a path d);
          other_current = λ e. absurd (clash e h);
          own_current = λ _. (l.2, refl);
        },
      )

-- For a group whose current link has been read and whose choices have different files, removing a
-- file always ends: exactly that choice goes, the choices keep different files, and if the file was
-- the current choice manual mode ends and the best of the rest is next, while otherwise the status
-- is kept and no choice is next.
pub alternative_remove-IsRemoved :
    (sys : System) (a : Alternative) (path : CString) (fs : Files)
    → a.known_current ≡ true
    → IsMap a
    → (b : Alternative) × (new : Option CString) × (alternative_remove sys a a.current path fs
        ≡ some (b, new))
      × IsRemoved a path b new
alternative_remove-IsRemoved sys a path fs k d = elim (Bool-cases (is_current a.current path)) [
  | inl h ↦ let (e, r) = remove_own sys a path fs k d h in (_, _, e, r)
  | inr h ↦ let (e, r) = remove_other sys a path fs k d h in (_, _, e, r)
]
