-- ===== src/Alternatives/Database/Tidy.antt =====
-- utils/update-alternatives.c: what the cleaning and the sorting of `alternative_save` keep.
use dpkg.Alternatives.Saving.{
  alternative_sort_choices, alternative_sort_slaves, any_has_slave, file_text, insert_by, is_lt,
  sort_by, tidy, used_slaves,
}
use dpkg.Base.{
  All, Bool, Bool-cases, CString, Distinct, List, [], false, inl, inr, some, str_eq, str_eq_comm,
  strcmp, ◌∙◌, ◌∷◌, ◌≡◌,
}
use dpkg.Alternatives.{
  Alternative, Fileset, SlaveLink, alt_st_unknown, fileset_get_slave, same_status,
}
use dpkg.Alternatives.Database.Lines.{IsLine}
use dpkg.Alternatives.Database.Slaves.{IsSlave}
use dpkg.Alternatives.Database.Filesets.{IsChoice}

module _ {A : Type 0} (key : A → CString) where
  All-insert_by :
      (P : A → Type 0) (x : A) (xs : List A) → P x → All P xs → All P (insert_by key x xs)
  unfolding insert_by
  All-insert_by P x [] p h = (p, tt)
  All-insert_by P x (y ∷ ys) p h = elim (Bool-cases (is_lt (strcmp (key y) (key x)))) [
    | inl e ↦ rw e (h.0, All-insert_by P x ys p h.1)
    | inr e ↦ rw e (p, h)
  ]

  pub All-sort_by : (P : A → Type 0) (xs : List A) → All P xs → All P (sort_by key xs)
  unfolding sort_by
  All-sort_by P [] h = tt
  All-sort_by P (x ∷ xs) h = All-insert_by P x (sort_by key xs) h.0 (All-sort_by P xs h.1)

  Distinct-insert_by :
      (by : A → CString) (x : A) (xs : List A)
      → All (λ y. str_eq (by x) (by y) ≡ false) xs
      → Distinct by xs
      → Distinct by (insert_by key x xs)
  unfolding insert_by
  Distinct-insert_by by x [] h d = (tt, tt)
  Distinct-insert_by by x (y ∷ ys) h d = elim (Bool-cases (is_lt (strcmp (key y) (key x)))) [
    | inl e ↦ rw e (
      All-insert_by (λ z. str_eq (by y) (by z) ≡ false) x ys (str_eq_comm (by y) (by x) ∙ h.0) d.0,
      Distinct-insert_by by x ys h.1 d.1,
    )
    | inr e ↦ rw e (h, d)
  ]

  pub Distinct-sort_by :
      (by : A → CString) (xs : List A) → Distinct by xs → Distinct by (sort_by key xs)
  unfolding sort_by
  Distinct-sort_by by [] d = tt
  Distinct-sort_by by (x ∷ xs) d =
      Distinct-insert_by by x (sort_by key xs)
        (All-sort_by (λ y. str_eq (by x) (by y) ≡ false) xs d.0) (Distinct-sort_by by xs d.1)

pub All-used_slaves :
    (P : SlaveLink → Type 0) (xs : List SlaveLink) (choices : List Fileset)
    → All P xs
    → All P (used_slaves xs choices)
unfolding used_slaves
All-used_slaves P [] choices h = tt
All-used_slaves P (sl ∷ xs) choices h = elim (Bool-cases (any_has_slave choices sl.name)) [
  | inl e ↦ rw e (h.0, All-used_slaves P xs choices h.1)
  | inr e ↦ rw e (All-used_slaves P xs choices h.1)
]

pub Distinct-used_slaves :
    (by : SlaveLink → CString) (xs : List SlaveLink) (choices : List Fileset)
    → Distinct by xs
    → Distinct by (used_slaves xs choices)
unfolding used_slaves
Distinct-used_slaves by [] choices d = tt
Distinct-used_slaves by (sl ∷ xs) choices d = elim (Bool-cases (any_has_slave choices sl.name)) [
  | inl e ↦ rw e (
    All-used_slaves (λ y. str_eq (by sl) (by y) ≡ false) xs choices d.0,
    Distinct-used_slaves by xs choices d.1,
  )
  | inr e ↦ rw e (Distinct-used_slaves by xs choices d.1)
]

-- A group that can be written and read: its texts are lines, its names, links and choices distinct,
-- the files of its choices are there, and the priorities fit an `int`.
pub record IsSavable (missing : CString → Bool) (link : CString) (a : Alternative) : Type 0 where
  pub link_is : a.master_link ≡ some link
  pub status_set : same_status a.status alt_st_unknown ≡ false
  pub link_line : IsLine link
  pub slaves : All (IsSlave link) a.slaves
  pub names : Distinct (λ (sl : SlaveLink). sl.name) a.slaves
  pub links : Distinct (λ (sl : SlaveLink). sl.link) a.slaves
  pub choices : All (IsChoice missing a.slaves) a.choices
  pub files : Distinct (λ (fs : Fileset). fs.master_file) a.choices

All-map :
    (P Q : Fileset → Type 0) (xs : List Fileset) → ((x : Fileset) → P x → Q x) → All P xs → All Q xs
All-map P Q [] f h = tt
All-map P Q (x ∷ xs) f h = (f x h.0, All-map P Q xs f h.1)

abbrev name_of : SlaveLink → CString
name_of sl = sl.name

abbrev file_of : Fileset → CString
file_of fs = fs.master_file

pub tidy-IsSavable :
    (missing : CString → Bool) (link : CString) (a : Alternative)
    → IsSavable missing link a
    → IsSavable missing link (tidy a)
unfolding tidy alternative_sort_slaves alternative_sort_choices
tidy-IsSavable missing link a v =
    let used = used_slaves a.slaves a.choices in
    record {
      link_is = v.link_is;
      status_set = v.status_set;
      link_line = v.link_line;
      slaves =
          All-sort_by name_of (IsSlave link) used
            (All-used_slaves (IsSlave link) a.slaves a.choices v.slaves);
      names =
          Distinct-sort_by name_of name_of used
            (Distinct-used_slaves name_of a.slaves a.choices v.names);
      links =
          Distinct-sort_by name_of (λ (sl : SlaveLink). sl.link) used
            (Distinct-used_slaves (λ (sl : SlaveLink). sl.link) a.slaves a.choices v.links);
      choices = All-sort_by file_of (IsChoice missing (sort_by name_of used)) a.choices (
          All-map (IsChoice missing a.slaves) (IsChoice missing (sort_by name_of used)) a.choices
            fewer v.choices);
      files = Distinct-sort_by file_of file_of a.choices v.files;
    }
  where
    fewer :
        (fs : Fileset)
        → IsChoice missing a.slaves fs
        → IsChoice missing (sort_by name_of (used_slaves a.slaves a.choices)) fs
    fewer fs c = record {
      file_line = c.file_line;
      file_set = c.file_set;
      present = c.present;
      in_range = c.in_range;
      slave_lines =
          let P = λ (sl : SlaveLink). IsLine (file_text (fileset_get_slave fs sl.name)) in
          All-sort_by name_of P (used_slaves a.slaves a.choices)
            (All-used_slaves P a.slaves a.choices c.slave_lines);
    }
