-- ===== src/Alternatives/Database/Filesets.antt =====
-- utils/update-alternatives.c: the choices in the file of a group, as they are read.
use mathlib.Core.List.{append-nil, append_assoc, map}
use dpkg.Alternatives.Saving.{choice_lines, file_lines, file_text, int_text}
use dpkg.Base.{
  All, All-zip, Bool, Bool-cases, CString, Distinct, List, Option, [], ap, arith, false, inl, inr,
  length, none, refl, some, str_eq, suc, sym, true, zero, ℕ, ◌++◌, ◌<◌, ◌∙◌, ◌∷◌, ◌≡◌,
}
use dpkg.Alternatives.{
  Alternative, Fileset, SlaveFile, SlaveLink, alternative_add_choice, alternative_get_fileset,
  fileset_add_slave, fileset_get_slave, fileset_new, find_fileset, find_slave_file, put_choice,
  put_slave,
}
use dpkg.Alternatives.Database.{
  Loading, Read, alternative_parse_fileset, is_empty, out_of_int, parse_choice, parse_filesets,
  read_fileset, read_slave_files,
}
use dpkg.Alternatives.Database.Numbers.{
  bad_priority-int_text, bad_range-int_text, int_text-IsLine, strtol-int_text,
}
use dpkg.Alternatives.Database.Lines.{IsLine, altdb_get_line-line, unlines}
use dpkg.Alternatives.Database.Slaves.{empty-IsLine, fresh}

-- The files of the slaves of a choice, as they are loaded: one for each slave link, empty if not set.
abbrev pub loaded_file : Fileset → SlaveLink → SlaveFile
loaded_file fs sl = record { name = sl.name; file = file_text (fileset_get_slave fs sl.name) }

abbrev pub loaded_fileset : List SlaveLink → Fileset → Fileset
loaded_fileset slaves fs = record {
  master_file = fs.master_file;
  priority = fs.priority;
  slaves = map (loaded_file fs) slaves;
}

-- What the file says of a choice.
pub record IsChoice (missing : CString → Bool) (slaves : List SlaveLink) (fs : Fileset)
    : Type 0 where
  pub file_line : IsLine fs.master_file
  pub file_set : is_empty fs.master_file ≡ false
  pub present : missing fs.master_file ≡ false
  pub in_range : out_of_int fs.priority ≡ false
  pub slave_lines :
      All (λ (sl : SlaveLink). IsLine (file_text (fileset_get_slave fs sl.name))) slaves

find_slave_file-snoc :
    (done : List SlaveFile) (x : SlaveFile) (name : CString)
    → find_slave_file done name ≡ none
    → str_eq x.name name ≡ false
    → find_slave_file (done ++ x ∷ []) name ≡ none
unfolding find_slave_file
find_slave_file-snoc [] x name h k = rw k refl
find_slave_file-snoc (y ∷ done) x name h k = elim (Bool-cases (str_eq y.name name)) [
  | inl e ↦ let bad : ◌≡◌ {A = Option CString} (some y.file) none = rw e at h in cc
  | inr e ↦ rw e (find_slave_file-snoc done x name (rw e at h) k)
]

put_slave-snoc :
    (done : List SlaveFile) (name file : CString)
    → find_slave_file done name ≡ none
    → put_slave done name file ≡ done ++ record { name = name; file = file } ∷ []
unfolding put_slave find_slave_file
put_slave-snoc [] name file h = refl
put_slave-snoc (y ∷ done) name file h = elim (Bool-cases (str_eq y.name name)) [
  | inl e ↦ let bad : ◌≡◌ {A = Option CString} (some y.file) none = rw e at h in cc
  | inr e ↦ rw e (ap (◌∷◌ y) (put_slave-snoc done name file (rw e at h)))
]

read_slave_files-lines :
    (fs acc : Fileset) (slaves : List SlaveLink) (lines : List CString)
    → All (λ (sl : SlaveLink). IsLine (file_text (fileset_get_slave fs sl.name))) slaves
    → All (λ (sl : SlaveLink). find_slave_file acc.slaves sl.name ≡ none) slaves
    → Distinct (λ (sl : SlaveLink). sl.name) slaves
    → read_slave_files acc (map fresh slaves) (unlines (file_lines fs slaves ++ lines))
      ≡ Read.ok (record acc { slaves = acc.slaves ++ map (loaded_file fs) slaves }) (unlines lines)
unfolding read_slave_files file_lines unlines
read_slave_files-lines fs acc [] lines l n d =
    ap (λ k. Read.ok (record acc { slaves = k }) (unlines lines)) (sym (append-nil acc.slaves))
read_slave_files-lines fs acc (sl ∷ slaves) lines l n d =
    let file = file_text (fileset_get_slave fs sl.name) in
    let next = record acc { slaves = acc.slaves ++ loaded_file fs sl ∷ [] } in
    let added : fileset_add_slave acc sl.name file ≡ next =
      unfold fileset_add_slave in
      ap (λ k. record acc { slaves = k }) (put_slave-snoc acc.slaves sl.name file n.0) in
    rw (altdb_get_line-line file (unlines (file_lines fs slaves ++ lines)) l.0, added)
      (read_slave_files-lines fs next slaves lines l.1
          (All-zip _ _ _ slaves
            (λ x p q. find_slave_file-snoc acc.slaves (loaded_file fs sl) x.name p q) n.1 d.0)
          d.1
        ∙ ap (λ k. Read.ok (record acc { slaves = k }) (unlines lines))
            (append_assoc acc.slaves (loaded_file fs sl ∷ []) (map (loaded_file fs) slaves)))

none_found :
    (slaves : List SlaveLink) → All (λ (sl : SlaveLink). find_slave_file [] sl.name ≡ none) slaves
unfolding find_slave_file
none_found [] = tt
none_found (sl ∷ slaves) = (refl, none_found slaves)

read_files-lines :
    (a : Alternative) (slaves : List SlaveLink) (fs : Fileset) (lines : List CString)
    → a.slaves ≡ map fresh slaves
    → All (λ (sl : SlaveLink). IsLine (file_text (fileset_get_slave fs sl.name))) slaves
    → Distinct (λ (sl : SlaveLink). sl.name) slaves
    → read_slave_files
        (fileset_new fs.master_file fs.priority)
        a.slaves
        (unlines (file_lines fs slaves ++ lines))
      ≡ Read.ok (loaded_fileset slaves fs) (unlines lines)
read_files-lines a slaves fs lines e l d =
    ap
      (λ xs.
        read_slave_files (fileset_new fs.master_file fs.priority) xs
          (unlines (file_lines fs slaves ++ lines)))
      e
    ∙ (unfold fileset_new in
        read_slave_files-lines fs (fileset_new fs.master_file fs.priority) slaves lines l
          (none_found slaves) d)

find_fileset-snoc :
    (done : List Fileset) (x : Fileset) (file : CString)
    → find_fileset done file ≡ none
    → str_eq x.master_file file ≡ false
    → find_fileset (done ++ x ∷ []) file ≡ none
unfolding find_fileset
find_fileset-snoc [] x file h k = rw k refl
find_fileset-snoc (y ∷ done) x file h k = elim (Bool-cases (str_eq y.master_file file)) [
  | inl e ↦ let bad : ◌≡◌ {A = Option Fileset} (some y) none = rw e at h in cc
  | inr e ↦ rw e (find_fileset-snoc done x file (rw e at h) k)
]

put_choice-snoc :
    (done : List Fileset) (fs : Fileset)
    → find_fileset done fs.master_file ≡ none
    → put_choice done fs ≡ done ++ fs ∷ []
unfolding put_choice find_fileset
put_choice-snoc [] fs h = refl
put_choice-snoc (y ∷ done) fs h = elim (Bool-cases (str_eq y.master_file fs.master_file)) [
  | inl e ↦ let bad : ◌≡◌ {A = Option Fileset} (some y) none = rw e at h in cc
  | inr e ↦ rw e (ap (◌∷◌ y) (put_choice-snoc done fs (rw e at h)))
]

add_choice-snoc :
    (a : Alternative) (fs : Fileset)
    → find_fileset a.choices fs.master_file ≡ none
    → alternative_add_choice a fs ≡ record a { choices = a.choices ++ fs ∷ []; modified = true }
unfolding alternative_add_choice
add_choice-snoc a fs h =
    ap (λ k. record a { choices = k; modified = true }) (put_choice-snoc a.choices fs h)

module _ (missing : CString → Bool) where
  -- One choice.
  parse_fileset-lines :
      (a : Alternative) (modified : Bool) (slaves : List SlaveLink) (fs : Fileset)
      (lines : List CString)
      → a.slaves ≡ map fresh slaves
      → IsChoice missing slaves fs
      → Distinct (λ (sl : SlaveLink). sl.name) slaves
      → find_fileset a.choices fs.master_file ≡ none
      → alternative_parse_fileset missing
          (a, modified)
          (fs.master_file
            ++ 10 ∷ (int_text fs.priority ++ 10 ∷ unlines (file_lines fs slaves ++ lines)))
        ≡ Read.ok
            (some (
              record a { choices = a.choices ++ loaded_fileset slaves fs ∷ []; modified = true },
              modified,
            ))
            (unlines lines)
  unfolding alternative_parse_fileset parse_choice read_fileset alternative_get_fileset
  parse_fileset-lines a modified slaves fs lines e v d n =
      let tail = unlines (file_lines fs slaves ++ lines) in
      rw
        (
          altdb_get_line-line fs.master_file (int_text fs.priority ++ 10 ∷ tail) v.file_line,
          v.file_set,
          n,
          v.present,
          altdb_get_line-line (int_text fs.priority) tail (int_text-IsLine fs.priority v.in_range),
          bad_priority-int_text fs.priority v.in_range,
          bad_range-int_text fs.priority v.in_range,
          strtol-int_text fs.priority v.in_range,
          read_files-lines a slaves fs lines e v.slave_lines d,
        )
        (ap (λ k. Read.ok (some (k, modified)) (unlines lines))
          (add_choice-snoc a (loaded_fileset slaves fs) n))

  parse_fileset-end :
      (a : Loading) (rest : CString)
      → alternative_parse_fileset missing a (10 ∷ rest) ≡ Read.ok none rest
  unfolding alternative_parse_fileset
  parse_fileset-end (a, modified) rest = rw (altdb_get_line-line [] rest empty-IsLine) refl

  pub parse_filesets-lines :
      (f : ℕ) (a : Alternative) (modified : Bool) (slaves : List SlaveLink) (todo : List Fileset)
      (lines : List CString)
      → length todo < f
      → a.slaves ≡ map fresh slaves
      → All (IsChoice missing slaves) todo
      → Distinct (λ (sl : SlaveLink). sl.name) slaves
      → Distinct (λ (fs : Fileset). fs.master_file) todo
      → All (λ (fs : Fileset). find_fileset a.choices fs.master_file ≡ none) todo
      → (m : Bool) × (parse_filesets missing f
            (a, modified)
            (unlines (choice_lines slaves todo ++ [] ∷ lines))
          ≡ Read.ok
              (
                record a { choices = a.choices ++ map (loaded_fileset slaves) todo; modified = m },
                modified,
              )
              (unlines lines))
  unfolding parse_filesets choice_lines unlines
  parse_filesets-lines zero a modified slaves todo lines l e v d c n = absurd (omega arith)
  parse_filesets-lines (suc f) a modified slaves [] lines l e v d c n = (
    a.modified,
    rw (parse_fileset-end (a, modified) (unlines lines)) (
        ap (λ k. Read.ok (record a { choices = k }, modified) (unlines lines))
          (sym (append-nil a.choices))),
  )
  parse_filesets-lines (suc f) a modified slaves (fs ∷ todo) lines l e v d c n =
      let next = record a {
        choices = a.choices ++ loaded_fileset slaves fs ∷ [];
        modified = true;
      } in
      let (m, h) =
        parse_filesets-lines f next modified slaves todo lines (omega arith) e v.1 d c.1 (
          All-zip _ _ _ todo
            (λ x p q. find_fileset-snoc a.choices (loaded_fileset slaves fs) x.master_file p q) n.1
            c.0) in
      (
        m,
        rw
            (
              append_assoc (file_lines fs slaves) (choice_lines slaves todo) ([] ∷ lines),
              parse_fileset-lines a modified slaves fs (choice_lines slaves todo ++ [] ∷ lines) e
                  v.0 d n.0,
            )
            (h
              ∙ ap (λ k. Read.ok (record a { choices = k; modified = m }, modified) (unlines lines))
                  (append_assoc a.choices (loaded_fileset slaves fs ∷ [])
                    (map (loaded_fileset slaves) todo))),
      )
