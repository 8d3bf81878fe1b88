-- ===== src/Alternatives/Saving.antt =====
-- utils/update-alternatives.c: a link group cleaned, sorted and written to its file.
use Prim.Native.Nat.{Ordering}
use dpkg.Base.{
  Bool, CString, List, Option, [], false, if◌then◌else◌, in_set, none, some, strcmp, suc, true,
  ◌++◌, ◌||◌, ◌∷◌,
}
use dpkg.Base.Int.{negsuc, pos, ℤ}
use dpkg.VersionText.{decimal}
use dpkg.Alternatives.{
  Alternative, Fileset, SlaveLink, alternative_status_string, fileset_get_slave, fileset_has_slave,
}

-- The first loop of `alternative_save`.
unfoldable pub any_has_slave : List Fileset → CString → Bool
any_has_slave [] name = false
any_has_slave (fs ∷ rest) name = fileset_has_slave fs name || any_has_slave rest name

unfoldable pub used_slaves : List SlaveLink → List Fileset → List SlaveLink
unfolding any_has_slave
used_slaves [] choices = []
used_slaves (sl ∷ rest) choices =
    if any_has_slave choices sl.name
    then sl ∷ used_slaves rest choices
    else used_slaves rest choices

abbrev pub is_lt : Ordering → Bool
is_lt Ordering.lt = true
is_lt _ = false

-- `qsort`: the keys are distinct, so that the order is the only ascending one.
module _ {A : Type 0} (key : A → CString) where
  unfoldable pub insert_by : A → List A → List A
  insert_by x [] = x ∷ []
  insert_by x (y ∷ ys) = if is_lt (strcmp (key y) (key x)) then y ∷ insert_by x ys else x ∷ y ∷ ys

  unfoldable pub sort_by : List A → List A
  unfolding insert_by
  sort_by [] = []
  sort_by (x ∷ xs) = insert_by x (sort_by xs)

unfoldable pub alternative_sort_slaves : Alternative → Alternative
unfolding sort_by
alternative_sort_slaves a = record a { slaves = sort_by (λ (sl : SlaveLink). sl.name) a.slaves }

unfoldable pub alternative_sort_choices : Alternative → Alternative
unfolding sort_by
alternative_sort_choices a = record a {
  choices = sort_by (λ (fs : Fileset). fs.master_file) a.choices;
}

-- The group as it is written: without unused slaves, and sorted.
unfoldable pub tidy : Alternative → Alternative
unfolding alternative_sort_slaves alternative_sort_choices used_slaves
tidy a =
    alternative_sort_choices
      (alternative_sort_slaves (record a { slaves = used_slaves a.slaves a.choices }))

-- A line, or `none` for a newline in it.
unfoldable pub altdb_print_line : CString → Option CString
altdb_print_line line = if in_set 10 line then none else some (line ++ 10 ∷ [])

unfoldable pub print_both : Option CString → Option CString → Option CString
print_both (some s) (some t) = some (s ++ t)
print_both _ _ = none

unfoldable pub print_lines : List CString → Option CString
unfolding print_both altdb_print_line
print_lines [] = some []
print_lines (line ∷ rest) = print_both (altdb_print_line line) (print_lines rest)

-- `%d`
unfoldable pub int_text : ℤ → CString
int_text (pos n) = decimal n
int_text (negsuc n) = b'-' ∷ decimal (suc n)

unfoldable pub slave_lines : List SlaveLink → List CString
slave_lines [] = []
slave_lines (sl ∷ rest) = sl.name ∷ sl.link ∷ slave_lines rest

unfoldable pub file_text : Option CString → CString
file_text none = []
file_text (some file) = file

-- An empty file is written as an empty line, like one that is not set.
unfoldable pub file_lines : Fileset → List SlaveLink → List CString
unfolding file_text
file_lines fs [] = []
file_lines fs (sl ∷ rest) = file_text (fileset_get_slave fs sl.name) ∷ file_lines fs rest

unfoldable pub choice_lines : List SlaveLink → List Fileset → List CString
unfolding file_lines int_text
choice_lines slaves [] = []
choice_lines slaves (fs ∷ rest) =
    fs.master_file ∷ int_text fs.priority ∷ (file_lines fs slaves ++ choice_lines slaves rest)

unfoldable pub group_lines : CString → Alternative → List CString
unfolding slave_lines choice_lines
group_lines link a =
    alternative_status_string a.status
    ∷ link
    ∷ (slave_lines a.slaves ++ [] ∷ (choice_lines a.slaves a.choices ++ [] ∷ []))

unfoldable pub group_text : Alternative → Option CString → Option CString
unfolding group_lines print_lines
group_text a none = none
group_text a (some link) = print_lines (group_lines link a)

-- The group after the save, and the bytes of its file; `none` ends the program.
unfoldable pub alternative_save : Alternative → Alternative × Option CString
unfolding tidy group_text
alternative_save a = (tidy a, group_text (tidy a) a.master_link)
