-- ===== src/Alternatives/Actions.antt =====
-- utils/update-alternatives.c: the actions on a link group.
use dpkg.Alternatives.Saving.{alternative_save}
use dpkg.Base.{
  Bool, CString, List, Option, [], false, if◌then◌else◌, none, not, some, str_eq, true, ◌&&◌, ◌∷◌,
}
use dpkg.Base.Options.{◌>>=◌}
use dpkg.Alternatives.{
  Alternative, AlternativeStatus, Fileset, SlaveLink, alt_st_auto, alt_st_manual,
  alternative_add_choice, alternative_copy_slave, alternative_get_slave, alternative_has_choice,
  alternative_remove_choice, alternative_set_link, alternative_set_status, fileset_get_slave,
}
use dpkg.Alternatives.Links.{
  Files, Node, PathStatus, System, UpdateReason, alt_path, alt_path_symlink, alt_update_no,
  alternative_commit, alternative_get_best, alternative_needs_update, alternative_path_classify,
  alternative_prepare_install, alternative_remove_files, file_of, fsys_mv, fsys_rm, node_symlink,
}

unfoldable pub alternative_set_manual : Alternative → CString → Option (Alternative × CString)
unfolding alternative_has_choice alternative_set_status
alternative_set_manual a path =
    if alternative_has_choice a path
    then some (alternative_set_status a alt_st_manual, path)
    else none

abbrev pub best_file : Option Fileset → Option CString
best_file none = none
best_file (some fs) = some fs.master_file

-- Without a choice there is no new one; the best of some choices always exists.
unfoldable pub alternative_set_auto :
    System → Alternative → Files → Option (Alternative × Option CString)
unfolding alternative_set_status
alternative_set_auto sys a fs =
    let b = alternative_set_status a alt_st_auto in
    elim b.choices [
      | [] ↦ some (b, none)
      | ◌∷◌ x xs ↦ alternative_get_best sys b fs >>= λ (c, best). some (c, best_file best)
    ]

abbrev pub is_manual : AlternativeStatus → Bool
is_manual alt_st_manual = true
is_manual _ = false

abbrev pub is_auto : AlternativeStatus → Bool
is_auto alt_st_auto = true
is_auto _ = false

unfoldable pub alternative_select_mode : System → Alternative → Option CString → Files → Alternative
unfolding alternative_set_status alternative_has_choice
alternative_select_mode sys a none fs = alternative_set_status a alt_st_auto
alternative_select_mode sys a (some current) fs =
    if alternative_has_choice a current
    then a
    else if sys.missing fs current
    then alternative_set_status a alt_st_auto
    else if is_manual a.status
    then a
    else alternative_set_status a alt_st_manual

unfoldable pub is_current : Option CString → CString → Bool
is_current none path = false
is_current (some current) path = str_eq current path

-- Manual mode ends.
unfoldable pub leave_manual : Alternative → Alternative
unfolding alternative_set_status
leave_manual a = if is_manual a.status then alternative_set_status a alt_st_auto else a

unfoldable pub alternative_remove :
    System → Alternative → Option CString → CString → Files → Option (Alternative × Option CString)
unfolding alternative_remove_choice leave_manual is_current alternative_get_best
alternative_remove sys a current path fs =
    let b = (alternative_remove_choice a path).0 in
    if is_current current path
    then (alternative_get_best sys (leave_manual b) fs >>= λ (c, best). some (c, best_file best))
    else some (b, none)

-- What becomes of the file of the group.
pub data AdminFile : Type 0 where
  unchanged removed : AdminFile
  written : CString → AdminFile

pub record Updated : Type 0 where
  pub alternative : Alternative
  pub files : Files
  pub admin : AdminFile

-- A save that cannot write its text is a fatal error.
unfoldable pub saved_text : Alternative × Option CString → Option (Alternative × AdminFile)
saved_text (a, none) = none
saved_text (a, some text) = some (a, written text)

unfoldable pub save_if_modified : Alternative → Option (Alternative × AdminFile)
unfolding saved_text
save_if_modified a = if a.modified then saved_text (alternative_save a) else some (a, unchanged)

unfoldable pub is_new : Option CString → CString → Bool
is_new none new_choice = true
is_new (some current) new_choice = not (str_eq new_choice current)

-- A current choice that is not known gives way to the best one.
unfoldable pub known_choice :
    System → Alternative → CString → Files → Option (Alternative × CString)
unfolding alternative_has_choice alternative_set_status alternative_get_best
known_choice sys a current fs =
    if alternative_has_choice a current
    then some (a, current)
    else (alternative_get_best sys a fs >>= λ (b, best).
        elim best as (λ _. Option (Alternative × CString)) [
          | none ↦ none
          | some fileset ↦ some (alternative_set_status b alt_st_auto, fileset.master_file)
        ])

unfoldable pub reinstall :
    System → Alternative → Option CString → Files → Option (Alternative × Files)
unfolding known_choice alternative_prepare_install
reinstall sys a none fs = some (a, fs)
reinstall sys a (some current) fs =
    known_choice sys a current fs >>= λ (b, choice). alternative_prepare_install sys b choice fs

abbrev pub is_needed : UpdateReason → Bool
is_needed alt_update_no = false
is_needed _ = true

unfoldable pub repair : System → Alternative → Option CString → Files → Option (Alternative × Files)
unfolding reinstall alternative_needs_update
repair sys a current fs = alternative_needs_update sys a fs >>= λ (b, reason).
    if is_needed reason then reinstall sys b current fs else some (b, fs)

-- The installation of the new choice, or the repair of the links.
unfoldable pub prepare_update :
    System → Alternative → Option CString → Option CString → Files → Option (Alternative × Files)
unfolding alternative_prepare_install repair is_new
prepare_update sys a current none fs = repair sys a current fs
prepare_update sys a current (some new_choice) fs =
    if is_new current new_choice
    then alternative_prepare_install sys a new_choice fs
    else repair sys a current fs

unfoldable pub finish_update : System → Alternative → Files → Option Updated
unfolding save_if_modified alternative_commit
finish_update sys a fs = do
  (b, admin) ← save_if_modified a
  (c, fs') ← alternative_commit sys b fs
  some (record { alternative = c; files = fs'; admin = admin })

unfoldable pub alternative_update :
    System → Alternative → Option CString → Option CString → Files → Option Updated
unfolding prepare_update finish_update alternative_remove_files
alternative_update sys a current new_choice fs = elim a.choices [
  | [] ↦ alternative_remove_files sys a fs >>= λ fs'.
      some (record { alternative = a; files = fs'; admin = removed })
  | ◌∷◌ x xs ↦ prepare_update sys a current new_choice fs >>= λ (b, fs'). finish_update sys b fs'
]

-- The file that a slave's link leads to. The fileset of an installation names a file for every slave of
-- it, so that `fileset_get_slave` gives no null pointer to `xstrdup`.
unfoldable pub target_of : Node → Option CString
target_of (node_symlink target) = some target
target_of _ = none

unfoldable pub slave_target : System → Option CString → SlaveLink → Fileset → Files → Option CString
unfolding target_of is_current
slave_target sys current sl fileset fs =
    if is_current current fileset.master_file
    then fileset_get_slave fileset sl.name
    else target_of (fs (alt_path sys sl.name))

abbrev pub is_symlink : PathStatus → Bool
is_symlink alt_path_symlink = true
is_symlink _ = false

unfoldable pub file_there : System → Option CString → Files → Bool
file_there sys none fs = false
file_there sys (some file) fs = not (sys.missing fs file)

-- A slave link that is a symbolic link under its old path moves to the new one, or goes if its file is
-- missing; a new slave, or one that has moved, is marked.
unfoldable pub evolve_old :
    System → Option CString → SlaveLink → SlaveLink → Fileset → Files → Option (SlaveLink × Files)
unfolding slave_target file_there fsys_mv
evolve_old sys current old sl fileset fs =
    if not (str_eq old.link sl.link) && is_symlink (alternative_path_classify old.link fs)
    then ((if file_there sys (slave_target sys current sl fileset fs) fs
          then fsys_mv sys old.link sl.link fs
          else fsys_rm old.link fs)
        >>= λ fs'. some (record sl { updated = true }, fs'))
    else some (sl, fs)

unfoldable pub evolve_found :
    System
    → Option CString
    → Option SlaveLink
    → SlaveLink
    → Fileset
    → Files
    → Option (SlaveLink × Files)
unfolding evolve_old
evolve_found sys current none sl fileset fs = some (record sl { updated = true }, fs)
evolve_found sys current (some old) sl fileset fs = evolve_old sys current old sl fileset fs

unfoldable pub alternative_evolve_slave :
    System → Alternative → Option CString → SlaveLink → Fileset → Files → Option (SlaveLink × Files)
unfolding evolve_found alternative_get_slave
alternative_evolve_slave sys a current sl fileset fs =
    evolve_found sys current (alternative_get_slave a sl.name) sl fileset fs

unfoldable pub evolve_slaves :
    System
    → Alternative
    → Option CString
    → List SlaveLink
    → Fileset
    → Files
    → Option (Alternative × Files)
unfolding alternative_evolve_slave alternative_copy_slave
evolve_slaves sys a current [] fileset fs = some (a, fs)
evolve_slaves sys a current (sl ∷ rest) fileset fs =
    alternative_evolve_slave sys a current sl fileset fs >>= λ (sl', fs').
    evolve_slaves sys (alternative_copy_slave a sl') current rest fileset fs'

-- `link` is the link of `a`, which has one.
unfoldable pub alternative_evolve :
    System
    → Alternative
    → CString
    → CString
    → List SlaveLink
    → Option CString
    → Fileset
    → Files
    → Option (Alternative × Files)
unfolding evolve_slaves fsys_mv alternative_set_link
alternative_evolve sys a link new_link slaves current fileset fs =
    (if is_symlink (alternative_path_classify link fs) && not (str_eq link new_link)
      then fsys_mv sys link new_link fs
      else some fs)
    >>= λ fs'. evolve_slaves sys (alternative_set_link a new_link) current slaves fileset fs'

unfoldable pub evolve_or_new :
    System
    → Alternative
    → Alternative
    → Option CString
    → Fileset
    → Files
    → Option (Alternative × Files)
unfolding alternative_evolve
evolve_or_new sys a inst_alt current fileset fs = elim a.master_link [
  | none ↦ some (inst_alt, fs)
  | some link ↦
      alternative_evolve sys a link (file_of sys inst_alt.master_link) inst_alt.slaves current
        fileset fs
]

-- The choice to take in automatic mode.
unfoldable pub choose_auto :
    System → Alternative → Files → Option (Alternative × Option CString × Files)
unfolding alternative_get_best
choose_auto sys a fs =
    if is_auto a.status
    then (alternative_get_best sys a fs >>= λ (b, best). some (b, best_file best, fs))
    else some (a, none, fs)

unfoldable pub alternative_install :
    System
    → Alternative
    → Alternative
    → Option CString
    → Fileset
    → Files
    → Option (Alternative × Option CString × Files)
unfolding evolve_or_new choose_auto alternative_add_choice
alternative_install sys a inst_alt current fileset fs =
    evolve_or_new sys a inst_alt current fileset fs >>= λ (b, fs').
    choose_auto sys (alternative_add_choice b fileset) fs'
