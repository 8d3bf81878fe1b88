-- ===== src/Alternatives/Links.antt =====
-- utils/update-alternatives.c: the symbolic links of a group, and the operations that a commit runs.
-- Paths are those below the root directory in use; no two of them stand for one file.
pub mod Paths
pub mod Pending
pub mod Install
use dpkg.Base.{
  Bool, CString, List, Option, [], codes, false, if◌then◌else◌, none, not, some, str_eq, true, ◌&&◌,
  ◌++◌, ◌==◌, ◌||◌, ◌∷◌,
}
use dpkg.Base.Options.{◌>>=◌}
use dpkg.Alternatives.{
  Alternative, CommitOperation, Fileset, SlaveLink, alternative_get_fileset, best_choice,
  fileset_get_slave, fileset_has_slave, opcode_mv, opcode_nop, opcode_ref_time, opcode_rm,
}

-- What stands at a path.
pub data Node : Type 0 where
  node_missing node_regular node_directory : Node
  node_symlink : CString → Node

abbrev pub Files : Type 0
Files = CString → Node

unfoldable pub put_node : Files → CString → Node → Files
put_node fs p n q = if str_eq p q then n else fs q

-- `unlink` of a missing file is no error; of a directory it is.
unfoldable pub unlink_node : Node → Files → CString → Option Files
unlink_node node_directory fs p = none
unlink_node _ fs p = some (put_node fs p node_missing)

unfoldable pub fsys_rm : CString → Files → Option Files
unfolding unlink_node
fsys_rm p fs = unlink_node (fs p) fs p

unfoldable pub fsys_symlink : CString → CString → Files → Option Files
unfolding fsys_rm put_node
fsys_symlink filename linkname fs = do
  cleared ← fsys_rm linkname fs
  some (put_node cleared linkname (node_symlink filename))

unfoldable pub make_dirs : List CString → Files → Files
make_dirs [] fs = fs
make_dirs (dir ∷ rest) fs =
    make_dirs rest (elim (fs dir) [ node_missing ↦ put_node fs dir node_directory | _ ↦ fs ])

-- The texts before each slash but the first, and the whole path.
unfoldable pub dirs_from : CString → CString → List CString
dirs_from before [] = before ∷ []
dirs_from before (c ∷ s) =
    let rest = dirs_from (before ++ c ∷ []) s in if c == b'/' then before ∷ rest else rest

-- A path with no slash gives nothing.
unfoldable pub path_dirs : CString → CString → List CString
unfolding dirs_from
path_dirs before [] = []
path_dirs before (c ∷ s) =
    if c == b'/' then dirs_from (before ++ c ∷ []) s else path_dirs (before ++ c ∷ []) s

unfoldable pub make_path : CString → Files → Files
unfolding make_dirs path_dirs
make_path pathname fs = make_dirs (path_dirs [] pathname) fs

pub data PathStatus : Type 0 where
  alt_path_symlink alt_path_missing alt_path_other : PathStatus

unfoldable pub classify : Node → PathStatus
classify node_missing = alt_path_missing
classify (node_symlink t) = alt_path_symlink
classify _ = alt_path_other

unfoldable pub alternative_path_classify : CString → Files → PathStatus
unfolding classify
alternative_path_classify linkname fs = classify (fs linkname)

abbrev pub tmp : CString → CString
tmp path = path ++ codes ".dpkg-tmp"

abbrev pub is_other : PathStatus → Bool
is_other alt_path_other = true
is_other _ = false

abbrev pub is_missing : PathStatus → Bool
is_missing alt_path_missing = true
is_missing _ = false

unfoldable pub alternative_add_commit_op : Alternative → CommitOperation → Alternative
alternative_add_commit_op a op = record a { commit_ops = a.commit_ops ++ op ∷ [] }

abbrev pub add_commit_op_if : Bool → Alternative → CommitOperation → Alternative
add_commit_op_if true a op = alternative_add_commit_op a op
add_commit_op_if false a op = a

-- What the operations on links use: the program `mv`, whether `stat` finds no file, the directory of
-- the alternatives, and the option to force.
pub record System : Type 0 where
  pub mv : CString → CString → Files → Option Files
  pub missing : Files → CString → Bool
  pub altdir : CString
  pub force : Bool

-- `rename`, by the nodes of both paths, and `mv` where it fails for another reason than a missing
-- source. A directory is left to `mv`.
unfoldable pub rename_mv : System → Node → Node → CString → CString → Files → Option Files
rename_mv sys node_missing d src dst fs = none
rename_mv sys node_directory d src dst fs = sys.mv src dst fs
rename_mv sys s node_directory src dst fs = sys.mv src dst fs
rename_mv sys s d src dst fs =
    if str_eq src dst then some fs else some (put_node (put_node fs src node_missing) dst s)

module _ (sys : System) where
  unfoldable pub fsys_mv : CString → CString → Files → Option Files
  unfolding rename_mv
  fsys_mv src dst fs = rename_mv sys (fs src) (fs dst) src dst fs

  -- A time stamp changes no node.
  unfoldable pub commit_op : CommitOperation → Files → Option Files
  unfolding fsys_mv
  commit_op opcode_nop fs = some fs
  commit_op (opcode_rm p) fs = fsys_rm p fs
  commit_op (opcode_mv src dst) fs = fsys_mv src dst fs
  commit_op (opcode_ref_time linkname target) fs = some fs

  unfoldable pub commit_all : List CommitOperation → Files → Option Files
  commit_all [] fs = some fs
  commit_all (op ∷ rest) fs = commit_op op fs >>= λ fs'. commit_all rest fs'

  unfoldable pub alternative_commit : Alternative → Files → Option (Alternative × Files)
  unfolding commit_all
  alternative_commit a fs =
      commit_all a.commit_ops fs >>= λ fs'. some (record a { commit_ops = [] }, fs')

  -- A file in the directory of the alternatives.
  abbrev pub alt_path : CString → CString
  alt_path name = sys.altdir ++ b'/' ∷ name

  unfoldable pub alternative_path_can_remove : CString → Files → Bool
  alternative_path_can_remove linkname fs =
      sys.force || not (is_other (alternative_path_classify linkname fs))

  unfoldable pub node_needs_update : Node → CString → Bool
  node_needs_update node_missing filename = true
  node_needs_update (node_symlink target) filename = not (str_eq target filename)
  node_needs_update _ filename = false

  unfoldable pub alternative_path_needs_update : CString → CString → Files → Bool
  unfolding node_needs_update
  alternative_path_needs_update linkname filename fs =
      sys.force || node_needs_update (fs linkname) filename

  unfoldable pub fileset_can_install_slave : Fileset → CString → Files → Bool
  fileset_can_install_slave fileset name fs =
      fileset_has_slave fileset name
      && not
          (sys.missing fs (elim (fileset_get_slave fileset name) [ none ↦ [] | some file ↦ file ]))

  -- The link outside the directory of the alternatives.
  unfoldable pub prepare_link :
      Alternative → CString → CString → Files → Option (Alternative × Files)
  unfolding alternative_add_commit_op
  prepare_link a linkname fn fs = do
    fs' ← fsys_symlink fn (tmp linkname) fs
    let b = alternative_add_commit_op a (opcode_mv (tmp linkname) linkname)
    some (add_commit_op_if (sys.missing fs' linkname) b (opcode_ref_time linkname fn), fs')

  abbrev pub prepare_link_if :
      Bool → Alternative → CString → CString → Files → Option (Alternative × Files)
  prepare_link_if true a linkname fn fs = prepare_link a linkname fn fs
  prepare_link_if false a linkname fn fs = some (a, fs)

  unfoldable pub alternative_prepare_install_single :
      Alternative → CString → CString → CString → Files → Option (Alternative × Files)
  unfolding prepare_link alternative_add_commit_op make_path
  alternative_prepare_install_single a name linkname file fs = do
    let made = if sys.missing fs sys.altdir then make_path sys.altdir fs else fs
    let fn = alt_path name
    fs' ← fsys_symlink file (tmp fn) made
    let b = alternative_add_commit_op a (opcode_mv (tmp fn) fn)
    let c = add_commit_op_if (sys.missing fs' fn) b (opcode_ref_time fn file)
    prepare_link_if (alternative_path_needs_update linkname fn fs') c linkname fn fs'

  abbrev pub file_of : Option CString → CString
  file_of none = []
  file_of (some file) = file

  -- The operations that drop a slave.
  unfoldable pub drop_slave : Alternative → SlaveLink → Files → Alternative
  unfolding alternative_add_commit_op
  drop_slave a sl fs =
      alternative_add_commit_op
        (add_commit_op_if (alternative_path_can_remove sl.link fs) a (opcode_rm sl.link))
        (opcode_rm (alt_path sl.name))

  -- One round of the loop over the slaves.
  unfoldable pub prepare_slave :
      Alternative → Fileset → SlaveLink → Files → Option (Alternative × Files)
  unfolding drop_slave alternative_prepare_install_single
  prepare_slave a fileset sl fs =
      if fileset_can_install_slave fileset sl.name fs
      then alternative_prepare_install_single a sl.name sl.link
          (file_of (fileset_get_slave fileset sl.name)) fs
      else some (drop_slave a sl fs, fs)

  unfoldable pub prepare_slaves :
      Fileset → List SlaveLink → Alternative → Files → Option (Alternative × Files)
  unfolding prepare_slave
  prepare_slaves fileset [] a fs = some (a, fs)
  prepare_slaves fileset (sl ∷ rest) a fs =
      prepare_slave a fileset sl fs >>= λ (b, fs'). prepare_slaves fileset rest b fs'

  -- The part with the fileset of the choice; an unknown choice is a fatal error.
  unfoldable pub prepare_fileset :
      Alternative → Option Fileset → CString → CString → Files → Option (Alternative × Files)
  unfolding prepare_slaves alternative_prepare_install_single
  prepare_fileset a none link choice fs = none
  prepare_fileset a (some fileset) link choice fs =
      alternative_prepare_install_single a a.master_name link choice fs >>= λ (b, fs').
      prepare_slaves fileset a.slaves b fs'

  unfoldable pub alternative_prepare_install :
      Alternative → CString → Files → Option (Alternative × Files)
  unfolding prepare_fileset
  alternative_prepare_install a choice fs =
      prepare_fileset a (alternative_get_fileset a choice) (file_of a.master_link) choice fs

  abbrev pub rm_if : Bool → CString → Files → Option Files
  rm_if true path fs = fsys_rm path fs
  rm_if false path fs = some fs

  -- The files of one link and of its name.
  unfoldable pub remove_link : CString → CString → Files → Option Files
  unfolding alternative_path_can_remove
  remove_link link name fs = do
    a ← fsys_rm (tmp link) fs
    b ← rm_if (alternative_path_can_remove link a) link a
    c ← fsys_rm (tmp (alt_path name)) b
    fsys_rm (alt_path name) c

  unfoldable pub remove_slaves : List SlaveLink → Files → Option Files
  unfolding remove_link
  remove_slaves [] fs = some fs
  remove_slaves (sl ∷ rest) fs = remove_link sl.link sl.name fs >>= λ fs'. remove_slaves rest fs'

  -- The file of the group is removed after these.
  unfoldable pub alternative_remove_files : Alternative → Files → Option Files
  unfolding remove_link remove_slaves
  alternative_remove_files a fs =
      remove_link (file_of a.master_link) a.master_name fs >>= λ fs'. remove_slaves a.slaves fs'

  unfoldable pub broken_node : Node → CString → Bool
  broken_node (node_symlink target) ref_target = not (str_eq target ref_target)
  broken_node _ ref_target = true

  unfoldable pub alternative_has_broken_symlink : CString → CString → Files → Bool
  unfolding broken_node
  alternative_has_broken_symlink linkname ref_target fs = broken_node (fs linkname) ref_target

  unfoldable pub alternative_has_broken_slave : SlaveLink → Fileset → Files → Bool
  unfolding alternative_has_broken_symlink
  alternative_has_broken_slave sl fileset fs =
      if fileset_can_install_slave fileset sl.name fs
      then alternative_has_broken_symlink sl.link (alt_path sl.name) fs
        || alternative_has_broken_symlink (alt_path sl.name)
            (file_of (fileset_get_slave fileset sl.name)) fs
      else not (is_missing (alternative_path_classify sl.link fs))
        || not (is_missing (alternative_path_classify (alt_path sl.name) fs))

-- Why an update is needed.
pub data UpdateReason : Type 0 where
  alt_update_no alt_update_slave_changed alt_update_link_broken : UpdateReason

-- The loop over the slaves.
unfoldable pub check_slaves :
    System → List SlaveLink → Fileset → Files → UpdateReason → UpdateReason
check_slaves sys [] fileset fs reason = reason
check_slaves sys (sl ∷ rest) fileset fs reason =
    let later = check_slaves sys rest fileset fs in
    if alternative_has_broken_slave sys sl fileset fs
    then (if sl.updated then later alt_update_slave_changed else alt_update_link_broken)
    else later reason

-- `none` is a path that is neither a link nor missing, a fatal error.
unfoldable pub read_current : Node → Option (Option CString)
read_current (node_symlink target) = some (some target)
read_current node_missing = some none
read_current _ = none

unfoldable pub alternative_set_current : Alternative → Option CString → Alternative
alternative_set_current a new_choice = record a { known_current = true; current = new_choice }

unfoldable pub alternative_get_current :
    System → Alternative → Files → Option (Alternative × Option CString)
unfolding read_current alternative_set_current
alternative_get_current sys a fs =
    if a.known_current
    then some (a, a.current)
    else (read_current (fs (alt_path sys a.master_name)) >>= λ current.
        some (alternative_set_current a current, current))

unfoldable pub alternative_get_best :
    System → Alternative → Files → Option (Alternative × Option Fileset)
unfolding alternative_get_current
alternative_get_best sys a fs =
    alternative_get_current sys a fs >>= λ (b, current). some (b, best_choice b.choices current)

unfoldable pub reason_for : System → Alternative → Option Fileset → Files → UpdateReason
unfolding check_slaves
reason_for sys a none fs = alt_update_no
reason_for sys a (some fileset) fs = check_slaves sys a.slaves fileset fs alt_update_no

unfoldable pub reason_at : System → Alternative → Option CString → Files → UpdateReason
unfolding reason_for
reason_at sys a none fs = alt_update_link_broken
reason_at sys a (some current) fs = reason_for sys a (alternative_get_fileset a current) fs

unfoldable pub alternative_needs_update :
    System → Alternative → Files → Option (Alternative × UpdateReason)
unfolding reason_at
alternative_needs_update sys a fs =
    if alternative_has_broken_symlink sys (file_of sys a.master_link) (alt_path sys a.master_name)
      fs
    then some (a, alt_update_link_broken)
    else (alternative_get_current sys a fs >>= λ (b, current). some (b, reason_at sys b current fs))
