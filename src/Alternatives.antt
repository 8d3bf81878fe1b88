-- ===== src/Alternatives.antt =====
-- utils/update-alternatives.c: the link groups in memory, and the operations on one of them.
pub mod Best
pub mod Choices
pub mod Removal
pub mod Saving
pub mod Database
pub mod Links
pub mod Actions
use Prim.Native.Nat.{compare, Ordering}
use dpkg.Base.{
  CString, str_eq, strcmp, IsCString, peek, in_set, codes, ℕ, zero, suc, ◌+◌, ◌-◌, ◌*◌, ◌/◌, ◌%◌,
  ◌^◌, ◌≤◌, ◌<◌, ◌≡◌, refl, sym, ap, ◌∙◌, ◌≢◌, ◌↔◌, ◌⊎◌, inl, inr, Bool, true, false, not, ◌&&◌,
  ◌||◌, List, [], ◌∷◌, ◌++◌, Option, none, some, arith, ltb, leb, ◌==◌, ==_iff, if◌then◌else◌,
  Bool-cases, Option-cases, length, take, drop, get_or, All, All-left, All-right, All-append,
  length-append,
}
use dpkg.Base.Int.{ℤ, pos_part, neg_part}

pub record SlaveFile : Type 0 where
  pub name : CString
  pub file : CString

pub record Fileset : Type 0 where
  pub master_file : CString
  pub priority : ℤ
  pub slaves : List SlaveFile

pub record SlaveLink : Type 0 where
  pub name : CString
  pub link : CString
  pub updated : Bool

-- `struct commit_operation`, with the arguments that each operation code uses.
pub data CommitOperation : Type 0 where
  opcode_nop : CommitOperation
  opcode_rm : CString → CommitOperation
  opcode_mv : CString → CString → CommitOperation
  opcode_ref_time : CString → CString → CommitOperation

pub data AlternativeStatus : Type 0 where
  alt_st_unknown alt_st_auto alt_st_manual : AlternativeStatus

-- `struct alternative` but for its reference count; `none` is a null pointer.
pub record Alternative : Type 0 where
  pub master_name : CString
  pub master_link : Option CString
  pub current : Option CString
  pub status : AlternativeStatus
  pub slaves : List SlaveLink
  pub choices : List Fileset
  pub commit_ops : List CommitOperation
  pub modified : Bool
  pub known_current : Bool

unfoldable pub fileset_new : CString → ℤ → Fileset
fileset_new master_file prio = record { master_file = master_file; priority = prio; slaves = [] }

-- Both loops over the files of the slaves: one of the name is replaced, or a new one appended.
unfoldable pub put_slave : List SlaveFile → CString → CString → List SlaveFile
put_slave [] name file = record { name = name; file = file } ∷ []
put_slave (cur ∷ rest) name file =
    if str_eq cur.name name
    then record cur { file = file } ∷ rest
    else cur ∷ put_slave rest name file

unfoldable pub fileset_add_slave : Fileset → CString → CString → Fileset
unfolding put_slave
fileset_add_slave fs name file = record fs { slaves = put_slave fs.slaves name file }

unfoldable pub find_slave_file : List SlaveFile → CString → Option CString
find_slave_file [] name = none
find_slave_file (slave ∷ rest) name =
    if str_eq slave.name name then some slave.file else find_slave_file rest name

unfoldable pub fileset_get_slave : Fileset → CString → Option CString
unfolding find_slave_file
fileset_get_slave fs name = find_slave_file fs.slaves name

-- A file that is neither a null pointer nor empty.
unfoldable pub is_set_file : Option CString → Bool
is_set_file none = false
is_set_file (some []) = false
is_set_file (some (c ∷ s)) = true

unfoldable pub fileset_has_slave : Fileset → CString → Bool
unfolding is_set_file
fileset_has_slave fs name = is_set_file (fileset_get_slave fs name)

abbrev pub alternative_new : CString → Alternative
alternative_new name = record {
  master_name = name;
  master_link = none;
  current = none;
  status = alt_st_unknown;
  slaves = [];
  choices = [];
  commit_ops = [];
  modified = false;
  known_current = false;
}

unfoldable pub alternative_reset : Alternative → Alternative
alternative_reset a = record a {
  current = none;
  master_link = none;
  slaves = [];
  choices = [];
  commit_ops = [];
  modified = false;
  known_current = false;
}

unfoldable pub find_fileset : List Fileset → CString → Option Fileset
find_fileset [] file = none
find_fileset (fs ∷ rest) file =
    if str_eq fs.master_file file then some fs else find_fileset rest file

unfoldable pub alternative_get_fileset : Alternative → CString → Option Fileset
unfolding find_fileset
alternative_get_fileset a file = find_fileset a.choices file

unfoldable pub find_slave : List SlaveLink → CString → Option SlaveLink
find_slave [] name = none
find_slave (sl ∷ rest) name = if str_eq sl.name name then some sl else find_slave rest name

unfoldable pub alternative_get_slave : Alternative → CString → Option SlaveLink
unfolding find_slave
alternative_get_slave a name = find_slave a.slaves name

abbrev pub is_some {ℓ} : {A : Type ℓ} → Option A → Bool
is_some none = false
is_some (some x) = true

unfoldable pub alternative_has_choice : Alternative → CString → Bool
unfolding alternative_get_fileset
alternative_has_choice a file = is_some (alternative_get_fileset a file)

-- The loop over the choices: one of the same file is replaced, or the new one appended.
unfoldable pub put_choice : List Fileset → Fileset → List Fileset
put_choice [] fs = fs ∷ []
put_choice (cur ∷ rest) fs =
    if str_eq cur.master_file fs.master_file then fs ∷ rest else cur ∷ put_choice rest fs

unfoldable pub alternative_add_choice : Alternative → Fileset → Alternative
unfolding put_choice
alternative_add_choice a fs = record a { choices = put_choice a.choices fs; modified = true }

-- The loop over the slave links: the link of an old one is replaced, or a new one appended. The flag
-- of an old one is kept.
unfoldable pub put_link : List SlaveLink → CString → CString → List SlaveLink
put_link [] name link = record { name = name; link = link; updated = false } ∷ []
put_link (sl ∷ rest) name link =
    if str_eq sl.name name then record sl { link = link } ∷ rest else sl ∷ put_link rest name link

unfoldable pub alternative_add_slave : Alternative → CString → CString → Alternative
unfolding put_link
alternative_add_slave a name link = record a { slaves = put_link a.slaves name link }

-- The flag of the slave link that was added.
unfoldable pub set_updated : List SlaveLink → CString → Bool → List SlaveLink
set_updated [] name updated = []
set_updated (sl ∷ rest) name updated =
    if str_eq sl.name name
    then record sl { updated = updated } ∷ rest
    else sl ∷ set_updated rest name updated

unfoldable pub alternative_copy_slave : Alternative → SlaveLink → Alternative
unfolding put_link set_updated
alternative_copy_slave a sl = record a {
  slaves = set_updated (put_link a.slaves sl.name sl.link) sl.name sl.updated;
}

unfoldable pub alternative_status_string : AlternativeStatus → CString
alternative_status_string alt_st_auto = codes "auto"
alternative_status_string _ = codes "manual"

unfoldable pub same_status : AlternativeStatus → AlternativeStatus → Bool
same_status alt_st_unknown alt_st_unknown = true
same_status alt_st_auto alt_st_auto = true
same_status alt_st_manual alt_st_manual = true
same_status _ _ = false

unfoldable pub alternative_set_status : Alternative → AlternativeStatus → Alternative
unfolding same_status
alternative_set_status a status = record a {
  modified =
      if same_status a.status alt_st_unknown || not (same_status status a.status)
      then true
      else a.modified;
  status = status;
}

unfoldable pub link_changes : Option CString → CString → Bool
link_changes none linkname = true
link_changes (some old) linkname = not (str_eq linkname old)

unfoldable pub alternative_set_link : Alternative → CString → Alternative
unfolding link_changes
alternative_set_link a linkname = record a {
  modified = if link_changes a.master_link linkname then true else a.modified;
  master_link = some linkname;
}

-- The choices without the first one of the file, and whether there is one.
unfoldable pub drop_choice : List Fileset → CString → List Fileset
drop_choice [] file = []
drop_choice (fs ∷ rest) file =
    if str_eq fs.master_file file then rest else fs ∷ drop_choice rest file

unfoldable pub alternative_remove_choice : Alternative → CString → Alternative × Bool
unfolding drop_choice alternative_has_choice
alternative_remove_choice a file =
    if alternative_has_choice a file
    then (record a { choices = drop_choice a.choices file; modified = true }, true)
    else (a, false)

-- `a > b` on priorities.
abbrev pub above : ℤ → ℤ → Bool
above a b = ltb (pos_part b + neg_part a) (pos_part a + neg_part b)

-- The loop of `alternative_get_best`.
unfoldable pub best_of : Fileset → List Fileset → Fileset
best_of best [] = best
best_of best (fs ∷ rest) = best_of (if above fs.priority best.priority then fs else best) rest

-- Where the loop starts: the current choice if it is known, or the first one.
unfoldable pub first_of : Option Fileset → List Fileset → Option Fileset
first_of (some fs) choices = some fs
first_of none [] = none
first_of none (fs ∷ rest) = some fs

unfoldable pub current_choice : List Fileset → Option CString → Option Fileset
current_choice choices none = none
current_choice choices (some file) = find_fileset choices file

unfoldable pub best_from : Option Fileset → List Fileset → Option Fileset
unfolding best_of
best_from none choices = none
best_from (some start) choices = some (best_of start choices)

-- The part of `alternative_get_best` behind the call that reads the current link.
unfoldable pub best_choice : List Fileset → Option CString → Option Fileset
unfolding first_of current_choice best_from
best_choice choices current = best_from (first_of (current_choice choices current) choices) choices
