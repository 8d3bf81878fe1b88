-- ===== src/Alternatives/Database/RoundTrip.antt =====
-- utils/update-alternatives.c: a link group saved by `alternative_save` and loaded by
-- `alternative_load`.
use mathlib.Core.List.{map}
use dpkg.Alternatives.Saving.{
  alternative_save, choice_lines, file_lines, file_text, group_lines, group_text, slave_lines, tidy,
}
use dpkg.Base.{
  All, All-append, Bool, CString, List, [], ap, arith, false, length, length-append, none, refl,
  some, str_eq, true, ℕ, ◌++◌, ◌<◌, ◌∙◌, ◌∷◌, ◌≡◌, ◌≢◌, ◌≤◌,
}
use dpkg.Alternatives.{
  Alternative, AlternativeStatus, Fileset, SlaveLink, alt_st_auto, alt_st_manual, alt_st_unknown,
  alternative_reset, alternative_set_link, alternative_set_status, alternative_status_string,
  fileset_get_slave, find_fileset, find_slave, same_status,
}
use dpkg.Alternatives.Database.{
  Read, altdb_get_line, alternative_load, has_link, is_status, load_result, loaded, parse_filesets,
  parse_group, parse_slaves, set_read_status, status_of,
}
use dpkg.Alternatives.Database.Numbers.{int_text-IsLine}
use dpkg.Alternatives.Database.Lines.{
  IsLine, altdb_get_line-line, length-unlines, print_lines-unlines, unlines,
}
use dpkg.Alternatives.Database.Slaves.{AreNew, IsSlave, empty-IsLine, fresh, parse_slaves-lines}
use dpkg.Alternatives.Database.Filesets.{IsChoice, loaded_fileset, parse_filesets-lines}
use dpkg.Alternatives.Database.Tidy.{IsSavable, tidy-IsSavable}

-- The group that is loaded into `b`.
abbrev pub loaded_group : Alternative → CString → Alternative → Alternative
loaded_group b link a = record b {
  master_link = some link;
  current = none;
  status = a.status;
  slaves = map fresh a.slaves;
  choices = map (loaded_fileset a.slaves) a.choices;
  commit_ops = [];
  modified = false;
  known_current = false;
}

slave_lines-IsLine :
    (link : CString) (slaves : List SlaveLink)
    → All (IsSlave link) slaves
    → All IsLine (slave_lines slaves)
unfolding slave_lines
slave_lines-IsLine link [] h = tt
slave_lines-IsLine link (sl ∷ slaves) h =
    ((h.0).name_line, ((h.0).link_line, slave_lines-IsLine link slaves h.1))

file_lines-IsLine :
    (fs : Fileset) (slaves : List SlaveLink)
    → All (λ (sl : SlaveLink). IsLine (file_text (fileset_get_slave fs sl.name))) slaves
    → All IsLine (file_lines fs slaves)
unfolding file_lines
file_lines-IsLine fs [] h = tt
file_lines-IsLine fs (sl ∷ slaves) h = (h.0, file_lines-IsLine fs slaves h.1)

choice_lines-IsLine :
    (missing : CString → Bool) (slaves : List SlaveLink) (choices : List Fileset)
    → All (IsChoice missing slaves) choices
    → All IsLine (choice_lines slaves choices)
unfolding choice_lines
choice_lines-IsLine missing slaves [] h = tt
choice_lines-IsLine missing slaves (fs ∷ choices) h = (
  (h.0).file_line,
  (
    int_text-IsLine fs.priority (h.0).in_range,
    All-append IsLine (file_lines fs slaves) (choice_lines slaves choices)
        (file_lines-IsLine fs slaves (h.0).slave_lines)
        (choice_lines-IsLine missing slaves choices h.1),
  ),
)

status-IsLine : (status : AlternativeStatus) → IsLine (alternative_status_string status)
unfolding alternative_status_string
status-IsLine alt_st_unknown = record { no_newline = refl; fits = omega arith }
status-IsLine alt_st_auto = record { no_newline = refl; fits = omega arith }
status-IsLine alt_st_manual = record { no_newline = refl; fits = omega arith }

group_lines-IsLine :
    (missing : CString → Bool) (link : CString) (a : Alternative)
    → IsSavable missing link a
    → All IsLine (group_lines link a)
unfolding group_lines
group_lines-IsLine missing link a v = (
  status-IsLine a.status,
  (
    v.link_line,
    All-append IsLine (slave_lines a.slaves) ([] ∷ (choice_lines a.slaves a.choices ++ [] ∷ []))
        (slave_lines-IsLine link a.slaves v.slaves)
        (
          empty-IsLine,
          All-append IsLine (choice_lines a.slaves a.choices) ([] ∷ [])
              (choice_lines-IsLine missing a.slaves a.choices v.choices) (empty-IsLine, tt),
        ),
  ),
)

status_of-string :
    (status : AlternativeStatus)
    → same_status status alt_st_unknown ≡ false
    → (is_status (alternative_status_string status) ≡ true)
      × (status_of (alternative_status_string status) ≡ status)
unfolding same_status alternative_status_string str_eq
status_of-string alt_st_unknown h = cc
status_of-string alt_st_auto h = (refl, refl)
status_of-string alt_st_manual h = (refl, refl)

length-slave_lines : (slaves : List SlaveLink) → length slaves ≤ length (slave_lines slaves)
unfolding slave_lines
length-slave_lines [] = omega arith
length-slave_lines (sl ∷ slaves) = omega (arith, length-slave_lines slaves)

length-choice_lines :
    (slaves : List SlaveLink) (choices : List Fileset)
    → length choices ≤ length (choice_lines slaves choices)
unfolding choice_lines
length-choice_lines slaves [] = omega arith
length-choice_lines slaves (fs ∷ choices) = omega (
  arith,
  length-choice_lines slaves choices,
  length-append (file_lines fs slaves) (choice_lines slaves choices),
)

none_found :
    (choices : List Fileset) → All (λ (fs : Fileset). find_fileset [] fs.master_file ≡ none) choices
unfolding find_fileset
none_found [] = tt
none_found (fs ∷ choices) = (refl, none_found choices)

all_new : (slaves : List SlaveLink) → AreNew [] slaves
unfolding find_slave has_link
all_new [] = (tt, tt)
all_new (sl ∷ slaves) = ((refl, (all_new slaves).0), (refl, (all_new slaves).1))

enough_fuel :
    (link : CString) (a : Alternative)
    → (length a.slaves < length (unlines (group_lines link a)))
      × (length a.choices < length (unlines (group_lines link a)))
unfolding group_lines
enough_fuel link a =
    let behind = [] ∷ (choice_lines a.slaves a.choices ++ [] ∷ []) in
    let all = length-append (slave_lines a.slaves) behind in
    let some_choices = length-append (choice_lines a.slaves a.choices) ([] ∷ []) in
    let bytes =
      length-unlines
        (alternative_status_string a.status ∷ link ∷ (slave_lines a.slaves ++ behind)) in
    (
      omega (arith, all, some_choices, bytes, length-slave_lines a.slaves),
      omega (arith, all, some_choices, bytes, length-choice_lines a.slaves a.choices),
    )

module _ (missing : CString → Bool) (link : CString) (a : Alternative)
    (v : IsSavable missing link a) (b : Alternative) where
  abbrev started : Alternative
  started = alternative_set_link (alternative_set_status (alternative_reset b) a.status) link

  slaves_read :
      (f : ℕ)
      → length a.slaves < f
      → parse_slaves f started
          (unlines (slave_lines a.slaves ++ [] ∷ (choice_lines a.slaves a.choices ++ [] ∷ [])))
        ≡ Read.ok
            (record started { slaves = map fresh a.slaves })
            (unlines (choice_lines a.slaves a.choices ++ [] ∷ []))
  unfolding alternative_set_link alternative_set_status alternative_reset
  slaves_read f l =
      parse_slaves-lines f started link a.slaves (choice_lines a.slaves a.choices ++ [] ∷ []) l refl
        v.slaves (all_new a.slaves) v.names v.links

  choices_read :
      (f : ℕ)
      → length a.choices < f
      → (m : Bool) × (parse_filesets missing f
            (record started { slaves = map fresh a.slaves }, false)
            (unlines (choice_lines a.slaves a.choices ++ [] ∷ []))
          ≡ Read.ok (record (loaded_group b link a) { modified = m }, false) [])
  unfolding alternative_set_link alternative_set_status alternative_reset unlines
  choices_read f l =
      parse_filesets-lines missing f (record started { slaves = map fresh a.slaves }) false a.slaves
        a.choices [] l refl v.choices v.names v.files (none_found a.choices)

  group_read :
      (m : Bool) × (parse_group missing
          (length (unlines (group_lines link a)))
          (alternative_reset b)
          (unlines (group_lines link a))
        ≡ Read.ok (record (loaded_group b link a) { modified = m }, false) [])
  unfolding parse_group
  group_read =
      let s = status_of-string a.status v.status_set in
      let (m, h) = choices_read (length (unlines (group_lines link a))) (enough_fuel link a).1 in
      let text =
        unlines (slave_lines a.slaves ++ [] ∷ (choice_lines a.slaves a.choices ++ [] ∷ [])) in
      let first : unlines (group_lines link a)
          ≡ alternative_status_string a.status ++ 10 ∷ (link ++ 10 ∷ text) =
        unfold group_lines unlines in refl in
      (
        m,
        ap (parse_group missing (length (unlines (group_lines link a))) (alternative_reset b)) first
            ∙ rw
                (
                  altdb_get_line-line (alternative_status_string a.status) (link ++ 10 ∷ text)
                      (status-IsLine a.status),
                  s.0,
                  altdb_get_line-line link text v.link_line,
                  s.1,
                  slaves_read (length (unlines (group_lines link a))) (enough_fuel link a).0,
                )
                h,
      )

load_set :
    (missing : CString → Bool) (b : Alternative) (lax : Bool) (text : CString)
    → text ≢ []
    → alternative_load missing b lax (some text)
      ≡ load_result lax
          (set_read_status b (altdb_get_line text))
          (parse_group missing (length text) (alternative_reset b) text)
unfolding alternative_load
load_set missing b lax [] n = absurd (n refl)
load_set missing b lax (c ∷ s) n = refl

status_text :
    (status : AlternativeStatus) (rest : CString) → alternative_status_string status ++ rest ≢ []
unfolding alternative_status_string
status_text alt_st_unknown rest e = cc
status_text alt_st_auto rest e = cc
status_text alt_st_manual rest e = cc

group_loaded :
    (missing : CString → Bool) (link : CString) (a b : Alternative) (lax : Bool)
    → IsSavable missing link a
    → alternative_load missing b lax (some (unlines (group_lines link a)))
      ≡ loaded (loaded_group b link a)
unfolding load_result
group_loaded missing link a b lax v =
    let (m, h) = group_read missing link a v b in
    let some_text : unlines (group_lines link a) ≢ [] =
      unfold group_lines unlines in status_text a.status _ in
    let text = unlines (group_lines link a) in
    load_set missing b lax text some_text
    ∙ ap (load_result lax (set_read_status b (altdb_get_line text))) h

-- Let a group have a known status and a link of its own; slaves with non-empty, distinct names and
-- with distinct links other than the link of the group; choices with non-empty, distinct files that
-- all exist and priorities within int; and let the link and every name, link and file be a text of
-- at most 1022 bytes without a newline. Saving it writes a text which, loaded into any group, gives
-- the status, link, slaves and choices of the saved group after the save has dropped the unused
-- slaves and sorted the rest, with an empty file for a slave that a choice does not set.
pub alternative_save-load :
    (missing : CString → Bool) (link : CString) (a b : Alternative) (lax : Bool)
    → IsSavable missing link a
    → (text : CString) × ((alternative_save a).1 ≡ some text)
      × (alternative_load missing b lax (some text) ≡ loaded (loaded_group b link (tidy a)))
unfolding alternative_save group_text
alternative_save-load missing link a b lax v =
    let t = tidy-IsSavable missing link a v in
    (
      unlines (group_lines link (tidy a)),
      ap (group_text (tidy a)) v.link_is
          ∙ print_lines-unlines (group_lines link (tidy a))
              (group_lines-IsLine missing link (tidy a) t),
      group_loaded missing link (tidy a) b lax t,
    )
