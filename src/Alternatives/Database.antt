-- ===== src/Alternatives/Database.antt =====
-- utils/update-alternatives.c: the file of a link group, loaded.
pub mod Numbers
pub mod Lines
pub mod Slaves
pub mod Filesets
pub mod Tidy
pub mod RoundTrip
pub mod Total
pub mod LongLines
use dpkg.Base.{
  Bool, CString, List, Option, [], codes, false, if◌then◌else◌, leb, length, ltb, none, not, some,
  str_eq, suc, true, zero, ℕ, ◌*◌, ◌++◌, ◌+◌, ◌-◌, ◌==◌, ◌||◌, ◌∷◌,
}
use dpkg.Base.Int.{negsuc, pos, ℤ}
use dpkg.VersionText.{Strtol, strtol}
use dpkg.Alternatives.{
  Alternative, AlternativeStatus, Fileset, SlaveLink, alt_st_auto, alt_st_manual,
  alternative_add_choice, alternative_add_slave, alternative_get_fileset, alternative_get_slave,
  alternative_reset, alternative_set_link, alternative_set_status, fileset_add_slave, fileset_new,
  is_some,
}

-- How a read of the file ends: with a value and the rest of the file, by `altdb_bad_format`, by a
-- write behind the buffer of `altdb_get_line`, or by the end of the fuel.
pub data Read {ℓ} (A : Type ℓ) : Type ℓ where
  ok : A → CString → Read A
  bad_format : Read A
  overrun : Read A
  stuck : Read A

abbrev pub M : Type 0 → Type 0
M A = CString → Read A

abbrev pub pure : {A : Type 0} → A → M A
pure a s = ok a s

abbrev pub bad : {A : Type 0} → M A
bad s = bad_format

abbrev pub after : {A B : Type 0} → Read A → (A → CString → Read B) → Read B
after (ok a r) f = f a r
after bad_format f = bad_format
after overrun f = overrun
after stuck f = stuck

infixl 5 ◌>>=◌ ◌>>◌
abbrev pub ◌>>=◌ : {A B : Type 0} → M A → (A → M B) → M B
◌>>=◌ m f s = after (m s) f

abbrev pub ◌>>◌ : {B : Type 0} → M (Unit {0}) → M B → M B
m >> k = m >>= λ _. k

abbrev pub choose : {A : Type 0} → Bool → M A → M A → M A
choose true m k = m
choose false m k = k

abbrev pub bad_if : Bool → M (Unit {0})
bad_if true s = bad_format
bad_if false s = ok tt s

-- The text up to the next newline, and the rest behind it.
unfoldable pub cons_line : ℕ → Option (CString × CString) → Option (CString × CString)
cons_line c none = none
cons_line c (some (l, r)) = some (c ∷ l, r)

unfoldable pub split_line : CString → Option (CString × CString)
unfolding cons_line
split_line [] = none
split_line (c ∷ s) = if c == 10 then some ([], s) else cons_line c (split_line s)

-- The loop over the calls of `fgets` for a line of `len` bytes with its newline: where the last part
-- starts, and the size of the buffer. `strlen(line)` is read after `realloc`, which may have moved the
-- buffer; it is taken as the length of the last part, as if the buffer had stayed.
unfoldable pub grow : ℕ → ℕ → ℕ → ℕ → ℕ × ℕ
grow zero len bufsz i = (i, bufsz)
grow (suc f) len bufsz i =
    let rest = grow f len (bufsz * 2) (bufsz - 1) in
    if leb len (bufsz - 1) then (i, bufsz) else rest

-- `line[len - 1] = '\0'` is counted from the last part, so that it takes off the newline only where
-- there is one part.
unfoldable pub strip_newline : ℕ × ℕ → CString → CString → Read CString
strip_newline (i, bufsz) line rest =
    if i == 0
    then ok line rest
    else if ltb (i + length line) bufsz
    then ok (line ++ 10 ∷ []) rest
    else overrun

unfoldable pub line_result : Option (CString × CString) → Read CString
unfolding strip_newline grow
line_result none = bad_format
line_result (some (line, rest)) =
    strip_newline (grow (length line) (length line + 1) 1024 0) line rest

-- The file holds no NUL.
unfoldable pub altdb_get_line : M CString
unfolding line_result split_line
altdb_get_line s = line_result (split_line s)

abbrev pub is_empty : CString → Bool
is_empty [] = true
is_empty (c ∷ s) = false

-- Whether a slave has the link.
unfoldable pub has_link : List SlaveLink → CString → Bool
has_link [] link = false
has_link (sl ∷ rest) link = str_eq link sl.link || has_link rest link

unfoldable pub same_link : Option CString → CString → Bool
same_link none link = false
same_link (some l) link = str_eq link l

-- The part behind the name.
unfoldable pub parse_slave_link : Alternative → CString → M (Option Alternative)
unfolding has_link same_link
parse_slave_link a name = do
  bad_if (is_some (alternative_get_slave a name))
  link ← altdb_get_line
  bad_if (same_link a.master_link link)
  bad_if (has_link a.slaves link)
  pure (some (alternative_add_slave a name link))

-- `none` is the end of the list.
unfoldable pub alternative_parse_slave : Alternative → M (Option Alternative)
unfolding parse_slave_link
alternative_parse_slave a = do
  name ← altdb_get_line
  choose (is_empty name) (pure none) (parse_slave_link a name)

unfoldable pub parse_slaves : ℕ → Alternative → M Alternative
unfolding alternative_parse_slave
parse_slaves zero a s = stuck
parse_slaves (suc f) a s =
    (alternative_parse_slave a >>= λ r. elim r [ none ↦ pure a | some b ↦ parse_slaves f b ]) s

-- The lines of the slaves of a file that is missing.
unfoldable pub skip_slave_files : List SlaveLink → M (Unit {0})
skip_slave_files [] = pure tt
skip_slave_files (sl ∷ rest) = do junk ← altdb_get_line; skip_slave_files rest

unfoldable pub read_slave_files : Fileset → List SlaveLink → M Fileset
read_slave_files fs [] = pure fs
read_slave_files fs (sl ∷ rest) = do
  slave_file ← altdb_get_line
  read_slave_files (fileset_add_slave fs sl.name slave_file) rest

-- `prio < INT_MIN || prio > INT_MAX`
abbrev pub out_of_int : ℤ → Bool
out_of_int (pos n) = ltb 2147483647 n
out_of_int (negsuc n) = ltb 2147483647 n

unfoldable pub bad_priority : CString → Strtol → Bool
bad_priority prio_str r = r.end == 0 || not (r.end == length prio_str)

unfoldable pub bad_range : Strtol → Bool
bad_range r = out_of_int r.number || r.erange

unfoldable pub read_fileset : Alternative → CString → M Alternative
unfolding read_slave_files bad_priority bad_range
read_fileset a master_file = do
  prio_str ← altdb_get_line
  bad_if (bad_priority prio_str (strtol prio_str))
  bad_if (bad_range (strtol prio_str))
  fs ← read_slave_files (fileset_new master_file (strtol prio_str).number) a.slaves
  pure (alternative_add_choice a fs)

unfoldable pub skip_fileset : Alternative → M Alternative
unfolding skip_slave_files
skip_fileset a = do junk ← altdb_get_line; skip_slave_files a.slaves; pure a

abbrev pub is_status : CString → Bool
is_status status = str_eq status (codes "auto") || str_eq status (codes "manual")

abbrev pub status_of : CString → AlternativeStatus
status_of status = if str_eq status (codes "auto") then alt_st_auto else alt_st_manual

-- A group, and `ctx->modified`.
abbrev pub Loading : Type 0
Loading = Alternative × Bool

module _ (missing : CString → Bool) where
  -- The part behind the path of the choice; `missing` is `fsys_pathname_is_missing`.
  unfoldable pub parse_choice : Alternative → Bool → CString → M Loading
  unfolding skip_fileset read_fileset
  parse_choice a modified master_file = do
    bad_if (is_some (alternative_get_fileset a master_file))
    choose (missing master_file) (skip_fileset a >>= λ b. pure (b, true))
        (read_fileset a master_file >>= λ b. pure (b, modified))

  unfoldable pub alternative_parse_fileset : Loading → M (Option Loading)
  unfolding parse_choice
  alternative_parse_fileset (a, modified) = do
    master_file ← altdb_get_line
    choose (is_empty master_file) (pure none)
        (parse_choice a modified master_file >>= λ b. pure (some b))

  unfoldable pub parse_filesets : ℕ → Loading → M Loading
  unfolding alternative_parse_fileset
  parse_filesets zero a s = stuck
  parse_filesets (suc f) a s =
      (alternative_parse_fileset a >>= λ r. elim r [ none ↦ pure a | some b ↦ parse_filesets f b ])
        s

  -- The parts of `alternative_load` that read the file, after `alternative_reset`.
  unfoldable pub parse_group : ℕ → Alternative → M Loading
  unfolding parse_slaves parse_filesets
  parse_group fuel a = do
    status ← altdb_get_line
    bad_if (not (is_status status))
    link ← altdb_get_line
    let b = alternative_set_link (alternative_set_status a (status_of status)) link
    c ← parse_slaves fuel b
    parse_filesets fuel (c, false)

-- What `alternative_load` returns with; `stopped` is a fatal error.
pub data Load : Type 0 where
  loaded not_loaded : Alternative → Load
  stopped load_overrun load_stuck : Load

unfoldable pub load_result : Bool → Alternative → Read Loading → Load
load_result lax a (ok (b, modified) rest) = loaded (record b { modified = modified })
load_result lax a bad_format = if lax then not_loaded (alternative_reset a) else stopped
load_result lax a overrun = load_overrun
load_result lax a stuck = load_stuck

-- The group with the status that the first line sets, if it is one.
unfoldable pub set_read_status : Alternative → Read CString → Alternative
set_read_status a (ok status rest) =
    if is_status status then alternative_set_status a (status_of status) else a
set_read_status a _ = a

-- The file is `none` if it does not exist. An error of the lax parser resets the group, but not the
-- status that was read before it.
unfoldable pub alternative_load : (CString → Bool) → Alternative → Bool → Option CString → Load
unfolding load_result parse_group set_read_status
alternative_load missing a lax none = not_loaded a
alternative_load missing a lax (some []) = not_loaded (alternative_reset a)
alternative_load missing a lax (some (c ∷ s)) =
    load_result lax (set_read_status a (altdb_get_line (c ∷ s)))
      (parse_group missing (length (c ∷ s)) (alternative_reset a) (c ∷ s))
