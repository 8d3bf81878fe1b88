-- ===== src/Arch.antt =====
-- lib/dpkg/arch.c: the list of architectures.
pub mod Find
pub mod Lines
pub mod Database
use dpkg.Base.{
  Bool, CString, List, Option, [], codes, false, if◌then◌else◌, length, none, not, some, str_eq,
  suc, true, zero, ℕ, ◌++◌, ◌-◌, ◌==◌, ◌∷◌,
}
use dpkg.Names.{NameProblem, dpkg_arch_name_is_invalid}

-- The constructors of `enum dpkg_arch_type`.
pub data ArchType : Type 0 where
  arch_none arch_empty arch_invalid arch_wildcard arch_all arch_native arch_foreign : ArchType
  arch_unknown : ArchType

pub record DpkgArch : Type 0 where
  pub name : CString
  pub type : ArchType

-- The linked list from `arch_head`, and the flag `arch_list_dirty`. The first three items are the
-- built-in ones: `arch_item_native`, `arch_item_all` and `arch_item_any`.
pub record ArchList : Type 0 where
  pub native : DpkgArch
  pub all : DpkgArch
  pub any : DpkgArch
  pub added : List DpkgArch
  pub dirty : Bool

-- A pointer to an architecture: one of the two special items, a built-in one, or the item at a place
-- behind the built-in ones.
pub data ArchRef : Type 0 where
  item_none item_empty item_native item_all item_any : ArchRef
  item_added : ℕ → ArchRef

abbrev pub arch_list_init : CString → ArchList
arch_list_init architecture = record {
  native = record { name = architecture; type = arch_native };
  all = record { name = codes "all"; type = arch_all };
  any = record { name = codes "any"; type = arch_wildcard };
  added = [];
  dirty = false;
}

-- The loop of `dpkg_arch_find` over the added items.
unfoldable pub find_added : CString → ℕ → List DpkgArch → Option ℕ
find_added name i [] = none
find_added name i (a ∷ rest) = if str_eq a.name name then some i else find_added name (suc i) rest

-- The type of a new item.
unfoldable pub new_type : Option NameProblem → ArchType
new_type none = arch_unknown
new_type (some _) = arch_invalid

-- `dpkg_arch_new`, linked behind the last item.
unfoldable pub dpkg_arch_new : CString → ArchType → ArchList → ArchRef × ArchList
dpkg_arch_new name type l = (
  item_added (length l.added),
  record l { added = l.added ++ record { name = name; type = type } ∷ [] },
)

-- The end of the loop: a hit, or a new item.
unfoldable pub find_result : CString → Option ℕ → ArchList → ArchRef × ArchList
unfolding dpkg_arch_new new_type
find_result name (some i) l = (item_added i, l)
find_result name none l = dpkg_arch_new name (new_type (dpkg_arch_name_is_invalid name)) l

unfoldable pub dpkg_arch_find : Option CString → ArchList → ArchRef × ArchList
dpkg_arch_find none l = (item_none, l)
dpkg_arch_find (some []) l = (item_empty, l)
dpkg_arch_find (some (c ∷ s)) l =
    if str_eq l.native.name (c ∷ s)
    then (item_native, l)
    else if str_eq l.all.name (c ∷ s)
    then (item_all, l)
    else if str_eq l.any.name (c ∷ s)
    then (item_any, l)
    else find_result (c ∷ s) (find_added (c ∷ s) 0 l.added) l

-- `none` is the internal error: the type is not unique.
unfoldable pub dpkg_arch_get : ArchType → Option ArchRef
dpkg_arch_get arch_none = some item_none
dpkg_arch_get arch_empty = some item_empty
dpkg_arch_get arch_wildcard = some item_any
dpkg_arch_get arch_all = some item_all
dpkg_arch_get arch_native = some item_native
dpkg_arch_get arch_invalid = none
dpkg_arch_get arch_foreign = none
dpkg_arch_get arch_unknown = none

-- `arch_builtin_tail->next = NULL`
unfoldable pub dpkg_arch_reset_list : ArchList → ArchList
dpkg_arch_reset_list l = record l { added = []; dirty = false }

unfoldable pub nth_added : List DpkgArch → ℕ → DpkgArch
nth_added [] i = record { name = []; type = arch_none }
nth_added (a ∷ rest) zero = a
nth_added (a ∷ rest) (suc i) = nth_added rest i

-- The item that a pointer refers to.
unfoldable pub deref : ArchList → ArchRef → DpkgArch
unfolding nth_added
deref l item_none = record { name = []; type = arch_none }
deref l item_empty = record { name = []; type = arch_empty }
deref l item_native = l.native
deref l item_all = l.all
deref l item_any = l.any
deref l (item_added i) = nth_added l.added i

unfoldable pub set_type : List DpkgArch → ℕ → ArchType → List DpkgArch
set_type [] i t = []
set_type (a ∷ rest) zero t = record a { type = t } ∷ rest
set_type (a ∷ rest) (suc i) t = a ∷ set_type rest i t

abbrev pub is_unknown : ArchType → Bool
is_unknown arch_unknown = true
is_unknown _ = false

abbrev pub is_foreign : ArchType → Bool
is_foreign arch_foreign = true
is_foreign _ = false

-- Only an added item can have type `arch_unknown`; the others have the types of their initialisers.
unfoldable pub mark_foreign : ArchRef → ArchList → ArchList
mark_foreign (item_added i) l =
    if is_unknown (nth_added l.added i).type
    then record l { added = set_type l.added i arch_foreign; dirty = true }
    else l
mark_foreign _ l = l

unfoldable pub dpkg_arch_add : Option CString → ArchList → ArchRef × ArchList
dpkg_arch_add name l = let (r, l') = dpkg_arch_find name l in (r, mark_foreign r l')

-- The loop runs over the items behind the built-in ones.
unfoldable pub dpkg_arch_unmark : ArchRef → ArchList → ArchList
dpkg_arch_unmark (item_added i) l =
    if is_foreign (nth_added l.added i).type
    then record l { added = set_type l.added i arch_unknown; dirty = true }
    else l
dpkg_arch_unmark _ l = l

-- What `varbuf_add_archqual` appends to its buffer.
unfoldable pub archqual : ArchType → CString → CString
archqual arch_none name = []
archqual arch_empty name = []
archqual _ name = b':' ∷ name

unfoldable pub varbuf_add_archqual : CString → DpkgArch → CString
unfolding archqual
varbuf_add_archqual vb arch = vb ++ archqual arch.type arch.name

unfoldable pub describe_type : ArchType → CString → CString
describe_type arch_none name = codes "<none>"
describe_type arch_empty name = codes "<empty>"
describe_type _ name = name

unfoldable pub dpkg_arch_describe : DpkgArch → CString
unfolding describe_type
dpkg_arch_describe arch = describe_type arch.type arch.name

-- A line read from the file of the native architecture, without its newline.
unfoldable pub without_newline : CString → CString
without_newline [] = []
without_newline (c ∷ []) = if c == 10 then [] else c ∷ []
without_newline (c ∷ d ∷ s) = c ∷ without_newline (d ∷ s)

-- `dpkg_arch_load_native`: whether a root directory is set, and what `file_slurp` gives, `none` being
-- a failure.
unfoldable pub dpkg_arch_load_native : Bool → Option CString → ArchList → ArchList
dpkg_arch_load_native false slurped l = l
dpkg_arch_load_native true none l = l
dpkg_arch_load_native true (some []) l = l
dpkg_arch_load_native true (some (c ∷ s)) l = record l {
  native = record { name = without_newline (c ∷ s); type = l.native.type };
}

-- `fgets` with room for a number of characters: those read, up to a newline, and the rest.
unfoldable pub fgets : ℕ → CString → CString × CString
fgets zero s = ([], s)
fgets (suc room) [] = ([], [])
fgets (suc room) (c ∷ s) =
    let (line, rest) = fgets room s in if c == 10 then (c ∷ [], s) else (c ∷ line, rest)

-- What a buffer holds as a string: the characters before the first NUL.
unfoldable pub until_nul : CString → CString
until_nul [] = []
until_nul (c ∷ s) = if c == 0 then [] else c ∷ until_nul s

-- The string without the newline at its end; `none` if it has none there.
unfoldable pub chomp : CString → Option CString
chomp [] = none
chomp (c ∷ []) = if c == 10 then some [] else none
chomp (c ∷ d ∷ s) = elim (chomp (d ∷ s)) [ none ↦ none | some line ↦ some (c ∷ line) ]

-- A line, the end of the file, or a fatal error: an empty string, a line that does not fit, or a
-- missing newline.
pub data FgetsChecked : Type 0 where
  got : CString → CString → FgetsChecked
  at_end bad_line : FgetsChecked

abbrev pub got_line : CString → Option CString → FgetsChecked
got_line rest none = bad_line
got_line rest (some line) = got line rest

-- The buffer has room for one character less than its size.
unfoldable pub fgets_checked : ℕ → CString → FgetsChecked
unfolding fgets until_nul chomp
fgets_checked bufsz [] = at_end
fgets_checked bufsz (c ∷ s) =
    let (buf, rest) = fgets (bufsz - 1) (c ∷ s) in got_line rest (chomp (until_nul buf))

-- `_POSIX2_LINE_MAX`
abbrev pub line_max : ℕ
line_max = 2048

-- How loading ends: with a list, by a fatal error, or at the end of the fuel.
pub data ArchLoad : Type 0 where
  arch_loaded : ArchList → ArchLoad
  arch_failed arch_stuck : ArchLoad

-- The loop over the lines of the database.
unfoldable pub load_lines : ℕ → CString → ArchList → ArchLoad
unfolding fgets_checked
load_lines zero [] l = arch_loaded l
load_lines zero (c ∷ s) l = arch_stuck
load_lines (suc fuel) s l = elim (fgets_checked line_max s) [
  | at_end ↦ arch_loaded l
  | bad_line ↦ arch_failed
  | got name rest ↦ load_lines fuel rest (dpkg_arch_add (some name) l).1
]

-- The part of `dpkg_arch_load_list` behind `dpkg_arch_load_native`; `none` is a file that cannot be
-- opened.
unfoldable pub dpkg_arch_load_list : Option CString → ArchList → ArchLoad
unfolding load_lines
dpkg_arch_load_list none l = arch_loaded (record l { dirty = true })
dpkg_arch_load_list (some file) l = load_lines (length file) file l

abbrev pub is_saved : ArchType → Bool
is_saved arch_foreign = true
is_saved arch_native = true
is_saved _ = false

-- What is written for the items.
unfoldable pub saved_text : List DpkgArch → CString
saved_text [] = []
saved_text (a ∷ rest) = if is_saved a.type then a.name ++ 10 ∷ saved_text rest else saved_text rest

-- `dpkg_arch_save_list`: the text written, or `none` if the list is clean and nothing is written.
unfoldable pub dpkg_arch_save_list : ArchList → Option CString × ArchList
unfolding saved_text
dpkg_arch_save_list l =
    if not l.dirty
    then (none, l)
    else (some (saved_text (l.native ∷ l.all ∷ l.any ∷ l.added)), record l { dirty = false })
