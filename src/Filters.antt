-- ===== src/Filters.antt =====
-- src/main/filters.c: the path filters that an unpacking obeys. `fnmatch` is a parameter: whether a
-- pattern matches a name.
pub mod LastMatch
use dpkg.Base.{
  CString, in_set, codes, ℕ, ◌+◌, ◌*◌, ◌/◌, Bool, true, false, not, ◌&&◌, ◌||◌, List, [], ◌∷◌, ◌++◌,
  ◌==◌, if◌then◌else◌,
}

pub record FilterNode : Type 0 where
  pub pattern : CString
  pub include : Bool

-- The fields of `struct tar_entry` that the filters read. The name starts with a dot, which the
-- comparisons leave out.
pub record TarEntry : Type 0 where
  pub name : CString
  pub type : ℕ

-- The list from `filter_head` to `filter_tail`.
unfoldable pub filter_add : CString → Bool → List FilterNode → List FilterNode
filter_add pattern include filters = filters ++ record { pattern = pattern; include = include } ∷ []

-- `&ti->name[1]`
abbrev pub name_tail : CString → CString
name_tail [] = []
name_tail (c ∷ s) = s

-- The text before the first wildcard character.
unfoldable pub fixed_part : CString → CString
fixed_part [] = []
fixed_part (c ∷ s) = if in_set c (codes "*?[\\") then [] else c ∷ fixed_part s

-- Without the slashes at its end.
unfoldable pub cons_trimmed : ℕ → CString → CString
cons_trimmed c [] = if c == b'/' then [] else c ∷ []
cons_trimmed c (d ∷ s) = c ∷ d ∷ s

unfoldable pub trim_slashes : CString → CString
unfolding cons_trimmed
trim_slashes [] = []
trim_slashes (c ∷ s) = cons_trimmed c (trim_slashes s)

-- `strncmp(name, p, length of p) == 0`
unfoldable pub starts_with : CString → CString → Bool
starts_with name [] = true
starts_with [] (c ∷ p) = false
starts_with (x ∷ name) (c ∷ p) = x == c && starts_with name p

module _ (fnmatch : CString → CString → Bool) where
  -- The first loop: the last filter that matches decides.
  unfoldable pub skip_loop : CString → Bool → List FilterNode → Bool
  skip_loop name skip [] = skip
  skip_loop name skip (f ∷ rest) =
      skip_loop name (if fnmatch f.pattern name then not f.include else skip) rest

-- The second loop: an inclusion for something at or below the name brings it back.
unfoldable pub reincluded : CString → List FilterNode → Bool
unfolding fixed_part trim_slashes starts_with
reincluded name [] = false
reincluded name (f ∷ rest) =
    f.include && starts_with name (trim_slashes (fixed_part f.pattern)) || reincluded name rest

abbrev pub is_dir_or_symlink : ℕ → Bool
is_dir_or_symlink t = t == b'5' || t == b'2'

unfoldable pub filter_should_skip : (CString → CString → Bool) → List FilterNode → TarEntry → Bool
unfolding skip_loop
filter_should_skip fnmatch [] ti = false
filter_should_skip fnmatch (f ∷ rest) ti =
    let skip = skip_loop fnmatch (name_tail ti.name) false (f ∷ rest) in
    if skip && is_dir_or_symlink ti.type
    then not (reincluded (name_tail ti.name) (f ∷ rest))
    else skip
