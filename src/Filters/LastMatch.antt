-- ===== src/Filters/LastMatch.antt =====
-- src/main/filters.c: which filter decides on an entry.
use dpkg.Base.{
  CString, ◌≡◌, refl, ◌∙◌, Bool, true, false, not, ◌&&◌, ◌||◌, List, [], ◌∷◌, ◌++◌, arith,
  if◌then◌else◌,
}
use dpkg.Filters.{
  FilterNode, TarEntry, filter_add, name_tail, fixed_part, trim_slashes, starts_with, skip_loop,
  reincluded, is_dir_or_symlink, filter_should_skip,
}

module _ (fnmatch : CString → CString → Bool) where
  skip_loop-add :
      (name : CString) (skip : Bool) (fs : List FilterNode) (f : FilterNode)
      → skip_loop fnmatch name skip (fs ++ f ∷ [])
        ≡ (if fnmatch f.pattern name then not f.include else skip_loop fnmatch name skip fs)
  unfolding skip_loop
  skip_loop-add name skip [] f = refl
  skip_loop-add name skip (g ∷ fs) f =
      skip_loop-add name (if fnmatch g.pattern name then not g.include else skip) fs f

  plain_entry :
      (fs : List FilterNode) (ti : TarEntry)
      → is_dir_or_symlink ti.type ≡ false
      → filter_should_skip fnmatch fs ti ≡ skip_loop fnmatch (name_tail ti.name) false fs
  plain_entry [] ti h = unfold filter_should_skip in refl
  plain_entry (f ∷ fs) ti h =
      unfold filter_should_skip in
      plain (skip_loop fnmatch (name_tail ti.name) false (f ∷ fs)) _ _ h
    where
      plain : (s d r : Bool) → d ≡ false → (if s && d then not r else s) ≡ s
      plain s d r h = ground arith

  -- For an entry that is no directory and no symbolic link, a filter added last decides whether it
  -- is skipped if it matches, and changes nothing if it does not, for every fnmatch.
  pub filter_should_skip-filter_add :
      (fs : List FilterNode) (pattern : CString) (include : Bool) (ti : TarEntry)
      → is_dir_or_symlink ti.type ≡ false
      → filter_should_skip fnmatch (filter_add pattern include fs) ti ≡ (
          if fnmatch pattern (name_tail ti.name)
          then not include
          else filter_should_skip fnmatch fs ti)
  filter_should_skip-filter_add fs pattern include ti h =
      plain_entry (filter_add pattern include fs) ti h
      ∙ unfold filter_add in
        skip_loop-add (name_tail ti.name) false fs _ ∙ rw (plain_entry fs ti h) refl

starts_with-append : (p t : CString) → starts_with (p ++ t) p ≡ true
unfolding starts_with
starts_with-append [] t = refl
starts_with-append (c ∷ p) t = ground (arith, starts_with-append p t)

reincluded-append :
    (name : CString) (fs gs : List FilterNode) (f : FilterNode)
    → f.include ≡ true
    → starts_with name (trim_slashes (fixed_part f.pattern)) ≡ true
    → reincluded name (fs ++ f ∷ gs) ≡ true
unfolding reincluded
reincluded-append name [] gs f h k = rw (h, k) refl
reincluded-append name (g ∷ fs) gs f h k = rw (reincluded-append name fs gs f h k) (or_true _)
  where
    or_true : (b : Bool) → (b || true) ≡ true
    or_true b = ground arith

-- A directory or symbolic link is kept if the text of some inclusion before its first wildcard,
-- without the slashes at its end, is a prefix of its name, whatever the exclusions say.
pub filter_should_skip_reincluded :
    (fnmatch : CString → CString → Bool) (fs gs : List FilterNode) (f : FilterNode) (ti : TarEntry)
    (t : CString)
    → is_dir_or_symlink ti.type ≡ true
    → f.include ≡ true
    → name_tail ti.name ≡ trim_slashes (fixed_part f.pattern) ++ t
    → filter_should_skip fnmatch (fs ++ f ∷ gs) ti ≡ false
filter_should_skip_reincluded fnmatch fs gs f ti t d h e = kept (fs ++ f ∷ gs) (
    reincluded-append (name_tail ti.name) fs gs f h
      (rw e (starts_with-append (trim_slashes (fixed_part f.pattern)) t)))
  where
    brought_back : (s : Bool) → (if s && true then false else s) ≡ false
    brought_back s = ground arith

    kept :
        (all : List FilterNode)
        → reincluded (name_tail ti.name) all ≡ true
        → filter_should_skip fnmatch all ti ≡ false
    kept [] r = unfold filter_should_skip in refl
    kept (g ∷ all) r =
        unfold filter_should_skip in
        rw (d, r) (brought_back (skip_loop fnmatch (name_tail ti.name) false (g ∷ all)))
