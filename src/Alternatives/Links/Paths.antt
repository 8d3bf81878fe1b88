-- ===== src/Alternatives/Links/Paths.antt =====
-- utils/update-alternatives.c: what `fsys_rm`, `fsys_symlink` and `fsys_mv` do to the nodes of paths.
use dpkg.Base.{Bool, CString, ap, false, refl, some, str_eq, str_eq_refl, true, ◌∙◌, ◌≡◌}
use dpkg.Alternatives.Links.{
  Files, Node, System, fsys_mv, fsys_rm, fsys_symlink, node_directory, node_missing, node_regular,
  node_symlink, put_node, rename_mv, unlink_node,
}

abbrev pub is_directory : Node → Bool
is_directory node_directory = true
is_directory _ = false

fsys_rm_ok :
    (p : CString) (fs : Files)
    → is_directory (fs p) ≡ false
    → fsys_rm p fs ≡ some (put_node fs p node_missing)
unfolding fsys_rm
fsys_rm_ok p fs h = by_node (fs p) h
  where
    by_node :
        (n : Node) → is_directory n ≡ false → unlink_node n fs p ≡ some (put_node fs p node_missing)
    by_node node_missing h = unfold unlink_node in refl
    by_node node_regular h = unfold unlink_node in refl
    by_node node_directory h = cc
    by_node (node_symlink t) h = unfold unlink_node in refl

-- The files with a symbolic link at a path.
abbrev pub linked : CString → CString → Files → Files
linked filename p fs = put_node (put_node fs p node_missing) p (node_symlink filename)

pub fsys_symlink_ok :
    (filename p : CString) (fs : Files)
    → is_directory (fs p) ≡ false
    → fsys_symlink filename p fs ≡ some (linked filename p fs)
unfolding fsys_symlink
fsys_symlink_ok filename p fs h = rw (fsys_rm_ok p fs h) refl

-- The files with a link moved.
abbrev pub moved : CString → CString → CString → Files → Files
moved target src dst fs = put_node (put_node fs src node_missing) dst (node_symlink target)

module _ (sys : System) where
  pub fsys_mv_ok :
      (src dst target : CString) (fs : Files)
      → fs src ≡ node_symlink target
      → is_directory (fs dst) ≡ false
      → str_eq src dst ≡ false
      → fsys_mv sys src dst fs ≡ some (moved target src dst fs)
  unfolding fsys_mv
  fsys_mv_ok src dst target fs e h n =
      ap (λ s. rename_mv sys s (fs dst) src dst fs) e ∙ by_node (fs dst) h
    where
      by_node :
          (d : Node)
          → is_directory d ≡ false
          → rename_mv sys (node_symlink target) d src dst fs ≡ some (moved target src dst fs)
      by_node node_missing h = unfold rename_mv in rw n refl
      by_node node_regular h = unfold rename_mv in rw n refl
      by_node node_directory h = cc
      by_node (node_symlink t) h = unfold rename_mv in rw n refl

put_node_same : (fs : Files) (p : CString) (n : Node) → put_node fs p n p ≡ n
unfolding put_node
put_node_same fs p n = rw (str_eq_refl p) refl

put_node_other :
    (fs : Files) (p q : CString) (n : Node) → str_eq p q ≡ false → put_node fs p n q ≡ fs q
unfolding put_node
put_node_other fs p q n h = rw h refl

pub linked_other : (t p q : CString) (fs : Files) → str_eq p q ≡ false → linked t p fs q ≡ fs q
linked_other t p q fs h =
    put_node_other (put_node fs p node_missing) p q (node_symlink t) h
    ∙ put_node_other fs p q node_missing h

pub linked_same : (t p : CString) (fs : Files) → linked t p fs p ≡ node_symlink t
linked_same t p fs = put_node_same (put_node fs p node_missing) p (node_symlink t)

pub moved_other :
    (t src dst q : CString) (fs : Files)
    → str_eq src q ≡ false
    → str_eq dst q ≡ false
    → moved t src dst fs q ≡ fs q
moved_other t src dst q fs h k =
    put_node_other (put_node fs src node_missing) dst q (node_symlink t) k
    ∙ put_node_other fs src q node_missing h

pub moved_dst : (t src dst : CString) (fs : Files) → moved t src dst fs dst ≡ node_symlink t
moved_dst t src dst fs = put_node_same (put_node fs src node_missing) dst (node_symlink t)

pub moved_src :
    (t src dst : CString) (fs : Files)
    → str_eq dst src ≡ false
    → moved t src dst fs src ≡ node_missing
moved_src t src dst fs h =
    put_node_other (put_node fs src node_missing) dst src (node_symlink t) h
    ∙ put_node_same fs src node_missing
