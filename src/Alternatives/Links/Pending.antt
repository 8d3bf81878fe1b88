-- ===== src/Alternatives/Links/Pending.antt =====
-- utils/update-alternatives.c: the pending operations of one link, and their commit.
use dpkg.Base.{
  All, Bool, CString, Distinct, [], ap, false, refl, some, str_eq, str_eq_comm, true, ◌∙◌, ◌∷◌, ◌≡◌,
}
use dpkg.Alternatives.Links.{
  Files, Node, System, add_commit_op_if, alternative_add_commit_op, commit_all, commit_op, fsys_mv,
  fsys_symlink, node_missing, node_symlink,
}
use dpkg.Alternatives.{Alternative, opcode_mv, opcode_ref_time}
use dpkg.Alternatives.Links.Paths.{
  fsys_mv_ok, fsys_symlink_ok, is_directory, linked, linked_other, linked_same, moved, moved_dst,
  moved_other, moved_src,
}

module _ (sys : System) (fs : Files) (fn link tfn tlink file : CString)
    (apart : Distinct (λ (p : CString). p) (fn ∷ link ∷ tfn ∷ tlink ∷ []))
    (free : All (λ (p : CString). is_directory (fs p) ≡ false) (fn ∷ link ∷ tfn ∷ tlink ∷ [])) where
  abbrev pub first : Files
  first = linked file tfn fs

  abbrev pub second : Files
  second = linked fn tlink first

  abbrev pub named : Files → Files
  named x = moved file tfn fn x

  abbrev pub final : Files
  final = moved fn tlink link (named second)

  -- The facts that a move of the name's link needs, in either state.
  named_ok :
      (x : Files) → x tfn ≡ node_symlink file → x fn ≡ fs fn → fsys_mv sys tfn fn x ≡ some (named x)
  named_ok x e f =
      fsys_mv_ok sys tfn fn file x e (ap is_directory f ∙ free.0)
        (str_eq_comm tfn fn ∙ (apart.0).1.0)

  first_fn : first fn ≡ fs fn
  first_fn = linked_other file tfn fn fs (str_eq_comm tfn fn ∙ (apart.0).1.0)

  pub first_link : first link ≡ fs link
  first_link = linked_other file tfn link fs (str_eq_comm tfn link ∙ (apart.1.0).0)

  first_tlink : first tlink ≡ fs tlink
  first_tlink = linked_other file tfn tlink fs (apart.1.1.0).0

  second_tfn : second tfn ≡ node_symlink file
  second_tfn =
      linked_other fn tlink tfn first (str_eq_comm tlink tfn ∙ (apart.1.1.0).0)
      ∙ linked_same file tfn fs

  second-fn : second fn ≡ fs fn
  second-fn = linked_other fn tlink fn first (str_eq_comm tlink fn ∙ (apart.0).1.1.0) ∙ first_fn

  second_link : second link ≡ fs link
  second_link =
      linked_other fn tlink link first (str_eq_comm tlink link ∙ (apart.1.0).1.0) ∙ first_link

  named_tlink : named second tlink ≡ node_symlink fn
  named_tlink =
      moved_other file tfn fn tlink second (apart.1.1.0).0 (apart.0).1.1.0
      ∙ linked_same fn tlink first

  named_link : named second link ≡ fs link
  named_link =
      moved_other file tfn fn link second (str_eq_comm tfn link ∙ (apart.1.0).0) (apart.0).0
      ∙ second_link

  outer_ok : fsys_mv sys tlink link (named second) ≡ some final
  outer_ok =
      fsys_mv_ok sys tlink link fn (named second) named_tlink
        (ap is_directory named_link ∙ free.1.0) (str_eq_comm tlink link ∙ (apart.1.0).1.0)

  pub prepared_name : fsys_symlink file tfn fs ≡ some first
  prepared_name = fsys_symlink_ok file tfn fs free.1.1.0

  pub prepared_link : fsys_symlink fn tlink first ≡ some second
  prepared_link = fsys_symlink_ok fn tlink first (ap is_directory first_tlink ∙ free.1.1.1.0)

  unfoldable pub ops_one : Bool → Alternative → Alternative
  ops_one m b =
      add_commit_op_if m (alternative_add_commit_op b (opcode_mv tfn fn)) (opcode_ref_time fn file)

  unfoldable pub ops_two : Bool → Bool → Alternative → Alternative
  unfolding ops_one
  ops_two m m' b =
      add_commit_op_if m' (alternative_add_commit_op (ops_one m b) (opcode_mv tlink link))
        (opcode_ref_time link fn)

  pub run_one :
      (m : Bool) (b : Alternative)
      → commit_all sys (ops_one m (record b { commit_ops = [] })).commit_ops first
        ≡ some (named first)
  unfolding ops_one alternative_add_commit_op commit_all commit_op
  run_one true b = rw (named_ok first (linked_same file tfn fs) first_fn) refl
  run_one false b = rw (named_ok first (linked_same file tfn fs) first_fn) refl

  pub run_two :
      (m m' : Bool) (b : Alternative)
      → commit_all sys (ops_two m m' (record b { commit_ops = [] })).commit_ops second ≡ some final
  unfolding ops_two ops_one alternative_add_commit_op commit_all commit_op
  run_two true true b = rw (named_ok second second_tfn second-fn, outer_ok) refl
  run_two true false b = rw (named_ok second second_tfn second-fn, outer_ok) refl
  run_two false true b = rw (named_ok second second_tfn second-fn, outer_ok) refl
  run_two false false b = rw (named_ok second second_tfn second-fn, outer_ok) refl

  -- The paths that one move or two moves leave.
  abbrev pub Leaves : Files → Node → Type 0
  Leaves x outer =
      (x fn ≡ node_symlink file)
      × (x link ≡ outer)
      × (x tfn ≡ node_missing)
      × ((q : CString)
          → All (λ (p : CString). str_eq p q ≡ false) (fn ∷ link ∷ tfn ∷ tlink ∷ [])
          → x q ≡ fs q)

  pub one-Leaves : Leaves (named first) (fs link)
  one-Leaves = (
    moved_dst file tfn fn first,
    moved_other file tfn fn link first (str_eq_comm tfn link ∙ (apart.1.0).0) (apart.0).0
        ∙ first_link,
    moved_src file tfn fn first (apart.0).1.0,
    λ q h. moved_other file tfn fn q first h.1.1.0 h.0 ∙ linked_other file tfn q fs h.1.1.0,
  )

  pub two-Leaves : Leaves final (node_symlink fn)
  two-Leaves = (
    moved_other fn tlink link fn (named second) (str_eq_comm tlink fn ∙ (apart.0).1.1.0)
          (str_eq_comm link fn ∙ (apart.0).0)
        ∙ moved_dst file tfn fn second,
    moved_dst fn tlink link (named second),
    moved_other fn tlink link tfn (named second) (str_eq_comm tlink tfn ∙ (apart.1.1.0).0)
          (apart.1.0).0
        ∙ moved_src file tfn fn second (apart.0).1.0,
    λ q h.
        moved_other fn tlink link q (named second) h.1.1.1.0 h.1.0
        ∙ moved_other file tfn fn q second h.1.1.0 h.0
        ∙ linked_other fn tlink q first h.1.1.1.0
        ∙ linked_other file tfn q fs h.1.1.0,
  )
