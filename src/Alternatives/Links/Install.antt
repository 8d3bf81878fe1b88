-- ===== src/Alternatives/Links/Install.antt =====
-- utils/update-alternatives.c: one link prepared by `alternative_prepare_install_single`, and the commit
-- of its operations.
use dpkg.Base.{
  All, Bool-cases, CString, Distinct, Option, [], ap, false, if◌then◌else◌, inl, inr, refl, some,
  str_eq, true, ◌||◌, ◌∙◌, ◌∷◌, ◌≡◌,
}
use dpkg.Alternatives.Links.{
  Files, Node, System, alt_path, alternative_commit, alternative_path_needs_update,
  alternative_prepare_install_single, node_missing, node_needs_update, node_symlink, prepare_link,
  tmp,
}
use dpkg.Base.Options.{◌>>=◌}
use dpkg.Alternatives.{Alternative}
use dpkg.Alternatives.Links.Paths.{is_directory}
use dpkg.Alternatives.Links.Pending.{
  Leaves, final, first, first_link, named, one-Leaves, ops_one, ops_two, prepared_link,
  prepared_name, run_one, run_two, second, two-Leaves,
}

-- The four paths of a link: its name in the directory of the alternatives, the link itself, and what
-- both are prepared under.
pub record IsReady (sys : System) (fs : Files) (fn link : CString) : Type 0 where
  pub directory_there : sys.missing fs sys.altdir ≡ false
  pub apart : Distinct (λ (p : CString). p) (fn ∷ link ∷ tmp fn ∷ tmp link ∷ [])
  pub no_directories :
      All (λ (p : CString). is_directory (fs p) ≡ false) (fn ∷ link ∷ tmp fn ∷ tmp link ∷ [])

-- What an installation leaves.
pub record IsInstalled (sys : System) (fs fs' : Files) (fn link file : CString) : Type 0 where
  pub name_link : fs' fn ≡ node_symlink file
  pub outer_link :
      fs' link ≡ (if alternative_path_needs_update sys link fn fs then node_symlink fn else fs link)
  pub tmp_gone : fs' (tmp fn) ≡ node_missing
  pub others_kept :
      (q : CString)
      → All (λ (p : CString). str_eq p q ≡ false) (fn ∷ link ∷ tmp fn ∷ tmp link ∷ [])
      → fs' q ≡ fs q

-- The preparation of a link, and the commit of its operations.
abbrev pub install_single :
    System → Alternative → CString → CString → CString → Files → Option (Alternative × Files)
install_single sys a name link file fs =
    alternative_prepare_install_single sys a name link file fs >>= λ (b, fs').
    alternative_commit sys b fs'

module _ (sys : System) (a : Alternative) (name link file : CString) (fs : Files)
    (r : IsReady sys fs (alt_path sys name) link) where
  abbrev fn : CString
  fn = alt_path sys name

  abbrev after_first : Files
  after_first = first sys fs fn link (tmp fn) (tmp link) file r.apart r.no_directories

  abbrev after_second : Files
  after_second = second sys fs fn link (tmp fn) (tmp link) file r.apart r.no_directories

  -- The group with no operations yet.
  abbrev empty : Alternative
  empty = record a { commit_ops = [] }

  needs_first :
      alternative_path_needs_update sys link fn after_first
      ≡ alternative_path_needs_update sys link fn fs
  unfolding alternative_path_needs_update
  needs_first =
      ap (λ n. sys.force || node_needs_update sys n fn)
        (first_link sys fs fn link (tmp fn) (tmp link) file r.apart r.no_directories)

  prepare_one :
      alternative_path_needs_update sys link fn fs ≡ false
      → alternative_prepare_install_single sys empty name link file fs
        ≡ some (
          ops_one sys fs fn link
              (tmp fn)
              (tmp link)
              file
              r.apart
              r.no_directories
              (sys.missing after_first fn)
              empty,
          after_first,
        )
  unfolding alternative_prepare_install_single ops_one
  prepare_one n =
      rw
        (
          r.directory_there,
          prepared_name sys fs fn link (tmp fn) (tmp link) file r.apart r.no_directories,
          needs_first,
          n,
        )
        refl

  prepare_two :
      alternative_path_needs_update sys link fn fs ≡ true
      → alternative_prepare_install_single sys empty name link file fs
        ≡ some (
          ops_two sys fs fn link
              (tmp fn)
              (tmp link)
              file
              r.apart
              r.no_directories
              (sys.missing after_first fn)
              (sys.missing after_second link)
              empty,
          after_second,
        )
  unfolding alternative_prepare_install_single prepare_link ops_two ops_one
  prepare_two n =
      rw
        (
          r.directory_there,
          prepared_name sys fs fn link (tmp fn) (tmp link) file r.apart r.no_directories,
          needs_first,
          n,
          prepared_link sys fs fn link (tmp fn) (tmp link) file r.apart r.no_directories,
        )
        refl

  abbrev one : Alternative
  one =
      record (ops_one sys fs fn link (tmp fn) (tmp link) file r.apart r.no_directories
        (sys.missing after_first fn) empty) { commit_ops = [] }

  abbrev two : Alternative
  two =
      record (ops_two sys fs fn link (tmp fn) (tmp link) file r.apart r.no_directories
        (sys.missing after_first fn) (sys.missing after_second link) empty) { commit_ops = [] }

  installed_one :
      alternative_path_needs_update sys link fn fs ≡ false
      → install_single sys empty name link file fs
        ≡ some (
          one,
          named sys fs fn link (tmp fn) (tmp link) file r.apart r.no_directories after_first,
        )
  unfolding alternative_commit
  installed_one n =
      rw
        (
          prepare_one n,
          run_one sys fs fn link (tmp fn) (tmp link) file r.apart r.no_directories
              (sys.missing after_first fn) a,
        )
        refl

  installed_two :
      alternative_path_needs_update sys link fn fs ≡ true
      → install_single sys empty name link file fs
        ≡ some (two, final sys fs fn link (tmp fn) (tmp link) file r.apart r.no_directories)
  unfolding alternative_commit
  installed_two n =
      rw
        (
          prepare_two n,
          run_two sys fs fn link (tmp fn) (tmp link) file r.apart r.no_directories
              (sys.missing after_first fn) (sys.missing after_second link) a,
        )
        refl

  Leaves-IsInstalled :
      (x : Files) (outer : Node)
      → Leaves sys fs fn link (tmp fn) (tmp link) file r.apart r.no_directories x outer
      → outer ≡ (if alternative_path_needs_update sys link fn fs then node_symlink fn else fs link)
      → IsInstalled sys fs x fn link file
  Leaves-IsInstalled x outer l e = record {
    name_link = l.0;
    outer_link = l.1 ∙ e;
    tmp_gone = l.2;
    others_kept = l.3;
  }

  install_empty :
      (c : Alternative) × (fs' : Files) × (install_single sys empty name link file fs
        ≡ some (c, fs'))
      × IsInstalled sys fs fs' fn link file
  install_empty = elim (Bool-cases (alternative_path_needs_update sys link fn fs)) [
    | inl n ↦ (
      _,
      _,
      installed_two n,
      Leaves-IsInstalled _ _
          (two-Leaves sys fs fn link (tmp fn) (tmp link) file r.apart r.no_directories) (rw n refl),
    )
    | inr n ↦ (
      _,
      _,
      installed_one n,
      Leaves-IsInstalled _ _
          (one-Leaves sys fs fn link (tmp fn) (tmp link) file r.apart r.no_directories) (rw n refl),
    )
  ]

-- For a group with no pending operations, where the four paths of a link differ, none is a
-- directory and the directory of the alternatives exists, preparing the link and committing
-- succeeds: the name leads to the file, the link leads to the name if it needs an update and is
-- kept otherwise, the temporary name is gone and every other path is kept.
pub install_single-IsInstalled :
    (sys : System) (a : Alternative) (name link file : CString) (fs : Files)
    → a.commit_ops ≡ []
    → IsReady sys fs (alt_path sys name) link
    → (c : Alternative) × (fs' : Files) × (install_single sys a name link file fs ≡ some (c, fs'))
      × IsInstalled sys fs fs' (alt_path sys name) link file
install_single-IsInstalled sys a name link file fs e r =
    let i = install_empty sys a name link file fs r in
    (
      i.0,
      i.1,
      ap (λ k. install_single sys (record a { commit_ops = k }) name link file fs) e ∙ i.2,
      i.3,
    )
