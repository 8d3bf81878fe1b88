-- ===== src/Tests/Packages.antt =====
-- The theorems on architectures, statuses and dependencies at concrete inputs.
use dpkg.Arch.Lines.{IsLineName}
use dpkg.ErrorReports.{
  ErrorReport, Errors, finished, no_errors, reportbroken_retexitstatus, used_after_free,
}
use dpkg.ErrorReports.Listed.{
  enqueue_all, reportbroken_retexitstatus-enqueue_all, reportbroken_retexitstatus-used_after_free,
}
use dpkg.Base.{
  CString, [], arith, codes, false, length, none, refl, some, str_eq, true, ℕ, ◌++◌, ◌<◌, ◌∷◌, ◌≡◌,
}
use dpkg.CType.{c_isalnum}
use dpkg.Arch.{
  ArchList, arch_foreign, arch_list_init, arch_loaded, arch_unknown, dpkg_arch_load_list,
  dpkg_arch_save_list,
}
use dpkg.Arch.Database.{IsAddable, IsArchList, foreign_only, save-load}
use dpkg.Pkg.{PkgSet, installed, instances, notinstalled, nth_status, pkg_set_status, want_install}
use dpkg.Pkg.Count.{IsCounted, count_installed, pkg_set_status-IsCounted}
use dpkg.Names.{arch_char, dpkg_arch_name_is_invalid, first_bad, problem_at}

abbrev two_archs : ArchList
two_archs = record (arch_list_init (codes "amd64")) {
  added =
      record { name = codes "arm64"; type = arch_foreign }
      ∷ record { name = codes "i386"; type = arch_unknown }
      ∷ [];
  dirty = true;
}

arm64-IsAddable : IsAddable (codes "amd64") (codes "arm64")
unfolding dpkg_arch_name_is_invalid first_bad arch_char problem_at c_isalnum str_eq
arm64-IsAddable = record {
  nonempty = λ e. cc;
  valid = refl;
  not_native = refl;
  not_all = refl;
  not_any = refl;
}

two_archs-IsArchList : IsArchList two_archs
unfolding str_eq
two_archs-IsArchList = record {
  native_named = λ e. cc;
  native_type = refl;
  all_type = refl;
  any_type = refl;
  entries = ((refl, λ e. arm64-IsAddable), ((refl, λ e. cc), tt));
  distinct = ((refl, tt), (tt, tt));
}

abbrev one_installed : PkgSet
one_installed = record {
  pkg = record { want = want_install; eflag = 0; status = installed; status_dirty = false };
  arch_next = [];
  installed_instances = 1;
}

one_installed-IsCounted : IsCounted one_installed
unfolding instances count_installed
one_installed-IsCounted = refl

zero-in : 0 < length (instances one_installed)
unfolding instances
zero-in = omega arith

pkg_set_status-IsCounted_example :
    (set' : PkgSet) × (pkg_set_status one_installed 0 notinstalled ≡ some set')
    × IsCounted set'
    × (nth_status (instances set') 0 ≡ notinstalled)
pkg_set_status-IsCounted_example =
    pkg_set_status-IsCounted one_installed 0 notinstalled one_installed-IsCounted zero-in

abbrev no_nodes : ℕ → ErrorReport
no_nodes l = record { next = none; what = none }

reportbroken_retexitstatus-enqueue_all_example :
    let s : Errors =
      enqueue_all 50 ((some 7, codes "dash") ∷ (none, codes "bash") ∷ []) (no_errors no_nodes) in
    reportbroken_retexitstatus 2 0 s
    ≡ finished (codes "dash" ∷ codes "bash" ∷ [], s.abort_processing, 1)
reportbroken_retexitstatus-enqueue_all_example =
    reportbroken_retexitstatus-enqueue_all 50 0 no_nodes (some 7) (codes "dash")
      ((none, codes "bash") ∷ []) 2 ((refl, tt), (tt, tt)) (omega arith)

reportbroken_retexitstatus-used_after_free_example :
    reportbroken_retexitstatus 100 0
      (enqueue_all 50 ((none, codes "dash") ∷ (none, codes "bash") ∷ []) (no_errors no_nodes))
    ≡ used_after_free
reportbroken_retexitstatus-used_after_free_example =
    reportbroken_retexitstatus-used_after_free 50 0 100 no_nodes (codes "dash") (codes "bash")
      (omega arith)

amd64-IsLineName : IsLineName (codes "amd64")
amd64-IsLineName = record { no_newline = refl; no_nul = refl; fits = omega arith }

arm64-IsLineName : IsLineName (codes "arm64")
arm64-IsLineName = record { no_newline = refl; no_nul = refl; fits = omega arith }

save-load_example :
    (text : CString) × (k : ArchList) × ((dpkg_arch_save_list two_archs).0 ≡ some text)
    × (dpkg_arch_load_list (some text) (arch_list_init (codes "amd64")) ≡ arch_loaded k)
    × (k.added ≡ foreign_only two_archs.added)
save-load_example =
    save-load two_archs two_archs-IsArchList (amd64-IsLineName, (arm64-IsLineName, tt)) refl

-- The second line has no newline.
abbrev cut_file : CString
cut_file = codes "arm64" ++ 10 ∷ codes "i386"
