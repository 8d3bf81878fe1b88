-- ===== src/Depcon.antt =====
-- lib/dpkg/depcon.c: whether a package meets the version and the architecture of a dependency.
pub mod Rules
use dpkg.Base.{Bool, true, false, not, ◌&&◌, ◌||◌, Option, some, ◌==◌, if◌then◌else◌}
use dpkg.Arch.{
  ArchType, arch_none, arch_all, arch_wildcard, ArchList, ArchRef, item_none, item_empty,
  item_native, item_all, item_any, item_added, deref,
}
use dpkg.Version.{DpkgVersion, DpkgRelation, relation_none, relation_eq, dpkg_version_relate}

-- The constructors of `enum pkgmultiarch`.
pub data PkgMultiarch : Type 0 where
  multiarch_no multiarch_same multiarch_allowed multiarch_foreign : PkgMultiarch

-- The constructors of `enum deptype`.
pub data DepType : Type 0 where
  dep_suggests dep_recommends dep_depends dep_predepends dep_breaks dep_conflicts : DepType
  dep_provides dep_replaces dep_enhances : DepType

-- The fields of `struct pkgbin` and `struct deppossi` that these functions use; `up_type` is
-- `up->type`.
pub record PkgBin : Type 0 where
  pub multiarch : PkgMultiarch
  pub arch : ArchRef
  pub version : DpkgVersion

pub record DepPossi : Type 0 where
  pub up_type : DepType
  pub arch : ArchRef
  pub version : DpkgVersion
  pub verrel : DpkgRelation
  pub arch_is_implicit : Bool

unfoldable pub versionsatisfied : PkgBin → DepPossi → Option Bool
versionsatisfied it against = dpkg_version_relate it.version against.verrel against.version

abbrev pub is_multiarch_foreign : PkgMultiarch → Bool
is_multiarch_foreign multiarch_foreign = true
is_multiarch_foreign _ = false

abbrev pub is_multiarch_allowed : PkgMultiarch → Bool
is_multiarch_allowed multiarch_allowed = true
is_multiarch_allowed _ = false

abbrev pub is_wildcard : ArchType → Bool
is_wildcard arch_wildcard = true
is_wildcard _ = false

-- The dependency is a conflict, a replacement or a break.
abbrev pub is_any_arch_dep : DepType → Bool
is_any_arch_dep dep_conflicts = true
is_any_arch_dep dep_replaces = true
is_any_arch_dep dep_breaks = true
is_any_arch_dep _ = false

abbrev pub is_none_or_all : ArchType → Bool
is_none_or_all arch_none = true
is_none_or_all arch_all = true
is_none_or_all _ = false

-- `dep_arch == pkg_arch`, of pointers.
unfoldable pub same_ref : ArchRef → ArchRef → Bool
same_ref item_none item_none = true
same_ref item_empty item_empty = true
same_ref item_native item_native = true
same_ref item_all item_all = true
same_ref item_any item_any = true
same_ref (item_added i) (item_added j) = i == j
same_ref _ _ = false

-- The native architecture stands in for none and for "all".
unfoldable pub or_native : ArchList → ArchRef → ArchRef
or_native l r = if is_none_or_all (deref l r).type then item_native else r

unfoldable pub deparchsatisfied : ArchList → PkgBin → ArchRef → DepPossi → Bool
deparchsatisfied l it it_arch against =
    if against.arch_is_implicit && is_multiarch_foreign it.multiarch
    then true
    else if is_wildcard (deref l against.arch).type
        && (is_multiarch_allowed it.multiarch || is_any_arch_dep against.up_type)
    then true
    else same_ref (or_native l against.arch) (or_native l it_arch)

unfoldable pub archsatisfied : ArchList → PkgBin → DepPossi → Bool
archsatisfied l it against = deparchsatisfied l it it.arch against

abbrev pub is_none_or_eq : DpkgRelation → Bool
is_none_or_eq relation_none = true
is_none_or_eq relation_eq = true
is_none_or_eq _ = false

abbrev pub is_relation_none : DpkgRelation → Bool
is_relation_none relation_none = true
is_relation_none _ = false

unfoldable pub pkg_virtual_deppossi_satisfied : DepPossi → DepPossi → Option Bool
pkg_virtual_deppossi_satisfied dependee provider =
    if not (is_relation_none provider.verrel) && not (is_none_or_eq provider.verrel)
    then some false
    else if is_relation_none provider.verrel && not (is_relation_none dependee.verrel)
    then some false
    else dpkg_version_relate provider.version dependee.verrel dependee.version
