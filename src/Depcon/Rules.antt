-- ===== src/Depcon/Rules.antt =====
-- lib/dpkg/depcon.c: the rules for architecture qualifiers and for versioned provides.
use dpkg.Base.{arith, if◌then◌else◌, refl, some, true, ◌&&◌, ◌≡◌}
use dpkg.Arch.{
  ArchList, ArchRef, arch_all, arch_native, arch_wildcard, deref, item_all, item_native,
}
use dpkg.Depcon.{
  DepPossi, PkgBin, deparchsatisfied, is_none_or_eq, is_relation_none, or_native,
  pkg_virtual_deppossi_satisfied, same_ref,
}
use dpkg.Version.Order.{IsVersion, cmp_version}
use dpkg.Version.Relate.{allows, dpkg_version_relate-allows}

-- The built-in items have the types of their initialisers.
pub record HasBuiltins (l : ArchList) : Type 0 where
  pub native_type : l.native.type ≡ arch_native
  pub all_type : l.all.type ≡ arch_all
  pub any_type : l.any.type ≡ arch_wildcard

-- On a list with the built-in items, a package for all architectures satisfies the dependencies
-- that one of the native architecture does.
pub deparchsatisfied_all :
    (l : ArchList) (it : PkgBin) (against : DepPossi)
    → HasBuiltins l
    → deparchsatisfied l it item_all against ≡ deparchsatisfied l it item_native against
unfolding deparchsatisfied or_native deref
deparchsatisfied_all l it against b = rw (b.all_type, b.native_type) refl

pub same_ref_refl : (r : ArchRef) → same_ref r r ≡ true
unfolding same_ref
same_ref_refl r = ground arith

-- For versions of byte strings, a provider with no version meets only dependencies with no version,
-- one with an exact version meets a dependency by its version, and one with any other relation
-- meets none.
pub pkg_virtual_deppossi_satisfied_rules :
    (dependee provider : DepPossi)
    → IsVersion provider.version
    → IsVersion dependee.version
    → pkg_virtual_deppossi_satisfied dependee provider
      ≡ some (
          if is_relation_none provider.verrel
          then is_relation_none dependee.verrel
          else is_none_or_eq provider.verrel
            && allows dependee.verrel (cmp_version provider.version dependee.version))
unfolding pkg_virtual_deppossi_satisfied
pkg_virtual_deppossi_satisfied_rules dependee provider vp vd =
    ground
      (arith, dpkg_version_relate-allows provider.version dependee.version dependee.verrel vp vd)
