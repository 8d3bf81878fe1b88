-- ===== src/Pkg.antt =====
-- lib/dpkg/pkg.c: the status of a package instance and the count of installed instances of its set.
pub mod Count
use dpkg.Base.{
  ℕ, zero, suc, ◌+◌, ◌-◌, Bool, true, false, List, [], ◌∷◌, Option, none, some, ◌==◌, if◌then◌else◌,
}
use Prim.Native.Nat.{bit_and, bit_or, bit_xor}

-- The constructors of `enum pkgstatus`.
pub data PkgStatus : Type 0 where
  notinstalled configfiles halfinstalled unpacked halfconfigured : PkgStatus
  triggersawaited triggerspending installed : PkgStatus

-- The constructors of `enum pkgwant`.
pub data PkgWant : Type 0 where
  want_unknown want_install want_hold want_deinstall want_purge : PkgWant

-- The fields of `struct pkginfo` that these functions use; `eflag` is a set of bits.
pub record PkgInfo : Type 0 where
  pub want : PkgWant
  pub eflag : ℕ
  pub status : PkgStatus
  pub status_dirty : Bool

-- `struct pkgset`: the embedded instance, the ones linked from it by `arch_next`, and the count.
pub record PkgSet : Type 0 where
  pub pkg : PkgInfo
  pub arch_next : List PkgInfo
  pub installed_instances : ℕ

pub PkgStatus-discrete : Discrete PkgStatus
PkgStatus-discrete = hlevel

abbrev pub is_notinstalled : PkgStatus → Bool
is_notinstalled notinstalled = true
is_notinstalled _ = false

-- The position of a status in the enumeration.
abbrev pub status_rank : PkgStatus → ℕ
status_rank notinstalled = 0
status_rank configfiles = 1
status_rank halfinstalled = 2
status_rank unpacked = 3
status_rank halfconfigured = 4
status_rank triggersawaited = 5
status_rank triggerspending = 6
status_rank installed = 7

-- The new count: none where the check behind it finds it negative.
unfoldable pub count_change : PkgStatus → PkgStatus → ℕ → Option ℕ
count_change old new n =
    if is_notinstalled old
    then some (n + 1)
    else if is_notinstalled new
    then (if n == 0 then none else some (n - 1))
    else some n

-- A pointer to an instance of the set: its place, the embedded one being the first.
unfoldable pub instances : PkgSet → List PkgInfo
instances set = set.pkg ∷ set.arch_next

unfoldable pub nth_status : List PkgInfo → ℕ → PkgStatus
nth_status [] i = notinstalled
nth_status (p ∷ rest) zero = p.status
nth_status (p ∷ rest) (suc i) = nth_status rest i

unfoldable pub put_status : List PkgInfo → ℕ → PkgStatus → List PkgInfo
put_status [] i s = []
put_status (p ∷ rest) zero s = record p { status = s; status_dirty = true } ∷ rest
put_status (p ∷ rest) (suc i) s = p ∷ put_status rest i s

-- The embedded instance is put apart again.
unfoldable pub with_instances : PkgSet → List PkgInfo → ℕ → PkgSet
with_instances set [] n = set
with_instances set (p ∷ rest) n = record { pkg = p; arch_next = rest; installed_instances = n }

unfoldable pub status_result : PkgSet → ℕ → PkgStatus → Option ℕ → Option PkgSet
status_result set i new none = none
status_result set i new (some n) = some (with_instances set (put_status (instances set) i new) n)

-- `none` is the internal error for a negative count.
unfoldable pub pkg_set_status : PkgSet → ℕ → PkgStatus → Option PkgSet
pkg_set_status set i new =
    let old = nth_status (instances set) i in
    if status_rank old == status_rank new
    then some set
    else status_result set i new (count_change old new set.installed_instances)

unfoldable pub pkg_set_eflags : PkgInfo → ℕ → PkgInfo
pkg_set_eflags p eflag = record p { eflag = bit_or p.eflag eflag }

-- The complement is that of an `unsigned int`.
unfoldable pub pkg_clear_eflags : PkgInfo → ℕ → PkgInfo
pkg_clear_eflags p eflag = record p { eflag = bit_and p.eflag (bit_xor 4294967295 eflag) }

unfoldable pub pkg_reset_eflags : PkgInfo → PkgInfo
pkg_reset_eflags p = record p { eflag = 0 }

unfoldable pub pkg_copy_eflags : PkgInfo → PkgInfo → PkgInfo
pkg_copy_eflags dst src = record dst { eflag = src.eflag }

unfoldable pub pkg_set_want : PkgInfo → PkgWant → PkgInfo
pkg_set_want p want = record p { want = want }

unfoldable pub pkgset_link_pkg : PkgSet → PkgInfo → PkgSet
pkgset_link_pkg set p = record set { arch_next = p ∷ set.arch_next }

unfoldable pub pkgset_installed_instances : PkgSet → ℕ
pkgset_installed_instances set = set.installed_instances
