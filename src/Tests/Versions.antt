-- ===== src/Tests/Versions.antt =====
-- The theorems on versions at concrete inputs.
use dpkg.Base.{CString, IsCString, [], arith, none, some, ◌∷◌, ◌≡◌}
use dpkg.Version.{DpkgVersion, dpkg_version_compare, verrevcmp}
use dpkg.Version.Key.{cmp_part, sign}
use dpkg.Base.Int.{ℤ}
use dpkg.Version.KeyOrder.{Composes}
use dpkg.Version.Refine.{Decides, verrevcmp-Decides}
use dpkg.Version.Order.{
  IsVersion, cmp_version, dpkg_version_compare-Composes, dpkg_version_compare-Decides,
}

abbrev tilde : CString
tilde = b'1' ∷ b'~' ∷ b'a' ∷ []

abbrev plain : CString
plain = b'1' ∷ []

abbrev tens : CString
tens = b'1' ∷ b'0' ∷ []

abbrev old : DpkgVersion
old = record { epoch = 0; version = some tilde; revision = none }

abbrev new : DpkgVersion
new = record { epoch = 0; version = some tens; revision = some plain }

abbrev next : DpkgVersion
next = record { epoch = 2; version = some plain; revision = some [] }

tilde-IsCString : IsCString tilde
tilde-IsCString = omega arith

plain-IsCString : IsCString plain
plain-IsCString = omega arith

old-IsVersion : IsVersion old
old-IsVersion = record { version_bytes = omega arith; revision_bytes = omega arith }

new-IsVersion : IsVersion new
new-IsVersion = record { version_bytes = omega arith; revision_bytes = omega arith }

next-IsVersion : IsVersion next
next-IsVersion = record { version_bytes = omega arith; revision_bytes = omega arith }

verrevcmp-Decides_example : Decides (cmp_part tilde plain) (verrevcmp (some tilde) (some plain))
verrevcmp-Decides_example =
    verrevcmp-Decides (some tilde) (some plain) tilde-IsCString plain-IsCString

dpkg_version_compare-Decides_example : Decides (cmp_version old new) (dpkg_version_compare old new)
dpkg_version_compare-Decides_example =
    dpkg_version_compare-Decides old new old-IsVersion new-IsVersion

dpkg_version_compare-Composes_example :
    (r : ℤ) × (s : ℤ) × (t : ℤ) × (dpkg_version_compare old new ≡ some r)
    × (dpkg_version_compare new next ≡ some s)
    × (dpkg_version_compare old next ≡ some t)
    × Composes (sign r) (sign s) (sign t)
dpkg_version_compare-Composes_example =
    dpkg_version_compare-Composes old new next old-IsVersion new-IsVersion next-IsVersion
