-- ===== src/Pkg/Count.antt =====
-- lib/dpkg/pkg.c: the count of a package set against the statuses of its instances.
use dpkg.Base.{
  ℕ, zero, suc, ◌+◌, ◌-◌, ◌≤◌, ◌<◌, ◌≡◌, refl, ap, ◌∙◌, inl, inr, true, false, List, [], ◌∷◌, some,
  arith, ◌==◌, if◌then◌else◌, Bool-cases, length,
}
use dpkg.Pkg.{
  PkgStatus, notinstalled, PkgInfo, PkgSet, is_notinstalled, status_rank, count_change, instances,
  nth_status, put_status, with_instances, status_result, pkg_set_status, pkgset_link_pkg,
}

abbrev pub one : PkgStatus → ℕ
one s = if is_notinstalled s then 0 else 1

-- The instances whose status is not `notinstalled`.
unfoldable pub count_installed : List PkgInfo → ℕ
count_installed [] = 0
count_installed (p ∷ rest) = one p.status + count_installed rest

abbrev pub IsCounted : PkgSet → Type 0
IsCounted set = set.installed_instances ≡ count_installed (instances set)

count-put_status :
    (ps : List PkgInfo) (i : ℕ) (s : PkgStatus)
    → i < length ps
    → count_installed (put_status ps i s) + one (nth_status ps i) ≡ count_installed ps + one s
unfolding count_installed put_status nth_status
count-put_status [] i s h = absurd (omega arith)
count-put_status (p ∷ ps) zero s h = omega arith
count-put_status (p ∷ ps) (suc i) s h = omega (arith, count-put_status ps i s (omega arith))

one-le-count :
    (ps : List PkgInfo) (i : ℕ) → i < length ps → one (nth_status ps i) ≤ count_installed ps
unfolding count_installed nth_status
one-le-count [] i h = absurd (omega arith)
one-le-count (p ∷ ps) zero h = omega arith
one-le-count (p ∷ ps) (suc i) h = omega (arith, one-le-count ps i (omega arith))

-- The new count, where the old one is exact.
count_change-exact :
    (old new : PkgStatus) (n : ℕ)
    → one old ≤ n
    → (status_rank old == status_rank new) ≡ false
    → (m : ℕ) × (count_change old new n ≡ some m) × (m + one old ≡ n + one new)
unfolding count_change
count_change-exact old new n l d = (n + one new - one old, ground arith, ground arith)

same_status : (s t : PkgStatus) → (status_rank s == status_rank t) ≡ true → s ≡ t
same_status s t h = ground arith

count_with_instances :
    (set : PkgSet) (ps : List PkgInfo) (n : ℕ)
    → 0 < length ps
    → (instances (with_instances set ps n) ≡ ps)
      × ((with_instances set ps n).installed_instances ≡ n)
unfolding instances with_instances
count_with_instances set [] n h = absurd (omega arith)
count_with_instances set (p ∷ ps) n h = (refl, refl)

length-put_status :
    (ps : List PkgInfo) (i : ℕ) (s : PkgStatus) → length (put_status ps i s) ≡ length ps
unfolding put_status
length-put_status [] i s = refl
length-put_status (p ∷ ps) zero s = refl
length-put_status (p ∷ ps) (suc i) s = ap suc (length-put_status ps i s)

nth-put_status :
    (ps : List PkgInfo) (i : ℕ) (s : PkgStatus)
    → i < length ps
    → nth_status (put_status ps i s) i ≡ s
unfolding put_status nth_status
nth-put_status [] i s h = absurd (omega arith)
nth-put_status (p ∷ ps) zero s h = refl
nth-put_status (p ∷ ps) (suc i) s h = nth-put_status ps i s (omega arith)

-- On a set with an exact count of installed instances, setting the status of one of its instances
-- never meets the internal error, gives the instance that status and keeps the count exact.
pub pkg_set_status-IsCounted :
    (set : PkgSet) (i : ℕ) (new : PkgStatus)
    → IsCounted set
    → i < length (instances set)
    → (set' : PkgSet) × (pkg_set_status set i new ≡ some set')
      × IsCounted set'
      × (nth_status (instances set') i ≡ new)
unfolding pkg_set_status status_result
pkg_set_status-IsCounted set i new c h =
    elim (Bool-cases (status_rank (nth_status (instances set) i) == status_rank new)) [
      | inl e ↦ (set, rw e refl, c, same_status _ _ e)
      | inr e ↦
          let ps = put_status (instances set) i new in
          let l : one (nth_status (instances set) i) ≤ set.installed_instances =
            omega (arith, one-le-count (instances set) i h) in
          let (m, f, g) = count_change-exact (nth_status (instances set) i) new _ l e in
          let w =
            count_with_instances set ps m
              (omega (arith, length-put_status (instances set) i new)) in
          (
            with_instances set ps m,
            rw (e, f) refl,
            omega (arith, w.1, ap count_installed w.0, count-put_status (instances set) i new h),
            ap (λ qs. nth_status qs i) w.0 ∙ nth-put_status (instances set) i new h,
          )
    ]

-- Linking an instance that is not installed keeps the count of installed instances exact.
pub pkgset_link_pkg-IsCounted :
    (set : PkgSet) (p : PkgInfo)
    → IsCounted set
    → p.status ≡ notinstalled
    → IsCounted (pkgset_link_pkg set p)
unfolding pkgset_link_pkg instances count_installed
pkgset_link_pkg-IsCounted set p c e = let z = ap one e in omega arith
