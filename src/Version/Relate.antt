-- ===== src/Version/Relate.antt =====
-- lib/dpkg/version.c: the relations of `dpkg_version_relate`.
use Prim.Native.Nat.{Ordering}
use dpkg.Base.{zero, suc, ◌≡◌, refl, sym, ap, ◌∙◌, Bool, true, false, some, arith}
use dpkg.Base.Int.{ℤ, pos, negsuc}
use dpkg.Version.Key.{sign}
use dpkg.Version.KeyOrder.{flip, Composes}
use dpkg.Version.Order.{
  IsVersion, cmp_version, cmp_version-flip, cmp_version-Composes, dpkg_version_compare-returns,
}
use dpkg.Version.{
  DpkgVersion, DpkgRelation, relation_none, relation_eq, relation_lt, relation_le, relation_gt,
  relation_ge, relation_holds, dpkg_version_relate,
}

-- The relation at an order of two versions.
abbrev pub allows : DpkgRelation → Ordering → Bool
allows relation_none o = true
allows relation_eq Ordering.eq = true
allows relation_lt Ordering.lt = true
allows relation_le Ordering.lt = true
allows relation_le Ordering.eq = true
allows relation_gt Ordering.gt = true
allows relation_ge Ordering.gt = true
allows relation_ge Ordering.eq = true
allows _ o = false

-- The relation seen from the other side.
abbrev pub converse : DpkgRelation → DpkgRelation
converse relation_lt = relation_gt
converse relation_le = relation_ge
converse relation_gt = relation_lt
converse relation_ge = relation_le
converse r = r

relation_holds-allows : (rel : DpkgRelation) (r : ℤ) → relation_holds rel r ≡ allows rel (sign r)
unfolding relation_holds
relation_holds-allows relation_none r = refl
relation_holds-allows rel (pos zero) = ground arith
relation_holds-allows rel (pos (suc n)) = ground arith
relation_holds-allows rel (negsuc n) = ground arith

-- Every relation between two versions of byte strings is decided, by the order of the versions.
pub dpkg_version_relate-allows :
    (a b : DpkgVersion) (rel : DpkgRelation)
    → IsVersion a
    → IsVersion b
    → dpkg_version_relate a rel b ≡ some (allows rel (cmp_version a b))
unfolding dpkg_version_relate
dpkg_version_relate-allows a b relation_none va vb = refl
dpkg_version_relate-allows a b rel va vb =
    let (r, e, f) = dpkg_version_compare-returns a b va vb in
    rw (e, ← f) (ap some (relation_holds-allows rel r))

-- A relation holds between two versions of byte strings exactly when its converse holds between
-- them in the other order.
pub dpkg_version_relate-converse :
    (a b : DpkgVersion) (rel : DpkgRelation)
    → IsVersion a
    → IsVersion b
    → dpkg_version_relate b (converse rel) a ≡ dpkg_version_relate a rel b
dpkg_version_relate-converse a b rel va vb =
    dpkg_version_relate-allows b a (converse rel) vb va
    ∙ ap some (rw (cmp_version-flip a b) (allows-flip rel (cmp_version a b)))
    ∙ sym (dpkg_version_relate-allows a b rel va vb)
  where
    allows-flip :
        (rel : DpkgRelation) (o : Ordering) → allows (converse rel) (flip o) ≡ allows rel o
    allows-flip relation_none o = ground arith
    allows-flip rel o = ground arith

-- Every relation is transitive on versions of byte strings.
pub dpkg_version_relate_trans :
    (a b c : DpkgVersion) (rel : DpkgRelation)
    → IsVersion a
    → IsVersion b
    → IsVersion c
    → dpkg_version_relate a rel b ≡ some true
    → dpkg_version_relate b rel c ≡ some true
    → dpkg_version_relate a rel c ≡ some true
dpkg_version_relate_trans a b c rel va vb vc h k =
    dpkg_version_relate-allows a c rel va vc
    ∙ ap some (
        chain rel _ _ _ (cmp_version-Composes a b c)
          (held a b (dpkg_version_relate-allows a b rel va vb) h)
          (held b c (dpkg_version_relate-allows b c rel vb vc) k))
  where
    held :
        (v w : DpkgVersion)
        → dpkg_version_relate v rel w ≡ some (allows rel (cmp_version v w))
        → dpkg_version_relate v rel w ≡ some true
        → allows rel (cmp_version v w) ≡ true
    held v w e f = cc

    chain :
        (rel : DpkgRelation) (p q r : Ordering)
        → Composes p q r
        → allows rel p ≡ true
        → allows rel q ≡ true
        → allows rel r ≡ true
    chain relation_none p q r c h k = refl
    chain rel p q r c h k = ground arith
