-- ===== src/Version/Order.antt =====
-- lib/dpkg/version.c: the order that `dpkg_version_compare` decides.
use Prim.Native.Nat.{compare, Ordering}
use dpkg.Base.{
  CString, IsCString, All-right, ℕ, zero, suc, ◌≡◌, refl, sym, ap, ◌∙◌, ◌≢◌, inl, inr, Bool, true,
  false, ◌∷◌, ◌++◌, Option, none, some, arith, ltb, ◌==◌, if◌then◌else◌, Bool-cases,
}
use dpkg.Base.Int.{ℤ, pos, negsuc}
use dpkg.CType.{c_isdigit}
use dpkg.Version.Key.{sign, and_then, cmp_part}
use dpkg.Version.KeyOrder.{
  flip, Composes, flip-and_then, and_then-Composes, compare-flip, compare-Composes, cmp_part-suffix,
  cmp_part-flip, cmp_part-Composes,
}
use dpkg.Version.Refine.{Decides, verrevcmp-Decides}
use dpkg.Version.Weights.{sign-order}
use dpkg.Version.{int_eq, DpkgVersion, or_empty, verrevcmp, compare_parts, dpkg_version_compare}

pub record IsVersion (v : DpkgVersion) : Type 0 where
  pub version_bytes : IsCString (or_empty v.version)
  pub revision_bytes : IsCString (or_empty v.revision)

-- The order of versions: the first of the three parts that differs decides.
unfoldable pub cmp_version : DpkgVersion → DpkgVersion → Ordering
cmp_version a b = and_then (compare a.epoch b.epoch) (
    and_then (cmp_part (or_empty a.version) (or_empty b.version))
      (cmp_part (or_empty a.revision) (or_empty b.revision)))

pub Decides-some :
    (o : Ordering) (m : Option ℤ) → Decides o m → (r : ℤ) × (m ≡ some r) × (sign r ≡ o)
Decides-some o none h = absurd h
Decides-some o (some r) h = (r, refl, h)

compare_parts-Decides :
    (o p : Ordering) (m n : Option ℤ)
    → Decides o m
    → Decides p n
    → Decides (and_then o p) (compare_parts m n)
unfolding compare_parts int_eq
compare_parts-Decides o p none n h k = h
compare_parts-Decides o p (some (pos zero)) n h k = rw (← h) k
compare_parts-Decides o p (some (pos (suc r))) n h k = rw (← h) (ground arith)
compare_parts-Decides o p (some (negsuc r)) n h k = rw (← h) (ground arith)

-- The comparison of two versions of byte strings always returns, and its sign is the order of
-- epoch, upstream version and revision, the first difference deciding.
pub dpkg_version_compare-Decides :
    (a b : DpkgVersion)
    → IsVersion a
    → IsVersion b
    → Decides (cmp_version a b) (dpkg_version_compare a b)
unfolding dpkg_version_compare cmp_version
dpkg_version_compare-Decides a b p q = elim (Bool-cases (ltb b.epoch a.epoch)) [
  | inl h ↦ rw h (above _ _ _ h)
  | inr h ↦ rw h (elim (Bool-cases (ltb a.epoch b.epoch)) [
    | inl k ↦ rw k (below _ _ _ k)
    | inr k ↦
        rw (k, equal _ _ h k)
          (compare_parts-Decides _ _ _ _
            (verrevcmp-Decides a.version b.version p.version_bytes q.version_bytes)
            (verrevcmp-Decides a.revision b.revision p.revision_bytes q.revision_bytes))
  ])
]
  where
    above : (m n : ℕ) (o : Ordering) → ltb n m ≡ true → sign (pos 1) ≡ and_then (compare m n) o
    above m n o h = ground arith

    below : (m n : ℕ) (o : Ordering) → ltb m n ≡ true → sign (negsuc 0) ≡ and_then (compare m n) o
    below m n o h = ground arith

    equal : (m n : ℕ) → ltb n m ≡ false → ltb m n ≡ false → compare m n ≡ Ordering.eq
    equal m n h k = ground arith

pub cmp_version-flip : (a b : DpkgVersion) → cmp_version b a ≡ flip (cmp_version a b)
unfolding cmp_version
cmp_version-flip a b =
    let v = cmp_part-flip (or_empty a.version) (or_empty b.version) in
    let r = cmp_part-flip (or_empty a.revision) (or_empty b.revision) in
    rw (compare-flip a.epoch b.epoch, v, r)
      (ap (and_then (flip (compare a.epoch b.epoch))) (sym (flip-and_then _ _))
        ∙ sym (flip-and_then _ _))

pub cmp_version-Composes :
    (a b c : DpkgVersion) → Composes (cmp_version a b) (cmp_version b c) (cmp_version a c)
unfolding cmp_version
cmp_version-Composes a b c =
    and_then-Composes (compare a.epoch b.epoch) (compare b.epoch c.epoch) (compare a.epoch c.epoch)
      (rest a b) (rest b c) (rest a c) (compare-Composes a.epoch b.epoch c.epoch)
      (and_then-Composes (up a b) (up b c) (up a c) (rev a b) (rev b c) (rev a c)
        (cmp_part-Composes _ _ _) (cmp_part-Composes _ _ _))
  where
    up : DpkgVersion → DpkgVersion → Ordering
    up v w = cmp_part (or_empty v.version) (or_empty w.version)

    rev : DpkgVersion → DpkgVersion → Ordering
    rev v w = cmp_part (or_empty v.revision) (or_empty w.revision)

    rest : DpkgVersion → DpkgVersion → Ordering
    rest v w = and_then (up v w) (rev v w)

pub dpkg_version_compare-returns :
    (a b : DpkgVersion)
    → IsVersion a
    → IsVersion b
    → (r : ℤ) × (dpkg_version_compare a b ≡ some r) × (sign r ≡ cmp_version a b)
dpkg_version_compare-returns a b va vb = Decides-some _ _ (dpkg_version_compare-Decides a b va vb)

-- Both comparisons of two versions of byte strings return, with opposite signs.
pub dpkg_version_compare-flip :
    (a b : DpkgVersion)
    → IsVersion a
    → IsVersion b
    → (r : ℤ) × (s : ℤ) × (dpkg_version_compare a b ≡ some r)
      × (dpkg_version_compare b a ≡ some s)
      × (sign s ≡ flip (sign r))
dpkg_version_compare-flip a b va vb =
    let (r, e, f) = dpkg_version_compare-returns a b va vb in
    let (s, g, h) = dpkg_version_compare-returns b a vb va in
    (r, s, e, g, h ∙ cmp_version-flip a b ∙ ap flip (sym f))

-- The three comparisons of three versions of byte strings return, and their signs compose: equal
-- versions compare alike and a chain of one direction keeps it.
pub dpkg_version_compare-Composes :
    (a b c : DpkgVersion)
    → IsVersion a
    → IsVersion b
    → IsVersion c
    → (r : ℤ) × (s : ℤ) × (t : ℤ) × (dpkg_version_compare a b ≡ some r)
      × (dpkg_version_compare b c ≡ some s)
      × (dpkg_version_compare a c ≡ some t)
      × Composes (sign r) (sign s) (sign t)
dpkg_version_compare-Composes a b c va vb vc =
    let (r, e, f) = dpkg_version_compare-returns a b va vb in
    let (s, g, h) = dpkg_version_compare-returns b c vb vc in
    let (t, k, l) = dpkg_version_compare-returns a c va vc in
    (r, s, t, e, g, k, rw (f, h, l) (cmp_version-Composes a b c))

-- A part followed by further characters, the first of them no digit, compares to the part by the
-- weight of that character: less for a tilde and greater otherwise.
pub verrevcmp-suffix :
    (p : CString) (c : ℕ) (t : CString)
    → IsCString (p ++ c ∷ t)
    → IsCString p
    → c_isdigit c ≡ false
    → (r : ℤ) × (verrevcmp (some (p ++ c ∷ t)) (some p) ≡ some r)
      × (sign r ≡ (if c == b'~' then Ordering.lt else Ordering.gt))
verrevcmp-suffix p c t vs vp d =
    let byte = All-right _ p (c ∷ t) vs in
    let w = sign-order c byte.0.0 byte.0.1 d in
    let (r, e, f) = Decides-some _ _ (verrevcmp-Decides (some (p ++ c ∷ t)) (some p) vs vp) in
    (r, e, f ∙ cmp_part-suffix p c t d (rw w (two_ways (c == b'~'))) ∙ w)
  where
    two_ways : (b : Bool) → (if b then Ordering.lt else Ordering.gt) ≢ Ordering.eq
    two_ways true h = cc
    two_ways false h = cc
