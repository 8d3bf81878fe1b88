-- ===== src/Triggers/Cycle/Filled.antt =====
-- src/main/trigproc.c: the nodes kept have packages with pending triggers.
use dpkg.Triggers.Cycle.{Cycle, CycleNode, CyclePackage, all_noted, cycle_packages, follow}
use dpkg.Triggers.{Package, World, has, is_nil, keeps_pending, set_status, settled, w_status_ok}
use dpkg.Triggers.Linked.{clash, eq_path}
use dpkg.Triggers.Notes.{pending}
use dpkg.Pkg.{
  PkgStatus, configfiles, halfconfigured, halfinstalled, installed, notinstalled, triggersawaited,
  triggerspending, unpacked,
}
use dpkg.Base.{
  Bool, Bool-cases, CString, List, [], ap, false, inl, inr, refl, sym, true, ℕ, ◌++◌, ◌==◌, ◌∙◌,
  ◌∷◌, ◌≡◌, ◌⊎◌,
}

-- Every package noted had pending triggers.
abbrev pub IsFilled : List CyclePackage → Type 0
IsFilled [] = Unit
IsFilled (t ∷ rest) = (is_nil t.then_trigs ≡ false) × IsFilled rest

-- Every node has packages, and they had pending triggers.
abbrev pub AllFilled : List CycleNode → Type 0
AllFilled [] = Unit
AllFilled (n ∷ rest) = (is_nil n.pkgs ≡ false) × IsFilled n.pkgs × AllFilled rest

-- The pending triggers of a package are those that its status allows.
abbrev pub IsTidy : World → Type 0
IsTidy w = (p : ℕ) → (w.pkgs p).trigpend ≡ pending w p

filled_cons :
    (w : World) (all : List ℕ) (found : List CyclePackage)
    → is_nil found ≡ false
    → is_nil (cycle_packages w all found) ≡ false
unfolding cycle_packages
filled_cons w [] found h = h
filled_cons w (p ∷ all) found h = elim (Bool-cases (is_nil (w.pkgs p).trigpend)) [
  | inl e ↦ rw e (filled_cons w all found h)
  | inr e ↦ rw e (filled_cons w all (_ ∷ found) refl)
]

pub cycle_packages-some :
    (w : World) (p : ℕ) (all : List ℕ) (found : List CyclePackage)
    → has p all ≡ true
    → is_nil (w.pkgs p).trigpend ≡ false
    → is_nil (cycle_packages w all found) ≡ false
unfolding cycle_packages
cycle_packages-some w p [] found h k = absurd (clash refl h)
cycle_packages-some w p (q ∷ all) found h k = elim (Bool-cases (is_nil (w.pkgs q).trigpend)) [
  | inl e ↦ rw e (cycle_packages-some w p all found (later e (Bool-cases (p == q))) k)
  | inr e ↦ rw e (filled_cons w all (_ ∷ found) refl)
]
  where
    later :
        is_nil (w.pkgs q).trigpend ≡ true
        → ((p == q) ≡ true) ⊎ ((p == q) ≡ false)
        → has p all ≡ true
    later e (inl d) =
        absurd (clash (ap (λ r. is_nil (w.pkgs r).trigpend) (sym (eq_path p q d)) ∙ k) e)
    later e (inr d) = rw d at h

pub cycle_packages-IsFilled :
    (w : World) (all : List ℕ) (found : List CyclePackage)
    → IsFilled found
    → IsFilled (cycle_packages w all found)
unfolding cycle_packages
cycle_packages-IsFilled w [] found h = h
cycle_packages-IsFilled w (p ∷ all) found h = elim (Bool-cases (is_nil (w.pkgs p).trigpend)) [
  | inl e ↦ rw e (cycle_packages-IsFilled w all found h)
  | inr e ↦ rw e (cycle_packages-IsFilled w all (_ ∷ found) (e, h))
]

AllFilled-snoc :
    (ns : List CycleNode) (n : CycleNode)
    → AllFilled ns
    → AllFilled (n ∷ [])
    → AllFilled (ns ++ n ∷ [])
AllFilled-snoc [] n h k = k
AllFilled-snoc (m ∷ ns) n (a, b, h) k = (a, b, AllFilled-snoc ns n h k)

pub AllFilled-follow :
    (n : CycleNode) (c : Cycle)
    → AllFilled (n ∷ [])
    → AllFilled c.chain
    → AllFilled (follow n c).chain
unfolding follow
AllFilled-follow n c k h = by_chain c.tortoise_advance c.chain h
  where
    by_chain :
        (b : Bool) (ns : List CycleNode)
        → AllFilled ns
        → AllFilled (follow n (record { tortoise_advance = b; chain = ns })).chain
    by_chain b [] h = k
    by_chain true (m ∷ ns) (x, y, h) = AllFilled-snoc ns n h k
    by_chain false (m ∷ ns) (x, y, h) = (x, y, AllFilled-snoc ns n h k)

-- A trigger that was pending and still is keeps the list from being empty.
pub still_pending :
    (trigs pending : List CString)
    → is_nil trigs ≡ false
    → all_noted trigs pending ≡ true
    → is_nil pending ≡ false
unfolding all_noted
still_pending [] pending h k = absurd (clash h refl)
still_pending (t ∷ trigs) [] h k = absurd (clash refl k)
still_pending (t ∷ trigs) (p ∷ pending) h k = refl

pub keeps_status :
    (v : Package)
    → v.trigpend ≡ (settled v).trigpend
    → is_nil v.trigpend ≡ false
    → keeps_pending v.status ≡ true
keeps_status v e h = elim (Bool-cases (keeps_pending v.status)) [
  | inl d ↦ d
  | inr d ↦
      let nothing : (settled v).trigpend ≡ [] = rw d refl in
      absurd (clash h (ap is_nil (e ∙ nothing)))
]

pub halfconfigured-ready :
    (v : Package)
    → keeps_pending v.status ≡ true
    → w_status_ok (settled (set_status halfconfigured v)) ≡ true
unfolding set_status
halfconfigured-ready v = by_status v.status v.status_dirty v.trigpend v.trigaw v.othertrigaw
  where
    by_status :
        (s : PkgStatus) (d : Bool) (t : List CString) (a o : List ℕ)
        → let v : Package = record {
          status = s;
          status_dirty = d;
          trigpend = t;
          trigaw = a;
          othertrigaw = o;
        } in
          keeps_pending s ≡ true → w_status_ok (settled (set_status halfconfigured v)) ≡ true
    by_status triggersawaited d t a o e = refl
    by_status triggerspending d t a o e = refl
    by_status installed d t a o e = absurd (clash refl e)
    by_status notinstalled d t a o e = absurd (clash refl e)
    by_status configfiles d t a o e = absurd (clash refl e)
    by_status halfinstalled d t a o e = absurd (clash refl e)
    by_status unpacked d t a o e = absurd (clash refl e)
    by_status halfconfigured d t a o e = absurd (clash refl e)
