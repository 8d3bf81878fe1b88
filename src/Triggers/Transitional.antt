-- ===== src/Triggers/Transitional.antt =====
-- src/main/trigproc.c: the transitional activation of all triggers.
use dpkg.Triggers.Linked.{clash, eq_path}
use dpkg.Triggers.{
  Package, is_nil, is_noted, set_status, trig_note_pend, trig_note_pend_core, w_status_ok,
}
use dpkg.Pkg.{
  PkgStatus, configfiles, halfconfigured, halfinstalled, installed, notinstalled, status_rank,
  triggersawaited, triggerspending, unpacked,
}
use dpkg.Base.{
  Bool, Bool-cases, CString, List, [], ap, false, if◌then◌else◌, inl, inr, leb, ltb, not, refl,
  true, ℕ, ◌==◌, ◌∙◌, ◌∷◌, ◌≡◌,
}

-- For one name of the file of interests; the files of interests are left out.
unfoldable pub transitional_interest_callback_ro : CString → Package → Package
unfolding trig_note_pend
transitional_interest_callback_ro trig v =
    if ltb (status_rank v.status) (status_rank triggersawaited)
    then v
    else (trig_note_pend v trig).0

unfoldable pub transitional_interests : List CString → Package → Package
unfolding transitional_interest_callback_ro
transitional_interests [] v = v
transitional_interests (trig ∷ trigs) v =
    transitional_interests trigs (transitional_interest_callback_ro trig v)

-- A package with the names in its file of interests.
unfoldable pub transitional_package : List CString → Package → Package
unfolding transitional_interests set_status
transitional_package trigs v =
    let u = transitional_interests trigs (record v { trigpend = [] }) in
    if leb (status_rank v.status) (status_rank halfinstalled)
    then v
    else if ltb (status_rank u.status) (status_rank triggersawaited)
    then u
    else if not (is_nil u.trigaw)
    then set_status triggersawaited u
    else if not (is_nil u.trigpend)
    then set_status triggerspending u
    else set_status installed u

-- The loop of `trig_transitional_activate` over all packages.
unfoldable pub trig_transitional_activate : (ℕ → List CString) → (ℕ → Package) → ℕ → Package
unfolding transitional_package
trig_transitional_activate interests pkgs p = transitional_package (interests p) (pkgs p)

interests_low :
    (trigs : List CString) (v : Package)
    → ltb (status_rank v.status) (status_rank triggersawaited) ≡ true
    → transitional_interests trigs v ≡ v
unfolding transitional_interests
interests_low [] v h = refl
interests_low (trig ∷ trigs) v h = rw h (interests_low trigs v h)

-- Whether a status is below those with triggers.
abbrev is_below : Package → Bool
is_below v = ltb (status_rank v.status) (status_rank triggersawaited)

set_status_rank :
    (s : PkgStatus) (v : Package) → status_rank (set_status s v).status ≡ status_rank s
unfolding set_status
set_status_rank s v = elim (Bool-cases (status_rank v.status == status_rank s)) [
  | inl e ↦
      let same : set_status s v ≡ v = rw e refl in
      ap (λ (u : Package). status_rank u.status) same ∙ eq_path _ _ e
  | inr e ↦
      let new : set_status s v ≡ record v { status = s; status_dirty = true } = rw e refl in
      ap (λ (u : Package). status_rank u.status) new
]

noting_high :
    (trig : CString) (v : Package) → is_below v ≡ false → is_below (trig_note_pend v trig).0 ≡ false
unfolding trig_note_pend trig_note_pend_core
noting_high trig v h = elim (Bool-cases (is_noted trig v.trigpend)) [
  | inl e ↦ let same : (trig_note_pend v trig).0 ≡ v = rw e refl in ap is_below same ∙ h
  | inr e ↦
      let u : Package = record v { trigpend = trig ∷ v.trigpend } in
      let s : PkgStatus = if is_nil v.trigaw then triggerspending else triggersawaited in
      let new : (trig_note_pend v trig).0 ≡ set_status s u = rw e refl in
      ap is_below new
      ∙ ap (λ r. ltb r (status_rank triggersawaited)) (set_status_rank s u)
      ∙ target (is_nil v.trigaw)
]
  where
    target :
        (b : Bool)
        → ltb
            (status_rank (if b then triggerspending else triggersawaited))
            (status_rank triggersawaited)
          ≡ false
    target true = refl
    target false = refl

interests_high :
    (trigs : List CString) (v : Package)
    → is_below v ≡ false
    → is_below (transitional_interests trigs v) ≡ false
unfolding transitional_interests transitional_interest_callback_ro
interests_high [] v h = h
interests_high (trig ∷ trigs) v h =
    let noted : transitional_interest_callback_ro trig v ≡ (trig_note_pend v trig).0 = rw h refl in
    ap (λ u. is_below (transitional_interests trigs u)) noted
    ∙ interests_high trigs (trig_note_pend v trig).0 (noting_high trig v h)

-- The last part for a package whose status is high.
abbrev coherent : Package → Package
coherent u =
    if not (is_nil u.trigaw)
    then set_status triggersawaited u
    else if not (is_nil u.trigpend)
    then set_status triggerspending u
    else set_status installed u

coherent_ok :
    (u : Package)
    → ltb (status_rank u.status) (status_rank triggersawaited) ≡ false
    → w_status_ok (coherent u) ≡ true
unfolding set_status
coherent_ok u = by_status u.status u.status_dirty u.trigpend u.trigaw u.othertrigaw
  where
    by_status :
        (s : PkgStatus) (d : Bool) (t : List CString) (a o : List ℕ)
        → ltb (status_rank s) (status_rank triggersawaited) ≡ false
        → w_status_ok (
            coherent
              (record { status = s; status_dirty = d; trigpend = t; trigaw = a; othertrigaw = o }))
          ≡ true
    by_status triggersawaited d [] [] o h = refl
    by_status triggersawaited d (t ∷ ts) [] o h = refl
    by_status triggersawaited d t (a ∷ more) o h = refl
    by_status triggerspending d [] [] o h = refl
    by_status triggerspending d (t ∷ ts) [] o h = refl
    by_status triggerspending d t (a ∷ more) o h = refl
    by_status installed d [] [] o h = refl
    by_status installed d (t ∷ ts) [] o h = refl
    by_status installed d t (a ∷ more) o h = refl
    by_status notinstalled d t a o h = absurd (clash h refl)
    by_status configfiles d t a o h = absurd (clash h refl)
    by_status halfinstalled d t a o h = absurd (clash h refl)
    by_status unpacked d t a o h = absurd (clash h refl)
    by_status halfconfigured d t a o h = absurd (clash h refl)

low_ok :
    (v : Package)
    → leb (status_rank v.status) (status_rank halfinstalled) ≡ false
    → is_below v ≡ true
    → w_status_ok (record v { trigpend = [] }) ≡ true
low_ok v = by_status v.status v.status_dirty v.trigpend v.trigaw v.othertrigaw
  where
    by_status :
        (s : PkgStatus) (d : Bool) (t : List CString) (a o : List ℕ)
        → leb (status_rank s) (status_rank halfinstalled) ≡ false
        → ltb (status_rank s) (status_rank triggersawaited) ≡ true
        → w_status_ok
            (record { status = s; status_dirty = d; trigpend = []; trigaw = a; othertrigaw = o })
          ≡ true
    by_status unpacked d t a o h k = refl
    by_status halfconfigured d t a o h k = refl
    by_status triggersawaited d t a o h k = absurd (clash refl k)
    by_status triggerspending d t a o h k = absurd (clash refl k)
    by_status installed d t a o h k = absurd (clash refl k)
    by_status notinstalled d t a o h k = absurd (clash h refl)
    by_status configfiles d t a o h k = absurd (clash h refl)
    by_status halfinstalled d t a o h k = absurd (clash h refl)

-- Whatever the status file and the interests of packages say, a package whose status is above
-- half-installed is one that the database can write after the transitional activation.
pub trig_transitional_activate-w_status_ok :
    (interests : ℕ → List CString) (pkgs : ℕ → Package) (p : ℕ)
    → leb (status_rank (pkgs p).status) (status_rank halfinstalled) ≡ false
    → w_status_ok (trig_transitional_activate interests pkgs p) ≡ true
unfolding trig_transitional_activate transitional_package
trig_transitional_activate-w_status_ok interests pkgs p h = elim (Bool-cases (is_below v)) [
  | inl e ↦
      let same : transitional_interests (interests p) v ≡ v = interests_low (interests p) v e in
      rw (h, same, e) (low_ok (pkgs p) h e)
  | inr e ↦
      let high = interests_high (interests p) v e in
      rw (h, high) (coherent_ok (transitional_interests (interests p) v) high)
]
  where
    v : Package
    v = record (pkgs p) { trigpend = [] }
