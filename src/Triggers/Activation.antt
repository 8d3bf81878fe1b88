-- ===== src/Triggers/Activation.antt =====
-- lib/dpkg/triglib.c: activations recorded, and the packages awaited in the status file.
use dpkg.Triggers.Notes.{
  Ends, IsConsistent, IsLinked-same, IsReady, IsReady-put, awaiting, others, pending, put_same,
}
use dpkg.Triggers.Linked.{clash, eq_path, or_right}
use dpkg.Triggers.Depth.{IsNote, modstatdb_note-keeps}
use dpkg.Triggers.{
  Package, World, done, is_nil, is_noted, modstatdb_note, modstatdb_note_ifwrite, put_pkg,
  record_pending, set_status, settled, trig_note_pend, trig_note_pend_core, w_status_ok,
}
use dpkg.Triggers.Calls.{Ends-map, set_status_awaiting, set_status_others}
use dpkg.Pkg.{
  PkgStatus, configfiles, halfconfigured, halfinstalled, installed, notinstalled, status_rank,
  triggersawaited, triggerspending, unpacked,
}
use dpkg.Base.{
  Bool, Bool-cases, CString, List, [], ap, false, if◌then◌else◌, inl, inr, length, ltb, refl,
  str_eq, true, ℕ, ◌<◌, ◌==◌, ◌∙◌, ◌∷◌, ◌≡◌,
}

-- The lists belong together, every package can be written, and the packages awaited are known.
pub record IsValid (owners : List ℕ) (w : World) : Type 0 where
  pub consistent : IsConsistent w [] owners
  pub ready : IsReady w

-- The lists are still valid, and no pending trigger of the first world is lost.
pub record IsFollowed (owners : List ℕ) (w x : World) : Type 0 where
  pub valid : IsValid owners x
  pub lossless :
      (q : ℕ) (t : CString) → is_noted t (pending w q) ≡ true → is_noted t (pending x q) ≡ true

pub same-IsFollowed : (owners : List ℕ) (w : World) → IsValid owners w → IsFollowed owners w w
same-IsFollowed owners w h = record { valid = h; lossless = λ q t k. k }

pub then-IsFollowed :
    (owners : List ℕ) (w x y : World)
    → IsFollowed owners w x
    → IsFollowed owners x y
    → IsFollowed owners w y
then-IsFollowed owners w x y h k = record {
  valid = k.valid;
  lossless = λ q t e. k.lossless q t (h.lossless q t e);
}

pub ifwrite-IsFollowed :
    (fuel : ℕ) (owners : List ℕ)
    → length owners < fuel
    → (p : ℕ) (w x : World) → IsFollowed owners w x
    → Ends (IsFollowed owners w) (modstatdb_note_ifwrite fuel p x)
unfolding modstatdb_note_ifwrite
ifwrite-IsFollowed fuel owners l p w x h = by_writable x.writable
  where
    by_writable :
        (b : Bool) → Ends (IsFollowed owners w) (if b then modstatdb_note fuel p x else done x)
    by_writable false = h
    by_writable true =
        Ends-map (IsNote x [] owners p) (IsFollowed owners w) (modstatdb_note fuel p x)
          (modstatdb_note-keeps fuel owners l p x [] h.valid.consistent h.valid.ready)
          (λ y n. record {
            valid = record { consistent = n.kept.consistent; ready = n.kept.ready };
            lossless = λ q t e. ap (is_noted t) (n.kept.pending_kept q) ∙ h.lossless q t e;
          })

-- A package whose lists stay as they are.
pub replace-IsValid :
    (owners : List ℕ) (w : World) (p : ℕ) (v : Package)
    → v.trigaw ≡ awaiting w p
    → v.othertrigaw ≡ others w p
    → w_status_ok (settled v) ≡ true
    → IsValid owners w
    → IsValid owners (put_pkg w p v)
replace-IsValid owners w p v e f r h = record {
  consistent =
      IsLinked-same (put_same Package.trigaw w.pkgs p v e)
        (put_same Package.othertrigaw w.pkgs p v f) h.consistent;
  ready = IsReady-put w p v h.ready r;
}

-- The package after a name is added to its pending ones.
abbrev pub noted : CString → Package → Package
noted trig v =
    let u : Package = record v { trigpend = trig ∷ v.trigpend } in
    set_status (if is_nil u.trigaw then triggerspending else triggersawaited) u

noted-ready :
    (trig : CString) (v : Package)
    → ltb (status_rank v.status) (status_rank triggersawaited) ≡ false
    → w_status_ok (settled (noted trig v)) ≡ true
unfolding set_status
noted-ready trig v = by_status v.status v.status_dirty v.trigpend v.trigaw v.othertrigaw
  where
    by_status :
        (s : PkgStatus) (d : Bool) (t : List CString) (a o : List ℕ)
        → let v : Package = record {
          status = s;
          status_dirty = d;
          trigpend = t;
          trigaw = a;
          othertrigaw = o;
        } in
          ltb (status_rank s) (status_rank triggersawaited) ≡ false
          → w_status_ok (settled (noted trig v)) ≡ true
    by_status triggersawaited d t [] o e = refl
    by_status triggersawaited d t (a ∷ more) o e = refl
    by_status triggerspending d t [] o e = refl
    by_status triggerspending d t (a ∷ more) o e = refl
    by_status installed d t [] o e = refl
    by_status installed d t (a ∷ more) o e = refl
    by_status notinstalled d t a o e = absurd (clash e refl)
    by_status configfiles d t a o e = absurd (clash e refl)
    by_status halfinstalled d t a o e = absurd (clash e refl)
    by_status unpacked d t a o e = absurd (clash e refl)
    by_status halfconfigured d t a o e = absurd (clash e refl)

pub noted_lossless :
    (trig t : CString) (v : Package)
    → is_noted t (settled v).trigpend ≡ true
    → is_noted t (settled (noted trig v)).trigpend ≡ true
unfolding set_status is_noted
noted_lossless trig t v = by_status v.status v.status_dirty v.trigpend v.trigaw v.othertrigaw
  where
    by_status :
        (s : PkgStatus) (d : Bool) (ts : List CString) (a o : List ℕ)
        → let v : Package = record {
          status = s;
          status_dirty = d;
          trigpend = ts;
          trigaw = a;
          othertrigaw = o;
        } in
          is_noted t (settled v).trigpend ≡ true
          → is_noted t (settled (noted trig v)).trigpend ≡ true
    by_status triggersawaited d ts [] o e = or_right (str_eq trig t) (is_noted t ts) e
    by_status triggersawaited d ts (a ∷ more) o e = or_right (str_eq trig t) (is_noted t ts) e
    by_status triggerspending d ts [] o e = or_right (str_eq trig t) (is_noted t ts) e
    by_status triggerspending d ts (a ∷ more) o e = or_right (str_eq trig t) (is_noted t ts) e
    by_status installed d ts a o e = absurd (clash refl e)
    by_status notinstalled d ts a o e = absurd (clash refl e)
    by_status configfiles d ts a o e = absurd (clash refl e)
    by_status halfinstalled d ts a o e = absurd (clash refl e)
    by_status unpacked d ts a o e = absurd (clash refl e)
    by_status halfconfigured d ts a o e = absurd (clash refl e)

pub lossless_put :
    (w : World) (p : ℕ) (v : Package)
    → ((t : CString) → is_noted t (pending w p) ≡ true → is_noted t (settled v).trigpend ≡ true)
    → (q : ℕ) (t : CString) → is_noted t (pending w q) ≡ true
    → is_noted t (pending (put_pkg w p v) q) ≡ true
lossless_put w p v h q t k = elim (Bool-cases (p == q)) [
  | inl d ↦ rw (d, pending) (h t (ap (λ r. is_noted t (pending w r)) (eq_path p q d) ∙ k))
  | inr d ↦ rw (d, pending) k
]

-- The world with a name added to the pending ones of a package.
pub noted-IsFollowed :
    (owners : List ℕ) (pend : ℕ) (trig : CString) (w : World)
    → ltb (status_rank (w.pkgs pend).status) (status_rank triggersawaited) ≡ false
    → IsValid owners w
    → IsFollowed owners w (put_pkg w pend (noted trig (w.pkgs pend)))
noted-IsFollowed owners pend trig w e h =
    let v : Package = w.pkgs pend in
    let u : Package = record v { trigpend = trig ∷ v.trigpend } in
    record {
      valid =
          replace-IsValid owners w pend (noted trig v) (set_status_awaiting _ u)
            (set_status_others _ u) (noted-ready trig v e) h;
      lossless = lossless_put w pend (noted trig v) (λ t k. noted_lossless trig t v k);
    }

pub record_pending-IsFollowed :
    (fuel : ℕ) (owners : List ℕ)
    → length owners < fuel
    → (pend : ℕ) (trig : CString) (w : World)
    → ltb (status_rank (w.pkgs pend).status) (status_rank triggersawaited) ≡ false
    → IsValid owners w
    → Ends (IsFollowed owners w) (record_pending fuel pend trig w)
unfolding record_pending trig_note_pend trig_note_pend_core
record_pending-IsFollowed fuel owners l pend trig w e h =
    elim (Bool-cases (is_noted trig (w.pkgs pend).trigpend)) [
      | inl d ↦ rw d (same-IsFollowed owners w h)
      | inr d ↦ rw d (
          ifwrite-IsFollowed fuel owners l pend w (put_pkg w pend (noted trig (w.pkgs pend)))
            (noted-IsFollowed owners pend trig w e h))
    ]
