-- ===== src/Triggers/Noting.antt =====
-- lib/dpkg/triglib.c: a trigger noted is pending.
use dpkg.Triggers.Notes.{Ends, pending}
use dpkg.Triggers.Linked.{clash}
use dpkg.Triggers.{
  Package, World, is_noted, modstatdb_note_ifwrite, put_pkg, record_pending, set_status, settled,
  trig_note_pend, trig_note_pend_core,
}
use dpkg.Triggers.Calls.{Ends-map}
use dpkg.Pkg.{
  PkgStatus, configfiles, halfconfigured, halfinstalled, installed, notinstalled, status_rank,
  triggersawaited, triggerspending, unpacked,
}
use dpkg.Base.{
  Bool, Bool-cases, CString, List, [], ap, arith, false, inl, inr, length, ltb, refl, str_eq_refl,
  sym, true, ℕ, ◌<◌, ◌==◌, ◌∙◌, ◌∷◌, ◌≡◌,
}
use dpkg.Triggers.Activation.{
  IsFollowed, IsValid, ifwrite-IsFollowed, noted, noted-IsFollowed, same-IsFollowed,
  then-IsFollowed,
}

noted_has :
    (trig : CString) (v : Package)
    → ltb (status_rank v.status) (status_rank triggersawaited) ≡ false
    → is_noted trig (settled (noted trig v)).trigpend ≡ true
unfolding set_status is_noted
noted_has trig v = by_status v.status v.status_dirty v.trigpend v.trigaw v.othertrigaw
  where
    by_status :
        (s : PkgStatus) (d : Bool) (t : List CString) (a o : List ℕ)
        → let v : Package = record {
          status = s;
          status_dirty = d;
          trigpend = t;
          trigaw = a;
          othertrigaw = o;
        } in
          ltb (status_rank s) (status_rank triggersawaited) ≡ false
          → is_noted trig (settled (noted trig v)).trigpend ≡ true
    by_status triggersawaited d t [] o e = rw (str_eq_refl trig) refl
    by_status triggersawaited d t (a ∷ more) o e = rw (str_eq_refl trig) refl
    by_status triggerspending d t [] o e = rw (str_eq_refl trig) refl
    by_status triggerspending d t (a ∷ more) o e = rw (str_eq_refl trig) refl
    by_status installed d t [] o e = rw (str_eq_refl trig) refl
    by_status installed d t (a ∷ more) o e = rw (str_eq_refl trig) refl
    by_status notinstalled d t a o e = absurd (clash e refl)
    by_status configfiles d t a o e = absurd (clash e refl)
    by_status halfinstalled d t a o e = absurd (clash e refl)
    by_status unpacked d t a o e = absurd (clash e refl)
    by_status halfconfigured d t a o e = absurd (clash e refl)

-- A package that is followed, and of which a trigger is pending.
pub record IsNoting (owners : List ℕ) (pend : ℕ) (trig : CString) (w x : World) : Type 0 where
  pub followed : IsFollowed owners w x
  pub noting : is_noted trig (pending x pend) ≡ true

pub record_pending-IsNoting :
    (fuel : ℕ) (owners : List ℕ)
    → length owners < fuel
    → (pend : ℕ) (trig : CString) (w : World)
    → ltb (status_rank (w.pkgs pend).status) (status_rank triggersawaited) ≡ false
    → (w.pkgs pend).trigpend ≡ pending w pend
    → IsValid owners w
    → Ends (IsNoting owners pend trig w) (record_pending fuel pend trig w)
unfolding record_pending trig_note_pend trig_note_pend_core
record_pending-IsNoting fuel owners l pend trig w e s h =
    elim (Bool-cases (is_noted trig (w.pkgs pend).trigpend)) [
      | inl d ↦ rw d (record {
        followed = same-IsFollowed owners w h;
        noting = ap (is_noted trig) (sym s) ∙ d;
      })
      | inr d ↦ rw d (
          Ends-map (IsFollowed owners x) (IsNoting owners pend trig w)
            (modstatdb_note_ifwrite fuel pend x)
            (ifwrite-IsFollowed fuel owners l pend x x (same-IsFollowed owners x f.valid))
            (λ y k. record {
              followed = then-IsFollowed owners w x y f k;
              noting = k.lossless pend trig now;
            }))
    ]
  where
    x : World
    x = put_pkg w pend (noted trig (w.pkgs pend))

    f : IsFollowed owners w x
    f = noted-IsFollowed owners pend trig w e h

    self : (pend == pend) ≡ true
    self = ground arith

    now : is_noted trig (pending x pend) ≡ true
    now = rw (self, pending) (noted_has trig (w.pkgs pend) e)
