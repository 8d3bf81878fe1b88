-- ===== src/Triggers/Depth.antt =====
-- lib/dpkg/dbmodify.c: how deep `modstatdb_note` and `trig_clear_awaiters` call each other.
use mathlib.Core.Path.{subst}
use dpkg.Triggers.Notes.{
  Ends, Ends-bind, IsConsistent, IsKept, IsLinked-same, IsReady, IsReady-put, awaiting, others,
  pending_put, put_other, put_same, settled_pending,
}
use dpkg.Triggers.Updates.{forget-IsLinked}
use dpkg.Triggers.Calls.{Ends-map, NoteKeeps, kept_trans}
use dpkg.Triggers.{
  Outcome, Package, World, clear_loop, done, has, is_low, is_nil, modstatdb_note,
  modstatdb_note_core, note_awaiters, put, put_pkg, settle, settled, unlink, w_status_ok,
}
use dpkg.Triggers.Linked.{IsLinked, clash}
use dpkg.Triggers.Lists.{length-unlink}
use dpkg.Pkg.{
  PkgStatus, configfiles, halfconfigured, halfinstalled, installed, notinstalled, triggersawaited,
  triggerspending, unpacked,
}
use dpkg.Base.{
  Bool, Bool-cases, CString, List, [], ap, arith, false, if◌then◌else◌, inl, inr, length, refl, suc,
  sym, true, zero, ℕ, ◌<◌, ◌==◌, ◌∙◌, ◌∷◌, ◌≡◌, ◌⊎◌,
}
use dpkg.Triggers.Clearing.{IsCleared, clear_loop-empties}

-- What a note of a package leaves: in addition, nothing awaits it if it has no pending triggers.
pub record IsNote (w : World) (rest owners : List ℕ) (p : ℕ) (x : World) : Type 0 where
  pub kept : IsKept w rest owners x
  pub nobody : is_nil (settled (w.pkgs p)).trigpend ≡ true → others x p ≡ []

nil_empty : (xs : List ℕ) → is_nil xs ≡ true → xs ≡ []
nil_empty [] h = refl
nil_empty (x ∷ xs) h = absurd (clash refl h)

-- The state of a package after the first part of its note.
settle_same : (p : ℕ) (w : World) → (settle p w).pkgs p ≡ settled (w.pkgs p)
unfolding settle
settle_same p w = let d : (p == p) ≡ true = ground arith in rw d refl

settled-ready :
    (v : Package) → w_status_ok (settled v) ≡ true → w_status_ok (settled (settled v)) ≡ true
settled-ready v = by_status v.status v.status_dirty v.trigpend v.trigaw v.othertrigaw
  where
    by_status :
        (s : PkgStatus) (d : Bool) (t : List CString) (a o : List ℕ)
        → let v : Package = record {
          status = s;
          status_dirty = d;
          trigpend = t;
          trigaw = a;
          othertrigaw = o;
        } in
          w_status_ok (settled v) ≡ true → w_status_ok (settled (settled v)) ≡ true
    by_status triggersawaited d t a o h = h
    by_status triggerspending d t a o h = h
    by_status installed d t a o h = h
    by_status notinstalled d t a o h = h
    by_status configfiles d t a o h = h
    by_status halfinstalled d t a o h = h
    by_status unpacked d t a o h = h
    by_status halfconfigured d t a o h = h

settle-keeps :
    (p : ℕ) (w : World) (rest owners : List ℕ)
    → IsConsistent w rest owners
    → IsReady w
    → IsKept w rest owners (settle p w)
unfolding settle
settle-keeps p w rest owners h r = record {
  consistent = by_low (is_low v.status) refl;
  ready = IsReady-put w p (settled (w.pkgs p)) r (settled-ready (w.pkgs p) (r p));
  pending_kept = pending_put w p (settled (w.pkgs p)) (settled_pending (w.pkgs p));
  unawaited =
      λ q e. ap (λ f. f q) (put_same Package.othertrigaw w.pkgs p (settled (w.pkgs p)) refl) ∙ e;
}
  where
    v : Package
    v = w.pkgs p

    by_low : (b : Bool) → is_low v.status ≡ b → IsConsistent (settle p w) rest owners
    by_low true e =
        subst
          (λ nodes.
            IsLinked (awaiting (settle p w)) (others (settle p w)) nodes w.next_node rest owners)
          (sym (rw e refl))
          (IsLinked-same
            (put_other Package.trigaw w.pkgs p (settled v) ∙ ap (put (awaiting w) p) (rw e refl))
            (put_same Package.othertrigaw w.pkgs p (settled v) refl)
            (forget-IsLinked (awaiting w) (others w) w.nodes w.next_node p rest owners h))
    by_low false e =
        subst
          (λ nodes.
            IsLinked (awaiting (settle p w)) (others (settle p w)) nodes w.next_node rest owners)
          (sym (rw e refl))
          (IsLinked-same (put_same Package.trigaw w.pkgs p (settled v) (rw e refl))
            (put_same Package.othertrigaw w.pkgs p (settled v) refl) h)

-- What the first part of a note leaves.
record IsFirst (w : World) (rest owners : List ℕ) (p : ℕ) (x : World) : Type 0 where
  first : IsKept w rest owners x
  same : x.pkgs p ≡ settled (w.pkgs p)

core-keeps :
    (p : ℕ) (w : World) (rest owners : List ℕ)
    → IsConsistent w rest owners
    → IsReady w
    → Ends
        (IsFirst w rest owners p)
        (if w.writable then modstatdb_note_core p (settle p w) else done (settle p w))
unfolding modstatdb_note_core
core-keeps p w rest owners h r = by_writable w.writable
  where
    k : IsKept w rest owners (settle p w)
    k = settle-keeps p w rest owners h r

    ok : w_status_ok ((settle p w).pkgs p) ≡ true
    ok = ap w_status_ok (settle_same p w) ∙ r p

    by_writable :
        (b : Bool)
        → Ends
            (IsFirst w rest owners p)
            (if b then modstatdb_note_core p (settle p w) else done (settle p w))
    by_writable false = record { first = k; same = settle_same p w }
    by_writable true = rw ok (record {
      first = record {
        consistent = k.consistent;
        ready = k.ready;
        unawaited = k.unawaited;
        pending_kept = k.pending_kept;
      };
      same = settle_same p w;
    })

note_awaiters-keeps :
    (note : ℕ → World → Outcome World) (p : ℕ) (w x : World) (rest owners : List ℕ)
    → (has p owners ≡ true → NoteKeeps note (unlink p owners))
    → IsFirst w rest owners p x
    → Ends (IsNote w rest owners p) (note_awaiters note p x)
unfolding note_awaiters
note_awaiters-keeps note p w x rest owners keeps f =
    by_lists (Bool-cases (is_nil (x.pkgs p).trigpend)) (Bool-cases (is_nil (others x p)))
  where
    k : IsKept w rest owners x
    k = f.first

    pending : is_nil (x.pkgs p).trigpend ≡ is_nil (settled (w.pkgs p)).trigpend
    pending = ap (λ v. is_nil (Package.trigpend v)) f.same

    owner :
        is_nil (others x p) ≡ false
        → (has p owners ≡ true) ⊎ (has p owners ≡ false)
        → has p owners ≡ true
    owner e (inl h) = h
    owner e (inr h) = absurd (clash e (ap is_nil (k.consistent.owned p h)))

    by_lists :
        (is_nil (x.pkgs p).trigpend ≡ true) ⊎ (is_nil (x.pkgs p).trigpend ≡ false)
        → (is_nil (others x p) ≡ true) ⊎ (is_nil (others x p) ≡ false)
        → Ends (IsNote w rest owners p) (note_awaiters note p x)
    by_lists (inr e) d =
        rw e (record { kept = k; nobody = λ h. absurd (clash (sym pending ∙ e) h) })
    by_lists (inl e) (inl d) =
        rw (e, d) (record { kept = k; nobody = λ h. nil_empty (others x p) d })
    by_lists (inl e) (inr d) =
        rw (e, d)
          (Ends-map (IsCleared x rest owners p) (IsNote w rest owners p)
            (clear_loop note (others x p) (put_pkg x p (record (x.pkgs p) { othertrigaw = [] })))
            (clear_loop-empties note p x rest owners (keeps (owner d (Bool-cases (has p owners))))
              k.consistent k.ready)
            (λ y c. record {
              kept = kept_trans w x y rest owners k.unawaited k.pending_kept c.kept;
              nobody = λ h. c.nobody;
            }))

-- A note of a package ends properly if the fuel exceeds the number of awaited packages.
pub modstatdb_note-keeps :
    (fuel : ℕ) (owners : List ℕ)
    → length owners < fuel
    → (p : ℕ) (w : World) (rest : List ℕ) → IsConsistent w rest owners
    → IsReady w
    → Ends (IsNote w rest owners p) (modstatdb_note fuel p w)
unfolding modstatdb_note
modstatdb_note-keeps zero owners l p w rest h r = omega (arith, l)
modstatdb_note-keeps (suc fuel) owners l p w rest h r =
    Ends-bind (IsFirst w rest owners p) (IsNote w rest owners p)
      (if w.writable then modstatdb_note_core p (settle p w) else done (settle p w))
      (note_awaiters (modstatdb_note fuel) p) (core-keeps p w rest owners h r)
      (λ x f.
        note_awaiters-keeps (modstatdb_note fuel) p w x rest owners
          (λ o. deeper (
            modstatdb_note-keeps fuel (unlink p owners)
              (omega (arith, l, length-unlink p owners o))))
          f)
  where
    deeper :
        ((q : ℕ) (w : World) (rest : List ℕ)
          → IsConsistent w rest (unlink p owners)
          → IsReady w
          → Ends (IsNote w rest (unlink p owners) q) (modstatdb_note fuel q w))
        → NoteKeeps (modstatdb_note fuel) (unlink p owners)
    deeper g q w rest h r =
        Ends-map (IsNote w rest (unlink p owners) q) (IsKept w rest (unlink p owners))
          (modstatdb_note fuel q w) (g q w rest h r) (λ x k. k.kept)
