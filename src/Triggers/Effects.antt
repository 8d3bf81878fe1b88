-- ===== src/Triggers/Effects.antt =====
-- lib/dpkg/dbmodify.c and lib/dpkg/triglib.c: what notes and activations achieve.
use dpkg.Pkg.{configfiles, status_rank, triggersawaited}
use dpkg.Triggers.Noting.{IsNoting, record_pending-IsNoting}
use dpkg.Triggers.Activation.{
  IsFollowed, IsValid, record_pending-IsFollowed, same-IsFollowed, then-IsFollowed,
}
use dpkg.Triggers.Lists.{length-unlink_le}
use dpkg.Triggers.Calls.{Ends-map, NoteKeeps}
use dpkg.Triggers.Clearing.{IsCleared, clear_loop-empties}
use dpkg.Triggers.Depth.{IsNote, modstatdb_note-keeps}
use dpkg.Triggers.{
  Outcome, TrigAw, World, awaits, clear_loop, done, fixup_loop, has, is_nil, is_noted,
  modstatdb_note, put_pkg, record_awaiter, record_pending, trig_clear_awaiters, trig_fixup_awaiters,
  trig_record_activation, unlink, ◌>>=◌,
}
use dpkg.Triggers.Awaiter.{record_awaiter-IsFollowed}
use dpkg.Triggers.Linked.{clash}
use dpkg.Triggers.Notes.{Ends, Ends-bind, IsKept, awaiting, others, pending}
use dpkg.Base.{
  Bool, Bool-cases, CString, List, Option, [], ap, arith, false, if◌then◌else◌, inl, inr, length,
  ltb, none, refl, some, sym, true, ℕ, ◌<◌, ◌==◌, ◌∙◌, ◌∷◌, ◌≡◌, ◌⊎◌,
}

-- On valid lists of triggers, with fuel above the number of awaited packages, noting a package
-- ends: no stanza is refused, no node is unlinked from a list without it and the calls are never
-- deeper than the fuel; the lists stay valid and every package keeps the pending triggers that its
-- status allows.
pub modstatdb_note-IsValid :
    (fuel : ℕ) (owners : List ℕ) (p : ℕ) (w : World)
    → length owners < fuel
    → IsValid owners w
    → Ends (λ x. IsValid owners x × ((q : ℕ) → pending x q ≡ pending w q)) (modstatdb_note fuel p w)
modstatdb_note-IsValid fuel owners p w l h =
    Ends-map (IsNote w [] owners p) _ (modstatdb_note fuel p w)
      (modstatdb_note-keeps fuel owners l p w [] h.consistent h.ready)
      (λ x n.
        (record { consistent = n.kept.consistent; ready = n.kept.ready }, n.kept.pending_kept))

-- A list of nodes none of which is for the package.
none_awaits :
    (nodes : ℕ → TrigAw) (p : ℕ) (ns : List ℕ)
    → ((n : ℕ) → has n ns ≡ true → (nodes n).pend ≡ p → ⊥)
    → awaits nodes p ns ≡ false
unfolding awaits
none_awaits nodes p [] h = refl
none_awaits nodes p (n ∷ ns) h = elim (Bool-cases ((nodes n).pend == p)) [
  | inl e ↦ absurd (h n (ground arith) (ground arith))
  | inr e ↦ rw (e, none_awaits nodes p ns (λ m k. h m (later m k (Bool-cases (m == n))))) refl
]
  where
    later :
        (m : ℕ) → has m ns ≡ true → ((m == n) ≡ true) ⊎ ((m == n) ≡ false) → has m (n ∷ ns) ≡ true
    later m k (inl e) = rw e refl
    later m k (inr e) = rw e k

-- On such lists, noting a package whose status leaves it no pending triggers ends so that no
-- package awaits it.
pub modstatdb_note-unawaited :
    (fuel : ℕ) (owners : List ℕ) (p : ℕ) (w : World)
    → length owners < fuel
    → IsValid owners w
    → pending w p ≡ []
    → Ends (λ x. (a : ℕ) → awaits x.nodes p (x.pkgs a).trigaw ≡ false) (modstatdb_note fuel p w)
modstatdb_note-unawaited fuel owners p w l h e =
    Ends-map (IsNote w [] owners p) _ (modstatdb_note fuel p w)
      (modstatdb_note-keeps fuel owners l p w [] h.consistent h.ready)
      (λ x n a. none_awaits x.nodes p (awaiting x a) (λ m k f. gone x n a m k f))
  where
    gone :
        (x : World)
        → IsNote w [] owners p x
        → (a m : ℕ) → has m (awaiting x a) ≡ true
        → (x.nodes m).pend ≡ p
        → ⊥
    gone x n a m k f = elim (n.kept.consistent.awaited_live m a k) [
      | inl r ↦ clash refl r
      | inr r ↦ clash refl (ap (has m) (sym (ap (others x) f ∙ n.nobody (ap is_nil e))) ∙ r)
    ]

module _ (fuel : ℕ) (owners : List ℕ) (pend : ℕ) (trig : CString) where
  -- The rest of an activation, behind the part about the pending package.
  abbrev next : Option ℕ → World → Outcome World
  next none x = done x
  next (some a) x =
      if ltb (status_rank configfiles) (status_rank (x.pkgs pend).status)
      then record_awaiter fuel pend a x
      else done x

  next-IsFollowed :
      (aw : Option ℕ) (w x : World)
      → length owners < fuel
      → has pend owners ≡ true
      → IsFollowed owners w x
      → Ends (IsFollowed owners w) (next aw x)
  next-IsFollowed none w x l o k = k
  next-IsFollowed (some a) w x l o k =
      elim (Bool-cases (ltb (status_rank configfiles) (status_rank (x.pkgs pend).status))) [
        | inl d ↦ rw d (
            Ends-map (IsFollowed owners x) (IsFollowed owners w) (record_awaiter fuel pend a x)
              (record_awaiter-IsFollowed fuel owners l pend a x o k.valid)
              (λ y f. then-IsFollowed owners w x y k f))
        | inr d ↦ rw d k
      ]

  activation-IsFollowed :
      (aw : Option ℕ) (w : World)
      → length owners < fuel
      → has pend owners ≡ true
      → IsValid owners w
      → Ends (IsFollowed owners w) (trig_record_activation fuel pend aw trig w)
  unfolding trig_record_activation
  activation-IsFollowed aw w l o h =
      elim (Bool-cases (ltb (status_rank (w.pkgs pend).status) (status_rank triggersawaited))) [
        | inl d ↦ rw d (same-IsFollowed owners w h)
        | inr d ↦ rw d (by_aw aw (record_pending-IsFollowed fuel owners l pend trig w d h))
      ]
    where
      by_aw :
          (aw : Option ℕ)
          → Ends (IsFollowed owners w) (record_pending fuel pend trig w)
          → Ends (IsFollowed owners w) (
              record_pending fuel pend trig w >>= λ x. elim aw [
                | none ↦ done x
                | some a ↦
                    if ltb (status_rank configfiles) (status_rank (x.pkgs pend).status)
                    then record_awaiter fuel pend a x
                    else done x
              ])
      by_aw none k =
          Ends-bind (IsFollowed owners w) (IsFollowed owners w) (record_pending fuel pend trig w) _
            k (λ x f. f)
      by_aw (some a) k =
          Ends-bind (IsFollowed owners w) (IsFollowed owners w) (record_pending fuel pend trig w) _
            k (λ x f. next-IsFollowed (some a) w x l o f)

-- On such lists, where the package may have triggers pending by its status and has no others, and
-- some package may await it, recording an activation ends with the trigger pending for the package,
-- whichever package awaits.
pub trig_record_activation-is_noted :
    (fuel : ℕ) (owners : List ℕ) (pend : ℕ) (aw : Option ℕ) (trig : CString) (w : World)
    → length owners < fuel
    → has pend owners ≡ true
    → IsValid owners w
    → ltb (status_rank (w.pkgs pend).status) (status_rank triggersawaited) ≡ false
    → (w.pkgs pend).trigpend ≡ pending w pend
    → Ends (λ x. is_noted trig (pending x pend) ≡ true) (trig_record_activation fuel pend aw trig w)
unfolding trig_record_activation
trig_record_activation-is_noted fuel owners pend aw trig w l o h e s = rw e (by_aw aw)
  where
    pended : Ends (IsNoting owners pend trig w) (record_pending fuel pend trig w)
    pended = record_pending-IsNoting fuel owners l pend trig w e s h

    by_aw :
        (aw : Option ℕ)
        → Ends
            (λ x. is_noted trig (pending x pend) ≡ true)
            (record_pending fuel pend trig w >>= λ x. elim aw [
              | none ↦ done x
              | some a ↦
                  if ltb (status_rank configfiles) (status_rank (x.pkgs pend).status)
                  then record_awaiter fuel pend a x
                  else done x
            ])
    by_aw none =
        Ends-bind (IsNoting owners pend trig w) (λ x. is_noted trig (pending x pend) ≡ true)
          (record_pending fuel pend trig w) _ pended (λ x k. k.noting)
    by_aw (some a) =
        Ends-bind (IsNoting owners pend trig w) (λ x. is_noted trig (pending x pend) ≡ true)
          (record_pending fuel pend trig w) _ pended
          (λ x k.
            Ends-map (IsFollowed owners x) _ (next fuel owners pend trig (some a) x)
              (next-IsFollowed fuel owners pend trig (some a) x x l o
                (same-IsFollowed owners x k.followed.valid))
              (λ y f. f.lossless pend trig k.noting))

-- On such lists, recording an activation of a package that may be awaited, by any package or none,
-- ends with valid lists.
pub trig_record_activation-IsValid :
    (fuel : ℕ) (owners : List ℕ) (pend : ℕ) (aw : Option ℕ) (trig : CString) (w : World)
    → length owners < fuel
    → has pend owners ≡ true
    → IsValid owners w
    → Ends (IsValid owners) (trig_record_activation fuel pend aw trig w)
trig_record_activation-IsValid fuel owners pend aw trig w l o h =
    Ends-map (IsFollowed owners w) (IsValid owners) (trig_record_activation fuel pend aw trig w)
      (activation-IsFollowed fuel owners pend trig aw w l o h) (λ x k. k.valid)

-- On such lists, recording an activation loses no trigger that is pending for any package.
pub trig_record_activation-lossless :
    (fuel : ℕ) (owners : List ℕ) (pend : ℕ) (aw : Option ℕ) (trig : CString) (w : World) (q : ℕ)
    (t : CString)
    → length owners < fuel
    → has pend owners ≡ true
    → IsValid owners w
    → is_noted t (pending w q) ≡ true
    → Ends (λ x. is_noted t (pending x q) ≡ true) (trig_record_activation fuel pend aw trig w)
trig_record_activation-lossless fuel owners pend aw trig w q t l o h k =
    Ends-map (IsFollowed owners w) _ (trig_record_activation fuel pend aw trig w)
      (activation-IsFollowed fuel owners pend trig aw w l o h) (λ x f. f.lossless q t k)

-- On such lists, clearing the awaiters of the packages that the status file awaits ends with valid
-- lists.
pub trig_fixup_awaiters-IsValid :
    (fuel : ℕ) (owners head : List ℕ) (w : World)
    → length owners < fuel
    → IsValid owners w
    → Ends (λ (r : World × List ℕ). IsValid owners r.0) (trig_fixup_awaiters fuel head w)
unfolding trig_fixup_awaiters fixup_loop trig_clear_awaiters
trig_fixup_awaiters-IsValid fuel owners head w l h = by_writable w.writable
  where
    deep : (p : ℕ) → NoteKeeps (modstatdb_note fuel) (unlink p owners)
    deep p q x rest c r =
        let less : length (unlink p owners) < fuel = omega (arith, l, length-unlink_le p owners) in
        Ends-map (IsNote x rest (unlink p owners) q) (IsKept x rest (unlink p owners))
          (modstatdb_note fuel q x) (modstatdb_note-keeps fuel (unlink p owners) less q x rest c r)
          (λ y n. n.kept)

    cleared :
        (p : ℕ) (w : World)
        → IsValid owners w
        → Ends
            (IsValid owners)
            (if is_nil (w.pkgs p).trigpend then trig_clear_awaiters fuel p w else done w)
    cleared p w h = elim (Bool-cases (is_nil (w.pkgs p).trigpend)) [
      | inl d ↦ rw d (
          Ends-map (IsCleared w [] owners p) (IsValid owners)
            (clear_loop (modstatdb_note fuel) (others w p)
              (put_pkg w p (record (w.pkgs p) { othertrigaw = [] })))
            (clear_loop-empties (modstatdb_note fuel) p w [] owners (deep p) h.consistent h.ready)
            (λ y c. record { consistent = c.kept.consistent; ready = c.kept.ready }))
      | inr d ↦ rw d h
    ]

    loop :
        (ps : List ℕ) (w : World) → IsValid owners w → Ends (IsValid owners) (fixup_loop fuel ps w)
    loop [] w h = h
    loop (p ∷ ps) w h =
        Ends-bind (IsValid owners) (IsValid owners)
          (if is_nil (w.pkgs p).trigpend then trig_clear_awaiters fuel p w else done w)
          (fixup_loop fuel ps) (cleared p w h) (loop ps)

    by_writable :
        (b : Bool)
        → Ends
            (λ (r : World × List ℕ). IsValid owners r.0)
            (if b then (fixup_loop fuel head w >>= λ x. done (x, [])) else done (w, head))
    by_writable false = h
    by_writable true =
        Ends-bind (IsValid owners) (λ (r : World × List ℕ). IsValid owners r.0)
          (fixup_loop fuel head w) (λ x. done (x, [])) (loop head w h) (λ x k. k)
