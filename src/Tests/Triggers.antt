-- ===== src/Tests/Triggers.antt =====
-- Examples for Triggers.
use dpkg.Triggers.Transitional.{trig_transitional_activate, trig_transitional_activate-w_status_ok}
use dpkg.Triggers.{
  Outcome, Package, World, awaits, done, internerr, is_nil, is_noted, modstatdb_note, put_pkg,
  settled, stuck, trig_fixup_awaiters, trig_record_activation, undefined, w_status_ok,
}
use dpkg.Triggers.Linked.{clash}
use dpkg.Triggers.Notes.{Ends, pending}
use dpkg.Triggers.Activation.{IsValid, replace-IsValid}
use dpkg.Triggers.Effects.{
  modstatdb_note-IsValid, modstatdb_note-unawaited, trig_fixup_awaiters-IsValid,
  trig_record_activation-IsValid, trig_record_activation-is_noted, trig_record_activation-lossless,
}
use dpkg.Pkg.{installed, triggersawaited, triggerspending}
use dpkg.Triggers.Cycle.{Cycle, check_trigger_cycle, trigproc_new_cyclenode, trigproc_reset_cycle}
use dpkg.Triggers.Cycle.Filled.{AllFilled, IsTidy}
use dpkg.Triggers.Cycle.Safety.{IsChecked, check_trigger_cycle-IsChecked, is_some}
use dpkg.Triggers.Cycle.Tracking.{IsRun, call, reset}
use dpkg.Triggers.Cycle.Runs.{check_trigger_cycle-gives_up}
use dpkg.Base.{
  Bool, Bool-cases, CString, List, [], ap, arith, codes, false, inl, inr, none, refl, some, str_eq,
  suc, true, zero, ℕ, ◌+◌, ◌==◌, ◌∷◌, ◌≡◌, ◌≤◌,
}

abbrev plain : Package
plain = record {
  status = installed;
  status_dirty = false;
  trigpend = [];
  trigaw = [];
  othertrigaw = [];
}

abbrev nothing_awaited : World
nothing_awaited = record {
  pkgs = λ p. plain;
  nodes = λ n. record { aw = none; pend = 0 };
  next_node = 0;
  writable = true;
  written = [];
}

nothing_awaited-IsValid : (owners : List ℕ) → IsValid owners nothing_awaited
nothing_awaited-IsValid owners = record {
  consistent = record {
    rest_apart = tt;
    rest_only = λ n p k. refl;
    other_apart = λ p. tt;
    awaited_apart = λ a. tt;
    owner = λ n p k. absurd (clash refl k);
    rest_linked = λ n a k. absurd (clash refl k);
    other_linked = λ n p a k. absurd (clash refl k);
    awaited_aw = λ n a k. absurd (clash refl k);
    awaited_live = λ n a k. absurd (clash refl k);
    owned = λ p k. refl;
    rest_old = λ n k. absurd (clash refl k);
    other_old = λ n p k. absurd (clash refl k);
  };
  ready = λ q. refl;
}

-- The world at the end of a call that ends properly.
abbrev value_of : Outcome World → World
value_of (done w) = w
value_of _ = nothing_awaited

abbrev is_done : Outcome World → Bool
is_done (done w) = true
is_done _ = false

value_of_ends :
    (P : World → Type 0) (o : Outcome World) → is_done o ≡ true → Ends P o → P (value_of o)
value_of_ends P (done w) e h = h
value_of_ends P internerr e h = absurd h
value_of_ends P undefined e h = absurd h
value_of_ends P stuck e h = absurd h

-- Package 2 awaits package 1, which a trigger is pending for.
abbrev awaited : World
awaited = value_of (trig_record_activation 3 1 (some 2) (codes "man-db") nothing_awaited)

awaited-IsValid : IsValid (1 ∷ []) awaited
unfolding trig_record_activation
awaited-IsValid =
    value_of_ends (IsValid (1 ∷ []))
      (trig_record_activation 3 1 (some 2) (codes "man-db") nothing_awaited) refl
      (trig_record_activation-IsValid 3 (1 ∷ []) 1 (some 2) (codes "man-db") nothing_awaited
        (omega arith) refl (nothing_awaited-IsValid (1 ∷ [])))

awaited_status :
    ((awaited.pkgs 1).status ≡ triggerspending) × ((awaited.pkgs 2).status ≡ triggersawaited)
unfolding trig_record_activation
awaited_status = (refl, refl)

trig_record_activation-IsValid_example :
    Ends (IsValid (1 ∷ [])) (trig_record_activation 3 1 (some 2) (codes "man-db") nothing_awaited)
trig_record_activation-IsValid_example =
    trig_record_activation-IsValid 3 (1 ∷ []) 1 (some 2) (codes "man-db") nothing_awaited
      (omega arith) refl (nothing_awaited-IsValid (1 ∷ []))

trig_record_activation-is_noted_example :
    Ends
      (λ x. is_noted (codes "man-db") (pending x 1) ≡ true)
      (trig_record_activation 3 1 (some 2) (codes "man-db") nothing_awaited)
trig_record_activation-is_noted_example =
    trig_record_activation-is_noted 3 (1 ∷ []) 1 (some 2) (codes "man-db") nothing_awaited
      (omega arith) refl (nothing_awaited-IsValid (1 ∷ [])) refl refl

still : is_noted (codes "man-db") (pending awaited 1) ≡ true
unfolding trig_record_activation str_eq
still = refl

trig_record_activation-lossless_example :
    Ends
      (λ x. is_noted (codes "man-db") (pending x 1) ≡ true)
      (trig_record_activation 2 1 none (codes "ldconfig") awaited)
trig_record_activation-lossless_example =
    trig_record_activation-lossless 2 (1 ∷ []) 1 none (codes "ldconfig") awaited 1 (codes "man-db")
      (omega arith) refl awaited-IsValid still

modstatdb_note-IsValid_example :
    Ends
      (λ x. IsValid (1 ∷ []) x × ((q : ℕ) → pending x q ≡ pending awaited q))
      (modstatdb_note 2 2 awaited)
modstatdb_note-IsValid_example =
    modstatdb_note-IsValid 2 (1 ∷ []) 2 awaited (omega arith) awaited-IsValid

-- Package 1 once its triggers are processed.
abbrev processed : World
processed = put_pkg awaited 1 (record (awaited.pkgs 1) { status = installed; trigpend = [] })

settles :
    w_status_ok (settled (record (awaited.pkgs 1) { status = installed; trigpend = [] })) ≡ true
unfolding trig_record_activation
settles = refl

processed-IsValid : IsValid (1 ∷ []) processed
processed-IsValid =
    replace-IsValid (1 ∷ []) awaited 1
      (record (awaited.pkgs 1) { status = installed; trigpend = [] }) refl refl settles
      awaited-IsValid

modstatdb_note-unawaited_example :
    Ends (λ x. (a : ℕ) → awaits x.nodes 1 (x.pkgs a).trigaw ≡ false) (modstatdb_note 2 1 processed)
modstatdb_note-unawaited_example =
    modstatdb_note-unawaited 2 (1 ∷ []) 1 processed (omega arith) processed-IsValid refl

-- The package that awaited it is installed then.
processed_status : ((value_of (modstatdb_note 2 1 processed)).pkgs 2).status ≡ installed
unfolding modstatdb_note trig_record_activation
processed_status = refl

trig_fixup_awaiters-IsValid_example :
    Ends (λ (r : World × List ℕ). IsValid (1 ∷ []) r.0) (trig_fixup_awaiters 2 (1 ∷ []) processed)
trig_fixup_awaiters-IsValid_example =
    trig_fixup_awaiters-IsValid 2 (1 ∷ []) (1 ∷ []) processed (omega arith) processed-IsValid

-- A world in which one package has a pending trigger.
abbrev looping : CString → World
looping trig =
    put_pkg nothing_awaited 1 (record plain { status = triggerspending; trigpend = trig ∷ [] })

looping-IsValid : (trig : CString) → IsValid [] (looping trig)
looping-IsValid trig =
    replace-IsValid [] nothing_awaited 1
      (record plain { status = triggerspending; trigpend = trig ∷ [] }) refl refl refl
      (nothing_awaited-IsValid [])

looping-IsTidy : (trig : CString) → IsTidy (looping trig)
looping-IsTidy trig p = elim (Bool-cases (1 == p)) [
  | inl e ↦ rw (e, pending) refl
  | inr e ↦ rw (e, pending) refl
]

abbrev once : Cycle
once = record {
  tortoise_advance = false;
  chain = trigproc_new_cyclenode (1 ∷ []) 1 (looping (codes "a")) ∷ [];
}

once_filled : AllFilled once.chain
unfolding trigproc_new_cyclenode
once_filled = (refl, (refl, tt), tt)

check_trigger_cycle-IsChecked_example :
    Ends (IsChecked []) (check_trigger_cycle 1 (1 ∷ []) 1 (looping (codes "a")) once)
check_trigger_cycle-IsChecked_example =
    check_trigger_cycle-IsChecked 1 [] (1 ∷ []) 1 (looping (codes "a")) once (omega arith)
      (looping-IsValid (codes "a")) (looping-IsTidy (codes "a")) refl refl once_filled

-- Another trigger is pending at the first call than at the later ones.
abbrev worlds : ℕ → World
worlds zero = looping (codes "a")
worlds (suc i) = looping (codes "b")

abbrev twice : Cycle
twice = record {
  tortoise_advance = true;
  chain =
      trigproc_new_cyclenode (1 ∷ []) 1 (looping (codes "a"))
      ∷ trigproc_new_cyclenode (1 ∷ []) 1 (looping (codes "b"))
      ∷ [];
}

two_calls : IsRun 1 (1 ∷ []) (λ i. 1) worlds 2 twice
unfolding trigproc_reset_cycle check_trigger_cycle str_eq
two_calls =
    call {c = once} {x = looping (codes "b")}
      (call {c = trigproc_reset_cycle} {x = looping (codes "a")} reset refl) refl

same_worlds : (i p : ℕ) → 1 ≤ i → ((worlds (i + 1)).pkgs p).trigpend ≡ ((worlds i).pkgs p).trigpend
same_worlds zero p l = absurd (omega (arith, l))
same_worlds (suc i) p l =
    let e : suc i + 1 ≡ suc (suc i) = omega arith in ap (λ j. ((worlds j).pkgs p).trigpend) e

check_trigger_cycle-gives_up_example :
    Ends (λ r. is_some r.2 ≡ true) (check_trigger_cycle 1 (1 ∷ []) 1 (looping (codes "b")) twice)
check_trigger_cycle-gives_up_example =
    check_trigger_cycle-gives_up 1 [] (1 ∷ []) (λ i. 1) worlds 1 1 1 twice (omega arith) same_worlds
      (λ i. refl) pends (omega arith) (omega arith) (looping-IsValid (codes "b"))
      (looping-IsTidy (codes "b")) two_calls
  where
    pends : (i : ℕ) → is_nil ((worlds i).pkgs 1).trigpend ≡ false
    pends zero = refl
    pends (suc i) = refl

-- The status file of one package says that it awaits triggers, which it does not.
trig_transitional_activate-w_status_ok_example :
    w_status_ok (
      trig_transitional_activate
        (λ p. codes "ldconfig" ∷ [])
        (λ p. record plain { status = triggersawaited })
        1)
    ≡ true
trig_transitional_activate-w_status_ok_example =
    trig_transitional_activate-w_status_ok (λ p. codes "ldconfig" ∷ [])
      (λ p. record plain { status = triggersawaited }) 1 refl
