-- ===== src/Triggers/Cycle/Runs.antt =====
-- src/main/trigproc.c: runs of check_trigger_cycle, of which one gives up if the pending triggers
-- repeat.
use mathlib.Core.Path.{subst}
use dpkg.Triggers.Activation.{IsValid}
use dpkg.Triggers.Calls.{Ends-map}
use dpkg.Triggers.Notes.{Ends, and_left, and_right, pending}
use dpkg.Triggers.Cycle.Filled.{AllFilled, IsTidy}
use dpkg.Triggers.Cycle.Safety.{IsGivenUp, give_up-IsGivenUp, is_some, new_cyclenode-AllFilled}
use dpkg.Triggers.Linked.{or_right}
use dpkg.Triggers.Cycle.{
  Cycle, CycleNode, CyclePackage, all_noted, check_trigger_cycle, compare_hare, cycle_packages,
  follow, is_superset, tortoise_in_hare, trigproc_new_cyclenode,
}
use dpkg.Triggers.{World, has, is_nil, is_noted}
use dpkg.Base.{
  Bool, Bool-cases, CString, List, [], ap, arith, false, if◌then◌else◌, inl, inr, length, refl,
  str_eq, str_eq_refl, suc, sym, true, zero, ℕ, ◌*◌, ◌+◌, ◌<◌, ◌∙◌, ◌∷◌, ◌≡◌, ◌≤◌,
}
use dpkg.Triggers.Cycle.Tracking.{IsRun, moved, node, run_state, segment, state, state_odd}

-- Pending triggers that repeat, repeat again.
repeats :
    (pend : ℕ → List CString) (start period : ℕ)
    → ((i : ℕ) → start ≤ i → pend (i + period) ≡ pend i)
    → (k i : ℕ) → start ≤ i
    → pend (i + k * period) ≡ pend i
repeats pend start period h zero i l = ap pend (omega arith)
repeats pend start period h (suc k) i l =
    let e : i + suc k * period ≡ i + k * period + period = omega arith in
    ap pend e ∙ h (i + k * period) (omega (arith, l)) ∙ repeats pend start period h k i l

all_noted-later :
    (trigs pending : List CString) (p : CString)
    → all_noted trigs pending ≡ true
    → all_noted trigs (p ∷ pending) ≡ true
unfolding all_noted
all_noted-later [] pending p h = refl
all_noted-later (t ∷ trigs) pending p h =
    let now = and_left (is_noted t pending) (all_noted trigs pending) h in
    let rest = and_right (is_noted t pending) (all_noted trigs pending) h in
    rw (or_right (str_eq p t) (is_noted t pending) now) (all_noted-later trigs pending p rest)

all_noted_self : (trigs : List CString) → all_noted trigs trigs ≡ true
unfolding all_noted
all_noted_self [] = refl
all_noted_self (t ∷ trigs) =
    rw (str_eq_refl t) (all_noted-later trigs trigs t (all_noted_self trigs))

-- The packages noted in a world are a subset of those in another one with the same pending triggers.
same-is_superset :
    (w x : World) (all : List ℕ) (found : List CyclePackage)
    → ((p : ℕ) → (x.pkgs p).trigpend ≡ (w.pkgs p).trigpend)
    → is_superset x found ≡ true
    → is_superset x (cycle_packages w all found) ≡ true
unfolding is_superset cycle_packages tortoise_in_hare
same-is_superset w x [] found h s = s
same-is_superset w x (p ∷ all) found h s = elim (Bool-cases (is_nil (w.pkgs p).trigpend)) [
  | inl e ↦ rw e (same-is_superset w x all found h s)
  | inr e ↦
      let noted : all_noted (w.pkgs p).trigpend (x.pkgs p).trigpend ≡ true =
        rw (h p) (all_noted_self (w.pkgs p).trigpend) in
      rw e (same-is_superset w x all (_ ∷ found) h (rw (noted, s) refl))
]

moved_some : (tcn : CycleNode) (c : Cycle) → is_nil (moved tcn c).chain ≡ false
unfolding follow
moved_some tcn c = by_chain c.tortoise_advance c.chain
  where
    by_chain :
        (b : Bool) (ns : List CycleNode)
        → is_nil (moved tcn (record { tortoise_advance = b; chain = ns })).chain ≡ false
    by_chain b [] = refl
    by_chain true (m ∷ []) = refl
    by_chain true (m ∷ n ∷ ns) = refl
    by_chain false (m ∷ ns) = refl

state_some :
    (fuel : ℕ) (all : List ℕ) (now : ℕ → ℕ) (snap : ℕ → World) (i : ℕ)
    → 0 < i
    → is_nil (state fuel all now snap i).chain ≡ false
state_some fuel all now snap zero l = absurd (omega (arith, l))
state_some fuel all now snap (suc i) l =
    moved_some (node fuel all now snap i) (state fuel all now snap i)

-- Let the pending triggers of every package, from the start on, repeat after a number of calls, the
-- period, let every call process a known package with pending triggers, and let m be a positive
-- multiple of the period not below the start. If 2m calls since the reset have given up no package,
-- and at the next one the lists of triggers are valid, pending triggers are those that the status
-- allows and the fuel exceeds the number of awaited packages, that call gives up a package.
pub check_trigger_cycle-gives_up :
    (fuel : ℕ) (owners all : List ℕ) (now : ℕ → ℕ) (snap : ℕ → World) (start period k : ℕ)
    (c : Cycle)
    → length owners < fuel
    → ((i p : ℕ) → start ≤ i → ((snap (i + period)).pkgs p).trigpend ≡ ((snap i).pkgs p).trigpend)
    → ((i : ℕ) → has (now i) all ≡ true)
    → ((i : ℕ) → is_nil ((snap i).pkgs (now i)).trigpend ≡ false)
    → start ≤ k * period
    → 0 < k * period
    → IsValid owners (snap (k * period + k * period))
    → IsTidy (snap (k * period + k * period))
    → IsRun fuel all now snap (k * period + k * period) c
    → Ends
        (λ r. is_some r.2 ≡ true)
        (check_trigger_cycle fuel all
          (now (k * period + k * period))
          (snap (k * period + k * period))
          c)
unfolding check_trigger_cycle compare_hare trigproc_new_cyclenode is_superset
check_trigger_cycle-gives_up fuel owners all now snap start period k c l h o p a b v t r =
    subst (λ c. Ends (λ r. is_some r.2 ≡ true) (check_trigger_cycle fuel all (now (m + m)) w c))
      (sym (run_state fuel all now snap (m + m) c r))
      (rw chained (
        Ends-map (IsGivenUp owners (follow tcn (states (m + m)))) (λ r. is_some r.2 ≡ true)
          (compare_hare fuel (follow tcn (states (m + m))) w (follow tcn (states (m + m))).chain)
          (found (follow tcn (states (m + m))) moves) (λ r u. u.given)))
  where
    m : ℕ
    m = k * period

    w : World
    w = snap (m + m)

    states : ℕ → Cycle
    states = state fuel all now snap

    tcn : CycleNode
    tcn = node fuel all now snap (m + m)

    chained : is_nil (states (m + m)).chain ≡ false
    chained = state_some fuel all now snap (m + m) (omega (arith, b))

    first : CycleNode
    first = node fuel all now snap m

    moves :
        follow tcn (states (m + m))
        ≡ record { tortoise_advance = false; chain = segment fuel all now snap m (suc m) }
    moves = sym (otherwise (is_nil (states (m + m)).chain) chained) ∙ state_odd fuel all now snap m
      where
        otherwise :
            (b : Bool)
            → b ≡ false
            → (if b
                then record (states (m + m)) { chain = tcn ∷ [] }
                else follow tcn (states (m + m)))
              ≡ follow tcn (states (m + m))
        otherwise b e = rw e refl

    again : (p : ℕ) → (w.pkgs p).trigpend ≡ ((snap m).pkgs p).trigpend
    again p = repeats (λ i. ((snap i).pkgs p).trigpend) start period (λ i e. h i p e) k m a

    superset : is_superset w first.pkgs ≡ true
    superset = same-is_superset (snap m) w all [] again refl

    filled : AllFilled (first ∷ [])
    filled = new_cyclenode-AllFilled all (now m) (snap m) (o m) (p m)

    found :
        (d : Cycle)
        → d ≡ record { tortoise_advance = false; chain = segment fuel all now snap m (suc m) }
        → Ends (IsGivenUp owners d) (compare_hare fuel d w d.chain)
    found d e =
        subst (λ d. Ends (IsGivenUp owners d) (compare_hare fuel d w d.chain)) (sym e)
          (rw superset
            (give_up-IsGivenUp fuel owners _ w first.pkgs l v t filled.0 filled.1 superset))
