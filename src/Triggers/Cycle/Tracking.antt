-- ===== src/Triggers/Cycle/Tracking.antt =====
-- src/main/trigproc.c: the nodes between the tortoise and the hare.
use mathlib.Core.Path.{subst}
use dpkg.Triggers.Cycle.{
  Cycle, CycleNode, CyclePackage, check_trigger_cycle, compare_hare, follow, give_up, is_superset,
  trigproc_new_cyclenode, trigproc_reset_cycle,
}
use dpkg.Triggers.{
  Outcome, World, done, internerr, is_nil, keeps_pending, modstatdb_note, put_pkg, set_status,
  stuck, undefined, ◌>>=◌,
}
use dpkg.Pkg.{halfconfigured}
use dpkg.Base.{
  Bool-cases, List, Option, [], ap, arith, false, if◌then◌else◌, inl, inr, none, refl, some, suc,
  true, zero, ℕ, ◌++◌, ◌+◌, ◌∙◌, ◌∷◌, ◌≡◌,
}

-- The calls since the cycle was reset, none of which gave up: the i-th one finds the packages as
-- `snap i` has them.
pub data IsRun (fuel : ℕ) (all : List ℕ) (now : ℕ → ℕ) (snap : ℕ → World) : ℕ → Cycle → Type 0 where
  reset : IsRun fuel all now snap 0 trigproc_reset_cycle
  call :
      {i : ℕ} {c d : Cycle} {x : World}
      → IsRun fuel all now snap i c
      → check_trigger_cycle fuel all (now i) (snap i) c ≡ done (d, x, none)
      → IsRun fuel all now snap (suc i) d

-- What a call makes of the cycle.
abbrev pub moved : CycleNode → Cycle → Cycle
moved tcn c = if is_nil c.chain then record c { chain = tcn ∷ [] } else follow tcn c

-- The cycle of a result, if there is one.
abbrev CycleIs : Cycle → Outcome (Cycle × World × Option ℕ) → Type 0
CycleIs d (done r) = r.0 ≡ d
CycleIs d internerr = Unit
CycleIs d undefined = Unit
CycleIs d stuck = Unit

give_up-CycleIs :
    (fuel : ℕ) (d : Cycle) (w : World) (ts : List CyclePackage) → CycleIs d (give_up fuel d w ts)
unfolding give_up
give_up-CycleIs fuel d w [] = tt
give_up-CycleIs fuel d w (t ∷ ts) = elim (Bool-cases (keeps_pending (w.pkgs t.pkg).status)) [
  | inl e ↦ rw e (
      bound t.pkg
        (modstatdb_note fuel t.pkg (put_pkg w t.pkg (set_status halfconfigured (w.pkgs t.pkg)))))
  | inr e ↦ rw e tt
]
  where
    bound : (p : ℕ) (o : Outcome World) → CycleIs d (o >>= λ x. done (d, x, some p))
    bound p (done x) = refl
    bound p internerr = tt
    bound p undefined = tt
    bound p stuck = tt

compare_hare-CycleIs :
    (fuel : ℕ) (d : Cycle) (w : World) (ns : List CycleNode) → CycleIs d (compare_hare fuel d w ns)
unfolding compare_hare
compare_hare-CycleIs fuel d w [] = tt
compare_hare-CycleIs fuel d w (n ∷ ns) = elim (Bool-cases (is_superset w n.pkgs)) [
  | inl e ↦ rw e (give_up-CycleIs fuel d w n.pkgs)
  | inr e ↦ rw e refl
]

check-CycleIs :
    (fuel : ℕ) (all : List ℕ) (now : ℕ) (w : World) (c : Cycle)
    → CycleIs (moved (trigproc_new_cyclenode all now w) c) (check_trigger_cycle fuel all now w c)
unfolding check_trigger_cycle
check-CycleIs fuel all now w c = elim (Bool-cases (is_nil c.chain)) [
  | inl e ↦ rw e refl
  | inr e ↦
      let d = follow (trigproc_new_cyclenode all now w) c in
      rw e (compare_hare-CycleIs fuel d w d.chain)
]

module _ (fuel : ℕ) (all : List ℕ) (now : ℕ → ℕ) (snap : ℕ → World) where
  abbrev pub node : ℕ → CycleNode
  node i = trigproc_new_cyclenode all (now i) (snap i)

  -- The nodes of n calls from the a-th one.
  abbrev pub segment : ℕ → ℕ → List CycleNode
  segment a zero = []
  segment a (suc n) = node a ∷ segment (suc a) n

  segment_snoc : (n a b : ℕ) → b ≡ a + n → segment a n ++ node b ∷ [] ≡ segment a (suc n)
  segment_snoc zero a b e = ap (λ i. node i ∷ []) (omega (arith, e))
  segment_snoc (suc n) a b e = ap (λ ns. node a ∷ ns) (segment_snoc n (suc a) b (omega (arith, e)))

  -- The cycle before the i-th call.
  abbrev pub state : ℕ → Cycle
  state zero = trigproc_reset_cycle
  state (suc i) = moved (node i) (state i)

  pub run_state : (i : ℕ) (c : Cycle) → IsRun fuel all now snap i c → c ≡ state i
  run_state zero c reset = refl
  run_state (suc i) d (call {c = c} {x = x} r e) =
      let s = run_state i c r in
      subst (λ o. CycleIs (moved (node i) c) o) e (check-CycleIs fuel all (now i) (snap i) c)
      ∙ ap (moved (node i)) s

  step_even :
      (k : ℕ)
      → state (suc (k + k)) ≡ record { tortoise_advance = false; chain = segment k (suc k) }
      → state (suc (suc (k + k)))
        ≡ record { tortoise_advance = true; chain = segment k (suc (suc k)) }
  unfolding follow
  step_even k e =
      ap (moved (node (suc (k + k)))) e
      ∙ ap (λ ns. record { tortoise_advance = true; chain = node k ∷ ns })
          (segment_snoc k (suc k) (suc (k + k)) (omega arith))

  step_odd :
      (k : ℕ)
      → state (suc (suc (k + k)))
        ≡ record { tortoise_advance = true; chain = segment k (suc (suc k)) }
      → state (suc (suc (suc (k + k))))
        ≡ record { tortoise_advance = false; chain = segment (suc k) (suc (suc k)) }
  unfolding follow
  step_odd k e =
      ap (moved (node (suc (suc (k + k))))) e
      ∙ ap (λ ns. record { tortoise_advance = false; chain = ns })
          (segment_snoc (suc k) (suc k) (suc (suc (k + k))) (omega arith))

  -- The tortoise is behind half of the calls, and the hare is the last one.
  pub state_odd :
      (k : ℕ) → state (suc (k + k)) ≡ record { tortoise_advance = false; chain = segment k (suc k) }
  unfolding trigproc_reset_cycle
  state_odd zero = refl
  state_odd (suc k) =
      let e : suc k + suc k ≡ suc (suc (k + k)) = omega arith in
      ap (λ j. state (suc j)) e ∙ step_odd k (step_even k (state_odd k))
