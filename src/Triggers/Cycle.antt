-- ===== src/Triggers/Cycle.antt =====
-- src/main/trigproc.c: cycles of trigger processing, which a slow and a fast pointer find.
pub mod Filled
pub mod Safety
pub mod Tracking
pub mod Runs
use dpkg.Triggers.{
  Outcome, World, done, internerr, is_nil, is_noted, keeps_pending, modstatdb_note, put_pkg,
  set_status, undefined, ◌>>=◌,
}
use dpkg.Pkg.{halfconfigured}
use dpkg.Base.{
  Bool, CString, List, Option, [], false, if◌then◌else◌, none, not, some, true, ℕ, ◌&&◌, ◌++◌, ◌∷◌,
}

-- `struct trigcycleperpkg` and `struct trigcyclenode`, with the links as lists.
pub record CyclePackage : Type 0 where
  pub pkg : ℕ
  pub then_trigs : List CString

pub record CycleNode : Type 0 where
  pub pkgs : List CyclePackage
  pub then_processed : ℕ

-- `tortoise_advance`, and the nodes from the tortoise to the hare; none if they are null.
pub record Cycle : Type 0 where
  pub tortoise_advance : Bool
  pub chain : List CycleNode

unfoldable pub trigproc_reset_cycle : Cycle
trigproc_reset_cycle = record { tortoise_advance = false; chain = [] }

-- Whether all the triggers are pending in a list.
unfoldable pub all_noted : List CString → List CString → Bool
unfolding is_noted
all_noted [] pending = true
all_noted (trig ∷ trigs) pending = is_noted trig pending && all_noted trigs pending

unfoldable pub tortoise_in_hare : World → CyclePackage → Bool
unfolding all_noted
tortoise_in_hare w t = all_noted t.then_trigs (w.pkgs t.pkg).trigpend

-- The loop of `trigproc_new_cyclenode` over all packages.
unfoldable pub cycle_packages : World → List ℕ → List CyclePackage → List CyclePackage
cycle_packages w [] found = found
cycle_packages w (p ∷ rest) found =
    if is_nil (w.pkgs p).trigpend
    then cycle_packages w rest found
    else cycle_packages w rest (record { pkg = p; then_trigs = (w.pkgs p).trigpend } ∷ found)

unfoldable pub trigproc_new_cyclenode : List ℕ → ℕ → World → CycleNode
unfolding cycle_packages
trigproc_new_cyclenode all processing_now w = record {
  pkgs = cycle_packages w all [];
  then_processed = processing_now;
}

-- Whether every package of the tortoise is in the hare.
unfoldable pub is_superset : World → List CyclePackage → Bool
unfolding tortoise_in_hare
is_superset w [] = true
is_superset w (t ∷ rest) = tortoise_in_hare w t && is_superset w rest

-- The chain with the new hare behind it, and the tortoise moved every second time.
unfoldable pub follow : CycleNode → Cycle → Cycle
follow tcn c = record {
  tortoise_advance = not c.tortoise_advance;
  chain = elim c.chain [
    | [] ↦ tcn ∷ []
    | t ∷ rest ↦ if c.tortoise_advance then rest ++ tcn ∷ [] else t ∷ rest ++ tcn ∷ []
  ];
}

-- What is done to the first package of the tortoise; `undefined` if it has none.
unfoldable pub give_up : ℕ → Cycle → World → List CyclePackage → Outcome (Cycle × World × Option ℕ)
unfolding set_status modstatdb_note
give_up fuel c w [] = undefined
give_up fuel c w (t ∷ rest) =
    let giveup = t.pkg in
    let v = w.pkgs giveup in
    if not (keeps_pending v.status)
    then internerr
    else (modstatdb_note fuel giveup (put_pkg w giveup (set_status halfconfigured v)) >>= λ x.
        done (c, x, some giveup))

unfoldable pub compare_hare :
    ℕ → Cycle → World → List CycleNode → Outcome (Cycle × World × Option ℕ)
unfolding is_superset give_up
compare_hare fuel c w [] = undefined
compare_hare fuel c w (tortoise ∷ rest) =
    if is_superset w tortoise.pkgs then give_up fuel c w tortoise.pkgs else done (c, w, none)

-- The cycle, the world and the package that is given up, for all packages in the order of the hash
-- table. What it says about the cycle is left out, and so is `istobe` of the package.
unfoldable pub check_trigger_cycle :
    ℕ → List ℕ → ℕ → World → Cycle → Outcome (Cycle × World × Option ℕ)
unfolding trigproc_new_cyclenode follow compare_hare
check_trigger_cycle fuel all processing_now w c =
    let tcn = trigproc_new_cyclenode all processing_now w in
    if is_nil c.chain
    then done (record c { chain = tcn ∷ [] }, w, none)
    else let d = follow tcn c in compare_hare fuel d w d.chain
