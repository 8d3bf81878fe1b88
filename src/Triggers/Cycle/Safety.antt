-- ===== src/Triggers/Cycle/Safety.antt =====
-- src/main/trigproc.c: no call of check_trigger_cycle follows a null pointer or is an internal error.
use mathlib.Core.Path.{subst}
use dpkg.Triggers.Calls.{Ends-map, set_status_awaiting, set_status_others}
use dpkg.Triggers.Cycle.{
  Cycle, CycleNode, CyclePackage, check_trigger_cycle, compare_hare, follow, give_up, is_superset,
  tortoise_in_hare, trigproc_new_cyclenode,
}
use dpkg.Triggers.{
  Package, World, done, has, is_nil, keeps_pending, modstatdb_note, put_pkg, set_status,
}
use dpkg.Triggers.Linked.{clash}
use dpkg.Triggers.Notes.{Ends, Ends-bind, and_left}
use dpkg.Triggers.Activation.{IsValid, replace-IsValid}
use dpkg.Triggers.Effects.{modstatdb_note-IsValid}
use dpkg.Pkg.{halfconfigured}
use dpkg.Base.{
  Bool, Bool-cases, List, Option, [], false, if◌then◌else◌, inl, inr, length, none, refl, some, sym,
  true, ℕ, ◌<◌, ◌∷◌, ◌≡◌,
}
use dpkg.Triggers.Cycle.Filled.{
  AllFilled, AllFilled-follow, IsFilled, IsTidy, cycle_packages-IsFilled, cycle_packages-some,
  halfconfigured-ready, keeps_status, still_pending,
}

abbrev pub is_some : Option ℕ → Bool
is_some none = false
is_some (some x) = true

-- What giving up leaves: the cycle, valid lists and a package.
pub record IsGivenUp (owners : List ℕ) (c : Cycle) (r : Cycle × World × Option ℕ) : Type 0 where
  pub same : r.0 ≡ c
  pub valid : IsValid owners r.1
  pub given : is_some r.2 ≡ true

module _ (fuel : ℕ) (owners : List ℕ) where
  pub give_up-IsGivenUp :
      (c : Cycle) (w : World) (ts : List CyclePackage)
      → length owners < fuel
      → IsValid owners w
      → IsTidy w
      → is_nil ts ≡ false
      → IsFilled ts
      → is_superset w ts ≡ true
      → Ends (IsGivenUp owners c) (give_up fuel c w ts)
  unfolding give_up is_superset tortoise_in_hare
  give_up-IsGivenUp c w [] l h d n f s = absurd (clash n refl)
  give_up-IsGivenUp c w (t ∷ ts) l h d n (f, fs) s = rw keeps (
      Ends-bind _ (IsGivenUp owners c) (modstatdb_note fuel t.pkg x) _
        (modstatdb_note-IsValid fuel owners t.pkg x l valid)
        (λ y k. record { same = refl; valid = k.0; given = refl }))
    where
      v : Package
      v = w.pkgs t.pkg

      x : World
      x = put_pkg w t.pkg (set_status halfconfigured v)

      keeps : keeps_pending v.status ≡ true
      keeps = keeps_status v (d t.pkg) (
          still_pending t.then_trigs v.trigpend f
            (and_left (tortoise_in_hare w t) (is_superset w ts) s))

      valid : IsValid owners x
      valid =
          replace-IsValid owners w t.pkg (set_status halfconfigured v)
            (set_status_awaiting halfconfigured v) (set_status_others halfconfigured v)
            (halfconfigured-ready v keeps) h

-- What a call leaves: nodes that had packages with pending triggers, and valid lists.
pub record IsChecked (owners : List ℕ) (r : Cycle × World × Option ℕ) : Type 0 where
  pub filled : AllFilled r.0.chain
  pub valid : IsValid owners r.1

pub new_cyclenode-AllFilled :
    (all : List ℕ) (now : ℕ) (w : World)
    → has now all ≡ true
    → is_nil (w.pkgs now).trigpend ≡ false
    → AllFilled (trigproc_new_cyclenode all now w ∷ [])
unfolding trigproc_new_cyclenode
new_cyclenode-AllFilled all now w h k =
    (cycle_packages-some w now all [] h k, cycle_packages-IsFilled w all [] tt, tt)

-- On such lists, where the pending triggers of every package are those that its status allows, the
-- package processed is known and has some, and every node kept has packages with pending triggers,
-- a check for cycles ends without an internal error and without following a null pointer, and
-- leaves such nodes and valid lists.
pub check_trigger_cycle-IsChecked :
    (fuel : ℕ) (owners all : List ℕ) (processing_now : ℕ) (w : World) (c : Cycle)
    → length owners < fuel
    → IsValid owners w
    → IsTidy w
    → has processing_now all ≡ true
    → is_nil (w.pkgs processing_now).trigpend ≡ false
    → AllFilled c.chain
    → Ends (IsChecked owners) (check_trigger_cycle fuel all processing_now w c)
unfolding check_trigger_cycle compare_hare follow
check_trigger_cycle-IsChecked fuel owners all now w c l h d o k f =
    by_chain c.tortoise_advance c.chain f
  where
    tcn : CycleNode
    tcn = trigproc_new_cyclenode all now w

    new : AllFilled (tcn ∷ [])
    new = new_cyclenode-AllFilled all now w o k

    by_verdict :
        (d2 : Cycle) (ts : List CyclePackage)
        → AllFilled d2.chain
        → is_nil ts ≡ false
        → IsFilled ts
        → Ends
            (IsChecked owners)
            (if is_superset w ts then give_up fuel d2 w ts else done (d2, w, none))
    by_verdict d2 ts g a b = elim (Bool-cases (is_superset w ts)) [
      | inl e ↦ rw e (
          Ends-map (IsGivenUp owners d2) (IsChecked owners) (give_up fuel d2 w ts)
            (give_up-IsGivenUp fuel owners d2 w ts l h d a b e)
            (λ r u. record {
              filled = subst (λ x. AllFilled (Cycle.chain x)) (sym u.same) g;
              valid = u.valid;
            }))
      | inr e ↦ rw e (record { filled = g; valid = h })
    ]

    compared :
        (d2 : Cycle) (ns : List CycleNode)
        → AllFilled d2.chain
        → is_nil ns ≡ false
        → AllFilled ns
        → Ends (IsChecked owners) (compare_hare fuel d2 w ns)
    compared d2 [] g n a = absurd (clash n refl)
    compared d2 (m ∷ ns) g n (a, b, rest) = by_verdict d2 m.pkgs g a b

    some_node :
        (b : Bool) (m : CycleNode) (ns : List CycleNode)
        → is_nil (follow tcn (record { tortoise_advance = b; chain = m ∷ ns })).chain ≡ false
    some_node true m [] = refl
    some_node true m (n ∷ ns) = refl
    some_node false m ns = refl

    by_chain :
        (b : Bool) (ns : List CycleNode)
        → AllFilled ns
        → Ends
            (IsChecked owners)
            (check_trigger_cycle fuel all now w (record { tortoise_advance = b; chain = ns }))
    by_chain b [] g = record { filled = new; valid = h }
    by_chain b (m ∷ ns) g =
        let c2 : Cycle = record { tortoise_advance = b; chain = m ∷ ns } in
        let all_filled = AllFilled-follow tcn c2 new g in
        compared (follow tcn c2) (follow tcn c2).chain all_filled (some_node b m ns) all_filled
