-- ===== src/Triggers.antt =====
-- lib/dpkg/trignote.c, lib/dpkg/triglib.c and modstatdb_note of lib/dpkg/dbmodify.c: the pending and
-- awaited triggers of packages. Packages and nodes of the lists are numbers.
pub mod Lists
pub mod Linked
pub mod Emptied
pub mod Updates
pub mod Notes
pub mod Calls
pub mod Clearing
pub mod Depth
pub mod Activation
pub mod Noting
pub mod Awaiter
pub mod Effects
pub mod Options
pub mod Transitional
pub mod Cycle
use dpkg.Base.{
  Bool, CString, List, Option, [], false, if◌then◌else◌, ltb, none, not, some, str_eq, suc, true,
  zero, ℕ, ◌&&◌, ◌++◌, ◌==◌, ◌||◌, ◌∷◌,
}
use dpkg.Pkg.{
  PkgStatus, configfiles, halfconfigured, halfinstalled, installed, notinstalled, status_rank,
  triggersawaited, triggerspending, unpacked,
}

-- How a call ends: with a value, by `internerr`, with a node unlinked from a list that does not hold
-- it or a null pointer followed, or at the end of the fuel.
pub data Outcome {ℓ} (A : Type ℓ) : Type ℓ where
  done : A → Outcome A
  internerr : Outcome A
  undefined : Outcome A
  stuck : Outcome A

infixl 5 ◌>>=◌
abbrev pub ◌>>=◌ : {A B : Type 0} → Outcome A → (A → Outcome B) → Outcome B
done a >>= f = f a
internerr >>= f = internerr
undefined >>= f = undefined
stuck >>= f = stuck

-- `struct trigaw`, without its links; `aw` is `none` once it is forgotten.
pub record TrigAw : Type 0 where
  pub aw : Option ℕ
  pub pend : ℕ

-- The fields of `struct pkginfo` for triggers: the names pending, the nodes of `trigaw`, which is
-- doubly linked, and those of `othertrigaw_head`.
pub record Package : Type 0 where
  pub status : PkgStatus
  pub status_dirty : Bool
  pub trigpend : List CString
  pub trigaw : List ℕ
  pub othertrigaw : List ℕ

-- All packages, the nodes and the number of the next one, whether the database can be written
-- (`cstatus`), and the packages of which the state was written, the last one first.
pub record World : Type 0 where
  pub pkgs : ℕ → Package
  pub nodes : ℕ → TrigAw
  pub next_node : ℕ
  pub writable : Bool
  pub written : List ℕ

abbrev pub put {ℓ} : {A : Type ℓ} → (ℕ → A) → ℕ → A → ℕ → A
put f p v q = if p == q then v else f q

abbrev pub put_pkg : World → ℕ → Package → World
put_pkg w p v = record w { pkgs = put w.pkgs p v }

abbrev pub is_nil {ℓ} : {A : Type ℓ} → List A → Bool
is_nil [] = true
is_nil (x ∷ xs) = false

abbrev pub has : ℕ → List ℕ → Bool
has n [] = false
has n (x ∷ xs) = n == x || has n xs

-- `LIST_UNLINK_PART`, on the nodes of a list.
abbrev pub unlink : ℕ → List ℕ → List ℕ
unlink n [] = []
unlink n (x ∷ xs) = if n == x then xs else x ∷ unlink n xs

-- `pkg_set_status`: no status here is `notinstalled`, so that the count of the set stays.
unfoldable pub set_status : PkgStatus → Package → Package
set_status s v =
    if status_rank v.status == status_rank s
    then v
    else record v { status = s; status_dirty = true }

unfoldable pub is_noted : CString → List CString → Bool
is_noted trig [] = false
is_noted trig (name ∷ rest) = str_eq name trig || is_noted trig rest

unfoldable pub trig_note_pend_core : Package → CString → Package × Bool
unfolding is_noted
trig_note_pend_core v trig =
    if is_noted trig v.trigpend
    then (v, false)
    else (record v { trigpend = trig ∷ v.trigpend }, true)

-- The package, and whether the trigger is new.
unfoldable pub trig_note_pend : Package → CString → Package × Bool
unfolding trig_note_pend_core set_status
trig_note_pend v trig =
    let (u, noted) = trig_note_pend_core v trig in
    if noted
    then (set_status (if is_nil u.trigaw then triggerspending else triggersawaited) u, true)
    else (v, false)

-- Whether a node of the list is for the package.
unfoldable pub awaits : (ℕ → TrigAw) → ℕ → List ℕ → Bool
awaits nodes pend [] = false
awaits nodes pend (n ∷ rest) = (nodes n).pend == pend || awaits nodes pend rest

-- The world, and whether the node is new.
unfoldable pub trig_note_aw : ℕ → ℕ → World → World × Bool
unfolding awaits
trig_note_aw pend aw w =
    if awaits w.nodes pend (w.pkgs aw).trigaw
    then (w, false)
    else let ta = w.next_node in
      let v = w.pkgs pend in
      let linked = put w.pkgs pend (record v { othertrigaw = ta ∷ v.othertrigaw }) in
      let u = linked aw in
      (
        record w {
          pkgs = put linked aw (record u { trigaw = u.trigaw ++ ta ∷ [] });
          nodes = put w.nodes ta (record { aw = some aw; pend = pend });
          next_node = suc ta;
        },
        true,
      )

-- The checks of `w_status` (lib/dpkg/dump.c) on triggers, which end in an internal error if they fail.
abbrev pub w_status_ok : Package → Bool
w_status_ok v = elim v.status [
  | notinstalled ↦ is_nil v.trigpend && is_nil v.trigaw
  | configfiles ↦ is_nil v.trigpend && is_nil v.trigaw
  | halfinstalled ↦ is_nil v.trigpend
  | unpacked ↦ is_nil v.trigpend
  | halfconfigured ↦ is_nil v.trigpend
  | triggersawaited ↦ not (is_nil v.trigaw)
  | triggerspending ↦ not (is_nil v.trigpend) && is_nil v.trigaw
  | installed ↦ is_nil v.trigpend && is_nil v.trigaw
]

abbrev pub keeps_pending : PkgStatus → Bool
keeps_pending triggersawaited = true
keeps_pending triggerspending = true
keeps_pending _ = false

abbrev pub is_low : PkgStatus → Bool
is_low notinstalled = true
is_low configfiles = true
is_low _ = false

abbrev pub is_awaited : PkgStatus → Bool
is_awaited triggersawaited = true
is_awaited _ = false

-- `ta->aw = NULL` on every node of a list.
abbrev pub forget : List ℕ → (ℕ → TrigAw) → ℕ → TrigAw
forget ns nodes n = if has n ns then record (nodes n) { aw = none } else nodes n

abbrev pub settled : Package → Package
settled v = record v {
  trigpend = if keeps_pending v.status then v.trigpend else [];
  trigaw = if is_low v.status then [] else v.trigaw;
  status_dirty = false;
}

-- The first part of `modstatdb_note`.
unfoldable pub settle : ℕ → World → World
settle p w =
    let v = w.pkgs p in
    record w {
      pkgs = put w.pkgs p (settled v);
      nodes = if is_low v.status then forget v.trigaw w.nodes else w.nodes;
    }

-- `modstatdb_note_core`: only the checks of the stanza that it writes.
unfoldable pub modstatdb_note_core : ℕ → World → Outcome World
modstatdb_note_core p w =
    if w_status_ok (w.pkgs p) then done (record w { written = p ∷ w.written }) else internerr

-- A round of the loop of `trig_clear_awaiters`, with `note` for `modstatdb_note`.
unfoldable pub clear_awaiter : (ℕ → World → Outcome World) → ℕ → ℕ → World → Outcome World
unfolding set_status
clear_awaiter note n aw w =
    let v = w.pkgs aw in
    let u = record v { trigaw = unlink n v.trigaw } in
    if not (has n v.trigaw)
    then undefined
    else if is_nil u.trigaw && is_awaited u.status
    then note aw
        (put_pkg w aw (set_status (if is_nil u.trigpend then installed else triggerspending) u))
    else done (put_pkg w aw u)

unfoldable pub clear_node : (ℕ → World → Outcome World) → ℕ → Option ℕ → World → Outcome World
unfolding clear_awaiter
clear_node note n none w = done w
clear_node note n (some aw) w = clear_awaiter note n aw w

unfoldable pub clear_loop : (ℕ → World → Outcome World) → List ℕ → World → Outcome World
unfolding clear_node
clear_loop note [] w = done w
clear_loop note (n ∷ rest) w = clear_node note n (w.nodes n).aw w >>= clear_loop note rest

unfoldable pub clear_awaiters : (ℕ → World → Outcome World) → ℕ → World → Outcome World
unfolding clear_loop
clear_awaiters note notpend w =
    let v = w.pkgs notpend in
    if not (is_nil v.trigpend)
    then internerr
    else clear_loop note v.othertrigaw (put_pkg w notpend (record v { othertrigaw = [] }))

-- The last part of `modstatdb_note`.
unfoldable pub note_awaiters : (ℕ → World → Outcome World) → ℕ → World → Outcome World
unfolding clear_awaiters
note_awaiters note p w =
    let v = w.pkgs p in
    if is_nil v.trigpend && not (is_nil v.othertrigaw) then clear_awaiters note p w else done w

-- `modstatdb_note` and `trig_clear_awaiters` call each other; the fuel is the depth of the calls.
unfoldable pub modstatdb_note : ℕ → ℕ → World → Outcome World
unfolding settle modstatdb_note_core note_awaiters
modstatdb_note zero p w = stuck
modstatdb_note (suc fuel) p w =
    (if w.writable then modstatdb_note_core p (settle p w) else done (settle p w)) >>= λ x.
    note_awaiters (modstatdb_note fuel) p x

unfoldable pub trig_clear_awaiters : ℕ → ℕ → World → Outcome World
unfolding clear_awaiters modstatdb_note
trig_clear_awaiters fuel notpend w = clear_awaiters (modstatdb_note fuel) notpend w

unfoldable pub modstatdb_note_ifwrite : ℕ → ℕ → World → Outcome World
unfolding modstatdb_note
modstatdb_note_ifwrite fuel p w = if w.writable then modstatdb_note fuel p w else done w

-- The part of `trig_record_activation` about the awaiting package.
unfoldable pub record_awaiter : ℕ → ℕ → ℕ → World → Outcome World
unfolding trig_note_aw set_status modstatdb_note_ifwrite
record_awaiter fuel pend aw w =
    let (x, noted) = trig_note_aw pend aw w in
    let v = x.pkgs aw in
    if noted
    then modstatdb_note_ifwrite fuel aw (
        if ltb (status_rank triggersawaited) (status_rank v.status)
        then put_pkg x aw (set_status triggersawaited v)
        else x)
    else done w

unfoldable pub record_pending : ℕ → ℕ → CString → World → Outcome World
unfolding trig_note_pend modstatdb_note_ifwrite
record_pending fuel pend trig w =
    let (v, noted) = trig_note_pend (w.pkgs pend) trig in
    if noted then modstatdb_note_ifwrite fuel pend (put_pkg w pend v) else done w

-- The hook that enqueues the package does not touch what is modelled here.
unfoldable pub trig_record_activation : ℕ → ℕ → Option ℕ → CString → World → Outcome World
unfolding record_pending record_awaiter
trig_record_activation fuel pend aw trig w =
    if ltb (status_rank (w.pkgs pend).status) (status_rank triggersawaited)
    then done w
    else (record_pending fuel pend trig w >>= λ x. elim aw [
      | none ↦ done x
      | some a ↦
          if ltb (status_rank configfiles) (status_rank (x.pkgs pend).status)
          then record_awaiter fuel pend a x
          else done x
    ])

-- The list of packages awaited in the status file.
unfoldable pub trig_awaited_pend_enqueue : ℕ → List ℕ → List ℕ
trig_awaited_pend_enqueue pend head = if has pend head then head else pend ∷ head

unfoldable pub fixup_loop : ℕ → List ℕ → World → Outcome World
unfolding trig_clear_awaiters
fixup_loop fuel [] w = done w
fixup_loop fuel (p ∷ rest) w =
    (if is_nil (w.pkgs p).trigpend then trig_clear_awaiters fuel p w else done w)
    >>= fixup_loop fuel rest

-- `trig_awaited_pend_foreach` with `trig_clear_awaiters`, and the list freed.
unfoldable pub trig_fixup_awaiters : ℕ → List ℕ → World → Outcome (World × List ℕ)
unfolding fixup_loop
trig_fixup_awaiters fuel head w =
    if w.writable then (fixup_loop fuel head w >>= λ x. done (x, [])) else done (w, head)
