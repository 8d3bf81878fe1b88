-- ===== src/Triggers/Clearing.antt =====
-- lib/dpkg/triglib.c: the packages that await one are cleared.
use dpkg.Triggers.Notes.{
  Ends, IsConsistent, IsKept, IsLinked-same, IsReady, IsReady-put, awaiting, others, pending_put,
  put_other, put_same,
}
use dpkg.Triggers.Calls.{Ends-map, NoteKeeps, clear_loop-keeps}
use dpkg.Triggers.{
  Outcome, Package, TrigAw, World, clear_awaiters, clear_loop, has, is_nil, put_pkg, unlink,
}
use dpkg.Triggers.Emptied.{clear-IsLinked}
use dpkg.Triggers.Linked.{IsLinked}
use dpkg.Triggers.Lists.{has-unlink-false}
use dpkg.Base.{
  Bool-cases, List, [], ap, arith, false, inl, inr, refl, true, ℕ, ◌++◌, ◌==◌, ◌∙◌, ◌≡◌, ◌⊎◌,
}

-- More packages may be awaited.
pub widen :
    {tr oth : ℕ → List ℕ} {nodes : ℕ → TrigAw} {next : ℕ} {rest small large : List ℕ}
    → ((q : ℕ) → has q large ≡ false → has q small ≡ false)
    → IsLinked tr oth nodes next rest small
    → IsLinked tr oth nodes next rest large
widen f h = record {
  rest_apart = h.rest_apart;
  rest_only = h.rest_only;
  other_apart = h.other_apart;
  awaited_apart = h.awaited_apart;
  owner = h.owner;
  rest_linked = h.rest_linked;
  other_linked = h.other_linked;
  awaited_aw = h.awaited_aw;
  awaited_live = h.awaited_live;
  owned = λ q k. h.owned q (f q k);
  rest_old = h.rest_old;
  other_old = h.other_old;
}

-- What is left when nothing awaits the package any more.
pub record IsCleared (w : World) (rest owners : List ℕ) (p : ℕ) (x : World) : Type 0 where
  pub kept : IsKept w rest owners x
  pub nobody : others x p ≡ []

-- The loop over the nodes for a package, which are taken from its list first.
pub clear_loop-empties :
    (note : ℕ → World → Outcome World) (p : ℕ) (w : World) (rest owners : List ℕ)
    → NoteKeeps note (unlink p owners)
    → IsConsistent w rest owners
    → IsReady w
    → Ends
        (IsCleared w rest owners p)
        (clear_loop note (others w p) (put_pkg w p (record (w.pkgs p) { othertrigaw = [] })))
clear_loop-empties note p w rest owners keeps h r =
    Ends-map (IsKept x rest (unlink p owners)) (IsCleared w rest owners p)
      (clear_loop note (others w p) x)
      (clear_loop-keeps note (unlink p owners) keeps (others w p) x rest linked ready)
      (λ y k. record {
        kept = record {
          consistent = widen (λ q f. has-unlink-false q p owners f) k.consistent;
          ready = k.ready;
          unawaited = λ q f. k.unawaited q (still q f (Bool-cases (p == q)));
          pending_kept = λ q. k.pending_kept q ∙ pending_put w p u refl q;
        };
        nobody = k.unawaited p empty;
      })
  where
    u : Package
    u = record (w.pkgs p) { othertrigaw = [] }

    x : World
    x = put_pkg w p u

    linked : IsConsistent x (others w p ++ rest) (unlink p owners)
    linked =
        IsLinked-same (put_same Package.trigaw w.pkgs p u refl)
          (put_other Package.othertrigaw w.pkgs p u)
          (clear-IsLinked (awaiting w) (others w) w.nodes w.next_node p rest owners h)

    ready : IsReady x
    ready = IsReady-put w p u r (r p)

    same : (p == p) ≡ true
    same = ground arith

    empty : others x p ≡ []
    empty = ap (λ f. f p) (put_other Package.othertrigaw w.pkgs p u) ∙ rw same refl

    still : (q : ℕ) → others w q ≡ [] → ((p == q) ≡ true) ⊎ ((p == q) ≡ false) → others x q ≡ []
    still q f (inl d) = rw (d, others) refl
    still q f (inr d) = rw (d, others) f

pub clear_awaiters-keeps :
    (note : ℕ → World → Outcome World) (p : ℕ) (w : World) (rest owners : List ℕ)
    → NoteKeeps note (unlink p owners)
    → is_nil (w.pkgs p).trigpend ≡ true
    → IsConsistent w rest owners
    → IsReady w
    → Ends (IsCleared w rest owners p) (clear_awaiters note p w)
unfolding clear_awaiters
clear_awaiters-keeps note p w rest owners keeps e h r =
    rw e (clear_loop-empties note p w rest owners keeps h r)
