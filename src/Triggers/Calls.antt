-- ===== src/Triggers/Calls.antt =====
-- lib/dpkg/dbmodify.c and lib/dpkg/triglib.c: what a note, and the loop over the packages that await
-- the noted one, keep.
use dpkg.Triggers.Notes.{
  Ends, Ends-bind, IsConsistent, IsKept, IsLinked-same, IsReady, IsReady-put, awaiting, awoken,
  awoken-ready, awoken_pending, cleared, cleared-ready, others, pending, pending_put, put_other,
  put_same,
}
use dpkg.Triggers.{
  Outcome, Package, World, clear_awaiter, clear_loop, clear_node, done, has, internerr, is_awaited,
  is_nil, put, put_pkg, set_status, stuck, undefined, unlink,
}
use dpkg.Triggers.Linked.{skip-IsLinked, unlink-IsLinked}
use dpkg.Pkg.{PkgStatus, status_rank}
use dpkg.Base.{
  Bool-cases, List, Option, [], ap, arith, inl, inr, none, refl, some, true, ℕ, ◌&&◌, ◌++◌, ◌==◌,
  ◌∙◌, ◌∷◌, ◌≡◌,
}

pub Ends-map :
    {A : Type 0} (P Q : A → Type 0) (o : Outcome A) → Ends P o → ((a : A) → P a → Q a) → Ends Q o
Ends-map P Q (done a) h g = g a h
Ends-map P Q internerr h g = h
Ends-map P Q undefined h g = h
Ends-map P Q stuck h g = h

pub set_status_awaiting : (s : PkgStatus) (v : Package) → (set_status s v).trigaw ≡ v.trigaw
unfolding set_status
set_status_awaiting s v = elim (Bool-cases (status_rank v.status == status_rank s)) [
  | inl e ↦ rw e refl
  | inr e ↦ rw e refl
]

pub set_status_others : (s : PkgStatus) (v : Package) → (set_status s v).othertrigaw ≡ v.othertrigaw
unfolding set_status
set_status_others s v = elim (Bool-cases (status_rank v.status == status_rank s)) [
  | inl e ↦ rw e refl
  | inr e ↦ rw e refl
]

-- A note of any package keeps what belongs together.
abbrev pub NoteKeeps : (ℕ → World → Outcome World) → List ℕ → Type 0
NoteKeeps note owners =
    (q : ℕ) (w : World) (rest : List ℕ)
    → IsConsistent w rest owners
    → IsReady w
    → Ends (IsKept w rest owners) (note q w)

pub kept_trans :
    (w x y : World) (r owners : List ℕ)
    → ((q : ℕ) → others w q ≡ [] → others x q ≡ [])
    → ((q : ℕ) → pending x q ≡ pending w q)
    → IsKept x r owners y
    → IsKept w r owners y
kept_trans w x y r owners f g k = record {
  consistent = k.consistent;
  ready = k.ready;
  unawaited = λ q e. k.unawaited q (f q e);
  pending_kept = λ q. k.pending_kept q ∙ g q;
}

module _ (note : ℕ → World → Outcome World) (owners : List ℕ) (keeps : NoteKeeps note owners) where
  unlinked-IsConsistent :
      (n a : ℕ) (w : World) (rest : List ℕ) (u : Package)
      → (w.nodes n).aw ≡ some a
      → u.trigaw ≡ unlink n (awaiting w a)
      → u.othertrigaw ≡ others w a
      → IsConsistent w (n ∷ rest) owners
      → IsConsistent (put_pkg w a u) rest owners
  unlinked-IsConsistent n a w rest u e f g h =
      IsLinked-same (put_other Package.trigaw w.pkgs a u ∙ ap (put (awaiting w) a) f)
        (put_same Package.othertrigaw w.pkgs a u g)
        (unlink-IsLinked (awaiting w) (others w) w.nodes w.next_node n a rest owners e h)

  unlinked_others :
      (a : ℕ) (w : World) (u : Package)
      → u.othertrigaw ≡ others w a
      → (q : ℕ) → others w q ≡ []
      → others (put_pkg w a u) q ≡ []
  unlinked_others a w u g q e = ap (λ f. f q) (put_same Package.othertrigaw w.pkgs a u g) ∙ e

  clear_awaiter-keeps :
      (n a : ℕ) (w : World) (rest : List ℕ)
      → (w.nodes n).aw ≡ some a
      → IsConsistent w (n ∷ rest) owners
      → IsReady w
      → Ends (IsKept w rest owners) (clear_awaiter note n a w)
  unfolding clear_awaiter
  clear_awaiter-keeps n a w rest e h r =
      elim (Bool-cases (is_nil (unlink n v.trigaw) && is_awaited v.status)) [
        | inl f ↦
            let x : World = put_pkg w a (awoken u) in
            let linked =
              unlinked-IsConsistent n a w rest (awoken u) e (set_status_awaiting _ u)
                (set_status_others _ u) h in
            let ready : IsReady x = IsReady-put w a (awoken u) r (awoken-ready n v f) in
            rw (held, f)
              (Ends-map (IsKept x rest owners) (IsKept w rest owners) (note a x)
                (keeps a x rest linked ready)
                (λ y k.
                  kept_trans w x y rest owners
                    (unlinked_others a w (awoken u) (set_status_others _ u))
                    (pending_put w a (awoken u) (awoken_pending n v f)) k))
        | inr f ↦
            rw (held, f)
              (record {
                consistent = unlinked-IsConsistent n a w rest u e refl refl h;
                ready = IsReady-put w a u r (cleared-ready n v (r a) held f);
                unawaited = unlinked_others a w u refl;
                pending_kept = pending_put w a u refl;
              })
      ]
    where
      v : Package
      v = w.pkgs a

      u : Package
      u = cleared n v

      held : has n v.trigaw ≡ true
      held = h.rest_linked n a (ground arith) e

  clear_node-keeps :
      (n : ℕ) (aw : Option ℕ) (w : World) (rest : List ℕ)
      → (w.nodes n).aw ≡ aw
      → IsConsistent w (n ∷ rest) owners
      → IsReady w
      → Ends (IsKept w rest owners) (clear_node note n aw w)
  unfolding clear_node
  clear_node-keeps n (some a) w rest e h r = clear_awaiter-keeps n a w rest e h r
  clear_node-keeps n none w rest e h r = record {
    consistent = skip-IsLinked (awaiting w) (others w) w.nodes w.next_node n rest owners e h;
    ready = r;
    unawaited = λ q f. f;
    pending_kept = λ q. refl;
  }

  pub clear_loop-keeps :
      (ns : List ℕ) (w : World) (rest : List ℕ)
      → IsConsistent w (ns ++ rest) owners
      → IsReady w
      → Ends (IsKept w rest owners) (clear_loop note ns w)
  unfolding clear_loop
  clear_loop-keeps [] w rest h r = record {
    consistent = h;
    ready = r;
    unawaited = λ q f. f;
    pending_kept = λ q. refl;
  }
  clear_loop-keeps (n ∷ ns) w rest h r =
      Ends-bind (IsKept w (ns ++ rest) owners) (IsKept w rest owners)
        (clear_node note n (w.nodes n).aw w) (clear_loop note ns)
        (clear_node-keeps n (w.nodes n).aw w (ns ++ rest) refl h r)
        (λ x k.
          Ends-map (IsKept x rest owners) (IsKept w rest owners) (clear_loop note ns x)
            (clear_loop-keeps ns x rest k.consistent k.ready)
            (λ y. kept_trans w x y rest owners k.unawaited k.pending_kept))
