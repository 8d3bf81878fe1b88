-- ===== src/PkgQueue/Fifo.antt =====
-- lib/dpkg/pkg-queue.c: the queue against the sequence of its nodes.
use dpkg.Base.{
  All, Bool-cases, List, Option, Option-cases, [], ap, arith, false, inl, inr, length,
  length-append, none, refl, some, suc, sym, true, zero, ℕ, ◌++◌, ◌+◌, ◌-◌, ◌==◌, ◌∙◌, ◌∷◌, ◌≡◌,
  ◌≤◌, ◌⊎◌,
}
use dpkg.PkgQueue.{
  Heap, PkgList, PkgQueue, link_tail, pkg_list_free, pkg_list_new, pkg_queue_destroy,
  pkg_queue_init, pkg_queue_pop, pkg_queue_push, put, set_next, tail_behind,
}

-- A node with its package.
pub record Cell : Type 0 where
  pub at : ℕ
  pub pkg : ℕ

-- The list from a pointer holds the cells.
abbrev pub Linked : Heap → Option ℕ → List Cell → Type 0
Linked h p [] = p ≡ none
Linked h p (c ∷ cs) =
    (n : Option ℕ) × (p ≡ some c.at)
    × (h c.at ≡ some (record { next = n; pkg = c.pkg }))
    × Linked h n cs

abbrev pub Apart : ℕ → List Cell → Type 0
Apart l = All (λ (c : Cell). (l == c.at) ≡ false)

abbrev pub AllApart : List Cell → Type 0
AllApart [] = Unit
AllApart (c ∷ cs) = Apart c.at cs × AllApart cs

abbrev pub IsLast : List Cell → Option ℕ → Type 0
IsLast [] t = t ≡ none
IsLast (c ∷ []) t = t ≡ some c.at
IsLast (c ∷ d ∷ cs) t = IsLast (d ∷ cs) t

pub record IsQueue (h : Heap) (q : PkgQueue) (cells : List Cell) : Type 0 where
  pub linked : Linked h q.head cells
  pub apart : AllApart cells
  pub last : IsLast cells q.tail
  pub count : q.length ≡ length cells

put_same : (h : Heap) (l : ℕ) (v : Option PkgList) → put h l v l ≡ v
unfolding put
put_same h l v = ground arith

put_other : (h : Heap) (l p : ℕ) (v : Option PkgList) → (l == p) ≡ false → put h l v p ≡ h p
unfolding put
put_other h l p v e = rw e refl

Linked-put :
    (h : Heap) (l : ℕ) (v : Option PkgList) (p : Option ℕ) (cells : List Cell)
    → Apart l cells
    → Linked h p cells
    → Linked (put h l v) p cells
Linked-put h l v p [] a k = k
Linked-put h l v p (c ∷ cs) a (n, e, f, k) =
    (n, e, put_other h l c.at v a.0 ∙ f, Linked-put h l v n cs a.1 k)

-- A node that is not allocated is no node of the list.
Apart-Linked :
    (h : Heap) (l : ℕ) (p : Option ℕ) (cells : List Cell)
    → h l ≡ none
    → Linked h p cells
    → Apart l cells
Apart-Linked h l p [] z k = tt
Apart-Linked h l p (c ∷ cs) z (n, e, f, k) =
    (differ (Bool-cases (l == c.at)), Apart-Linked h l n cs z k)
  where
    differ : ((l == c.at) ≡ true) ⊎ ((l == c.at) ≡ false) → (l == c.at) ≡ false
    differ (inl s) = let same : l ≡ c.at = ground arith in absurd (clash (sym z ∙ ap h same ∙ f))
      where
        clash : {x : PkgList} → ◌≡◌ {A = Option PkgList} none (some x) → ⊥
        clash e = cc
    differ (inr s) = s

IsLast-Apart :
    (l t : ℕ) (cells : List Cell) → IsLast cells (some t) → Apart l cells → (t == l) ≡ false
IsLast-Apart l t [] e a = cc
IsLast-Apart l t (c ∷ []) e a = let same : t ≡ c.at = cc in rw same (ground (arith, a.0))
IsLast-Apart l t (c ∷ d ∷ cs) e a = IsLast-Apart l t (d ∷ cs) e a.1

Apart-snoc :
    (l : ℕ) (cells : List Cell) (c : Cell)
    → Apart l cells
    → (l == c.at) ≡ false
    → Apart l (cells ++ c ∷ [])
Apart-snoc l [] c a e = (e, tt)
Apart-snoc l (d ∷ cs) c a e = (a.0, Apart-snoc l cs c a.1 e)

AllApart-snoc :
    (cells : List Cell) (c : Cell) → AllApart cells → Apart c.at cells → AllApart (cells ++ c ∷ [])
AllApart-snoc [] c a e = (tt, tt)
AllApart-snoc (d ∷ cs) c a e =
    (Apart-snoc d.at cs c a.0 (ground (arith, e.0)), AllApart-snoc cs c a.1 e.1)

IsLast-snoc : (cells : List Cell) (c : Cell) → IsLast (cells ++ c ∷ []) (some c.at)
IsLast-snoc [] c = refl
IsLast-snoc (d ∷ []) c = refl
IsLast-snoc (d ∷ e ∷ cs) c = IsLast-snoc (e ∷ cs) c

-- The list from `p` after the node `t` at its end has been linked to the node of `c`.
abbrev Extended : Heap → ℕ → Option ℕ → List Cell → Cell → Type 0
Extended h t p cells c =
    (x : ℕ) × (n : Option ℕ) × (h t ≡ some (record { next = n; pkg = x }))
    × Linked (put h t (some (record { next = some c.at; pkg = x }))) p (cells ++ c ∷ [])

link_end :
    (h : Heap) (t : ℕ) (p : Option ℕ) (cells : List Cell) (c : Cell)
    → Linked h p cells
    → IsLast cells (some t)
    → AllApart cells
    → Apart c.at cells
    → h c.at ≡ some (record { next = none; pkg = c.pkg })
    → Extended h t p cells c
link_end h t p [] c k l a b e = cc
link_end h t p (d ∷ []) c (n, f, g, k) l a b e =
    let same : t ≡ d.at = cc in
    let differ : (t == c.at) ≡ false = ground (arith, same, b.0) in
    let new : Option PkgList = some (record { next = some c.at; pkg = d.pkg }) in
    (
      d.pkg,
      n,
      ap h same ∙ g,
      (
        some c.at,
        f,
        ap (put h t new) (sym same) ∙ put_same h t new,
        (none, refl, put_other h t c.at new differ ∙ e, refl),
      ),
    )
link_end h t p (d ∷ d' ∷ cs) c (n, f, g, k) l a b e =
    let (x, m, i, j) = link_end h t n (d' ∷ cs) c k l a.1 b.1 e in
    (x, m, i, (n, f, put_other h t d.at _ (IsLast-Apart d.at t (d' ∷ cs) l a.0) ∙ g, j))

IsLast-none : (cells : List Cell) → IsLast cells none → cells ≡ []
IsLast-none [] e = refl
IsLast-none (c ∷ []) e = cc
IsLast-none (c ∷ d ∷ cs) e = absurd (no_end (IsLast-none (d ∷ cs) e))
  where
    no_end : ◌≡◌ {A = List Cell} (d ∷ cs) [] → ⊥
    no_end e = cc

-- What a push gives.
abbrev pub Pushed : Heap → PkgQueue → List Cell → ℕ → ℕ → Type 0
Pushed h q cells pkg node =
    (q' : PkgQueue) × (h' : Heap) × (pkg_queue_push q pkg node h ≡ some (q', h'))
    × IsQueue h' q' (cells ++ record { at = node; pkg = pkg } ∷ [])

push_empty :
    (h : Heap) (q : PkgQueue) (pkg node : ℕ) → q.tail ≡ none → q.length ≡ 0 → Pushed h q [] pkg node
unfolding pkg_queue_push link_tail pkg_list_new
push_empty h q pkg node e z = (
  record { head = some node; tail = some node; length = q.length + 1 },
  put h node (some (record { next = none; pkg = pkg })),
  rw e refl,
  record {
    linked = (none, refl, put_same h node _, refl);
    apart = (tt, tt);
    last = refl;
    count = omega (arith, z);
  },
)

push_more :
    (h : Heap) (q : PkgQueue) (cells : List Cell) (pkg node t : ℕ)
    → IsQueue h q cells
    → h node ≡ none
    → q.tail ≡ some t
    → Pushed h q cells pkg node
unfolding pkg_queue_push link_tail set_next pkg_list_new
push_more h q cells pkg node t k z e =
    let fresh = Apart-Linked h node q.head cells z k.linked in
    let new : Option PkgList = some (record { next = none; pkg = pkg }) in
    let (x, n, i, j) =
      link_end (put h node new) t q.head cells (record { at = node; pkg = pkg })
        (Linked-put h node new q.head cells fresh k.linked) (rw e at k.last) k.apart fresh
        (put_same h node new) in
    (
      record { head = q.head; tail = some node; length = q.length + 1 },
      put (put h node new) t (some (record { next = some node; pkg = x })),
      rw (e, i) refl,
      record {
        linked = j;
        apart = AllApart-snoc cells (record { at = node; pkg = pkg }) k.apart fresh;
        last = IsLast-snoc cells (record { at = node; pkg = pkg });
        count = omega (arith, k.count, length-append cells (record { at = node; pkg = pkg } ∷ []));
      },
    )

-- On a queue whose nodes are linked, apart and counted, with its tail at the last one, a push with
-- a node that is not allocated ends with such a queue of the same nodes and the new one behind
-- them.
pub pkg_queue_push-IsQueue :
    (h : Heap) (q : PkgQueue) (cells : List Cell) (pkg node : ℕ)
    → IsQueue h q cells
    → h node ≡ none
    → Pushed h q cells pkg node
pkg_queue_push-IsQueue h q cells pkg node k z = elim (Option-cases q.tail) [
  | inl e ↦
      let nil : cells ≡ [] = IsLast-none cells (rw e at k.last) in
      rw nil (push_empty h q pkg node e (k.count ∙ ap length nil))
  | inr (t, e) ↦ push_more h q cells pkg node t k z e
]

IsLast-tail_behind :
    (h : Heap) (n : Option ℕ) (c : Cell) (cells : List Cell) (t : Option ℕ)
    → Linked h n cells
    → IsLast (c ∷ cells) t
    → IsLast cells (tail_behind n t)
IsLast-tail_behind h n c [] t k l = rw k refl
IsLast-tail_behind h n c (d ∷ cs) t (m, e, f, k) l = rw e l

-- On such a queue with a first node, a pop gives the package of that node, frees it and ends with
-- such a queue of the others.
pub pkg_queue_pop-IsQueue :
    (h : Heap) (q : PkgQueue) (c : Cell) (cells : List Cell)
    → IsQueue h q (c ∷ cells)
    → (q' : PkgQueue) × (h' : Heap) × (pkg_queue_pop q h ≡ some (some c.pkg, q', h'))
      × IsQueue h' q' cells
      × (h' c.at ≡ none)
unfolding pkg_queue_pop
pkg_queue_pop-IsQueue h q c cells k =
    let (n, e, f, l) = k.linked in
    (
      record { head = n; tail = tail_behind n q.tail; length = q.length - 1 },
      put h c.at none,
      rw (e, f) refl,
      record {
        linked = Linked-put h c.at none n cells k.apart.0 l;
        apart = k.apart.1;
        last = IsLast-tail_behind h n c cells q.tail l k.last;
        count = omega (arith, k.count);
      },
      put_same h c.at none,
    )

-- The heap without the nodes.
abbrev freed : List Cell → Heap → Heap
freed [] h = h
freed (c ∷ cs) h = freed cs (put h c.at none)

pkg_list_free-freed :
    (fuel : ℕ) (h : Heap) (p : Option ℕ) (cells : List Cell)
    → Linked h p cells
    → AllApart cells
    → length cells ≤ fuel
    → pkg_list_free fuel p h ≡ some (freed cells h)
unfolding pkg_list_free
pkg_list_free-freed fuel h p [] k a b = rw k refl
pkg_list_free-freed zero h p (c ∷ cs) k a b = absurd (omega arith)
pkg_list_free-freed (suc fuel) h p (c ∷ cs) (n, e, f, k) a b =
    rw (e, f)
      (pkg_list_free-freed fuel (put h c.at none) n cs (Linked-put h c.at none n cs a.0 k) a.1
        (omega arith))

freed_other : (p : ℕ) (cells : List Cell) (h : Heap) → Apart p cells → freed cells h p ≡ h p
freed_other p [] h a = refl
freed_other p (c ∷ cs) h a =
    freed_other p cs (put h c.at none) a.1 ∙ put_other h c.at p none (ground (arith, a.0))

freed_all :
    (cells : List Cell) (h : Heap)
    → AllApart cells
    → All (λ (c : Cell). freed cells h c.at ≡ none) cells
freed_all [] h a = tt
freed_all (c ∷ cs) h a = (
  freed_other c.at cs (put h c.at none) a.0 ∙ put_same h c.at none,
  freed_all cs (put h c.at none) a.1,
)

-- With fuel for the number of its nodes, destroying such a queue ends: its nodes are freed, every
-- other one is kept and the queue is the initial one.
pub pkg_queue_destroy-ends :
    (fuel : ℕ) (h : Heap) (q : PkgQueue) (cells : List Cell)
    → IsQueue h q cells
    → length cells ≤ fuel
    → (h' : Heap) × (pkg_queue_destroy fuel q h ≡ some (pkg_queue_init, h'))
      × All (λ (c : Cell). h' c.at ≡ none) cells
      × ((p : ℕ) → Apart p cells → h' p ≡ h p)
unfolding pkg_queue_destroy
pkg_queue_destroy-ends fuel h q cells k b = (
  freed cells h,
  rw (pkg_list_free-freed fuel h q.head cells k.linked k.apart b) refl,
  freed_all cells h k.apart,
  λ p a. freed_other p cells h a,
)
