-- ===== src/PkgQueue.antt =====
-- lib/dpkg/pkg-list.c and lib/dpkg/pkg-queue.c: linked lists of packages and their queue. A pointer to
-- a node is a number, and a package stands for its own address.
pub mod Fifo
use dpkg.Base.{Bool, Option, false, if◌then◌else◌, none, some, suc, true, zero, ℕ, ◌+◌, ◌-◌, ◌==◌}
use dpkg.Base.Options.{◌>>=◌}

pub record PkgList : Type 0 where
  pub next : Option ℕ
  pub pkg : ℕ

-- The nodes that are allocated.
abbrev pub Heap : Type 0
Heap = ℕ → Option PkgList

unfoldable pub put : Heap → ℕ → Option PkgList → Heap
put h l v p = if l == p then v else h p

pub record PkgQueue : Type 0 where
  pub head : Option ℕ
  pub tail : Option ℕ
  pub length : ℕ

-- `node` is what `m_malloc` gives.
unfoldable pub pkg_list_new : ℕ → Option ℕ → ℕ → Heap → Heap
unfolding put
pkg_list_new pkg next node h = put h node (some (record { next = next; pkg = pkg }))

-- The list is walked on fuel. `none` is the end of the fuel or a node that is not allocated.
unfoldable pub pkg_list_free : ℕ → Option ℕ → Heap → Option Heap
pkg_list_free fuel none h = some h
pkg_list_free zero (some l) h = none
pkg_list_free (suc fuel) (some l) h = h l >>= λ node. pkg_list_free fuel node.next (put h l none)

unfoldable pub pkg_list_prepend : Option ℕ → ℕ → ℕ → Heap → Option ℕ × Heap
unfolding pkg_list_new
pkg_list_prepend head pkg node h = (some node, pkg_list_new pkg head node h)

abbrev pub pkg_queue_init : PkgQueue
pkg_queue_init = record { head = none; tail = none; length = 0 }

unfoldable pub pkg_queue_destroy : ℕ → PkgQueue → Heap → Option (PkgQueue × Heap)
unfolding pkg_list_free
pkg_queue_destroy fuel queue h = pkg_list_free fuel queue.head h >>= λ h'. some (pkg_queue_init, h')

unfoldable pub pkg_queue_is_empty : PkgQueue → Bool
pkg_queue_is_empty queue = elim queue.head [ none ↦ true | some l ↦ false ]

-- `p->next = next`
unfoldable pub set_next : ℕ → Option ℕ → Heap → Option Heap
unfolding put
set_next p next h = h p >>= λ node. some (put h p (some (record node { next = next })))

unfoldable pub link_tail : PkgQueue → ℕ → Heap → Option (PkgQueue × Heap)
unfolding set_next
link_tail queue node h = elim queue.tail [
  | none ↦ some (record queue { head = some node }, h)
  | some t ↦ set_next t (some node) h >>= λ h'. some (queue, h')
]

-- `length` is below its bound.
unfoldable pub pkg_queue_push : PkgQueue → ℕ → ℕ → Heap → Option (PkgQueue × Heap)
unfolding link_tail pkg_list_new
pkg_queue_push queue pkg node h = link_tail queue node (pkg_list_new pkg none node h) >>= λ (q, h').
    some (record q { tail = some node; length = q.length + 1 }, h')

abbrev pub tail_behind : Option ℕ → Option ℕ → Option ℕ
tail_behind none tail = none
tail_behind (some l) tail = tail

-- The package of the first node, if there is one; `length` counts the nodes and is not 0 then.
unfoldable pub pkg_queue_pop : PkgQueue → Heap → Option (Option ℕ × PkgQueue × Heap)
unfolding put
pkg_queue_pop queue h = elim queue.head [
  | none ↦ some (none, queue, h)
  | some l ↦ h l >>= λ node. some (
    some node.pkg,
    record { head = node.next; tail = tail_behind node.next queue.tail; length = queue.length - 1 },
    put h l none,
  )
]
