-- ===== src/Tests/Queues.antt =====
-- The theorems on queues of packages at a concrete queue.
use dpkg.Base.{All, [], arith, if◌then◌else◌, none, refl, some, ℕ, ◌==◌, ◌∷◌, ◌≡◌}
use dpkg.PkgQueue.{Heap, PkgQueue, pkg_queue_destroy, pkg_queue_init, pkg_queue_pop}
use dpkg.PkgQueue.Fifo.{
  Apart, Cell, IsQueue, Pushed, pkg_queue_destroy-ends, pkg_queue_pop-IsQueue,
  pkg_queue_push-IsQueue,
}

abbrev one_node : Heap
one_node p = if p == 1 then some (record { next = none; pkg = 7 }) else none

abbrev one_queue : PkgQueue
one_queue = record { head = some 1; tail = some 1; length = 1 }

abbrev cell : Cell
cell = record { at = 1; pkg = 7 }

one-IsQueue : IsQueue one_node one_queue (cell ∷ [])
one-IsQueue = record {
  linked = (none, refl, refl, refl);
  apart = (tt, tt);
  last = refl;
  count = refl;
}

pkg_queue_push-IsQueue_example : Pushed one_node one_queue (cell ∷ []) 8 2
pkg_queue_push-IsQueue_example =
    pkg_queue_push-IsQueue one_node one_queue (cell ∷ []) 8 2 one-IsQueue refl

pkg_queue_pop-IsQueue_example :
    (q' : PkgQueue) × (h' : Heap) × (pkg_queue_pop one_queue one_node ≡ some (some 7, q', h'))
    × IsQueue h' q' []
    × (h' 1 ≡ none)
pkg_queue_pop-IsQueue_example = pkg_queue_pop-IsQueue one_node one_queue cell [] one-IsQueue

pkg_queue_destroy-ends_example :
    (h' : Heap) × (pkg_queue_destroy 1 one_queue one_node ≡ some (pkg_queue_init, h'))
    × All (λ (c : Cell). h' c.at ≡ none) (cell ∷ [])
    × ((p : ℕ) → Apart p (cell ∷ []) → h' p ≡ one_node p)
pkg_queue_destroy-ends_example =
    pkg_queue_destroy-ends 1 one_node one_queue (cell ∷ []) one-IsQueue (omega arith)
