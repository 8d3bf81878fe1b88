-- ===== src/ErrorReports/Listed.antt =====
-- src/main/errors.c: what is reported is what was enqueued.
use mathlib.Core.List.{append-nil, append_assoc}
use mathlib.Core.Path.{subst}
use dpkg.ErrorReports.{
  ErrorReport, Errors, LastReport, Report, at_next, at_reports, enqueue_error_report, finished,
  link_report, no_errors, node_or, put_node, report_loop, reportbroken_retexitstatus,
  used_after_free, with_name,
}
use dpkg.Base.{
  CString, List, Option, [], ap, arith, false, length, length-append, none, refl, some, suc, sym,
  true, zero, ℕ, ◌++◌, ◌==◌, ◌∙◌, ◌∷◌, ◌≡◌, ◌≤◌,
}

-- A node with the name that it reports.
pub record Cell : Type 0 where
  pub at : ℕ
  pub name : CString

abbrev pub start_of : List Cell → Option ℕ
start_of [] = none
start_of (c ∷ cells) = some c.at

abbrev pub last_node : Cell → List Cell → ℕ
last_node c [] = c.at
last_node c (d ∷ cells) = last_node d cells

abbrev pub last_of : List Cell → LastReport
last_of [] = at_reports
last_of (c ∷ cells) = at_next (last_node c cells)

-- The cells are linked one behind the other.
abbrev pub IsChain : (ℕ → ErrorReport) → List Cell → Type 0
IsChain nodes [] = Unit
IsChain nodes (c ∷ cells) =
    (nodes c.at ≡ record { next = start_of cells; what = some c.name }) × IsChain nodes cells

abbrev pub IsApart : ℕ → List Cell → Type 0
IsApart l [] = Unit
IsApart l (c ∷ cells) = ((c.at == l) ≡ false) × IsApart l cells

abbrev pub AllApart : List Cell → Type 0
AllApart [] = Unit
AllApart (c ∷ cells) = IsApart c.at cells × AllApart cells

abbrev pub names_of : List Cell → List CString
names_of [] = []
names_of (c ∷ cells) = c.name ∷ names_of cells

-- The list of reports consists of the cells.
pub record IsListed (s : Errors) (cells : List Cell) : Type 0 where
  pub start : s.reports ≡ start_of cells
  pub last : s.lastreport ≡ last_of cells
  pub chain : IsChain s.nodes cells
  pub apart : AllApart cells
  pub count : s.nerrs ≡ length cells

-- A change of another node.
IsChain-put :
    (nodes : ℕ → ErrorReport) (l : ℕ) (v : ErrorReport) (cells : List Cell)
    → IsApart l cells
    → IsChain nodes cells
    → IsChain (put_node nodes l v) cells
IsChain-put nodes l v [] a h = tt
IsChain-put nodes l v (c ∷ cells) a h =
    let other : (l == c.at) ≡ false = ground (arith, a.0) in
    (rw other (h.0), IsChain-put nodes l v cells a.1 h.1)

-- A round of the loop at a node.
abbrev one_round : ℕ → ℕ → (ℕ → ErrorReport) → ErrorReport → Report (List CString)
one_round fuel l nodes v =
    let rest = report_loop fuel v.next (put_node nodes l (record v { what = none })) in
    elim v.what [ none ↦ used_after_free | some name ↦ with_name name rest ]

loop_names :
    (nodes : ℕ → ErrorReport) (cells : List Cell) (fuel : ℕ)
    → IsChain nodes cells
    → AllApart cells
    → length cells ≤ fuel
    → report_loop fuel (start_of cells) nodes ≡ finished (names_of cells)
unfolding report_loop
loop_names nodes [] fuel h a l = refl
loop_names nodes (c ∷ cells) zero h a l = absurd (omega (arith, l))
loop_names nodes (c ∷ cells) (suc fuel) h a l =
    let less : length cells ≤ fuel = omega (arith, l) in
    let v : ErrorReport = record { next = start_of cells; what = none } in
    let rest = IsChain-put nodes c.at v cells a.0 h.1 in
    let again = loop_names (put_node nodes c.at v) cells fuel rest a.1 less in
    ap (one_round fuel c.at nodes) (h.0) ∙ ap (with_name c.name) again

last_apart :
    (l : ℕ) (c : Cell) (cells : List Cell)
    → IsApart l (c ∷ cells)
    → (last_node c cells == l) ≡ false
last_apart l c [] a = a.0
last_apart l c (d ∷ cells) a = last_apart l d cells a.1

last_snoc : (c n : Cell) (cells : List Cell) → last_node c (cells ++ n ∷ []) ≡ n.at
last_snoc c n [] = refl
last_snoc c n (d ∷ cells) = last_snoc d n cells

IsApart-snoc :
    (l : ℕ) (n : Cell) (cells : List Cell)
    → IsApart l cells
    → (n.at == l) ≡ false
    → IsApart l (cells ++ n ∷ [])
IsApart-snoc l n [] a e = (e, tt)
IsApart-snoc l n (c ∷ cells) a e = (a.0, IsApart-snoc l n cells a.1 e)

AllApart-snoc :
    (n : Cell) (cells : List Cell)
    → IsApart n.at cells
    → AllApart cells
    → AllApart (cells ++ n ∷ [])
AllApart-snoc n [] a h = (tt, tt)
AllApart-snoc n (c ∷ cells) a h =
    let e : (n.at == c.at) ≡ false = ground (arith, a.0) in
    (IsApart-snoc c.at n cells h.0 e, AllApart-snoc n cells a.1 h.1)

-- The node behind the last cell.
link-IsChain :
    (nodes : ℕ → ErrorReport) (n c : Cell) (cells : List Cell)
    → IsChain nodes (c ∷ cells)
    → nodes n.at ≡ record { next = none; what = some n.name }
    → IsApart n.at (c ∷ cells)
    → AllApart (c ∷ cells)
    → IsChain
        (put_node nodes
          (last_node c cells)
          (record (nodes (last_node c cells)) { next = some n.at }))
        (c ∷ cells ++ n ∷ [])
link-IsChain nodes n c [] h e a d =
    let self : (c.at == c.at) ≡ true = ground arith in
    let other : (c.at == n.at) ≡ false = a.0 in
    (rw self (ap (λ (v : ErrorReport). record v { next = some n.at }) (h.0)), (rw other e, tt))
link-IsChain nodes n c (x ∷ cells) h e a d =
    let other = last_apart c.at x cells d.0 in
    (rw other (h.0), link-IsChain nodes n x cells h.1 e a.1 d.1)

pub enqueue_error_report-IsListed :
    (errabort : ℕ) (node : Option ℕ) (arg : CString) (s : Errors) (cells : List Cell)
    → IsApart (node_or node) cells
    → IsListed s cells
    → IsListed
        (enqueue_error_report errabort node arg s)
        (cells ++ record { at = node_or node; name = arg } ∷ [])
unfolding enqueue_error_report link_report
enqueue_error_report-IsListed errabort node arg s cells a h = by_cells cells a h
  where
    n : Cell
    n = record { at = node_or node; name = arg }

    nodes : ℕ → ErrorReport
    nodes = put_node s.nodes n.at (record { next = none; what = some arg })

    new : nodes n.at ≡ record { next = none; what = some arg }
    new = let self : (n.at == n.at) ≡ true = ground arith in rw self refl

    by_cells :
        (cells : List Cell)
        → IsApart n.at cells
        → IsListed s cells
        → IsListed (enqueue_error_report errabort node arg s) (cells ++ n ∷ [])
    by_cells [] a h = rw (h.last) (record {
      start = refl;
      last = refl;
      chain = (new, tt);
      apart = (tt, tt);
      count = ap suc h.count;
    })
    by_cells (c ∷ cells) a h = rw (h.last) (record {
      start = h.start;
      last = ap at_next (sym (last_snoc c n cells));
      chain =
          link-IsChain nodes n c cells (IsChain-put s.nodes n.at _ (c ∷ cells) a h.chain) new a
            h.apart;
      apart = AllApart-snoc n (c ∷ cells) a h.apart;
      count = omega (arith, h.count, length-append cells (n ∷ []));
    })

-- Errors one after the other, each with what `malloc` gives for it.
abbrev pub enqueue_all : ℕ → List (Option ℕ × CString) → Errors → Errors
enqueue_all errabort [] s = s
enqueue_all errabort ((node, arg) ∷ rest) s =
    enqueue_all errabort rest (enqueue_error_report errabort node arg s)

abbrev pub cells_of : List (Option ℕ × CString) → List Cell
cells_of [] = []
cells_of ((node, arg) ∷ rest) = record { at = node_or node; name = arg } ∷ cells_of rest

abbrev pub args_of : List (Option ℕ × CString) → List CString
args_of [] = []
args_of ((_, arg) ∷ rest) = arg ∷ args_of rest

-- The cells that are listed and those still to come are apart.
enqueue_all-IsListed :
    (errabort : ℕ) (errors : List (Option ℕ × CString)) (s : Errors) (cells : List Cell)
    → AllApart (cells ++ cells_of errors)
    → IsListed s cells
    → IsListed (enqueue_all errabort errors s) (cells ++ cells_of errors)
enqueue_all-IsListed errabort [] s cells a h = rw (append-nil cells) h
enqueue_all-IsListed errabort ((node, arg) ∷ rest) s cells a h =
    let n : Cell = record { at = node_or node; name = arg } in
    let again : cells ++ n ∷ cells_of rest ≡ (cells ++ n ∷ []) ++ cells_of rest =
      sym (append_assoc cells (n ∷ []) (cells_of rest)) in
    subst (IsListed (enqueue_all errabort rest (enqueue_error_report errabort node arg s)))
      (sym again)
      (enqueue_all-IsListed errabort rest (enqueue_error_report errabort node arg s)
        (cells ++ n ∷ []) (subst AllApart again a)
        (enqueue_error_report-IsListed errabort node arg s cells (fresh cells n (cells_of rest) a)
          h))
  where
    before :
        (c n : Cell) (cells more : List Cell)
        → IsApart c.at (cells ++ n ∷ more)
        → (n.at == c.at) ≡ false
    before c n [] more a = a.0
    before c n (d ∷ cells) more a = before c n cells more a.1

    fresh :
        (cells : List Cell) (n : Cell) (more : List Cell)
        → AllApart (cells ++ n ∷ more)
        → IsApart n.at cells
    fresh [] n more a = tt
    fresh (c ∷ cells) n more a =
        let e = before c n cells more a.0 in (ground (arith, e), fresh cells n more a.1)

names_args : (errors : List (Option ℕ × CString)) → names_of (cells_of errors) ≡ args_of errors
names_args [] = refl
names_args ((_, arg) ∷ rest) = ap (λ r. arg ∷ r) (names_args rest)

-- After one error or more, each with a new node, of which one at most is the emergency node because
-- memory ran out, the final report ends, names the failed packages in the order of the errors, and
-- gives the exit status 1.
pub reportbroken_retexitstatus-enqueue_all :
    (errabort ret : ℕ) (nodes : ℕ → ErrorReport) (node : Option ℕ) (arg : CString)
    (errors : List (Option ℕ × CString)) (fuel : ℕ)
    → AllApart (cells_of ((node, arg) ∷ errors))
    → length (cells_of ((node, arg) ∷ errors)) ≤ fuel
    → let s : Errors = enqueue_all errabort ((node, arg) ∷ errors) (no_errors nodes) in
      reportbroken_retexitstatus fuel ret s ≡ finished (arg ∷ args_of errors, s.abort_processing, 1)
unfolding reportbroken_retexitstatus
reportbroken_retexitstatus-enqueue_all errabort ret nodes node arg errors fuel a l =
    rw (h.start, loop_names s.nodes cells fuel h.chain h.apart l, some_errors, names_args errors)
      refl
  where
    s : Errors
    s = enqueue_all errabort ((node, arg) ∷ errors) (no_errors nodes)

    cells : List Cell
    cells = cells_of ((node, arg) ∷ errors)

    h : IsListed s cells
    h =
        enqueue_all-IsListed errabort ((node, arg) ∷ errors) (no_errors nodes) [] a
          (record { start = refl; last = refl; chain = tt; apart = tt; count = refl })

    some_errors : (s.nerrs == 0) ≡ false
    some_errors = ground (arith, h.count)

-- If memory runs out for the nodes of both of the first two errors, the final report, with fuel for
-- two rounds, reads a name that it has freed.
pub reportbroken_retexitstatus-used_after_free :
    (errabort ret fuel : ℕ) (nodes : ℕ → ErrorReport) (first second : CString)
    → 2 ≤ fuel
    → reportbroken_retexitstatus fuel ret
        (enqueue_all errabort ((none, first) ∷ (none, second) ∷ []) (no_errors nodes))
      ≡ used_after_free
unfolding reportbroken_retexitstatus report_loop enqueue_error_report link_report
reportbroken_retexitstatus-used_after_free errabort ret zero nodes first second l =
    absurd (omega (arith, l))
reportbroken_retexitstatus-used_after_free errabort ret (suc zero) nodes first second l =
    absurd (omega (arith, l))
reportbroken_retexitstatus-used_after_free errabort ret (suc (suc fuel)) nodes first second l = refl
