-- ===== src/ErrorReports.antt =====
-- src/main/errors.c: the list of failed packages and archives, and the exit status. A pointer to a node
-- is a number.
pub mod Listed
use dpkg.Base.{
  Bool, CString, List, Option, [], false, if◌then◌else◌, ltb, none, not, some, suc, true, zero, ℕ,
  ◌==◌, ◌||◌, ◌∷◌,
}

-- `struct error_report`; `what` is `none` once it is freed.
pub record ErrorReport : Type 0 where
  pub next : Option ℕ
  pub what : Option CString

-- The node `emergency`.
abbrev pub emergency : ℕ
emergency = 0

-- What `lastreport` points to: `reports`, or the link of a node.
pub data LastReport : Type 0 where
  at_reports : LastReport
  at_next : ℕ → LastReport

pub record Errors : Type 0 where
  pub reports : Option ℕ
  pub lastreport : LastReport
  pub nodes : ℕ → ErrorReport
  pub nerrs : ℕ
  pub abort_processing : Bool

abbrev pub no_errors : (ℕ → ErrorReport) → Errors
no_errors nodes = record {
  reports = none;
  lastreport = at_reports;
  nodes = nodes;
  nerrs = 0;
  abort_processing = false;
}

abbrev pub put_node : (ℕ → ErrorReport) → ℕ → ErrorReport → ℕ → ErrorReport
put_node nodes l v p = if l == p then v else nodes p

abbrev pub is_failed : Option ℕ → Bool
is_failed none = true
is_failed (some l) = false

abbrev pub node_or : Option ℕ → ℕ
node_or none = emergency
node_or (some l) = l

-- `*lastreport = nr; lastreport = &nr->next`
unfoldable pub link_report : ℕ → Errors → Errors
link_report nr s = elim s.lastreport [
  | at_reports ↦ record s { reports = some nr; lastreport = at_next nr }
  | at_next l ↦ record s {
    nodes = put_node s.nodes l (record (s.nodes l) { next = some nr });
    lastreport = at_next nr;
  }
]

-- `node` is what `malloc` gives; `nerrs` is below its bound.
unfoldable pub enqueue_error_report : ℕ → Option ℕ → CString → Errors → Errors
unfolding link_report
enqueue_error_report errabort node arg s =
    let nr = node_or node in
    let t =
      link_report nr
        (record s { nodes = put_node s.nodes nr (record { next = none; what = some arg }) }) in
    record t {
      nerrs = suc t.nerrs;
      abort_processing = t.abort_processing || is_failed node || not (ltb (suc t.nerrs) errabort);
    }

-- How the report ends: with a value, at a name that is freed already, or at the end of the fuel.
pub data Report (A : Type 0) : Type 0 where
  finished : A → Report A
  used_after_free out_of_fuel : Report A

abbrev pub with_name : CString → Report (List CString) → Report (List CString)
with_name name (finished names) = finished (name ∷ names)
with_name name used_after_free = used_after_free
with_name name out_of_fuel = out_of_fuel

-- The loop of `reportbroken_retexitstatus` on fuel, with the names that it prints. It frees each name
-- that it has printed; the nodes themselves stay.
unfoldable pub report_loop : ℕ → Option ℕ → (ℕ → ErrorReport) → Report (List CString)
report_loop fuel none nodes = finished []
report_loop zero (some l) nodes = out_of_fuel
report_loop (suc fuel) (some l) nodes =
    let freed = put_node nodes l (record (nodes l) { what = none }) in
    let rest = report_loop fuel (nodes l).next freed in
    elim (nodes l).what [ none ↦ used_after_free | some name ↦ with_name name rest ]

-- The names printed, whether it says that there were too many errors, and the exit status.
abbrev pub report_result : ℕ → Errors → Report (List CString) → Report (List CString × Bool × ℕ)
report_result ret s (finished names) =
    finished (names, s.abort_processing, if s.nerrs == 0 then ret else 1)
report_result ret s used_after_free = used_after_free
report_result ret s out_of_fuel = out_of_fuel

unfoldable pub reportbroken_retexitstatus : ℕ → ℕ → Errors → Report (List CString × Bool × ℕ)
unfolding report_loop
reportbroken_retexitstatus fuel ret s = report_result ret s (report_loop fuel s.reports s.nodes)
