-- ===== src/Service/Lifecycle.antt =====
-- runtime/serviceapp.hpp: ServiceLifecycle. A start or a stop runs under `transition_`, so that each is
-- one function; `add` takes no lock, and is for the time before the start. What a component's `start` and `stop` do is an argument: whether `start` returns, and what
-- the wait for a stop finds. `log`, newest first, is no part of the code: it has what is called on the
-- components and what the waits find.
pub mod Log
pub mod Phases
pub mod Invariant
pub mod Starting
pub mod Stopping
pub mod Runs
pub mod Completion
pub mod Rollback
use cppservicelib.Prelude.{
  ℕ, Bool, true, false, not, ◌&&◌, ◌||◌, List, [], ◌∷◌, ◌++◌, Option, none, some, ◌==◌,
  if◌then◌else◌, or_else,
}

-- `ServiceComponentKind`
pub data ComponentKind : Type 0 where
  data_source data_sink storage delay_pool task_pool priority_task_pool component : ComponentKind

abbrev pub index : ComponentKind → ℕ
index data_source = 0
index data_sink = 1
index storage = 2
index delay_pool = 3
index task_pool = 4
index priority_task_pool = 5
index component = 6

-- `Entry*`: the kind and the address of the component, which no two entries share.
pub record Entry : Type 0 where
  pub kind : ComponentKind
  pub identity : ℕ

abbrev pub same : Entry → Entry → Bool
same p q = (index p.kind == index q.kind) && (p.identity == q.identity)

pub data Error : Type 0 where
  null_component not_created already_registered already_started in_progress not_drained : Error
  start_error stop_error stop_expired : Entry → Error

pub data State : Type 0 where
  created starting running stopping stopped : State

pub data Event : Type 0 where
  start_called stop_called stop_returned stop_threw stop_timed_out : Entry → Event

-- `entries` are those of all kinds, in the order of their registration. `order` is `started_`, newest
-- first.
pub record Lifecycle : Type 0 where
  pub entries : List Entry
  pub started : Entry → Bool
  -- `entry.stopping` is set
  pub stops : Entry → Bool
  pub order : List Entry
  pub state : State
  pub rollback_pending : Bool
  pub before_graph_drained : Bool
  pub log : List Event

abbrev pub new_lifecycle : Lifecycle
new_lifecycle = record {
  entries = [];
  started = λ _. false;
  stops = λ _. false;
  order = [];
  state = created;
  rollback_pending = false;
  before_graph_drained = false;
  log = [];
}

abbrev pub Outcome : Type 0
Outcome = Option Error × Lifecycle

-- What follows runs where nothing was thrown.
abbrev pub and_then : Outcome → (Lifecycle → Outcome) → Outcome
and_then (none, s) next = next s
and_then (some e, s) next = (some e, s)

abbrev pub set_flag : (Entry → Bool) → Entry → Bool → Entry → Bool
set_flag flags p b q = if same q p then b else flags q

abbrev pub listed : Entry → List Entry → Bool
listed p [] = false
listed p (q ∷ qs) = same p q || listed p qs

-- `entries_[index(kind)]`
unfoldable pub of_kind : ComponentKind → List Entry → List Entry
of_kind k [] = []
of_kind k (p ∷ ps) = let rest = of_kind k ps in if index p.kind == index k then p ∷ rest else rest

abbrev pub is_created : State → Bool
is_created created = true
is_created _ = false

abbrev pub is_stopped : State → Bool
is_stopped stopped = true
is_stopped _ = false

abbrev pub is_stopping : State → Bool
is_stopping stopping = true
is_stopping _ = false

-- `add`, of a null pointer where there is no entry.
unfoldable pub add : Option Entry → Lifecycle → Outcome
add none s = (some null_component, s)
add (some p) s =
    if not (is_created s.state)
    then (some not_created, s)
    else if listed p (of_kind p.kind s.entries)
    then (some already_registered, s)
    else (none, record s { entries = s.entries ++ p ∷ [] })

abbrev pub append_reverse : List Entry → List Entry → List Entry
append_reverse target [] = target
append_reverse target (p ∷ ps) = append_reverse target ps ++ p ∷ []

-- `clear`
abbrev pub clear : Lifecycle → Lifecycle
clear s = record s { entries = []; order = [] }

-- What a wait for a stop finds: the stop has returned or has thrown, or the context ends first.
pub data Waited : Type 0 where
  done threw expired : Waited

-- `stopPhase`, its first loop.
unfoldable pub launch : Entry → Lifecycle → Lifecycle
launch p s =
    if not (s.started p) || s.stops p
    then s
    else record s { stops = set_flag s.stops p true; log = stop_called p ∷ s.log }

unfoldable pub launch_all : List Entry → Lifecycle → Lifecycle
launch_all [] s = s
launch_all (p ∷ ps) s = launch_all ps (launch p s)

-- Its second loop, where only the first failure is kept.
abbrev pub waited_for : Waited → Entry → Option Error → Lifecycle → Outcome
waited_for expired p failure s =
    (or_else failure (some (stop_expired p)), record s { log = stop_timed_out p ∷ s.log })
waited_for done p failure s = (
  failure,
  record s {
    started = set_flag s.started p false;
    stops = set_flag s.stops p false;
    log = stop_returned p ∷ s.log;
  },
)
waited_for threw p failure s = (
  or_else failure (some (stop_error p)),
  record s { stops = set_flag s.stops p false; log = stop_threw p ∷ s.log },
)

unfoldable pub wait_for : Waited → Entry → Option Error → Lifecycle → Outcome
wait_for w p failure s = if s.started p then waited_for w p failure s else (failure, s)

unfoldable pub wait_all : (Entry → Waited) → List Entry → Option Error → Lifecycle → Outcome
wait_all waits [] failure s = (failure, s)
wait_all waits (p ∷ ps) failure s =
    let (next, t) = wait_for (waits p) p failure s in wait_all waits ps next t

unfoldable pub stop_phase : (Entry → Waited) → List Entry → Lifecycle → Outcome
stop_phase waits ps s = wait_all waits ps none (launch_all ps s)

-- `stopStarted`, from the entry that was started last.
unfoldable pub stop_started : (Entry → Waited) → List Entry → Lifecycle → Outcome
stop_started waits [] s = (none, clear (record s { rollback_pending = false; state = stopped }))
stop_started waits (p ∷ ps) s = and_then (stop_phase waits (p ∷ []) s) (stop_started waits ps)

-- `kStartOrder`
abbrev pub start_order : List ComponentKind
start_order =
    storage ∷ delay_pool ∷ task_pool ∷ priority_task_pool ∷ component ∷ data_sink ∷ data_source ∷ []

-- `startImpl`, the entries of one kind. `starts` tells whether `start` returns.
unfoldable pub start_one : (Entry → Bool) → Entry → Lifecycle → Outcome
start_one starts p s =
    let t = record s {
      started = set_flag s.started p true;
      order = p ∷ s.order;
      log = start_called p ∷ s.log;
    } in
    if starts p then (none, t) else (some (start_error p), t)

unfoldable pub start_all : (Entry → Bool) → List Entry → Lifecycle → Outcome
start_all starts [] s = (none, s)
start_all starts (p ∷ ps) s = and_then (start_one starts p s) (start_all starts ps)

-- Its loop over the kinds: without `admission` the data sources stay as they are.
unfoldable pub start_kinds : (Entry → Bool) → Bool → List ComponentKind → Lifecycle → Outcome
unfolding of_kind
start_kinds starts admission [] s = (none, s)
start_kinds starts admission (k ∷ ks) s =
    and_then
      (start_all starts
        (if not admission && (index k == index data_source) then [] else of_kind k s.entries) s)
      (start_kinds starts admission ks)

-- The error of the start is thrown, whatever the rollback does.
abbrev pub started_or_rolled_back : (Entry → Waited) → Outcome → Outcome
started_or_rolled_back waits (none, s) = (none, record s { state = running })
started_or_rolled_back waits (some e, s) = (
  some e,
  (stop_started waits s.order (record s { state = stopping; rollback_pending = true })).1,
)

unfoldable pub start_impl : (Entry → Bool) → (Entry → Waited) → Bool → Lifecycle → Outcome
unfolding start_kinds stop_started
start_impl starts waits admission s =
    if not (is_created s.state)
    then (some already_started, s)
    else started_or_rolled_back waits
        (start_kinds starts admission start_order (record s { state = starting }))

-- The entries of `stopBeforeGraphDrain`, and the sinks of `stopAfterGraphDrain`.
abbrev pub admission_entries : List Entry → List Entry
admission_entries es =
    append_reverse (append_reverse [] (of_kind data_source es)) (of_kind component es)

abbrev pub executor_entries : List Entry → List Entry
executor_entries es =
    append_reverse
      (append_reverse
        (append_reverse (append_reverse [] (of_kind priority_task_pool es)) (of_kind task_pool es))
        (of_kind delay_pool es))
      (of_kind storage es)

abbrev pub sink_entries : List Entry → List Entry
sink_entries es = append_reverse [] (of_kind data_sink es)

-- The two phases of `stopBeforeGraphDrain`.
unfoldable pub drain_phases : (Entry → Waited) → Lifecycle → Outcome
unfolding stop_phase
drain_phases waits s = and_then (stop_phase waits (admission_entries s.entries) s) λ t.
    and_then (stop_phase waits (executor_entries t.entries) t)
      λ u. (none, record u { before_graph_drained = true })

-- `stopBeforeGraphDrain`, in its states `starting`, and running or stopping.
abbrev pub stop_in_state : (Entry → Waited) → State → Lifecycle → Outcome
stop_in_state waits starting s = (some in_progress, s)
stop_in_state waits _ s = drain_phases waits (record s { state = stopping })

unfoldable pub stop_before_graph_drain : (Entry → Waited) → Lifecycle → Outcome
unfolding stop_started drain_phases
stop_before_graph_drain waits s =
    if is_created s.state
    then (none, clear (record s { state = stopped }))
    else if is_stopped s.state
    then (none, s)
    else if s.rollback_pending
    then stop_started waits s.order s
    else if s.before_graph_drained
    then (none, s)
    else stop_in_state waits s.state s

unfoldable pub stop_after_graph_drain : (Entry → Waited) → Lifecycle → Outcome
unfolding stop_phase
stop_after_graph_drain waits s =
    if is_stopped s.state
    then (none, s)
    else if not (is_stopping s.state) || not s.before_graph_drained
    then (some not_drained, s)
    else and_then (stop_phase waits (sink_entries s.entries) s)
        λ t. (none, clear (record t { state = stopped }))

unfoldable pub stop : (Entry → Waited) → Lifecycle → Outcome
unfolding stop_before_graph_drain stop_after_graph_drain
stop waits s = and_then (stop_before_graph_drain waits s) (stop_after_graph_drain waits)

-- What the callers of a lifecycle do, in the order in which they get `transition_`.
pub data Call : Type 0 where
  adds : Option Entry → Call
  -- `start` or `startGraph`
  starts : (Entry → Bool) → (Entry → Waited) → Bool → Call
  stops_before stops_after : (Entry → Waited) → Call

unfoldable pub call : Call → Lifecycle → Outcome
unfolding add start_impl stop_before_graph_drain stop_after_graph_drain
call (adds p) s = add p s
call (starts ok waits admission) s = start_impl ok waits admission s
call (stops_before waits) s = stop_before_graph_drain waits s
call (stops_after waits) s = stop_after_graph_drain waits s

unfoldable pub calls : List Call → Lifecycle → Lifecycle
unfolding call
calls [] s = s
calls (c ∷ cs) s = calls cs (call c s).1
