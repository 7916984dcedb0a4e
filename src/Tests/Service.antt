-- ===== src/Tests/Service.antt =====
-- A service with a source, a component, a pool and a sink.
use cppservicelib.Prelude.{
  ◌≡◌, refl, Bool, true, false, not, List, [], ◌∷◌, none, some, ◌==◌, if◌then◌else◌,
}
use cppservicelib.Service.Lifecycle.{
  Entry, data_source, data_sink, task_pool, component, Waited, done, threw, expired, start_called,
  stop_called, stop_returned, stop_threw, stop_timed_out, new_lifecycle, Call, adds, starts,
  stops_before, call, calls, stop, start_impl, add, start_kinds, start_all, start_one, of_kind,
  stop_before_graph_drain, stop_started, stop_phase, launch_all, launch, wait_all, wait_for,
  drain_phases,
}
use cppservicelib.Service.Lifecycle.Log.{is_active, IsOrderly}
use cppservicelib.Service.Lifecycle.Runs.{stops_in_order}
use cppservicelib.Service.Lifecycle.Completion.{stop_completes}

abbrev source : Entry
source = record { kind = data_source; identity = 1 }

abbrev worker : Entry
worker = record { kind = component; identity = 2 }

abbrev workers : Entry
workers = record { kind = task_pool; identity = 3 }

abbrev output : Entry
output = record { kind = data_sink; identity = 4 }

abbrev starting_well : Entry → Bool
starting_well _ = true

abbrev stopping_well : Entry → Waited
stopping_well _ = done

-- The stop of the component throws, and no other stop returns in time.
abbrev stopping_badly : Entry → Waited
stopping_badly p = if p.identity == 2 then threw else expired

abbrev registered : List Call
registered = adds (some source) ∷ adds (some worker) ∷ adds (some workers) ∷ adds (some output) ∷ []

abbrev running_service : List Call
running_service =
    adds (some source)
    ∷ adds (some worker)
    ∷ adds (some workers)
    ∷ adds (some output)
    ∷ starts starting_well stopping_well true
    ∷ []

abbrev failed_stop : List Call
failed_stop =
    adds (some source)
    ∷ adds (some worker)
    ∷ adds (some workers)
    ∷ adds (some output)
    ∷ starts starting_well stopping_well true
    ∷ stops_before stopping_badly
    ∷ []

log_of_failed_stop :
    (calls failed_stop new_lifecycle).log
    ≡ stop_threw worker
      ∷ stop_timed_out source
      ∷ stop_called worker
      ∷ stop_called source
      ∷ start_called source
      ∷ start_called output
      ∷ start_called worker
      ∷ start_called workers
      ∷ []
unfolding calls call add start_impl start_kinds start_all start_one of_kind stop_before_graph_drain
    stop_started stop_phase launch_all launch wait_all wait_for drain_phases
log_of_failed_stop = refl

stops_in_order_example : IsOrderly (calls failed_stop new_lifecycle).log
stops_in_order_example = stops_in_order failed_stop

stop_completes_example :
    let r = stop (λ _. done) (calls failed_stop new_lifecycle) in
    (r.0 ≡ none) × ((q : Entry) → is_active r.1.log q ≡ false)
stop_completes_example = stop_completes failed_stop

-- The component does not start.
abbrev worker_fails : Entry → Bool
worker_fails p = not (p.identity == 2)

log_of_rollback :
    (start_impl worker_fails stopping_well true (calls registered new_lifecycle)).1.log
    ≡ stop_returned workers
      ∷ stop_called workers
      ∷ stop_returned worker
      ∷ stop_called worker
      ∷ start_called worker
      ∷ start_called workers
      ∷ []
unfolding calls call add start_impl start_kinds start_all start_one of_kind stop_started stop_phase
    launch_all launch wait_all wait_for
log_of_rollback = refl
