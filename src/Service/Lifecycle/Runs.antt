-- ===== src/Service/Lifecycle/Runs.antt =====
-- runtime/serviceapp.hpp: what holds of a ServiceLifecycle whatever is called on it, and that a stop that
-- failed can be repeated.
use cppservicelib.Prelude.{
  ◌≡◌, refl, sym, ◌∙◌, true, false, not, ◌||◌, List, [], ◌∷◌, none, inl, inr, if_elim, arith,
}
use cppservicelib.Service.Lifecycle.{
  Entry, Lifecycle, new_lifecycle, Outcome, is_stopped, is_stopping, Waited, stop_phase,
  stop_before_graph_drain, stop_after_graph_drain, stop, Call, adds, starts, stops_before,
  stops_after, call, calls, sink_entries,
}
use cppservicelib.Service.Lifecycle.Log.{is_active, IsOrderly}
use cppservicelib.Service.Lifecycle.Phases.{and_then_elim}
use cppservicelib.Service.Lifecycle.Invariant.{IsValid, new-IsValid}
use cppservicelib.Service.Lifecycle.Stopping.{
  stop_before_graph_drain-IsValid, stop_after_graph_drain-IsValid,
}
use cppservicelib.Service.Lifecycle.Starting.{add-IsValid, start_impl-IsValid}

pub call-IsValid : (c : Call) (s : Lifecycle) → IsValid s → IsValid (call c s).1
unfolding call
call-IsValid (adds p) s v = add-IsValid p s v
call-IsValid (starts ok waits admission) s v = start_impl-IsValid ok waits admission s v
call-IsValid (stops_before waits) s v = stop_before_graph_drain-IsValid waits s v
call-IsValid (stops_after waits) s v = stop_after_graph_drain-IsValid waits s v

-- Each call of a lifecycle keeps its invariant, whatever the components do.
pub calls-IsValid : (cs : List Call) (s : Lifecycle) → IsValid s → IsValid (calls cs s)
unfolding calls
calls-IsValid [] s v = v
calls-IsValid (c ∷ cs) s v = calls-IsValid cs (call c s).1 (call-IsValid c s v)

-- Whatever is called on a new lifecycle and however its components behave, the log is in order.
pub stops_in_order : (cs : List Call) → IsOrderly (calls cs new_lifecycle).log
stops_in_order cs = (calls-IsValid cs new_lifecycle new-IsValid).holds.orderly

pub stop-IsValid : (waits : Entry → Waited) (s : Lifecycle) → IsValid s → IsValid (stop waits s).1
unfolding stop
stop-IsValid waits s v =
    and_then_elim (λ (r : Outcome). IsValid r.1) (stop_before_graph_drain waits s) _
      (λ e h. stop_before_graph_drain-IsValid waits s v)
      (λ h. stop_after_graph_drain-IsValid waits _ (stop_before_graph_drain-IsValid waits s v))

pub after_returns :
    (waits : Entry → Waited) (s : Lifecycle)
    → (stop_after_graph_drain waits s).0 ≡ none
    → is_stopped (stop_after_graph_drain waits s).1.state ≡ true
unfolding stop_after_graph_drain
after_returns waits s =
    let P : Outcome → Type 0 = λ r. r.0 ≡ none → is_stopped r.1.state ≡ true in
    if_elim P (is_stopped s.state) (λ e _. e)
      λ _.
        if_elim P (not (is_stopping s.state) || not s.before_graph_drained)
          (λ _ e. absurd (ground arith))
          λ _.
            and_then_elim P (stop_phase waits (sink_entries s.entries) s) _
              (λ e h k. absurd (ground arith)) λ _ _. refl

pub stop_returns :
    (waits : Entry → Waited) (s : Lifecycle)
    → (stop waits s).0 ≡ none
    → is_stopped (stop waits s).1.state ≡ true
unfolding stop
stop_returns waits s =
    and_then_elim (λ (r : Outcome). r.0 ≡ none → is_stopped r.1.state ≡ true)
      (stop_before_graph_drain waits s) _ (λ e h k. absurd (ground arith))
      (λ h. after_returns waits _)

pub stopped-idle :
    (s : Lifecycle)
    → IsValid s
    → is_stopped s.state ≡ true
    → (q : Entry) → is_active s.log q ≡ false
stopped-idle s v e q = elim v.stopped_idle [
  | inl n ↦ absurd (ground arith)
  | inr idle ↦ sym (v.holds.started_active q) ∙ idle q
]

-- Where a `stop` returns without an error, after whatever calls, no component that was started is left
-- without a stop of it that has returned.
pub stop_leaves_nothing :
    (cs : List Call) (waits : Entry → Waited)
    → (stop waits (calls cs new_lifecycle)).0 ≡ none
    → (q : Entry) → is_active (stop waits (calls cs new_lifecycle)).1.log q ≡ false
stop_leaves_nothing cs waits e =
    let s = calls cs new_lifecycle in
    stopped-idle (stop waits s).1
      (stop-IsValid waits s (calls-IsValid cs new_lifecycle new-IsValid)) (stop_returns waits s e)
