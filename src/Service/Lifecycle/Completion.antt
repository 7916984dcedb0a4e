-- ===== src/Service/Lifecycle/Completion.antt =====
-- runtime/serviceapp.hpp: a stop of a ServiceLifecycle completes once the components' stops return,
-- whatever was called before and however it failed.
use cppservicelib.Prelude.{
  ◌≡◌, refl, sym, ap, ◌∙◌, subst, Bool, true, false, not, ◌||◌, List, [], ◌∷◌, Option, none, some,
  ◌⊎◌, inl, inr, if_elim, arith,
}
use cppservicelib.Service.Lifecycle.{
  Entry, State, starting, stopping, Lifecycle, new_lifecycle, Outcome, is_created, is_stopped,
  is_stopping, Waited, done, stop_phase, stop_started, drain_phases, stop_in_state,
  stop_before_graph_drain, start_kinds, stop_after_graph_drain, stop, Call, adds, starts,
  stops_before, stops_after, call, calls, add, start_impl, admission_entries, executor_entries,
  sink_entries, of_kind, listed, started_or_rolled_back, start_order,
}
use cppservicelib.Service.Lifecycle.Log.{is_active}
use cppservicelib.Service.Lifecycle.Phases.{Stops, and_then_elim, stop_phase-done, stop_phase-Stops}
use cppservicelib.Service.Lifecycle.Invariant.{IsValid, new-IsValid}
use cppservicelib.Service.Lifecycle.Starting.{kinds-IsValid}
use cppservicelib.Service.Lifecycle.Runs.{call-IsValid, stop_leaves_nothing}

abbrev is_starting : State → Bool
is_starting starting = true
is_starting _ = false

-- Between the calls a lifecycle is not `starting`, and one that has drained is stopping or stopped.
record IsSettled (s : Lifecycle) : Type 0 where
  settled : is_starting s.state ≡ false
  drained : (s.before_graph_drained ≡ false) ⊎ (is_stopping s.state || is_stopped s.state ≡ true)

abbrev After : Outcome → Type 0
After r = IsSettled r.1

Stops-IsSettled : (s t : Lifecycle) → Stops s t → IsSettled s → IsSettled t
Stops-IsSettled s t a v = record {
  settled = ap is_starting a.keeps_state ∙ v.settled;
  drained = elim v.drained [
    | inl e ↦ inl (a.keeps_drained ∙ e)
    | inr e ↦ inr (subst (λ x. is_stopping x || is_stopped x ≡ true) (sym a.keeps_state) e)
  ];
}

module _ (waits : Entry → Waited) where
  stop_started-IsSettled :
      (ps : List Entry) (s : Lifecycle) → IsSettled s → After (stop_started waits ps s)
  unfolding stop_started
  stop_started-IsSettled [] s v = record { settled = refl; drained = inr refl }
  stop_started-IsSettled (p ∷ ps) s v =
      let next = Stops-IsSettled s _ (stop_phase-Stops waits (p ∷ []) s) v in
      and_then_elim After (stop_phase waits (p ∷ []) s) _ (λ e h. next)
        (λ h. stop_started-IsSettled ps _ next)

  drain_phases-IsSettled : (s : Lifecycle) → s.state ≡ stopping → After (drain_phases waits s)
  unfolding drain_phases
  drain_phases-IsSettled s e =
      let es = admission_entries s.entries in
      let t : Lifecycle = (stop_phase waits es s).1 in
      let u : Lifecycle = (stop_phase waits (executor_entries t.entries) t).1 in
      let first : t.state ≡ stopping = (stop_phase-Stops waits es s).keeps_state ∙ e in
      let second : u.state ≡ stopping =
        (stop_phase-Stops waits (executor_entries t.entries) t).keeps_state ∙ first in
      and_then_elim After (stop_phase waits es s) _ (λ _ h. ending t first)
        λ h.
          and_then_elim After (stop_phase waits (executor_entries t.entries) t) _
            (λ _ k. ending u second)
            λ k. record {
              settled = ap is_starting second;
              drained = inr (ap (λ x. is_stopping x || is_stopped x) second);
            }
    where
      ending : (x : Lifecycle) → x.state ≡ stopping → IsSettled x
      ending x f = record {
        settled = ap is_starting f;
        drained = inr (ap (λ y. is_stopping y || is_stopped y) f);
      }

  stop_in_state-IsSettled :
      (st : State) (s : Lifecycle) → st ≡ s.state → IsSettled s → After (stop_in_state waits st s)
  stop_in_state-IsSettled starting s e v = v
  stop_in_state-IsSettled _ s e v = drain_phases-IsSettled _ refl

  before-IsSettled : (s : Lifecycle) → IsSettled s → After (stop_before_graph_drain waits s)
  unfolding stop_before_graph_drain
  before-IsSettled s v =
      if_elim After (is_created s.state) (λ _. record { settled = refl; drained = inr refl })
        λ _.
          if_elim After (is_stopped s.state) (λ _. v)
            λ _.
              if_elim After s.rollback_pending (λ _. stop_started-IsSettled s.order s v)
                λ _.
                  if_elim After s.before_graph_drained (λ _. v)
                    λ _. stop_in_state-IsSettled s.state s refl v

  last_stop-IsSettled : (s : Lifecycle) → IsSettled s → After (stop_after_graph_drain waits s)
  unfolding stop_after_graph_drain
  last_stop-IsSettled s v =
      let es = sink_entries s.entries in
      if_elim After (is_stopped s.state) (λ _. v)
        λ _.
          if_elim After (not (is_stopping s.state) || not s.before_graph_drained) (λ _. v)
            λ _.
              and_then_elim After (stop_phase waits es s) _
                (λ e h. Stops-IsSettled s _ (stop_phase-Stops waits es s) v)
                (λ h. record { settled = refl; drained = inr refl })

  started-IsSettled :
      (r : Outcome) → r.1.before_graph_drained ≡ false → After (started_or_rolled_back waits r)
  started-IsSettled (none, s) d = record { settled = refl; drained = inl d }
  started-IsSettled (some e, s) d =
      stop_started-IsSettled s.order _ (record { settled = refl; drained = inl d })

add-IsSettled : (p : Option Entry) (s : Lifecycle) → IsSettled s → After (add p s)
unfolding add
add-IsSettled none s v = v
add-IsSettled (some p) s v =
    if_elim After (not (is_created s.state)) (λ _. v)
      λ _.
        if_elim After (listed p (of_kind p.kind s.entries)) (λ _. v)
          λ _. record { settled = v.settled; drained = v.drained }

call-IsSettled : (c : Call) (s : Lifecycle) → IsValid s → IsSettled s → After (call c s)
unfolding call start_impl
call-IsSettled (adds p) s v w = add-IsSettled p s w
call-IsSettled (starts ok waits admission) s v w =
    if_elim After (not (is_created s.state)) (λ _. w)
      λ c.
        started-IsSettled waits
          (start_kinds ok admission start_order (record s { state = starting }))
          (kinds-IsValid ok admission s v (ground arith)).1
call-IsSettled (stops_before waits) s v w = before-IsSettled waits s w
call-IsSettled (stops_after waits) s v w = last_stop-IsSettled waits s w

calls-IsSettled :
    (cs : List Call) (s : Lifecycle) → IsValid s → IsSettled s → IsSettled (calls cs s)
unfolding calls
calls-IsSettled [] s v w = w
calls-IsSettled (c ∷ cs) s v w =
    calls-IsSettled cs (call c s).1 (call-IsValid c s v) (call-IsSettled c s v w)

-- Every stop returns.
abbrev pub returns : Entry → Waited
returns _ = done

abbrev pub IsStopped : Outcome → Type 0
IsStopped r = (r.0 ≡ none) × (is_stopped r.1.state ≡ true)

pub stop_started_done : (ps : List Entry) (s : Lifecycle) → IsStopped (stop_started returns ps s)
unfolding stop_started
stop_started_done [] s = (refl, refl)
stop_started_done (p ∷ ps) s =
    and_then_elim IsStopped (stop_phase returns (p ∷ []) s) _
      (λ e h. absurd (ground (arith, stop_phase-done (p ∷ []) s))) (λ h. stop_started_done ps _)

-- Nothing was thrown, and a stop of the sinks has nothing to wait for, or may begin.
abbrev MayEnd : Outcome → Type 0
MayEnd r =
    (r.0 ≡ none)
    × ((is_stopped r.1.state ≡ true)
        ⊎ ((is_stopping r.1.state ≡ true) × (r.1.before_graph_drained ≡ true)))

drain_phases_done : (s : Lifecycle) → s.state ≡ stopping → MayEnd (drain_phases returns s)
unfolding drain_phases
drain_phases_done s e =
    let es = admission_entries s.entries in
    let t : Lifecycle = (stop_phase returns es s).1 in
    let fs = executor_entries t.entries in
    and_then_elim MayEnd (stop_phase returns es s) _
      (λ _ h. absurd (ground (arith, stop_phase-done es s)))
      λ _.
        and_then_elim MayEnd (stop_phase returns fs t) _
          (λ _ h. absurd (ground (arith, stop_phase-done fs t)))
          λ _. (
            refl,
            inr (
              ap is_stopping (
                  (stop_phase-Stops returns fs t).keeps_state
                  ∙ (stop_phase-Stops returns es s).keeps_state
                  ∙ e),
              refl,
            ),
          )

stop_in_state_done :
    (st : State) (s : Lifecycle) → is_starting st ≡ false → MayEnd (stop_in_state returns st s)
stop_in_state_done starting s e = absurd (ground arith)
stop_in_state_done _ s e = drain_phases_done _ refl

drained_state :
    (s : Lifecycle)
    → IsSettled s
    → is_stopped s.state ≡ false
    → s.before_graph_drained ≡ true
    → MayEnd (none, s)
drained_state s v n d = (refl, inr (ground (arith, v.drained), d))

before_done : (s : Lifecycle) → IsSettled s → MayEnd (stop_before_graph_drain returns s)
unfolding stop_before_graph_drain
before_done s v =
    if_elim MayEnd (is_created s.state) (λ _. (refl, inl refl))
      λ _.
        if_elim MayEnd (is_stopped s.state) (λ e. (refl, inl e))
          λ n.
            if_elim MayEnd s.rollback_pending
              (λ _. let (a, b) = stop_started_done s.order s in (a, inl b))
              λ _.
                if_elim MayEnd s.before_graph_drained (drained_state s v n)
                  λ _. stop_in_state_done s.state s v.settled

after_done :
    (s : Lifecycle)
    → (is_stopped s.state ≡ true) ⊎ ((is_stopping s.state ≡ true) × (s.before_graph_drained ≡ true))
    → (stop_after_graph_drain returns s).0 ≡ none
unfolding stop_after_graph_drain
after_done s m =
    let P : Outcome → Type 0 = λ r. r.0 ≡ none in
    let es = sink_entries s.entries in
    if_elim P (is_stopped s.state) (λ _. refl)
      λ n.
        if_elim P (not (is_stopping s.state) || not s.before_graph_drained)
          (λ e. absurd (ground arith))
          λ _.
            and_then_elim P (stop_phase returns es s) _
              (λ _ h. absurd (ground (arith, stop_phase-done es s))) (λ _. refl)

stop_done : (s : Lifecycle) → IsSettled s → (stop returns s).0 ≡ none
unfolding stop
stop_done s v =
    let (a, b) = before_done s v in
    and_then_elim (λ (r : Outcome). r.0 ≡ none) (stop_before_graph_drain returns s) _
      (λ e h. absurd (ground arith)) (λ h. after_done _ b)

new-IsSettled : IsSettled new_lifecycle
new-IsSettled = record { settled = refl; drained = inl refl }

-- After any calls on a new lifecycle, stops that threw or timed out among them, a `stop` whose waits all
-- find that the component's stop has returned throws nothing, and leaves no component active.
pub stop_completes :
    (cs : List Call)
    → let r = stop (λ _. done) (calls cs new_lifecycle) in
      (r.0 ≡ none) × ((q : Entry) → is_active r.1.log q ≡ false)
stop_completes cs =
    let e =
      stop_done (calls cs new_lifecycle)
        (calls-IsSettled cs new_lifecycle new-IsValid new-IsSettled) in
    (e, stop_leaves_nothing cs returns e)
