-- ===== src/Service/Lifecycle/Stopping.antt =====
-- runtime/serviceapp.hpp: the stops of a ServiceLifecycle keep its invariant.
use cppservicelib.Prelude.{
  ◌≤◌, ◌≡◌, refl, sym, ap, ◌∙◌, subst, Bool, true, false, not, ◌&&◌, ◌||◌, List, [], ◌∷◌, none, ◌⊎◌,
  inl, inr, ◌==◌, Bool-cases, if_elim, arith,
}
use cppservicelib.Service.Lifecycle.{
  ComponentKind, data_source, data_sink, storage, delay_pool, task_pool, priority_task_pool,
  component, index, Entry, same, State, starting, stopping, stopped, Lifecycle, Outcome, listed,
  is_created, is_stopped, is_stopping, clear, Waited, stop_phase, stop_started, admission_entries,
  executor_entries, sink_entries, drain_phases, stop_in_state, stop_before_graph_drain,
  stop_after_graph_drain,
}
use cppservicelib.Service.Lifecycle.Log.{is_root, is_executor, same_eq}
use cppservicelib.Service.Lifecycle.Phases.{
  Holds, Stops, MayStop, RootsAreIdle, and_then_elim, stop_phase-Stops, stop_phase-Holds,
  stop_phase-clean,
}
use cppservicelib.Service.Lifecycle.Invariant.{
  rank, UpTo, Descends, AllIdle, IsValid, listed-admission, listed-executors, listed-sinks,
}

pub UpTo-listed :
    (k : ComponentKind) (ps : List Entry) (q : Entry)
    → UpTo k ps
    → listed q ps ≡ true
    → rank q.kind ≤ rank k
UpTo-listed k [] q u l = absurd (ground arith)
UpTo-listed k (p ∷ ps) q u l = elim (Bool-cases (same q p)) [
  | inl e ↦ subst (λ (x : Entry). rank x.kind ≤ rank k) (sym (same_eq q p e)) u.0
  | inr n ↦ UpTo-listed k ps q u.1 (ground arith)
]

root_above_executor :
    (a b : ComponentKind) → is_root a ≡ true → is_executor b ≡ true → rank a ≤ rank b → ⊥
root_above_executor a b r x h = ground arith

idle_or_not :
    (s : Lifecycle) (q : Entry) {b : Bool}
    → (s.started q ≡ false) ⊎ (b ≡ true)
    → (b ≡ true → s.started q ≡ false)
    → s.started q ≡ false
idle_or_not s q (inl e) h = e
idle_or_not s q (inr l) h = h l

Stops-IsValid : (s t : Lifecycle) → Stops s t → Holds t → IsValid s → IsValid t
Stops-IsValid s t a h v = record {
  holds = h;
  in_order = λ q. elim (v.in_order q) [
    | inl e ↦ inl (a.keeps_idle q e)
    | inr l ↦ inr (subst (λ o. listed q o ≡ true) (sym a.keeps_order) l)
  ];
  in_entries = λ q. elim (v.in_entries q) [
    | inl e ↦ inl (a.keeps_idle q e)
    | inr l ↦ inr (subst (λ o. listed q o ≡ true) (sym a.keeps_entries) l)
  ];
  descends = subst Descends (sym a.keeps_order) v.descends;
  created_idle = elim v.created_idle [
    | inl e ↦ inl (ap is_created a.keeps_state ∙ e)
    | inr (idle, o, d) ↦ inr (λ q. a.keeps_idle q (idle q), a.keeps_order ∙ o, a.keeps_drained ∙ d)
  ];
  stopped_idle = elim v.stopped_idle [
    | inl e ↦ inl (ap is_stopped a.keeps_state ∙ e)
    | inr idle ↦ inr (λ q. a.keeps_idle q (idle q))
  ];
  drained_idle = elim v.drained_idle [
    | inl e ↦ inl (a.keeps_drained ∙ e)
    | inr idle ↦ inr λ q. elim (idle q) [ inl e ↦ inl (a.keeps_idle q e) | inr k ↦ inr k ]
  ];
}

cleared-IsValid :
    (s : Lifecycle) (rollback : Bool)
    → AllIdle s
    → Holds s
    → IsValid (clear (record s { rollback_pending = rollback; state = stopped }))
cleared-IsValid s rollback idle h = record {
  holds = record {
    started_active = h.started_active;
    stops_in_flight = h.stops_in_flight;
    orderly = h.orderly;
  };
  in_order = λ q. inl (idle q);
  in_entries = λ q. inl (idle q);
  descends = tt;
  created_idle = inl refl;
  stopped_idle = inr idle;
  drained_idle = inr λ q. inl (idle q);
}

phase-IsValid :
    (waits : Entry → Waited) (ps : List Entry) (s : Lifecycle)
    → ((p : Entry) → listed p ps ≡ true → MayStop s p)
    → IsValid s
    → IsValid (stop_phase waits ps s).1
phase-IsValid waits ps s may v =
    Stops-IsValid s _ (stop_phase-Stops waits ps s) (stop_phase-Holds waits ps s may v.holds) v

root_not_executor : (k : ComponentKind) → is_root k ≡ true → is_executor k ≡ false
root_not_executor k r = ground arith

-- A root, an executor or a sink.
kind_cases :
    (k : ComponentKind)
    → (is_root k ≡ true) ⊎ ((is_executor k ≡ true) ⊎ (index k ≡ index data_sink))
kind_cases data_source = inl refl
kind_cases data_sink = inr (inr refl)
kind_cases storage = inr (inl refl)
kind_cases delay_pool = inr (inl refl)
kind_cases task_pool = inr (inl refl)
kind_cases priority_task_pool = inr (inl refl)
kind_cases component = inl refl

drained-IsValid :
    (u : Lifecycle)
    → is_created u.state ≡ false
    → RootsAreIdle u
    → ((q : Entry) → is_executor q.kind ≡ true → u.started q ≡ false)
    → IsValid u
    → IsValid (record u { before_graph_drained = true })
drained-IsValid u c roots executors v = record {
  holds = record {
    started_active = v.holds.started_active;
    stops_in_flight = v.holds.stops_in_flight;
    orderly = v.holds.orderly;
  };
  in_order = v.in_order;
  in_entries = v.in_entries;
  descends = v.descends;
  created_idle = inl c;
  stopped_idle = v.stopped_idle;
  drained_idle = inr λ q. elim (kind_cases q.kind) [
    | inl r ↦ inl (roots q r)
    | inr (inl x) ↦ inl (executors q x)
    | inr (inr k) ↦ inr k
  ];
}

abbrev After : Outcome → Type 0
After r = IsValid r.1

sink_not_executor :
    (k : ComponentKind) → (index k == index data_sink) ≡ true → is_executor k ≡ false
sink_not_executor k e = ground arith

pub moved-IsValid :
    (s : Lifecycle) (state : State) (rollback : Bool)
    → is_created state ≡ false
    → is_stopped state ≡ false
    → IsValid s
    → IsValid (record s { state = state; rollback_pending = rollback })
moved-IsValid s state rollback c e v = record {
  holds = record {
    started_active = v.holds.started_active;
    stops_in_flight = v.holds.stops_in_flight;
    orderly = v.holds.orderly;
  };
  in_order = v.in_order;
  in_entries = v.in_entries;
  descends = v.descends;
  created_idle = inl c;
  stopped_idle = inl e;
  drained_idle = v.drained_idle;
}

created-AllIdle : (s : Lifecycle) → IsValid s → is_created s.state ≡ true → AllIdle s
created-AllIdle s v c = elim v.created_idle [
  | inl n ↦ absurd (ground arith)
  | inr (idle, o, d) ↦ idle
]

module _ (waits : Entry → Waited) where
  may_roll_back :
      (s : Lifecycle) (p : Entry) (ps : List Entry)
      → UpTo p.kind ps
      → ((q : Entry) → (s.started q ≡ false) ⊎ (listed q (p ∷ ps) ≡ true))
      → MayStop s p
  may_roll_back s p ps u remaining = elim (Bool-cases (is_executor p.kind)) [
    | inr n ↦ inl n
    | inl x ↦ inr λ q root. idle_or_not s q (remaining q) λ l. elim (Bool-cases (same q p)) [
      | inl e ↦ absurd (
          root_above_executor q.kind p.kind root x
            (subst (λ (z : Entry). rank q.kind ≤ rank z.kind) (same_eq q p e) (omega arith)))
      | inr n ↦
          absurd
            (root_above_executor q.kind p.kind root x (UpTo-listed p.kind ps q u (ground arith)))
    ]
  ]

  pub stop_started-IsValid :
      (ps : List Entry) (s : Lifecycle)
      → Descends ps
      → ((q : Entry) → (s.started q ≡ false) ⊎ (listed q ps ≡ true))
      → IsValid s
      → IsValid (stop_started waits ps s).1
  unfolding stop_started
  stop_started-IsValid [] s d remaining v =
      cleared-IsValid s false (λ q. idle_or_not s q (remaining q) λ l. absurd (ground arith))
        v.holds
  stop_started-IsValid (p ∷ ps) s d remaining v =
      let may = may_roll_back s p ps d.0 remaining in
      let valid =
        phase-IsValid waits (p ∷ []) s
          (λ q l. subst (MayStop s) (sym (same_eq q p (ground arith))) may) v in
      let t : Lifecycle = (stop_phase waits (p ∷ []) s).1 in
      and_then_elim After (stop_phase waits (p ∷ []) s) (stop_started waits ps) (λ e h. valid)
        (λ clean.
          stop_started-IsValid ps t d.1
            (λ q. elim (remaining q) [
              | inl e ↦ inl ((stop_phase-Stops waits (p ∷ []) s).keeps_idle q e)
              | inr l ↦ elim (Bool-cases (same q p)) [
                | inl e ↦ inl (stop_phase-clean waits (p ∷ []) s clean q (ground arith))
                | inr n ↦ inr (ground arith)
              ]
            ])
            valid)

  -- The entries of a kind's phase that throws nothing are idle.
  stopped_by_phase :
      (test : ComponentKind → Bool) (ps : List Entry) (s : Lifecycle)
      → ((q : Entry) → listed q ps ≡ test q.kind && listed q s.entries)
      → IsValid s
      → (stop_phase waits ps s).0 ≡ none
      → (q : Entry) → test q.kind ≡ true
      → (stop_phase waits ps s).1.started q ≡ false
  stopped_by_phase test ps s on v clean q k = elim (v.in_entries q) [
    | inl e ↦ (stop_phase-Stops waits ps s).keeps_idle q e
    | inr l ↦ stop_phase-clean waits ps s clean q (ground (arith, on q))
  ]

  pub drain_phases-IsValid :
      (s : Lifecycle) → is_created s.state ≡ false → IsValid s → IsValid (drain_phases waits s).1
  unfolding drain_phases
  drain_phases-IsValid s c v =
      let es = admission_entries s.entries in
      let t : Lifecycle = (stop_phase waits es s).1 in
      let fs = executor_entries t.entries in
      let u : Lifecycle = (stop_phase waits fs t).1 in
      let t_valid =
        phase-IsValid waits es s
          (λ p l. inl (root_not_executor p.kind (ground (arith, listed-admission p s.entries))))
          v in
      and_then_elim After (stop_phase waits es s) _ (λ e h. t_valid)
        (λ first.
          let roots = stopped_by_phase is_root es s (λ q. listed-admission q s.entries) v first in
          let u_valid = phase-IsValid waits fs t (λ p l. inr roots) t_valid in
          and_then_elim After (stop_phase waits fs t) _ (λ e h. u_valid)
            (λ second.
              drained-IsValid u
                (ap is_created (
                    (stop_phase-Stops waits fs t).keeps_state
                    ∙ (stop_phase-Stops waits es s).keeps_state)
                  ∙ c)
                (λ q r. (stop_phase-Stops waits fs t).keeps_idle q (roots q r))
                (stopped_by_phase is_executor fs t (λ q. listed-executors q t.entries) t_valid
                  second)
                u_valid))

  stop_in_state-IsValid :
      (st : State) (s : Lifecycle) → IsValid s → IsValid (stop_in_state waits st s).1
  stop_in_state-IsValid starting s v = v
  stop_in_state-IsValid _ s v =
      drain_phases-IsValid _ refl (moved-IsValid s stopping s.rollback_pending refl refl v)

  pub stop_before_graph_drain-IsValid :
      (s : Lifecycle) → IsValid s → IsValid (stop_before_graph_drain waits s).1
  unfolding stop_before_graph_drain
  stop_before_graph_drain-IsValid s v =
      if_elim After (is_created s.state)
        (λ c. cleared-IsValid s s.rollback_pending (created-AllIdle s v c) v.holds)
        λ _.
          if_elim After (is_stopped s.state) (λ _. v)
            λ _.
              if_elim After s.rollback_pending
                (λ _. stop_started-IsValid s.order s v.descends v.in_order v)
                λ _.
                  if_elim After s.before_graph_drained (λ _. v)
                    λ _. stop_in_state-IsValid s.state s v

  pub stop_after_graph_drain-IsValid :
      (s : Lifecycle) → IsValid s → IsValid (stop_after_graph_drain waits s).1
  unfolding stop_after_graph_drain
  stop_after_graph_drain-IsValid s v =
      let es = sink_entries s.entries in
      let t : Lifecycle = (stop_phase waits es s).1 in
      let valid =
        phase-IsValid waits es s
          (λ p l. inl (sink_not_executor p.kind (ground (arith, listed-sinks p s.entries)))) v in
      let sinks =
        stopped_by_phase (λ k. index k == index data_sink) es s (λ q. listed-sinks q s.entries) v in
      if_elim After (is_stopped s.state) (λ _. v)
        λ _.
          if_elim After (not (is_stopping s.state) || not s.before_graph_drained) (λ _. v)
            λ d.
              and_then_elim After (stop_phase waits es s) _ (λ e h. valid)
                λ clean.
                  cleared-IsValid t t.rollback_pending
                    (λ q. elim v.drained_idle [
                      | inl n ↦ absurd (ground arith)
                      | inr idle ↦ elim (idle q) [
                        | inl e ↦ (stop_phase-Stops waits es s).keeps_idle q e
                        | inr k ↦ sinks clean q (ground arith)
                      ]
                    ])
                    valid.holds
