-- ===== src/Service/App/Release.antt =====
-- runtime/serviceapp.hpp: a service that says it is stopped has nothing active, whatever was called on it.
use cppservicelib.Prelude.{
  ◌≡◌, refl, sym, ◌∙◌, subst, Bool, true, false, not, ◌||◌, List, [], ◌∷◌, Option, none, some, ◌⊎◌,
  inl, inr, if_elim, arith,
}
use cppservicelib.Dict.{Key}
use cppservicelib.Service.Lifecycle as Lifecycle
use cppservicelib.Service.Lifecycle.{Entry, Waited, is_created, is_stopped}
use cppservicelib.Service.Lifecycle.Log.{is_active}
use cppservicelib.Service.Lifecycle.Invariant.{new-IsValid}
use cppservicelib.Service.Lifecycle.Invariant as Invariant
use cppservicelib.Service.Lifecycle.Stopping.{
  stop_before_graph_drain-IsValid, stop_after_graph_drain-IsValid,
}
use cppservicelib.Service.Lifecycle.Starting.{start_impl-IsValid}
use cppservicelib.Service.Lifecycle.Runs.{stop-IsValid, stop_returns, after_returns}
use cppservicelib.Service.App.{
  App, Outcome, new_app, passed_on, register, register_delay_pool, register_task_pool,
  register_priority_task_pool, Configured, ensure_configured_pools, get_task_pool,
  get_priority_task_pool, release, cleaned_up, started_or_cleaned_up, start_body, start, stop,
  after_drain,
}
use cppservicelib.Service.App.Registry.{
  Registers, and_then_elim, passed_on-lifecycle, register-Registers, register_delay_pool-Registers,
  register_task_pool-Registers, register_priority_task_pool-Registers,
  ensure_configured_pools-Registers,
}

-- What the owner of a service and its graph call.
pub data Call (Name : Type 0) : Type 0 where
  registers : Option Entry → Call Name
  registers_delay_pool : Option Entry → Call Name
  registers_task_pool : Option (Name × Entry) → Call Name
  registers_priority_task_pool : Option (Name × Entry) → Call Name
  gets_task_pool : Option (Configured Name) → Name → Call Name
  gets_priority_task_pool : Option (Configured Name) → Name → Call Name
  starts :
      Option (Configured Name) → Bool → (Entry → Bool) → (Entry → Waited) → Bool → Bool → Call Name
  stops : (Entry → Waited) → Bool → Call Name

module _ {Name : Type 0} ⦃names : Key Name⦄ (is_empty : Name → Bool) where
  unfoldable pub call : Call Name → App Name → App Name
  unfolding register register_delay_pool register_task_pool register_priority_task_pool
      get_task_pool get_priority_task_pool start stop
  call (registers p) a = (register p a).1
  call (registers_delay_pool p) a = (register_delay_pool p a).1
  call (registers_task_pool p) a = (register_task_pool p a).1
  call (registers_priority_task_pool p) a = (register_priority_task_pool p a).1
  call (gets_task_pool c name) a = (get_task_pool is_empty c name a).0.1
  call (gets_priority_task_pool c name) a = (get_priority_task_pool is_empty c name a).0.1
  call (starts c graph ok waits drains admission) a =
      (start is_empty c graph ok waits drains admission a).1
  call (stops waits drains) a = (stop waits drains a).1

  unfoldable pub calls : List (Call Name) → App Name → App Name
  unfolding call
  calls [] a = a
  calls (c ∷ cs) a = calls cs (call c a)

-- The lifecycle of a service that is not pending is new or stopped.
record IsValid {Name : Type 0} (a : App Name) : Type 0 where
  lifecycle_valid : Invariant.IsValid a.lifecycle
  settled :
      (a.lifecycle_pending ≡ true)
      ⊎ (is_created a.lifecycle.state || is_stopped a.lifecycle.state ≡ true)
  running_pending : (a.running ≡ false) ⊎ (a.lifecycle_pending ≡ true)

idle-created_or_stopped :
    (s : Lifecycle.Lifecycle)
    → Invariant.IsValid s
    → is_created s.state || is_stopped s.state ≡ true
    → (q : Entry) → is_active s.log q ≡ false
idle-created_or_stopped s v e q = sym (v.holds.started_active q) ∙ (elim v.created_idle [
  | inr (idle, o, d) ↦ idle q
  | inl n ↦ elim v.stopped_idle [ inr idle ↦ idle q | inl m ↦ absurd (ground arith) ]
])

module _ {Name : Type 0} where
  Registers-IsValid : (a b : App Name) → Registers a b → IsValid a → IsValid b
  Registers-IsValid a b x v = record {
    lifecycle_valid = x.keeps_valid v.lifecycle_valid;
    settled = elim v.settled [
      | inl e ↦ inl (x.keeps_pending ∙ e)
      | inr e ↦ inr (subst (λ s. is_created s || is_stopped s ≡ true) (sym x.keeps_state) e)
    ];
    running_pending = elim v.running_pending [
      | inl e ↦ inl (x.keeps_running ∙ e)
      | inr e ↦ inr (x.keeps_pending ∙ e)
    ];
  }

  abbrev After : Outcome Name → Type 0
  After r = IsValid r.1

  -- A pending service whose lifecycle is valid.
  pending-IsValid :
      (a : App Name) → a.lifecycle_pending ≡ true → Invariant.IsValid a.lifecycle → IsValid a
  pending-IsValid a e v = record { lifecycle_valid = v; settled = inl e; running_pending = inr e }

  passed_on-IsValid :
      (a : App Name) (r : Lifecycle.Outcome)
      → a.lifecycle_pending ≡ true
      → Invariant.IsValid r.1
      → After (passed_on a r)
  passed_on-IsValid a r e v =
      subst IsValid (sym (passed_on-lifecycle a r))
        (pending-IsValid (record a { lifecycle = r.1 }) e v)

  cleared-IsValid :
      (a : App Name)
      → Invariant.IsValid a.lifecycle
      → is_stopped a.lifecycle.state ≡ true
      → a.running ≡ false
      → IsValid (record a {
        delays = none;
        task_pools = [];
        priority_task_pools = [];
        lifecycle_pending = false;
      })
  cleared-IsValid a v e r = record {
    lifecycle_valid = v;
    settled = inr (ground arith);
    running_pending = inl r;
  }

  cleaned_up-IsValid :
      (drains : Bool) (a : App Name) (r : Lifecycle.Outcome)
      → a.lifecycle_pending ≡ true
      → a.running ≡ false
      → Invariant.IsValid r.1
      → (r.0 ≡ none → is_stopped r.1.state ≡ true)
      → IsValid (cleaned_up drains a r)
  cleaned_up-IsValid true a (none, s) p r v e =
      cleared-IsValid (record a { lifecycle = s }) v (e refl) r
  cleaned_up-IsValid false a (none, s) p r v e = pending-IsValid (record a { lifecycle = s }) p v
  cleaned_up-IsValid drains a (some _, s) p r v e = pending-IsValid (record a { lifecycle = s }) p v

  started-IsValid :
      (waits : Entry → Waited) (drains : Bool) (r : Outcome Name)
      → r.1.lifecycle_pending ≡ true
      → IsValid r.1
      → After (started_or_cleaned_up waits drains r)
  started-IsValid waits drains (none, a) p v =
      pending-IsValid (record a { running = true }) p v.lifecycle_valid
  started-IsValid waits drains (some e, a) p v =
      cleaned_up-IsValid drains (record a { running = false }) (Lifecycle.stop waits a.lifecycle) p
        refl (stop-IsValid waits a.lifecycle v.lifecycle_valid) (stop_returns waits a.lifecycle)

  passed_on-pending :
      (a : App Name) (r : Lifecycle.Outcome)
      → (passed_on a r).1.lifecycle_pending ≡ a.lifecycle_pending
  passed_on-pending a (none, s) = refl
  passed_on-pending a (some e, s) = refl

  passed_on-running : (a : App Name) (r : Lifecycle.Outcome) → (passed_on a r).1.running ≡ a.running
  passed_on-running a (none, s) = refl
  passed_on-running a (some e, s) = refl

  passed_on-none : (a : App Name) (r : Lifecycle.Outcome) → (passed_on a r).0 ≡ none → r.0 ≡ none
  passed_on-none a (none, s) e = refl
  passed_on-none a (some f, s) e = absurd (ground arith)

  after_drain-IsValid :
      (waits : Entry → Waited) (drains : Bool) (b : App Name)
      → b.lifecycle_pending ≡ true
      → b.running ≡ false
      → IsValid b
      → After (after_drain waits drains b)
  after_drain-IsValid waits false b p r v = v
  after_drain-IsValid waits true b p r v =
      let t = Lifecycle.stop_after_graph_drain waits b.lifecycle in
      let valid = stop_after_graph_drain-IsValid waits b.lifecycle v.lifecycle_valid in
      and_then_elim After (passed_on b t) _ (λ e h. passed_on-IsValid b t p valid)
        (λ h.
          subst (λ (c : App Name). IsValid (release c)) (sym (passed_on-lifecycle b t))
            (cleared-IsValid (record b { lifecycle = t.1 }) valid
              (after_returns waits b.lifecycle (passed_on-none b t h)) r))

  stop-keeps_IsValid :
      (waits : Entry → Waited) (drains : Bool) (a : App Name)
      → IsValid a
      → After (stop waits drains a)
  unfolding stop
  stop-keeps_IsValid waits drains a v =
      if_elim After (not a.lifecycle_pending) (λ _. v)
        λ p.
          let b : App Name = record a { running = false } in
          let t = Lifecycle.stop_before_graph_drain waits a.lifecycle in
          let pending : a.lifecycle_pending ≡ true = ground arith in
          let valid =
            passed_on-IsValid b t pending
              (stop_before_graph_drain-IsValid waits a.lifecycle v.lifecycle_valid) in
          and_then_elim After (passed_on b t) (after_drain waits drains) (λ e h. valid)
            (λ h.
              after_drain-IsValid waits drains (passed_on b t).1 (passed_on-pending b t ∙ pending)
                (passed_on-running b t) valid)

module _ {Name : Type 0} ⦃names : Key Name⦄ (is_empty : Name → Bool) where
  body-IsValid :
      (c : Option (Configured Name)) (graph : Bool) (ok : Entry → Bool) (waits : Entry → Waited)
      (admission : Bool) (a : App Name)
      → a.lifecycle_pending ≡ true
      → IsValid a
      → let r = start_body is_empty c graph ok waits admission a in
        (r.1.lifecycle_pending ≡ true) × After r
  unfolding start_body
  body-IsValid c graph ok waits admission a p v =
      let P : Outcome Name → Type 0 = λ r. (r.1.lifecycle_pending ≡ true) × After r in
      let x = ensure_configured_pools-Registers is_empty c a in
      let b : App Name = (ensure_configured_pools is_empty c a).1 in
      let pending = x.keeps_pending ∙ p in
      let valid = Registers-IsValid a b x v in
      let t = Lifecycle.start_impl ok waits admission b.lifecycle in
      and_then_elim P (ensure_configured_pools is_empty c a) _ (λ e h. (pending, valid))
        λ h.
          if_elim P graph
            (λ _. (
              passed_on-pending b t ∙ pending,
              passed_on-IsValid b t pending
                  (start_impl-IsValid ok waits admission b.lifecycle valid.lifecycle_valid),
            ))
            (λ _. (pending, valid))

  call-IsValid : (c : Call Name) (a : App Name) → IsValid a → IsValid (call is_empty c a)
  unfolding call get_task_pool get_priority_task_pool start
  call-IsValid (registers p) a v = Registers-IsValid a _ (register-Registers p a) v
  call-IsValid (registers_delay_pool p) a v =
      Registers-IsValid a _ (register_delay_pool-Registers p a) v
  call-IsValid (registers_task_pool p) a v =
      Registers-IsValid a _ (register_task_pool-Registers p a) v
  call-IsValid (registers_priority_task_pool p) a v =
      Registers-IsValid a _ (register_priority_task_pool-Registers p a) v
  call-IsValid (gets_task_pool c n) a v =
      Registers-IsValid a _ (ensure_configured_pools-Registers is_empty c a) v
  call-IsValid (gets_priority_task_pool c n) a v =
      Registers-IsValid a _ (ensure_configured_pools-Registers is_empty c a) v
  call-IsValid (starts c graph ok waits drains admission) a v =
      if_elim After a.lifecycle_pending (λ _. v)
        λ _.
          let b : App Name = record a { lifecycle_pending = true } in
          let (p, w) =
            body-IsValid c graph ok waits admission b refl
              (pending-IsValid b refl v.lifecycle_valid) in
          started-IsValid waits drains (start_body is_empty c graph ok waits admission b) p w
  call-IsValid (stops waits drains) a v = stop-keeps_IsValid waits drains a v

  calls-IsValid : (cs : List (Call Name)) (a : App Name) → IsValid a → IsValid (calls is_empty cs a)
  unfolding calls
  calls-IsValid [] a v = v
  calls-IsValid (c ∷ cs) a v = calls-IsValid cs (call is_empty c a) (call-IsValid c a v)

  new-IsSettled : IsValid (new_app {Name = Name})
  new-IsSettled = record {
    lifecycle_valid = new-IsValid;
    settled = inr refl;
    running_pending = inl refl;
  }

  -- After any calls on a new service, where `isStopped` answers yes, no component is active, and
  -- `isRunning` answers no.
  pub stopped_service_is_idle :
      (cs : List (Call Name))
      → (calls is_empty cs new_app).lifecycle_pending ≡ false
      → ((calls is_empty cs new_app).running ≡ false)
        × ((q : Entry) → is_active (calls is_empty cs new_app).lifecycle.log q ≡ false)
  stopped_service_is_idle cs e =
      let a = calls is_empty cs new_app in
      let v = calls-IsValid cs new_app new-IsSettled in
      (
        elim v.running_pending [ inl r ↦ r | inr p ↦ absurd (ground arith) ],
        elim v.settled [
          | inl p ↦ absurd (ground arith)
          | inr s ↦ idle-created_or_stopped a.lifecycle v.lifecycle_valid s
        ],
      )
