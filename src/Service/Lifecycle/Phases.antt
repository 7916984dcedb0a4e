-- ===== src/Service/Lifecycle/Phases.antt =====
-- runtime/serviceapp.hpp: what a stop phase keeps and what it achieves.
use cppservicelib.Prelude.{
  ◌≡◌, refl, sym, subst, Bool, true, false, not, ◌||◌, List, [], ◌∷◌, Option, none, some, ◌⊎◌, inl,
  inr, Bool-cases, if_elim, arith,
}
use cppservicelib.Service.Lifecycle.{
  Event, Entry, same, Error, Lifecycle, Outcome, and_then, listed, Waited, done, threw, expired,
  launch, launch_all, waited_for, wait_for, wait_all, stop_phase,
}
use cppservicelib.Service.Lifecycle.Log.{
  is_root, is_executor, is_active, is_in_flight, IsOrderly, same_refl, same_eq,
}

-- What holds after an error, and after what follows where there is none.
pub and_then_elim {ℓ} :
    (P : Outcome → Type ℓ) (r : Outcome) (next : Lifecycle → Outcome)
    → ((e : Error) → r.0 ≡ some e → P (some e, r.1))
    → (r.0 ≡ none → P (next r.1))
    → P (and_then r next)
and_then_elim P (none, s) next error rest = rest refl
and_then_elim P (some e, s) next error rest = error e refl

-- The flags are those that the log tells, and the log is in order.
pub record Holds (s : Lifecycle) : Type 0 where
  pub started_active : (q : Entry) → s.started q ≡ is_active s.log q
  pub stops_in_flight : (q : Entry) → s.stops q ≡ is_in_flight s.log q
  pub orderly : IsOrderly s.log

-- No data source and no component is started.
abbrev pub RootsAreIdle : Lifecycle → Type 0
RootsAreIdle s = (q : Entry) → is_root q.kind ≡ true → s.started q ≡ false

abbrev pub MayStop : Lifecycle → Entry → Type 0
MayStop s p = (is_executor p.kind ≡ false) ⊎ RootsAreIdle s

-- What stopping leaves alone: nothing is started, and the other fields stay.
pub record Stops (s t : Lifecycle) : Type 0 where
  pub keeps_idle : (q : Entry) → s.started q ≡ false → t.started q ≡ false
  pub keeps_entries : t.entries ≡ s.entries
  pub keeps_order : t.order ≡ s.order
  pub keeps_state : t.state ≡ s.state
  pub keeps_rollback : t.rollback_pending ≡ s.rollback_pending
  pub keeps_drained : t.before_graph_drained ≡ s.before_graph_drained

Stops-update :
    (s : Lifecycle) (started stops : Entry → Bool) (log : List Event)
    → ((q : Entry) → s.started q ≡ false → started q ≡ false)
    → Stops s (record s { started = started; stops = stops; log = log })
Stops-update s started stops log idle = record {
  keeps_idle = idle;
  keeps_entries = refl;
  keeps_order = refl;
  keeps_state = refl;
  keeps_rollback = refl;
  keeps_drained = refl;
}

pub Stops-refl : (s : Lifecycle) → Stops s s
Stops-refl s = Stops-update s s.started s.stops s.log λ q e. e

pub Stops-trans : (s t u : Lifecycle) → Stops s t → Stops t u → Stops s u
Stops-trans s t u a b = record {
  keeps_idle = λ q e. b.keeps_idle q (a.keeps_idle q e);
  keeps_entries = cc;
  keeps_order = cc;
  keeps_state = cc;
  keeps_rollback = cc;
  keeps_drained = cc;
}

launch-Stops : (p : Entry) (s : Lifecycle) → Stops s (launch p s)
unfolding launch
launch-Stops p s =
    if_elim (Stops s) (not (s.started p) || s.stops p) (λ _. Stops-refl s)
      (λ _. Stops-update s s.started _ _ λ q e. e)

launch-Holds : (p : Entry) (s : Lifecycle) → MayStop s p → Holds s → Holds (launch p s)
unfolding launch IsOrderly
launch-Holds p s may h =
    if_elim Holds (not (s.started p) || s.stops p) (λ _. h)
      (λ e. record {
        started_active = h.started_active;
        stops_in_flight = λ q. ground (arith, h.stops_in_flight q);
        orderly = (
          ground (arith, e, h.started_active p),
          ground (arith, e, h.stops_in_flight p),
          elim may [
            | inl x ↦ inl x
            | inr idle ↦ inr λ q. ground (arith, idle q, h.started_active q)
          ],
          h.orderly,
        );
      })

waited_for-Stops :
    (w : Waited) (p : Entry) (failure : Option Error) (s : Lifecycle)
    → Stops s (waited_for w p failure s).1
waited_for-Stops done p failure s = Stops-update s _ _ _ λ q e. ground arith
waited_for-Stops _ p failure s = Stops-update s s.started _ _ λ q e. e

waited_for-Holds :
    (w : Waited) (p : Entry) (failure : Option Error) (s : Lifecycle)
    → Holds s
    → Holds (waited_for w p failure s).1
unfolding IsOrderly
waited_for-Holds done p failure s h = record {
  started_active = λ q. ground (arith, h.started_active q);
  stops_in_flight = λ q. ground (arith, h.stops_in_flight q);
  orderly = h.orderly;
}
waited_for-Holds threw p failure s h = record {
  started_active = h.started_active;
  stops_in_flight = λ q. ground (arith, h.stops_in_flight q);
  orderly = h.orderly;
}
waited_for-Holds expired p failure s h = record {
  started_active = h.started_active;
  stops_in_flight = h.stops_in_flight;
  orderly = h.orderly;
}

-- A wait that leaves no failure has found that the stop returned.
waited_for-clean :
    (w : Waited) (p : Entry) (failure : Option Error) (s : Lifecycle)
    → (waited_for w p failure s).0 ≡ none
    → (failure ≡ none) × ((waited_for w p failure s).1.started p ≡ false)
waited_for-clean done p failure s e = (e, ground (arith, same_refl p))
waited_for-clean threw p none s e = absurd (ground arith)
waited_for-clean threw p (some f) s e = absurd (ground arith)
waited_for-clean expired p none s e = absurd (ground arith)
waited_for-clean expired p (some f) s e = absurd (ground arith)

wait_for-Stops :
    (w : Waited) (p : Entry) (failure : Option Error) (s : Lifecycle)
    → Stops s (wait_for w p failure s).1
unfolding wait_for
wait_for-Stops w p failure s =
    if_elim (λ (r : Outcome). Stops s r.1) (s.started p) (λ _. waited_for-Stops w p failure s)
      (λ _. Stops-refl s)

wait_for-Holds :
    (w : Waited) (p : Entry) (failure : Option Error) (s : Lifecycle)
    → Holds s
    → Holds (wait_for w p failure s).1
unfolding wait_for
wait_for-Holds w p failure s h =
    if_elim (λ (r : Outcome). Holds r.1) (s.started p) (λ _. waited_for-Holds w p failure s h)
      (λ _. h)

wait_for-clean :
    (w : Waited) (p : Entry) (failure : Option Error) (s : Lifecycle)
    → (wait_for w p failure s).0 ≡ none
    → (failure ≡ none) × ((wait_for w p failure s).1.started p ≡ false)
unfolding wait_for
wait_for-clean w p failure s =
    if_elim (λ (r : Outcome). r.0 ≡ none → (failure ≡ none) × (r.1.started p ≡ false)) (s.started p)
      (λ _. waited_for-clean w p failure s) (λ idle e. (e, idle))

launch_all-Stops : (ps : List Entry) (s : Lifecycle) → Stops s (launch_all ps s)
unfolding launch_all
launch_all-Stops [] s = Stops-refl s
launch_all-Stops (p ∷ ps) s =
    Stops-trans s (launch p s) _ (launch-Stops p s) (launch_all-Stops ps (launch p s))

MayStop-Stops : (s t : Lifecycle) (p : Entry) → Stops s t → MayStop s p → MayStop t p
MayStop-Stops s t p a (inl e) = inl e
MayStop-Stops s t p a (inr idle) = inr λ q root. a.keeps_idle q (idle q root)

launch_all-Holds :
    (ps : List Entry) (s : Lifecycle)
    → ((p : Entry) → listed p ps ≡ true → MayStop s p)
    → Holds s
    → Holds (launch_all ps s)
unfolding launch_all
launch_all-Holds [] s may h = h
launch_all-Holds (p ∷ ps) s may h =
    launch_all-Holds ps (launch p s)
      (λ q l. MayStop-Stops s (launch p s) q (launch-Stops p s) (may q (ground arith)))
      (launch-Holds p s (may p (ground (arith, same_refl p))) h)

wait_all-Stops :
    (waits : Entry → Waited) (ps : List Entry) (failure : Option Error) (s : Lifecycle)
    → Stops s (wait_all waits ps failure s).1
unfolding wait_all
wait_all-Stops waits [] failure s = Stops-refl s
wait_all-Stops waits (p ∷ ps) failure s =
    let r = wait_for (waits p) p failure s in
    Stops-trans s r.1 _ (wait_for-Stops (waits p) p failure s) (wait_all-Stops waits ps r.0 r.1)

wait_all-Holds :
    (waits : Entry → Waited) (ps : List Entry) (failure : Option Error) (s : Lifecycle)
    → Holds s
    → Holds (wait_all waits ps failure s).1
unfolding wait_all
wait_all-Holds waits [] failure s h = h
wait_all-Holds waits (p ∷ ps) failure s h =
    let r = wait_for (waits p) p failure s in
    wait_all-Holds waits ps r.0 r.1 (wait_for-Holds (waits p) p failure s h)

wait_all-clean :
    (waits : Entry → Waited) (ps : List Entry) (failure : Option Error) (s : Lifecycle)
    → (wait_all waits ps failure s).0 ≡ none
    → (failure ≡ none)
      × ((q : Entry) → listed q ps ≡ true → (wait_all waits ps failure s).1.started q ≡ false)
unfolding wait_all
wait_all-clean waits [] failure s e = (e, λ q l. absurd (ground arith))
wait_all-clean waits (p ∷ ps) failure s e =
    let r = wait_for (waits p) p failure s in
    let rest = wait_all-clean waits ps r.0 r.1 e in
    let first = wait_for-clean (waits p) p failure s rest.0 in
    let after = wait_all-Stops waits ps r.0 r.1 in
    (
      first.0,
      λ q l. elim (Bool-cases (same q p)) [
        | inl e ↦
            after.keeps_idle q (subst (λ x. r.1.started x ≡ false) (sym (same_eq q p e)) first.1)
        | inr n ↦ rest.1 q (ground arith)
      ],
    )

pub stop_phase-Stops :
    (waits : Entry → Waited) (ps : List Entry) (s : Lifecycle) → Stops s (stop_phase waits ps s).1
unfolding stop_phase
stop_phase-Stops waits ps s =
    Stops-trans s (launch_all ps s) _ (launch_all-Stops ps s)
      (wait_all-Stops waits ps none (launch_all ps s))

pub stop_phase-Holds :
    (waits : Entry → Waited) (ps : List Entry) (s : Lifecycle)
    → ((p : Entry) → listed p ps ≡ true → MayStop s p)
    → Holds s
    → Holds (stop_phase waits ps s).1
unfolding stop_phase
stop_phase-Holds waits ps s may h =
    wait_all-Holds waits ps none (launch_all ps s) (launch_all-Holds ps s may h)

-- A phase that throws nothing has stopped each of its entries.
pub stop_phase-clean :
    (waits : Entry → Waited) (ps : List Entry) (s : Lifecycle)
    → (stop_phase waits ps s).0 ≡ none
    → (q : Entry) → listed q ps ≡ true
    → (stop_phase waits ps s).1.started q ≡ false
unfolding stop_phase
stop_phase-clean waits ps s e = (wait_all-clean waits ps none (launch_all ps s) e).1

wait_all-done : (ps : List Entry) (s : Lifecycle) → (wait_all (λ _. done) ps none s).0 ≡ none
unfolding wait_all wait_for
wait_all-done [] s = refl
wait_all-done (p ∷ ps) s =
    if_elim (λ (r : Outcome). (wait_all (λ _. done) ps r.0 r.1).0 ≡ none) (s.started p)
      (λ _. wait_all-done ps _) (λ _. wait_all-done ps s)

-- Where every stop returns, a phase throws nothing.
pub stop_phase-done : (ps : List Entry) (s : Lifecycle) → (stop_phase (λ _. done) ps s).0 ≡ none
unfolding stop_phase
stop_phase-done ps s = wait_all-done ps (launch_all ps s)
