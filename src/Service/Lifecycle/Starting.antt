-- ===== src/Service/Lifecycle/Starting.antt =====
-- runtime/serviceapp.hpp: registration and start of a ServiceLifecycle keep its invariant.
use cppservicelib.Prelude.{
  ◌≤◌, ◌≡◌, refl, sym, ap, subst, Bool, true, false, not, ◌&&◌, List, [], ◌∷◌, Option, none, some,
  inl, inr, ◌==◌, if◌then◌else◌, Bool-cases, if_elim, arith,
}
use cppservicelib.Service.Lifecycle.{
  ComponentKind, data_source, storage, index, Entry, same, starting, running, stopping, Lifecycle,
  Outcome, and_then, listed, of_kind, is_created, is_stopped, Waited, set_flag, start_called, add,
  start_order, start_one, start_all, start_kinds, start_impl, started_or_rolled_back,
}
use cppservicelib.Service.Lifecycle.Log.{same_eq, same_refl, index_injective, IsOrderly}
use cppservicelib.Service.Lifecycle.Phases.{and_then_elim}
use cppservicelib.Service.Lifecycle.Invariant.{
  rank, UpTo, IsValid, listed-append, listed_kind, listed-of_kind,
}
use cppservicelib.Service.Lifecycle.Stopping.{stop_started-IsValid, moved-IsValid}

pub add-IsValid : (p : Option Entry) (s : Lifecycle) → IsValid s → IsValid (add p s).1
unfolding add
add-IsValid none s v = v
add-IsValid (some p) s v =
    let P : Outcome → Type 0 = λ r. IsValid r.1 in
    if_elim P (not (is_created s.state)) (λ _. v)
      λ _.
        if_elim P (listed p (of_kind p.kind s.entries)) (λ _. v)
          λ _. record {
            holds = record {
              started_active = v.holds.started_active;
              stops_in_flight = v.holds.stops_in_flight;
              orderly = v.holds.orderly;
            };
            in_order = v.in_order;
            in_entries = λ q. elim (v.in_entries q) [
              | inl e ↦ inl e
              | inr l ↦ inr (rw listed-append (ground arith))
            ];
            descends = v.descends;
            created_idle = v.created_idle;
            stopped_idle = v.stopped_idle;
            drained_idle = v.drained_idle;
          }

-- What holds while the entries of a kind are started.
record IsStarting (es : List Entry) (k : ComponentKind) (s : Lifecycle) : Type 0 where
  valid : IsValid s
  is_starting : s.state ≡ starting
  not_drained : s.before_graph_drained ≡ false
  up_to : UpTo k s.order
  same_entries : s.entries ≡ es

-- `entry.started = true; started_.push_back(&entry);` and the call of `start`.
abbrev push : Entry → Lifecycle → Lifecycle
push p s = record s {
  started = set_flag s.started p true;
  order = p ∷ s.order;
  log = start_called p ∷ s.log;
}

push-IsStarting :
    (es : List Entry) (p : Entry) (s : Lifecycle)
    → listed p es ≡ true
    → IsStarting es p.kind s
    → IsStarting es p.kind (push p s)
unfolding IsOrderly
push-IsStarting es p s l v = record {
  valid = record {
    holds = record {
      started_active = λ q. ground (arith, v.valid.holds.started_active q);
      stops_in_flight = v.valid.holds.stops_in_flight;
      orderly = v.valid.holds.orderly;
    };
    in_order = λ q. elim (v.valid.in_order q) [
      | inl e ↦ elim (Bool-cases (same q p)) [
        | inl y ↦ inr (ground arith)
        | inr n ↦ inl (ground arith)
      ]
      | inr l ↦ inr (ground arith)
    ];
    in_entries = λ q. elim (Bool-cases (same q p)) [
      | inl y ↦ inr (
          subst (λ x. listed q x ≡ true) (sym v.same_entries)
            (subst (λ x. listed x es ≡ true) (sym (same_eq q p y)) l))
      | inr n ↦ elim (v.valid.in_entries q) [ inl e ↦ inl (ground arith) | inr m ↦ inr m ]
    ];
    descends = (v.up_to, v.valid.descends);
    created_idle = inl (ap is_created v.is_starting);
    stopped_idle = inl (ap is_stopped v.is_starting);
    drained_idle = inl v.not_drained;
  };
  is_starting = v.is_starting;
  not_drained = v.not_drained;
  up_to = (omega arith, v.up_to);
  same_entries = v.same_entries;
}

abbrev Ascends : ComponentKind → List ComponentKind → Type 0
Ascends k [] = Unit
Ascends k (j ∷ js) = (rank k ≤ rank j) × Ascends j js

UpTo-mono : (j k : ComponentKind) (ps : List Entry) → rank j ≤ rank k → UpTo j ps → UpTo k ps
UpTo-mono j k [] h u = tt
UpTo-mono j k (p ∷ ps) h u = (omega (arith, u.0), UpTo-mono j k ps h u.1)

module _ (starts : Entry → Bool) (es : List Entry) where
  start_all-IsStarting :
      (k : ComponentKind) (ps : List Entry) (s : Lifecycle)
      → ((p : Entry) → listed p ps ≡ true → (p.kind ≡ k) × (listed p es ≡ true))
      → IsStarting es k s
      → IsStarting es k (start_all starts ps s).1
  unfolding start_all start_one
  start_all-IsStarting k [] s on v = v
  start_all-IsStarting k (p ∷ ps) s on v =
      let (kind, l) = on p (ground (arith, same_refl p)) in
      let pushed : IsStarting es k (push p s) =
        subst (λ j. IsStarting es j (push p s)) kind
          (push-IsStarting es p s l (subst (λ j. IsStarting es j s) (sym kind) v)) in
      if_elim (λ (r : Outcome). IsStarting es k (and_then r (start_all starts ps)).1) (starts p)
        (λ _. start_all-IsStarting k ps (push p s) (λ q m. on q (ground arith)) pushed)
        (λ _. pushed)

  raise :
      (j k : ComponentKind) (s : Lifecycle)
      → rank j ≤ rank k
      → IsStarting es j s
      → IsStarting es k s
  raise j k s h v = record {
    valid = v.valid;
    is_starting = v.is_starting;
    not_drained = v.not_drained;
    up_to = UpTo-mono j k s.order h v.up_to;
    same_entries = v.same_entries;
  }

  start_kinds-IsValid :
      (admission : Bool) (j : ComponentKind) (ks : List ComponentKind) (s : Lifecycle)
      → Ascends j ks
      → IsStarting es j s
      → let t = (start_kinds starts admission ks s).1 in
        IsValid t × (t.before_graph_drained ≡ false)
  unfolding start_kinds
  start_kinds-IsValid admission j [] s a v = (v.valid, v.not_drained)
  start_kinds-IsValid admission j (k ∷ ks) s a v =
      let test = not admission && (index k == index data_source) in
      let ps : List Entry = if test then [] else of_kind k s.entries in
      let on : (p : Entry) → listed p ps ≡ true → (p.kind ≡ k) × (listed p es ≡ true) = λ p.
        if_elim (λ x. listed p x ≡ true → (p.kind ≡ k) × (listed p es ≡ true)) test
          (λ _ l. absurd (ground arith))
          (λ _ l. (
            index_injective p.kind k (listed_kind p k s.entries l),
            subst (λ x. listed p x ≡ true) v.same_entries
                (ground (arith, listed-of_kind p k s.entries)),
          )) in
      let first = start_all-IsStarting k ps s on (raise j k s a.0 v) in
      and_then_elim (λ (r : Outcome). IsValid r.1 × (r.1.before_graph_drained ≡ false))
        (start_all starts ps s) (start_kinds starts admission ks)
        (λ e h. (first.valid, first.not_drained))
        (λ h. start_kinds-IsValid admission k ks (start_all starts ps s).1 a.1 first)

starting-IsStarting :
    (s : Lifecycle)
    → IsValid s
    → is_created s.state ≡ true
    → IsStarting s.entries storage (record s { state = starting })
starting-IsStarting s v c = elim v.created_idle [
  | inl n ↦ absurd (ground arith)
  | inr (idle, o, d) ↦ record {
    valid = record {
      holds = record {
        started_active = v.holds.started_active;
        stops_in_flight = v.holds.stops_in_flight;
        orderly = v.holds.orderly;
      };
      in_order = v.in_order;
      in_entries = v.in_entries;
      descends = v.descends;
      created_idle = inl refl;
      stopped_idle = inl refl;
      drained_idle = v.drained_idle;
    };
    is_starting = refl;
    not_drained = d;
    up_to = subst (UpTo storage) (sym o) tt;
    same_entries = refl;
  }
]

started-IsValid :
    (waits : Entry → Waited) (r : Outcome)
    → IsValid r.1
    → IsValid (started_or_rolled_back waits r).1
started-IsValid waits (none, s) v = moved-IsValid s running s.rollback_pending refl refl v
started-IsValid waits (some e, s) v =
    stop_started-IsValid waits s.order _ v.descends v.in_order
      (moved-IsValid s stopping true refl refl v)

pub kinds-IsValid :
    (starts : Entry → Bool) (admission : Bool) (s : Lifecycle)
    → IsValid s
    → is_created s.state ≡ true
    → let t = (start_kinds starts admission start_order (record s { state = starting })).1 in
      IsValid t × (t.before_graph_drained ≡ false)
kinds-IsValid starts admission s v c =
    start_kinds-IsValid starts s.entries admission storage start_order
      (record s { state = starting })
      (
        omega arith,
        (
          omega arith,
          (omega arith, (omega arith, (omega arith, (omega arith, (omega arith, tt))))),
        ),
      )
      (starting-IsStarting s v c)

pub start_impl-IsValid :
    (starts : Entry → Bool) (waits : Entry → Waited) (admission : Bool) (s : Lifecycle)
    → IsValid s
    → IsValid (start_impl starts waits admission s).1
unfolding start_impl
start_impl-IsValid starts waits admission s v =
    if_elim (λ (r : Outcome). IsValid r.1) (not (is_created s.state)) (λ _. v)
      λ c. started-IsValid waits _ (kinds-IsValid starts admission s v (ground arith)).0
