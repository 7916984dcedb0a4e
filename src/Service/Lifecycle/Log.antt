-- ===== src/Service/Lifecycle/Log.antt =====
-- runtime/serviceapp.hpp: what the components see of a ServiceLifecycle, read off the log of its calls.
use cppservicelib.Prelude.{
  ℕ, ◌≡◌, refl, sym, ap, ◌∙◌, Bool, true, false, ◌&&◌, List, [], ◌∷◌, ◌⊎◌, if◌then◌else◌, ==_refl,
  get_or, arith,
}
use cppservicelib.Service.Lifecycle.{
  ComponentKind, data_source, data_sink, storage, delay_pool, task_pool, priority_task_pool,
  component, index, Entry, same, Event, start_called, stop_called, stop_returned, stop_threw,
}

-- The producers of graph work that a stop waits for first, and what the graph runs on.
abbrev pub is_root : ComponentKind → Bool
is_root data_source = true
is_root component = true
is_root _ = false

abbrev pub is_executor : ComponentKind → Bool
is_executor storage = true
is_executor delay_pool = true
is_executor task_pool = true
is_executor priority_task_pool = true
is_executor _ = false

-- It was started, and no stop of it has returned since.
abbrev pub is_active : List Event → Entry → Bool
is_active [] q = false
is_active (start_called p ∷ older) q = if same q p then true else is_active older q
is_active (stop_returned p ∷ older) q = if same q p then false else is_active older q
is_active (_ ∷ older) q = is_active older q

-- A stop of it was called, and has neither returned nor thrown.
abbrev pub is_in_flight : List Event → Entry → Bool
is_in_flight [] q = false
is_in_flight (stop_called p ∷ older) q = if same q p then true else is_in_flight older q
is_in_flight (stop_returned p ∷ older) q = if same q p then false else is_in_flight older q
is_in_flight (stop_threw p ∷ older) q = if same q p then false else is_in_flight older q
is_in_flight (_ ∷ older) q = is_in_flight older q

-- A stop is called of an active component that no other stop is in progress of, and, where it is an
-- executor or a storage, when no data source and no component is active.
unfoldable pub IsOrderly : List Event → Type 0
IsOrderly [] = Unit
IsOrderly (stop_called p ∷ older) =
    (is_active older p ≡ true)
    × (is_in_flight older p ≡ false)
    × ((is_executor p.kind ≡ false) ⊎ ((q : Entry) → is_root q.kind && is_active older q ≡ false))
    × IsOrderly older
IsOrderly (_ ∷ older) = IsOrderly older

pub same_kind : (p q : Entry) → same p q ≡ true → index p.kind ≡ index q.kind
same_kind p q e = ground arith

abbrev of_index : ℕ → ComponentKind
of_index n =
    get_or (data_source ∷ data_sink ∷ storage ∷ delay_pool ∷ task_pool ∷ priority_task_pool ∷ []) n
      component

of_index-index : (k : ComponentKind) → of_index (index k) ≡ k
of_index-index data_source = refl
of_index-index data_sink = refl
of_index-index storage = refl
of_index-index delay_pool = refl
of_index-index task_pool = refl
of_index-index priority_task_pool = refl
of_index-index component = refl

pub index_injective : (a b : ComponentKind) → index a ≡ index b → a ≡ b
index_injective a b e = sym (of_index-index a) ∙ ap of_index e ∙ of_index-index b

pub same_eq : (p q : Entry) → same p q ≡ true → p ≡ q
same_eq p q e =
    let kinds = index_injective p.kind q.kind (same_kind p q e) in
    let identities : p.identity ≡ q.identity = ground arith in
    λ i. record { kind = kinds i; identity = identities i }

pub same_refl : (p : Entry) → same p p ≡ true
same_refl p = rw (==_refl (index p.kind), ==_refl p.identity) refl
