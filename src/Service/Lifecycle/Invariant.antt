-- ===== src/Service/Lifecycle/Invariant.antt =====
-- runtime/serviceapp.hpp: the invariant of a ServiceLifecycle between its public calls.
use cppservicelib.Prelude.{
  ℕ, ◌≤◌, ◌≡◌, refl, sym, ap, Bool, true, false, ◌&&◌, ◌||◌, List, [], ◌∷◌, ◌++◌, ◌⊎◌, inl, inr,
  ◌==◌, if◌then◌else◌, All, Bool-cases, arith,
}
use cppservicelib.Service.Lifecycle.{
  ComponentKind, data_source, data_sink, storage, delay_pool, task_pool, priority_task_pool,
  component, index, Entry, same, Lifecycle, new_lifecycle, listed, of_kind, is_created, is_stopped,
  append_reverse, admission_entries, executor_entries, sink_entries,
}
use cppservicelib.Service.Lifecycle.Log.{is_root, is_executor, IsOrderly, same_kind}
use cppservicelib.Service.Lifecycle.Phases.{Holds}

-- The place of a kind in `kStartOrder`.
abbrev pub rank : ComponentKind → ℕ
rank storage = 0
rank delay_pool = 1
rank task_pool = 2
rank priority_task_pool = 3
rank component = 4
rank data_sink = 5
rank data_source = 6

abbrev pub UpTo : ComponentKind → List Entry → Type 0
UpTo k = All λ (q : Entry). rank q.kind ≤ rank k

-- In the order of a rollback no kind comes before one that was started after it.
abbrev pub Descends : List Entry → Type 0
Descends [] = Unit
Descends (p ∷ ps) = UpTo p.kind ps × Descends ps

abbrev pub AllIdle : Lifecycle → Type 0
AllIdle s = (q : Entry) → s.started q ≡ false

-- Between the calls nothing is `starting`; what is started is registered and in `started_`; a created
-- lifecycle and a stopped one have nothing started, a created one is not drained, and one whose graph may be drained only sinks.
pub record IsValid (s : Lifecycle) : Type 0 where
  pub holds : Holds s
  pub in_order : (q : Entry) → (s.started q ≡ false) ⊎ (listed q s.order ≡ true)
  pub in_entries : (q : Entry) → (s.started q ≡ false) ⊎ (listed q s.entries ≡ true)
  pub descends : Descends s.order
  pub created_idle :
      (is_created s.state ≡ false) ⊎ (AllIdle s × (s.order ≡ []) × (s.before_graph_drained ≡ false))
  pub stopped_idle : (is_stopped s.state ≡ false) ⊎ AllIdle s
  pub drained_idle :
      (s.before_graph_drained ≡ false)
      ⊎ ((q : Entry) → (s.started q ≡ false) ⊎ (index q.kind ≡ index data_sink))

pub new-IsValid : IsValid new_lifecycle
unfolding IsOrderly
new-IsValid = record {
  holds = record { started_active = λ q. refl; stops_in_flight = λ q. refl; orderly = tt };
  in_order = λ q. inl refl;
  in_entries = λ q. inl refl;
  descends = tt;
  created_idle = inr (λ q. refl, refl, refl);
  stopped_idle = inl refl;
  drained_idle = inl refl;
}

pub listed-append :
    (p : Entry) (qs rs : List Entry) → listed p (qs ++ rs) ≡ listed p qs || listed p rs
listed-append p [] rs = refl
listed-append p (q ∷ qs) rs = ground (arith, listed-append p qs rs)

pub listed-append_reverse :
    (p : Entry) (target es : List Entry)
    → listed p (append_reverse target es) ≡ listed p target || listed p es
listed-append_reverse p target [] = ground arith
listed-append_reverse p target (e ∷ es) =
    rw listed-append (ground (arith, listed-append_reverse p target es))

listed-kept :
    (p e : Entry) (rest : List Entry) (x z l : Bool)
    → (same p e ≡ true → x ≡ z)
    → listed p rest ≡ z && l
    → listed p (if x then e ∷ rest else rest) ≡ z && (same p e || l)
listed-kept p e rest true z l h r = elim (Bool-cases (same p e)) [
  | inl y ↦ rw (y, sym (h y)) refl
  | inr n ↦ rw (n, r) refl
]
listed-kept p e rest false z l h r = elim (Bool-cases (same p e)) [
  | inl y ↦ rw (y, r, sym (h y)) refl
  | inr n ↦ rw (n, r) refl
]

pub listed-of_kind :
    (p : Entry) (k : ComponentKind) (es : List Entry)
    → listed p (of_kind k es) ≡ (index p.kind == index k) && listed p es
unfolding of_kind
listed-of_kind p k [] = elim (Bool-cases (index p.kind == index k)) [
  | inl y ↦ rw y refl
  | inr n ↦ rw n refl
]
listed-of_kind p k (e ∷ es) =
    listed-kept p e (of_kind k es) (index e.kind == index k) (index p.kind == index k) (listed p es)
      (λ y. ap (λ i. i == index k) (sym (same_kind p e y))) (listed-of_kind p k es)

pub listed_kind :
    (p : Entry) (k : ComponentKind) (es : List Entry)
    → listed p (of_kind k es) ≡ true
    → index p.kind ≡ index k
listed_kind p k es l = ground (arith, listed-of_kind p k es)

executor_kinds :
    (k : ComponentKind) (l : Bool)
    → ((((index k == 5) && l) || ((index k == 4) && l)) || ((index k == 3) && l))
        || ((index k == 2) && l)
      ≡ is_executor k && l
executor_kinds data_source l = refl
executor_kinds data_sink l = refl
executor_kinds storage l = refl
executor_kinds delay_pool l = ground arith
executor_kinds task_pool l = ground arith
executor_kinds priority_task_pool l = ground arith
executor_kinds component l = refl

root_kinds :
    (k : ComponentKind) (l : Bool) → ((index k == 0) && l) || ((index k == 6) && l) ≡ is_root k && l
root_kinds data_source l = ground arith
root_kinds data_sink l = refl
root_kinds storage l = refl
root_kinds delay_pool l = refl
root_kinds task_pool l = refl
root_kinds priority_task_pool l = refl
root_kinds component l = refl

-- The three lists of a shutdown: which entries are on them.
pub listed-admission :
    (p : Entry) (es : List Entry) → listed p (admission_entries es) ≡ is_root p.kind && listed p es
listed-admission p es =
    rw (listed-append_reverse, listed-append_reverse, listed-of_kind, listed-of_kind)
      (root_kinds p.kind (listed p es))

pub listed-executors :
    (p : Entry) (es : List Entry)
    → listed p (executor_entries es) ≡ is_executor p.kind && listed p es
listed-executors p es =
    rw
      (
        listed-append_reverse, listed-append_reverse, listed-append_reverse, listed-append_reverse,
        listed-of_kind, listed-of_kind, listed-of_kind, listed-of_kind,
      )
      (executor_kinds p.kind (listed p es))

pub listed-sinks :
    (p : Entry) (es : List Entry)
    → listed p (sink_entries es) ≡ (index p.kind == index data_sink) && listed p es
listed-sinks p es = rw (listed-append_reverse, listed-of_kind) refl
