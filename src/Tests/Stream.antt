-- ===== src/Tests/Stream.antt =====
-- Links, branches and sub-streams at small inputs.
use cppservicelib.Prelude.{
  ℕ, ◌+◌, ◌≡◌, refl, Bool, true, false, ◌&&◌, List, [], ◌∷◌, none, some, ◌==◌, if◌then◌else◌, pos,
}
use cppservicelib.Dict.{find}
use cppservicelib.Config.Runtime.{LinkId}
use cppservicelib.Stream.Branches.{pass, dispatch_branches, choose, ok}
use cppservicelib.Stream.Branches.Laws.{served_in_order, split_serves_in_order, case_chooses}
use cppservicelib.Stream.Caller as Caller
use cppservicelib.Stream.Caller.{
  CallSemantics, Environment, priority_task_pool_caller, make_caller, link_semantics,
  prepare_caller,
}
use cppservicelib.Stream.Caller.Laws.{
  Serves, by_default, prepare_each, ready_link_gets_caller, prepared_once,
}
use cppservicelib.Stream.SubStream.{
  Section, cancels, begins_delivery, ends_delivery, begins_wait, ends_wait, begins_close,
  ends_close, accepted, sections, section, new_call, cancel, begin_delivery, end_delivery,
  begin_wait, end_wait, begin_close, end_close, returned,
}
use cppservicelib.Stream.SubStream.Once.{Agrees, call_is_answered_once}
use cppservicelib.Tests.Config.{link_key}

-- A synchronous branch between two asynchronous ones.
abbrev modes : List Bool
modes = true ∷ false ∷ true ∷ []

served_modes :
    dispatch_branches modes
    ≡ record { branch = 0; moved = false }
      ∷ record { branch = 2; moved = false }
      ∷ record { branch = 1; moved = true }
      ∷ []
unfolding dispatch_branches pass
served_modes = refl

split_serves_in_order_example : dispatch_branches modes ≡ served_in_order (0 ∷ 2 ∷ 1 ∷ [])
split_serves_in_order_example = split_serves_in_order modes

case_chooses_example : choose 5 3 ≡ ok 3
case_chooses_example = case_chooses 5 3

abbrev same_name : ℕ → ℕ → Bool
same_name a b = a == b

abbrev is_nameless : ℕ → Bool
is_nameless a = a == 0

-- The pool 3 with the priority 2, for every link.
abbrev by_priority : CallSemantics ℕ
by_priority = record {
  function_call = none;
  task_pool = none;
  priority_task_pool = some (3, pos 2);
  parallel_call = false;
}

abbrev configured : Environment ℕ ℕ ℕ
configured = record {
  links = some (λ _. none);
  service = some (some by_priority);
  get_task_pool = λ _. none;
  get_priority_task_pool = λ n. some (n + 10);
}

abbrev empty_configuration : Environment ℕ ℕ ℕ
empty_configuration = record {
  links = none;
  service = none;
  get_task_pool = λ _. none;
  get_priority_task_pool = λ _. none;
}

abbrev edge : LinkId ℕ
edge = record { from = 1; to = 2 }

abbrev back_edge : LinkId ℕ
back_edge = record { from = 2; to = 1 }

ready_link_gets_caller_example :
    (c : Caller.Caller ℕ) × (make_caller (some configured) edge ≡ Caller.ok c)
    × Serves configured (some by_priority) c
ready_link_gets_caller_example =
    ready_link_gets_caller configured edge (some by_priority)
      (by_default (λ _. none) (some by_priority) refl refl refl) refl

prepared_once_example :
    let after =
      prepare_each is_nameless
        ((empty_configuration, back_edge) ∷ [])
        (prepare_caller is_nameless configured edge []).1 in
    prepare_caller is_nameless empty_configuration edge after
    ≡ (Caller.ok (priority_task_pool_caller 13 (pos 2)), after)
unfolding prepare_caller make_caller find
prepared_once_example =
    prepared_once is_nameless configured empty_configuration edge
      ((empty_configuration, back_edge) ∷ []) [] (priority_task_pool_caller 13 (pos 2)) refl

-- A delivery that is accepted although the context ends while the collector runs.
abbrev invocation : List Section
invocation =
    begins_delivery false
    ∷ cancels
    ∷ begins_wait
    ∷ ends_delivery accepted
    ∷ ends_wait
    ∷ begins_close
    ∷ ends_close
    ∷ begins_delivery false
    ∷ []

returned_invocation : (sections invocation new_call).outcome ≡ some returned
unfolding sections section cancel begin_delivery end_delivery begin_wait end_wait begin_close
    end_close
returned_invocation = refl

call_is_answered_once_example :
    let c = sections invocation new_call in
    (c.sends ≡ (if c.closed then 1 else 0))
    × Agrees c.outcome c.accepts
    × (c.running && c.released ≡ false)
call_is_answered_once_example = call_is_answered_once invocation
