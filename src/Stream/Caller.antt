-- ===== src/Stream/Caller.antt =====
-- runtime/caller.hpp: makeCallerFromEnv, the callers that it makes, and runtime/environment.hpp:
-- prepareCaller. The pools of the environment are arguments.
pub mod Laws
use cppservicelib.Prelude.{
  ℕ, Bool, true, false, not, ◌&&◌, ◌||◌, List, [], ◌∷◌, Option, none, some, ◌==◌, if◌then◌else◌,
  or_else, is_some, ℤ,
}
use cppservicelib.Dict.{Key, Dict, find, emplace}
use cppservicelib.Config.Runtime.{LinkId}

-- link_types.hpp: CallSemanticsGroup with the values of its fields.
pub record CallSemantics (Name : Type 0) : Type 0 where
  -- `functionCall`, and its `async`
  pub function_call : Option Bool
  -- the `poolName`
  pub task_pool : Option Name
  pub priority_task_pool : Option (Name × ℤ)
  pub parallel_call : Bool

pub data Error : Type 0 where
  task_pool_not_found priority_task_pool_not_found unsupported no_identity not_prepared : Error

pub data Result (A : Type 0) : Type 0 where
  ok : A → Result A
  err : Error → Result A

-- The four classes of callers, with their pool and the configured priority.
pub data Caller (Pool : Type 0) : Type 0 where
  direct : Bool → Caller Pool
  task_pool_caller : Pool → Caller Pool
  priority_task_pool_caller : Pool → ℤ → Caller Pool
  parallel : Caller Pool

-- What `makeCallerFromEnv` reads of the environment: no configuration has no links.
pub record Environment (Name Number Pool : Type 0) : Type 0 where
  -- `getRuntimeConfigSnapshot`: the `callSemantics` of its links
  pub links : Option (LinkId Number → Option (CallSemantics Name))
  -- `getServiceConfigSnapshot`, and its `defaultCallSemantics`
  pub service : Option (Option (CallSemantics Name))
  pub get_task_pool : Name → Option Pool
  pub get_priority_task_pool : Name → Option Pool

module _ {Name Number : Type 0} where
  abbrev configured :
      Option (LinkId Number → Option (CallSemantics Name))
      → Option (Option (CallSemantics Name))
      → LinkId Number
      → Option (CallSemantics Name)
  configured none service link = none
  configured (some links) none link = links link
  configured (some links) (some service) link = or_else (links link) service

module _ {Pool : Type 0} where
  abbrev pooled : Error → (Pool → Caller Pool) → Option Pool → Result (Caller Pool)
  pooled e make none = err e
  pooled e make (some p) = ok (make p)

  abbrev by_parallel : Bool → Result (Caller Pool)
  by_parallel true = ok parallel
  by_parallel false = err unsupported

  -- `isAsync`
  abbrev pub is_async : Caller Pool → Bool
  is_async (direct async) = async
  is_async _ = true

module _ {Name Number Pool : Type 0} where
  -- The semantics of a link, or those of the service.
  abbrev pub link_semantics :
      Environment Name Number Pool → LinkId Number → Option (CallSemantics Name)
  link_semantics env link = configured env.links env.service link

  abbrev by_priority :
      Environment Name Number Pool → Option (Name × ℤ) → Bool → Result (Caller Pool)
  by_priority env none p = by_parallel p
  by_priority env (some (name, priority)) p =
      pooled priority_task_pool_not_found (λ pool. priority_task_pool_caller pool priority)
        (env.get_priority_task_pool name)

  abbrev by_task_pool :
      Environment Name Number Pool → Option Name → CallSemantics Name → Result (Caller Pool)
  by_task_pool env none s = by_priority env s.priority_task_pool s.parallel_call
  by_task_pool env (some name) s =
      pooled task_pool_not_found task_pool_caller (env.get_task_pool name)

  abbrev by_function_call :
      Environment Name Number Pool → Option Bool → CallSemantics Name → Result (Caller Pool)
  by_function_call env none s = by_task_pool env s.task_pool s
  by_function_call env (some async) s = ok (direct async)

  abbrev caller_for :
      Environment Name Number Pool → Option (CallSemantics Name) → Result (Caller Pool)
  caller_for env none = ok (direct false)
  caller_for env (some s) = by_function_call env s.function_call s

  -- `makeCallerFromEnv`, without an environment where there is none.
  unfoldable pub make_caller :
      Option (Environment Name Number Pool) → LinkId Number → Result (Caller Pool)
  make_caller none link = ok (direct false)
  make_caller (some env) link = caller_for env (link_semantics env link)

-- What `consume` of a caller does: it calls the consumer, adds a task, with a priority or without, or
-- spawns a coroutine.
pub data Delivery (Pool : Type 0) : Type 0 where
  called : Delivery Pool
  added : Pool → Delivery Pool
  added_with : Pool → ℤ → Delivery Pool
  spawned : Delivery Pool

abbrev or_priority : Option ℤ → ℤ → ℤ
or_priority none d = d
or_priority (some p) d = p

module _ {Pool : Type 0} where
  -- `consume`; the priority is that of the context, where it has one.
  abbrev pub deliver : Caller Pool → Option ℤ → Delivery Pool
  deliver (direct async) priority = called
  deliver (task_pool_caller p) priority = added p
  deliver (priority_task_pool_caller p d) priority = added_with p (or_priority priority d)
  deliver parallel priority = spawned

-- `callers_`: the edges by their link.
module _ {Number Pool : Type 0} ⦃links : Key (LinkId Number)⦄ where
  abbrev emplaced :
      LinkId Number
      → Result (Caller Pool)
      → Dict (LinkId Number) (Caller Pool)
      → Result (Caller Pool) × Dict (LinkId Number) (Caller Pool)
  emplaced link (err e) edges = (err e, edges)
  emplaced link (ok c) edges = (ok c, emplace link c edges)

  abbrev found_or :
      Option (Caller Pool)
      → Result (Caller Pool) × Dict (LinkId Number) (Caller Pool)
      → Dict (LinkId Number) (Caller Pool)
      → Result (Caller Pool) × Dict (LinkId Number) (Caller Pool)
  found_or none made edges = made
  found_or (some c) made edges = (ok c, edges)

module _ {Name Number Pool : Type 0} ⦃links : Key (LinkId Number)⦄ where
  -- `prepareCaller`: one caller for each link.
  unfoldable pub prepare_caller :
      (Number → Bool)
      → Environment Name Number Pool
      → LinkId Number
      → Dict (LinkId Number) (Caller Pool)
      → Result (Caller Pool) × Dict (LinkId Number) (Caller Pool)
  unfolding make_caller
  prepare_caller is_zero env link edges =
      if is_zero link.from || is_zero link.to
      then (err no_identity, edges)
      else found_or (find link edges) (emplaced link (make_caller (some env) link) edges) edges
