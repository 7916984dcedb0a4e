-- ===== src/Stream/Caller/Laws.antt =====
-- runtime/caller.hpp and runtime/environment.hpp: every edge that the configuration serves gets a caller,
-- and one caller only.
use cppservicelib.Prelude.{
  ℕ, ◌+◌, ◌==◌, ◌≡◌, refl, Bool, true, false, ◌&&◌, List, [], ◌∷◌, ◌||◌, Option, none, some, inl,
  inr, if◌then◌else◌, is_some, ℤ, Option-cases, if_elim, ap, ◌∙◌, arith,
}
use cppservicelib.Dict.{Key, Dict, find}
use cppservicelib.Dict.Laws.{find-emplace}
use cppservicelib.Config.Runtime.{LinkId}
use cppservicelib.Stream.Caller.{
  CallSemantics, Result, ok, err, Caller, direct, task_pool_caller, priority_task_pool_caller,
  parallel, Environment, link_semantics, make_caller, caller_for, prepare_caller, found_or,
  emplaced,
}

module _ {Name : Type 0} where
  abbrev count : CallSemantics Name → ℕ
  count s =
      (if is_some s.function_call then 1 else 0)
      + (if is_some s.task_pool then 1 else 0)
      + (if is_some s.priority_task_pool then 1 else 0)
      + (if s.parallel_call then 1 else 0)

module _ {Name Number Pool : Type 0} where
  abbrev task_pool_exists : Environment Name Number Pool → Option Name → Bool
  task_pool_exists env none = true
  task_pool_exists env (some n) = is_some (env.get_task_pool n)

  abbrev priority_task_pool_exists : Environment Name Number Pool → Option (Name × ℤ) → Bool
  priority_task_pool_exists env none = true
  priority_task_pool_exists env (some (n, priority)) = is_some (env.get_priority_task_pool n)

  -- Where there are semantics, there is exactly one, and the pool that it names is there.
  abbrev pub is_ready : Environment Name Number Pool → Option (CallSemantics Name) → Bool
  is_ready env none = true
  is_ready env (some s) =
      (count s == 1)
      && task_pool_exists env s.task_pool
      && priority_task_pool_exists env s.priority_task_pool

  -- The caller does what the semantics say, and calls the consumer itself where there are none.
  abbrev pub Serves :
      Environment Name Number Pool → Option (CallSemantics Name) → Caller Pool → Type 0
  Serves env none c = c ≡ direct false
  Serves env (some s) (direct async) = s.function_call ≡ some async
  Serves env (some s) (task_pool_caller p) =
      (n : Name) × (s.task_pool ≡ some n) × (env.get_task_pool n ≡ some p)
  Serves env (some s) (priority_task_pool_caller p priority) =
      (n : Name) × (s.priority_task_pool ≡ some (n, priority))
      × (env.get_priority_task_pool n ≡ some p)
  Serves env (some s) parallel = s.parallel_call ≡ true

  abbrev GetsCaller : Environment Name Number Pool → Option (CallSemantics Name) → Type 0
  GetsCaller env s = (c : Caller Pool) × (caller_for env s ≡ ok c) × Serves env s c

  semantics_get_caller :
      (env : Environment Name Number Pool) (f : Option Bool) (t : Option Name)
      (p : Option (Name × ℤ)) (q : Bool)
      → let s : CallSemantics Name = record {
        function_call = f;
        task_pool = t;
        priority_task_pool = p;
        parallel_call = q;
      } in
        is_ready env (some s) ≡ true → GetsCaller env (some s)
  semantics_get_caller env (some a) t p q e = (direct a, refl, refl)
  semantics_get_caller env none (some n) p q e = elim (Option-cases (env.get_task_pool n)) [
    | inl m ↦ absurd (ground (arith, m, e))
    | inr (x, m) ↦ (task_pool_caller x, rw m refl, (n, refl, m))
  ]
  semantics_get_caller env none none (some (n, i)) q e =
      elim (Option-cases (env.get_priority_task_pool n)) [
        | inl m ↦ absurd (ground (arith, m, e))
        | inr (x, m) ↦ (priority_task_pool_caller x i, rw m refl, (n, refl, m))
      ]
  semantics_get_caller env none none none true e = (parallel, refl, refl)
  semantics_get_caller env none none none false e = absurd (ground arith)

  optional_get_caller :
      (env : Environment Name Number Pool) (s : Option (CallSemantics Name))
      → is_ready env s ≡ true
      → GetsCaller env s
  optional_get_caller env none e = (direct false, refl, refl)
  optional_get_caller env (some s) e =
      semantics_get_caller env s.function_call s.task_pool s.priority_task_pool s.parallel_call e

  -- The semantics of a link: its own, or the default of the service where it has none of its own. A
  -- service without a configuration of its links has none.
  pub data Asks (env : Environment Name Number Pool) (link : LinkId Number)
      : Option (CallSemantics Name) → Type 0 where
    unconfigured : env.links ≡ none → Asks env link none
    own :
        (links : LinkId Number → Option (CallSemantics Name)) (s : CallSemantics Name)
        → env.links ≡ some links
        → links link ≡ some s
        → Asks env link (some s)
    by_default :
        (links : LinkId Number → Option (CallSemantics Name)) (d : Option (CallSemantics Name))
        → env.links ≡ some links
        → links link ≡ none
        → env.service ≡ some d
        → Asks env link d
    no_default :
        (links : LinkId Number → Option (CallSemantics Name))
        → env.links ≡ some links
        → links link ≡ none
        → env.service ≡ none
        → Asks env link none

  asked_semantics :
      (env : Environment Name Number Pool) (link : LinkId Number) (s : Option (CallSemantics Name))
      → Asks env link s
      → link_semantics env link ≡ s
  asked_semantics env link _ (unconfigured e) = rw e refl
  asked_semantics env link _ (own links s e f) = elim (Option-cases env.service) [
    | inl n ↦ rw (e, n) f
    | inr (d, n) ↦ rw (e, n, f) refl
  ]
  asked_semantics env link _ (by_default links d e f n) = rw (e, n, f) refl
  asked_semantics env link _ (no_default links e f n) = rw (e, n) f

  -- Where the semantics that a link asks for - its own before the default of the service - name one way
  -- to call and no pool that is missing, or where there are none, the link gets a caller, and the caller
  -- is of that way: with the pool of that name and the configured priority, or direct where there are
  -- none.
  pub ready_link_gets_caller :
      (env : Environment Name Number Pool) (link : LinkId Number) (s : Option (CallSemantics Name))
      → Asks env link s
      → is_ready env s ≡ true
      → (c : Caller Pool) × (make_caller (some env) link ≡ ok c) × Serves env s c
  unfolding make_caller
  ready_link_gets_caller env link s asks e =
      rw (asked_semantics env link s asks) (optional_get_caller env s e)

abbrev value : {Pool : Type 0} → Result (Caller Pool) → Option (Caller Pool)
value (ok c) = some c
value (err e) = none

module _ {Number Pool : Type 0} ⦃links : Key (LinkId Number)⦄ where
  found-emplaced :
      (link : LinkId Number) (r : Result (Caller Pool)) (edges : Dict (LinkId Number) (Caller Pool))
      (c : Caller Pool)
      → find link edges ≡ none
      → (emplaced link r edges).0 ≡ ok c
      → find link (emplaced link r edges).1 ≡ some c
  found-emplaced link (ok d) edges c n e =
      rw (find-emplace link link d edges, n, links.same_refl link) (ap value e)
  found-emplaced link (err f) edges c n e = absurd (ground arith)

  found-found_or :
      (link : LinkId Number) (o : Option (Caller Pool)) (r : Result (Caller Pool))
      (edges : Dict (LinkId Number) (Caller Pool)) (c : Caller Pool)
      → find link edges ≡ o
      → (found_or o (emplaced link r edges) edges).0 ≡ ok c
      → find link (found_or o (emplaced link r edges) edges).1 ≡ some c
  found-found_or link none r edges c n e = found-emplaced link r edges c n e
  found-found_or link (some d) r edges c n e = n ∙ ap value e

  kept-emplaced :
      (link other : LinkId Number) (r : Result (Caller Pool))
      (edges : Dict (LinkId Number) (Caller Pool)) (c : Caller Pool)
      → find link edges ≡ some c
      → find link (emplaced other r edges).1 ≡ some c
  kept-emplaced link other (ok d) edges c e = rw (find-emplace link other d edges, e) refl
  kept-emplaced link other (err f) edges c e = e

  kept-found_or :
      (link other : LinkId Number) (o : Option (Caller Pool)) (r : Result (Caller Pool))
      (edges : Dict (LinkId Number) (Caller Pool)) (c : Caller Pool)
      → find link edges ≡ some c
      → find link (found_or o (emplaced other r edges) edges).1 ≡ some c
  kept-found_or link other none r edges c e = kept-emplaced link other r edges c e
  kept-found_or link other (some d) r edges c e = e

module _ {Name Number Pool : Type 0} ⦃links : Key (LinkId Number)⦄ where
  found_prepared :
      (is_zero : Number → Bool) (env : Environment Name Number Pool) (link : LinkId Number)
      (edges : Dict (LinkId Number) (Caller Pool)) (c : Caller Pool)
      → (prepare_caller is_zero env link edges).0 ≡ ok c
      → (is_zero link.from || is_zero link.to ≡ false)
        × (find link (prepare_caller is_zero env link edges).1 ≡ some c)
  unfolding prepare_caller
  found_prepared is_zero env link edges c =
      if_elim
        (λ (r : Result (Caller Pool) × Dict (LinkId Number) (Caller Pool)).
          r.0 ≡ ok c → (is_zero link.from || is_zero link.to ≡ false) × (find link r.1 ≡ some c))
        (is_zero link.from || is_zero link.to) (λ _ e. absurd (ground arith))
        (λ z e.
          (z, found-found_or link (find link edges) (make_caller (some env) link) edges c refl e))

  -- A preparation of any link leaves the other edges.
  kept-prepare_caller :
      (is_zero : Number → Bool) (env : Environment Name Number Pool) (link other : LinkId Number)
      (edges : Dict (LinkId Number) (Caller Pool)) (c : Caller Pool)
      → find link edges ≡ some c
      → find link (prepare_caller is_zero env other edges).1 ≡ some c
  unfolding prepare_caller
  kept-prepare_caller is_zero env link other edges c e =
      if_elim
        (λ (r : Result (Caller Pool) × Dict (LinkId Number) (Caller Pool)). find link r.1 ≡ some c)
        (is_zero other.from || is_zero other.to) (λ _. e)
        (λ _. kept-found_or link other (find other edges) (make_caller (some env) other) edges c e)

  -- Preparations one after the other, each under its configuration.
  pub prepare_each :
      (Number → Bool)
      → List (Environment Name Number Pool × LinkId Number)
      → Dict (LinkId Number) (Caller Pool)
      → Dict (LinkId Number) (Caller Pool)
  prepare_each is_zero [] edges = edges
  prepare_each is_zero ((env, link) ∷ ps) edges =
      prepare_each is_zero ps (prepare_caller is_zero env link edges).1

  kept-prepare_each :
      (is_zero : Number → Bool) (ps : List (Environment Name Number Pool × LinkId Number))
      (link : LinkId Number) (edges : Dict (LinkId Number) (Caller Pool)) (c : Caller Pool)
      → find link edges ≡ some c
      → find link (prepare_each is_zero ps edges) ≡ some c
  unfolding prepare_each
  kept-prepare_each is_zero [] link edges c e = e
  kept-prepare_each is_zero ((env, other) ∷ ps) link edges c e =
      kept-prepare_each is_zero ps link _ c (kept-prepare_caller is_zero env link other edges c e)

  -- A link whose preparation gave a caller keeps it: after any preparations of any links, also of this
  -- one and under other configurations, one more preparation of it gives this caller and changes no edge.
  pub prepared_once :
      (is_zero : Number → Bool) (env later : Environment Name Number Pool) (link : LinkId Number)
      (ps : List (Environment Name Number Pool × LinkId Number))
      (edges : Dict (LinkId Number) (Caller Pool)) (c : Caller Pool)
      → (prepare_caller is_zero env link edges).0 ≡ ok c
      → let after = prepare_each is_zero ps (prepare_caller is_zero env link edges).1 in
        prepare_caller is_zero later link after ≡ (ok c, after)
  prepared_once is_zero env later link ps edges c e =
      let (z, f) = found_prepared is_zero env link edges c e in
      found_again z (kept-prepare_each is_zero ps link _ c f)
    where
      found_again :
          {after : Dict (LinkId Number) (Caller Pool)}
          → is_zero link.from || is_zero link.to ≡ false
          → find link after ≡ some c
          → prepare_caller is_zero later link after ≡ (ok c, after)
      found_again z f = unfold prepare_caller in rw (z, f) refl
