-- ===== src/Service/App/Registry.antt =====
-- runtime/serviceapp.hpp: what the registrations of a ServiceApp leave alone.
use cppservicelib.Prelude.{
  ℕ, ◌+◌, ◌≡◌, refl, sym, ◌∙◌, subst, Bool, not, List, [], ◌∷◌, Option, none, some, if_elim,
  is_some,
}
use cppservicelib.Dict.{Key, contains}
use cppservicelib.Stream.Caller.{CallSemantics}
use cppservicelib.Service.Lifecycle as Lifecycle
use cppservicelib.Service.Lifecycle.{Entry, Waited, is_created, is_stopped}
use cppservicelib.Service.Lifecycle.Invariant.{IsValid}
use cppservicelib.Service.Lifecycle.Starting.{add-IsValid}
use cppservicelib.Service.App.{
  Error, App, Outcome, made, and_then, passed_on, register, register_delay_pool, register_task_pool,
  register_priority_task_pool, ensure_delay_pool, ensure_task_pool, ensure_priority_task_pool,
  ensure_call_semantics, ensure_optional, ensure_links, Configured, ensure_published,
  ensure_configured_pools,
}

-- What a registration leaves: it adds entries at most.
pub record Registers {Name : Type 0} (a b : App Name) : Type 0 where
  pub keeps_valid : IsValid a.lifecycle → IsValid b.lifecycle
  pub keeps_state : b.lifecycle.state ≡ a.lifecycle.state
  pub keeps_pending : b.lifecycle_pending ≡ a.lifecycle_pending
  pub keeps_running : b.running ≡ a.running

add-state : (p : Option Entry) (s : Lifecycle.Lifecycle) → (Lifecycle.add p s).1.state ≡ s.state
unfolding Lifecycle.add
add-state none s = refl
add-state (some p) s =
    let P : Lifecycle.Outcome → Type 0 = λ r. r.1.state ≡ s.state in
    if_elim P (not (is_created s.state)) (λ _. refl) λ _. if_elim P _ (λ _. refl) λ _. refl

module _ {Name : Type 0} where
  pub Registers-refl : (a : App Name) → Registers a a
  Registers-refl a = record {
    keeps_valid = λ v. v;
    keeps_state = refl;
    keeps_pending = refl;
    keeps_running = refl;
  }

  pub Registers-trans : (a b c : App Name) → Registers a b → Registers b c → Registers a c
  Registers-trans a b c x y = record {
    keeps_valid = λ v. y.keeps_valid (x.keeps_valid v);
    keeps_state = y.keeps_state ∙ x.keeps_state;
    keeps_pending = y.keeps_pending ∙ x.keeps_pending;
    keeps_running = y.keeps_running ∙ x.keeps_running;
  }

  pub and_then_elim {ℓ} :
      (P : Outcome Name → Type ℓ) (r : Outcome Name) (next : App Name → Outcome Name)
      → ((e : Error Name) → r.0 ≡ some e → P (some e, r.1))
      → (r.0 ≡ none → P (next r.1))
      → P (and_then r next)
  and_then_elim P (none, s) next error rest = rest refl
  and_then_elim P (some e, s) next error rest = error e refl

  and_then-Registers :
      (a : App Name) (r : Outcome Name) (next : App Name → Outcome Name)
      → Registers a r.1
      → ((b : App Name) → Registers b (next b).1)
      → Registers a (and_then r next).1
  and_then-Registers a r next x y =
      and_then_elim (λ (o : Outcome Name). Registers a o.1) r next (λ e h. x)
        (λ h. Registers-trans a r.1 _ x (y r.1))

  pub passed_on-lifecycle :
      (a : App Name) (r : Lifecycle.Outcome) → (passed_on a r).1 ≡ record a { lifecycle = r.1 }
  passed_on-lifecycle a (none, s) = refl
  passed_on-lifecycle a (some e, s) = refl

  pub register-Registers : (p : Option Entry) (a : App Name) → Registers a (register p a).1
  unfolding register
  register-Registers p a =
      subst (Registers a) (sym (passed_on-lifecycle a (Lifecycle.add p a.lifecycle))) (record {
        keeps_valid = add-IsValid p a.lifecycle;
        keeps_state = add-state p a.lifecycle;
        keeps_pending = refl;
        keeps_running = refl;
      })

  -- A registration after one in the app's own fields.
  noted-Registers :
      (p : Option Entry) (a b : App Name) → Registers a b → Registers a (register p b).1
  noted-Registers p a b x = Registers-trans a b _ x (register-Registers p b)

  pub register_delay_pool-Registers :
      (p : Option Entry) (a : App Name) → Registers a (register_delay_pool p a).1
  unfolding register_delay_pool
  register_delay_pool-Registers p a =
      if_elim (λ (r : Outcome Name). Registers a r.1) (is_some a.delays) (λ _. Registers-refl a)
        λ _.
          noted-Registers p a (record a { delays = p })
            (record {
              keeps_valid = λ v. v;
              keeps_state = refl;
              keeps_pending = refl;
              keeps_running = refl;
            })

module _ {Name : Type 0} ⦃names : Key Name⦄ where
  pub register_task_pool-Registers :
      (p : Option (Name × Entry)) (a : App Name) → Registers a (register_task_pool p a).1
  unfolding register_task_pool
  register_task_pool-Registers none a = Registers-refl a
  register_task_pool-Registers (some (name, p)) a =
      if_elim (λ (r : Outcome Name). Registers a r.1) (contains name a.task_pools)
        (λ _. Registers-refl a)
        λ _. noted-Registers (some p) a _ (record {
          keeps_valid = λ v. v;
          keeps_state = refl;
          keeps_pending = refl;
          keeps_running = refl;
        })

  pub register_priority_task_pool-Registers :
      (p : Option (Name × Entry)) (a : App Name) → Registers a (register_priority_task_pool p a).1
  unfolding register_priority_task_pool
  register_priority_task_pool-Registers none a = Registers-refl a
  register_priority_task_pool-Registers (some (name, p)) a =
      if_elim (λ (r : Outcome Name). Registers a r.1) (contains name a.priority_task_pools)
        (λ _. Registers-refl a)
        λ _. noted-Registers (some p) a _ (record {
          keeps_valid = λ v. v;
          keeps_state = refl;
          keeps_pending = refl;
          keeps_running = refl;
        })

  numbered-Registers : (a : App Name) (n : ℕ) → Registers a (record a { next = n })
  numbered-Registers a n = record {
    keeps_valid = λ v. v;
    keeps_state = refl;
    keeps_pending = refl;
    keeps_running = refl;
  }

  ensure_delay_pool-Registers : (a : App Name) → Registers a (ensure_delay_pool a).1
  ensure_delay_pool-Registers a =
      if_elim (λ (r : Outcome Name). Registers a r.1) (is_some a.delays) (λ _. Registers-refl a)
        λ _. Registers-trans a _ _ (numbered-Registers a _) (register_delay_pool-Registers _ _)

module _ {Name : Type 0} ⦃names : Key Name⦄ (is_empty : Name → Bool) where
  ensure_task_pool-Registers :
      (n : Option Name) (a : App Name) → Registers a (ensure_task_pool is_empty n a).1
  unfolding ensure_task_pool
  ensure_task_pool-Registers none a = Registers-refl a
  ensure_task_pool-Registers (some n) a =
      let P : Outcome Name → Type 0 = λ r. Registers a r.1 in
      if_elim P (is_empty n) (λ _. Registers-refl a)
        λ _.
          if_elim P (contains n a.task_pools) (λ _. Registers-refl a)
            λ _.
              Registers-trans a _ _ (numbered-Registers a (a.next + 1))
                (register_task_pool-Registers (some (n, made Lifecycle.task_pool a)) _)

  ensure_priority_task_pool-Registers :
      (n : Option Name) (a : App Name) → Registers a (ensure_priority_task_pool is_empty n a).1
  unfolding ensure_priority_task_pool
  ensure_priority_task_pool-Registers none a = Registers-refl a
  ensure_priority_task_pool-Registers (some n) a =
      let P : Outcome Name → Type 0 = λ r. Registers a r.1 in
      if_elim P (is_empty n) (λ _. Registers-refl a)
        λ _.
          if_elim P (contains n a.priority_task_pools) (λ _. Registers-refl a)
            λ _. Registers-trans a _ _ (numbered-Registers a (a.next + 1)) (
              register_priority_task_pool-Registers (some (n, made Lifecycle.priority_task_pool a))
                _)

  ensure_optional-Registers :
      (s : Option (CallSemantics Name)) (a : App Name)
      → Registers a (ensure_optional is_empty s a).1
  unfolding ensure_call_semantics
  ensure_optional-Registers none a = Registers-refl a
  ensure_optional-Registers (some s) a =
      and_then-Registers a (ensure_task_pool is_empty s.task_pool a) _
        (ensure_task_pool-Registers s.task_pool a) (λ b. ensure_priority_task_pool-Registers _ b)

  ensure_links-Registers :
      (ls : List (Option (CallSemantics Name))) (a : App Name)
      → Registers a (ensure_links is_empty ls a).1
  unfolding ensure_links
  ensure_links-Registers [] a = Registers-refl a
  ensure_links-Registers (l ∷ ls) a =
      and_then-Registers a (ensure_optional is_empty l a) _ (ensure_optional-Registers l a)
        (ensure_links-Registers ls)

  published-Registers :
      (c : Option (Configured Name)) (a : App Name) → Registers a (ensure_published is_empty c a).1
  published-Registers none a = Registers-refl a
  published-Registers (some c) a =
      and_then-Registers a (ensure_optional is_empty c.default_call_semantics a) _
        (ensure_optional-Registers c.default_call_semantics a) (ensure_links-Registers c.links)

  pub ensure_configured_pools-Registers :
      (c : Option (Configured Name)) (a : App Name)
      → Registers a (ensure_configured_pools is_empty c a).1
  unfolding ensure_configured_pools
  ensure_configured_pools-Registers c a =
      and_then-Registers a (ensure_delay_pool a) _ (ensure_delay_pool-Registers a)
        (published-Registers c)
