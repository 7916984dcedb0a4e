-- ===== src/Service/App/Ensured.antt =====
-- runtime/serviceapp.hpp: the pools that the links of a service name, and what its lifecycle knows of them.
use cppservicelib.Prelude.{
  ◌+◌, ◌≡◌, refl, sym, subst, Bool, true, false, not, ◌&&◌, List, [], ◌∷◌, ◌++◌, Option, none, some,
  if_elim, is_some, All, ℤ, arith,
}
use cppservicelib.Dict.{Key, Dict, find, contains, emplace}
use cppservicelib.Dict.Laws.{contains-emplace}
use cppservicelib.Stream.Caller.{CallSemantics}
use cppservicelib.Service.Lifecycle as Lifecycle
use cppservicelib.Service.Lifecycle.{Entry, is_created, listed, of_kind, not_created}
use cppservicelib.Service.Lifecycle.Log.{same_refl}
use cppservicelib.Service.Lifecycle.Invariant.{listed-append}
use cppservicelib.Service.App.{
  App, Outcome, made, passed_on, register, register_delay_pool, register_task_pool,
  register_priority_task_pool, ensure_delay_pool, ensure_task_pool, ensure_priority_task_pool,
  ensure_call_semantics, ensure_optional, ensure_links, Configured, name_of,
  ensure_configured_pools, of_lifecycle,
}
use cppservicelib.Service.App.Registry.{and_then_elim, passed_on-lifecycle}

-- The lifecycle knows each of the pools.
module _ {Name : Type 0} where
  abbrev pub AllListed : Dict Name Entry → List Entry → Type 0
  AllListed d es = All (λ (e : Name × Entry). listed e.1 es ≡ true) d

AllListed-append :
    {Name : Type 0} (d : Dict Name Entry) (es xs : List Entry)
    → AllListed d es
    → AllListed d (es ++ xs)
AllListed-append [] es xs a = tt
AllListed-append (e ∷ d) es xs a =
    (rw listed-append (ground (arith, a.0)), AllListed-append d es xs a.1)

add-entries :
    (p : Entry) (s : Lifecycle.Lifecycle)
    → (Lifecycle.add (some p) s).0 ≡ none
    → (Lifecycle.add (some p) s).1.entries ≡ s.entries ++ p ∷ []
unfolding Lifecycle.add
add-entries p s =
    let P : Lifecycle.Outcome → Type 0 = λ r. r.0 ≡ none → r.1.entries ≡ s.entries ++ p ∷ [] in
    if_elim P (not (is_created s.state)) (λ _ e. absurd (ground arith))
      λ _.
        if_elim P (listed p (of_kind p.kind s.entries)) (λ _ e. absurd (ground arith)) λ _ e. refl

passed_on-none :
    {Name : Type 0} (a : App Name) (r : Lifecycle.Outcome) → (passed_on a r).0 ≡ none → r.0 ≡ none
passed_on-none a (none, s) e = refl
passed_on-none a (some f, s) e = absurd (ground arith)

-- What a registration leaves that throws nothing.
register_adds :
    {Name : Type 0} (p : Entry) (a : App Name)
    → (register (some p) a).0 ≡ none
    → ((register (some p) a).1 ≡ record a { lifecycle = (Lifecycle.add (some p) a.lifecycle).1 })
      × ((Lifecycle.add (some p) a.lifecycle).1.entries ≡ a.lifecycle.entries ++ p ∷ [])
unfolding register
register_adds p a e = (
  passed_on-lifecycle a (Lifecycle.add (some p) a.lifecycle),
  add-entries p a.lifecycle (passed_on-none a (Lifecycle.add (some p) a.lifecycle) e),
)

module _ {Name : Type 0} where
  abbrev pub PoolsAreListed : App Name → Type 0
  PoolsAreListed a =
      AllListed a.task_pools a.lifecycle.entries
      × AllListed a.priority_task_pools a.lifecycle.entries

module _ {Name : Type 0} ⦃names : Key Name⦄ where
  emplace-AllListed :
      (n : Name) (p : Entry) (d : Dict Name Entry) (es : List Entry)
      → contains n d ≡ false
      → AllListed d es
      → AllListed (emplace n p d) (es ++ p ∷ [])
  unfolding emplace
  emplace-AllListed n p d es c a =
      rw c (rw listed-append (ground (arith, same_refl p)), AllListed-append d es (p ∷ []) a)

  record Grows (a b : App Name) : Type 0 where
    keeps_listed : PoolsAreListed a → PoolsAreListed b
    keeps_tasks : (n : Name) → contains n a.task_pools ≡ true → contains n b.task_pools ≡ true
    keeps_priority :
        (n : Name)
        → contains n a.priority_task_pools ≡ true
        → contains n b.priority_task_pools ≡ true

  Grows-refl : (a : App Name) → Grows a a
  Grows-refl a = record { keeps_listed = λ l. l; keeps_tasks = λ n c. c; keeps_priority = λ n c. c }

  Grows-trans : (a b c : App Name) → Grows a b → Grows b c → Grows a c
  Grows-trans a b c x y = record {
    keeps_listed = λ l. y.keeps_listed (x.keeps_listed l);
    keeps_tasks = λ n e. y.keeps_tasks n (x.keeps_tasks n e);
    keeps_priority = λ n e. y.keeps_priority n (x.keeps_priority n e);
  }

  contains_new : (n : Name) (p : Entry) (d : Dict Name Entry) → contains n (emplace n p d) ≡ true
  contains_new n p d = rw contains-emplace (ground (arith, names.same_refl n))

  contains_old :
      (m n : Name) (p : Entry) (d : Dict Name Entry)
      → contains m d ≡ true
      → contains m (emplace n p d) ≡ true
  contains_old m n p d e = rw contains-emplace (ground arith)

  -- A pool under a new name, that the lifecycle took.
  grown :
      (n : Name) (p : Entry) (a : App Name)
      → contains n a.task_pools ≡ false
      → (register (some p) (record a { task_pools = emplace n p a.task_pools })).0 ≡ none
      → let b = (register (some p) (record a { task_pools = emplace n p a.task_pools })).1 in
        Grows a b × (contains n b.task_pools ≡ true)
  grown n p a c e =
      let x = register_adds p (record a { task_pools = emplace n p a.task_pools }) e in
      subst (λ b. Grows a b × (contains n b.task_pools ≡ true)) (sym x.0)
        (
          record {
            keeps_listed = λ l.
                subst
                  (λ es.
                    AllListed (emplace n p a.task_pools) es × AllListed a.priority_task_pools es)
                  (sym x.1)
                  (
                    emplace-AllListed n p a.task_pools a.lifecycle.entries c l.0,
                    AllListed-append a.priority_task_pools a.lifecycle.entries (p ∷ []) l.1,
                  );
            keeps_tasks = λ m h. contains_old m n p a.task_pools h;
            keeps_priority = λ m h. h;
          },
          contains_new n p a.task_pools,
        )

  grown_priority :
      (n : Name) (p : Entry) (a : App Name)
      → contains n a.priority_task_pools ≡ false
      → (register (some p) (record a { priority_task_pools = emplace n p a.priority_task_pools })).0
        ≡ none
      → let b =
          (register
            (some p)
            (record a { priority_task_pools = emplace n p a.priority_task_pools })).1 in
        Grows a b × (contains n b.priority_task_pools ≡ true)
  grown_priority n p a c e =
      let x =
        register_adds p (record a { priority_task_pools = emplace n p a.priority_task_pools }) e in
      subst (λ b. Grows a b × (contains n b.priority_task_pools ≡ true)) (sym x.0)
        (
          record {
            keeps_listed = λ l.
                subst
                  (λ es.
                    AllListed a.task_pools es × AllListed (emplace n p a.priority_task_pools) es)
                  (sym x.1)
                  (
                    AllListed-append a.task_pools a.lifecycle.entries (p ∷ []) l.0,
                    emplace-AllListed n p a.priority_task_pools a.lifecycle.entries c l.1,
                  );
            keeps_tasks = λ m h. h;
            keeps_priority = λ m h. contains_old m n p a.priority_task_pools h;
          },
          contains_new n p a.priority_task_pools,
        )

  -- A name, where there is one, has its pool.
  abbrev pub has_task_pool : App Name → Option Name → Bool
  has_task_pool a none = true
  has_task_pool a (some n) = contains n a.task_pools

  abbrev pub has_priority_task_pool : App Name → Option (Name × ℤ) → Bool
  has_priority_task_pool a none = true
  has_priority_task_pool a (some (n, priority)) = contains n a.priority_task_pools

  -- A link, where it has semantics, has the pools that these name.
  abbrev pub is_served : App Name → Option (CallSemantics Name) → Bool
  is_served a none = true
  is_served a (some s) =
      has_task_pool a s.task_pool && has_priority_task_pool a s.priority_task_pool

  keeps_served :
      (a b : App Name) (s : Option (CallSemantics Name))
      → Grows a b
      → is_served a s ≡ true
      → is_served b s ≡ true
  keeps_served a b none g e = refl
  keeps_served a b (some s) g e =
      let (t, p) : (has_task_pool a s.task_pool ≡ true)
          × (has_priority_task_pool a s.priority_task_pool ≡ true) =
        (ground arith, ground arith) in
      rw (tasks s.task_pool t, priorities s.priority_task_pool p) refl
    where
      tasks : (n : Option Name) → has_task_pool a n ≡ true → has_task_pool b n ≡ true
      tasks none h = refl
      tasks (some n) h = g.keeps_tasks n h

      priorities :
          (n : Option (Name × ℤ))
          → has_priority_task_pool a n ≡ true
          → has_priority_task_pool b n ≡ true
      priorities none h = refl
      priorities (some (n, x)) h = g.keeps_priority n h

module _ {Name : Type 0} ⦃names : Key Name⦄ (is_empty : Name → Bool) where
  ensure_task_pool-Grows :
      (n : Option Name) (a : App Name)
      → (ensure_task_pool is_empty n a).0 ≡ none
      → let b = (ensure_task_pool is_empty n a).1 in Grows a b × (has_task_pool b n ≡ true)
  unfolding ensure_task_pool register_task_pool
  ensure_task_pool-Grows none a = λ _. (Grows-refl a, refl)
  ensure_task_pool-Grows (some n) a =
      let P : Outcome Name → Type 0 =
        λ r. r.0 ≡ none → Grows a r.1 × (contains n r.1.task_pools ≡ true) in
      if_elim P (is_empty n) (λ _ e. absurd (ground arith))
        λ _.
          if_elim P (contains n a.task_pools) (λ c _. (Grows-refl a, c))
            λ c.
              if_elim P (contains n a.task_pools) (λ d e. absurd (ground arith))
                λ _ e.
                  let (g, h) =
                    grown n (made Lifecycle.task_pool a) (record a { next = a.next + 1 }) c e in
                  (
                    record {
                      keeps_listed = g.keeps_listed;
                      keeps_tasks = g.keeps_tasks;
                      keeps_priority = g.keeps_priority;
                    },
                    h,
                  )

  ensure_priority_task_pool-Grows :
      (n : Option (Name × ℤ)) (a : App Name)
      → (ensure_priority_task_pool is_empty (name_of is_empty n) a).0 ≡ none
      → let b = (ensure_priority_task_pool is_empty (name_of is_empty n) a).1 in
        Grows a b × (has_priority_task_pool b n ≡ true)
  unfolding ensure_priority_task_pool register_priority_task_pool
  ensure_priority_task_pool-Grows none a = λ _. (Grows-refl a, refl)
  ensure_priority_task_pool-Grows (some (n, x)) a =
      let P : Outcome Name → Type 0 =
        λ r. r.0 ≡ none → Grows a r.1 × (contains n r.1.priority_task_pools ≡ true) in
      if_elim P (is_empty n) (λ _ e. absurd (ground arith))
        λ _.
          if_elim P (contains n a.priority_task_pools) (λ c _. (Grows-refl a, c))
            λ c.
              if_elim P (contains n a.priority_task_pools) (λ d e. absurd (ground arith))
                λ _ e.
                  let (g, h) =
                    grown_priority n (made Lifecycle.priority_task_pool a)
                      (record a { next = a.next + 1 }) c e in
                  (
                    record {
                      keeps_listed = g.keeps_listed;
                      keeps_tasks = g.keeps_tasks;
                      keeps_priority = g.keeps_priority;
                    },
                    h,
                  )

  ensure_optional-Grows :
      (s : Option (CallSemantics Name)) (a : App Name)
      → (ensure_optional is_empty s a).0 ≡ none
      → let b = (ensure_optional is_empty s a).1 in Grows a b × (is_served b s ≡ true)
  unfolding ensure_call_semantics
  ensure_optional-Grows none a = λ _. (Grows-refl a, refl)
  ensure_optional-Grows (some s) a =
      let b : App Name = (ensure_task_pool is_empty s.task_pool a).1 in
      and_then_elim
        (λ (r : Outcome Name). r.0 ≡ none → Grows a r.1 × (is_served r.1 (some s) ≡ true))
        (ensure_task_pool is_empty s.task_pool a) _ (λ e h k. absurd (ground arith))
        (λ h k.
          let (g, t) = ensure_task_pool-Grows s.task_pool a h in
          let (x, p) = ensure_priority_task_pool-Grows s.priority_task_pool b k in
          (Grows-trans a b _ g x, rw (keeps_task b _ s.task_pool x t, p) refl))
    where
      keeps_task :
          (b c : App Name) (n : Option Name)
          → Grows b c
          → has_task_pool b n ≡ true
          → has_task_pool c n ≡ true
      keeps_task b c none x e = refl
      keeps_task b c (some n) x e = x.keeps_tasks n e

  ensure_links-Grows :
      (ls : List (Option (CallSemantics Name))) (a : App Name)
      → (ensure_links is_empty ls a).0 ≡ none
      → let b = (ensure_links is_empty ls a).1 in Grows a b × All (λ l. is_served b l ≡ true) ls
  unfolding ensure_links
  ensure_links-Grows [] a = λ _. (Grows-refl a, tt)
  ensure_links-Grows (l ∷ ls) a =
      let b : App Name = (ensure_optional is_empty l a).1 in
      and_then_elim
        (λ (r : Outcome Name).
          r.0 ≡ none → Grows a r.1 × All (λ x. is_served r.1 x ≡ true) (l ∷ ls))
        (ensure_optional is_empty l a) _ (λ e h k. absurd (ground arith))
        (λ h k.
          let (g, s) = ensure_optional-Grows l a h in
          let (x, rest) = ensure_links-Grows ls b k in
          (Grows-trans a b _ g x, (keeps_served b _ l x s, rest)))

  delay_pool-Grows :
      (a : App Name) → (ensure_delay_pool a).0 ≡ none → Grows a (ensure_delay_pool a).1
  unfolding register_delay_pool
  delay_pool-Grows a =
      let P : Outcome Name → Type 0 = λ r. r.0 ≡ none → Grows a r.1 in
      let p = made Lifecycle.delay_pool a in
      if_elim P (is_some a.delays) (λ _ _. Grows-refl a)
        λ _.
          if_elim P (is_some a.delays) (λ _ e. absurd (ground arith))
            λ _ e.
              let x = register_adds p (record a { next = a.next + 1; delays = some p }) e in
              subst (Grows a) (sym x.0) (record {
                keeps_listed = λ l.
                    subst (λ es. AllListed a.task_pools es × AllListed a.priority_task_pools es)
                      (sym x.1)
                      (
                        AllListed-append a.task_pools a.lifecycle.entries (p ∷ []) l.0,
                        AllListed-append a.priority_task_pools a.lifecycle.entries (p ∷ []) l.1,
                      );
                keeps_tasks = λ m h. h;
                keeps_priority = λ m h. h;
              })

  -- Where the lifecycle knows each pool that the service has, a call that ensures the configured pools
  -- and throws nothing leaves it so, and then each pool that the default semantics or a link names is
  -- there.
  pub configured_pools_are_ensured :
      (c : Configured Name) (a : App Name)
      → PoolsAreListed a
      → (ensure_configured_pools is_empty (some c) a).0 ≡ none
      → let b = (ensure_configured_pools is_empty (some c) a).1 in
        PoolsAreListed b
        × (is_served b c.default_call_semantics ≡ true)
        × All (λ l. is_served b l ≡ true) c.links
  unfolding ensure_configured_pools
  configured_pools_are_ensured c a listed_before =
      let b : App Name = (ensure_delay_pool a).1 in
      let d : App Name = (ensure_optional is_empty c.default_call_semantics b).1 in
      let P : Outcome Name → Type 0 = λ r.
        r.0 ≡ none
        → PoolsAreListed r.1
          × (is_served r.1 c.default_call_semantics ≡ true)
          × All (λ l. is_served r.1 l ≡ true) c.links in
      and_then_elim P (ensure_delay_pool a) _ (λ e h k. absurd (ground arith))
        λ h.
          and_then_elim P (ensure_optional is_empty c.default_call_semantics b) _
            (λ e i k. absurd (ground arith))
            λ i k.
              let first = delay_pool-Grows a h in
              let (g, s) = ensure_optional-Grows c.default_call_semantics b i in
              let (x, ls) = ensure_links-Grows c.links d k in
              (
                x.keeps_listed (g.keeps_listed (first.keeps_listed listed_before)),
                keeps_served d _ c.default_call_semantics x s,
                ls,
              )

  -- A pool under a new name that comes after the start is refused by the lifecycle, and the service
  -- keeps the name: a second call finds a pool that nothing will start.
  pub late_pool_is_kept :
      (name : Name) (a : App Name)
      → is_empty name ≡ false
      → contains name a.task_pools ≡ false
      → is_created a.lifecycle.state ≡ false
      → let r = ensure_task_pool is_empty (some name) a in
        (r.0 ≡ some (of_lifecycle not_created))
        × (r.1.lifecycle.entries ≡ a.lifecycle.entries)
        × ((ensure_task_pool is_empty (some name) r.1).0 ≡ none)
        × (find name r.1.task_pools ≡ some (made Lifecycle.task_pool a))
  unfolding ensure_task_pool register_task_pool register Lifecycle.add emplace find
  late_pool_is_kept name a e c s = rw (e, c, s, names.same_refl name) (refl, refl, refl, refl)
