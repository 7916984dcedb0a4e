-- ===== src/Store/HashJoin/Frame.antt =====
-- runtime/store/hashmap.hpp: what arming and cancelling leave alone.
use cppservicelib.Prelude.{
  ℕ, ◌≡◌, refl, ◌∙◌, inl, inr, Bool, true, false, not, ◌&&◌, List, Option, some, if◌then◌else◌, leb,
  length, length-set, get_or-modify, Bool-cases, max,
}
use cppservicelib.Dict.{Key}
use cppservicelib.Store.{is_running}
use cppservicelib.Store.HashJoin.{
  Values, JoinFunction, Item, Timer, HashJoin, Context, item_at, no_item,
}
use cppservicelib.Store.HashJoin.Items.{
  Spawns, with_item, schedule_expiry_now, cancel_requested, arm_expiry, keeps_timers,
}

-- The fields that decide what a later call sees; the others only serve to arm timers.
abbrev pub core : {V : Type 0} → Item V → Values V × Option ℕ × Bool × ℕ × JoinFunction V
core i = (i.values, i.deadline, i.processed, i.generation, i.on_expire)

module _ {K V : Type 0} where
  pub record Frame (s t : HashJoin K V) : Type 0 where
    pub ttl : t.ttl ≡ s.ttl
    pub renew_ttl : t.renew_ttl ≡ s.renew_ttl
    pub state : t.state ≡ s.state
    pub active : t.active_operations ≡ s.active_operations
    pub current : t.current ≡ s.current
    pub previous : t.previous ≡ s.previous
    pub count : t.count ≡ s.count
    pub log : t.log ≡ s.log
    pub length_items : length t.items ≡ length s.items
    pub cores : (j : ℕ) → core (item_at j t) ≡ core (item_at j s)

  pub Frame-refl : (s : HashJoin K V) → Frame s s
  Frame-refl s = record {
    ttl = refl;
    renew_ttl = refl;
    state = refl;
    active = refl;
    current = refl;
    previous = refl;
    count = refl;
    log = refl;
    length_items = refl;
    cores = λ j. refl;
  }

  pub Frame-trans : {s t u : HashJoin K V} → Frame s t → Frame t u → Frame s u
  Frame-trans f g = record {
    ttl = g.ttl ∙ f.ttl;
    renew_ttl = g.renew_ttl ∙ f.renew_ttl;
    state = g.state ∙ f.state;
    active = g.active ∙ f.active;
    current = g.current ∙ f.current;
    previous = g.previous ∙ f.previous;
    count = g.count ∙ f.count;
    log = g.log ∙ f.log;
    length_items = g.length_items ∙ f.length_items;
    cores = λ j. g.cores j ∙ f.cores j;
  }

module _ {K V : Type 0} ⦃key : Key K⦄ where
  pub with_item-Frame :
      (f : Item V → Item V)
      → ((i : Item V) → core (f i) ≡ core i)
      → (id : ℕ) (s : HashJoin K V) → Frame s (with_item id (f (item_at id s)) s)
  unfolding with_item
  with_item-Frame f same id s = record {
    ttl = refl;
    renew_ttl = refl;
    state = refl;
    active = refl;
    current = refl;
    previous = refl;
    count = refl;
    log = refl;
    length_items = length-set s.items id (f (item_at id s));
    cores = λ j.
        get_or-modify (λ i. core i ≡ core (item_at j s)) f no_item (λ i e. same i ∙ e) s.items id j
          refl;
  }

  timer-Frame : (ts : List (Timer K)) (s : HashJoin K V) → Frame s (record s { timers = ts })
  timer-Frame ts s = record {
    ttl = refl;
    renew_ttl = refl;
    state = refl;
    active = refl;
    current = refl;
    previous = refl;
    count = refl;
    log = refl;
    length_items = refl;
    cores = λ j. refl;
  }

  pub schedule_expiry_now-Frame :
      (k : K) (id generation : ℕ) (spawned : Bool) (s : HashJoin K V)
      → Frame s (schedule_expiry_now k id generation spawned s)
  unfolding schedule_expiry_now
  schedule_expiry_now-Frame k id generation spawned s =
      elim (Bool-cases (is_running s.state && spawned)) [
        | inl e ↦ rw e (timer-Frame _ s)
        | inr e ↦ rw e (Frame-refl s)
      ]

  schedule_if-Frame :
      (b : Bool) (k : K) (id generation : ℕ) (spawned : Bool) (s : HashJoin K V)
      → Frame s (if b then schedule_expiry_now k id generation spawned s else s)
  schedule_if-Frame true k id generation spawned s =
      schedule_expiry_now-Frame k id generation spawned s
  schedule_if-Frame false k id generation spawned s = Frame-refl s

  pub cancel_requested-Frame :
      (k : K) (id generation : ℕ) (spawned : Bool) (s : HashJoin K V)
      → Frame s (cancel_requested k id generation spawned s)
  unfolding cancel_requested
  cancel_requested-Frame k id generation spawned s =
      Frame-trans
        (with_item-Frame
          (λ i. record i { cancelled_generation = max i.cancelled_generation generation })
          (λ i. refl) id s)
        (schedule_if-Frame (leb generation (item_at id s).armed_generation) k id generation spawned
          _)

  registered-Frame :
      (b : Bool) (k : K) (id generation : ℕ) (spawned : Bool) (s : HashJoin K V)
      → let t = with_item id (record (item_at id s) { cancel_callback = some generation }) s in
        Frame s (if b then cancel_requested k id generation spawned t else t)
  registered-Frame true k id generation spawned s =
      Frame-trans
        (with_item-Frame (λ i. record i { cancel_callback = some generation }) (λ i. refl) id s)
        (cancel_requested-Frame k id generation spawned _)
  registered-Frame false k id generation spawned s =
      with_item-Frame (λ i. record i { cancel_callback = some generation }) (λ i. refl) id s

  -- Arming, also where it throws, changes nothing that a call can see.
  pub arm_expiry-Frame :
      (k : K) (id : ℕ) (ctx : Context) (generation deadline : ℕ) (spawns : Spawns)
      (s : HashJoin K V)
      → Frame s (arm_expiry k id ctx generation deadline spawns s).1
  unfolding arm_expiry
  arm_expiry-Frame k id ctx generation deadline spawns s =
      let registered = registered-Frame ctx.cancelled k id generation spawns.at_once s in
      elim (Bool-cases (not (keeps_timers s.state))) [
        | inl e ↦ rw e registered
        | inr e ↦ elim (Bool-cases (not spawns.timer)) [
          | inl f ↦ rw (e, f) registered
          | inr f ↦
              rw (e, f)
                (Frame-trans registered (
                  Frame-trans (timer-Frame _ _) (
                    Frame-trans
                      (with_item-Frame (λ i. record i { armed_generation = generation }) (λ i. refl)
                        id _)
                      (schedule_if-Frame _ k id generation spawns.at_once _))))
        ]
      ]
