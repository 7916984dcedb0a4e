-- ===== src/Store/HashJoin/Join.antt =====
-- runtime/store/hashmap.hpp: `joinValue`, `start` and `stop`.
use cppservicelib.Prelude.{
  ℕ, zero, suc, ◌+◌, ◌-◌, Bool, true, false, ◌&&◌, List, [], ◌∷◌, ◌++◌, Option, none, some, leb,
  if◌then◌else◌, length, replicate, ℤ, sub_ℕ, is_positive,
}
use cppservicelib.Dict.{Key, Dict, find, emplace, erase, assign}
use cppservicelib.Store.{
  Error, Result, ok, err, already_started, stopped_error, not_started, spawn_failed, created,
  running, stopping, stopped, failed,
}
use cppservicelib.Store.HashJoin.{
  Values, JoinFunction, Item, joined, HashJoin, Context, saturated_add, item_at, find_item,
}
use cppservicelib.Store.HashJoin.Items.{
  Spawns, with_item, arm_expiry, remove_if_same, expire_item, is_id,
}

-- What the clock shows when the item is made, and under the item's lock; what the engine can do.
pub record Round : Type 0 where
  pub made_at : ℕ
  pub now : ℕ
  pub spawns : Spawns

-- The arguments of `joinValue` that stay the same in its loop, and `ttl` of the call.
pub record Request (K V : Type 0) : Type 0 where
  pub key : K
  pub index : ℕ
  pub value : V
  pub callback : JoinFunction V
  pub context : Context
  pub ttl : ℤ

-- Where a turn of the loop leaves the caller: the item is to be removed first, if there is one.
pub data Next : Type 0 where
  -- `continue`, after removing the item
  again : ℕ → Next
  -- `return`, after removing the item
  finished : ℕ → Next
  -- `return`, the item stays
  kept : Next
  -- rethrown, after removing an item that is not armed
  thrown : Error → Next
  undone : ℕ → Error → Next

-- `contextDeadline.has_value() ? *contextDeadline - now : config_.ttl`
unfoldable pub effective_ttl : ℤ → Context → ℕ → ℤ
effective_ttl ttl ctx now = elim ctx.deadline [ some d ↦ sub_ℕ d now | none ↦ ttl ]

unfoldable pub deadline_from : Context → ℤ → ℕ → ℕ
deadline_from ctx ttl now = elim ctx.deadline [ some d ↦ d | none ↦ saturated_add now ttl ]

-- `if (values.size() <= index) values.resize(index + 1); values[index].push_back(value);`
unfoldable pub push_value : {V : Type 0} → ℕ → V → Values V → Values V
push_value zero v [] = (v ∷ []) ∷ []
push_value zero v (vs ∷ vss) = (vs ++ v ∷ []) ∷ vss
push_value (suc i) v [] = [] ∷ push_value i v []
push_value (suc i) v (vs ∷ vss) = vs ∷ push_value i v vss

abbrev pub is_past : Option ℕ → ℕ → Bool
is_past none now = false
is_past (some deadline) now = leb deadline now

module _ {K V : Type 0} ⦃key : Key K⦄ where
  new_item : Request K V → ℕ → Item V
  new_item r made_at = record {
    values = replicate (suc r.index) [];
    deadline = if is_positive r.ttl then some (deadline_from r.context r.ttl made_at) else none;
    processed = false;
    generation = 0;
    armed_generation = 0;
    cancelled_generation = 0;
    on_expire = r.callback;
    cancel_callback = none;
  }

  -- The candidate is published, under a key that has no item.
  unfoldable pub insert_item : Request K V → ℕ → HashJoin K V → ℕ × HashJoin K V
  unfolding new_item
  insert_item r made_at s =
      let id = length s.items in
      (
        id,
        record s {
          items = s.items ++ new_item r made_at ∷ [];
          current = emplace r.key id s.current;
          count = s.count + 1;
        },
      )

  -- The section under `mu_` after a lookup that found nothing: the key is looked up again, and the
  -- candidate is published unless it has an item by now. The flag is `newlyInserted`.
  unfoldable pub publish : Request K V → ℕ → HashJoin K V → (Bool × ℕ) × HashJoin K V
  publish r made_at s = elim (find_item r.key s) [
    | some existing ↦ ((false, existing), s)
    | none ↦ let (id, t) = insert_item r made_at s in ((true, id), t)
  ]

  -- The last part under the item's lock: the value, and the callback on all values.
  unfoldable pub accept : ℕ → Request K V → HashJoin K V → Next × HashJoin K V
  accept id r s =
      let item = item_at id s in
      let given = push_value r.index r.value item.values in
      let (done, left) = r.callback given in
      let t =
        with_item id
          (record item {
            values = left;
            processed = done;
            generation = if done then item.generation + 1 else item.generation;
            cancel_callback = if done then none else item.cancel_callback;
          })
          s in
      (if done then finished id else kept, record t { log = joined id given done ∷ s.log })

  -- A renewed item moves to the current generation.
  unfoldable pub move_to_current : K → ℕ → HashJoin K V → HashJoin K V
  move_to_current k id s =
      if is_id (find k s.previous) id
      then record s { previous = erase k s.previous; current = assign k id s.current }
      else s

  -- After arming a renewal; where that threw, the item gets its old fields back.
  unfoldable pub after_arming :
      K → ℕ → Item V → Result (Unit {0}) × HashJoin K V → Result (Unit {0}) × HashJoin K V
  after_arming k id old (ok _, t) = (ok tt, move_to_current k id t)
  after_arming k id old (err e, t) = (
    err e,
    with_item id
        (record (item_at id t) {
          cancel_callback = none;
          deadline = old.deadline;
          generation = old.generation;
          armed_generation = old.armed_generation;
          cancelled_generation = old.cancelled_generation;
        })
        t,
  )

  -- The renewal of the deadline.
  unfoldable pub renew : ℕ → Request K V → Round → HashJoin K V → Result (Unit {0}) × HashJoin K V
  renew id r round s =
      let item = item_at id s in
      let deadline = deadline_from r.context r.ttl round.now in
      let t =
        with_item id
          (record item {
            deadline = some deadline;
            generation = item.generation + 1;
            cancel_callback = none;
          })
          s in
      after_arming r.key id item
        (arm_expiry r.key id r.context (item.generation + 1) deadline round.spawns t)

  -- After arming an item that this call made; where that threw, no value was taken.
  unfoldable pub after_first_arming :
      ℕ → Request K V → Result (Unit {0}) × HashJoin K V → Next × HashJoin K V
  after_first_arming id r (ok _, t) = accept id r t
  after_first_arming id r (err e, t) = (
    undone id e,
    with_item id (record (item_at id t) { processed = true; cancel_callback = none }) t,
  )

  -- The turn for an item that this call made, under the item's lock since before it was published.
  unfoldable pub enter_new : ℕ → Request K V → Round → HashJoin K V → Next × HashJoin K V
  enter_new id r round s = elim (item_at id s).deadline [
    | none ↦ accept id r s
    | some deadline ↦
        let generation = (item_at id s).generation + 1 in
        let t = with_item id (record (item_at id s) { generation = generation }) s in
        after_first_arming id r (arm_expiry r.key id r.context generation deadline round.spawns t)
  ]

  unfoldable pub after_renewal :
      ℕ → Request K V → Result (Unit {0}) × HashJoin K V → Next × HashJoin K V
  after_renewal id r (ok _, t) = accept id r t
  after_renewal id r (err e, t) = (thrown e, t)

  -- The turn for an item that was found in the map.
  unfoldable pub enter_found : ℕ → Request K V → Round → HashJoin K V → Next × HashJoin K V
  enter_found id r round s =
      let item = item_at id s in
      if item.processed
      then (again id, s)
      else if is_past item.deadline round.now
      then (
        again id,
        expire_item id (with_item id (record item { generation = item.generation + 1 }) s),
      )
      else if is_positive r.ttl && s.renew_ttl
      then after_renewal id r (renew id r round s)
      else accept id r s

  unfoldable pub enter_published :
      Request K V → Round → (Bool × ℕ) × HashJoin K V → Next × HashJoin K V
  enter_published r round ((true, id), t) = enter_new id r round t
  enter_published r round ((false, id), t) = enter_found id r round t

  -- One turn of the loop of a caller that no other disturbs, up to where the item's lock is released:
  -- the lookup, the section under `mu_`, the section under the item's lock.
  unfoldable pub work : Request K V → Round → HashJoin K V → Next × HashJoin K V
  work r round s = elim (find_item r.key s) [
    | some id ↦ enter_found id r round s
    | none ↦ enter_published r round (publish r round.made_at s)
  ]

  -- What follows the lock. `none` goes on with the loop.
  unfoldable pub settle : K → Next → HashJoin K V → Option (Result (Unit {0})) × HashJoin K V
  settle k (again id) s = (none, remove_if_same k id s)
  settle k (finished id) s = (some (ok tt), remove_if_same k id s)
  settle k kept s = (some (ok tt), s)
  settle k (thrown e) s = (some (err e), s)
  settle k (undone id e) s = (some (err e), remove_if_same k id s)

  -- The loop of one caller that no other disturbs; `none` means that the rounds given ran out.
  unfoldable pub join_loop :
      Request K V → List Round → HashJoin K V → Option (Result (Unit {0})) × HashJoin K V
  join_loop r [] s = (none, s)
  join_loop r (round ∷ rounds) s =
      let (next, t) = work r round s in
      let (answer, u) = settle r.key next t in
      elim answer [ some a ↦ (some a, u) | none ↦ join_loop r rounds u ]

  -- `OperationGuard`
  unfoldable pub enter_operation : HashJoin K V → Result (HashJoin K V)
  enter_operation s = elim s.state [
    | running ↦ ok (record s { active_operations = s.active_operations + 1 })
    | stopping ↦ err stopped_error
    | stopped ↦ err stopped_error
    | created ↦ err not_started
    | failed ↦ err not_started
  ]

  unfoldable pub leave_operation : HashJoin K V → HashJoin K V
  leave_operation s = record s { active_operations = s.active_operations - 1 }

  -- `joinValue(ctx, key, index, value, callback)`, called at `now`.
  unfoldable pub join_value :
      K
      → ℕ
      → V
      → JoinFunction V
      → Context
      → ℕ
      → List Round
      → HashJoin K V
      → Option (Result (Unit {0})) × HashJoin K V
  join_value k index value callback ctx now rounds s = elim (enter_operation s) [
    | err e ↦ (some (err e), s)
    | ok t ↦
        let r : Request K V = record {
          key = k;
          index = index;
          value = value;
          callback = callback;
          context = ctx;
          ttl = effective_ttl s.ttl ctx now;
        } in
        let (answer, u) = join_loop r rounds t in (answer, leave_operation u)
  ]

  -- `spawned` says whether the storage of tasks and the rotation task could be made.
  unfoldable pub start : Bool → HashJoin K V → Result (Unit {0}) × HashJoin K V
  start spawned s = elim s.state [
    | created ↦
        if spawned
        then (ok tt, record s { state = running; rotation_live = is_positive s.ttl })
        else (err spawn_failed, record s { state = failed })
    | running ↦ (err already_started, s)
    | failed ↦ (err already_started, s)
    | stopping ↦ (err stopped_error, s)
    | stopped ↦ (err stopped_error, s)
  ]

  -- The first section of `stop`: the flag says whether this call owns the stop.
  unfoldable pub begin_stop : HashJoin K V → Bool × HashJoin K V
  begin_stop s = elim s.state [
    | stopped ↦ (false, s)
    | stopping ↦ (false, s)
    | created ↦ (true, record s { state = stopping })
    | running ↦ (true, record s { state = stopping })
    | failed ↦ (true, record s { state = stopping })
  ]

  -- `item->cancelCallback.reset()` for the items of a generation.
  unfoldable pub reset_callbacks : Dict K ℕ → HashJoin K V → HashJoin K V
  reset_callbacks [] s = s
  reset_callbacks (e ∷ d) s =
      reset_callbacks d (with_item e.1 (record (item_at e.1 s) { cancel_callback = none }) s)

  -- What the owner does once no operation is active: no callback, timer or rotation is left when
  -- the maps are cleared.
  unfoldable pub finish_stop : HashJoin K V → HashJoin K V
  finish_stop s =
      let t = reset_callbacks s.previous (reset_callbacks s.current s) in
      record t {
        rotation_live = false;
        timers = [];
        current = [];
        previous = [];
        count = 0;
        state = stopped;
      }
