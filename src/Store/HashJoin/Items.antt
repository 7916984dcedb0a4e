-- ===== src/Store/HashJoin/Items.antt =====
-- runtime/store/hashmap.hpp: the sections that arm, expire and remove an item, and the rotation.
use cppservicelib.Prelude.{
  ℕ, ◌+◌, ◌-◌, ◌/◌, max, Bool, true, false, not, ◌&&◌, ◌||◌, [], ◌∷◌, Option, none, some, ltb, leb,
  ◌==◌, if◌then◌else◌, length, set,
}
use cppservicelib.Dict.{Key, find, erase, merge}
use cppservicelib.Store.{
  Result, ok, err, stopped_error, spawn_failed, State, running, stopping, is_running,
}
use cppservicelib.Store.HashJoin.{Item, expired, HashJoin, Context, item_at}

-- Whether the engine could detach the timer task, and the task that expires the item at once.
pub record Spawns : Type 0 where
  pub timer : Bool
  pub at_once : Bool

-- An operation that was admitted still arms its timers while the storage stops.
abbrev pub keeps_timers : State → Bool
keeps_timers running = true
keeps_timers stopping = true
keeps_timers _ = false

-- `it != end() && it->second == item`
abbrev pub is_id : Option ℕ → ℕ → Bool
is_id (some j) id = j == id
is_id none id = false

module _ {K V : Type 0} ⦃key : Key K⦄ where
  unfoldable pub with_item : ℕ → Item V → HashJoin K V → HashJoin K V
  with_item id item s = record s { items = set s.items id item }

  -- `scheduleExpiryNow`: a failure to spawn is swallowed.
  unfoldable pub schedule_expiry_now : K → ℕ → ℕ → Bool → HashJoin K V → HashJoin K V
  schedule_expiry_now k id generation spawned s =
      if is_running s.state && spawned
      then record s {
        timers = record { key = k; item = id; generation = generation; due = 0 } ∷ s.timers;
      }
      else s

  -- The body of the stop callback, with `publishMax`.
  unfoldable pub cancel_requested : K → ℕ → ℕ → Bool → HashJoin K V → HashJoin K V
  cancel_requested k id generation spawned s =
      let item = item_at id s in
      let t =
        with_item id
          (record item { cancelled_generation = max item.cancelled_generation generation }) s in
      if leb generation item.armed_generation
      then schedule_expiry_now k id generation spawned t
      else t

  -- `armExpiryLocked`. The state is given with an exception too, since the caller undoes its part.
  unfoldable pub arm_expiry :
      K → ℕ → Context → ℕ → ℕ → Spawns → HashJoin K V → Result (Unit {0}) × HashJoin K V
  arm_expiry k id ctx generation deadline spawns s =
      let registered =
        with_item id (record (item_at id s) { cancel_callback = some generation }) s in
      let t =
        if ctx.cancelled
        then cancel_requested k id generation spawns.at_once registered
        else registered in
      if not (keeps_timers s.state)
      then (err stopped_error, t)
      else if not spawns.timer
      then (err spawn_failed, t)
      else let timed = record t {
        timers = record { key = k; item = id; generation = generation; due = deadline } ∷ t.timers;
      } in
        let armed =
          with_item id (record (item_at id timed) { armed_generation = generation }) timed in
        (
          ok tt,
          if leb generation (item_at id armed).cancelled_generation
              then schedule_expiry_now k id generation spawns.at_once armed
              else armed,
        )

  -- `removeIfSame`
  unfoldable pub remove_if_same : K → ℕ → HashJoin K V → HashJoin K V
  remove_if_same k id s =
      if is_id (find k s.current) id
      then record s { current = erase k s.current; count = s.count - 1 }
      else if is_id (find k s.previous) id
      then record s { previous = erase k s.previous; count = s.count - 1 }
      else s

  -- The item is done, and its callback for expiry runs once its lock is released. Nothing changes
  -- the values of a processed item, so the call may be taken here.
  unfoldable pub expire_item : ℕ → HashJoin K V → HashJoin K V
  expire_item id s =
      let item = item_at id s in
      let done = record item {
        processed = true;
        values = (item.on_expire item.values).1;
        cancel_callback = none;
      } in
      record (with_item id done s) { log = expired id item.values ∷ s.log }

  -- `expire`, up to the removal.
  unfoldable pub expire : ℕ → ℕ → HashJoin K V → HashJoin K V
  expire id generation s =
      let item = item_at id s in
      if item.processed || not (item.generation == generation) then s else expire_item id s

  unfoldable pub rotation_due : HashJoin K V → Bool
  rotation_due s =
      s.high_water_mark == 0
      || ltb (length s.current + length s.previous) ((s.high_water_mark + 4 - 1) / 4)

  -- How many entries `try_emplace` takes over from `previous_`.
  unfoldable pub rescued : HashJoin K V → ℕ
  rescued s = length (merge s.current s.previous) - length s.current

  unfoldable pub rotate : HashJoin K V → HashJoin K V
  unfolding rotation_due rescued
  rotate s =
      let total = length s.current + length s.previous in
      if not (is_running s.state)
      then s
      else if not (rotation_due s)
      then record s { high_water_mark = max s.high_water_mark total }
      else record s {
        high_water_mark = total;
        previous = merge s.current s.previous;
        current = [];
        count = s.count - (length s.previous - rescued s);
      }
