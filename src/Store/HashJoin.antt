-- ===== src/Store/HashJoin.antt =====
-- runtime/store/hashmap.hpp, its state: items on a heap, named by the two generations of the map.
-- A `std::shared_ptr<Item>` is an index into `items`; an item is never freed, so a `weak_ptr` that
-- would be empty leads to an item that is already processed. `log` records the calls of the
-- callbacks, newest first, and is no part of the code.
pub mod Items
pub mod Frame
pub mod Join
pub mod Invariant
pub mod Maps
pub mod Sections
pub mod Turns
pub mod Spared
pub mod Schedule
pub mod Runs
pub mod Loop
use cppservicelib.Prelude.{
  ℕ, ◌+◌, ◌-◌, ◌^◌, Bool, true, false, List, [], Option, none, some, leb, ◌==◌, if◌then◌else◌, ℤ,
  pos, negsuc, get_or,
}
use cppservicelib.Dict.{Key, Dict, find}
use cppservicelib.Store.{State}

abbrev pub Values : Type 0 → Type 0
Values V = List (List V)

-- `JoinValueFunction`: the answer, and what it leaves in the values. By its contract it throws
-- nothing.
abbrev pub JoinFunction : Type 0 → Type 0
JoinFunction V = Values V → Bool × Values V

pub record Item (V : Type 0) : Type 0 where
  pub values : Values V
  pub deadline : Option ℕ
  pub processed : Bool
  pub generation : ℕ
  pub armed_generation : ℕ
  pub cancelled_generation : ℕ
  pub on_expire : JoinFunction V
  -- the generation that the stop callback was registered with
  pub cancel_callback : Option ℕ

-- A detached task that calls `expire` at `due`.
pub record Timer (K : Type 0) : Type 0 where
  pub key : K
  pub item : ℕ
  pub generation : ℕ
  pub due : ℕ

pub data Event (V : Type 0) : Type 0 where
  -- the callback of `joinValue` ran on these values, and gave this answer
  joined : ℕ → Values V → Bool → Event V
  -- the callback for expiry ran on these values
  expired : ℕ → Values V → Event V

pub record HashJoin (K V : Type 0) : Type 0 where
  pub ttl : ℤ
  pub renew_ttl : Bool
  pub state : State
  pub items : List (Item V)
  pub current : Dict K ℕ
  pub previous : Dict K ℕ
  pub count : ℕ
  pub high_water_mark : ℕ
  pub active_operations : ℕ
  pub rotation_live : Bool
  pub timers : List (Timer K)
  pub log : List (Event V)

-- The deadline and the stop tokens of a call, as it finds them.
pub record Context : Type 0 where
  pub deadline : Option ℕ
  pub cancelled : Bool

-- `time_point::max()`, in ticks of a 64-bit count.
abbrev pub time_max : ℕ
time_max = 2 ^ 63 - 1

unfoldable pub saturated_add : ℕ → ℤ → ℕ
saturated_add now (negsuc n) = now
saturated_add now (pos ttl) =
    if ttl == 0 then now else if leb (time_max - now) ttl then time_max else now + ttl

-- What `items` gives for an index out of range, which no section reaches.
abbrev pub no_item : {V : Type 0} → Item V
no_item = record {
  values = [];
  deadline = none;
  processed = true;
  generation = 0;
  armed_generation = 0;
  cancelled_generation = 0;
  on_expire = λ vs. (true, vs);
  cancel_callback = none;
}

abbrev pub item_at : {K V : Type 0} → ℕ → HashJoin K V → Item V
item_at id s = get_or s.items id no_item

-- `findItemLocked`
unfoldable pub find_item : {K V : Type 0} ⦃key : Key K⦄ → K → HashJoin K V → Option ℕ
find_item k s = elim (find k s.current) [ some id ↦ some id | none ↦ find k s.previous ]

-- The constructor.
abbrev pub fresh : {K V : Type 0} → ℤ → Bool → HashJoin K V
fresh ttl renew_ttl = record {
  ttl = ttl;
  renew_ttl = renew_ttl;
  state = State.created;
  items = [];
  current = [];
  previous = [];
  count = 0;
  high_water_mark = 0;
  active_operations = 0;
  rotation_live = false;
  timers = [];
  log = [];
}
