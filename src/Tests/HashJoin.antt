-- ===== src/Tests/HashJoin.antt =====
-- The join storage at small inputs: two inputs that meet, and one that expires.
use cppservicelib.Prelude.{ℕ, ◌≡◌, refl, Bool, true, false, List, [], ◌∷◌, none, pos, ◌&&◌}
use cppservicelib.Dict.{find, emplace, erase}
use cppservicelib.Tests.Keys.{nat_key}
use cppservicelib.Store.{State}
use cppservicelib.Store.HashJoin.{
  Values, JoinFunction, joined, expired, HashJoin, Context, find_item, saturated_add,
}
use cppservicelib.Store.HashJoin.Items.{arm_expiry, remove_if_same, expire_item, with_item}
use cppservicelib.Store.HashJoin.Join.{
  join_value, join_loop, enter_operation, leave_operation, work, settle, insert_item, publish,
  enter_published, enter_new, enter_found, accept, after_first_arming, push_value, Round,
  effective_ttl, deadline_from,
}

abbrev storage : HashJoin ℕ ℕ
storage = record {
  ttl = pos 10;
  renew_ttl = false;
  state = State.running;
  items = [];
  current = [];
  previous = [];
  count = 0;
  high_water_mark = 0;
  active_operations = 0;
  rotation_live = true;
  timers = [];
  log = [];
}

abbrev is_filled : List ℕ → Bool
is_filled [] = false
is_filled (_ ∷ _) = true

abbrev complete : Values ℕ → Bool
complete (left ∷ right ∷ _) = is_filled left && is_filled right
complete _ = false

-- Done when both inputs have a value.
abbrev pub both : JoinFunction ℕ
both vs = (complete vs, vs)

abbrev pub plain : Context
plain = record { deadline = none; cancelled = false }

abbrev pub at_time : ℕ → Round
at_time t = record { made_at = t; now = t; spawns = record { timer = true; at_once = true } }

abbrev left_at : ℕ → HashJoin ℕ ℕ → HashJoin ℕ ℕ
left_at t s = let r = at_time t in (join_value 7 0 41 both plain t (r ∷ r ∷ []) s).1

abbrev right_at : ℕ → HashJoin ℕ ℕ → HashJoin ℕ ℕ
right_at t s = let r = at_time t in (join_value 7 1 42 both plain t (r ∷ r ∷ []) s).1

meets :
    ((right_at 5 (left_at 1 storage)).log
      ≡ joined 0 ((41 ∷ []) ∷ (42 ∷ []) ∷ []) true ∷ joined 0 ((41 ∷ []) ∷ []) false ∷ [])
    × ((right_at 5 (left_at 1 storage)).count ≡ 0)
unfolding join_value join_loop enter_operation leave_operation work settle insert_item publish
    enter_published enter_new enter_found accept push_value effective_ttl deadline_from
    saturated_add find emplace erase find_item arm_expiry remove_if_same expire_item with_item
    after_first_arming
meets = (refl, refl)

late :
    (right_at 12 (left_at 1 storage)).log
    ≡ joined 1 ([] ∷ (42 ∷ []) ∷ []) false
      ∷ expired 0 ((41 ∷ []) ∷ [])
      ∷ joined 0 ((41 ∷ []) ∷ []) false
      ∷ []
unfolding join_value join_loop enter_operation leave_operation work settle insert_item publish
    enter_published enter_new enter_found accept push_value effective_ttl deadline_from
    saturated_add find emplace erase find_item arm_expiry remove_if_same expire_item with_item
    after_first_arming
late = refl
