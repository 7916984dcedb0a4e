-- ===== src/Store/HashJoin/Maps.antt =====
-- runtime/store/hashmap.hpp: the two generations under removal, insertion, renewal and rotation.
use cppservicelib.Prelude.{ℕ, ◌+◌, ◌≡◌, sym, ◌∙◌, ◌&&◌, none, some, if◌then◌else◌, length, arith}
use cppservicelib.Dict.{Key, find, merge}
use cppservicelib.Dict.Laws.{
  find_congr, find-erase, find-assign, find-merge, erase-Unique, assign-Unique, merge-Unique,
  length-assign, length-erase, length-merge,
}
use cppservicelib.Store.HashJoin.{HashJoin, find_item}
use cppservicelib.Store.HashJoin.Items.{remove_if_same, is_id, rotate}
use cppservicelib.Store.HashJoin.Join.{move_to_current}
use cppservicelib.Store.HashJoin.Invariant.{MapsAreValid}

module _ {K V : Type 0} ⦃key : Key K⦄ where
  -- What a removal leaves to be found.
  pub find_item-remove_if_same :
      (q k : K) (id : ℕ) (s : HashJoin K V)
      → MapsAreValid s
      → find_item q (remove_if_same k id s)
        ≡ (if key.same q k && is_id (find_item k s) id then none else find_item q s)
  unfolding find_item remove_if_same
  find_item-remove_if_same q k id s v = ground (
    arith,
    find-erase q k s.current v.current_once,
    find-erase q k s.previous v.previous_once,
    v.apart k,
    v.apart q,
    find_congr q k s.current,
    find_congr q k s.previous,
  )

  -- A removal leaves the items, the calls and the lifecycle alone.
  pub remove_if_same-rest :
      (k : K) (id : ℕ) (s : HashJoin K V)
      → let t = remove_if_same k id s in
        (t.items ≡ s.items)
        × (t.log ≡ s.log)
        × (t.state ≡ s.state)
        × (t.active_operations ≡ s.active_operations)
  unfolding remove_if_same
  remove_if_same-rest k id s = ground arith

  pub remove_if_same-MapsAreValid :
      (k : K) (id : ℕ) (s : HashJoin K V) → MapsAreValid s → MapsAreValid (remove_if_same k id s)
  unfolding remove_if_same
  remove_if_same-MapsAreValid k id s v = record {
    current_once = ground (arith, v.current_once, erase-Unique k s.current v.current_once);
    previous_once = ground (arith, v.previous_once, erase-Unique k s.previous v.previous_once);
    apart = λ q. ground (
      arith,
      v.apart q,
      find-erase q k s.current v.current_once,
      find-erase q k s.previous v.previous_once,
    );
    counted = ground (arith, v.counted, length-erase k s.current, length-erase k s.previous);
    known = λ q j e.
        rw ((remove_if_same-rest k id s).0)
          (v.known q j (found_before q j (find_item-remove_if_same q k id s v) e));
  }
    where
      found_before :
          (q : K) (j : ℕ)
          → find_item q (remove_if_same k id s)
            ≡ (if key.same q k && is_id (find_item k s) id then none else find_item q s)
          → find_item q (remove_if_same k id s) ≡ some j
          → find_item q s ≡ some j
      found_before q j e f = ground arith

  -- A renewed item is found as before.
  pub find_item-move_to_current :
      (q k : K) (id : ℕ) (s : HashJoin K V)
      → MapsAreValid s
      → find_item q (move_to_current k id s) ≡ find_item q s
  unfolding find_item move_to_current
  find_item-move_to_current q k id s v = ground (
    arith,
    find-erase q k s.previous v.previous_once,
    find-assign q k id s.current v.current_once,
    v.apart k,
    v.apart q,
    find_congr q k s.current,
    find_congr q k s.previous,
  )

  pub move_to_current-rest :
      (k : K) (id : ℕ) (s : HashJoin K V)
      → let t = move_to_current k id s in
        (t.items ≡ s.items)
        × (t.log ≡ s.log)
        × (t.state ≡ s.state)
        × (t.active_operations ≡ s.active_operations)
        × (t.count ≡ s.count)
  unfolding move_to_current
  move_to_current-rest k id s = ground arith

  pub move_to_current-MapsAreValid :
      (k : K) (id : ℕ) (s : HashJoin K V) → MapsAreValid s → MapsAreValid (move_to_current k id s)
  unfolding move_to_current
  move_to_current-MapsAreValid k id s v = record {
    current_once = ground (arith, v.current_once, assign-Unique k id s.current v.current_once);
    previous_once = ground (arith, v.previous_once, erase-Unique k s.previous v.previous_once);
    apart = λ q. ground (
      arith,
      v.apart q,
      v.apart k,
      find-assign q k id s.current v.current_once,
      find-erase q k s.previous v.previous_once,
      find_congr q k s.current,
      find_congr q k s.previous,
    );
    counted =
        ground
          (arith, v.counted, v.apart k, length-erase k s.previous, length-assign k id s.current);
    known = λ q j e.
        rw ((move_to_current-rest k id s).0)
          (v.known q j (sym (find_item-move_to_current q k id s v) ∙ e));
  }

  -- A rotation that was due drops nothing, so it evicts nothing.
  merged_length :
      (s : HashJoin K V)
      → MapsAreValid s
      → length (merge s.current s.previous) ≡ length s.current + length s.previous
  merged_length s v = length-merge s.current s.previous v.previous_once v.apart

  -- A rotation of the generations hides no item: every key finds the item that it found before.
  pub find_item-rotate : (q : K) (s : HashJoin K V) → find_item q (rotate s) ≡ find_item q s
  unfolding find_item rotate find
  find_item-rotate q s = ground (arith, find-merge q s.current s.previous)

  pub rotate-rest :
      (s : HashJoin K V)
      → let t = rotate s in
        (t.items ≡ s.items)
        × (t.log ≡ s.log)
        × (t.state ≡ s.state)
        × (t.active_operations ≡ s.active_operations)
  unfolding rotate
  rotate-rest s = ground arith

  pub rotate-count : (s : HashJoin K V) → MapsAreValid s → (rotate s).count ≡ s.count
  unfolding rotate
  rotate-count s v = ground (arith, merged_length s v)

  pub rotate-MapsAreValid : (s : HashJoin K V) → MapsAreValid s → MapsAreValid (rotate s)
  unfolding rotate find
  rotate-MapsAreValid s v = record {
    current_once = ground (arith, v.current_once);
    previous_once =
        ground (arith, v.previous_once, merge-Unique s.current s.previous v.current_once);
    apart = λ q. ground (arith, v.apart q);
    counted = ground (arith, v.counted, merged_length s v);
    known = λ q j e. rw ((rotate-rest s).0) (v.known q j (sym (find_item-rotate q s) ∙ e));
  }
