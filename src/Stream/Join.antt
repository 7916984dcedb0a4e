-- ===== src/Stream/Join.antt =====
-- operators/join.inl and operators/multijoin.inl: the callbacks that the joins give to their storage. A
-- value is what `std::any_cast` gives for its side.
pub mod Laws
use cppservicelib.Prelude.{ℕ, zero, suc, Bool, true, false, not, ◌&&◌, List, [], ◌∷◌, if◌then◌else◌}
use cppservicelib.Store.HashJoin.{Values, JoinFunction}

-- `JoinTypeEnum`
pub data JoinType : Type 0 where
  inner left right outer : JoinType

-- `canCall`, by `hasLeft` and `hasRight`
abbrev pub can_call : JoinType → Bool → Bool → Bool
can_call inner has_left has_right = has_left && has_right
can_call left has_left has_right = has_left
can_call right has_left has_right = has_right
can_call outer has_left has_right = true

module _ {V : Type 0} where
  -- `values[i]`, empty where there is none
  unfoldable pub side : ℕ → Values V → List V
  side i [] = []
  side zero (vs ∷ vss) = vs
  side (suc i) (vs ∷ vss) = side i vss

  abbrev pub is_empty : List V → Bool
  is_empty [] = true
  is_empty _ = false

  -- The callback of `consumeValue` of a join with the function `f`: it leaves the values alone.
  unfoldable pub join_callback : JoinType → (List V → List V → Bool) → JoinFunction V
  unfolding side
  join_callback type f values =
      if can_call type (not (is_empty (side 0 values))) (not (is_empty (side 1 values)))
      then (f (side 0 values) (side 1 values), values)
      else (false, values)

  -- `makeTypedValues`, for `n` sides
  unfoldable pub typed_values : ℕ → Values V → List (List V)
  typed_values zero values = []
  typed_values (suc n) [] = [] ∷ typed_values n []
  typed_values (suc n) (vs ∷ vss) = vs ∷ typed_values n vss

  -- The callback of a multi-join with `n` sides
  unfoldable pub multi_join_callback : ℕ → (List (List V) → Bool) → JoinFunction V
  unfolding side typed_values
  multi_join_callback n f values =
      if is_empty (side 0 values) then (false, values) else (f (typed_values n values), values)
