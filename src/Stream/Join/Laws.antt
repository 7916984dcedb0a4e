-- ===== src/Stream/Join/Laws.antt =====
-- operators/join.inl and operators/multijoin.inl, over runtime/store/hashmap.hpp: what a join does with
-- the values that have arrived.
use cppservicelib.Prelude.{
  ℕ, zero, suc, ◌≡◌, refl, ap, Bool, true, false, not, List, [], ◌∷◌, ◌++◌, ◌==◌, append-nil,
  append_assoc, if◌then◌else◌, arith, ◌∙◌,
}
use cppservicelib.Store.HashJoin.{Values}
use cppservicelib.Store.HashJoin.Join.{push_value}
use cppservicelib.Stream.Join.{
  JoinType, inner, left, right, outer, side, is_empty, can_call, join_callback, typed_values,
  multi_join_callback,
}

suc-suc : (j i : ℕ) → (suc j == suc i) ≡ (j == i)
suc-suc j i = ground arith

suc_zero : (j : ℕ) → (suc j == 0) ≡ false
suc_zero j = ground arith

zero_suc : (i : ℕ) → (0 == suc i) ≡ false
zero_suc i = ground arith

abbrev pub tabulate : {A : Type 0} → ℕ → (ℕ → A) → List A
tabulate zero g = []
tabulate (suc n) g = g 0 ∷ tabulate n λ i. g (suc i)

tabulate_congr :
    {A : Type 0} (n : ℕ) (g h : ℕ → A) → ((i : ℕ) → g i ≡ h i) → tabulate n g ≡ tabulate n h
tabulate_congr zero g h e = refl
tabulate_congr (suc n) g h e =
    rw (e 0, tabulate_congr n (λ i. g (suc i)) (λ i. h (suc i)) (λ i. e (suc i))) refl

pair_if :
    {A : Type 0} (b x : Bool) (a : A)
    → let p : Bool × A = (if b then x else false, a) in (if b then (x, a) else (false, a)) ≡ p
pair_if true x a = refl
pair_if false x a = refl

pair_unless :
    {A : Type 0} (b x : Bool) (a : A)
    → let p : Bool × A = (if not b then x else false, a) in (if b then (false, a) else (x, a)) ≡ p
pair_unless true x a = refl
pair_unless false x a = refl

module _ {V : Type 0} where
  -- The values of an item after arrivals on numbered sides.
  abbrev pub arrive : List (ℕ × V) → Values V → Values V
  arrive [] values = values
  arrive ((i, v) ∷ ps) values = arrive ps (push_value i v values)

  -- What has arrived on a side, in its order.
  abbrev pub arrived : ℕ → List (ℕ × V) → List V
  arrived i [] = []
  arrived i ((j, v) ∷ ps) = let rest = arrived i ps in if j == i then v ∷ rest else rest

  side-push_value :
      (i j : ℕ) (v : V) (values : Values V)
      → side i (push_value j v values) ≡ side i values ++ (if j == i then v ∷ [] else [])
  unfolding side push_value
  side-push_value zero zero v [] = refl
  side-push_value zero (suc j) v [] = rw (suc_zero j) refl
  side-push_value (suc i) zero v [] = rw (zero_suc i) refl
  side-push_value (suc i) (suc j) v [] = rw (suc-suc j i) (side-push_value i j v [])
  side-push_value zero zero v (vs ∷ vss) = refl
  side-push_value zero (suc j) v (vs ∷ vss) = rw (suc_zero j, append-nil) refl
  side-push_value (suc i) zero v (vs ∷ vss) = rw (zero_suc i, append-nil) refl
  side-push_value (suc i) (suc j) v (vs ∷ vss) = rw (suc-suc j i) (side-push_value i j v vss)

  cons-if :
      (v : V) (b : Bool) (vs : List V)
      → (if b then v ∷ [] else []) ++ vs ≡ (if b then v ∷ vs else vs)
  cons-if v true vs = refl
  cons-if v false vs = refl

  side-arrive :
      (i : ℕ) (ps : List (ℕ × V)) (values : Values V)
      → side i (arrive ps values) ≡ side i values ++ arrived i ps
  side-arrive i [] values = rw append-nil refl
  side-arrive i ((j, v) ∷ ps) values =
      side-arrive i ps (push_value j v values)
      ∙ rw (side-push_value i j v values, append_assoc, cons-if) refl

  -- Which sides must have a value: both of an inner join, the named one of a left or right join, none
  -- of an outer join.
  abbrev pub allows : JoinType → List V → List V → Bool
  allows inner [] rs = false
  allows inner (l ∷ ls) [] = false
  allows inner (l ∷ ls) (r ∷ rs) = true
  allows left [] rs = false
  allows left (l ∷ ls) rs = true
  allows right ls [] = false
  allows right ls (r ∷ rs) = true
  allows outer ls rs = true

  can_call-allows :
      (type : JoinType) (ls rs : List V)
      → can_call type (not (is_empty ls)) (not (is_empty rs)) ≡ allows type ls rs
  can_call-allows inner [] rs = refl
  can_call-allows inner (l ∷ ls) [] = refl
  can_call-allows inner (l ∷ ls) (r ∷ rs) = refl
  can_call-allows left [] rs = refl
  can_call-allows left (l ∷ ls) rs = refl
  can_call-allows right ls [] = refl
  can_call-allows right ls (r ∷ rs) = refl
  can_call-allows outer ls rs = refl

  -- The function of a join is called exactly where the sides that its type asks for have a value each -
  -- both for inner, the left one for left, the right one for right, none for outer -, with all values
  -- that have arrived on the two sides in their order; where it is not called the answer is no; and the
  -- callback leaves the values.
  pub join_calls :
      (type : JoinType) (f : List V → List V → Bool) (ps : List (ℕ × V))
      → join_callback type f (arrive ps []) ≡ (
        if allows type (arrived 0 ps) (arrived 1 ps)
            then f (arrived 0 ps) (arrived 1 ps)
            else false,
        arrive ps [],
      )
  unfolding join_callback side
  join_calls type f ps =
      rw
        (
          side-arrive 0 ps [],
          side-arrive 1 ps [],
          can_call-allows type (arrived 0 ps) (arrived 1 ps),
        )
        (pair_if (allows type (arrived 0 ps) (arrived 1 ps)) (f (arrived 0 ps) (arrived 1 ps))
          (arrive ps []))

  typed_values-sides :
      (n : ℕ) (values : Values V) → typed_values n values ≡ tabulate n λ i. side i values
  unfolding typed_values side
  typed_values-sides zero values = refl
  typed_values-sides (suc n) [] = ap (◌∷◌ []) (typed_values-sides n [])
  typed_values-sides (suc n) (vs ∷ vss) = ap (◌∷◌ vs) (typed_values-sides n vss)

  -- The function of a multi-join is called exactly where a value has arrived on its first side, with all
  -- that have arrived on each of its sides, in their order.
  pub multi_join_calls :
      (n : ℕ) (f : List (List V) → Bool) (ps : List (ℕ × V))
      → multi_join_callback n f (arrive ps []) ≡ (
        if not (is_empty (arrived 0 ps)) then f (tabulate n λ i. arrived i ps) else false,
        arrive ps [],
      )
  unfolding multi_join_callback side
  multi_join_calls n f ps =
      rw
        (
          typed_values-sides n (arrive ps []),
          tabulate_congr n (λ i. side i (arrive ps [])) (λ i. arrived i ps)
              (λ i. side-arrive i ps []),
          side-arrive 0 ps [],
        )
        (pair_unless (is_empty (arrived 0 ps)) (f (tabulate n λ i. arrived i ps)) (arrive ps []))
