-- ===== src/Tests/Joins.antt =====
-- The theorems on the join storage at small runs.
use cppservicelib.Prelude.{ℕ, ◌≡◌, true, false, List, [], ◌∷◌, some, pos}
use cppservicelib.Tests.Keys.{nat_key}
use cppservicelib.Tests.HashJoin.{both, plain, at_time}
use cppservicelib.Store.{Result}
use cppservicelib.Store.HashJoin.{fresh}
use cppservicelib.Store.HashJoin.Join.{Request, join_value}
use cppservicelib.Store.HashJoin.Invariant.{WellLogged, MapsAreValid}
use cppservicelib.Store.HashJoin.Loop.{join_value-Answers}
use cppservicelib.Store.HashJoin.Schedule.{
  Section, enters, leaves, publishes, enters_made, enters_found, removes, expires, rotates, starts,
  begins_stop, finishes_stop, sections, constructed, fresh-IsValid,
}
use cppservicelib.Store.HashJoin.Runs.{completed_once, counted_once}

abbrev request : ℕ → ℕ → Request ℕ ℕ
request index value = record {
  key = 7;
  index = index;
  value = value;
  callback = both;
  context = plain;
  ttl = pos 10;
}

-- Two callers find no item, one publishes, the timer runs before the other has the item's lock, and
-- the stop waits for both.
abbrev race : List (Section ℕ ℕ)
race =
    starts true
    ∷ enters
    ∷ enters
    ∷ publishes (request 0 41) 1
    ∷ publishes (request 1 42) 2
    ∷ enters_found 0 (request 1 42) (at_time 2)
    ∷ enters_made 0 (request 0 41) (at_time 2)
    ∷ leaves
    ∷ rotates
    ∷ expires (record { key = 7; item = 0; generation = 1; due = 11 })
    ∷ enters_found 0 (request 1 42) (at_time 9)
    ∷ removes 7 0
    ∷ begins_stop
    ∷ publishes (request 1 42) 9
    ∷ enters_made 1 (request 1 42) (at_time 9)
    ∷ leaves
    ∷ finishes_stop
    ∷ []

completed_once_example : WellLogged (sections race (constructed (pos 10) false)).store.log
completed_once_example = completed_once race (pos 10) false

counted_once_example :
    MapsAreValid (sections race (constructed {K = ℕ} {V = ℕ} (pos 10) false)).store
counted_once_example = counted_once race (pos 10) false

join_value-Answers_example :
    (a : Result (Unit {0})) × ((join_value {K = ℕ} {V = ℕ} 7 0 41 both plain 1
        (at_time 1 ∷ at_time 1 ∷ [])
        (fresh (pos 10) false)).0
      ≡ some a)
join_value-Answers_example =
    join_value-Answers 7 0 41 both plain 1 (at_time 1) (at_time 1) (fresh (pos 10) false)
      (fresh-IsValid (pos 10) false)
