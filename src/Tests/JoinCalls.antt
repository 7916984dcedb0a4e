-- ===== src/Tests/JoinCalls.antt =====
-- Joins of numbers after a few arrivals.
use cppservicelib.Prelude.{ℕ, ◌≡◌, Bool, true, false, List, [], ◌∷◌, ltb, length}
use cppservicelib.Stream.Join.{inner, join_callback, multi_join_callback}
use cppservicelib.Stream.Join.Laws.{arrive, join_calls, multi_join_calls}

abbrev arrivals : List (ℕ × ℕ)
arrivals = (1, 7) ∷ (0, 5) ∷ (1, 8) ∷ []

abbrev first_is_less : List ℕ → List ℕ → Bool
first_is_less (a ∷ _) (b ∷ _) = ltb a b
first_is_less _ _ = false

-- What the callback answers, and leaves.
abbrev joined : Bool × List (List ℕ)
joined = (true, arrive arrivals [])

join_calls_example : join_callback inner first_is_less (arrive arrivals []) ≡ joined
join_calls_example = join_calls inner first_is_less arrivals

abbrev has_three_sides : List (List ℕ) → Bool
has_three_sides sides = ltb 2 (length sides)

multi_join_calls_example : multi_join_callback 3 has_three_sides (arrive arrivals []) ≡ joined
multi_join_calls_example = multi_join_calls 3 has_three_sides arrivals
