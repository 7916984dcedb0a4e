-- ===== src/Pool/DelayPool/Timers.antt =====
-- runtime/pool/delaypool.hpp: the timer queue and the lists of tasks, by what they hold.
use cppservicelib.Prelude.{ℕ, suc, ◌+◌, ◌≤◌, ◌<◌, ◌≡◌, refl, List, [], ◌∷◌, length, All, arith}
use cppservicelib.Pool.PriorityHeap.Contents.{times, one}
use cppservicelib.Pool.DelayPool.{insert_timer, extract_timer}
use cppservicelib.Pool.DelayPool.Scheduler.{leave_list}

abbrev pub ids : List (ℕ × ℕ) → List ℕ
ids [] = []
ids (e ∷ es) = e.1 ∷ ids es

pub times-insert_timer :
    (u k t : ℕ) (es : List (ℕ × ℕ))
    → times u (ids (insert_timer k t es)) ≡ times u (ids es) + one t u
unfolding insert_timer
times-insert_timer u k t [] = omega arith
times-insert_timer u k t (e ∷ es) = ground (arith, times-insert_timer u k t es)

pub length-insert_timer :
    (k t : ℕ) (es : List (ℕ × ℕ)) → length (insert_timer k t es) ≡ suc (length es)
unfolding insert_timer
length-insert_timer k t [] = refl
length-insert_timer k t (e ∷ es) = ground (arith, length-insert_timer k t es)

pub times-extract_timer :
    (u t : ℕ) (es : List (ℕ × ℕ))
    → 0 < times t (ids es)
    → times u (ids (extract_timer t es)) + one t u ≡ times u (ids es)
unfolding extract_timer
times-extract_timer u t [] h = absurd (omega arith)
times-extract_timer u t (e ∷ es) h = ground (arith, times-extract_timer u t es)

pub length-extract_timer :
    (t : ℕ) (es : List (ℕ × ℕ))
    → 0 < times t (ids es)
    → suc (length (extract_timer t es)) ≡ length es
unfolding extract_timer
length-extract_timer t [] h = absurd (omega arith)
length-extract_timer t (e ∷ es) h = ground (arith, length-extract_timer t es)

pub times-leave_list :
    (u t : ℕ) (ts : List ℕ) → 0 < times t ts → times u (leave_list t ts) + one t u ≡ times u ts
times-leave_list u t [] h = absurd (omega arith)
times-leave_list u t (x ∷ ts) h = ground (arith, times-leave_list u t ts)

pub length-leave_list :
    (t : ℕ) (ts : List ℕ) → 0 < times t ts → suc (length (leave_list t ts)) ≡ length ts
length-leave_list t [] h = absurd (omega arith)
length-leave_list t (x ∷ ts) h = ground (arith, length-leave_list t ts)

pub times-empty : (t : ℕ) (ts : List ℕ) → length ts ≡ 0 → times t ts ≡ 0
times-empty t [] h = refl
times-empty t (x ∷ ts) h = absurd (omega arith)

-- The first key is the least one.
abbrev pub IsSorted : List (ℕ × ℕ) → Type 0
IsSorted [] = Unit {0}
IsSorted (e ∷ es) = All (λ f. e.0 ≤ f.0) es × IsSorted es

All-insert_timer :
    (b k t : ℕ) (es : List (ℕ × ℕ))
    → b ≤ k
    → All (λ f. b ≤ f.0) es
    → All (λ f. b ≤ f.0) (insert_timer k t es)
unfolding insert_timer
All-insert_timer b k t [] h a = (h, tt)
All-insert_timer b k t (e ∷ es) h a = ground (arith, All-insert_timer b k t es h a.1)

All-weaken : (b c : ℕ) (es : List (ℕ × ℕ)) → c ≤ b → All (λ f. b ≤ f.0) es → All (λ f. c ≤ f.0) es
All-weaken b c [] h a = tt
All-weaken b c (e ∷ es) h a = (omega (arith, a.0), All-weaken b c es h a.1)

pub insert_timer-IsSorted :
    (k t : ℕ) (es : List (ℕ × ℕ)) → IsSorted es → IsSorted (insert_timer k t es)
unfolding insert_timer
insert_timer-IsSorted k t [] s = (tt, tt)
insert_timer-IsSorted k t (e ∷ es) s =
    ground
      (arith, insert_timer-IsSorted k t es s.1, All-insert_timer e.0 k t es, All-weaken e.0 k es)

All-extract_timer :
    (b t : ℕ) (es : List (ℕ × ℕ)) → All (λ f. b ≤ f.0) es → All (λ f. b ≤ f.0) (extract_timer t es)
unfolding extract_timer
All-extract_timer b t [] a = tt
All-extract_timer b t (e ∷ es) a = ground (arith, All-extract_timer b t es a.1)

pub extract_timer-IsSorted :
    (t : ℕ) (es : List (ℕ × ℕ)) → IsSorted es → IsSorted (extract_timer t es)
unfolding extract_timer
extract_timer-IsSorted t [] s = tt
extract_timer-IsSorted t (e ∷ es) s =
    ground (arith, extract_timer-IsSorted t es s.1, All-extract_timer e.0 t es s.0)
