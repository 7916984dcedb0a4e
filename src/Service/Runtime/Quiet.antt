-- ===== src/Service/Runtime/Quiet.antt =====
-- runtime/environment.hpp: a drain that answered yes leaves nothing running in the graph.
use cppservicelib.Prelude.{
  ℕ, ◌+◌, ◌^◌, ◌<◌, ◌≡◌, refl, Bool, true, false, List, [], ◌∷◌, ltb, ◌⊎◌, inl, inr, if_elim, arith,
}
use cppservicelib.Service.Runtime.{
  Runtime, new_runtime, Start, initialised, topology_throws, init_throws, is_closed, count,
  begin_input, finish_input, notify, begin_parallel, retire, start_runtime, begin_drain, test_drain,
  fall_asleep, time_out, release_runtime, Section, begins_input, finishes_input, notifies,
  begins_parallel, retires, starts, drains, tests_drain, falls_asleep, times_out, releases,
  is_draining, section, sections,
}

-- The word counts the invocations below its closed bit; a drain closes it; what is drained has nothing
-- running, and what is not active no invocation.
record IsValid (r : Runtime) : Type 0 where
  few : r.invocations < 2 ^ 63
  word : (r.inputs ≡ r.invocations) ⊎ (r.inputs ≡ r.invocations + 2 ^ 63)
  quiet :
      (r.drained ≡ false)
      ⊎ ((r.inputs ≡ r.invocations + 2 ^ 63)
          × (r.invocations ≡ 0)
          × (r.parallel_active ≡ 0)
          × (r.parallel_accepting ≡ false))
  inactive : (r.active ≡ true) ⊎ (r.invocations ≡ 0)
  draining : (is_draining r ≡ false) ⊎ ((r.inputs ≡ r.invocations + 2 ^ 63) × (r.active ≡ true))

abbrev Word : ℕ → ℕ → Type 0
Word n w =
    ((w ≡ n) × (is_closed w ≡ false) × (count w ≡ n))
    ⊎ ((w ≡ n + 2 ^ 63) × (is_closed w ≡ true) × (count w ≡ n))

read_word : (n w : ℕ) → n < 2 ^ 63 → (w ≡ n) ⊎ (w ≡ n + 2 ^ 63) → Word n w
read_word n w h (inl e) = inl (e, ground arith, omega arith)
read_word n w h (inr e) = inr (e, ground arith, omega arith)

begin_input-IsValid : (r : Runtime) → r.active ≡ true → IsValid r → IsValid (begin_input r).1
unfolding begin_input
begin_input-IsValid r a v = elim (read_word r.invocations r.inputs v.few v.word) [
  | inl w ↦ ground arith
  | inr w ↦ ground arith
]

finish_input-IsValid : (r : Runtime) → 0 < r.invocations → IsValid r → IsValid (finish_input r)
unfolding finish_input
finish_input-IsValid r h v = elim (read_word r.invocations r.inputs v.few v.word) [
  | inl w ↦ ground arith
  | inr w ↦ ground arith
]

start_runtime-IsValid :
    (x : Start) (r : Runtime) → is_draining r ≡ false → IsValid r → IsValid (start_runtime x r).1
unfolding start_runtime
start_runtime-IsValid initialised r d v = ground arith
start_runtime-IsValid topology_throws r d v = ground arith
start_runtime-IsValid init_throws r d v = ground arith

begin_drain-IsValid : (r : Runtime) → is_draining r ≡ false → IsValid r → IsValid (begin_drain r)
unfolding begin_drain
begin_drain-IsValid r d v = elim (read_word r.invocations r.inputs v.few v.word) [
  | inl w ↦ ground arith
  | inr w ↦ ground arith
]

test_drain-IsValid :
    (expired : Bool) (r : Runtime) → r.tests ≡ true → IsValid r → IsValid (test_drain expired r)
unfolding test_drain
test_drain-IsValid expired r t v = elim (read_word r.invocations r.inputs v.few v.word) [
  | inl w ↦ ground arith
  | inr w ↦ ground arith
]

section-IsValid : (x : Section) (r : Runtime) → IsValid r → IsValid (section x r)
unfolding section notify begin_parallel retire fall_asleep time_out release_runtime
section-IsValid begins_input r v =
    if_elim IsValid r.active (λ a. begin_input-IsValid r a v) (λ _. v)
section-IsValid finishes_input r v =
    if_elim IsValid (ltb 0 r.invocations) (λ h. finish_input-IsValid r (ground arith) v) (λ _. v)
section-IsValid notifies r v = ground arith
section-IsValid begins_parallel r v = ground arith
section-IsValid retires r v = ground arith
section-IsValid (starts x) r v =
    if_elim IsValid (is_draining r) (λ _. v) (λ d. start_runtime-IsValid x r d v)
section-IsValid drains r v =
    if_elim IsValid (is_draining r) (λ _. v) (λ d. begin_drain-IsValid r d v)
section-IsValid (tests_drain expired) r v =
    if_elim IsValid r.tests (λ t. test_drain-IsValid expired r t v) (λ _. v)
section-IsValid falls_asleep r v = ground arith
section-IsValid times_out r v = ground arith
section-IsValid releases r v = ground arith

sections-IsValid : (xs : List Section) (r : Runtime) → IsValid r → IsValid (sections xs r)
unfolding sections
sections-IsValid [] r v = v
sections-IsValid (x ∷ xs) r v = sections-IsValid xs (section x r) (section-IsValid x r v)

new-IsValid : IsValid new_runtime
new-IsValid = record {
  few = omega arith;
  word = inl refl;
  quiet = inl refl;
  inactive = inr refl;
  draining = inl refl;
}

drained_word : (n w : ℕ) → n ≡ 0 → w ≡ n + 2 ^ 63 → is_closed w ≡ true
drained_word n w e f = ground arith

-- In every run of a graph, once the wait of a drain has answered yes and until the next start, no
-- invocation of an input and no task of `parallel` is left, and none is let in.
pub drained_runtime_is_quiet :
    (xs : List Section)
    → let r = sections xs new_runtime in
      r.drained ≡ true
      → (r.invocations ≡ 0)
        × (r.parallel_active ≡ 0)
        × ((begin_input r).0 ≡ false)
        × ((begin_parallel r).0 ≡ false)
unfolding begin_input begin_parallel
drained_runtime_is_quiet xs d =
    let r = sections xs new_runtime in
    let v = sections-IsValid xs new_runtime new-IsValid in
    elim v.quiet [
      | inl n ↦ absurd (ground arith)
      | inr (w, n, p, a) ↦ (n, p, rw (drained_word r.invocations r.inputs n w) refl, rw a refl)
    ]
