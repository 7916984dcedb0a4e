-- ===== src/DataSource/RequestAdmission.antt =====
-- datasource/detail/request_admission.hpp: RequestAdmission. Each function is one section: one successful
-- compare-and-exchange, or what a thread does under the mutex. `leases`, `waiting` and `drained` count
-- the leases that are held, the stops that wait and the stops that have returned, and are no part of the
-- code.
pub mod Drain
use cppservicelib.Prelude.{
  ℕ, zero, suc, ◌+◌, ◌-◌, ◌/◌, ◌%◌, ◌^◌, Bool, true, false, List, [], ◌∷◌, ltb, ◌==◌, if◌then◌else◌,
}

pub record RequestAdmission : Type 0 where
  pub state : ℕ
  pub leases : ℕ
  pub waiting : ℕ
  pub drained : ℕ

abbrev pub new_admission : RequestAdmission
new_admission = record { state = 0; leases = 0; waiting = 0; drained = 0 }

-- `kClosed`, the highest bit of a `size_t`.
abbrev pub closed_bit : ℕ
closed_bit = 2 ^ 63

-- `state & kClosed`
abbrev pub is_closed : ℕ → Bool
is_closed state = state / 2 ^ 63 % 2 == 1

-- `acquire`: the lease, if there is one.
unfoldable pub acquire : RequestAdmission → Bool × RequestAdmission
acquire a =
    if is_closed a.state
    then (false, a)
    else (true, record a { state = (a.state + 1) % 2 ^ 64; leases = a.leases + 1 })

-- `release`: without the lock while the gate is open, and under it afterwards, where the last lease wakes
-- the stops.
unfoldable pub release : RequestAdmission → RequestAdmission
release a =
    let less = (a.state + 2 ^ 64 - 1) % 2 ^ 64 in
    if is_closed a.state
    then (if a.state == closed_bit + 1
        then record a {
          state = less;
          leases = a.leases - 1;
          waiting = 0;
          drained = a.drained + a.waiting;
        }
        else record a { state = less; leases = a.leases - 1 })
    else record a { state = less; leases = a.leases - 1 }

-- `stop` under the lock: `fetch_or`, and the first test of its predicate.
unfoldable pub stop : RequestAdmission → RequestAdmission
stop a =
    let closed = if is_closed a.state then a.state else a.state + 2 ^ 63 in
    if closed == closed_bit
    then record a { state = closed; drained = a.drained + 1 }
    else record a { state = closed; waiting = a.waiting + 1 }

-- The context of a waiting stop ends, and `stop` throws.
unfoldable pub give_up : RequestAdmission → RequestAdmission
give_up a = record a { waiting = a.waiting - 1 }

pub data Section : Type 0 where
  acquires releases stops gives_up : Section

unfoldable pub section : Section → RequestAdmission → RequestAdmission
section acquires a = (acquire a).1
section releases a = if ltb 0 a.leases then release a else a
section stops a = stop a
section gives_up a = if ltb 0 a.waiting then give_up a else a

unfoldable pub sections : List Section → RequestAdmission → RequestAdmission
sections [] a = a
sections (x ∷ xs) a = sections xs (section x a)
