-- ===== src/DataSource/RequestAdmission/Drain.antt =====
-- datasource/detail/request_admission.hpp: a stop returns when no lease is left, and is not forgotten.
use cppservicelib.Prelude.{
  ℕ, suc, ◌+◌, ◌^◌, ◌≤◌, ◌<◌, ◌≡◌, refl, ◌⊎◌, inl, inr, true, false, List, [], ◌∷◌, ltb, ◌==◌,
  if◌then◌else◌, if_elim, length, arith,
}
use cppservicelib.DataSource.RequestAdmission.{
  RequestAdmission, new_admission, is_closed, acquire, release, stop, give_up, Section, acquires,
  releases, stops, gives_up, section, sections,
}

abbrev IsOpen : RequestAdmission → Type 0
IsOpen a = (a.state ≡ a.leases) × (a.waiting ≡ 0) × (a.drained ≡ 0)

-- No stop waits for no lease, and none has returned before the last lease was gone.
abbrev IsShut : RequestAdmission → Type 0
IsShut a =
    (a.state ≡ a.leases + 2 ^ 63) × (a.waiting ≡ 0 ⊎ 0 < a.leases) × (a.drained ≡ 0 ⊎ a.leases ≡ 0)

-- At most `most` leases were ever given.
abbrev IsValid : ℕ → RequestAdmission → Type 0
IsValid most a = (a.leases ≤ most) × (IsOpen a ⊎ IsShut a)

open_word : (n : ℕ) → n < 2 ^ 63 → is_closed n ≡ false
open_word n h = ground arith

shut_word : (n : ℕ) → n < 2 ^ 63 → is_closed (n + 2 ^ 63) ≡ true
shut_word n h = ground arith

module _ (n : ℕ) (a : RequestAdmission) (small : suc n < 2 ^ 63) where
  acquire-IsValid : IsValid n a → IsValid (suc n) (acquire a).1
  unfolding acquire
  acquire-IsValid (few, inl o) = let e = open_word a.leases (omega arith) in ground (arith, o.0, e)
  acquire-IsValid (few, inr c) = let e = shut_word a.leases (omega arith) in ground (arith, c.0, e)

  release-IsValid : 0 < a.leases → IsValid n a → IsValid n (release a)
  unfolding release
  release-IsValid h (few, inl o) =
      let e = open_word a.leases (omega arith) in ground (arith, o.0, e)
  release-IsValid h (few, inr c) =
      let e = shut_word a.leases (omega arith) in ground (arith, c.0, e)

  stop-IsValid : IsValid n a → IsValid n (stop a)
  unfolding stop
  stop-IsValid (few, inl o) = let e = open_word a.leases (omega arith) in ground (arith, o.0, e)
  stop-IsValid (few, inr c) = let e = shut_word a.leases (omega arith) in ground (arith, c.0, e)

  widen : (b : RequestAdmission) → IsValid n b → IsValid (suc n) b
  widen b (few, rest) = (omega arith, rest)

  section-IsValid : (x : Section) → IsValid n a → IsValid (suc n) (section x a)
  unfolding section give_up
  section-IsValid acquires v = acquire-IsValid v
  section-IsValid releases v =
      widen (section releases a)
        (if_elim (IsValid n) (ltb 0 a.leases) (λ e. release-IsValid (ground arith) v) (λ _. v))
  section-IsValid stops v = widen (stop a) (stop-IsValid v)
  section-IsValid gives_up (few, inl o) = (ground arith, inl (ground (arith, o.0, o.1)))
  section-IsValid gives_up (few, inr c) = (ground arith, inr (ground (arith, c.0, c.1)))

sections-IsValid :
    (xs : List Section) (n : ℕ) (a : RequestAdmission)
    → n + length xs < 2 ^ 63
    → IsValid n a
    → IsValid (n + length xs) (sections xs a)
unfolding sections
sections-IsValid [] n a h v = (omega (arith, v.0), v.1)
sections-IsValid (x ∷ xs) n a h v =
    let rest =
      sections-IsValid xs (suc n) (section x a) (omega arith)
        (section-IsValid n a (omega arith) x v) in
    (omega (arith, rest.0), rest.1)

abbrev start_valid : IsValid 0 new_admission
start_valid = (omega arith, inl (refl, refl, refl))

-- In every run of fewer than `2 ^ 63` sections of acquires, releases, stops and contexts that end: once
-- a stop has returned without an exception, no lease is held, and none is given any more.
pub stop_ends_admission :
    (xs : List Section)
    → length xs < 2 ^ 63
    → 0 < (sections xs new_admission).drained
    → ((sections xs new_admission).leases ≡ 0)
      × (acquire (sections xs new_admission) ≡ (false, sections xs new_admission))
unfolding acquire
stop_ends_admission xs h d =
    let a = sections xs new_admission in
    let (few, phase) = sections-IsValid xs 0 new_admission (omega arith) start_valid in
    elim phase [
      | inl o ↦ absurd (omega (arith, o.2))
      | inr c ↦
          let none_left : a.leases ≡ 0 = ground (arith, c.2) in
          let closed : is_closed a.state ≡ true = ground (arith, c.0, shut_word 0) in
          (none_left, rw closed refl)
    ]

-- In every run of fewer than `2 ^ 63` sections of acquires, releases, stops and contexts that end: as
-- long as a stop waits, a lease is held, and the release of the last lease lets all stops return, while
-- that of another one leaves them waiting.
pub no_stop_waits_in_vain :
    (xs : List Section)
    → length xs < 2 ^ 63
    → 0 < (sections xs new_admission).waiting
    → (0 < (sections xs new_admission).leases)
      × ((release (sections xs new_admission)).waiting ≡ (
          if (sections xs new_admission).leases == 1
          then 0
          else (sections xs new_admission).waiting))
unfolding release
no_stop_waits_in_vain xs h d =
    let a = sections xs new_admission in
    let (few, phase) = sections-IsValid xs 0 new_admission (omega arith) start_valid in
    elim phase [
      | inl o ↦ absurd (omega (arith, o.1))
      | inr c ↦
          let held : 0 < a.leases = ground (arith, c.1) in
          let closed = shut_word a.leases (omega arith) in (held, ground (arith, c.0, closed))
    ]
