-- ===== src/Stream/SubStream/Once.antt =====
-- operators/substream.inl: an invocation of a sub-stream is answered once.
use cppservicelib.Prelude.{
  ℕ, ◌≤◌, ◌≡◌, refl, true, false, ◌&&◌, List, [], ◌∷◌, Option, none, some, ◌⊎◌, inl, inr,
  if◌then◌else◌, arith,
}
use cppservicelib.Stream.SubStream.{
  Outcome, returned, threw, cancelled, Call, new_call, cancel, begin_delivery, accepted, refused,
  thrown, end_delivery, begin_wait, end_wait, begin_close, end_close, Section, cancels,
  begins_delivery, ends_delivery, begins_wait, ends_wait, begins_close, ends_close, section,
  sections,
}

-- A wait that returns has had its value accepted, and one that throws has not, and will not.
abbrev pub Agrees : Option Outcome → ℕ → Type 0
Agrees none n = n ≤ 1
Agrees (some returned) n = n ≡ 1
Agrees (some threw) n = n ≡ 0
Agrees (some cancelled) n = n ≡ 0

record IsValid (c : Call) : Type 0 where
  sends_once : c.sends ≡ (if c.closed then 1 else 0)
  released_closed : (c.released ≡ false) ⊎ ((c.closed ≡ true) × (c.running ≡ false))
  waits_closed : (c.waits ≡ false) ⊎ ((c.closed ≡ true) × (c.outcome ≡ none) × (c.closes ≡ false))
  closes_closed : (c.closes ≡ false) ⊎ (c.closed ≡ true)
  accepts_once :
      ((c.accepts ≡ 0) × (c.completed ≡ false))
      ⊎ ((c.accepts ≡ 1) × (c.completed ≡ true) × (c.closed ≡ true) × (c.running ≡ false))
  error_stops : (c.error ≡ false) ⊎ ((c.accepts ≡ 0) × (c.closed ≡ true) × (c.running ≡ false))
  outcome_agrees :
      (c.outcome ≡ none) ⊎ ((c.closed ≡ true) × (c.running ≡ false) × Agrees c.outcome c.accepts)

section-IsValid : (x : Section) (c : Call) → IsValid c → IsValid (section x c)
unfolding section cancel begin_delivery end_delivery begin_wait end_wait begin_close end_close
section-IsValid cancels c v = ground arith
section-IsValid (begins_delivery over) c v = ground arith
section-IsValid (ends_delivery accepted) c v = ground arith
section-IsValid (ends_delivery refused) c v = ground arith
section-IsValid (ends_delivery thrown) c v = ground arith
section-IsValid begins_wait c v = ground arith
section-IsValid ends_wait c v = ground arith
section-IsValid begins_close c v = ground arith
section-IsValid ends_close c v = ground arith

sections-IsValid : (xs : List Section) (c : Call) → IsValid c → IsValid (sections xs c)
unfolding sections
sections-IsValid [] c v = v
sections-IsValid (x ∷ xs) c v = sections-IsValid xs (section x c) (section-IsValid x c v)

new-IsValid : IsValid new_call
new-IsValid = record {
  sends_once = refl;
  released_closed = inl refl;
  waits_closed = inl refl;
  closes_closed = inl refl;
  accepts_once = inl (refl, refl);
  error_stops = inl refl;
  outcome_agrees = inl refl;
}

outcome-IsValid : (c : Call) → IsValid c → Agrees c.outcome c.accepts
outcome-IsValid c v = elim v.outcome_agrees [
  | inr (a, b, h) ↦ h
  | inl e ↦ rw e (ground (arith, v.accepts_once))
]

-- In every run of deliveries, cancellations, the wait and the close of a call: its event is sent once,
-- and that is when the call is closed; the collector has accepted one value at most, exactly one where
-- the wait has returned, and none where it has thrown; and no collector runs once it is released.
pub call_is_answered_once :
    (xs : List Section)
    → let c = sections xs new_call in
      (c.sends ≡ (if c.closed then 1 else 0))
      × Agrees c.outcome c.accepts
      × (c.running && c.released ≡ false)
call_is_answered_once xs =
    let v = sections-IsValid xs new_call new-IsValid in
    (v.sends_once, outcome-IsValid (sections xs new_call) v, ground (arith, v.released_closed))
