-- ===== src/Stream/SubStream.antt =====
-- operators/substream.inl: SubStreamCall, the call that an invocation of a sub-stream waits for. Each
-- function is one section: an exchange of `closed_`, or what a thread does under `callbackMutex_` up to
-- the call of the collector, and after it. `sends`, `accepts` and `outcome` are no part of the code.
pub mod Once
use cppservicelib.Prelude.{
  ℕ, ◌+◌, Bool, true, false, not, ◌&&◌, ◌||◌, List, [], ◌∷◌, Option, none, some, if◌then◌else◌,
  is_some,
}

-- What `wait` does: it returns, throws what the collector threw, or throws OperationCancelledError.
pub data Outcome : Type 0 where
  returned threw cancelled : Outcome

pub record Call : Type 0 where
  pub closed : Bool
  -- the calls of `done_.Send()`
  pub sends : ℕ
  -- a collector is called, under the mutex
  pub running : Bool
  pub error : Bool
  pub completed : Bool
  -- `collector_` and `context_` are reset
  pub released : Bool
  -- the values that the collector has accepted
  pub accepts : ℕ
  -- `wait` is before the mutex, and so is `close`
  pub waits : Bool
  pub closes : Bool
  pub outcome : Option Outcome

abbrev pub new_call : Call
new_call = record {
  closed = false;
  sends = 0;
  running = false;
  error = false;
  completed = false;
  released = false;
  accepts = 0;
  waits = false;
  closes = false;
  outcome = none;
}

-- `cancel`, and the exchange of `deliver`
unfoldable pub cancel : Call → Call
cancel c = if c.closed then c else record c { closed = true; sends = c.sends + 1 }

-- `deliver` with the mutex, up to the call of the collector; `over` is `context_->cancelled()`.
unfoldable pub begin_delivery : Bool → Call → Call
unfolding cancel
begin_delivery over c =
    if c.closed then c else if over then cancel c else record c { running = true }

pub data Answer : Type 0 where
  accepted refused thrown : Answer

-- What the collector does: it accepts the value, wants another, or throws.
unfoldable pub end_delivery : Answer → Call → Call
unfolding cancel
end_delivery accepted c =
    cancel (record c { running = false; completed = true; accepts = c.accepts + 1 })
end_delivery refused c = record c { running = false }
end_delivery thrown c = cancel (record c { running = false; error = true })

-- `wait`, from its wake-up to the mutex
unfoldable pub begin_wait : Call → Call
unfolding cancel
begin_wait c = cancel (record c { waits = true })

abbrev outcome_of : Bool → Bool → Outcome
outcome_of true completed = threw
outcome_of false true = returned
outcome_of false false = cancelled

unfoldable pub end_wait : Call → Call
end_wait c = record c { waits = false; outcome = some (outcome_of c.error c.completed) }

-- `close`, to the mutex and with it
unfoldable pub begin_close : Call → Call
unfolding cancel
begin_close c = cancel (record c { closes = true })

unfoldable pub end_close : Call → Call
end_close c = record c { released = true; error = false }

pub data Section : Type 0 where
  cancels : Section
  begins_delivery : Bool → Section
  ends_delivery : Answer → Section
  begins_wait ends_wait begins_close ends_close : Section

-- A section happens where its thread can be there: the mutex is free, or is the thread's own; an
-- invocation waits once at most, and closes after that.
unfoldable pub section : Section → Call → Call
unfolding cancel begin_delivery end_delivery begin_wait end_wait begin_close end_close
section cancels c = cancel c
section (begins_delivery over) c = if c.running then c else begin_delivery over c
section (ends_delivery a) c = if c.running then end_delivery a c else c
section begins_wait c = if c.closes || is_some c.outcome then c else begin_wait c
section ends_wait c = if c.waits && not c.running then end_wait c else c
section begins_close c = if c.waits then c else begin_close c
section ends_close c = if c.closes && not c.running then end_close c else c

unfoldable pub sections : List Section → Call → Call
unfolding section
sections [] c = c
sections (x ∷ xs) c = sections xs (section x c)
