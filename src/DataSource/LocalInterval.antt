-- ===== src/DataSource/LocalInterval.antt =====
-- datasource/cron/local_interval.hpp: intervals of a local schedule. A time is a number of ticks of the
-- clock since its epoch, and `tick_rate` is the number of ticks in a millisecond. Text is a list of
-- character codes.
pub mod Grid
pub mod Parse
use cppservicelib.Prelude.{
  ℕ, zero, suc, ◌+◌, ◌-◌, ◌*◌, ◌/◌, Bool, true, false, not, ◌&&◌, ◌||◌, List, [], ◌∷◌, Option, none,
  some, ltb, ◌==◌, if◌then◌else◌, length, take, drop,
}

-- The two exceptions, both `std::invalid_argument`.
pub data Error : Type 0 where
  invalid_text invalid_period : Error

pub data Result {ℓ} (A : Type ℓ) : Type ℓ where
  ok : A → Result A
  err : Error → Result A

abbrev pub Text : Type 0
Text = List ℕ

unfoldable pub starts_with : Text → Text → Bool
starts_with [] text = true
starts_with (p ∷ ps) [] = false
starts_with (p ∷ ps) (c ∷ cs) = p == c && starts_with ps cs

unfoldable pub ends_with : Text → Text → Bool
unfolding starts_with
ends_with suffix text =
    if ltb (length text) (length suffix)
    then false
    else starts_with suffix (drop (length text - length suffix) text)

-- "@every", and "@every " with its space, and "ms".
abbrev pub every : Text
every = 64 ∷ 101 ∷ 118 ∷ 101 ∷ 114 ∷ 121 ∷ []

abbrev pub every_space : Text
every_space = 64 ∷ 101 ∷ 118 ∷ 101 ∷ 114 ∷ 121 ∷ 32 ∷ []

abbrev pub ms : Text
ms = 109 ∷ 115 ∷ []

abbrev pub is_digit : ℕ → Bool
is_digit c = not (ltb c 48) && not (ltb 57 c)

-- The loop over the digits; an `int` holds the eight of them that the length allows.
unfoldable pub digits_value : ℕ → Text → Option ℕ
digits_value milliseconds [] = some milliseconds
digits_value milliseconds (c ∷ cs) =
    let rest = digits_value (milliseconds * 10 + (c - 48)) cs in if is_digit c then rest else none

abbrev pub starts_with_zero : Text → Bool
starts_with_zero [] = true
starts_with_zero (c ∷ cs) = c == 48

-- The end of `ParseLocalInterval`, behind its loop.
abbrev pub accept_period : Option ℕ → Result (Option ℕ)
accept_period none = err invalid_text
accept_period (some milliseconds) =
    if ltb milliseconds 10 || ltb 86400000 milliseconds
    then err invalid_text
    else ok (some milliseconds)

-- `ParseLocalInterval`
unfoldable pub parse_local_interval : Text → Result (Option ℕ)
parse_local_interval expression =
    if not (starts_with every expression)
    then ok none
    else if not (starts_with every_space expression)
        || not (ends_with ms expression)
        || ltb (length expression) 10
        || ltb 17 (length expression)
    then err invalid_text
    else (let digits = take (length expression - 9) (drop 7 expression) in
        if starts_with_zero digits then err invalid_text else accept_period (digits_value 0 digits))

-- `period` in milliseconds, `next` in ticks.
pub record LocalInterval : Type 0 where
  pub period : ℕ
  pub next : ℕ

pub record Due : Type 0 where
  pub scheduled_at : ℕ
  pub missed : Bool

module _ (tick_rate : ℕ) where
  -- `LocalInterval::LocalInterval`
  unfoldable pub make_interval : ℕ → ℕ → Result LocalInterval
  make_interval period anchor =
      if ltb period 10 || ltb 86400000 period
      then err invalid_period
      else ok
          (record { period = period; next = anchor / tick_rate * tick_rate + period * tick_rate })

  unfoldable pub take_due : ℕ → LocalInterval → Option Due × LocalInterval
  take_due now i =
      if ltb now i.next
      then (none, i)
      else (let skipped = (now - i.next) / (i.period * tick_rate) in
          let latest = i.next + i.period * tick_rate * skipped in
          (
            some (record { scheduled_at = latest; missed = not (skipped == 0) }),
            record i { next = latest + i.period * tick_rate },
          ))

  -- `delay`: `ceil` to milliseconds.
  unfoldable pub delay : ℕ → LocalInterval → ℕ
  delay now i = if not (ltb now i.next) then 0 else (i.next - now + (tick_rate - 1)) / tick_rate
