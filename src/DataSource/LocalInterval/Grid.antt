-- ===== src/DataSource/LocalInterval/Grid.antt =====
-- datasource/cron/local_interval.hpp: the instants of a schedule.
use native.Mathlib.Nat.{div-add-mod, mod-lt}
use cppservicelib.Prelude.{
  ℕ, zero, suc, ◌+◌, ◌-◌, ◌*◌, ◌/◌, ◌≤◌, ◌<◌, ◌≡◌, refl, true, false, not, List, [], ◌∷◌, Option,
  none, some, inl, inr, ltb, ◌==◌, Bool-cases, arith,
}
use cppservicelib.DataSource.LocalInterval.{LocalInterval, Due, take_due, delay}

-- The quotient and its remainder.
div_bounds : (n d : ℕ) → 0 < d → (d * (n / d) ≤ n) × (n < d * (n / d) + d)
div_bounds n d h =
    let whole = div-add-mod n d in let small = mod-lt n h in (grind arith, grind arith)

-- An interval between two instants, in ticks.
abbrev pub step : ℕ → LocalInterval → ℕ
step tick_rate i = i.period * tick_rate

positive-mul : (a b : ℕ) → 0 < a → 0 < b → 0 < a * b
positive-mul (suc a) (suc b) h k = grind arith
positive-mul zero b h k = absurd (omega arith)
positive-mul (suc a) zero h k = absurd (omega arith)

missed_lem : (a p q : ℕ) → 0 < p → not (q == 0) ≡ not (a + p * q == a)
missed_lem a p zero h = let z : p * 0 ≡ 0 = grind arith in ground arith
missed_lem a p (suc q) h = let more = positive-mul p (suc q) h (omega arith) in ground arith

ceil_bounds :
    (m r k : ℕ)
    → 0 < m
    → r * k ≤ m + (r - 1)
    → m + (r - 1) < r * k + r
    → (0 < k) × (m ≤ k * r) × ((k - 1) * r < m)
ceil_bounds m r zero h low high = let z : r * 0 ≡ 0 = grind arith in absurd (omega arith)
ceil_bounds m r (suc k) h low high =
    let split : r * suc k ≡ k * r + r = grind arith in
    let whole : suc k * r ≡ k * r + r = grind arith in
    let less : suc k - 1 ≡ k = omega arith in (omega arith, omega arith, rw less (omega arith))

module _ (tick_rate : ℕ) (i : LocalInterval) (ticks : 0 < tick_rate) (long : 0 < i.period) where
  -- For a clock with ticks and a positive period: where the next instant has come, the interval tells
  -- the latest instant that is not in the future, whether others before it were missed, and goes on
  -- one step behind it.
  pub take_due-now :
      (now : ℕ)
      → i.next ≤ now
      → (d : Due) × ((take_due tick_rate now i).0 ≡ some d)
        × (i.next ≤ d.scheduled_at)
        × (d.scheduled_at ≤ now)
        × (now < d.scheduled_at + step tick_rate i)
        × (d.missed ≡ not (d.scheduled_at == i.next))
        × ((take_due tick_rate now i).1 ≡ record i { next = d.scheduled_at + step tick_rate i })
  unfolding take_due
  take_due-now now h =
      let p = step tick_rate i in
      let n = now - i.next in
      let e : ltb now i.next ≡ false = ground arith in
      let positive = positive-mul i.period tick_rate long ticks in
      let (low, high) = div_bounds n p positive in
      let latest = i.next + p * (n / p) in
      (
        record { scheduled_at = latest; missed = not (n / p == 0) },
        rw e refl,
        omega arith,
        omega (arith, low),
        omega (arith, high),
        missed_lem i.next p (n / p) positive,
        rw e refl,
      )

  -- Before the next instant, the delay in milliseconds is the least one that reaches it.
  pub delay_reaches :
      (now : ℕ)
      → now < i.next
      → (0 < delay tick_rate now i)
        × (i.next ≤ now + delay tick_rate now i * tick_rate)
        × (now + (delay tick_rate now i - 1) * tick_rate < i.next)
  unfolding delay
  delay_reaches now h =
      let e : ltb now i.next ≡ true = ground arith in
      let (low, high) = div_bounds (i.next - now + (tick_rate - 1)) tick_rate ticks in
      let bounds =
        ceil_bounds (i.next - now) tick_rate ((i.next - now + (tick_rate - 1)) / tick_rate)
          (omega arith) low high in
      rw e (bounds.0, omega (arith, bounds.1), omega (arith, bounds.2))

abbrev pub tell : Option Due → List ℕ → List ℕ
tell none rest = rest
tell (some d) rest = d.scheduled_at ∷ rest

-- The instants that an interval tells at some readings of the clock, in any order.
abbrev pub instants : ℕ → List ℕ → LocalInterval → List ℕ
instants tick_rate [] i = []
instants tick_rate (now ∷ nows) i =
    tell (take_due tick_rate now i).0 (instants tick_rate nows (take_due tick_rate now i).1)

-- Each is at least `gap` behind the one before it, and the first one not before `least`.
abbrev pub Spaced : ℕ → ℕ → List ℕ → Type 0
Spaced gap least [] = Unit {0}
Spaced gap least (x ∷ xs) = (least ≤ x) × Spaced gap (x + gap) xs

-- For a clock with ticks and a positive period, and whatever the clock shows, also where it goes back:
-- an interval tells no instant before its next one, none twice, and always a later one by at least one
-- step.
pub instants-Spaced :
    (tick_rate : ℕ) (nows : List ℕ) (i : LocalInterval)
    → 0 < tick_rate
    → 0 < i.period
    → Spaced (step tick_rate i) i.next (instants tick_rate nows i)
unfolding take_due
instants-Spaced tick_rate [] i ticks long = tt
instants-Spaced tick_rate (now ∷ nows) i ticks long = elim (Bool-cases (ltb now i.next)) [
  | inl e ↦ rw (e, instants) (instants-Spaced tick_rate nows i ticks long)
  | inr e ↦
      let p = step tick_rate i in
      let latest = i.next + p * ((now - i.next) / p) in
      rw (e, instants)
        (omega arith, instants-Spaced tick_rate nows (record i { next = latest + p }) ticks long)
]
