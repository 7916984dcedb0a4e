-- ===== src/DataSource/LocalInterval/Parse.antt =====
-- datasource/cron/local_interval.hpp: what the text of an interval is read as.
use cppservicelib.Prelude.{
  ℕ, ◌+◌, ◌-◌, ◌*◌, ◌/◌, ◌≤◌, ◌<◌, ◌≡◌, refl, ap, ◌∙◌, ◌⊎◌, inl, inr, Bool, true, false, ◌&&◌, ◌||◌,
  [], ◌∷◌, ◌++◌, Option, none, some, ltb, ==_refl, if◌then◌else◌, length, length-append,
  take-append, drop-append, Bool-cases, arith,
}
use cppservicelib.DataSource.LocalInterval.{
  Text, ok, err, invalid_text, invalid_period, starts_with, ends_with, every, every_space, ms,
  is_digit, digits_value, starts_with_zero, accept_period, parse_local_interval, make_interval,
}

starts_with-append : (p rest : Text) → starts_with p (p ++ rest) ≡ true
unfolding starts_with
starts_with-append [] rest = refl
starts_with-append (c ∷ p) rest = rw (==_refl c) (starts_with-append p rest)

starts_with_refl : (p : Text) → starts_with p p ≡ true
unfolding starts_with
starts_with_refl [] = refl
starts_with_refl (c ∷ p) = rw (==_refl c) (starts_with_refl p)

ends_with-append : (front suffix : Text) → ends_with suffix (front ++ suffix) ≡ true
unfolding ends_with
ends_with-append front suffix =
    let size = length-append front suffix in
    let enough : ltb (length (front ++ suffix)) (length suffix) ≡ false = rw size (ground arith) in
    let place : length (front ++ suffix) - length suffix ≡ length front = omega (arith, size) in
    rw (enough, place, drop-append front suffix) (starts_with_refl suffix)

abbrev pub interval_text : Text → Text
interval_text digits = every_space ++ (digits ++ ms)

abbrev pub all_digits : Text → Bool
all_digits [] = true
all_digits (c ∷ cs) = is_digit c && all_digits cs

-- The digits in the order of writing, of a number that is given by its ones, its tens, and so on.
abbrev pub written : Text → Text
written [] = []
written (c ∷ cs) = written cs ++ c ∷ []

abbrev pub number : Text → ℕ
number [] = 0
number (c ∷ cs) = (c - 48) + 10 * number cs

length-written : (ones : Text) → length (written ones) ≡ length ones
length-written [] = refl
length-written (c ∷ cs) = length-append (written cs) (c ∷ []) ∙ omega (arith, length-written cs)

next_digit : ℕ → Option ℕ → Option ℕ
next_digit c none = none
next_digit c (some n) = if is_digit c then some (n * 10 + (c - 48)) else none

digits_value-append :
    (start c : ℕ) (text : Text)
    → digits_value start (text ++ c ∷ []) ≡ next_digit c (digits_value start text)
unfolding digits_value next_digit
digits_value-append start c [] = refl
digits_value-append start c (d ∷ ds) = elim (Bool-cases (is_digit d)) [
  | inl e ↦ rw e (digits_value-append (start * 10 + (d - 48)) c ds)
  | inr e ↦ rw e refl
]

digits_value-written :
    (ones : Text) → all_digits ones ≡ true → digits_value 0 (written ones) ≡ some (number ones)
unfolding digits_value next_digit
digits_value-written [] e = refl
digits_value-written (c ∷ cs) e =
    let digit : is_digit c ≡ true = ground arith in
    digits_value-append 0 c (written cs)
    ∙ rw (digits_value-written cs (ground arith), next_digit, digit) (ap some (omega arith))

-- A text "@every Nms" is read up to its bounds as the end of the parser decides.
parse_local_interval-digits :
    (digits : Text) (n : ℕ)
    → starts_with_zero digits ≡ false
    → length digits ≤ 8
    → digits_value 0 digits ≡ some n
    → parse_local_interval (interval_text digits) ≡ accept_period (some n)
unfolding parse_local_interval
parse_local_interval-digits [] n front few value = absurd (ground arith)
parse_local_interval-digits (d ∷ ds) n front few value =
    let digits = d ∷ ds in
    let size = length-append digits ms in
    let place : length (interval_text digits) - 9 ≡ length digits = omega (arith, size) in
    let short : ltb (length (interval_text digits)) 10 ≡ false = ground (arith, size) in
    let long : ltb 17 (length (interval_text digits)) ≡ false = ground (arith, size) in
    rw
      (
        starts_with-append every (32 ∷ (digits ++ ms)),
        starts_with-append every_space (digits ++ ms),
        ends_with-append (every_space ++ digits) ms,
        short,
        long,
        place,
        take-append digits ms,
        front,
        value,
      )
      refl

-- A text "@every Nms" whose N is written with at most eight digits and no zero in front: where N is
-- from 10 to 86400000 it is read as the number N, which the constructor of an interval takes, with the
-- next instant N behind the whole milliseconds of the anchor; any other N is refused by the parser and
-- by the constructor alike.
pub parse_local_interval-reads :
    (tick_rate anchor : ℕ) (ones : Text)
    → all_digits ones ≡ true
    → starts_with_zero (written ones) ≡ false
    → length ones ≤ 8
    → let n = number ones in
      let read = parse_local_interval (interval_text (written ones)) in
      ((10 ≤ n)
        × (n ≤ 86400000)
        × (read ≡ ok (some n))
        × (make_interval tick_rate n anchor
            ≡ ok (record { period = n; next = anchor / tick_rate * tick_rate + n * tick_rate })))
      ⊎ (((n < 10) ⊎ (86400000 < n))
          × (read ≡ err invalid_text)
          × (make_interval tick_rate n anchor ≡ err invalid_period))
unfolding make_interval
parse_local_interval-reads tick_rate anchor ones digits front few =
    let n = number ones in
    let read =
      parse_local_interval-digits (written ones) n front (rw (length-written ones) few)
        (digits_value-written ones digits) in
    elim (Bool-cases (ltb n 10 || ltb 86400000 n)) [
      | inl e ↦ inr (ground (arith, e), read ∙ rw e refl, rw e refl)
      | inr e ↦ inl (ground (arith, e), ground (arith, e), read ∙ rw e refl, rw e refl)
    ]
