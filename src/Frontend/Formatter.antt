-- ===== src/Frontend/Formatter.antt =====
-- How a point of time is shown: `formatDate` of
-- src/frontend/src/contexts/FormatterContext/context.tsx. Times are natural numbers of milliseconds;
-- a difference is kept as a direction and a distance. The formatters of `Intl` are left out: what
-- they are given is the result.
use easytrade.Base.{ℕ, ◌+◌, ◌-◌, ◌*◌, ◌/◌, ◌≤◌, ◌<◌, ◌≡◌, true, false, ltb, leb, arith}
use easytrade.Base.{if◌then◌else◌, inl, inr, Bool-cases}

abbrev pub miliseconds_in_minute : ℕ
miliseconds_in_minute = 60000

abbrev pub miliseconds_in_hour : ℕ
miliseconds_in_hour = 3600000

abbrev pub miliseconds_in_day : ℕ
miliseconds_in_day = 86400000

-- A whole number: `before n` is -n.
pub data Relative : Type 0 where
  before after : ℕ → Relative

-- What is formatted: a number of minutes or of hours, or the time itself.
pub data Shown : Type 0 where
  minutes hours : Relative → Shown
  date : ℕ → Shown

-- `Math.floor(timeDiff / unit)`, for the time `n` at the time `now`: of a negative quotient the floor
-- is away from zero.
unfoldable pub floor_div : ℕ → ℕ → ℕ → Relative
floor_div unit now n =
    if leb now n then after ((n - now) / unit) else before ((now - n + (unit - 1)) / unit)

-- `Math.abs(timeDiff)`
abbrev pub distance : ℕ → ℕ → ℕ
distance now n = if leb now n then n - now else now - n

unfoldable pub format_date : ℕ → ℕ → Shown
unfolding floor_div
format_date now n =
    if ltb (distance now n) miliseconds_in_hour
    then minutes (floor_div miliseconds_in_minute now n)
    else if ltb (distance now n) miliseconds_in_day
    then hours (floor_div miliseconds_in_hour now n)
    else date n

-- What is shown: less than an hour away the minutes, rounded towards the past; less than a day away
-- the hours, rounded so, too; and else the date.
pub data IsBounded (now n : ℕ) : Shown → Type 0 where
  minutes_ago :
      (k : ℕ)
      → now - n < 3600000
      → n < now
      → now - n ≤ k * 60000
      → k * 60000 < now - n + 60000
      → IsBounded now n (minutes (before k))
  minutes_ahead :
      (k : ℕ)
      → n - now < 3600000
      → now ≤ n
      → k * 60000 ≤ n - now
      → n - now < k * 60000 + 60000
      → IsBounded now n (minutes (after k))
  hours_ago :
      (k : ℕ)
      → 3600000 ≤ now - n
      → now - n < 86400000
      → n < now
      → now - n ≤ k * 3600000
      → k * 3600000 < now - n + 3600000
      → IsBounded now n (hours (before k))
  hours_ahead :
      (k : ℕ)
      → 3600000 ≤ n - now
      → n - now < 86400000
      → now ≤ n
      → k * 3600000 ≤ n - now
      → n - now < k * 3600000 + 3600000
      → IsBounded now n (hours (after k))
  far : 86400000 ≤ distance now n → IsBounded now n (date n)

below : (a b : ℕ) → ltb a b ≡ true → a < b
below a b h = ground arith

not_below : (a b : ℕ) → ltb a b ≡ false → b ≤ a
not_below a b h = ground arith

at_most : (a b : ℕ) → leb a b ≡ true → a ≤ b
at_most a b h = ground arith

above : (a b : ℕ) → leb a b ≡ false → b < a
above a b h = ground arith

-- A time less than an hour away is shown in minutes, one that is less than a day away otherwise in
-- hours, each the greatest whole number that is not after it, and one that is a day or more away by
-- its date; what is past is never shown as ahead.
pub format_date-IsBounded : (now n : ℕ) → IsBounded now n (format_date now n)
unfolding format_date floor_div
format_date-IsBounded now n = elim (Bool-cases (leb now n)) [
  | inl ahead ↦
      let order : now ≤ n = at_most now n ahead in
      elim (Bool-cases (ltb (n - now) 3600000)) [
        | inl soon ↦
            let near : n - now < 3600000 = below _ _ soon in
            rw (ahead, soon) (minutes_ahead _ near order (omega arith) (omega arith))
        | inr later ↦
            let hour : 3600000 ≤ n - now = not_below _ _ later in
            elim (Bool-cases (ltb (n - now) 86400000)) [
              | inl today ↦
                  let day : n - now < 86400000 = below _ _ today in
                  rw (ahead, later, today)
                    (hours_ahead _ hour day order (omega arith) (omega arith))
              | inr away ↦
                  let distant : 86400000 ≤ n - now = not_below _ _ away in
                  rw (ahead, later, away) (far (rw ahead distant))
            ]
      ]
  | inr past ↦
      let order : n < now = above now n past in
      elim (Bool-cases (ltb (now - n) 3600000)) [
        | inl soon ↦
            let near : now - n < 3600000 = below _ _ soon in
            rw (past, soon) (minutes_ago _ near order (omega arith) (omega arith))
        | inr later ↦
            let hour : 3600000 ≤ now - n = not_below _ _ later in
            elim (Bool-cases (ltb (now - n) 86400000)) [
              | inl today ↦
                  let day : now - n < 86400000 = below _ _ today in
                  rw (past, later, today) (hours_ago _ hour day order (omega arith) (omega arith))
              | inr away ↦
                  let distant : 86400000 ≤ now - n = not_below _ _ away in
                  rw (past, later, away) (far (rw past distant))
            ]
      ]
]
