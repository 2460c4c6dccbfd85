-- ===== src/Scheduler/Daily.antt =====
-- scheduler/schedule.go: `Daily`, a wall time in a timezone, and its next occurrence.
-- The package `time` is a parameter: which timezones it knows, what the clock on the wall shows at
-- an instant, and which instant noon of a civil day is in UTC.
pub mod Next
use push_dispatch.Base.{
  ℕ, zero, suc, ◌+◌, ◌-◌, ◌*◌, ◌%◌, String, len, Bool, true, false, ◌&&◌, ◌||◌, Option, none, some,
  ℤ, pos, negsuc, Time, str_eq, ltb, ◌==◌, minute as one_minute, hour as one_hour, is_some,
  if◌then◌else◌,
}
use push_dispatch.Push.Errors.{Error, plain, Result, ok, err}

pub record Wall : Type 0 where
  pub year : ℕ
  pub month : ℕ
  pub day : ℕ
  pub year_day : ℕ
  pub hour : ℕ
  pub minute : ℕ

-- `time.LoadLocation`, `t.In(loc)`, `t.UTC()`, and `time.Date(year, month, day, 12, 0, 0, 0, UTC)`,
-- which takes a day past the end of the month to the next one.
pub record Calendar : Type 0 where
  pub load_location : String → Option Error
  pub in_location : String → Time → Wall
  pub in_utc : Time → Wall
  pub utc_noon : ℕ → ℕ → ℕ → Time

pub record Daily : Type 0 where
  pub local_time : ℤ
  pub timezone : String

-- `d.LocalTime < 0 || d.LocalTime > 2359 || d.LocalTime%100 > 59`.
abbrev pub not_hhmm : ℤ → Bool
not_hhmm (negsuc n) = true
not_hhmm (pos n) = ltb 2359 n || ltb 59 (n % 100)

-- The 72 hours from 36 hours before the noon of the day: `start` and the number of rounds.
abbrev pub window_start : Time → Time
window_start date = date - 36 * one_hour

abbrev pub window_minutes : ℕ
window_minutes = 72 * 60

module _ (calendar : Calendar) where
  -- `Daily.Validate`.
  unfoldable pub validate_daily : Daily → Option Error
  validate_daily d =
      if not_hhmm d.local_time
      then some (plain "localTime must be HHMM")
      else if str_eq d.timezone "" || ltb 128 (len d.timezone) || str_eq d.timezone "Local"
      then some (plain "an IANA timezone is required")
      else calendar.load_location d.timezone

  abbrev pub is_local_time : ℤ → ℕ → Bool
  is_local_time (pos n) m = m == n
  is_local_time (negsuc n) m = false

  -- The test of the inner loop, on the day of `date`.
  unfoldable pub matches : Daily → Time → Time → Bool
  matches d date t =
      let wall = calendar.in_location d.timezone t in
      let day = calendar.in_utc date in
      (wall.year == day.year)
      && (wall.year_day == day.year_day)
      && is_local_time d.local_time (wall.hour * 100 + wall.minute)

  -- The inner loop, minute by minute, up to the first match.
  unfoldable pub scan : Daily → Time → ℕ → Time → Option Time
  scan d date zero t = none
  scan d date (suc rounds) t =
      let rest = scan d date rounds (t + one_minute) in if matches d date t then some t else rest

  -- The noon of the day `day` days after the one on which `after` falls.
  unfoldable pub noon : Daily → Time → ℕ → Time
  noon d after day =
      let wall = calendar.in_location d.timezone after in
      calendar.utc_noon wall.year wall.month (wall.day + day)

  -- The outer loop, with `left` days before the eighth.
  unfoldable pub next_from : Daily → Time → ℕ → ℕ → Result Time
  next_from d after zero day = err (plain "no daily occurrence in the next week")
  next_from d after (suc left) day =
      let date = noon d after day in
      let rest = next_from d after left (suc day) in
      elim (scan d date window_minutes (window_start date)) [
        | none ↦ rest
        | some t ↦ if ltb after t then ok t else rest
      ]

  -- `Daily.Next`.
  unfoldable pub daily_next : Daily → Time → Result Time
  daily_next d after = elim (validate_daily d) [ some e ↦ err e | none ↦ next_from d after 8 0 ]
