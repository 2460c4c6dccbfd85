-- ===== src/Scheduler/Daily/Next.antt =====
-- What `Daily.Next` returns.
use mathlib.Core.Option.{some-injective}
use push_dispatch.Base.{
  ℕ, zero, suc, ◌+◌, ◌-◌, ◌*◌, ◌<◌, ◌≤◌, ◌≡◌, ◌⊎◌, inl, inr, refl, sym, ap, subst, true, false,
  Option, none, some, ℤ, pos, negsuc, Option-cases, Bool-cases, Time, ltb, minute as one_minute,
  hour as one_hour, arith,
}
use push_dispatch.Push.Errors.{Error, plain, Result, ok, err}
use push_dispatch.Scheduler.Daily.{
  Calendar, Daily, validate_daily, is_local_time, matches, scan, window_start, window_minutes, noon,
  next_from, daily_next,
}

is_local_time-true :
    (calendar : Calendar) (l : ℤ) (m : ℕ) → is_local_time calendar l m ≡ true → l ≡ pos m
is_local_time-true calendar (pos n) m h = ap pos (ground arith)
is_local_time-true calendar (negsuc n) m h = absurd (ground arith)

is_local_time-same :
    (calendar : Calendar) (l : ℤ) (m : ℕ) → l ≡ pos m → is_local_time calendar l m ≡ true
is_local_time-same calendar l m e =
    subst (λ x. is_local_time calendar x m ≡ true) (sym e) (ground arith)

module _ (calendar : Calendar) (d : Daily) where
  -- At `t` the wall shows the local time, on the civil day of `date`.
  pub record IsShown (date t : Time) : Type 0 where
    pub same_year : (calendar.in_location d.timezone t).year ≡ (calendar.in_utc date).year
    pub same_day : (calendar.in_location d.timezone t).year_day ≡ (calendar.in_utc date).year_day
    pub same_time :
        d.local_time
        ≡ pos (
            (calendar.in_location d.timezone t).hour * 100
            + (calendar.in_location d.timezone t).minute)

  matches-IsShown : (date t : Time) → matches calendar d date t ≡ true → IsShown date t
  unfolding matches
  matches-IsShown date t h = record {
    same_year = ground arith;
    same_day = ground arith;
    same_time = is_local_time-true calendar d.local_time _ (ground arith);
  }

  matches-false : (date t : Time) → matches calendar d date t ≡ false → ¬ IsShown date t
  unfolding matches
  matches-false date t h shown = absurd (
      ground (
        arith,
        shown.same_year,
        shown.same_day,
        is_local_time-same calendar d.local_time _ shown.same_time,
      ))

  -- The instant `round` minutes after the start of the 72 hours around `date`.
  abbrev pub at_round : Time → ℕ → Time
  at_round date round = date - 36 * one_hour + round * one_minute

  -- `t` is the first minute of the 72 hours around `date` at which the wall shows the local time.
  pub record IsFirstMatch (date t : Time) : Type 0 where
    pub round : ℕ
    pub in_window : round < 72 * 60
    pub time_of_round : t ≡ at_round date round
    pub hit : IsShown date t
    pub first : (m : ℕ) → m < round → ¬ IsShown date (at_round date m)

  -- The rounds before `done` do not match.
  abbrev pub Missed : Time → ℕ → Type 0
  Missed date done = (m : ℕ) → m < done → ¬ IsShown date (at_round date m)

  Missed-suc :
      (date t : Time) (done : ℕ)
      → t ≡ at_round date done
      → ¬ IsShown date t
      → Missed date done
      → Missed date (suc done)
  Missed-suc date t done e miss before m h = elim (Bool-cases (ltb m done)) [
    | inl earlier ↦ before m (ground arith)
    | inr last ↦
        let same : m ≡ done = ground arith in
        subst (λ k. ¬ IsShown date (at_round date k)) (sym same)
          (subst (λ u. ¬ IsShown date u) e miss)
  ]

  -- A scan that starts `done` rounds into the window, and finds a match.
  scan-first :
      (date t : Time) (rounds done : ℕ) (found : Time)
      → done + rounds ≡ 72 * 60
      → t ≡ at_round date done
      → Missed date done
      → scan calendar d date rounds t ≡ some found
      → IsFirstMatch date found
  unfolding scan
  scan-first date t zero done found e at before h = absurd (ground arith)
  scan-first date t (suc rounds) done found e at before h =
      elim (Bool-cases (matches calendar d date t)) [
        | inl hit ↦
            let same : t ≡ found = some-injective t found (rw (hit, scan) at h) in
            subst (IsFirstMatch date) same (record {
              round = done;
              in_window = omega arith;
              time_of_round = at;
              hit = matches-IsShown date t hit;
              first = before;
            })
        | inr miss ↦
            scan-first date (t + one_minute) rounds (suc done) found (omega arith) (omega arith)
              (Missed-suc date t done at (matches-false date t miss) before) (rw (miss, scan) at h)
      ]

  -- A scan that finds none has missed every minute of the window.
  scan-none :
      (date t : Time) (rounds done : ℕ)
      → done + rounds ≡ 72 * 60
      → t ≡ at_round date done
      → Missed date done
      → scan calendar d date rounds t ≡ none
      → Missed date (72 * 60)
  unfolding scan
  scan-none date t zero done e at before h = subst (Missed date) (omega arith) before
  scan-none date t (suc rounds) done e at before h = elim (Bool-cases (matches calendar d date t)) [
    | inl hit ↦ absurd (ground (arith, rw (hit, scan) at h))
    | inr miss ↦
        scan-none date (t + one_minute) rounds (suc done) (omega arith) (omega arith)
          (Missed-suc date t done at (matches-false date t miss) before) (rw (miss, scan) at h)
  ]

  abbrev scan_day : Time → ℕ → Option Time
  scan_day after day =
      let date = noon calendar d after day in
      scan calendar d date window_minutes (window_start date)

  -- Noon of the civil day `day` days after the one the wall shows at `after`.
  abbrev pub civil_noon : Time → ℕ → Time
  civil_noon after day =
      let wall = calendar.in_location d.timezone after in
      calendar.utc_noon wall.year wall.month (wall.day + day)

  -- A day that has no occurrence after `after`: the wall shows the local time at no minute of its
  -- window, or the first one is not after it.
  abbrev pub IsOver : Time → Time → Type 0
  IsOver after date = Missed date (72 * 60) ⊎ ((t : Time) × IsFirstMatch date t × (t ≤ after))

  -- The first match of the first of eight days that has one after `after`.
  pub record IsOccurrence (after t : Time) : Type 0 where
    pub later : after < t
    pub day : ℕ
    pub in_week : day < 8
    pub first_match : IsFirstMatch (civil_noon after day) t
    pub days_over : (i : ℕ) → i < day → IsOver after (civil_noon after i)

  abbrev DaysOver : Time → ℕ → Type 0
  DaysOver after day = (i : ℕ) → i < day → IsOver after (civil_noon after i)

  DaysOver-suc :
      (after : Time) (day : ℕ)
      → IsOver after (civil_noon after day)
      → DaysOver after day
      → DaysOver after (suc day)
  DaysOver-suc after day o before i h = elim (Bool-cases (ltb i day)) [
    | inl earlier ↦ before i (ground arith)
    | inr last ↦
        let same : i ≡ day = ground arith in
        subst (λ k. IsOver after (civil_noon after k)) (sym same) o
  ]

  scan_day-some :
      (after : Time) (day : ℕ) (u : Time)
      → scan_day after day ≡ some u
      → IsFirstMatch (civil_noon after day) u
  unfolding noon
  scan_day-some after day u found =
      scan-first (civil_noon after day) _ window_minutes 0 u (omega arith) (omega arith)
        (λ m lt. absurd (omega arith)) found

  scan_day-none :
      (after : Time) (day : ℕ) → scan_day after day ≡ none → Missed (civil_noon after day) (72 * 60)
  unfolding noon
  scan_day-none after day nothing =
      scan-none (civil_noon after day) _ window_minutes 0 (omega arith) (omega arith)
        (λ m lt. absurd (omega arith)) nothing

  -- What `Next` gives: an occurrence, the error of the check, or an error where all of eight days
  -- are over.
  pub data IsNext (after : Time) (r : Result Time) : Type 0 where
    occurs :
        (t : Time)
        → validate_daily calendar d ≡ none
        → r ≡ ok t
        → IsOccurrence after t
        → IsNext after r
    invalid : (e : Error) → validate_daily calendar d ≡ some e → r ≡ err e → IsNext after r
    none_left :
        validate_daily calendar d ≡ none
        → ((i : ℕ) → i < 8 → IsOver after (civil_noon after i))
        → r ≡ err (plain "no daily occurrence in the next week")
        → IsNext after r

  next_from-IsNext :
      (after : Time) (left day : ℕ)
      → validate_daily calendar d ≡ none
      → day + left ≡ 8
      → DaysOver after day
      → IsNext after (next_from calendar d after left day)
  unfolding next_from
  next_from-IsNext after zero day valid e before =
      none_left valid (subst (DaysOver after) (omega arith) before) refl
  next_from-IsNext after (suc left) day valid e before = elim (Option-cases (scan_day after day)) [
    | inl nothing ↦
        rw (nothing, next_from)
          (next_from-IsNext after left (suc day) valid (omega arith)
            (DaysOver-suc after day (inl (scan_day-none after day nothing)) before))
    | inr (u, found) ↦
        let first = scan_day-some after day u found in
        elim (Bool-cases (ltb after u)) [
          | inl later ↦
              rw (found, later, next_from)
                (occurs u valid refl (record {
                  later = ground arith;
                  day = day;
                  in_week = omega arith;
                  first_match = first;
                  days_over = before;
                }))
          | inr over ↦
              rw (found, over, next_from)
                (next_from-IsNext after left (suc day) valid (omega arith)
                  (DaysOver-suc after day (inr (u, first, ground arith)) before))
        ]
  ]

  -- `Next` fails with the error of `Validate`, if there is one. Otherwise it looks at eight civil
  -- days, from the one that the wall shows at the given instant: for each, at the 4320 minutes from
  -- 36 hours before the day's noon in UTC, for the first one at which the wall shows this day and
  -- the local time; so a repeated wall time counts at its first occurrence only. It returns the
  -- first of these that is after the given instant: for each day before, the wall shows it and the
  -- local time at none of its minutes, or the first one is not after the given instant. It fails
  -- for want of an occurrence only if this holds of all eight days.
  pub daily_next-IsNext : (after : Time) → IsNext after (daily_next calendar d after)
  unfolding daily_next
  daily_next-IsNext after = elim (Option-cases (validate_daily calendar d)) [
    | inl valid ↦
        rw (valid, daily_next)
          (next_from-IsNext after 8 0 valid (omega arith) (λ i lt. absurd (omega arith)))
    | inr (e, bad) ↦ rw (bad, daily_next) (invalid e bad refl)
  ]

  pub daily_next-IsOccurrence :
      (after t : Time) → daily_next calendar d after ≡ ok t → IsOccurrence after t
  daily_next-IsOccurrence after t h = by_answer (daily_next-IsNext after)
    where
      by_answer : IsNext after (daily_next calendar d after) → IsOccurrence after t
      by_answer (occurs u valid found o) = subst (IsOccurrence after) (ground (arith, found, h)) o
      by_answer (invalid e bad refused) = absurd (ground (arith, refused, h))
      by_answer (none_left valid days refused) = absurd (ground (arith, refused, h))
