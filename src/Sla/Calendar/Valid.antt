-- ===== src/Sla/Calendar/Valid.antt =====
-- validateCalendar of ops/sla-engine.mjs: what a calendar that is accepted looks like.
use planeo.Prelude.{
  ◌+◌, ◌≤◌, ◌<◌, String, true, false, not, ◌||◌, inl, inr, List, [], ◌∷◌, All, Distinct, any,
  includes, length, unique, unique-Distinct, ◌==◌, leb, ltb, ok, throw_if_passed, traverse,
  traverse-All, length-traverse, >>=-eq-ok, ◌≡◌, refl, subst, arith, Bool-cases, Option-cases,
}
use planeo.Prelude.Int.{ℤ, pos, negsuc}
use planeo.Prelude.Json.{
  Json, arr, obj, nil, end, get, keys, or_else, as_array, as_object, as_integer,
}
use planeo.Sla.{
  Window, CalendarConfig, overlapping, too_many_intervals, not_seven_days, bad_holidays,
  unsupported_setting, no_working_time,
}
use planeo.Sla.Calendar.{
  Zones, window_of, pair_of, read_window, insert, by_start, overlap, windows, read_exception,
  some_hours, read_holidays, check_exceptions, read_timezone, read_week, read_calendar,
  validate_calendar, is_date, date_texts, calendar_settings,
}

-- An interval that lies in a day.
abbrev pub InDay : Window → Type 0
InDay w = (w.start < w.stop) × (w.stop ≤ 1440)

-- Each interval ends before the next one begins.
abbrev pub Disjoint : List Window → Type 0
Disjoint [] = Unit
Disjoint (x ∷ []) = Unit
Disjoint (x ∷ y ∷ ws) = (x.stop ≤ y.start) × Disjoint (y ∷ ws)

abbrev pub Hours : List Window → Type 0
Hours ws = All InDay ws × Disjoint ws × (length ws ≤ 8)

window_of-InDay : (a b : ℤ) (w : Window) → window_of a b ≡ ok w → InDay w
window_of-InDay (pos a) (pos b) w e = ground arith
window_of-InDay (pos a) (negsuc n) w e = cc
window_of-InDay (negsuc n) b w e = cc

pair_of-InDay : (items : List Json) (w : Window) → pair_of items ≡ ok w → InDay w
pair_of-InDay [] w e = cc
pair_of-InDay (a ∷ []) w e = cc
pair_of-InDay (a ∷ b ∷ c ∷ items) w e = cc
pair_of-InDay (a ∷ b ∷ []) w e = elim (Option-cases (as_integer a)) [
  | inl bad ↦ absurd (cc (rw bad at e))
  | inr (x, read) ↦ elim (Option-cases (as_integer b)) [
    | inl bad ↦ absurd (cc (rw (read, bad) at e))
    | inr (y, read_too) ↦ window_of-InDay x y w (rw (read, read_too) at e)
  ]
]

read_window-InDay : (item : Json) (w : Window) → read_window item ≡ ok w → InDay w
read_window-InDay item w e = elim (Option-cases (as_array item)) [
  | inl bad ↦ absurd (cc (rw bad at e))
  | inr (items, read) ↦ pair_of-InDay items w (rw read at e)
]

All-insert : (w : Window) (ws : List Window) → InDay w → All InDay ws → All InDay (insert w ws)
All-insert w [] h hs = (h, tt)
All-insert w (x ∷ ws) h hs = elim (Bool-cases (leb w.start x.start)) [
  | inl low ↦ rw low (h, hs)
  | inr high ↦ rw high (hs.0, All-insert w ws h hs.1)
]

All-by_start : (ws : List Window) → All InDay ws → All InDay (by_start ws)
All-by_start [] h = tt
All-by_start (w ∷ ws) h = All-insert w (by_start ws) h.0 (All-by_start ws h.1)

length-insert : (w : Window) (ws : List Window) → length (insert w ws) ≡ length ws + 1
length-insert w [] = refl
length-insert w (x ∷ ws) = ground (arith, length-insert w ws)

length-by_start : (ws : List Window) → length (by_start ws) ≡ length ws
length-by_start [] = refl
length-by_start (w ∷ ws) = omega (arith, length-insert w (by_start ws), length-by_start ws)

overlap-Disjoint : (ws : List Window) → overlap ws ≡ false → Disjoint ws
overlap-Disjoint [] h = tt
overlap-Disjoint (x ∷ []) h = tt
overlap-Disjoint (x ∷ y ∷ ws) h = ground (arith, overlap-Disjoint (y ∷ ws))

windows-Hours : (value : Json) (ws : List Window) → windows value ≡ ok ws → Hours ws
unfolding windows
windows-Hours value ws e = elim (Option-cases (as_array value)) [
  | inl bad ↦ absurd (cc (rw (bad, windows) at e))
  | inr (items, read) ↦
      let e1 = rw (read, windows) at e in
      let (few, e2) = throw_if_passed (ltb 8 (length items)) too_many_intervals _ e1 in
      let (parts, taken, e3) = >>=-eq-ok (traverse read_window items) _ e2 in
      let (apart, e4) = throw_if_passed (overlap (by_start parts)) overlapping _ e3 in
      let same : by_start parts ≡ ws = cc in
      let each = traverse-All InDay read_window read_window-InDay items parts taken in
      let count = length-traverse read_window items parts taken in
      rw (← same) (
        All-by_start parts each,
        overlap-Disjoint (by_start parts) apart,
        ground (arith, length-by_start parts, count),
      )
]

pub record IsCalendar (config : CalendarConfig) : Type 0 where
  pub seven : length config.week ≡ 7
  pub week_hours : All Hours config.week
  pub exception_hours : All (λ (e : String × List Window). Hours e.1) config.exceptions
  pub holidays_distinct : Distinct config.holidays
  pub some_work : some_hours config.week config.exceptions ≡ true

read_week-Hours :
    (value : Json) (week : List (List Window))
    → read_week value ≡ ok week
    → (length week ≡ 7) × All Hours week
read_week-Hours value week e = elim (Option-cases (as_array value)) [
  | inl bad ↦ absurd (cc (rw bad at e))
  | inr (days, read) ↦
      let e1 = rw read at e in
      let (seven, taken) = throw_if_passed (not (length days == 7)) not_seven_days _ e1 in
      let count = length-traverse windows days week taken in
      (ground (arith, count), traverse-All Hours windows windows-Hours days week taken)
]

read_holidays-Distinct :
    (zones : Zones) (value : Json) (days : List String)
    → read_holidays zones value ≡ ok days
    → Distinct days
read_holidays-Distinct zones value days e = elim (Option-cases (as_array value)) [
  | inl bad ↦ absurd (cc (rw bad at e))
  | inr (values, read) ↦
      let (fine, e1) =
        throw_if_passed (ltb 1000 (length values) || any (λ day. not (is_date zones day)) values)
          bad_holidays _ (rw read at e) in
      let same : unique (date_texts values) ≡ days = cc in
      subst Distinct same (unique-Distinct (date_texts values))
]

read_exception-Hours :
    (entry : String × Json) (hours : String × List Window)
    → read_exception entry ≡ ok hours
    → Hours hours.1
read_exception-Hours (day, value) hours e =
    let (ws, read, e1) = >>=-eq-ok (windows value) _ e in
    let same : ◌≡◌ {A = String × List Window} (day, ws) hours = cc in
    subst (λ (h : String × List Window). Hours h.1) same (windows-Hours value ws read)

read_calendar-IsCalendar :
    (zones : Zones) (input : List (String × Json)) (config : CalendarConfig)
    → read_calendar zones input ≡ ok config
    → IsCalendar config
read_calendar-IsCalendar zones input config e =
    let (known, e1) =
      throw_if_passed (any (λ key. not (includes calendar_settings key)) (keys input))
        unsupported_setting _ e in
    let (zone, zone_read, e2) = >>=-eq-ok (read_timezone zones (get "timezone" input)) _ e1 in
    let (week, week_read, e3) = >>=-eq-ok (read_week (get "week" input)) _ e2 in
    let (days, days_read, e4) =
      >>=-eq-ok (read_holidays zones (or_else (get "holidays" input) (arr nil))) _ e3 in
    let (entries, entries_read, e5) =
      >>=-eq-ok (check_exceptions zones (or_else (get "exceptions" input) (obj end))) _ e4 in
    let (exceptions, taken, e6) = >>=-eq-ok (traverse read_exception entries) _ e5 in
    let (idle, e7) = throw_if_passed (not (some_hours week exceptions)) no_working_time _ e6 in
    let made : record { timezone = zone; week = week; holidays = days; exceptions = exceptions }
        ≡ config =
      cc in
    let week_valid = read_week-Hours (get "week" input) week week_read in
    subst IsCalendar made (record {
      seven = week_valid.0;
      week_hours = week_valid.1;
      exception_hours =
          traverse-All (λ (h : String × List Window). Hours h.1) read_exception read_exception-Hours
            entries exceptions taken;
      holidays_distinct =
          read_holidays-Distinct zones (or_else (get "holidays" input) (arr nil)) days days_read;
      some_work = ground (arith, Bool-cases (some_hours week exceptions));
    })

-- What validateCalendar accepts has seven days, an interval of work somewhere, and on every day and
-- exception at most eight intervals, each within the day and none overlapping another; no holiday
-- is named twice.
pub validate_calendar-IsCalendar :
    (zones : Zones) (value : Json) (config : CalendarConfig)
    → validate_calendar zones value ≡ ok config
    → IsCalendar config
unfolding validate_calendar
validate_calendar-IsCalendar zones value config e = elim (Option-cases (as_object value)) [
  | inl bad ↦ absurd (cc (rw (bad, validate_calendar) at e))
  | inr (input, read) ↦
      read_calendar-IsCalendar zones input config (rw (read, validate_calendar) at e)
]
