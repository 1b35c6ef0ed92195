-- ===== src/Sla/Calendar.antt =====
-- validateCalendar of ops/sla-engine.mjs, and windows, which it calls.
pub mod Valid
use planeo.Prelude.{
  ℕ, String, Bool, true, false, not, ◌&&◌, ◌||◌, Option, none, some, List, [], ◌∷◌, any, length,
  includes, codes, units, unique, ◌==◌, ltb, leb, maybe, if◌then◌else◌, Result, ok, err, throw_if,
  ◌>>=◌, ◌>>◌, traverse,
}
use planeo.Prelude.Int.{ℤ, pos, negsuc}
use planeo.Prelude.Json.{
  Json, arr, obj, nil, end, as_array, as_object, as_string, as_integer, get, keys, or_else,
}
use planeo.CustomFields.{is_day}
use planeo.Sla.{
  Window, CalendarConfig, SlaError, too_many_intervals, bad_interval, overlapping, no_calendar,
  unsupported_setting, no_timezone, unknown_timezone, not_seven_days, bad_holidays, bad_exceptions,
  no_working_time,
}

-- What is asked of Intl and of Date: whether a zone is known, and whether a day that is read is
-- written the same way.
pub record Zones : Type 0 where
  pub is_timezone : String → Bool
  pub reads_back : String → Bool

-- `date`
abbrev pub is_date : Zones → Json → Bool
is_date zones value = maybe (as_string value) false (λ s. is_day (codes s) && zones.reads_back s)

abbrev window_of : ℤ → ℤ → Result SlaError Window
window_of (pos start) (pos stop) =
    if ltb 1440 stop || leb stop start
    then err bad_interval
    else ok (record { start = start; stop = stop })
window_of (pos start) (negsuc n) = err bad_interval
window_of (negsuc n) stop = err bad_interval

abbrev pair_of : List Json → Result SlaError Window
pair_of (a ∷ b ∷ []) =
    maybe (as_integer a) (err bad_interval)
      (λ start. maybe (as_integer b) (err bad_interval) (window_of start))
pair_of _ = err bad_interval

abbrev pub read_window : Json → Result SlaError Window
read_window item = maybe (as_array item) (err bad_interval) pair_of

-- `sort((a, b) => a[0] - b[0])`, which is stable.
abbrev pub insert : Window → List Window → List Window
insert w [] = w ∷ []
insert w (x ∷ xs) = let rest = insert w xs in if leb w.start x.start then w ∷ x ∷ xs else x ∷ rest

abbrev pub by_start : List Window → List Window
by_start [] = []
by_start (w ∷ ws) = insert w (by_start ws)

abbrev pub overlap : List Window → Bool
overlap [] = false
overlap (x ∷ []) = false
overlap (x ∷ y ∷ ws) = ltb y.start x.stop || overlap (y ∷ ws)

-- `windows`
unfoldable pub windows : Json → Result SlaError (List Window)
windows value = maybe (as_array value) (err too_many_intervals) (λ items.
    throw_if (ltb 8 (length items)) too_many_intervals
    >> (traverse read_window items >>= λ ws.
        throw_if (overlap (by_start ws)) overlapping >> ok (by_start ws)))

abbrev has_hours : List Window → Bool
has_hours [] = false
has_hours (w ∷ ws) = true

abbrev read_exception : String × Json → Result SlaError (String × List Window)
read_exception (day, hours) = windows hours >>= λ ws. ok (day, ws)

abbrev pub some_hours : List (List Window) → List (String × List Window) → Bool
some_hours week exceptions = any has_hours week || any (λ e. has_hours e.1) exceptions

abbrev date_texts : List Json → List String
date_texts [] = []
date_texts (value ∷ values) =
    let rest = date_texts values in maybe (as_string value) rest (λ s. s ∷ rest)

abbrev pub read_holidays : Zones → Json → Result SlaError (List String)
read_holidays zones value = maybe (as_array value) (err bad_holidays) (λ days.
    throw_if (ltb 1000 (length days) || any (λ day. not (is_date zones day)) days) bad_holidays
    >> ok (unique (date_texts days)))

abbrev is_day_key : Zones → String → Bool
is_day_key zones day = is_day (codes day) && zones.reads_back day

-- The keys and the number of the exceptions; their hours are read later.
abbrev pub check_exceptions : Zones → Json → Result SlaError (List (String × Json))
check_exceptions zones value = maybe (as_object value) (err bad_exceptions) (λ days.
    throw_if (ltb 1000 (length days) || any (λ day. not (is_day_key zones day)) (keys days))
      bad_exceptions
    >> ok days)

abbrev read_timezone : Zones → Json → Result SlaError String
read_timezone zones value = maybe (as_string value) (err no_timezone) (λ zone.
    throw_if (ltb 100 (units zone)) no_timezone
    >> (throw_if (not (zones.is_timezone zone)) unknown_timezone >> ok zone))

abbrev pub read_week : Json → Result SlaError (List (List Window))
read_week value =
    maybe (as_array value) (err not_seven_days)
      (λ days. throw_if (not (length days == 7)) not_seven_days >> traverse windows days)

abbrev calendar_settings : List String
calendar_settings = "timezone" ∷ "week" ∷ "holidays" ∷ "exceptions" ∷ []

abbrev read_calendar : Zones → List (String × Json) → Result SlaError CalendarConfig
read_calendar zones input =
    throw_if (any (λ key. not (includes calendar_settings key)) (keys input)) unsupported_setting
    >> (read_timezone zones (get "timezone" input) >>= λ zone.
        read_week (get "week" input) >>= λ week.
        read_holidays zones (or_else (get "holidays" input) (arr nil)) >>= λ holidays.
        check_exceptions zones (or_else (get "exceptions" input) (obj end)) >>= λ days.
        traverse read_exception days >>= λ exceptions.
        throw_if (not (some_hours week exceptions)) no_working_time
        >> ok
            (record { timezone = zone; week = week; holidays = holidays; exceptions = exceptions }))

-- `validateCalendar`
unfoldable pub validate_calendar : Zones → Json → Result SlaError CalendarConfig
validate_calendar zones value = maybe (as_object value) (err no_calendar) (read_calendar zones)
