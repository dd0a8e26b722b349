-- ===== src/Window/Meaning.antt =====
-- What a window means, told without the code's case distinction.
use ningshi.Prelude.{
  ℕ, ◌+◌, ◌%◌, ◌≤◌, ◌<◌, ◌≡◌, ◌≢◌, ◌↔◌, ◌⊎◌, List, true, arith, ltb, if◌then◌else◌,
}
use ningshi.Rules.{TimeWindow}
use ningshi.Window.{parse_hhmm, prev_weekday, days_allow, inside, in_window}

-- The weekday before, counted round the week.
abbrev pub day_before : ℕ → ℕ
day_before weekday = (weekday + 5) % 7 + 1

-- The minute at which a window closes, from midnight of the day it opens on.
abbrev pub close : ℕ → ℕ → ℕ
close start end = if ltb start end then end else end + 1440

-- The moment lies in the opening of today, or in that of yesterday.
abbrev pub IsOpen : ℕ → ℕ → List ℕ → ℕ → ℕ → Type 0
IsOpen start end days now_min weekday =
    ((days_allow days weekday ≡ true) × (start ≤ now_min) × (now_min < close start end))
    ⊎ ((days_allow days (day_before weekday) ≡ true)
        × (start ≤ now_min + 1440)
        × (now_min + 1440 < close start end))

prev_weekday-day_before :
    (weekday : ℕ) → 1 ≤ weekday → weekday ≤ 7 → prev_weekday weekday ≡ day_before weekday
unfolding prev_weekday
prev_weekday-day_before weekday h k = ground arith

module _ (w : TimeWindow) (now_min weekday : ℕ) (minute : now_min < 1440) (monday : 1 ≤ weekday)
    (sunday : weekday ≤ 7) (starts : parse_hhmm w.start < 1440)
    (ends : parse_hhmm w.end ≤ 1440) where
  -- The moment lies in a window exactly when the window's ends differ and an opening that began
  -- today or yesterday, on a day of the window, has not closed. So a window whose ends agree is never
  -- open. Times are valid: `now_min` and the start are below 1440 and the end is at most 1440.
  pub in_window_iff : (in_window w now_min weekday ≡ true) ↔ (
      (parse_hhmm w.start ≢ parse_hhmm w.end)
      × IsOpen (parse_hhmm w.start) (parse_hhmm w.end) w.days now_min weekday)
  unfolding in_window inside
  in_window_iff = ground (arith, prev_weekday-day_before weekday)
