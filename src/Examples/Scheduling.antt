-- ===== src/Examples/Scheduling.antt =====
-- The theorems on windows, decisions and wake-ups at concrete times.
use ningshi.Prelude.{
  ℕ, ◌*◌, ◌-◌, ◌≤◌, max, ◌≡◌, ◌≢◌, refl, ◌↔◌, true, false, none, some, arith, split_once, parse_u32,
}
use ningshi.Window.{
  parse_hhmm, inside, in_window, step_min, step_weekday, first_step, days_allow, window_edge_secs,
}
use ningshi.Window.Meaning.{IsOpen, in_window_iff}
use ningshi.Window.NextEdge.{IsNextEdge, window_edge_secs_iff}
use ningshi.Decide.{eval}
use ningshi.Decide.Meaning.{Reason, eval_iff}
use ningshi.Wake.{next_wake_secs, idle_tick_secs}
use ningshi.Wake.Bounds.{next_wake_secs_range}
use ningshi.Prelude.{trim, strip_prefix}
use ningshi.Prelude.Int.{ℤ, pos, parse_i32, wrapping_mul}
use ningshi.Timezone.{parse_tz}
use ningshi.Examples.{night, at_night, monday_evening}

edge_of_night : window_edge_secs night 1318 1 50 ≡ some 70
unfolding window_edge_secs parse_hhmm split_once parse_u32 first_step inside step_min in_window
    days_allow step_weekday
edge_of_night = refl

eval_iff_example :
    (eval at_night 1380 1 false false false false ≡ true)
    ↔ ((false ≡ false) × Reason 1380 1 at_night false false false)
eval_iff_example = eval_iff 1380 1 at_night false false false false

in_window_iff_example : (in_window night 60 6 ≡ true) ↔ (
    (parse_hhmm "22:00" ≢ parse_hhmm "07:00")
    × IsOpen (parse_hhmm "22:00") (parse_hhmm "07:00") night.days 60 6)
unfolding split_once parse_u32
in_window_iff_example =
    in_window_iff night 60 6 (omega arith) (omega arith) (omega arith)
      (unfold parse_hhmm in omega arith) (unfold parse_hhmm in omega arith)

window_edge_secs_iff_example :
    (window_edge_secs night 1318 1 50 ≡ some 70)
    ↔ ((j : ℕ) × IsNextEdge 1318 1 night j × (70 ≡ max (j * 60 - 50) 1))
window_edge_secs_iff_example =
    window_edge_secs_iff 1318 1 night 50 70 (omega arith) (omega arith) (omega arith)

next_wake_secs_range_example :
    (1 ≤ next_wake_secs monday_evening)
    × (next_wake_secs monday_evening ≤ idle_tick_secs)
    × (next_wake_secs monday_evening ≤ max ((1440 - 1318) * 60 - 50) 1)
next_wake_secs_range_example = next_wake_secs_range monday_evening

-- no setting but a fixed offset is understood
tz_tests :
    (parse_tz " UTC " ≡ some (pos 0))
    × (parse_tz "UTC+8" ≡ some (pos 28800))
    × (parse_tz "UTC-5" ≡ some (ℤ.negsuc 17999))
    × (parse_tz "auto" ≡ none)
    × (parse_tz "UTC+5:30" ≡ none)
unfolding parse_tz trim strip_prefix parse_i32 wrapping_mul
tz_tests = (refl, refl, refl, refl, refl)
