-- ===== src/Examples/Sleeping.antt =====
-- The theorems on the clock, with a sleep on a Monday evening at UTC+8 and a restart the next
-- morning.
use ningshi.Prelude.{
  ℕ, ◌+◌, ◌/◌, ◌%◌, ◌≡◌, refl, true, false, List, [], none, some, arith, split_once, parse_u32,
}
use ningshi.Prelude.Int.{pos}
use ningshi.Prelude.Map.{values}
use ningshi.Timezone.{offset}
use ningshi.Window.{
  parse_hhmm, inside, in_window, step_min, step_weekday, first_step, days_allow, window_edge_secs,
}
use ningshi.Wake.{enabled_sets, next_wake_secs}
use ningshi.Engine.{Engine}
use ningshi.Engine.Clock.{Chrono, ChronoLaws, local_secs, now_parts}
use ningshi.Engine.Plan.{make_plan}
use ningshi.Engine.Tick.{tick_interval_secs}
use ningshi.Engine.Tick.Asleep.{make_plan_asleep}
use ningshi.Engine.Saved.{save_state}
use ningshi.Engine.Start.{blank, new}
use ningshi.Engine.Start.Stale.{IsForgotten, new-IsForgotten}
use ningshi.Examples.{live_engine}
use ningshi.Examples.Ticking.{no_serde, quiet, fresh_gate, world}

abbrev proleptic : Chrono
unfolding local_secs
proleptic = record {
  hour = λ off t. local_secs off t % 86400 / 3600;
  minute = λ off t. local_secs off t % 3600 / 60;
  date_naive = λ off t. local_secs off t / 86400;
  number_from_monday = λ off t. (local_secs off t / 86400 + 2) % 7 + 1;
}

proleptic-ChronoLaws : ChronoLaws proleptic
unfolding local_secs proleptic
proleptic-ChronoLaws = record {
  hour_lem = λ off t h. refl;
  minute_lem = λ off t h. refl;
  date_naive_lem = λ off t h. refl;
  number_from_monday_lem = λ off t h. refl;
}

abbrev abroad : Engine (List ℕ)
abroad = record live_engine { tz_secs = some (pos 28800) }

-- Monday, 1970-01-05, 21:58:50 local time.
abbrev evening : ℕ
evening = 395930

clock_tests :
    now_parts proleptic abroad evening
    ≡ record { now_epoch = evening; now_min = 1318; today = 5; weekday = 1 }
unfolding now_parts offset local_secs
clock_tests = refl

interval : tick_interval_secs abroad (now_parts proleptic abroad evening) ≡ 15
unfolding tick_interval_secs now_parts offset local_secs values next_wake_secs enabled_sets
    window_edge_secs parse_hhmm split_once parse_u32 first_step inside step_min in_window days_allow
    step_weekday
interval = refl

make_plan_asleep_example :
    make_plan abroad (now_parts proleptic abroad (evening + 14)) false
    ≡ make_plan abroad (now_parts proleptic abroad evening) false
unfolding offset
make_plan_asleep_example =
    make_plan_asleep proleptic proleptic-ChronoLaws abroad refl evening 14 (omega (arith, interval))
      false

-- Tuesday, 06:00 and 06:30 local time, which is Monday in UTC.
new-IsForgotten_example :
    ((now_parts proleptic abroad 425400).today ≡ (now_parts proleptic abroad 424800).today)
    × IsForgotten
        (new no_serde quiet fresh_gate []
          (now_parts proleptic (blank fresh_gate [] 425400) 425400)
          (save_state true abroad (now_parts proleptic abroad 424800) none).1
          world.files).0
new-IsForgotten_example =
    new-IsForgotten proleptic proleptic-ChronoLaws 28800 (omega arith) no_serde quiet fresh_gate []
      world.files abroad 424800 425400 refl (omega arith) (omega arith) refl
