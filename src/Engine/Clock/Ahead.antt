-- ===== src/Engine/Clock/Ahead.antt =====
-- The clock some seconds ahead, in the steps that the wake scheduler counts in.
use ningshi.Prelude.{ℕ, ◌+◌, ◌/◌, ◌%◌, ◌<◌, ◌≡◌, arith, Option}
use ningshi.Prelude.Int.{ℤ, pos, negsuc, nat_abs}
use ningshi.Timezone.{offset}
use ningshi.Window.{step_min, step_weekday}
use ningshi.Engine.Clock.{Chrono, ChronoLaws, local_secs, parts}

-- The offset is a number of whole minutes.
abbrev pub IsWhole : ℤ → Type 0
IsWhole off = nat_abs off % 60 ≡ 0

pub offset_bound : (tz : Option ℤ) → nat_abs (offset tz) < 86400
unfolding offset
offset_bound tz = ground arith

-- The minutes that begin within so many seconds.
abbrev pub minutes_ahead : ℕ → ℕ → ℕ
minutes_ahead t d = (t % 60 + d) / 60

local_secs-add :
    (off : ℤ) (t d : ℕ) → nat_abs off < 86400 → local_secs off (t + d) ≡ local_secs off t + d
unfolding local_secs
local_secs-add (pos n) t d h = omega arith
local_secs-add (negsuc n) t d h = omega arith

local_secs-mod :
    (off : ℤ) (t : ℕ) → nat_abs off < 86400 → IsWhole off → local_secs off t % 60 ≡ t % 60
unfolding local_secs
local_secs-mod (pos n) t h k = omega arith
local_secs-mod (negsuc n) t h k = omega arith

module _ (c : Chrono) (laws : ChronoLaws c) (off : ℤ) (valid : nat_abs off < 86400) where
  pub now_min_lem : (t : ℕ) → (parts c off t).now_min ≡ local_secs off t % 86400 / 60
  unfolding parts
  now_min_lem t = omega (arith, laws.hour_lem off t valid, laws.minute_lem off t valid)

  pub weekday_lem : (t : ℕ) → (parts c off t).weekday ≡ (local_secs off t / 86400 + 2) % 7 + 1
  unfolding parts
  weekday_lem t = laws.number_from_monday_lem off t valid

  module _ (whole : IsWhole off) (t d : ℕ) (soon : d < 86400) where
    pub now_min-ahead :
        (parts c off (t + d)).now_min ≡ step_min (parts c off t).now_min (minutes_ahead t d)
    unfolding step_min
    now_min-ahead = omega (
      arith,
      now_min_lem t,
      now_min_lem (t + d),
      local_secs-add off t d valid,
      local_secs-mod off t valid whole,
    )

    pub weekday-ahead :
        (parts c off (t + d)).weekday
        ≡ step_weekday (parts c off t).now_min (parts c off t).weekday (minutes_ahead t d)
    unfolding step_weekday
    weekday-ahead = omega (
      arith,
      now_min_lem t,
      weekday_lem t,
      weekday_lem (t + d),
      local_secs-add off t d valid,
      local_secs-mod off t valid whole,
    )

    -- Within the minute nothing moves.
    pub now_min_same :
        minutes_ahead t d ≡ 0 → (parts c off (t + d)).now_min ≡ (parts c off t).now_min
    now_min_same h = omega (
      arith,
      now_min_lem t,
      now_min_lem (t + d),
      local_secs-add off t d valid,
      local_secs-mod off t valid whole,
    )

    pub weekday_same :
        minutes_ahead t d ≡ 0 → (parts c off (t + d)).weekday ≡ (parts c off t).weekday
    weekday_same h = omega (
      arith,
      weekday_lem t,
      weekday_lem (t + d),
      local_secs-add off t d valid,
      local_secs-mod off t valid whole,
    )
