-- ===== src/Engine/Clock.antt =====
-- `now_parts` of daemon/src/engine.rs. `chrono` is a parameter: what its date and time in a fixed
-- offset is, at a number of seconds since the epoch.
pub mod Ahead
use ningshi.Prelude.{ℕ, suc, ◌+◌, ◌-◌, ◌*◌, ◌/◌, ◌%◌, ◌<◌, ◌≡◌}
use ningshi.Prelude.Int.{ℤ, pos, negsuc, nat_abs}
use ningshi.Timezone.{offset}
use ningshi.Engine.{Engine, Moment}

-- `utc.with_timezone(&off)`, by the parts that are read of it: `hour()`, `minute()`,
-- `date_naive()` and `weekday().number_from_monday()`. The offset is in seconds east of UTC.
pub record Chrono : Type 0 where
  pub hour : ℤ → ℕ → ℕ
  pub minute : ℤ → ℕ → ℕ
  pub date_naive : ℤ → ℕ → ℕ
  pub number_from_monday : ℤ → ℕ → ℕ

-- The seconds of the local clock since 1969-12-31 00:00, for offsets of less than a day.
unfoldable pub local_secs : ℤ → ℕ → ℕ
local_secs (pos n) epoch = epoch + 86400 + n
local_secs (negsuc n) epoch = epoch + 86400 - suc n

-- A valid offset moves the clock by so many seconds; days have 86400 seconds, and 1969-12-31 was a
-- Wednesday.
pub record ChronoLaws (c : Chrono) : Type 0 where
  pub hour_lem :
      (off : ℤ) (t : ℕ) → nat_abs off < 86400 → c.hour off t ≡ local_secs off t % 86400 / 3600
  pub minute_lem :
      (off : ℤ) (t : ℕ) → nat_abs off < 86400 → c.minute off t ≡ local_secs off t % 3600 / 60
  pub date_naive_lem :
      (off : ℤ) (t : ℕ) → nat_abs off < 86400 → c.date_naive off t ≡ local_secs off t / 86400
  pub number_from_monday_lem :
      (off : ℤ) (t : ℕ)
      → nat_abs off < 86400
      → c.number_from_monday off t ≡ (local_secs off t / 86400 + 2) % 7 + 1

-- The parts at an offset.
unfoldable pub parts : Chrono → ℤ → ℕ → Moment
parts c off epoch = record {
  now_epoch = epoch;
  now_min = c.hour off epoch * 60 + c.minute off epoch;
  today = c.date_naive off epoch;
  weekday = c.number_from_monday off epoch;
}

unfoldable pub now_parts : {M : Type 0} → Chrono → Engine M → ℕ → Moment
unfolding parts
now_parts c e epoch = parts c (offset e.tz_secs) epoch
