-- ===== src/Engine.antt =====
-- The state of daemon/src/engine.rs. Dates are day numbers, file times are numbers; the `Mutex` on
-- the kill counters is never poisoned, so `lock` always succeeds.
pub mod Usage
pub mod Cooldown
pub mod Extension
pub mod Plan
pub mod Transitions
pub mod Packages
pub mod Protected
pub mod Reload
pub mod Saved
pub mod Counting
pub mod Tick
pub mod Status
pub mod Start
pub mod Clock
use ningshi.Prelude.{ℕ, String, Bool, List, Option}
use ningshi.Prelude.Map.{Map}
use ningshi.Prelude.Int.{ℤ}
use ningshi.Rules.{Rules}
use ningshi.Gate.{Gate}

pub data RulesSource : Type 0 where
  file backup default : RulesSource

pub record Engine (M : Type 0) : Type 0 where
  pub gate : Gate M
  pub rules : Rules
  pub uid_of : Map String ℕ
  pub blocked : List ℕ
  pub last_mtime : Option ℕ
  pub last_pkg_mtime : Option ℕ
  pub extension_until : Map ℕ ℕ
  pub group_extension_until : Map String ℕ
  pub ext_granted_today : Map ℕ ℕ
  pub group_ext_granted_today : Map String ℕ
  pub cooldown_until : Map ℕ ℕ
  pub group_cooldown_until : Map String ℕ
  pub usage_seconds : Map ℕ ℕ
  pub usage_fg : Map ℕ ℕ
  pub kill_count : Map ℕ ℕ
  pub last_tick : Option ℕ
  pub last_day : Option ℕ
  pub tz_secs : Option ℤ
  pub protected : List String
  pub screen_off : Option Bool
  pub rules_source : RulesSource
  pub last_interval : ℕ
  pub started : ℕ
  pub last_save : ℕ
  pub last_sweep : ℕ

-- What `now_parts` returns: epoch seconds, minute of the day, date, weekday from 1 to 7.
pub record Moment : Type 0 where
  pub now_epoch : ℕ
  pub now_min : ℕ
  pub today : ℕ
  pub weekday : ℕ
