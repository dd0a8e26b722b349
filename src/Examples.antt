-- ===== src/Examples.antt =====
-- A configuration and an engine to run the theorems on: one app, one group of two, and a kernel
-- whose block map is a list.
pub mod Scheduling
pub mod Sleeping
pub mod Threading
pub mod Commands
pub mod Files
pub mod Blocking
pub mod Budgets
pub mod Ticking
pub mod Guarding
pub mod Killing
pub mod Serving
pub mod Listing
use ningshi.Prelude.{
  ℕ, String, Bool, true, false, List, [], ◌∷◌, Option, none, some, arith, contains, nat_key,
}
use ningshi.Prelude.Int.{pos}
use ningshi.Prelude.Map.{Map}
use ningshi.Rules.{
  TimeWindow, TimeWindows, DurationRule, RuleSet, AppRule, GroupRule, Settings, Rules,
  default_settings,
}
use ningshi.Wake.{WakeInputs}
use ningshi.Prelude.Set.{insert, remove, contains-insert, contains-remove}
use ningshi.Gate.{BlockMap, BlockMapLaws, Gate}
use ningshi.Engine.{Engine, RulesSource, file}

abbrev pub night : TimeWindow
night = record { start = "22:00"; end = "07:00"; days = 1 ∷ 2 ∷ 3 ∷ 4 ∷ 5 ∷ [] }

abbrev pub at_night : RuleSet
at_night = record {
  always_on = false;
  lock_block = false;
  time_windows = record { mode = "block"; windows = night ∷ [] };
  duration = record { limit_minutes = 0; freeze_minutes = 0; scope = "foreground" };
}

abbrev pub an_hour : DurationRule
an_hour = record { limit_minutes = 60; freeze_minutes = 30; scope = "any" }

abbrev pub hourly : RuleSet
hourly = record at_night {
  time_windows = record { mode = "block"; windows = [] };
  duration = an_hour;
}

abbrev pub games : GroupRule
games = record {
  name = "Games";
  enabled = true;
  shared_pool = true;
  members = "0:chess" ∷ "0:go" ∷ [];
  rules = hourly;
}

abbrev pub the_rules : Rules
the_rules = record {
  version = 1;
  settings = default_settings;
  apps = ("0:video", record { enabled = true; rules = at_night }) ∷ [];
  groups = ("g1", games) ∷ [];
}

-- Monday, 21:58:50.
abbrev pub monday_evening : WakeInputs
monday_evening = record {
  rules = record the_rules { groups = [] };
  any_blocked = false;
  expiries = 1000 ∷ 1040 ∷ [];
  now_epoch = 1010;
  now_min = 1318;
  weekday = 1;
  sec_in_min = 50;
}

-- A kernel map that never fails.
abbrev pub list_map : BlockMap (List ℕ)
list_map = record {
  insert = λ m uid. some (insert m uid);
  remove = λ m uid. some (remove m uid);
  has = λ m uid. contains m uid;
}

pub list_map-BlockMapLaws : BlockMapLaws list_map
list_map-BlockMapLaws = record {
  has-insert = λ m m' uid j e. ground (arith, contains-insert m uid j);
  has-remove = λ m m' uid j e. ground (arith, contains-remove m uid j);
  remove_present = λ m uid h. cc;
}

-- Video and chess are installed; chess has run for an hour.
abbrev pub live_engine : Engine (List ℕ)
live_engine = record {
  gate = record { blocked = []; blocked_set = []; identity = [] };
  rules = the_rules;
  uid_of = ("0:video", 10001) ∷ ("0:chess", 10002) ∷ [];
  blocked = [];
  last_mtime = some 1;
  last_pkg_mtime = some 1;
  extension_until = (10002, 5000) ∷ [];
  group_extension_until = [];
  ext_granted_today = (10001, 110) ∷ [];
  group_ext_granted_today = [];
  cooldown_until = (10001, 900) ∷ [];
  group_cooldown_until = [];
  usage_seconds = (10002, 3600) ∷ [];
  usage_fg = [];
  kill_count = [];
  last_tick = some 1000;
  last_day = some 20000;
  tz_secs = some (pos 0);
  protected = "com.android.systemui" ∷ [];
  screen_off = none;
  rules_source = file;
  last_interval = 60;
  started = 0;
  last_save = 1000;
  last_sweep = 1000;
}
