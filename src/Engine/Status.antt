-- ===== src/Engine/Status.antt =====
-- `status` of daemon/src/engine.rs: the values that it puts into the answer, each under the name
-- that the answer gives it.
pub mod Shown
use text.Mathlib.Text.{is_le}
use Prim.Native.String.{compare}
use ningshi.Prelude.{ℕ, ◌-◌, String, Bool, true, false, List, [], ◌∷◌, map, Option, or_else, length}
use ningshi.Prelude.Map.{Map}
use ningshi.Prelude.Sort.{sort}
use ningshi.Prelude.Decimal.{decimal}
use ningshi.Gate.Health.{GateHealth}
use ningshi.Engine.{Engine, RulesSource, file, backup, default}
use ningshi.Engine.Reload.{is_file}

unfoldable pub as_str : RulesSource → String
as_str file = "file"
as_str backup = "backup"
as_str default = "default"

-- `.iter().map(|(uid, v)| (uid.to_string(), *v)).collect()`
unfoldable pub by_uid : Map ℕ ℕ → Map String ℕ
by_uid [] = []
by_uid ((uid, v) ∷ m) = (decimal uid, v) ∷ by_uid m

pub record Status : Type 0 where
  pub version : String
  pub rules_ok : Bool
  pub rules_source : String
  pub interval : ℕ
  pub last_tick_age : ℕ
  pub uptime : ℕ
  pub gate : GateHealth
  pub blocked_uids : List ℕ
  pub app_count : ℕ
  pub group_count : ℕ
  pub extensions : Map String ℕ
  pub group_extensions : Map String ℕ
  pub usage_seconds : Map String ℕ
  pub usage_fg_seconds : Map String ℕ
  pub kill_counts : Map String ℕ
  pub screen_off : Option Bool
  pub protected : List String

module _ {M : Type 0} where
  -- `version` is the one of the build; `gate` is what `health` returns.
  unfoldable pub status : String → GateHealth → ℕ → Engine M → Status
  unfolding as_str by_uid
  status version gate now e = record {
    version = version;
    rules_ok = is_file e.rules_source;
    rules_source = as_str e.rules_source;
    interval = e.last_interval;
    last_tick_age = now - or_else e.last_tick now;
    uptime = now - e.started;
    gate = gate;
    blocked_uids = e.blocked;
    app_count = length e.rules.apps;
    group_count = length e.rules.groups;
    extensions = by_uid e.extension_until;
    group_extensions = e.group_extension_until;
    usage_seconds = by_uid e.usage_seconds;
    usage_fg_seconds = by_uid e.usage_fg;
    kill_counts = by_uid e.kill_count;
    screen_off = e.screen_off;
    protected = sort (λ a b. is_le (compare a b)) e.protected;
  }
