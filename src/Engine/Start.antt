-- ===== src/Engine/Start.antt =====
-- `Engine::new` of daemon/src/engine.rs.
pub mod Frame
pub mod Kept
pub mod Unguarded
pub mod Stale
use ningshi.Prelude.{ℕ, Option, none, []}
use ningshi.Prelude.Map.{Map}
use ningshi.Rules.{Serde, default_rules}
use ningshi.Wake.{active_tick_secs}
use ningshi.Gate.{Gate}
use ningshi.Engine.{Engine, Moment, default}
use ningshi.Engine.Reload.{Files, System, load_rules}
use ningshi.Engine.Saved.{StateFile, load_state}

module _ {M : Type 0} where
  -- The engine before anything is loaded, with the time of the start.
  unfoldable pub blank : Gate M → Map ℕ ℕ → ℕ → Engine M
  blank gate kill_count started = record {
    gate = gate;
    rules = default_rules;
    uid_of = [];
    blocked = [];
    last_mtime = none;
    last_pkg_mtime = none;
    extension_until = [];
    group_extension_until = [];
    ext_granted_today = [];
    group_ext_granted_today = [];
    cooldown_until = [];
    group_cooldown_until = [];
    usage_seconds = [];
    usage_fg = [];
    kill_count = kill_count;
    last_tick = none;
    last_day = none;
    tz_secs = none;
    protected = [];
    screen_off = none;
    rules_source = default;
    last_interval = active_tick_secs;
    started = started;
    last_save = 0;
    last_sweep = 0;
  }

  -- `m` is the moment in UTC, as no time zone is set yet; it stands for both looks at the clock.
  unfoldable pub new :
      Serde → System → Gate M → Map ℕ ℕ → Moment → Option StateFile → Files → Engine M × Files
  unfolding blank
  new serde sys gate kill_count m saved files =
      let (e, files') = load_rules serde sys (blank gate kill_count m.now_epoch) files in
      (load_state e m saved, files')
