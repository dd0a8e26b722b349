-- ===== src/Engine/Saved.antt =====
-- `load_state`, `save_state` and the daily reset in `tick` of daemon/src/engine.rs. The text of
-- `state.json` is not modelled: a saved state is what it parses to, and the day is its number.
pub mod Restart
use ningshi.Prelude.{
  ℕ, String, Bool, true, false, List, [], Option, none, some, eqb, if◌then◌else◌, nat_key,
  string_key,
}
use ningshi.Prelude.Map.{Map}
use ningshi.Engine.{Engine, Moment}
use ningshi.Engine.Packages.{is_time}

pub record StateFile : Type 0 where
  pub day : ℕ
  pub usage_seconds : Map ℕ ℕ
  pub usage_fg : Map ℕ ℕ
  pub cooldown_until : Map ℕ ℕ
  pub group_cooldown_until : Map String ℕ
  pub ext_granted_today : Map ℕ ℕ
  pub group_ext_granted_today : Map String ℕ
  pub kill_count : Map ℕ ℕ

module _ {M : Type 0} where
  -- What `save_state` writes.
  unfoldable pub state_file : Engine M → Moment → StateFile
  state_file e m = record {
    day = m.today;
    usage_seconds = e.usage_seconds;
    usage_fg = e.usage_fg;
    cooldown_until = e.cooldown_until;
    group_cooldown_until = e.group_cooldown_until;
    ext_granted_today = e.ext_granted_today;
    group_ext_granted_today = e.group_ext_granted_today;
    kill_count = e.kill_count;
  }

  -- `last_save` moves on also if the file could not be written.
  unfoldable pub save_state :
      Bool → Engine M → Moment → Option StateFile → Engine M × Option StateFile
  unfolding state_file
  save_state written e m old =
      (record e { last_save = m.now_epoch }, if written then some (state_file e m) else old)

  unfoldable pub restored : Engine M → StateFile → Engine M
  restored e st = record e {
    last_day = some st.day;
    usage_seconds = st.usage_seconds;
    usage_fg = st.usage_fg;
    cooldown_until = st.cooldown_until;
    group_cooldown_until = st.group_cooldown_until;
    ext_granted_today = st.ext_granted_today;
    group_ext_granted_today = st.group_ext_granted_today;
    kill_count = st.kill_count;
  }

  -- `none`: no file, or one that does not parse.
  unfoldable pub load_state : Engine M → Moment → Option StateFile → Engine M
  unfolding restored
  load_state e m none = e
  load_state e m (some st) = if eqb st.day m.today then restored e st else e

  -- The daily reset.
  unfoldable pub reset_day : Moment → Engine M → Engine M
  reset_day m e = if is_time e.last_day m.today then e else record e {
    last_day = some m.today;
    usage_seconds = [];
    usage_fg = [];
    extension_until = [];
    group_extension_until = [];
    ext_granted_today = [];
    group_ext_granted_today = [];
    cooldown_until = [];
    group_cooldown_until = [];
    kill_count = [];
  }
