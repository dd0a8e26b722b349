-- ===== src/Engine/Tick/View.antt =====
-- The block list, which the stages of a tick around the transitions leave alone.
use ningshi.Prelude.{ℕ, ◌≡◌, List}
use ningshi.Gate.{set_block_index}
use ningshi.Engine.{Engine}
use ningshi.Engine.Packages.{is_time, drop_dead}
use ningshi.Engine.Reload.Frame.{if-keep}
use ningshi.Engine.Saved.{reset_day}
use ningshi.Engine.Tick.Frame.{OutlivesTick}

module _ {M : Type 0} where
  -- The kernel's map, its mirror, and the engine's own set.
  abbrev pub view : Engine M → M × List ℕ × List ℕ
  view e = (e.gate.blocked, e.gate.blocked_set, e.blocked)

  pub view-OutlivesTick : (v : M × List ℕ × List ℕ) → OutlivesTick (λ (x : Engine M). view x ≡ v)
  unfolding drop_dead reset_day set_block_index
  view-OutlivesTick v = record {
    reloading = record {
      rule_set = λ e r s h. h;
      settings = λ e tz ime home h. h;
      uids = λ e m t h. h;
      uid_cooldowns = λ e c h. h;
      group_cooldowns = λ e c h. h;
    };
    seen = λ e t h. h;
    usage = λ e all fg h. h;
    extension = λ e x h. h;
    dead = λ e uids h. h;
    day = λ e m h. if-keep (λ x. view x ≡ v) (is_time e.last_day m.today) e _ h h;
    counted = λ e t h. h;
    screen = λ e off h. h;
    named = λ e names h. h;
    kept_house = λ e sweep save interval h. h;
  }
