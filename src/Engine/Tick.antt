-- ===== src/Engine/Tick.antt =====
-- `tick` and `tick_interval_secs` of daemon/src/engine.rs: the stages of the other modules in the
-- order of the source. What the system answers on the way is one record, `Readings`.
pub mod Enforces
pub mod Frame
pub mod View
pub mod InStep
pub mod Kills
pub mod Asleep
pub mod Guarded
use ningshi.Prelude.{
  ℕ, ◌+◌, ◌-◌, ◌%◌, String, Bool, true, false, not, ◌&&◌, ◌||◌, List, [], ◌∷◌, ◌++◌, map, Option,
  none, some, ltb, leb, eqb, is_nil, if◌then◌else◌, nat_key, string_key,
}
use ningshi.Prelude.Map.{Map, get, values}
use ningshi.Rules.{DurationRule, AppRule, GroupRule, Serde}
use ningshi.Wake.{WakeInputs, next_wake_secs}
use ningshi.Clear.{Procs, kill_uids}
use ningshi.Gate.{BlockMap, Gate, set_block_index}
use ningshi.Engine.{Engine, Moment}
use ningshi.Engine.Usage.{member_uids}
use ningshi.Engine.Cooldown.{maintain_uid_cooldown, maintain_group_cooldown}
use ningshi.Engine.Plan.{Plan, make_plan, tidy_names}
use ningshi.Engine.Transitions.{Run, Outcome, apply_plan}
use ningshi.Engine.Packages.{sync_packages}
use ningshi.Engine.Reload.{Files, System, reload_if_changed}
use ningshi.Engine.Saved.{StateFile, reset_day, save_state}
use ningshi.Engine.Counting.{needs_screen, count_usage}

-- `now` is read after the packages are in step; the clock is read again for the saved state and for
-- the next interval, at `save_time` and `end_time`. `snap` is the processes at each cleanup, and
-- `sweep` those at the sweep; `written` says whether the state could be saved.
pub record Readings : Type 0 where
  pub sys : System
  pub packages_mtime : Option ℕ
  pub packages : Option (Map String ℕ)
  pub now : Moment
  pub snapshot : Bool → List ℕ → List ℕ × List ℕ
  pub screen_is_off : Bool
  pub snap : ℕ → Procs
  pub sweep : Procs
  pub save_time : Moment
  pub end_time : Moment
  pub written : Bool

-- The engine with the signals sent, the rule files, and the saved state.
pub record World (M : Type 0) : Type 0 where
  pub run : Run M
  pub files : Files
  pub saved : Option StateFile

abbrev has_cooldown : DurationRule → Bool
has_cooldown d = ltb 0 d.limit_minutes && ltb 0 d.freeze_minutes

unfoldable pub group_jobs : Map String GroupRule → Map String GroupRule
group_jobs [] = []
group_jobs ((gid, g) ∷ groups) =
    let rest = group_jobs groups in
    if (g.enabled && has_cooldown g.rules.duration) && g.shared_pool then (gid, g) ∷ rest else rest

module _ {M : Type 0} where
  -- `cooldown_jobs`: the apps' part, and the groups' part.
  unfoldable pub app_jobs : Engine M → Map String AppRule → List (ℕ × DurationRule)
  app_jobs e [] = []
  app_jobs e ((key, app) ∷ apps) =
      let rest = app_jobs e apps in
      elim (get e.uid_of key) [
        | none ↦ rest
        | some uid ↦
            if app.enabled && has_cooldown app.rules.duration
            then (uid, app.rules.duration) ∷ rest
            else rest
      ]

  unfoldable pub member_jobs : Engine M → List GroupRule → List (ℕ × DurationRule)
  unfolding member_uids
  member_jobs e [] = []
  member_jobs e (g ∷ groups) =
      let rest = member_jobs e groups in
      if (g.enabled && has_cooldown g.rules.duration) && not g.shared_pool
      then map (λ (uid : ℕ). (uid, g.rules.duration)) (member_uids e g.members) ++ rest
      else rest

  unfoldable pub do_uid_jobs : ℕ → List (ℕ × DurationRule) → Engine M → Engine M
  do_uid_jobs now [] e = e
  do_uid_jobs now ((uid, d) ∷ jobs) e = do_uid_jobs now jobs (maintain_uid_cooldown e uid d now)

  unfoldable pub do_group_jobs : ℕ → Map String GroupRule → Engine M → Engine M
  do_group_jobs now [] e = e
  do_group_jobs now ((gid, g) ∷ jobs) e =
      do_group_jobs now jobs (maintain_group_cooldown e gid g now)

  -- Both lists are made before the first job is done.
  unfoldable pub maintain_cooldowns : ℕ → Engine M → Engine M
  unfolding app_jobs member_jobs group_jobs do_uid_jobs do_group_jobs values
  maintain_cooldowns now e =
      do_group_jobs now (group_jobs e.rules.groups)
        (do_uid_jobs now (app_jobs e e.rules.apps ++ member_jobs e (values e.rules.groups)) e)

  -- The screen is asked only for an enabled lock rule.
  unfoldable pub poll_screen : Bool → Engine M → Engine M × Bool
  poll_screen off e =
      if needs_screen e then (record e { screen_off = some off }, off) else (e, false)

  -- From the date to the screen: the engine that the plan is made from.
  unfoldable pub prepare : Readings → Engine M → Engine M × Bool
  unfolding maintain_cooldowns poll_screen
  prepare r e = poll_screen r.screen_is_off (
      maintain_cooldowns r.now.now_epoch
        (count_usage r.snapshot r.now.now_epoch (reset_day r.now e)))

  -- The plan for the prepared engine.
  unfoldable pub tick_plan : Readings → Engine M → Plan
  unfolding prepare
  tick_plan r e = let (e', off) = prepare r e in make_plan e' r.now off

  unfoldable pub sweep_blocked : Readings → Run M → Run M
  sweep_blocked r run =
      if leb 60 (r.now.now_epoch - run.eng.last_sweep)
      then record run {
        eng = record eng { last_sweep = r.now.now_epoch };
        signals =
            if is_nil eng.blocked
            then run.signals
            else run.signals ++ kill_uids r.sweep eng.blocked;
      }
      else run
    where
      eng : Engine M
      eng = run.eng

  unfoldable pub tick_interval_secs : Engine M → Moment → ℕ
  unfolding values
  tick_interval_secs e m = next_wake_secs (record {
    rules = e.rules;
    any_blocked = not (is_nil e.blocked);
    expiries =
        values e.extension_until
        ++ values e.group_extension_until
        ++ values e.cooldown_until
        ++ values e.group_cooldown_until;
    now_epoch = m.now_epoch;
    now_min = m.now_min;
    weekday = m.weekday;
    sec_in_min = m.now_epoch % 60;
  })

  -- The save, if it is due, and the next interval.
  unfoldable pub finish_tick : Readings → World M → World M
  unfolding tick_interval_secs sweep_blocked
  finish_tick r w =
      let run = sweep_blocked r w.run in
      let (e, saved) =
        if leb 60 (r.now.now_epoch - run.eng.last_save)
        then save_state r.written run.eng r.save_time w.saved
        else (run.eng, w.saved) in
      record w {
        run = record run { eng = record e { last_interval = tick_interval_secs e r.end_time } };
        saved = saved;
      }

  -- The engine after `reload_if_changed()?` and `sync_packages()?`, and whether neither failed.
  unfoldable pub synced : Readings → (Engine M × Files) × Bool → (Engine M × Files) × Bool
  synced r (s, false) = (s, false)
  synced r ((e, files), true) =
      let (e', done) = sync_packages r.packages_mtime r.packages e in ((e', files), done)

  unfoldable pub refresh : Serde → Readings → World M → (Engine M × Files) × Bool
  unfolding synced
  refresh serde r w = synced r (reload_if_changed serde r.sys w.run.eng w.files)

  -- The engine with the names of the plan handed to the gate.
  unfoldable pub ready : Readings → Engine M → Engine M
  ready r e = record e' { gate = set_block_index e'.gate (tidy_names (tick_plan r e).names) }
    where
      e' : Engine M
      e' = (prepare r e).0

  -- What follows the transitions, if they succeed.
  unfoldable pub finish : Readings → World M → Outcome M → World M × Bool
  unfolding finish_tick
  finish r w (run, false) = (record w { run = run }, false)
  finish r w (run, true) = (finish_tick r (record w { run = run }), true)

module _ {M : Type 0} (bpf : BlockMap M) where
  -- The tick behind the refresh; `w` still has the engine before it.
  unfoldable pub enforce : Readings → World M → (Engine M × Files) × Bool → World M × Bool
  unfolding ready finish
  enforce r w ((e, files), false) =
      (record w { run = record (w.run) { eng = e }; files = files }, false)
  enforce r w ((e, files), true) =
      finish r (record w { files = files })
        (apply_plan bpf r.snap (tick_plan r e).want (record (w.run) { eng = ready r e }))

  unfoldable pub tick : Serde → Readings → World M → World M × Bool
  unfolding refresh enforce
  tick serde r w = enforce r w (refresh serde r w)
