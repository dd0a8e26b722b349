-- ===== src/Engine/Tick/Frame.antt =====
-- What the stages of a tick around the transitions keep: whatever none of their assignments breaks.
pub mod Accounts
use ningshi.Prelude.{
  ℕ, ◌-◌, ◌*◌, inl, inr, String, Bool, true, false, ◌&&◌, List, [], ◌∷◌, ◌++◌, Option, none, some,
  ltb, leb, eqb, nat_key, string_key, Bool-cases, Option-cases,
}
use ningshi.Prelude.Map.{Map, get, values}
use ningshi.Rules.{DurationRule, GroupRule, Serde}
use ningshi.Gate.{set_block_index}
use ningshi.Engine.{Engine, Moment}
use ningshi.Engine.Usage.{scoped_usage, pooled_usage, member_uids}
use ningshi.Engine.Cooldown.{
  reset_usage, start_uid_cooldown, after_uid_deadline, maintain_uid_cooldown, reset_members,
  start_group_cooldown, after_group_deadline, maintain_group_cooldown,
}
use ningshi.Engine.Packages.{
  is_time, move_uid, migrate_one, migrate, drop_dead, resync, sync_packages,
}
use ningshi.Engine.Reload.{Files, System, reload_if_changed}
use ningshi.Engine.Reload.Frame.{OutlivesReload, if-keep, reload-keep}
use ningshi.Engine.Saved.{reset_day, save_state}
use ningshi.Engine.Transitions.{Run, Outcome}
use ningshi.Engine.Counting.{
  needs_screen, needs_usage, elapsed_since, count_one, count_all, count_usage, duration_targets,
}
use ningshi.Engine.Tick.Frame.Accounts.{OutlivesAccounts, prepare-keep}
use ningshi.Engine.Tick.{
  Readings, World, app_jobs, member_jobs, group_jobs, do_uid_jobs, do_group_jobs,
  maintain_cooldowns, poll_screen, prepare, synced, refresh, ready, sweep_blocked, finish_tick,
  finish,
}

-- Every assignment of those stages keeps the predicate.
pub record OutlivesTick {ℓ} {M : Type 0} (P : Engine M → Type ℓ) : Type ℓ where
  pub reloading : OutlivesReload P
  pub seen : (e : Engine M) (t : Option ℕ) → P e → P (record e { last_pkg_mtime = t })
  pub usage :
      (e : Engine M) (all fg : Map ℕ ℕ) → P e → P (record e { usage_seconds = all; usage_fg = fg })
  pub extension : (e : Engine M) (x : Map ℕ ℕ) → P e → P (record e { extension_until = x })
  pub dead : (e : Engine M) (uids : Map String ℕ) → P e → P (drop_dead uids e)
  pub day : (e : Engine M) (m : Moment) → P e → P (reset_day m e)
  pub counted : (e : Engine M) (t : Option ℕ) → P e → P (record e { last_tick = t })
  pub screen : (e : Engine M) (off : Option Bool) → P e → P (record e { screen_off = off })
  pub named :
      (e : Engine M) (names : Map ℕ (List String))
      → P e
      → P (record e { gate = set_block_index e.gate names })
  pub kept_house :
      (e : Engine M) (sweep save interval : ℕ)
      → P e
      → P (record e { last_sweep = sweep; last_save = save; last_interval = interval })

module _ {ℓ} {M : Type 0} (P : Engine M → Type ℓ) (out : OutlivesTick P) where
  reload_if_changed-keep :
      (serde : Serde) (sys : System) (e : Engine M) (files : Files)
      → P e
      → P (reload_if_changed serde sys e files).0.0
  unfolding reload_if_changed
  reload_if_changed-keep serde sys e files h = elim (Option-cases sys.rules_mtime) [
    | inl gone ↦ rw (gone, reload_if_changed) h
    | inr (t, there) ↦ elim (Bool-cases (is_time e.last_mtime t)) [
      | inl same ↦ rw (there, reload_if_changed, same) h
      | inr changed ↦
          rw (there, reload_if_changed, changed) (reload-keep P out.reloading serde sys e files h)
    ]
  ]

  migrate_one-keep : (old : Option ℕ) (new : ℕ) (e : Engine M) → P e → P (migrate_one old new e)
  unfolding migrate_one move_uid
  migrate_one-keep none new e h = h
  migrate_one-keep (some old) new e h =
      if-keep P (eqb old new) e _ h (out.extension _ _ (out.usage e _ _ h))

  migrate-keep : (uid_of uids : Map String ℕ) (e : Engine M) → P e → P (migrate uid_of uids e)
  unfolding migrate
  migrate-keep uid_of [] e h = h
  migrate-keep uid_of ((key, new) ∷ uids) e h =
      migrate-keep uid_of uids (migrate_one (get uid_of key) new e)
        (migrate_one-keep (get uid_of key) new e h)

  resync-keep : (mtime : ℕ) (uids : Map String ℕ) (e : Engine M) → P e → P (resync mtime uids e)
  unfolding resync
  resync-keep mtime uids e h =
      out.dead _ uids
        (out.reloading.uids _ uids _ (migrate-keep e.uid_of uids _ (out.seen e (some mtime) h)))

  sync_packages-keep :
      (mtime : Option ℕ) (resolved : Option (Map String ℕ)) (e : Engine M)
      → P e
      → P (sync_packages mtime resolved e).0
  unfolding sync_packages
  sync_packages-keep none resolved e h = h
  sync_packages-keep (some t) none e h = elim (Bool-cases (is_time e.last_pkg_mtime t)) [
    | inl same ↦ rw same h
    | inr changed ↦ rw changed h
  ]
  sync_packages-keep (some t) (some uids) e h = elim (Bool-cases (is_time e.last_pkg_mtime t)) [
    | inl same ↦ rw same h
    | inr changed ↦ rw changed (resync-keep t uids e h)
  ]

  pub synced-keep : (r : Readings) (o : (Engine M × Files) × Bool) → P o.0.0 → P (synced r o).0.0
  unfolding synced
  synced-keep r (s, false) h = h
  synced-keep r ((e, files), true) h = sync_packages-keep r.packages_mtime r.packages e h

  pub refresh-keep :
      (serde : Serde) (r : Readings) (w : World M) → P w.run.eng → P (refresh serde r w).0.0
  unfolding refresh
  refresh-keep serde r w h =
      synced-keep r (reload_if_changed serde r.sys w.run.eng w.files)
        (reload_if_changed-keep serde r.sys w.run.eng w.files h)

  accounts : OutlivesAccounts P
  accounts = record {
    uid_cooldowns = out.reloading.uid_cooldowns;
    group_cooldowns = out.reloading.group_cooldowns;
    usage = out.usage;
    day = out.day;
    counted = out.counted;
    screen = out.screen;
  }

  pub ready-keep : (r : Readings) (e : Engine M) → P e → P (ready r e)
  unfolding ready
  ready-keep r e h = out.named (prepare r e).0 _ (prepare-keep P accounts r e h)

  pub sweep_blocked-keep : (r : Readings) (run : Run M) → P run.eng → P (sweep_blocked r run).eng
  unfolding sweep_blocked
  sweep_blocked-keep r run h = elim (Bool-cases (leb 60 (r.now.now_epoch - run.eng.last_sweep))) [
    | inl due ↦ rw due (out.kept_house run.eng _ _ _ h)
    | inr early ↦ rw early h
  ]

  pub finish_tick-keep : (r : Readings) (w : World M) → P w.run.eng → P (finish_tick r w).run.eng
  unfolding finish_tick save_state
  finish_tick-keep r w h =
      let swept : P (sweep_blocked r w.run).eng = sweep_blocked-keep r w.run h in
      elim (Bool-cases (leb 60 (r.now.now_epoch - (sweep_blocked r w.run).eng.last_save))) [
        | inl due ↦ rw due (out.kept_house _ _ _ _ swept)
        | inr early ↦ rw early (out.kept_house _ _ _ _ swept)
      ]

  pub finish-keep :
      (r : Readings) (w : World M) (o : Outcome M) → P o.0.eng → P (finish r w o).0.run.eng
  unfolding finish
  finish-keep r w (run, false) h = h
  finish-keep r w (run, true) h = finish_tick-keep r (record w { run = run }) h
