-- ===== src/Engine/Start/Kept.antt =====
-- The accounts of the day over a restart, up to the plan of the first tick.
use ningshi.Prelude.{
  ℕ, ◌≡◌, refl, ap, ◌∙◌, Bool, true, false, String, [], Option, none, some, arith, eqb_iff,
  if◌then◌else◌, nat_key, string_key,
}
use ningshi.Prelude.Map.{Map, get, IsDistinct}
use ningshi.Rules.{Serde}
use ningshi.Gate.{Gate}
use ningshi.Engine.{Engine, Moment}
use ningshi.Engine.Packages.{is_live, resync, sync_packages}
use ningshi.Engine.Reload.{Files, System, with_uids, load_rules, reload, reload_if_changed}
use ningshi.Engine.Reload.Frame.{load_rules-keep, reload-keep}
use ningshi.Engine.Reload.Lost.{
  IsTable, table-resync-reload, usage_seconds-IsTable, usage_fg-IsTable, ext_granted_today-IsTable,
  kill_count-IsTable,
}
use ningshi.Engine.Saved.{StateFile, restored, load_state}
use ningshi.Engine.Start.{blank, new}
use ningshi.Engine.Tick.{Readings, World, synced, refresh}

module _ {M : Type 0} where
  reload_done :
      (serde : Serde) (sys : System) (e : Engine M) (files : Files) (m : Map String ℕ)
      → sys.resolved ≡ some m
      → (reload serde sys e files).1 ≡ true
  unfolding reload with_uids
  reload_done serde sys e files m read = rw (read, with_uids) refl

  synced_first :
      (r : Readings) (o : (Engine M × Files) × Bool) (t : ℕ) (m : Map String ℕ)
      → o.1 ≡ true
      → o.0.0.last_pkg_mtime ≡ none
      → r.packages_mtime ≡ some t
      → r.packages ≡ some m
      → (synced r o).0.0 ≡ resync t m o.0.0
  unfolding synced sync_packages
  synced_first r ((e, files), true) t m done unseen time read = rw (time, read, unseen) refl
  synced_first r ((e, files), false) t m done unseen time read = cc done

  reload_if_changed_first :
      (serde : Serde) (sys : System) (e : Engine M) (files : Files) (t : ℕ)
      → e.last_mtime ≡ none
      → sys.rules_mtime ≡ some t
      → reload_if_changed serde sys e files ≡ reload serde sys e files
  unfolding reload_if_changed
  reload_if_changed_first serde sys e files t unread time = ground (arith, time, unread)

  -- The first refresh of an engine that has read neither file.
  refresh_first :
      (serde : Serde) (r : Readings) (w : World M) (t t' : ℕ) (m : Map String ℕ)
      → w.run.eng.last_mtime ≡ none
      → w.run.eng.last_pkg_mtime ≡ none
      → r.sys.rules_mtime ≡ some t
      → r.sys.resolved ≡ some m
      → r.packages_mtime ≡ some t'
      → r.packages ≡ some m
      → (refresh serde r w).0.0 ≡ resync t' m (reload serde r.sys w.run.eng w.files).0.0
  unfolding refresh
  refresh_first serde r w t t' m unread unseen time read time' read' =
      ap (λ o. (synced r o).0.0)
        (reload_if_changed_first serde r.sys w.run.eng w.files t unread time)
      ∙ synced_first r (reload serde r.sys w.run.eng w.files) t' m
          (reload_done serde r.sys w.run.eng w.files m read)
          (reload-keep (λ (x : Engine M). x.last_pkg_mtime ≡ none)
            (record {
              rule_set = λ e r s h. h;
              settings = λ e tz ime home h. h;
              uids = λ e m t h. h;
              uid_cooldowns = λ e c h. h;
              group_cooldowns = λ e c h. h;
            })
            serde r.sys w.run.eng w.files unseen)
          time' read'

  new-restored :
      (serde : Serde) (sys : System) (gate : Gate M) (kills : Map ℕ ℕ) (at : Moment)
      (st : StateFile) (files : Files)
      → st.day ≡ at.today
      → (new serde sys gate kills at (some st) files).0
        ≡ restored (load_rules serde sys (blank gate kills at.now_epoch) files).0 st
  unfolding new load_state
  new-restored serde sys gate kills at st files same = rw ((eqb_iff st.day at.today).1 same) refl

-- The engine that is started with a saved state, before its first tick.
abbrev pub first_world :
    {M : Type 0} → Serde → System → Gate M → Map ℕ ℕ → Moment → StateFile → Files → World M
first_world serde sys gate kills at st files = record {
  run = record { eng = (new serde sys gate kills at (some st) files).0; signals = [] };
  files = (new serde sys gate kills at (some st) files).1;
  saved = some st;
}

-- What is left of a table for a uid.
abbrev pub if_live : Map String ℕ → Map ℕ ℕ → ℕ → Option ℕ
if_live m table uid = if is_live m uid then get table uid else none

module _ {M : Type 0} (serde : Serde) (sys : System) (gate : Gate M) (kills : Map ℕ ℕ) (at : Moment)
    (st : StateFile) (files : Files) (r : Readings) (t t' : ℕ) (m : Map String ℕ)
    (same_day : st.day ≡ at.today) (time : r.sys.rules_mtime ≡ some t)
    (read : r.sys.resolved ≡ some m) (time' : r.packages_mtime ≡ some t')
    (read' : r.packages ≡ some m) (distinct : IsDistinct m) where
  abbrev w0 : World M
  w0 = first_world serde sys gate kills at st files

  unread : w0.run.eng.last_mtime ≡ none
  unfolding restored blank
  unread =
      ap (λ (x : Engine M). x.last_mtime) (new-restored serde sys gate kills at st files same_day)
      ∙ load_rules-keep (λ (x : Engine M). x.last_mtime ≡ none) (λ e r s h. h) serde sys
          (blank gate kills at.now_epoch) files refl

  unseen : w0.run.eng.last_pkg_mtime ≡ none
  unfolding restored blank
  unseen =
      ap (λ (x : Engine M). x.last_pkg_mtime)
        (new-restored serde sys gate kills at st files same_day)
      ∙ load_rules-keep (λ (x : Engine M). x.last_pkg_mtime ≡ none) (λ e r s h. h) serde sys
          (blank gate kills at.now_epoch) files refl

  table_kept :
      (f : Engine M → Map ℕ ℕ)
      → IsTable f
      → (uid : ℕ) → get (f (refresh serde r w0).0.0) uid ≡ if_live m (f w0.run.eng) uid
  table_kept f table uid =
      ap (λ x. get (f x) uid) (refresh_first serde r w0 t t' m unread unseen time read time' read')
      ∙ table-resync-reload serde r.sys w0.run.eng w0.files f table m t' uid read distinct

  -- The daemon starts on the day of the saved state, and its first tick can read the time of the rule
  -- file and the package list, twice with the same result that names no key twice. Then the rules and
  -- packages that the tick begins with stand beside the saved usage, granted minutes and kills of
  -- every installed uid, and none of any other uid.
  pub refresh-new :
      (uid : ℕ)
      → let e = (refresh serde r (first_world serde sys gate kills at st files)).0.0 in
        (get e.usage_seconds uid ≡ if_live m st.usage_seconds uid)
        × (get e.usage_fg uid ≡ if_live m st.usage_fg uid)
        × (get e.ext_granted_today uid ≡ if_live m st.ext_granted_today uid)
        × (get e.kill_count uid ≡ if_live m st.kill_count uid)
  unfolding restored
  refresh-new uid =
      let made = new-restored serde sys gate kills at st files same_day in
      (
        table_kept (λ x. x.usage_seconds) usage_seconds-IsTable uid
            ∙ ap (λ (x : Engine M). if_live m x.usage_seconds uid) made,
        table_kept (λ x. x.usage_fg) usage_fg-IsTable uid
            ∙ ap (λ (x : Engine M). if_live m x.usage_fg uid) made,
        table_kept (λ x. x.ext_granted_today) ext_granted_today-IsTable uid
            ∙ ap (λ (x : Engine M). if_live m x.ext_granted_today uid) made,
        table_kept (λ x. x.kill_count) kill_count-IsTable uid
            ∙ ap (λ (x : Engine M). if_live m x.kill_count uid) made,
      )
