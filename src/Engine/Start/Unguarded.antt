-- ===== src/Engine/Start/Unguarded.antt =====
-- The start without a rule file, when the backup is there.
use ningshi.Prelude.{
  ℕ, ◌≡◌, refl, ap, ◌∙◌, String, false, List, [], ◌∷◌, Option, none, some, eqb, inl, inr,
  Bool-cases, Option-cases, string_key, nat_key,
}
use ningshi.Prelude.Map.{Map, get}
use ningshi.Prelude.Int.{ℤ}
use ningshi.Rules.{Rules, Serde, load}
use ningshi.Gate.{Gate}
use ningshi.Engine.{Engine, Moment}
use ningshi.Engine.Packages.{
  is_time, move_uid, migrate_one, migrate, drop_dead, resync, sync_packages,
}
use ningshi.Engine.Plan.{is_protected}
use ningshi.Engine.Reload.{Files, System, load_rules, reload_if_changed}
use ningshi.Engine.Saved.{StateFile, restored, load_state}
use ningshi.Engine.Start.{blank, new}
use ningshi.Engine.Tick.{Readings, World, synced, refresh}

-- What a reload sets, besides the uids.
abbrev Settled : Type 0
Settled = Rules × List String × Option ℤ

module _ {M : Type 0} where
  abbrev settled : Engine M → Settled
  settled e = (e.rules, e.protected, e.tz_secs)

  settled-migrate_one :
      (old : Option ℕ) (uid : ℕ) (e : Engine M) → settled (migrate_one old uid e) ≡ settled e
  unfolding migrate_one move_uid
  settled-migrate_one none uid e = refl
  settled-migrate_one (some old) uid e = elim (Bool-cases (eqb old uid)) [
    | inl same ↦ rw same refl
    | inr moved ↦ rw moved refl
  ]

  settled-migrate :
      (uid_of uids : Map String ℕ) (e : Engine M) → settled (migrate uid_of uids e) ≡ settled e
  unfolding migrate
  settled-migrate uid_of [] e = refl
  settled-migrate uid_of ((key, uid) ∷ uids) e =
      settled-migrate uid_of uids (migrate_one (get uid_of key) uid e)
      ∙ settled-migrate_one (get uid_of key) uid e

  settled-resync :
      (t : ℕ) (uids : Map String ℕ) (e : Engine M) → settled (resync t uids e) ≡ settled e
  unfolding resync drop_dead
  settled-resync t uids e = settled-migrate e.uid_of uids (record e { last_pkg_mtime = some t })

  settled-sync_packages :
      (mtime : Option ℕ) (resolved : Option (Map String ℕ)) (e : Engine M)
      → settled (sync_packages mtime resolved e).0 ≡ settled e
  unfolding sync_packages
  settled-sync_packages none resolved e = refl
  settled-sync_packages (some t) resolved e = elim (Bool-cases (is_time e.last_pkg_mtime t)) [
    | inl same ↦ rw same refl
    | inr changed ↦ rw changed (elim (Option-cases resolved) [
      | inl failed ↦ rw failed refl
      | inr (uids, read) ↦ rw read (settled-resync t uids e)
    ])
  ]

  settled-refresh :
      (serde : Serde) (r : Readings) (w : World M)
      → r.sys.rules_mtime ≡ none
      → settled (refresh serde r w).0.0 ≡ settled w.run.eng
  unfolding refresh reload_if_changed synced
  settled-refresh serde r w gone =
      rw gone (settled-sync_packages r.packages_mtime r.packages w.run.eng)

  settled-load_rules :
      (serde : Serde) (sys : System) (e : Engine M) (files : Files) (rules : Rules)
      → load serde files.rules_json ≡ none
      → load serde files.rules_ok ≡ some rules
      → settled (load_rules serde sys e files).0 ≡ (rules, e.protected, e.tz_secs)
  unfolding load_rules
  settled-load_rules serde sys e files rules lost good = rw (lost, load_rules, good) refl

  settled-load_state :
      (e : Engine M) (m : Moment) (saved : Option StateFile)
      → settled (load_state e m saved) ≡ settled e
  unfolding load_state restored
  settled-load_state e m none = refl
  settled-load_state e m (some st) = elim (Bool-cases (eqb st.day m.today)) [
    | inl same ↦ rw same refl
    | inr stale ↦ rw stale refl
  ]

  settled-new :
      (serde : Serde) (sys : System) (gate : Gate M) (kills : Map ℕ ℕ) (at : Moment)
      (saved : Option StateFile) (files : Files) (rules : Rules)
      → load serde files.rules_json ≡ none
      → load serde files.rules_ok ≡ some rules
      → settled (new serde sys gate kills at saved files).0 ≡ (rules, [], none)
  unfolding new blank
  settled-new serde sys gate kills at saved files rules lost good =
      settled-load_state _ at saved
      ∙ settled-load_rules serde sys (blank gate kills at.now_epoch) files rules lost good

  -- The rule file is missing when the daemon starts and at its first tick, and the backup parses:
  -- the rules of the backup run, no package is protected from them, not even those on the list, and
  -- the time zone of the rules is not used.
  pub refresh-new_unguarded :
      (serde : Serde) (sys : System) (gate : Gate M) (kills : Map ℕ ℕ) (at : Moment)
      (saved : Option StateFile) (files : Files) (rules : Rules) (r : Readings) (w : World M)
      → load serde files.rules_json ≡ none
      → load serde files.rules_ok ≡ some rules
      → r.sys.rules_mtime ≡ none
      → w.run.eng ≡ (new serde sys gate kills at saved files).0
      → let e = (refresh serde r w).0.0 in
        (e.rules ≡ rules) × ((key : String) → is_protected e key ≡ false) × (e.tz_secs ≡ none)
  unfolding is_protected
  refresh-new_unguarded serde sys gate kills at saved files rules r w lost good gone start =
      let now : settled (refresh serde r w).0.0 ≡ (rules, [], none) =
        settled-refresh serde r w gone
        ∙ ap settled start
        ∙ settled-new serde sys gate kills at saved files rules lost good in
      (
        ap (λ (s : Settled). s.0) now,
        λ key. rw (ap (λ (s : Settled). s.1) now) refl,
        ap (λ (s : Settled). s.2) now,
      )
