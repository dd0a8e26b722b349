-- ===== src/Examples/Guarding.antt =====
-- The theorems on the packages that must never be blocked, with rules that block the settings.
use mathlib.Core.Path.{subst}
use ningshi.Prelude.{
  ℕ, ◌≡◌, refl, inl, inr, String, true, false, List, [], ◌∷◌, Option, none, some, arith, contains,
  lines, trim, split_once, or_else, ap, nat_key, string_key, ◌==◌, if◌then◌else◌, Bool-cases,
}
use ningshi.Prelude.Map.{Map, get, insert, contains_key}
use ningshi.Prelude.Set
use ningshi.Rules.{Rules, RuleSet, Serde, sanitize_set, sanitize, load}
use ningshi.Clear.{kill_uid}
use ningshi.Gate.{set_blocked}
use ningshi.Decide.{eval}
use ningshi.Wake.{enabled_sets}
use ningshi.Engine.Packages.{resync, drop_dead, migrate, sync_packages}
use ningshi.Engine.Plan.{after_colon, is_protected, make_plan}
use ningshi.Engine.Protected.{Output, protected_packages, cmd_line, resolve_protected}
use ningshi.Engine.Reload.{
  Files, with_uids, finish_reload, refresh_settings, load_rules, reload_rules, reload,
  reload_if_changed,
}
use ningshi.Engine.Start.{new}
use ningshi.Engine.Start.Unguarded.{refresh-new_unguarded}
use ningshi.Engine.Saved.{reset_day, load_state, save_state}
use ningshi.Engine.Counting.{needs_screen, count_usage}
use ningshi.Engine.Transitions.{
  apply_plan, transitions, transition, switch, cleaned, clean_up, release, release_one,
}
use ningshi.Engine.Transitions.Exact.{is_blocked}
use ningshi.Engine.Tick.{Readings, World, tick_plan, refresh, finish_tick, tick}
use ningshi.Engine.Tick.Guarded.{IsVital}
use ningshi.Daemon.{Daemon, Round, serve, ticked, iterate}
use ningshi.Daemon.Guarded.{later, is_blocked-later}
use ningshi.Examples.Serving.{says, nothing_new}
use ningshi.Examples.{at_night, the_rules, list_map}
use ningshi.Examples.Ticking.{fresh_gate, late, quiet, readings, world}

-- The device: an app, the settings, and a helper whose output has an empty line at its end.
abbrev listed : Map String ℕ
listed = ("0:video", 10001) ∷ ("0:com.android.settings", 10099) ∷ []

abbrev home : Option Output
home = some (record { success = true; stdout = "priority=0\norg.home/.Main\n\n" })

cmd_line_tests :
    (cmd_line home true ≡ some "org.home/.Main") × (cmd_line home false ≡ some "priority=0")
unfolding cmd_line lines trim
cmd_line_tests = (refl, refl)

abbrev always : RuleSet
always = record at_night { always_on = true }

abbrev strict : Rules
strict = record the_rules {
  apps = ("0:com.android.settings", record { enabled = true; rules = always }) ∷ [];
  groups = [];
}

abbrev strict_serde : Serde
strict_serde = record {
  from_str = λ s. if s == "strict" then some strict else none;
  to_string_pretty = λ r. none;
}

abbrev reading : Readings
reading = record readings {
  sys = record quiet { rules_mtime = some 7; resolved = some listed; launcher = home };
  packages = some listed;
}

abbrev strict_world : World (List ℕ)
strict_world = record world { files = record { rules_json = some "strict"; rules_ok = none } }

settings_uid :
    (key : String)
    → get listed key ≡ some 10099
    → contains protected_packages (after_colon key (split_once b':' key)) ≡ true
unfolding get split_once
settings_uid key at = elim (Bool-cases ("0:com.android.settings" == key)) [
  | inl same ↦
      subst (λ (k : String). contains protected_packages (after_colon k (split_once b':' k)) ≡ true)
        ((string_key.same_iff "0:com.android.settings" key).0 same) refl
  | inr other ↦ elim (Bool-cases ("0:video" == key)) [
    | inl video ↦
        let found : or_else (some 10001) 0 ≡ 10099 =
          ap (λ (o : Option ℕ). or_else o 0) (rw (get, video) at at) in
        absurd (omega (arith, found))
    | inr neither ↦ cc (rw (get, neither, other) at at)
  ]
]

-- A round that ticks, between the first tick and the last.
abbrev a_round : Round
a_round = record nothing_new { readings = reading }

abbrev running : Daemon (List ℕ)
running = later list_map (says "status") strict_serde reading strict_world 1000 (a_round ∷ [])

settings_only : IsVital (refresh strict_serde reading running.world).0.0 10099
unfolding refresh reload_if_changed reload sync_packages with_uids finish_reload get
    refresh_settings reload_rules load sanitize iterate serve apply_plan transitions tick_plan
    make_plan needs_screen enabled_sets count_usage reset_day sanitize_set is_protected lines trim
    split_once Set.insert release
settings_only key at = settings_uid key at

reading_done : (tick list_map strict_serde reading running.world).1 ≡ true
unfolding tick reload_if_changed reload resolve_protected cmd_line lines trim load sanitize
    sync_packages apply_plan transitions tick_plan make_plan needs_screen enabled_sets count_usage
    reset_day get insert is_protected split_once eval transition switch set_blocked cleaned clean_up
    release release_one contains_key finish_tick Set.insert with_uids finish_reload refresh_settings
    reload_rules sanitize_set iterate serve ticked
reading_done = refl

is_blocked-later_example :
    is_blocked list_map (tick list_map strict_serde reading running.world).0.run 10099 ≡ false
is_blocked-later_example =
    is_blocked-later list_map (says "status") strict_serde reading strict_world 1000 (a_round ∷ [])
      reading 10099 (inr (7, refl, refl)) settings_only reading_done

-- Without a rule file: the backup has the same rules.
abbrev only_backup : Files
only_backup = record { rules_json = none; rules_ok = some "strict" }

abbrev unguarded_world : World (List ℕ)
unguarded_world = record world {
  run = record {
    eng = (new strict_serde quiet fresh_gate [] late none only_backup).0;
    signals = [];
  };
  files = only_backup;
}

abbrev first_reading : Readings
first_reading = record readings { sys = quiet; packages = some listed }

refresh-new_unguarded_example :
    let e = (refresh strict_serde first_reading unguarded_world).0.0 in
    (e.rules ≡ sanitize strict) × ((key : String) → is_protected e key ≡ false) × (e.tz_secs ≡ none)
unfolding load
refresh-new_unguarded_example =
    refresh-new_unguarded strict_serde quiet fresh_gate [] late none only_backup (sanitize strict)
      first_reading unguarded_world refl refl refl refl

-- The first tick blocks the settings.
settings_blocked_test :
    is_blocked list_map (tick list_map strict_serde first_reading unguarded_world).0.run 10099
    ≡ true
unfolding tick new reload_if_changed load sanitize sync_packages apply_plan transitions tick_plan
    make_plan needs_screen enabled_sets count_usage reset_day get insert is_protected split_once
    eval transition switch set_blocked cleaned clean_up release release_one contains_key finish_tick
    Set.insert sanitize_set load_state load_rules resync drop_dead migrate kill_uid save_state
settings_blocked_test = refl
