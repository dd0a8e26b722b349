-- ===== src/Examples/Serving.antt =====
-- The theorems on requests and on the daemon's loop, from one start and with one client.
use ningshi.Prelude.{
  ◌*◌, ℕ, ◌≤◌, ◌≡◌, refl, String, true, false, List, [], ◌∷◌, map, none, some, arith, any, or_else,
  split_once, parse_u32, nat_key, string_key,
}
use ningshi.Prelude.Map.{get, insert, contains_key}
use ningshi.Rules.{load, sanitize}
use ningshi.Gate.{Gate}
use ningshi.Gate.Health.{GateHealth}
use ningshi.Engine.Extension.{add_extension}
use ningshi.Engine.Transitions.Exact.{IsSynced, is_blocked}
use ningshi.Engine.Tick.{World, tick, tick_plan, refresh}
use ningshi.Socket.{Request, Parsed, good, Around, handle, on_request, dispatch}
use ningshi.Socket.Effects.{handle_harmless, is_ok}
use ningshi.Socket.Unseen.{handle_unseen}
use ningshi.Daemon.{Daemon, Round, wait_ms, boot, serve, iterate}
use ningshi.Daemon.Inotify.{drain_inotify, packages_list}
use ningshi.Daemon.Inotify.Events.{Event, IsEvent, encode_all, is_wanted, drain_inotify-encode_all}
use ningshi.Daemon.Reachable.{Reachable, started, after_round, Reachable-IsSynced}
use ningshi.Daemon.Budget.{IsSavedWithin, IsWithin, Reachable-IsWithin}
use ningshi.Engine.Saved.{state_file}
use ningshi.Daemon.Schedule.{
  booted, five_minutes, millisecond, Ticks, iterate-Ticks, iterate_enforced,
}
use ningshi.Clear.{kill_uid}
use ningshi.Gate.{set_blocked}
use ningshi.Window.{in_window, parse_hhmm, inside, days_allow}
use ningshi.Decide.{eval, windows_block}
use ningshi.Wake.{enabled_sets}
use ningshi.Engine.Usage.{over_duration, pooled_usage, scoped_usage}
use ningshi.Engine.Cooldown.{maintain_uid_cooldown, maintain_group_cooldown}
use ningshi.Engine.Plan.{is_protected, make_plan}
use ningshi.Engine.Packages.{sync_packages}
use ningshi.Engine.Reload.{reload_if_changed}
use ningshi.Engine.Transitions.{
  apply_plan, transitions, transition, switch, cleaned, clean_up, release, release_one,
}
use ningshi.Engine.Saved.{reset_day}
use ningshi.Engine.Counting.{
  needs_screen, elapsed_since, needs_usage, duration_targets, count_usage,
}
use ningshi.Engine.Tick.{finish_tick}
use ningshi.Prelude.Set
use ningshi.Examples.{list_map, list_map-BlockMapLaws, live_engine, the_rules}
use ningshi.Examples.Ticking.{saved_state, readings, world, no_serde, late, quiet}
use ningshi.Examples.Files.{serde}

abbrev gate_health : GateHealth
gate_health = record {
  binder_entry = true;
  binder_exit = true;
  uid_switch = true;
  uid_switch_symbol = "commit_creds";
  marks = 0;
  events = 0;
  ringbuf_full = 0;
  uid_switch_events = 0;
  uid_switch_ringbuf_full = 0;
  probe_read_failures = 0;
  kill_skipped = 0;
  identity_skipped = 0;
}

abbrev pub around : Around
around = record {
  sys = quiet;
  candidate = λ path. none;
  written = true;
  cause = "disk";
  now = 1030;
  version = "0.4.4";
  attached = gate_health;
  counters = record { stats = λ i. none; kill_skipped = 0; identity_skipped = 0 };
}

abbrev request : String → Request
request cmd = record { v = 2; cmd = cmd; key = some "0:video"; minutes = some 10; path = none }

-- The client whose bytes say this.
abbrev pub says : String → List ℕ → Parsed
says cmd buf = good (request cmd)

handle_harmless_example :
    ((handle (says "status") no_serde around (some (123 ∷ [])) live_engine world.files).0
      ≡ (live_engine, world.files))
    × ((handle (says "status") no_serde around (some (123 ∷ [])) live_engine world.files).1.1
        ≡ false)
handle_harmless_example =
    handle_harmless no_serde around live_engine world.files (says "status") (some (123 ∷ [])) refl

handle_unseen_example :
    let o =
      handle
        (says "reload")
        serde
        around
        (some (123 ∷ []))
        live_engine
        (record { rules_json = some "rules"; rules_ok = none }) in
    (o.0.0.rules ≡ sanitize (sanitize the_rules)) × (o.1.1 ≡ false)
unfolding load
handle_unseen_example =
    handle_unseen serde around live_engine (record { rules_json = some "rules"; rules_ok = none })
      (says "reload") (123 ∷ []) (request "reload") (sanitize (sanitize the_rules)) refl refl refl
      refl refl

abbrev fresh_gate : Gate (List ℕ)
fresh_gate = record { blocked = []; blocked_set = []; identity = [] }

abbrev at_boot : Daemon (List ℕ)
at_boot = boot list_map no_serde quiet fresh_gate late none world.files readings 1000

-- Nothing arrives, and the clock stands at the next tick.
abbrev pub nothing_new : Round
nothing_new = record {
  start = 1000;
  client = none;
  around = around;
  watch = none;
  tested = 1000;
  readings = readings;
  moment = late;
  done = 1005;
}

abbrev extends : Round
extends = record nothing_new { client = some (some (123 ∷ [])) }

-- The daemon that was started with the state that was saved on the same day.
abbrev restarted : Daemon (List ℕ)
restarted =
    boot list_map no_serde quiet fresh_gate late (some saved_state) world.files readings 1000

saved_state-IsSavedWithin : IsSavedWithin (some saved_state)
unfolding state_file get
saved_state-IsSavedWithin = (λ uid. ground arith, λ gid. ground arith)

extended :
    Reachable list_map
      (says "extension")
      no_serde
      IsSavedWithin
      (iterate list_map (says "extension") no_serde extends restarted)
extended =
    after_round extends restarted _
      (started quiet fresh_gate late (some saved_state) world.files readings 1000 restarted
        ((λ j. refl), refl) saved_state-IsSavedWithin refl)
      refl

Reachable-IsSynced_example :
    IsSynced list_map (iterate list_map (says "extension") no_serde extends restarted).world.run
Reachable-IsSynced_example =
    Reachable-IsSynced list_map list_map-BlockMapLaws (says "extension") no_serde IsSavedWithin
      (iterate list_map (says "extension") no_serde extends restarted) extended

Reachable-IsWithin_example :
    IsWithin (iterate list_map (says "extension") no_serde extends restarted).world
Reachable-IsWithin_example =
    Reachable-IsWithin list_map no_serde (says "extension")
      (iterate list_map (says "extension") no_serde extends restarted) extended

abbrev a_bit_later : Round
a_bit_later = record nothing_new { start = 600000; tested = 1001000; done = 1001005 }

iterate-Ticks_example :
    Ticks list_map (says "status") no_serde (nothing_new ∷ nothing_new ∷ a_bit_later ∷ []) at_boot
    × (wait_ms at_boot.next_tick 1000 * millisecond ≤ five_minutes)
unfolding wait_ms boot
iterate-Ticks_example =
    iterate-Ticks list_map (says "status") no_serde 1000 at_boot nothing_new (nothing_new ∷ [])
      a_bit_later (booted quiet fresh_gate late none world.files readings 1000 at_boot refl)
      (omega arith) (refl, refl) ((refl, refl), tt) (refl, refl) (omega arith) (omega arith)

-- The daemon of the other examples, whose next tick is far off.
abbrev live : Daemon (List ℕ)
live = record { world = world; next_tick = 200000 }

abbrev served : World (List ℕ)
served = (serve (says "extension") no_serde around (some (some (123 ∷ []))) live.world).0

accepted :
    is_ok
      (handle (says "extension") no_serde around (some (123 ∷ [])) world.run.eng world.files).1.0
    ≡ true
unfolding handle on_request dispatch add_extension get contains_key insert
accepted = refl

tick-served : (tick list_map no_serde readings served).1 ≡ true
unfolding tick reload_if_changed sync_packages apply_plan transitions tick_plan make_plan
    needs_screen enabled_sets count_usage reset_day get Set.insert maintain_group_cooldown
    pooled_usage scoped_usage is_protected split_once insert eval over_duration windows_block
    in_window parse_hhmm parse_u32 inside days_allow maintain_uid_cooldown transition switch
    set_blocked cleaned clean_up kill_uid release release_one contains_key elapsed_since needs_usage
    duration_targets finish_tick serve handle on_request dispatch add_extension
tick-served = refl

iterate_enforced_example :
    is_blocked list_map (iterate list_map (says "extension") no_serde extends live).world.run 10001
    ≡ or_else (get (tick_plan readings (refresh no_serde readings served).0.0).want 10001) false
unfolding serve
iterate_enforced_example =
    iterate_enforced list_map (says "extension") no_serde live extends (some (123 ∷ [])) 10001 refl
      refl accepted tick-served

abbrev rewritten : Event
rewritten = record {
  head = 1 ∷ 0 ∷ 0 ∷ 0 ∷ 128 ∷ 0 ∷ 0 ∷ 0 ∷ 0 ∷ 0 ∷ 0 ∷ 0 ∷ [];
  name = packages_list;
  padding = 3;
}

drain_inotify-encode_all_example :
    drain_inotify (map encode_all ((rewritten ∷ []) ∷ []))
    ≡ any (any is_wanted) ((rewritten ∷ []) ∷ [])
drain_inotify-encode_all_example =
    drain_inotify-encode_all ((rewritten ∷ []) ∷ []) ((whole, tt), tt)
  where
    whole : IsEvent rewritten
    whole = record { header = refl; named = omega arith; fits = omega arith }
