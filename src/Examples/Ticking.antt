-- ===== src/Examples/Ticking.antt =====
-- The theorems on ticks, accounting and restarts on one engine.
use ningshi.Prelude.{
  ℕ, ◌≤◌, ◌≡◌, refl, String, Bool, true, false, ◌&&◌, List, [], ◌∷◌, none, some, contains, ltb,
  or_else, split_once, parse_u32, nat_key, string_key,
}
use ningshi.Prelude.Map.{Map, get, insert, values, contains_key}
use ningshi.Prelude.Set
use ningshi.Rules.{Serde}
use ningshi.Clear.{Procs, kill_uid}
use ningshi.Gate.{set_blocked}
use ningshi.Window.{in_window, parse_hhmm, inside, days_allow}
use ningshi.Decide.{eval, windows_block}
use ningshi.Wake.{enabled_sets}
use ningshi.Engine.Usage.{over_duration, pooled_usage, scoped_usage}
use ningshi.Engine.Cooldown.{maintain_uid_cooldown, maintain_group_cooldown}
use ningshi.Engine.Plan.{is_protected, make_plan}
use ningshi.Engine.Packages.{sync_packages}
use ningshi.Engine.{Engine, Moment}
use ningshi.Gate.{Gate}
use ningshi.Engine.Saved.{StateFile}
use ningshi.Engine.Start.Kept.{first_world, if_live, refresh-new}
use ningshi.Engine.Reload.{System, reload_if_changed}
use ningshi.Engine.Transitions.{
  apply_plan, transitions, transition, switch, cleaned, clean_up, release, release_one,
}
use ningshi.Engine.Transitions.Exact.{is_blocked}
use ningshi.Engine.Saved.{state_file, save_state, load_state, reset_day}
use ningshi.Engine.Saved.Restart.{reset_day-load_state}
use ningshi.Engine.Counting.{
  needs_screen, elapsed_since, needs_usage, duration_targets, count_usage,
}
use ningshi.Engine.Counting.Targets.{has_limit}
use ningshi.Engine.Counting.Exact.{charged, count_usage-charged}
use ningshi.Engine.Tick.{Readings, World, tick_plan, refresh, finish_tick, tick}
use ningshi.Engine.Tick.Enforces.{is_blocked-tick}
use ningshi.Examples.{list_map, live_engine}

abbrev no_procs : Procs
no_procs = record {
  cgroup = λ uid. some [];
  proc_pids = none;
  uid_at_walk = λ pid. none;
  uid_at_kill = λ pid. none;
  pidfd_open = λ pid. false;
  send_signal = λ pid. false;
}

-- Monday, 23:00.
abbrev pub late : Moment
late = record { now_epoch = 1030; now_min = 1380; today = 20000; weekday = 1 }

abbrev next_day : Moment
next_day = record { now_epoch = 87430; now_min = 1380; today = 20001; weekday = 2 }

abbrev only_video : Bool → List ℕ → List ℕ × List ℕ
only_video full targets = (10001 ∷ [], [])

abbrev pub quiet : System
quiet = record {
  copies = true;
  rules_mtime = none;
  resolved = none;
  input_method = none;
  launcher = none;
}

abbrev pub readings : Readings
readings = record {
  sys = quiet;
  packages_mtime = some 1;
  packages = none;
  now = late;
  snapshot = only_video;
  screen_is_off = false;
  snap = λ uid. no_procs;
  sweep = no_procs;
  save_time = late;
  end_time = late;
  written = true;
}

abbrev pub world : World (List ℕ)
world = record {
  run = record { eng = live_engine; signals = [] };
  files = record { rules_json = none; rules_ok = none };
  saved = none;
}

abbrev pub no_serde : Serde
no_serde = record { from_str = λ s. none; to_string_pretty = λ r. none }

pub succeeds : (tick list_map no_serde readings world).1 ≡ true
unfolding tick reload_if_changed sync_packages apply_plan transitions tick_plan make_plan
    needs_screen enabled_sets count_usage reset_day get Set.insert maintain_group_cooldown
    pooled_usage scoped_usage is_protected split_once insert eval over_duration windows_block
    in_window parse_hhmm parse_u32 inside days_allow maintain_uid_cooldown transition switch
    set_blocked cleaned clean_up kill_uid release release_one contains_key elapsed_since needs_usage
    duration_targets finish_tick
succeeds = refl

is_blocked-tick_example :
    is_blocked list_map (tick list_map no_serde readings world).0.run 10001
    ≡ or_else (get (tick_plan readings (refresh no_serde readings world).0.0).want 10001) false
is_blocked-tick_example = is_blocked-tick list_map no_serde readings world 10001 succeeds

count_usage-charged_example :
    (30 ≤ 60)
    × (or_else (get (count_usage only_video 1030 live_engine).usage_seconds 10002) 0
        ≡ charged
            (ltb 0 30 && has_limit live_engine 10002 && contains {A = ℕ} (10001 ∷ []) 10002)
            (or_else (get live_engine.usage_seconds 10002) 0)
            30)
    × (or_else (get (count_usage only_video 1030 live_engine).usage_fg 10002) 0
        ≡ charged
            (ltb 0 30 && has_limit live_engine 10002 && contains {A = ℕ} [] 10002)
            (or_else (get live_engine.usage_fg 10002) 0)
            30)
unfolding elapsed_since
count_usage-charged_example = count_usage-charged only_video 1030 live_engine 10002

-- Chess is limited by its group, and video by nothing.
has_limit_tests : (has_limit live_engine 10002 ≡ true) × (has_limit live_engine 10001 ≡ false)
unfolding values get
has_limit_tests = (refl, refl)

reset_day-load_state_example :
    state_file
      (reset_day late (
        load_state
          (record live_engine { usage_seconds = []; last_day = none })
          late
          (save_state true live_engine late none).1))
      late
    ≡ state_file live_engine late
reset_day-load_state_example =
    reset_day-load_state live_engine (record live_engine { usage_seconds = []; last_day = none })
      late late late refl refl

abbrev pub fresh_gate : Gate (List ℕ)
fresh_gate = record { blocked = []; blocked_set = []; identity = [] }

abbrev listed : Map String ℕ
listed = ("0:video", 10001) ∷ ("0:chess", 10002) ∷ []

abbrev first_readings : Readings
first_readings = record readings {
  sys = record quiet { rules_mtime = some 7; resolved = some listed };
  packages = some listed;
}

abbrev pub saved_state : StateFile
saved_state = state_file live_engine late

abbrev restarted : Engine (List ℕ)
restarted =
    (refresh no_serde first_readings
      (first_world no_serde quiet fresh_gate [] late saved_state world.files)).0.0

refresh-new_example :
    (get restarted.usage_seconds 10002 ≡ if_live listed saved_state.usage_seconds 10002)
    × (get restarted.usage_fg 10002 ≡ if_live listed saved_state.usage_fg 10002)
    × (get restarted.ext_granted_today 10002 ≡ if_live listed saved_state.ext_granted_today 10002)
    × (get restarted.kill_count 10002 ≡ if_live listed saved_state.kill_count 10002)
unfolding state_file get
refresh-new_example =
    refresh-new no_serde quiet fresh_gate [] late saved_state world.files first_readings 7 1 listed
      refl refl refl refl refl (refl, (refl, tt)) 10002
