-- ===== src/Examples/Killing.antt =====
-- The theorems on the gate's threads with two queued processes.
use mathlib.Core.List.{Perm, mem-cons, reverse}
use mathlib.Core.Logic.Or
use ningshi.Prelude.{
  ℕ, ◌+◌, ◌<◌, ◌≡◌, refl, true, false, List, [], ◌∷◌, ◌++◌, some, arith, filter, contains, nat_key,
  string_key,
}
use ningshi.Prelude.Map.{get, insert}
use ningshi.Proc.{pkg_of_pid_wait, pkg_from_cmdline, wait_from}
use ningshi.Gate.Killer.{
  Pending, Sight, Killer, examine, by_score, try_kill, kill_if_blocked, identity_ok,
}
use ningshi.Gate.Killer.Scan.{scan, swap_remove}
use ningshi.Gate.Killer.Scan.Once.{waits, shot, scan_once}
use ningshi.Gate.Killer.Checks.{now-lt-deadline}
use ningshi.Gate.Killer.Thread.{disconnected, turn, signalled-shutdown}
use ningshi.Gate.Events.{Drain, decode, drain, handle_event, handle_item}
use ningshi.Gate.Events.Spacing.{handle_item_spaced}
use ningshi.Engine.Tick.{tick, tick_plan, refresh}
use ningshi.Engine.Tick.Kills.{want_of_signalled}
use ningshi.Prelude.{parse_u32}
use ningshi.Prelude.Map.{contains_key}
use ningshi.Clear.{kill_uid}
use ningshi.Gate.{set_blocked, set_block_index}
use ningshi.Window.{in_window, parse_hhmm, inside, days_allow}
use ningshi.Decide.{eval, windows_block}
use ningshi.Wake.{enabled_sets}
use ningshi.Engine.Usage.{over_duration, pooled_usage, scoped_usage}
use ningshi.Engine.Cooldown.{maintain_uid_cooldown, maintain_group_cooldown}
use ningshi.Engine.Plan.{is_protected, make_plan}
use ningshi.Engine.Packages.{sync_packages}
use ningshi.Engine.Reload.{reload_if_changed}
use ningshi.Engine.Transitions.{
  apply_plan, transitions, transition, switch, cleaned, clean_up, release, release_one,
}
use ningshi.Engine.Saved.{reset_day}
use ningshi.Engine.Counting.{
  needs_screen, elapsed_since, needs_usage, duration_targets, count_usage,
}
use ningshi.Engine.Tick.{finish_tick}
use ningshi.Prelude.Set
use ningshi.Prelude.{split_once, trim, trim_start, trim_end}
use ningshi.Examples.{list_map, list_map-BlockMapLaws}
use ningshi.Examples.Ticking.{readings, world, no_serde, succeeds}

-- Video, and an app that no rule names.
abbrev video_app : Pending
video_app = record { pidfd = 7; pid = 500; uid = 10001; started = 0 }

abbrev other_app : Pending
other_app = record { pidfd = 8; pid = 501; uid = 10003; started = 0 }

-- Both processes are in front and still carry their names.
abbrev in_front : Pending → Sight
in_front p = record {
  exited = false;
  oom_score_adj = some "0";
  now = 100;
  blocked_set = (tick list_map no_serde readings world).0.run.eng.gate.blocked_set;
  identity = (10001, "video" ∷ []) ∷ [];
  reads = λ i. some "video";
}

abbrev behind : Pending → Sight
behind p = record (in_front p) { oom_score_adj = some "700" }

abbrev idle : Killer
idle = record {
  kill_count = [];
  kill_skipped = 0;
  identity_skipped = 0;
  signalled = [];
  closed = [];
}

scan_once_example :
    (left : List Pending) × (k' : Killer) × (scan 3 in_front 0 (video_app ∷ other_app ∷ []) idle
      ≡ some (left, k'))
    × Perm left (filter (waits in_front) (video_app ∷ other_app ∷ []))
    × Perm k'.signalled (filter (shot in_front) (video_app ∷ other_app ∷ []) ++ [])
scan_once_example = scan_once 3 in_front (video_app ∷ other_app ∷ []) idle (omega arith)

now-lt-deadline_example : (behind video_app).now < 0 + 300
unfolding scan examine by_score
now-lt-deadline_example =
    now-lt-deadline 2 behind (video_app ∷ []) (video_app ∷ []) idle idle (omega arith) refl
      video_app (mem-cons.1 (Or.inl refl))

signalled-shutdown_example :
    (k' : Killer) × (turn in_front disconnected (video_app ∷ other_app ∷ []) idle
      ≡ some ([], k', true))
    × (k'.signalled ≡ reverse (video_app ∷ other_app ∷ []) ++ [])
signalled-shutdown_example = signalled-shutdown in_front (video_app ∷ other_app ∷ []) idle

abbrev spawned : List ℕ
spawned = 244 ∷ 1 ∷ 0 ∷ 0 ∷ 17 ∷ 39 ∷ 0 ∷ 0 ∷ []

abbrev empty : Drain
empty = record { recent = []; sent = [] }

handle_item_spaced_example :
    let d' = drain ((1 ∷ [], 12) ∷ []) (handle_item spawned 10 empty) in
    handle_item spawned 14 d' ≡ d'
unfolding decode handle_item handle_event get
handle_item_spaced_example =
    handle_item_spaced spawned spawned ((1 ∷ [], 12) ∷ []) 500 10001 10001 10 14 empty refl refl
      (λ h. cc h) (omega arith) (omega arith)

-- The state behind the pass.
abbrev video_killed : Killer
video_killed = record {
  kill_count = (10001, 1) ∷ [];
  kill_skipped = 0;
  identity_skipped = 0;
  signalled = video_app ∷ [];
  closed = video_app ∷ [];
}

mirrored : contains (tick list_map no_serde readings world).0.run.eng.gate.blocked_set 10001 ≡ true
unfolding tick reload_if_changed sync_packages apply_plan transitions tick_plan make_plan
    needs_screen enabled_sets count_usage reset_day get Set.insert maintain_group_cooldown
    pooled_usage scoped_usage is_protected split_once insert eval over_duration windows_block
    in_window parse_hhmm parse_u32 inside days_allow maintain_uid_cooldown transition switch
    set_blocked cleaned clean_up kill_uid release release_one contains_key elapsed_since needs_usage
    duration_targets finish_tick set_block_index
mirrored = refl

pass_video : scan 2 in_front 0 (video_app ∷ []) idle ≡ some ([], video_killed)
unfolding scan examine by_score try_kill kill_if_blocked identity_ok get insert pkg_of_pid_wait
    wait_from pkg_from_cmdline split_once trim trim_start trim_end swap_remove
pass_video = rw mirrored refl

want_of_signalled_example :
    get (tick_plan readings (refresh no_serde readings world).0.0).want 10001 ≡ some true
want_of_signalled_example =
    want_of_signalled list_map list_map-BlockMapLaws no_serde readings world (λ j. (refl, refl))
      succeeds 2 in_front (video_app ∷ []) [] idle video_killed (λ p. refl) (omega arith) pass_video
      refl video_app (mem-cons.1 (Or.inl refl))
