-- ===== src/Examples/Threading.antt =====
-- The theorems on the threads: a tick, then a spawn of a blocked app that the kernel reports.
use ningshi.Prelude.{
  ℕ, ◌≤◌, ◌<◌, ◌≡◌, refl, false, List, [], ◌∷◌, none, some, All, contains, nat_key, ◌+◌,
}
use ningshi.Gate.Killer.{Pending, Sight}
use ningshi.Prelude.{split_once, parse_u32}
use ningshi.Prelude.Map.{get, insert, contains_key}
use ningshi.Prelude.Set
use ningshi.Clear.{kill_uid}
use ningshi.Gate.{set_blocked, set_block_index}
use ningshi.Gate.Events.{handle_item}
use ningshi.Gate.Killer.{examine, identity_ok}
use ningshi.Proc.{pkg_of_pid_wait}
use ningshi.Window.{in_window, parse_hhmm, inside, days_allow}
use ningshi.Decide.{eval, windows_block}
use ningshi.Wake.{enabled_sets}
use ningshi.Engine.Usage.{over_duration, pooled_usage, scoped_usage}
use ningshi.Engine.Cooldown.{maintain_uid_cooldown, maintain_group_cooldown}
use ningshi.Engine.Plan.{is_protected, make_plan, tidy_names, push_name, package_of}
use ningshi.Prelude.Sort.{sort, dedup}
use ningshi.Engine.Packages.{sync_packages}
use ningshi.Engine.Reload.{reload_if_changed}
use ningshi.Engine.Transitions.{
  apply_plan, transitions, transition, switch, cleaned, clean_up, release, release_one,
}
use ningshi.Engine.Saved.{reset_day}
use ningshi.Engine.Counting.{
  needs_screen, elapsed_since, needs_usage, duration_targets, count_usage,
}
use ningshi.Engine.Tick.{tick_plan, finish_tick, tick}
use ningshi.Threads.{
  Threads, outside, take_item, receive, look_at_entry, event, message, look, Steps, next,
}
use ningshi.Threads.Ticks.{tick-Steps}
use ningshi.Threads.Spared.{no_system_uid}
use ningshi.Threads.Conserved.{count, count_entries, queued_once}
use ningshi.Examples.{list_map}
use ningshi.Examples.Ticking.{no_serde, readings, world}
use ningshi.Examples.Serving.{says}

abbrev idle : Threads (List ℕ)
idle = record {
  world = world;
  phase = outside;
  recent = [];
  sent = [];
  queue = [];
  pending = [];
  gone = [];
  killer = record {
    kill_count = [];
    kill_skipped = 0;
    identity_skipped = 0;
    signalled = [];
    closed = [];
  };
}

abbrev after_tick : Threads (List ℕ)
after_tick = record idle { world = (tick list_map no_serde readings world).0; phase = outside }

one_tick : Steps list_map (says "status") no_serde idle after_tick
one_tick = tick-Steps list_map (says "status") no_serde readings idle refl

-- pid 4242 of uid 10001
abbrev spawn : List ℕ
spawn = 146 ∷ 16 ∷ 0 ∷ 0 ∷ 17 ∷ 39 ∷ 0 ∷ 0 ∷ []

abbrev queued : Threads (List ℕ)
queued = receive (some 7) 1 (take_item spawn 0 after_tick)

-- The app is in front.
abbrev seen : Sight
seen = record {
  exited = false;
  oom_score_adj = some "0";
  now = 2;
  blocked_set = queued.world.run.eng.gate.blocked_set;
  identity = queued.world.run.eng.gate.identity;
  reads = λ i. none;
}

abbrev shot : Threads (List ℕ)
shot = look_at_entry 0 seen queued

all_the_way : Steps list_map (says "status") no_serde idle shot
all_the_way =
    next
      (next (next one_tick (event after_tick spawn 0))
        (message (take_item spawn 0 after_tick) (some 7) 1))
      (look queued 0 seen refl)

no_system_uid_example :
    ((j : ℕ) → j < 10000 → contains shot.world.run.eng.gate.blocked_set j ≡ false)
    × All (λ (p : Pending). 10000 ≤ p.uid) shot.killer.signalled
no_system_uid_example =
    no_system_uid list_map (says "status") no_serde idle shot refl refl refl all_the_way

queued_once_example :
    (count 4242 10001 shot.sent
      ≡ count 4242 10001 shot.queue
        + count_entries 4242 10001 shot.pending
        + count_entries 4242 10001 shot.killer.closed
        + count 4242 10001 shot.gone)
    × (count_entries 4242 10001 shot.killer.signalled ≤ count 4242 10001 shot.sent)
queued_once_example =
    queued_once list_map (says "status") no_serde idle shot 4242 10001
      (refl, refl, refl, refl, refl, refl) all_the_way

-- The app is shot.
shot_test : count_entries 4242 10001 shot.killer.signalled ≡ 1
unfolding tick reload_if_changed sync_packages apply_plan transitions tick_plan make_plan
    needs_screen enabled_sets count_usage reset_day get Set.insert maintain_group_cooldown
    pooled_usage scoped_usage is_protected split_once insert eval over_duration windows_block
    in_window parse_hhmm parse_u32 inside days_allow maintain_uid_cooldown transition switch
    set_blocked cleaned clean_up kill_uid release release_one contains_key elapsed_since needs_usage
    duration_targets finish_tick take_item receive look_at_entry examine identity_ok pkg_of_pid_wait
    tidy_names handle_item set_block_index push_name package_of dedup sort
shot_test = refl
