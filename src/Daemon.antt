-- ===== src/Daemon.antt =====
-- daemon/src/main.rs: the loop that serves requests, watches the package list and ticks. Times are
-- nanoseconds on the monotonic clock.
pub mod Inotify
pub mod Cli
pub mod Launch
pub mod Reachable
pub mod Budget
pub mod Guarded
pub mod Schedule
use ningshi.Prelude.{
  ℕ, ◌+◌, ◌-◌, ◌*◌, ◌/◌, min, String, Bool, true, false, ◌||◌, List, [], Option, none, some, ltb,
  leb, if◌then◌else◌,
}
use ningshi.Prelude.Map.{Map}
use ningshi.Rules.{Serde}
use ningshi.Gate.{BlockMap, Gate}
use ningshi.Engine.{Engine, Moment}
use ningshi.Engine.Reload.{Files, System}
use ningshi.Engine.Saved.{StateFile}
use ningshi.Engine.Start.{new}
use ningshi.Engine.Tick.{Readings, World, tick, tick_interval_secs}
use ningshi.Socket.{Parsed, Around, Served, handle}
use ningshi.Daemon.Inotify.{drain_inotify}

-- The engine with its files, and the time of the next tick.
pub record Daemon (M : Type 0) : Type 0 where
  pub world : World M
  pub next_tick : ℕ

-- What one round of the loop meets: the clock before `poll`, the bytes of a client if one connects
-- (`some none`: they cannot be read), the reads from the watch if it has something, the clock at
-- the test, what a tick reads, and the clocks behind it.
pub record Round : Type 0 where
  pub start : ℕ
  pub client : Option (Option (List ℕ))
  pub around : Around
  pub watch : Option (List (List ℕ))
  pub tested : ℕ
  pub readings : Readings
  pub moment : Moment
  pub done : ℕ

-- The timeout of `poll` in milliseconds: `as_millis` rounds down.
unfoldable pub wait_ms : ℕ → ℕ → ℕ
wait_ms next_tick now =
    if ltb now next_tick then min ((next_tick - now) / 1000000) 2147483647 else 0

unfoldable pub drained : Option (List (List ℕ)) → Bool
drained none = false
drained (some reads) = drain_inotify reads

-- The test at the end of the round.
unfoldable pub is_due : Round → ℕ → Bool → Bool
is_due round next_tick changed = leb next_tick round.tested || changed

module _ {M : Type 0} where
  abbrev with_engine : World M → Engine M × Files → World M
  with_engine w (e, files) = record w { run = record (w.run) { eng = e }; files = files }

  abbrev after : World M → Served M → World M × Bool
  after w (s, (resp, changed)) = (with_engine w s, changed)

  -- The part of the round for the socket.
  unfoldable pub serve :
      (List ℕ → Parsed) → Serde → Around → Option (Option (List ℕ)) → World M → World M × Bool
  serve from_slice serde around none w = (w, false)
  serve from_slice serde around (some buf) w =
      after w (handle from_slice serde around buf w.run.eng w.files)

  -- The daemon behind the listening socket: the first tick is done, and the next is due at once.
  unfoldable pub boot :
      BlockMap M
      → Serde
      → System
      → Gate M
      → Moment
      → Option StateFile
      → Files
      → Readings
      → ℕ
      → Daemon M
  unfolding tick
  boot bpf serde sys gate m saved files r now =
      let (e, files') = new serde sys gate [] m saved files in
      record {
        world =
            (tick bpf serde r
              (record { run = record { eng = e; signals = [] }; files = files'; saved = saved })).0;
        next_tick = now;
      }

  -- The tick and the schedule behind it.
  unfoldable pub ticked : BlockMap M → Serde → Round → World M → Daemon M
  unfolding tick tick_interval_secs
  ticked bpf serde round w =
      let w' = (tick bpf serde round.readings w).0 in
      record {
        world = w';
        next_tick = round.done + 1000000000 * tick_interval_secs w'.run.eng round.moment;
      }

  -- One round of the loop.
  unfoldable pub iterate : BlockMap M → (List ℕ → Parsed) → Serde → Round → Daemon M → Daemon M
  unfolding is_due ticked
  iterate bpf from_slice serde round d =
      let (w, changed) = serve from_slice serde round.around round.client d.world in
      if is_due round d.next_tick (changed || drained round.watch)
      then ticked bpf serde round w
      else record { world = w; next_tick = d.next_tick }
