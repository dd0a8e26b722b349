-- ===== src/Threads.antt =====
-- The three threads of the daemon on what they share: the main thread of daemon/src/main.rs with the
-- engine, and the two threads that `Gate::start` of daemon/src/gate.rs spawns. A step is what one
-- thread does between two looks of the others: one entry of the plan, one message, one process. The
-- threads share the mirror of the block map, the names and the kill counters; the process ends
-- before the channel is closed, so the killer's last turn is not among the steps.
pub mod Ticks
pub mod Spared
pub mod Conserved
use ningshi.Prelude.{
  ℕ, zero, suc, ◌≡◌, Bool, true, false, List, [], ◌∷◌, ◌++◌, map, Option, none, some, if◌then◌else◌,
}
use ningshi.Prelude.Map.{Map}
use ningshi.Rules.{Serde}
use ningshi.Gate.{BlockMap}
use ningshi.Gate.Events.{Drain, handle_item}
use ningshi.Gate.Killer.{Pending, Sight, Killer, examine}
use ningshi.Gate.Killer.Scan.{get_elem?, swap_remove}
use ningshi.Gate.Killer.Thread.{Queued, pending_of}
use ningshi.Engine.{Engine}
use ningshi.Engine.Reload.{Files}
use ningshi.Engine.Transitions.{Run, Outcome, transition, release_one}
use ningshi.Engine.Tick.{Readings, World, refresh, ready, tick_plan, finish_tick}
use ningshi.Socket.{Parsed, Around}
use ningshi.Daemon.{serve}

-- Where the main thread is: outside of a tick, in the loop over `want`, or in the one that releases.
-- The lists are what is left of each loop.
pub data Phase : Type 0 where
  outside : Phase
  switching : Readings → Map ℕ Bool → Map ℕ Bool → Phase
  releasing : Readings → Map ℕ Bool → List ℕ → Phase

-- `recent` and `sent` are the state of the event thread, `queue` is what is in the channel, and
-- `gone` are the messages whose process had no descriptor any more.
pub record Threads (M : Type 0) : Type 0 where
  pub world : World M
  pub phase : Phase
  pub recent : Map ℕ ℕ
  pub sent : Map ℕ ℕ
  pub queue : Map ℕ ℕ
  pub pending : List Pending
  pub gone : Map ℕ ℕ
  pub killer : Killer

-- A message whose process has no descriptor any more.
abbrev pub gone_of : ℕ → ℕ → Option ℕ → Map ℕ ℕ
gone_of pid uid none = (pid, uid) ∷ []
gone_of pid uid (some pidfd) = []

module _ {M : Type 0} where
  -- The event thread takes an item of the ring buffer.
  unfoldable pub take_item : List ℕ → ℕ → Threads M → Threads M
  unfolding handle_item
  take_item item now t =
      let out = handle_item item now (record { recent = t.recent; sent = [] }) in
      record t { recent = out.recent; sent = t.sent ++ out.sent; queue = t.queue ++ out.sent }

  abbrev pub received : Option ℕ → ℕ → Threads M → Map ℕ ℕ → Threads M
  received pidfd now t [] = t
  received pidfd now t ((pid, uid) ∷ rest) = record t {
    queue = rest;
    pending = t.pending ++ pending_of (record { pid = pid; uid = uid; pidfd = pidfd }) pidfd now;
    gone = t.gone ++ gone_of pid uid pidfd;
  }

  -- The killer receives the next message.
  unfoldable pub receive : Option ℕ → ℕ → Threads M → Threads M
  receive pidfd now t = received pidfd now t t.queue

  abbrev pub engine : Threads M → Engine M
  engine t = t.world.run.eng

  abbrev pub with_engine : Threads M → Engine M → World M
  with_engine t e = record (t.world) { run = record (t.world.run) { eng = e } }

  -- The entry is put back or removed, and the counters are those of the engine.
  abbrev pub looked : Threads M → ℕ → Killer × Bool → Threads M
  looked t i (k, stays) = record t {
    world = with_engine t (record (engine t) { kill_count = k.kill_count });
    pending = if stays then t.pending else swap_remove t.pending i;
    killer = k;
  }

  abbrev pub looked_at_entry : ℕ → Sight → Threads M → Option Pending → Threads M
  looked_at_entry i s t none = t
  looked_at_entry i s t (some p) =
      looked t i (examine s p (record (t.killer) { kill_count = t.world.run.eng.kill_count }))

  -- The killer looks at the entry at the index.
  unfoldable pub look_at_entry : ℕ → Sight → Threads M → Threads M
  look_at_entry i s t = looked_at_entry i s t (get_elem? t.pending i)

  -- A tick up to its first transition. After an error it is over.
  abbrev pub begun : Readings → Threads M → (Engine M × Files) × Bool → Threads M
  begun r t ((e, files), false) = record t {
    world = record (with_engine t e) { files = files };
    phase = outside;
  }
  begun r t ((e, files), true) = record t {
    world = record (with_engine t (ready r e)) { files = files };
    phase = switching r (tick_plan r e).want (tick_plan r e).want;
  }

  unfoldable pub begin_tick : Serde → Readings → Threads M → Threads M
  begin_tick serde r t = begun r t (refresh serde r t.world)

  -- What a fallible step of a tick leaves: an error ends the tick.
  abbrev pub stepped : Threads M → Phase → Outcome M → Threads M
  stepped t next (run, true) = record t { world = record (t.world) { run = run }; phase = next }
  stepped t next (run, false) = record t { world = record (t.world) { run = run }; phase = outside }

  -- One step of the tick that is under way.
  unfoldable pub advance : BlockMap M → Phase → Threads M → Threads M
  advance bpf outside t = t
  advance bpf (switching r want ((uid, on) ∷ left)) t =
      stepped t (switching r want left) (transition bpf r.snap uid on t.world.run)
  advance bpf (switching r want []) t = record t {
    phase = releasing r want t.world.run.eng.blocked;
  }
  advance bpf (releasing r want (uid ∷ left)) t =
      stepped t (releasing r want left) (release_one bpf want uid t.world.run)
  advance bpf (releasing r want []) t = record t { world = finish_tick r t.world; phase = outside }

-- One step of one of the threads. What the killer sees of the block list is the mirror as it is; what
-- it sees else may be anything.
pub data Step {M : Type 0} (bpf : BlockMap M) (from_slice : List ℕ → Parsed) (serde : Serde)
    : Threads M → Threads M → Type 0 where
  event :
      (t : Threads M) (item : List ℕ) (now : ℕ) → Step bpf from_slice serde t (take_item item now t)
  message :
      (t : Threads M) (pidfd : Option ℕ) (now : ℕ)
      → Step bpf from_slice serde t (receive pidfd now t)
  look :
      (t : Threads M) (i : ℕ) (s : Sight)
      → s.blocked_set ≡ t.world.run.eng.gate.blocked_set
      → Step bpf from_slice serde t (look_at_entry i s t)
  request :
      (t : Threads M) (around : Around) (client : Option (Option (List ℕ)))
      → t.phase ≡ outside
      → Step bpf from_slice serde t
          (record t { world = (serve from_slice serde around client t.world).0 })
  begin :
      (t : Threads M) (r : Readings)
      → t.phase ≡ outside
      → Step bpf from_slice serde t (begin_tick serde r t)
  ticking : (t : Threads M) → Step bpf from_slice serde t (advance bpf t.phase t)

-- Any number of steps.
pub data Steps {M : Type 0} (bpf : BlockMap M) (from_slice : List ℕ → Parsed) (serde : Serde)
    (t : Threads M) : Threads M → Type 0 where
  here : Steps bpf from_slice serde t t
  next :
      {u v : Threads M}
      → Steps bpf from_slice serde t u
      → Step bpf from_slice serde u v
      → Steps bpf from_slice serde t v
