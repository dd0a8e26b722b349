-- ===== src/Daemon/Reachable.antt =====
-- The states that the daemon can be in, and what holds in all of them.
use mathlib.Core.Path.{subst}
use ningshi.Prelude.{
  ℕ, ◌≡◌, refl, sym, ap, inl, inr, false, ◌||◌, List, [], Option, none, some, contains, nat_key,
  Bool-cases,
}
use ningshi.Prelude.Map.{Map}
use ningshi.Rules.{Serde}
use ningshi.Gate.{BlockMap, BlockMapLaws, Gate}
use ningshi.Engine.{Engine, Moment}
use ningshi.Engine.Reload.{Files, System}
use ningshi.Engine.Saved.{StateFile, restored}
use ningshi.Engine.Start.{blank, new}
use ningshi.Engine.Transitions.Exact.{IsSynced}
use ningshi.Engine.Tick.{Readings, World}
use ningshi.Engine.Start.Frame.{new-keep}
use ningshi.Engine.Tick.View.{view}
use ningshi.Engine.Tick.InStep.{tick-IsSynced, IsSynced-of_view}
use ningshi.Socket.{Parsed, Around}
use ningshi.Socket.Block.{view-handle}
use ningshi.Daemon.{Daemon, Round, boot, serve, drained, is_due, ticked, iterate}

-- Nothing is blocked in a gate that was just started.
abbrev pub IsEmpty : {M : Type 0} → BlockMap M → Gate M → Type 0
IsEmpty bpf g = ((j : ℕ) → bpf.has g.blocked j ≡ false) × (g.blocked_set ≡ [])

-- Started with an empty gate and some saved state, and then any rounds with anything that can come
-- in.
pub data Reachable {M : Type 0} (bpf : BlockMap M) (from_slice : List ℕ → Parsed) (serde : Serde)
    (Saved : Option StateFile → Type 0) : Daemon M → Type 0 where
  started :
      (sys : System) (gate : Gate M) (m : Moment) (saved : Option StateFile) (files : Files)
      (r : Readings) (now : ℕ) (d : Daemon M)
      → IsEmpty bpf gate
      → Saved saved
      → d ≡ boot bpf serde sys gate m saved files r now
      → Reachable bpf from_slice serde Saved d
  after_round :
      (round : Round) (d d' : Daemon M)
      → Reachable bpf from_slice serde Saved d
      → d' ≡ iterate bpf from_slice serde round d
      → Reachable bpf from_slice serde Saved d'

module _ {M : Type 0} (bpf : BlockMap M) where
  view-new :
      (serde : Serde) (sys : System) (gate : Gate M) (kills : Map ℕ ℕ) (m : Moment)
      (saved : Option StateFile) (files : Files)
      → view (new serde sys gate kills m saved files).0 ≡ (gate.blocked, gate.blocked_set, [])
  unfolding blank restored
  view-new serde sys gate kills m saved files =
      new-keep (λ (x : Engine M). view x ≡ (gate.blocked, gate.blocked_set, [])) (λ e r s h. h)
        serde sys gate kills m saved files refl (λ e st here h. h)

  module _ (laws : BlockMapLaws bpf) (from_slice : List ℕ → Parsed) (serde : Serde) where
    boot-IsSynced :
        (sys : System) (gate : Gate M) (m : Moment) (saved : Option StateFile) (files : Files)
        (r : Readings) (now : ℕ)
        → IsEmpty bpf gate
        → IsSynced bpf (boot bpf serde sys gate m saved files r now).world.run
    unfolding boot
    boot-IsSynced sys gate m saved files r now (nothing, unset) =
        let (e, files') = new serde sys gate [] m saved files in
        let synced : IsSynced bpf (record { eng = e; signals = [] }) =
          subst
            (λ (v : M × List ℕ × List ℕ).
              (j : ℕ) → (bpf.has v.0 j ≡ contains v.2 j) × (contains v.1 j ≡ contains v.2 j))
            (sym (view-new serde sys gate [] m saved files))
            (λ j. (nothing j, ap (λ us. contains us j) unset)) in
        tick-IsSynced bpf laws serde r _ synced

    serve-IsSynced :
        (around : Around) (client : Option (Option (List ℕ))) (w : World M)
        → IsSynced bpf w.run
        → IsSynced bpf (serve from_slice serde around client w).0.run
    unfolding serve
    serve-IsSynced around none w h = h
    serve-IsSynced around (some buf) w h =
        IsSynced-of_view bpf w.run (serve from_slice serde around (some buf) w).0.run
          (view-handle w.run.eng serde around w.files from_slice buf) h

    iterate-IsSynced :
        (round : Round) (d : Daemon M)
        → IsSynced bpf d.world.run
        → IsSynced bpf (iterate bpf from_slice serde round d).world.run
    unfolding iterate ticked
    iterate-IsSynced round d h =
        let (w, changed) = serve from_slice serde round.around round.client d.world in
        let kept : IsSynced bpf w.run = serve-IsSynced round.around round.client d.world h in
        elim (Bool-cases (is_due round d.next_tick (changed || drained round.watch))) [
          | inl due ↦ rw due (tick-IsSynced bpf laws serde round.readings w kept)
          | inr early ↦ rw early kept
        ]

    -- In every state that the daemon reaches from an empty gate, whatever requests, rule files,
    -- package lists, kernel errors and clocks it meets, the engine's set of blocked uids, the
    -- mirror for the killer thread and the block map of the kernel hold the same uids.
    pub Reachable-IsSynced :
        (Saved : Option StateFile → Type 0) (d : Daemon M)
        → Reachable bpf from_slice serde Saved d
        → IsSynced bpf d.world.run
    Reachable-IsSynced Saved d (started sys gate m saved files r now d' empty fine e) =
        rw e (boot-IsSynced sys gate m saved files r now empty)
    Reachable-IsSynced Saved d (after_round round before d' h e) =
        rw e (iterate-IsSynced round before (Reachable-IsSynced Saved before h))
