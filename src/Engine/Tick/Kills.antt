-- ===== src/Engine/Tick/Kills.antt =====
-- What the killer thread may signal after a tick.
use mathlib.Core.List.{Mem}
use mathlib.Core.Option.{Option, none, some}
use ningshi.Prelude.{
  ℕ, ◌<◌, ◌≡◌, sym, ap, ◌∙◌, Bool, true, false, List, [], or_else, length, contains, nat_key,
}
use ningshi.Prelude.Map.{get}
use ningshi.Rules.{Serde}
use ningshi.Gate.{BlockMap, BlockMapLaws}
use ningshi.Gate.Killer.{Pending, Sight, Killer}
use ningshi.Gate.Killer.Scan.{scan}
use ningshi.Gate.Killer.Checks.{may_kill_iff, may_kill_of_signalled}
use ningshi.Engine.Transitions.Exact.{IsSynced}
use ningshi.Engine.Tick.{Readings, World, tick, tick_plan, refresh}
use ningshi.Engine.Tick.Enforces.{is_blocked-tick}
use ningshi.Engine.Tick.InStep.{tick-IsSynced}

wanted_of : (o : Option Bool) → or_else o false ≡ true → o ≡ some true
wanted_of none h = cc h
wanted_of (some b) h = cc h

module _ {M : Type 0} (bpf : BlockMap M) (laws : BlockMapLaws bpf) (serde : Serde) (r : Readings)
    (w : World M) (synced : IsSynced bpf w.run) (done : (tick bpf serde r w).1 ≡ true) (fuel : ℕ)
    (look : Pending → Sight) (pending left : List Pending) (k k' : Killer)
    (reads_gate : (p : Pending)
      → (look p).blocked_set ≡ (tick bpf serde r w).0.run.eng.gate.blocked_set)
    (enough : length pending < fuel) (ends : scan fuel look 0 pending k ≡ some (left, k'))
    (fresh : k.signalled ≡ []) where
  -- A pass of the killer over the mirror that a successful tick has left signals only processes
  -- whose uid the tick's plan blocks. The processes may have been queued at any time before.
  pub want_of_signalled :
      (p : Pending)
      → Mem p k'.signalled
      → get (tick_plan r (refresh serde r w).0.0).want p.uid ≡ some true
  want_of_signalled p m =
      let allowed = may_kill_of_signalled fuel look pending left k k' enough ends p fresh m in
      let (listed, _) = (may_kill_iff (look p) p).0 allowed in
      let in_mirror : contains (tick bpf serde r w).0.run.eng.gate.blocked_set p.uid ≡ true =
        ap (λ us. contains us p.uid) (sym (reads_gate p)) ∙ listed in
      wanted_of (get (tick_plan r (refresh serde r w).0.0).want p.uid) (
        sym (is_blocked-tick bpf serde r w p.uid done)
        ∙ sym (tick-IsSynced bpf laws serde r w synced p.uid).1
        ∙ in_mirror)
