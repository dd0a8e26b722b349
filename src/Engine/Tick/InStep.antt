-- ===== src/Engine/Tick/InStep.antt =====
-- A tick keeps the kernel, the killer's mirror and the engine in step.
use mathlib.Core.Path.{subst}
use ningshi.Prelude.{ℕ, ◌≡◌, refl, sym, Bool, true, false, List, contains, nat_key}
use ningshi.Rules.{Serde}
use ningshi.Gate.{BlockMap, BlockMapLaws}
use ningshi.Engine.{Engine}
use ningshi.Engine.Reload.{Files}
use ningshi.Engine.Transitions.{Run, apply_plan}
use ningshi.Engine.Transitions.Exact.{IsSynced, apply_plan-IsSynced}
use ningshi.Engine.Tick.{Readings, World, tick_plan, refresh, ready, finish, enforce, tick}
use ningshi.Engine.Tick.Frame.{refresh-keep, ready-keep, finish-keep}
use ningshi.Engine.Tick.View.{view, view-OutlivesTick}

module _ {M : Type 0} (bpf : BlockMap M) where
  pub IsSynced-of_view :
      (r r' : Run M) → view r'.eng ≡ view r.eng → IsSynced bpf r → IsSynced bpf r'
  IsSynced-of_view r r' same h =
      subst
        (λ (v : M × List ℕ × List ℕ).
          (j : ℕ) → (bpf.has v.0 j ≡ contains v.2 j) × (contains v.1 j ≡ contains v.2 j))
        (sym same) h

  module _ (laws : BlockMapLaws bpf) where
    enforce-IsSynced :
        (r : Readings) (w : World M) (o : (Engine M × Files) × Bool)
        → view o.0.0 ≡ view w.run.eng
        → IsSynced bpf w.run
        → IsSynced bpf (enforce bpf r w o).0.run
    unfolding enforce
    enforce-IsSynced r w ((e, files), false) same h =
        IsSynced-of_view w.run (record (w.run) { eng = e }) same h
    enforce-IsSynced r w ((e, files), true) same h =
        let run = record (w.run) { eng = ready r e } in
        let o = apply_plan bpf r.snap (tick_plan r e).want run in
        IsSynced-of_view o.0 (finish r (record w { files = files }) o).0.run
          (finish-keep (λ (x : Engine M). view x ≡ view o.0.eng) (view-OutlivesTick _) r
            (record w { files = files }) o refl)
          (apply_plan-IsSynced bpf laws r.snap (tick_plan r e).want run (
            IsSynced-of_view w.run run
              (ready-keep (λ (x : Engine M). view x ≡ view w.run.eng) (view-OutlivesTick _) r e
                same)
              h))

    -- A whole tick, wherever it ends, leaves the set of the engine, the mirror for the killer
    -- thread and the block map of the kernel equal if they were equal before.
    pub tick-IsSynced :
        (serde : Serde) (r : Readings) (w : World M)
        → IsSynced bpf w.run
        → IsSynced bpf (tick bpf serde r w).0.run
    unfolding tick
    tick-IsSynced serde r w h =
        enforce-IsSynced r w (refresh serde r w)
          (refresh-keep (λ (x : Engine M). view x ≡ view w.run.eng) (view-OutlivesTick _) serde r w
            refl)
          h
