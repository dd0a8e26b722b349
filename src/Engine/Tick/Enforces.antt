-- ===== src/Engine/Tick/Enforces.antt =====
-- What a tick that succeeds leaves in force.
use ningshi.Prelude.{
  ℕ, ◌-◌, contains, ◌<◌, ◌≡◌, refl, ap, ◌∙◌, inl, inr, String, Bool, true, false, Option, leb,
  lt→ltb, or_else, nat_key, string_key, Bool-cases, Option-cases,
}
use ningshi.Prelude.Map.{get, IsDistinct, insert-IsDistinct}
use ningshi.Rules.{Serde}
use ningshi.Gate.{BlockMap}
use ningshi.Engine.{Engine, Moment}
use ningshi.Engine.Plan.{Plan, target_uid, plan_key, record_verdict, make_plan}
use ningshi.Engine.Plan.Induction.{make_plan_induction}
use ningshi.Engine.Plan.Spared.{IsSilent, make_plan-IsSilent}
use ningshi.Engine.Transitions.{Run, Outcome, apply_plan}
use ningshi.Engine.Transitions.Exact.{is_blocked, is_blocked-apply_plan}
use ningshi.Engine.Saved.{save_state}
use ningshi.Engine.Reload.{Files}
use ningshi.Engine.Tick.{
  Readings, World, prepare, tick_plan, sweep_blocked, finish_tick, refresh, ready, finish, enforce,
  tick,
}

module _ {M : Type 0} (e : Engine M) where
  plan_key-IsDistinct :
      (key : String) (blocks : ℕ → Bool) (plan : Plan)
      → IsDistinct plan.want
      → IsDistinct (plan_key e key blocks plan).want
  unfolding plan_key record_verdict
  plan_key-IsDistinct key blocks plan h = elim (Option-cases (target_uid e key)) [
    | inl skipped ↦ rw (skipped, plan_key) h
    | inr (uid, at) ↦ rw (at, plan_key) (insert-IsDistinct plan.want uid (blocks uid) h)
  ]

  make_plan-IsDistinct : (m : Moment) (off : Bool) → IsDistinct (make_plan e m off).want
  make_plan-IsDistinct m off =
      make_plan_induction e m off (λ plan. IsDistinct plan.want) plan_key-IsDistinct tt

module _ {M : Type 0} where
  tick_plan-IsDistinct : (r : Readings) (e : Engine M) → IsDistinct (tick_plan r e).want
  unfolding tick_plan
  tick_plan-IsDistinct r e = let (e', off) = prepare r e in make_plan-IsDistinct e' r.now off

  pub tick_plan-IsSilent :
      (r : Readings) (e : Engine M) (j : ℕ) → j < 10000 → IsSilent j (tick_plan r e)
  unfolding tick_plan
  tick_plan-IsSilent r e j system =
      let (e', off) = prepare r e in
      make_plan-IsSilent e' j (λ key at. rw (lt→ltb j 10000 system)) r.now off

  blocked-sweep_blocked :
      (r : Readings) (run : Run M) → (sweep_blocked r run).eng.blocked ≡ run.eng.blocked
  unfolding sweep_blocked
  blocked-sweep_blocked r run = elim (Bool-cases (leb 60 (r.now.now_epoch - run.eng.last_sweep))) [
    | inl due ↦ rw due refl
    | inr early ↦ rw early refl
  ]

  blocked-finish_tick :
      (r : Readings) (w : World M) → (finish_tick r w).run.eng.blocked ≡ w.run.eng.blocked
  unfolding finish_tick save_state
  blocked-finish_tick r w =
      elim (Bool-cases (leb 60 (r.now.now_epoch - (sweep_blocked r w.run).eng.last_save))) [
        | inl due ↦ rw due (blocked-sweep_blocked r w.run)
        | inr early ↦ rw early (blocked-sweep_blocked r w.run)
      ]

  finish_done :
      (r : Readings) (w : World M) (o : Outcome M)
      → (finish r w o).1 ≡ true
      → (o.1 ≡ true) × ((finish r w o).0.run.eng.blocked ≡ o.0.eng.blocked)
  unfolding finish
  finish_done r w (run, false) h = cc h
  finish_done r w (run, true) h = (refl, blocked-finish_tick r (record w { run = run }))

module _ {M : Type 0} (bpf : BlockMap M) where
  enforce-is_blocked :
      (r : Readings) (w : World M) (o : (Engine M × Files) × Bool) (j : ℕ)
      → (enforce bpf r w o).1 ≡ true
      → is_blocked bpf (enforce bpf r w o).0.run j ≡ or_else (get (tick_plan r o.0.0).want j) false
  unfolding enforce
  enforce-is_blocked r w (s, false) j h = cc h
  enforce-is_blocked r w ((e, files), true) j h =
      let run = record (w.run) { eng = ready r e } in
      let o = apply_plan bpf r.snap (tick_plan r e).want run in
      let (done, kept) = finish_done r (record w { files = files }) o h in
      ap (λ us. contains us j) kept
      ∙ is_blocked-apply_plan bpf r.snap (tick_plan r e).want run j (tick_plan-IsDistinct r e) done

  -- When a tick succeeds, a uid is blocked exactly if the plan says so that is made from the rules
  -- and the packages that the tick has just read, the usage and the cooldowns it has just brought
  -- up to date, and its date and screen. The state before may be anything.
  pub is_blocked-tick :
      (serde : Serde) (r : Readings) (w : World M) (j : ℕ)
      → (tick bpf serde r w).1 ≡ true
      → is_blocked bpf (tick bpf serde r w).0.run j
        ≡ or_else (get (tick_plan r (refresh serde r w).0.0).want j) false
  unfolding tick
  is_blocked-tick serde r w j h = enforce-is_blocked r w (refresh serde r w) j h

  -- After a tick that succeeds no system uid is blocked, whatever was blocked before and whatever
  -- the rules say.
  pub is_blocked-tick_system :
      (serde : Serde) (r : Readings) (w : World M) (j : ℕ)
      → j < 10000
      → (tick bpf serde r w).1 ≡ true
      → is_blocked bpf (tick bpf serde r w).0.run j ≡ false
  is_blocked-tick_system serde r w j system h =
      is_blocked-tick serde r w j h
      ∙ ap (λ (v : Option Bool). or_else v false)
          (tick_plan-IsSilent r (refresh serde r w).0.0 j system)
