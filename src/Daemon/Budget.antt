-- ===== src/Daemon/Budget.antt =====
-- The daily budget of extensions in every state of the daemon.
use ningshi.Prelude.{
  ℕ, ◌-◌, ◌≡◌, inl, inr, Bool, true, false, ◌||◌, List, [], Option, none, some, arith, leb, Key,
  nat_key, string_key, Bool-cases,
}
use mathlib.Core.Path.{subst}
use ningshi.Prelude.Map.{Map, retain, get, get-retain}
use ningshi.Rules.{Serde}
use ningshi.Gate.{BlockMap, set_block_index}
use ningshi.Engine.{Engine}
use ningshi.Engine.Extension.Budget.{IsCapped, IsWithinBudget, add_extension-IsWithinBudget}
use ningshi.Engine.Packages.{is_time, drop_dead}
use ningshi.Engine.Reload.{Files}
use ningshi.Engine.Reload.Frame.{if-keep}
use ningshi.Engine.Saved.{StateFile, restored, reset_day, save_state, state_file}
use ningshi.Engine.Start.{blank}
use ningshi.Engine.Start.Frame.{new-keep}
use ningshi.Engine.Transitions.{Outcome, apply_plan}
use ningshi.Engine.Transitions.Frame.{apply_plan-keep}
use ningshi.Engine.Tick.{
  Readings, World, tick_plan, refresh, ready, sweep_blocked, finish_tick, finish, enforce, tick,
}
use ningshi.Engine.Tick.Frame.{
  OutlivesTick, refresh-keep, ready-keep, sweep_blocked-keep, finish-keep,
}
use ningshi.Socket.{Parsed, Around}
use ningshi.Socket.Frame.{handle-keep}
use ningshi.Daemon.{Daemon, Round, boot, serve, drained, is_due, ticked, iterate}
use ningshi.Daemon.Reachable.{Reachable, started, after_round}

-- The saved state, if there is one, is within the budget too.
abbrev pub IsSavedWithin : Option StateFile → Type 0
IsSavedWithin none = Unit
IsSavedWithin (some st) = IsCapped st.ext_granted_today × IsCapped st.group_ext_granted_today

nothing_granted : {K : Type 0} ⦃key : Key K⦄ → IsCapped {K = K} []
unfolding get
nothing_granted k = omega arith

retain-IsCapped : (p : ℕ → Bool) (m : Map ℕ ℕ) → IsCapped m → IsCapped (retain p m)
retain-IsCapped p m h k = ground (arith, get-retain p m k, h k)

module _ {M : Type 0} where
  IsWithinBudget-OutlivesTick : OutlivesTick {M = M} IsWithinBudget
  unfolding drop_dead reset_day set_block_index
  IsWithinBudget-OutlivesTick = record {
    reloading = record {
      rule_set = λ e r s h. h;
      settings = λ e tz ime home h. h;
      uids = λ e m t h. h;
      uid_cooldowns = λ e c h. h;
      group_cooldowns = λ e c h. h;
    };
    seen = λ e t h. h;
    usage = λ e all fg h. h;
    extension = λ e x h. h;
    dead = λ e uids h. (retain-IsCapped _ e.ext_granted_today h.0, h.1);
    day = λ e m h.
        if-keep IsWithinBudget (is_time e.last_day m.today) e _ h
          (nothing_granted, nothing_granted);
    counted = λ e t h. h;
    screen = λ e off h. h;
    named = λ e names h. h;
    kept_house = λ e sweep save interval h. h;
  }

  -- The engine and the saved state of a world.
  abbrev pub IsWithin : World M → Type 0
  IsWithin w = IsWithinBudget w.run.eng × IsSavedWithin w.saved

  finish_tick-saved :
      (r : Readings) (w : World M) → IsWithin w → IsSavedWithin (finish_tick r w).saved
  unfolding finish_tick save_state state_file
  finish_tick-saved r w h =
      let swept : IsWithinBudget (sweep_blocked r w.run).eng =
        sweep_blocked-keep IsWithinBudget IsWithinBudget-OutlivesTick r w.run h.0 in
      elim (Bool-cases (leb 60 (r.now.now_epoch - (sweep_blocked r w.run).eng.last_save))) [
        | inr early ↦ rw early h.1
        | inl due ↦ rw due (elim (Bool-cases r.written) [
          | inl written ↦ rw written swept
          | inr failed ↦ rw failed h.1
        ])
      ]

  finish-IsWithin :
      (r : Readings) (w : World M) (o : Outcome M)
      → IsWithinBudget o.0.eng
      → IsSavedWithin w.saved
      → IsWithin (finish r w o).0
  unfolding finish
  finish-IsWithin r w (run, false) h k = (h, k)
  finish-IsWithin r w (run, true) h k = (
    finish-keep IsWithinBudget IsWithinBudget-OutlivesTick r w (run, true) h,
    finish_tick-saved r (record w { run = run }) (h, k),
  )

  module _ (bpf : BlockMap M) (serde : Serde) where
    enforce-IsWithin :
        (r : Readings) (w : World M) (o : (Engine M × Files) × Bool)
        → IsWithinBudget o.0.0
        → IsSavedWithin w.saved
        → IsWithin (enforce bpf r w o).0
    unfolding enforce
    enforce-IsWithin r w ((e, files), false) h k = (h, k)
    enforce-IsWithin r w ((e, files), true) h k =
        finish-IsWithin r (record w { files = files })
          (apply_plan bpf r.snap (tick_plan r e).want (record (w.run) { eng = ready r e }))
          (apply_plan-keep bpf IsWithinBudget (λ x c p. p) (λ x g b p. p) r.snap
            (tick_plan r e).want (record (w.run) { eng = ready r e })
            (ready-keep IsWithinBudget IsWithinBudget-OutlivesTick r e h))
          k

    tick-IsWithin : (r : Readings) (w : World M) → IsWithin w → IsWithin (tick bpf serde r w).0
    unfolding tick
    tick-IsWithin r w h =
        enforce-IsWithin r w (refresh serde r w)
          (refresh-keep IsWithinBudget IsWithinBudget-OutlivesTick serde r w h.0) h.1

    module _ (from_slice : List ℕ → Parsed) where
      serve-IsWithin :
          (around : Around) (client : Option (Option (List ℕ))) (w : World M)
          → IsWithin w
          → IsWithin (serve from_slice serde around client w).0
      unfolding serve
      serve-IsWithin around none w h = h
      serve-IsWithin around (some buf) w h = (
        handle-keep IsWithinBudget IsWithinBudget-OutlivesTick.reloading
            (λ e key now minutes k. add_extension-IsWithinBudget e key now minutes k) serde around
            w.run.eng w.files h.0 from_slice buf,
        h.1,
      )

      iterate-IsWithin :
          (round : Round) (d : Daemon M)
          → IsWithin d.world
          → IsWithin (iterate bpf from_slice serde round d).world
      unfolding iterate ticked
      iterate-IsWithin round d h =
          let (w, changed) = serve from_slice serde round.around round.client d.world in
          let kept : IsWithin w = serve-IsWithin round.around round.client d.world h in
          elim (Bool-cases (is_due round d.next_tick (changed || drained round.watch))) [
            | inl due ↦ rw due (tick-IsWithin round.readings w kept)
            | inr early ↦ rw early kept
          ]

      restored-IsWithinBudget :
          (saved : Option StateFile) (e : Engine M) (st : StateFile)
          → IsSavedWithin saved
          → saved ≡ some st
          → IsWithinBudget (restored e st)
      unfolding restored
      restored-IsWithinBudget saved e st fine here = subst IsSavedWithin here fine

      -- If the daemon starts with a saved state within the budget, or with none, then in every state
      -- that it reaches no uid and no group has more than 120 granted minutes on the account of the day,
      -- and the state that it has saved is within the budget again.
      pub Reachable-IsWithin :
          (d : Daemon M) → Reachable bpf from_slice serde IsSavedWithin d → IsWithin d.world
      unfolding boot blank
      Reachable-IsWithin d (started sys gate m saved files r now d' empty fine e) = rw e (
          tick-IsWithin r _ (
            new-keep IsWithinBudget (λ x rs s h. h) serde sys gate [] m saved files
                (nothing_granted, nothing_granted)
                (λ x st here h. restored-IsWithinBudget saved x st fine here),
            fine,
          ))
      Reachable-IsWithin d (after_round round before d' h e) =
          rw e (iterate-IsWithin round before (Reachable-IsWithin before h))
