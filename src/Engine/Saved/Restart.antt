-- ===== src/Engine/Saved/Restart.antt =====
-- The day's accounts over a restart of the daemon.
use ningshi.Prelude.{◌≡◌, ◌≢◌, refl, sym, true, none, arith, eqb, eqb_iff}
use ningshi.Engine.{Engine, Moment}
use ningshi.Engine.Saved.{state_file, save_state, restored, load_state, reset_day}

module _ {M : Type 0} where
  pub reset_day-load_state :
      (before fresh : Engine M) (m at_start at_tick : Moment)
      → at_start.today ≡ m.today
      → at_tick.today ≡ m.today
      → state_file
          (reset_day at_tick (load_state fresh at_start (save_state true before m none).1))
          m
        ≡ state_file before m
  unfolding reset_day load_state save_state restored state_file
  reset_day-load_state before fresh m at_start at_tick start_day tick_day =
      let starts : eqb m.today at_start.today ≡ true =
        (eqb_iff m.today at_start.today).1 (sym start_day) in
      let ticks : eqb m.today at_tick.today ≡ true =
        (eqb_iff m.today at_tick.today).1 (sym tick_day) in
      rw starts (rw ticks refl)

  -- If the date that `load_state` sees is not that of the save, the accounts are lost: the engine
  -- stays as it was made.
  pub load_state_stale :
      (before fresh : Engine M) (m m' : Moment)
      → m'.today ≢ m.today
      → load_state fresh m' (save_state true before m none).1 ≡ fresh
  unfolding load_state save_state
  load_state_stale before fresh m m' other_day = ground (arith, eqb_iff m.today m'.today)
