-- ===== src/Threads/Ticks.antt =====
-- A tick is a sequence of steps of the main thread.
use ningshi.Prelude.{ℕ, ◌≡◌, Bool, true, false, List, [], ◌∷◌}
use ningshi.Prelude.Map.{Map}
use ningshi.Rules.{Serde}
use ningshi.Gate.{BlockMap}
use ningshi.Engine.{Engine}
use ningshi.Engine.Reload.{Files}
use ningshi.Engine.Transitions.{
  Run, Outcome, ◌>>=◌, transition, transitions, release_one, release, apply_plan,
}
use ningshi.Engine.Tick.{Readings, refresh, ready, tick_plan, finish, enforce, tick}
use ningshi.Socket.{Parsed}
use ningshi.Threads.{
  Threads, Phase, outside, switching, releasing, stepped, begin_tick, advance, Steps, here, next,
  begun, begin, ticking,
}

module _ {M : Type 0} (bpf : BlockMap M) (from_slice : List ℕ → Parsed) (serde : Serde)
    (t0 : Threads M) where
  -- The main thread in a phase, with the engine and the signals.
  abbrev at : Threads M → Run M → Phase → Threads M
  at t run phase = record t { world = record (t.world) { run = run }; phase = phase }

  -- What succeeds goes on, and what fails ends the tick.
  chained :
      (t : Threads M) (mid last : Phase) (f : Run M → Outcome M)
      → ((run : Run M)
          → Steps bpf from_slice serde t0 (at t run mid)
          → Steps bpf from_slice serde t0 (stepped t last (f run)))
      → (o : Outcome M) → Steps bpf from_slice serde t0 (stepped t mid o)
      → Steps bpf from_slice serde t0 (stepped t last (o >>= f))
  chained t mid last f go (run, true) so_far = go run so_far
  chained t mid last f go (run, false) so_far = so_far

  transitions-Steps :
      (t : Threads M) (r : Readings) (want left : Map ℕ Bool) (run : Run M)
      → Steps bpf from_slice serde t0 (at t run (switching r want left))
      → Steps bpf from_slice serde t0
          (stepped t (switching r want []) (transitions bpf r.snap left run))
  unfolding transitions advance
  transitions-Steps t r want [] run so_far = so_far
  transitions-Steps t r want ((uid, on) ∷ left) run so_far =
      chained t (switching r want left) (switching r want []) (transitions bpf r.snap left)
        (transitions-Steps t r want left) (transition bpf r.snap uid on run)
        (next so_far (ticking (at t run (switching r want ((uid, on) ∷ left)))))

  release-Steps :
      (t : Threads M) (r : Readings) (want : Map ℕ Bool) (left : List ℕ) (run : Run M)
      → Steps bpf from_slice serde t0 (at t run (releasing r want left))
      → Steps bpf from_slice serde t0 (stepped t (releasing r want []) (release bpf want left run))
  unfolding release advance
  release-Steps t r want [] run so_far = so_far
  release-Steps t r want (uid ∷ left) run so_far =
      chained t (releasing r want left) (releasing r want []) (release bpf want left)
        (release-Steps t r want left) (release_one bpf want uid run)
        (next so_far (ticking (at t run (releasing r want (uid ∷ left)))))

  apply_plan-Steps :
      (t : Threads M) (r : Readings) (want : Map ℕ Bool) (run : Run M)
      → Steps bpf from_slice serde t0 (at t run (switching r want want))
      → Steps bpf from_slice serde t0
          (stepped t (releasing r want []) (apply_plan bpf r.snap want run))
  unfolding apply_plan advance
  apply_plan-Steps t r want run so_far =
      chained t (switching r want []) (releasing r want [])
        (λ run'. release bpf want run'.eng.blocked run')
        (λ run' there.
          release-Steps t r want run'.eng.blocked run'
            (next there (ticking (at t run' (switching r want [])))))
        (transitions bpf r.snap want run) (transitions-Steps t r want want run so_far)

  finish-Steps :
      (t : Threads M) (r : Readings) (want : Map ℕ Bool) (o : Outcome M)
      → Steps bpf from_slice serde t0 (stepped t (releasing r want []) o)
      → Steps bpf from_slice serde t0 (record t { world = (finish r t.world o).0; phase = outside })
  unfolding finish advance
  finish-Steps t r want (run, false) so_far = so_far
  finish-Steps t r want (run, true) so_far = next so_far (ticking (at t run (releasing r want [])))

module _ {M : Type 0} (bpf : BlockMap M) (from_slice : List ℕ → Parsed) (serde : Serde)
    (r : Readings) (t : Threads M) where
  begun-Steps :
      (o : (Engine M × Files) × Bool)
      → Steps bpf from_slice serde t (begun r t o)
      → Steps bpf from_slice serde t
          (record t { world = (enforce bpf r t.world o).0; phase = outside })
  unfolding enforce
  begun-Steps ((e, files), false) so_far = so_far
  begun-Steps ((e, files), true) so_far =
      let reread = record t { world = record (t.world) { files = files } } in
      let run = record (t.world.run) { eng = ready r e } in
      finish-Steps bpf from_slice serde t reread r (tick_plan r e).want
        (apply_plan bpf r.snap (tick_plan r e).want run)
        (apply_plan-Steps bpf from_slice serde t reread r (tick_plan r e).want run so_far)

  -- Whatever a tick does, whether it succeeds or fails, the steps of the main thread do one after the
  -- other, if no other thread comes between.
  pub tick-Steps :
      t.phase ≡ outside
      → Steps bpf from_slice serde t
          (record t { world = (tick bpf serde r t.world).0; phase = outside })
  unfolding tick begin_tick
  tick-Steps free = begun-Steps (refresh serde r t.world) (next here (begin t r free))
