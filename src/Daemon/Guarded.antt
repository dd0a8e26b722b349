-- ===== src/Daemon/Guarded.antt =====
-- The packages that must never be blocked, over the rounds of the daemon.
use ningshi.Prelude.{
  ℕ, ◌≡◌, inl, inr, ◌⊎◌, true, false, ◌||◌, List, [], ◌∷◌, Option, none, some, nat_key, string_key,
  Bool-cases,
}
use ningshi.Rules.{Serde}
use ningshi.Gate.{BlockMap}
use ningshi.Engine.Extension.Frame.{add_extension-keep}
use ningshi.Engine.Transitions.Exact.{is_blocked}
use ningshi.Engine.Tick.{Readings, World, refresh, tick}
use ningshi.Engine.Tick.Guarded.{
  IsGuarded, IsGuarded-OutlivesTick, IsVital, Reloads, enforce-IsGuarded, refresh-IsGuarded,
  tick-IsGuarded,
}
use ningshi.Socket.{Parsed, Around}
use ningshi.Socket.Frame.{handle-keep}
use ningshi.Daemon.{Daemon, Round, serve, drained, is_due, ticked, iterate}

module _ {M : Type 0} (bpf : BlockMap M) (from_slice : List ℕ → Parsed) (serde : Serde) where
  serve-IsGuarded :
      (around : Around) (client : Option (Option (List ℕ))) (w : World M)
      → IsGuarded w.run.eng
      → IsGuarded (serve from_slice serde around client w).0.run.eng
  unfolding serve
  serve-IsGuarded around none w h = h
  serve-IsGuarded around (some buf) w h =
      handle-keep IsGuarded IsGuarded-OutlivesTick.reloading
        (add_extension-keep IsGuarded (λ x g u k. k) (λ x g u k. k)) serde around w.run.eng w.files
        h from_slice buf

  tick-keeps_guard :
      (r : Readings) (w : World M) → IsGuarded w.run.eng → IsGuarded (tick bpf serde r w).0.run.eng
  unfolding tick
  tick-keeps_guard r w h =
      enforce-IsGuarded bpf r w (refresh serde r w) (refresh-IsGuarded serde r w (inl h))

  iterate-IsGuarded :
      (round : Round) (d : Daemon M)
      → IsGuarded d.world.run.eng
      → IsGuarded (iterate bpf from_slice serde round d).world.run.eng
  unfolding iterate ticked
  iterate-IsGuarded round d h =
      let (w, changed) = serve from_slice serde round.around round.client d.world in
      let kept : IsGuarded w.run.eng = serve-IsGuarded round.around round.client d.world h in
      elim (Bool-cases (is_due round d.next_tick (changed || drained round.watch))) [
        | inl due ↦ rw due (tick-keeps_guard round.readings w kept)
        | inr early ↦ rw early kept
      ]

  -- One round after the other, from the first of the list on.
  abbrev pub rounds_after : List Round → Daemon M → Daemon M
  rounds_after [] d = d
  rounds_after (round ∷ rounds) d = rounds_after rounds (iterate bpf from_slice serde round d)

  rounds_after-IsGuarded :
      (rounds : List Round) (d : Daemon M)
      → IsGuarded d.world.run.eng
      → IsGuarded (rounds_after rounds d).world.run.eng
  rounds_after-IsGuarded [] d h = h
  rounds_after-IsGuarded (round ∷ rounds) d h =
      rounds_after-IsGuarded rounds (iterate bpf from_slice serde round d)
        (iterate-IsGuarded round d h)

  -- The first tick, and some rounds.
  abbrev pub later : Readings → World M → ℕ → List Round → Daemon M
  later r w next rounds =
      rounds_after rounds (record { world = (tick bpf serde r w).0; next_tick = next })

  -- The first tick of the daemon reads the rule file, or its engine knows the packages that must
  -- never be blocked before that tick. Then, whatever rounds follow, with whatever rules and requests: behind
  -- any later tick that succeeds no uid is blocked that only such packages have.
  pub is_blocked-later :
      (r0 : Readings) (w0 : World M) (next : ℕ) (rounds : List Round) (r : Readings) (uid : ℕ)
      → IsGuarded w0.run.eng ⊎ Reloads r0 w0.run.eng
      → IsVital (refresh serde r (later r0 w0 next rounds).world).0.0 uid
      → (tick bpf serde r (later r0 w0 next rounds).world).1 ≡ true
      → is_blocked bpf (tick bpf serde r (later r0 w0 next rounds).world).0.run uid ≡ false
  unfolding tick
  is_blocked-later r0 w0 next rounds r uid known vital done =
      (tick-IsGuarded bpf serde r (later r0 w0 next rounds).world uid
        (inl (
          rounds_after-IsGuarded rounds _ (
            enforce-IsGuarded bpf r0 w0 (refresh serde r0 w0)
              (refresh-IsGuarded serde r0 w0 known))))
        vital done).1
