-- ===== src/Daemon/Schedule.antt =====
-- When the daemon ticks.
use ningshi.Prelude.{
  ℕ, ◌+◌, ◌≤◌, ◌<◌, ◌*◌, ◌≡◌, refl, ap, ◌∙◌, inl, inr, ◌⊎◌, true, false, ◌||◌, List, [], ◌∷◌, ◌++◌,
  All, Option, none, some, arith, leb, or_else, nat_key, Bool-cases,
}
use ningshi.Prelude.Map.{get}
use ningshi.Rules.{Serde}
use ningshi.Wake.{idle_tick_secs}
use ningshi.Wake.Bounds.{next_wake_secs_range}
use ningshi.Gate.{BlockMap, Gate}
use ningshi.Engine.{Engine, Moment}
use ningshi.Engine.Reload.{Files, System}
use ningshi.Engine.Saved.{StateFile}
use ningshi.Engine.Transitions.Exact.{is_blocked}
use ningshi.Engine.Tick.{Readings, tick, refresh, tick_plan, tick_interval_secs}
use ningshi.Engine.Tick.Enforces.{is_blocked-tick}
use ningshi.Socket.{Parsed, handle}
use ningshi.Socket.Effects.{received, is_ok, handle-changed}
use ningshi.Daemon.{Daemon, Round, wait_ms, boot, serve, drained, is_due, ticked, iterate}

-- The daemon at a time on the clock: it was started, or a round ended then that began no earlier
-- than the daemon was there.
pub data Runs {M : Type 0} (bpf : BlockMap M) (from_slice : List ℕ → Parsed) (serde : Serde)
    : ℕ → Daemon M → Type 0 where
  booted :
      (sys : System) (gate : Gate M) (m : Moment) (saved : Option StateFile) (files : Files)
      (r : Readings) (now : ℕ) (d : Daemon M)
      → d ≡ boot bpf serde sys gate m saved files r now
      → Runs bpf from_slice serde now d
  round_done :
      (t now : ℕ) (round : Round) (d d' : Daemon M)
      → Runs bpf from_slice serde t d
      → t ≤ round.start
      → round.start ≤ round.done
      → now ≡ round.done
      → d' ≡ iterate bpf from_slice serde round d
      → Runs bpf from_slice serde now d'

-- The longest sleep, in nanoseconds, and a millisecond.
abbrev pub five_minutes : ℕ
five_minutes = 300000000000

abbrev pub millisecond : ℕ
millisecond = 1000000

module _ {M : Type 0} (bpf : BlockMap M) (from_slice : List ℕ → Parsed) (serde : Serde) where
  tick_interval_secs_bound : (e : Engine M) (m : Moment) → tick_interval_secs e m ≤ idle_tick_secs
  unfolding tick_interval_secs
  tick_interval_secs_bound e m = (next_wake_secs_range _).1

  iterate_bound :
      (t : ℕ) (round : Round) (d : Daemon M)
      → d.next_tick ≤ t + five_minutes
      → t ≤ round.start
      → round.start ≤ round.done
      → (iterate bpf from_slice serde round d).next_tick ≤ round.done + five_minutes
  unfolding iterate ticked
  iterate_bound t round d h order order' =
      let (w, changed) = serve from_slice serde round.around round.client d.world in
      elim (Bool-cases (is_due round d.next_tick (changed || drained round.watch))) [
        | inl due ↦ rw due (
            omega (
              arith,
              tick_interval_secs_bound (tick bpf serde round.readings w).0.run.eng round.moment,
            ))
        | inr early ↦ rw early (omega arith)
      ]

  Runs-le_five_minutes :
      (t : ℕ) (d : Daemon M) → Runs bpf from_slice serde t d → d.next_tick ≤ t + five_minutes
  unfolding boot
  Runs-le_five_minutes t d (booted sys gate m saved files r t' d' e) =
      omega (arith, ap (λ (x : Daemon M). x.next_tick) e)
  Runs-le_five_minutes t d (round_done before t' round d0 d' h order order' now e) =
      rw (e, now) (iterate_bound before round d0 (Runs-le_five_minutes before d0 h) order order')

  iterate_due :
      (round : Round) (d : Daemon M)
      → let (w, changed) = serve from_slice serde round.around round.client d.world in
        is_due round d.next_tick (changed || drained round.watch) ≡ true
        → iterate bpf from_slice serde round d ≡ ticked bpf serde round w
  unfolding iterate ticked
  iterate_due round d h = rw h refl

  -- Nothing arrives.
  abbrev pub IsIdle : Round → Type 0
  IsIdle round = (round.client ≡ none) × (round.watch ≡ none)

  -- One of the rounds ticks.
  abbrev pub Ticks : List Round → Daemon M → Type 0
  Ticks [] d = ⊥
  Ticks (round ∷ rounds) d =
      (iterate bpf from_slice serde round d ≡ ticked bpf serde round d.world)
      ⊎ Ticks rounds (iterate bpf from_slice serde round d)

  idle_due :
      (round : Round) (d : Daemon M)
      → IsIdle round
      → d.next_tick ≤ round.tested
      → iterate bpf from_slice serde round d ≡ ticked bpf serde round d.world
  unfolding serve is_due
  idle_due round d (alone, still) late =
      let due : leb d.next_tick round.tested ≡ true = ground arith in
      iterate_due round d (ground (arith, due))
      ∙ ap (λ c. ticked bpf serde round (serve from_slice serde round.around c d.world).0) alone

  idle_early :
      (round : Round) (d : Daemon M)
      → IsIdle round
      → round.tested < d.next_tick
      → (iterate bpf from_slice serde round d).next_tick ≡ d.next_tick
  unfolding iterate serve is_due drained
  idle_early round d (alone, still) early =
      let waits : leb d.next_tick round.tested ≡ false = ground arith in
      rw (alone, still, waits) refl

  idle-Ticks :
      (between : List Round) (last : Round) (d : Daemon M)
      → All IsIdle between
      → IsIdle last
      → d.next_tick ≤ last.tested
      → Ticks (between ++ last ∷ []) d
  idle-Ticks [] last d idle alone late = inl (idle_due last d alone late)
  idle-Ticks (round ∷ between) last d idle alone late =
      elim (Bool-cases (leb d.next_tick round.tested)) [
        | inl due ↦ inl (idle_due round d idle.0 (ground arith))
        | inr early ↦ inr (
            idle-Ticks between last (iterate bpf from_slice serde round d) idle.1 alone
              (rw (idle_early round d idle.0 (ground arith)) late))
      ]

  -- Whatever happened before: the timeout of `poll` is at most five minutes. If nothing arrives in a
  -- round in which `poll` waits for its timeout, nor in the rounds behind it, and the last of these
  -- is tested a millisecond after the first or later, then one of them ticks.
  pub iterate-Ticks :
      (t : ℕ) (d : Daemon M) (first : Round) (between : List Round) (last : Round)
      → Runs bpf from_slice serde t d
      → t ≤ first.start
      → IsIdle first
      → All IsIdle between
      → IsIdle last
      → first.start + wait_ms d.next_tick first.start * millisecond ≤ first.tested
      → first.tested + millisecond ≤ last.tested
      → Ticks (first ∷ between ++ last ∷ []) d
        × (wait_ms d.next_tick first.start * millisecond ≤ five_minutes)
  unfolding wait_ms
  iterate-Ticks t d first between last runs order idle quiet alone slept later =
      let soon : d.next_tick ≤ first.start + five_minutes =
        omega (arith, Runs-le_five_minutes t d runs) in
      let near : d.next_tick ≤ last.tested = ground (arith, slept, soon) in
      (idle-Ticks (first ∷ between) last d (idle, quiet) alone near, ground (arith, soon))

  -- A request that asks for a change and is answered with `ok` is enforced in the same round, if
  -- the tick succeeds: a uid is blocked at the end exactly if the plan says so that is made from
  -- the engine behind the request and what the tick reads.
  pub iterate_enforced :
      (d : Daemon M) (round : Round) (buf : Option (List ℕ)) (j : ℕ)
      → round.client ≡ some buf
      → received from_slice buf ≡ true
      → is_ok (handle from_slice serde round.around buf d.world.run.eng d.world.files).1.0 ≡ true
      → let w = (serve from_slice serde round.around (some buf) d.world).0 in
        (tick bpf serde round.readings w).1 ≡ true
        → is_blocked bpf (iterate bpf from_slice serde round d).world.run j
          ≡ or_else
              (get (tick_plan round.readings (refresh serde round.readings w).0.0).want j)
              false
  unfolding serve is_due ticked
  iterate_enforced d round buf j here asked fine done =
      let w = (serve from_slice serde round.around (some buf) d.world).0 in
      let told : (handle from_slice serde round.around buf d.world.run.eng d.world.files).1.1
          ≡ true =
        ground (
          arith,
          (handle-changed serde round.around d.world.run.eng d.world.files from_slice buf).0,
          asked,
          fine,
        ) in
      ap (λ (x : Daemon M). is_blocked bpf x.world.run j)
        (iterate_due round d (rw here (ground (arith, told)))
          ∙ ap (λ c. ticked bpf serde round (serve from_slice serde round.around c d.world).0) here)
      ∙ is_blocked-tick bpf serde round.readings w j done
