-- ===== src/Daemon/Launch.antt =====
-- The start of `run_daemon` of daemon/src/main.rs, up to the loop: `lock_daemon` and the steps that can
-- fail.
use ningshi.Prelude.{ℕ, Bool, true, false, Option, none, some, if◌then◌else◌}
use ningshi.Rules.{Serde}
use ningshi.Gate.{BlockMap, Gate}
use ningshi.Engine.{Moment}
use ningshi.Engine.Reload.{Files, System}
use ningshi.Engine.Saved.{StateFile}
use ningshi.Engine.Tick.{Readings}
use ningshi.Daemon.{Daemon, boot}

-- What the system answers on the way: whether the data directory can be made, whether the lock file
-- can be opened and is not locked by another process, what `Gate::start` returns, and whether the
-- socket can be bound.
pub record Launch (M : Type 0) : Type 0 where
  pub data_dir : Bool
  pub opens : Bool
  pub unlocked : Bool
  pub gate : Option (Gate M)
  pub binds : Bool

unfoldable pub lock_daemon : {M : Type 0} → Launch M → Bool
lock_daemon l = if l.opens then l.unlocked else false

-- The process ends with an error, or with `Ok` after a line in the log; or the loop begins.
pub data LaunchEnd (M : Type 0) : Type 0 where
  failed : LaunchEnd M
  not_starting : LaunchEnd M
  looping : Daemon M → LaunchEnd M

module _ {M : Type 0} (bpf : BlockMap M) (serde : Serde) (sys : System) (m : Moment)
    (saved : Option StateFile) (files : Files) (r : Readings) (now : ℕ) where
  abbrev looping_if : Bool → Option (Gate M) → LaunchEnd M
  looping_if binds none = failed
  looping_if true (some gate) = looping (boot bpf serde sys gate m saved files r now)
  looping_if false (some gate) = failed

  unfoldable pub run_daemon : Launch M → LaunchEnd M
  unfolding lock_daemon
  run_daemon l =
      if l.data_dir
      then (if lock_daemon l then looping_if l.binds l.gate else not_starting)
      else failed
