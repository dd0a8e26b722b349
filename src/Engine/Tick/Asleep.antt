-- ===== src/Engine/Tick/Asleep.antt =====
-- The daemon may sleep: the plan stays what it is until the next wake-up.
use ningshi.Prelude.{
  ℕ, ◌+◌, ◌%◌, ◌≤◌, ◌<◌, ◌≡◌, refl, Bool, not, is_nil, inl, inr, Occurs, arith, Bool-cases, eqb,
  eqb_iff,
}
use ningshi.Prelude.Int.{nat_abs}
use ningshi.Timezone.{offset}
use ningshi.Rules.{RuleSet}
use ningshi.Decide.{eval}
use ningshi.Wake.{WakeInputs, enabled_sets, next_wake_secs}
use ningshi.Wake.Bounds.{next_wake_secs_range, next_wake_secs_due}
use ningshi.Wake.Quiet.{eval_quiet}
use ningshi.Engine.{Engine, Moment}
use ningshi.Engine.Clock.{Chrono, ChronoLaws, now_parts}
use ningshi.Engine.Clock.Ahead.{
  IsWhole, offset_bound, minutes_ahead, now_min-ahead, weekday-ahead, now_min_same, weekday_same,
}
use ningshi.Engine.Plan.{make_plan}
use ningshi.Engine.Plan.Quiet.{deadlines, AreAlike, make_plan-alike}
use ningshi.Engine.Tick.{tick_interval_secs}

-- What `tick_interval_secs` passes to the scheduler.
abbrev inputs : {M : Type 0} → Engine M → Moment → WakeInputs
inputs e m = record {
  rules = e.rules;
  any_blocked = not (is_nil e.blocked);
  expiries = deadlines e;
  now_epoch = m.now_epoch;
  now_min = m.now_min;
  weekday = m.weekday;
  sec_in_min = m.now_epoch % 60;
}

tick_interval_secs_lem :
    {M : Type 0} (e : Engine M) (m : Moment) → tick_interval_secs e m ≡ next_wake_secs (inputs e m)
unfolding tick_interval_secs
tick_interval_secs_lem e m = refl

module _ {M : Type 0} (c : Chrono) (laws : ChronoLaws c) (e : Engine M)
    (whole : IsWhole (offset e.tz_secs)) (t d : ℕ)
    (asleep : d < tick_interval_secs e (now_parts c e t)) where
  soon : d < next_wake_secs (inputs e (now_parts c e t))
  soon = rw (← tick_interval_secs_lem e (now_parts c e t)) asleep

  short : d < 300
  short = omega (arith, soon, next_wake_secs_range (inputs e (now_parts c e t)))

  now_epoch_lem : (s : ℕ) → (now_parts c e s).now_epoch ≡ s
  unfolding now_parts
  now_epoch_lem s = refl

  eval_later_minute :
      (set : RuleSet) (ext over cool off : Bool)
      → Occurs set (enabled_sets e.rules)
      → 1 ≤ minutes_ahead t d
      → eval set (now_parts c e (t + d)).now_min (now_parts c e (t + d)).weekday ext over cool off
        ≡ eval set (now_parts c e t).now_min (now_parts c e t).weekday ext over cool off
  unfolding now_parts
  eval_later_minute set ext over cool off at later =
      rw
        (
          now_min-ahead c laws (offset e.tz_secs) valid whole t d day,
          weekday-ahead c laws (offset e.tz_secs) valid whole t d day,
        )
        (eval_quiet (inputs e (now_parts c e t)) (omega arith) set (minutes_ahead t d) ext over cool
          off at later (omega (arith, soon)))
    where
      valid : nat_abs (offset e.tz_secs) < 86400
      valid = offset_bound e.tz_secs

      day : d < 86400
      day = omega (arith, short)

  eval_same_minute :
      (set : RuleSet) (ext over cool off : Bool)
      → minutes_ahead t d ≡ 0
      → eval set (now_parts c e (t + d)).now_min (now_parts c e (t + d)).weekday ext over cool off
        ≡ eval set (now_parts c e t).now_min (now_parts c e t).weekday ext over cool off
  unfolding now_parts
  eval_same_minute set ext over cool off now = rw (
    now_min_same c laws (offset e.tz_secs) (offset_bound e.tz_secs) whole t d (omega (arith, short))
        now,
    weekday_same c laws (offset e.tz_secs) (offset_bound e.tz_secs) whole t d (omega (arith, short))
        now,
  )

  asleep-AreAlike : AreAlike e (now_parts c e t) (now_parts c e (t + d))
  asleep-AreAlike = record {
    eval_alike = λ set ext over cool off at. elim (Bool-cases (eqb (minutes_ahead t d) 0)) [
      | inl now ↦ eval_same_minute set ext over cool off ((eqb_iff (minutes_ahead t d) 0).0 now)
      | inr later ↦ eval_later_minute set ext over cool off at (ground arith)
    ];
    running_alike = λ s at.
        rw (now_epoch_lem t, now_epoch_lem (t + d))
          (ground
            (arith, soon, now_epoch_lem t, next_wake_secs_due (inputs e (now_parts c e t)) s at));
  }

  -- The plan that a tick would make does not change before the next wake-up: at every second until
  -- then it is the one that would have been made when the interval was computed, if the engine and
  -- the screen are as they were. The time zone is a whole number of minutes from UTC.
  pub make_plan_asleep :
      (off : Bool) → make_plan e (now_parts c e (t + d)) off ≡ make_plan e (now_parts c e t) off
  make_plan_asleep off =
      make_plan-alike e (now_parts c e t) (now_parts c e (t + d)) asleep-AreAlike off
