-- ===== src/Wake/Quiet.antt =====
-- No decision changes while the daemon sleeps.
use ningshi.Prelude.{
  ℕ, ◌+◌, ◌*◌, ◌≤◌, ◌<◌, ◌≡◌, refl, Bool, List, [], ◌∷◌, inl, inr, any, Occurs, arith, some,
}
use ningshi.Rules.{TimeWindow, RuleSet}
use ningshi.Window.{window_edge_secs, in_window, step_min, step_weekday}
use ningshi.Window.Edge.{in_window_at, window_edge_secs_quiet}
use ningshi.Window.First.{window_edge_secs_flips}
use ningshi.Decide.{windows_block, eval}
use ningshi.Wake.{WakeInputs, enabled_sets, next_wake_secs}
use ningshi.Wake.Bounds.{next_wake_secs_range, next_wake_secs-le_edge}

any_ext :
    {A : Type 0} (p q : A → Bool) (xs : List A)
    → ((x : A) → Occurs x xs → p x ≡ q x)
    → any p xs ≡ any q xs
any_ext p q [] h = refl
any_ext p q (x ∷ xs) h = cc (h x (inl refl), any_ext p q xs (λ y at. h y (inr at)))

module _ (i : WakeInputs) (secs : i.sec_in_min < 60) where
  in_window_quiet :
      (set : RuleSet) (w : TimeWindow) (j : ℕ)
      → Occurs set (enabled_sets i.rules)
      → Occurs w set.time_windows.windows
      → 1 ≤ j
      → j * 60 < i.sec_in_min + next_wake_secs i
      → in_window_at w i.now_min i.weekday j ≡ in_window w i.now_min i.weekday
  in_window_quiet set w j at wat h k =
      window_edge_secs_quiet w i.now_min i.weekday i.sec_in_min j secs h
        (omega (arith, (next_wake_secs_range i).1))
        (λ s e. omega (arith, next_wake_secs-le_edge i set w s at wat e (edge_pos s e)))
    where
      edge_pos : (s : ℕ) → window_edge_secs w i.now_min i.weekday i.sec_in_min ≡ some s → 1 ≤ s
      edge_pos s e =
          let (j, _, _, value, _) = window_edge_secs_flips w i.now_min i.weekday i.sec_in_min s e in
          omega arith

  -- Before the next wake-up no enabled rule set changes its decision by the passing of minutes.
  -- The minute that begins `j * 60 - sec_in_min` seconds from now is decided as the present one,
  -- whatever the extension, the cooldown, the usage and the screen are.
  pub eval_quiet :
      (set : RuleSet) (j : ℕ) (ext_active over_duration cooldown screen_off : Bool)
      → Occurs set (enabled_sets i.rules)
      → 1 ≤ j
      → j * 60 < i.sec_in_min + next_wake_secs i
      → eval set
          (step_min i.now_min j)
          (step_weekday i.now_min i.weekday j)
          ext_active
          over_duration
          cooldown
          screen_off
        ≡ eval set i.now_min i.weekday ext_active over_duration cooldown screen_off
  unfolding eval windows_block
  eval_quiet set j ext over cool off at h k = ground (
    arith,
    any_ext (λ w. in_window_at w i.now_min i.weekday j) (λ w. in_window w i.now_min i.weekday)
        set.time_windows.windows (λ w wat. in_window_quiet set w j at wat h k),
  )
