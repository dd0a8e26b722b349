-- ===== src/Window/Blind.antt =====
-- Where the search for an edge gives up although the window is not degenerate.
use ningshi.Prelude.{
  ℕ, zero, suc, ◌+◌, ◌/◌, ◌%◌, ◌≤◌, ◌<◌, ◌≡◌, refl, ap, Bool, false, none, arith, eqb, inl, inr,
  Bool-cases, xor,
}
use ningshi.Rules.{TimeWindow}
use ningshi.Window.{
  parse_hhmm, prev_weekday, days_allow, inside, in_window, step_min, step_weekday, first_step,
  edge_secs, window_edge_secs,
}

first_step_of_false :
    (test : ℕ → Bool) (rounds step : ℕ)
    → ((j : ℕ) → j < step + rounds → test j ≡ false)
    → first_step test rounds step ≡ none
unfolding first_step
first_step_of_false test zero step h = refl
first_step_of_false test (suc rounds) step h = ground (
  arith,
  h step (omega arith),
  first_step_of_false test rounds (suc step) (λ j k. h j (omega arith)),
)

-- The weekday `k` days after yesterday.
abbrev pub from_yesterday : ℕ → ℕ → ℕ
from_yesterday weekday k = (weekday + 5 + k) % 7 + 1

module _ (w : TimeWindow) (now_min weekday : ℕ) (minute : now_min < 1440) (monday : 1 ≤ weekday)
    (sunday : weekday ≤ 7)
    (off : (k : ℕ) → k ≤ 3 → days_allow w.days (from_yesterday weekday k) ≡ false) where
  inside-false :
      (start end m d : ℕ)
      → days_allow w.days d ≡ false
      → days_allow w.days (prev_weekday d) ≡ false
      → inside start end w.days m d ≡ false
  unfolding inside
  inside-false start end m d h k = ground arith

  weekday_ahead :
      (j : ℕ)
      → j ≤ 2880
      → (k : ℕ) × (k ≤ 2)
        × (step_weekday now_min weekday j ≡ from_yesterday weekday (k + 1))
        × (prev_weekday (step_weekday now_min weekday j) ≡ from_yesterday weekday k)
  unfolding step_weekday prev_weekday
  weekday_ahead j h = ((now_min + j) / 1440, omega arith, omega arith, ground arith)

  inside_ahead :
      (start end j : ℕ)
      → j ≤ 2880
      → inside start end w.days (step_min now_min j) (step_weekday now_min weekday j) ≡ false
  inside_ahead start end j h =
      let (k, le, today, yesterday) = weekday_ahead j h in
      inside-false start end _ _ (rw today (off (k + 1) (omega arith)))
        (rw yesterday (off k (omega arith)))

  in_window_now : in_window w now_min weekday ≡ false
  unfolding in_window prev_weekday
  in_window_now = ground (
    arith,
    inside-false (parse_hhmm w.start) (parse_hhmm w.end) now_min weekday
        (rw (← today) (off 1 (omega arith))) (rw (← yesterday) (off 0 (omega arith))),
  )
    where
      today : from_yesterday weekday 1 ≡ weekday
      today = omega arith

      yesterday : from_yesterday weekday 0 ≡ prev_weekday weekday
      yesterday = ground arith

  -- A window that no day from yesterday to the day after tomorrow selects has no edge for the
  -- scheduler, however well formed it is.
  pub window_edge_secs_blind :
      (sec_in_min : ℕ) → window_edge_secs w now_min weekday sec_in_min ≡ none
  unfolding window_edge_secs
  window_edge_secs_blind sec = elim (Bool-cases (eqb (parse_hhmm w.start) (parse_hhmm w.end))) [
    | inl same ↦ rw same
    | inr differ ↦ rw differ (ap (edge_secs sec) (first_step_of_false _ 2880 1 quiet))
  ]
    where
      quiet :
          (j : ℕ)
          → j < 2881
          → xor
              (inside
                (parse_hhmm w.start)
                (parse_hhmm w.end)
                w.days
                (step_min now_min j)
                (step_weekday now_min weekday j))
              (in_window w now_min weekday)
            ≡ false
      quiet j h =
          rw (inside_ahead (parse_hhmm w.start) (parse_hhmm w.end) j (omega arith), in_window_now)
