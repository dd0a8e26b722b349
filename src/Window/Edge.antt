-- ===== src/Window/Edge.antt =====
-- The wake-up edge of a window, against the test that the engine decides with.
use ningshi.Prelude.{
  ℕ, zero, suc, ◌+◌, ◌-◌, ◌*◌, ◌≤◌, ◌<◌, max, ◌≡◌, ◌≢◌, ◌⊎◌, inl, inr, Bool, true, false, none,
  some, arith, eqb, eqb_iff, Bool-cases, Option-cases, xor,
}
use ningshi.Rules.{TimeWindow}
use ningshi.Window.{
  parse_hhmm, inside, in_window, step_min, step_weekday, first_step, edge_secs, window_edge_secs,
}

pub first_step-none :
    (test : ℕ → Bool) (rounds step j : ℕ)
    → first_step test rounds step ≡ none
    → step ≤ j
    → j < step + rounds
    → test j ≡ false
unfolding first_step
first_step-none test zero step j e h k = absurd (omega arith)
first_step-none test (suc rounds) step j e h k = elim (Bool-cases (eqb step j)) [
  | inl same ↦ ground (arith, eqb_iff step j)
  | inr other ↦ ground (arith, first_step-none test rounds (suc step) j)
]

pub first_step-some :
    (test : ℕ → Bool) (rounds step s : ℕ)
    → first_step test rounds step ≡ some s
    → (step ≤ s) × (s < step + rounds) × (test s ≡ true)
unfolding first_step
first_step-some test zero step s e = cc
first_step-some test (suc rounds) step s e =
    ground (arith, first_step-some test rounds (suc step) s)

pub first_step_least :
    (test : ℕ → Bool) (rounds step s j : ℕ)
    → first_step test rounds step ≡ some s
    → step ≤ j
    → j < s
    → test j ≡ false
unfolding first_step
first_step_least test zero step s j e h k = cc
first_step_least test (suc rounds) step s j e h k = elim (Bool-cases (eqb step j)) [
  | inl same ↦ ground (arith, eqb_iff step j)
  | inr other ↦ ground (arith, first_step_least test rounds (suc step) s j)
]

-- The answer so many minutes from now.
abbrev pub in_window_at : TimeWindow → ℕ → ℕ → ℕ → Bool
in_window_at w now_min weekday j = in_window w (step_min now_min j) (step_weekday now_min weekday j)

abbrev pub flips : TimeWindow → ℕ → ℕ → ℕ → Bool
flips w now_min weekday j =
    xor
      (inside (parse_hhmm w.start) (parse_hhmm w.end) w.days (step_min now_min j)
        (step_weekday now_min weekday j))
      (in_window w now_min weekday)

module _ (w : TimeWindow) (now_min weekday : ℕ) where
  -- Behind the first test the copy in the scheduler is the engine's predicate.
  pub flips-false :
      (j : ℕ)
      → flips w now_min weekday j ≡ false
      → in_window_at w now_min weekday j ≡ in_window w now_min weekday
  unfolding in_window
  flips-false j h = ground arith

  pub flips-true :
      (j : ℕ)
      → eqb (parse_hhmm w.start) (parse_hhmm w.end) ≡ false
      → flips w now_min weekday j ≡ true
      → in_window_at w now_min weekday j ≢ in_window w now_min weekday
  unfolding in_window
  flips-true j h k = ground arith

  pub degenerate_quiet :
      (j : ℕ)
      → eqb (parse_hhmm w.start) (parse_hhmm w.end) ≡ true
      → in_window_at w now_min weekday j ≡ in_window w now_min weekday
  unfolding in_window
  degenerate_quiet j h = ground arith

  pub edge-cases :
      (sec_in_min : ℕ)
      → ((eqb (parse_hhmm w.start) (parse_hhmm w.end) ≡ true)
          × (window_edge_secs w now_min weekday sec_in_min ≡ none))
        ⊎ ((eqb (parse_hhmm w.start) (parse_hhmm w.end) ≡ false)
            × (window_edge_secs w now_min weekday sec_in_min
                ≡ edge_secs sec_in_min (first_step (flips w now_min weekday) 2880 1)))
  unfolding window_edge_secs
  edge-cases sec_in_min = elim (Bool-cases (eqb (parse_hhmm w.start) (parse_hhmm w.end))) [
    | inl same ↦ inl (same, rw same)
    | inr differ ↦ inr (differ, rw differ)
  ]

  -- Up to two days ahead, the answer does not change before the edge, and without an edge not at
  -- all. `j` is a number of minutes ahead; it begins `j * 60 - sec_in_min` seconds from now.
  pub window_edge_secs_quiet :
      (sec_in_min j : ℕ)
      → sec_in_min < 60
      → 1 ≤ j
      → j ≤ 2880
      → ((s : ℕ) → window_edge_secs w now_min weekday sec_in_min ≡ some s → j * 60 < sec_in_min + s)
      → in_window_at w now_min weekday j ≡ in_window w now_min weekday
  window_edge_secs_quiet sec j hs h1 h2 before = elim (edge-cases sec) [
    | inl (same, _) ↦ degenerate_quiet j same
    | inr (differ, e) ↦ elim (Option-cases (first_step (flips w now_min weekday) 2880 1)) [
      | inl never ↦
          flips-false j (first_step-none (flips w now_min weekday) 2880 1 j never h1 (omega arith))
      | inr (s, found) ↦ flips-false j (
          first_step_least (flips w now_min weekday) 2880 1 s j found h1 (
            omega (
              arith,
              first_step-some (flips w now_min weekday) 2880 1 s found,
              before (max (s * 60 - sec) 1) (rw (e, found)),
            )))
    ]
  ]
