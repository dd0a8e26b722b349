-- ===== src/Window/First.antt =====
-- The edge that the scheduler finds is the first change of the engine's own answer, in the steps of
-- its search.
use ningshi.Prelude.{
  ℕ, ◌-◌, ◌*◌, ◌≤◌, ◌<◌, max, ◌≡◌, ◌≢◌, ap, sym, ◌∙◌, ◌↔◌, inl, inr, false, some, arith, ltb, eqb,
  Bool-cases, Option-cases,
}
use ningshi.Rules.{TimeWindow}
use ningshi.Window.{parse_hhmm, in_window, first_step, edge_secs, window_edge_secs}
use ningshi.Window.Edge.{
  in_window_at, flips, first_step-none, first_step-some, first_step_least, flips-false, flips-true,
  degenerate_quiet, edge-cases,
}

module _ (w : TimeWindow) (now_min weekday : ℕ) where
  -- The first step of the search at which the answer is another than now.
  abbrev pub IsFirstFlip : ℕ → Type 0
  IsFirstFlip j =
      (1 ≤ j)
      × (j ≤ 2880)
      × (in_window_at w now_min weekday j ≢ in_window w now_min weekday)
      × ((i : ℕ) → 1 ≤ i → i < j → in_window_at w now_min weekday i ≡ in_window w now_min weekday)

  first_step-IsFirstFlip :
      (j : ℕ)
      → eqb (parse_hhmm w.start) (parse_hhmm w.end) ≡ false
      → first_step (flips w now_min weekday) 2880 1 ≡ some j
      → IsFirstFlip j
  first_step-IsFirstFlip j differ found =
      let (low, high, hit) = first_step-some (flips w now_min weekday) 2880 1 j found in
      (
        low,
        omega arith,
        flips-true w now_min weekday j differ hit,
        λ i from before.
            flips-false w now_min weekday i
              (first_step_least (flips w now_min weekday) 2880 1 j i found from before),
      )

  IsFirstFlip-unique : (j k : ℕ) → IsFirstFlip j → IsFirstFlip k → j ≡ k
  IsFirstFlip-unique j k (j1, _, jhit, jfirst) (k1, _, khit, kfirst) = elim (Bool-cases (ltb j k)) [
    | inl less ↦ absurd (jhit (kfirst j j1 (ground arith)))
    | inr more ↦ elim (Bool-cases (ltb k j)) [
      | inl less ↦ absurd (khit (jfirst k k1 (ground arith)))
      | inr same ↦ ground arith
    ]
  ]

  edge_of_IsFirstFlip :
      (sec_in_min j : ℕ)
      → IsFirstFlip j
      → window_edge_secs w now_min weekday sec_in_min ≡ some (max (j * 60 - sec_in_min) 1)
  edge_of_IsFirstFlip sec j (low, high, hit, first) = elim (edge-cases w now_min weekday sec) [
    | inl (same, _) ↦ absurd (hit (degenerate_quiet w now_min weekday j same))
    | inr (differ, e) ↦ elim (Option-cases (first_step (flips w now_min weekday) 2880 1)) [
      | inl never ↦ absurd (
          hit (
            flips-false w now_min weekday j
              (first_step-none (flips w now_min weekday) 2880 1 j never low (omega arith))))
      | inr (k, found) ↦
          let same : j ≡ k =
            IsFirstFlip-unique j k (low, high, hit, first)
              (first_step-IsFirstFlip k differ found) in
          e ∙ ap (edge_secs sec) found ∙ ap (λ i. some (max (i * 60 - sec) 1)) (sym same)
    ]
  ]

  -- The edge in the steps of the search.
  pub window_edge_secs_steps :
      (sec_in_min s : ℕ)
      → (window_edge_secs w now_min weekday sec_in_min ≡ some s)
        ↔ ((j : ℕ) × IsFirstFlip j × (s ≡ max (j * 60 - sec_in_min) 1))
  window_edge_secs_steps sec s =
      (there, λ (j, edge, value). edge_of_IsFirstFlip sec j edge ∙ ap some (sym value))
    where
      there :
          window_edge_secs w now_min weekday sec ≡ some s
          → (j : ℕ) × IsFirstFlip j × (s ≡ max (j * 60 - sec) 1)
      there e = elim (edge-cases w now_min weekday sec) [
        | inl (same, never) ↦ cc
        | inr (differ, value) ↦ elim (Option-cases (first_step (flips w now_min weekday) 2880 1)) [
          | inl never ↦ absurd (ground (arith, ap (edge_secs sec) never))
          | inr (j, found) ↦
              (j, first_step-IsFirstFlip j differ found, ground (arith, ap (edge_secs sec) found))
        ]
      ]

  pub window_edge_secs_flips :
      (sec_in_min s : ℕ)
      → window_edge_secs w now_min weekday sec_in_min ≡ some s
      → (j : ℕ) × (1 ≤ j)
        × (j ≤ 2880)
        × (s ≡ max (j * 60 - sec_in_min) 1)
        × (in_window_at w now_min weekday j ≢ in_window w now_min weekday)
  window_edge_secs_flips sec s e =
      let (j, (low, high, hit, _), value) = (window_edge_secs_steps sec s).0 e in
      (j, low, high, value, hit)
