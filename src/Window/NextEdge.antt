-- ===== src/Window/NextEdge.antt =====
-- The edge that the scheduler finds, on a clock that runs minute by minute.
use mathlib.Core.Path.{subst}
use ningshi.Prelude.{
  ℕ, zero, suc, ◌+◌, ◌-◌, ◌*◌, ◌/◌, ◌%◌, ◌≤◌, ◌<◌, max, Bool, ◌≡◌, ◌≢◌, sym, ap₂, ◌∙◌, ◌↔◌, inl,
  inr, some, arith, eqb, if◌then◌else◌, Bool-cases,
}
use ningshi.Rules.{TimeWindow}
use ningshi.Window.{step_min, step_weekday, in_window, window_edge_secs}
use ningshi.Window.Edge.{in_window_at}
use ningshi.Window.First.{IsFirstFlip, window_edge_secs_steps}

-- Minutes since midnight and the weekday, one minute on.
abbrev pub next_minute : ℕ × ℕ → ℕ × ℕ
next_minute (now_min, weekday) =
    if eqb now_min 1439
    then (0, (if eqb weekday 7 then 1 else weekday + 1))
    else (suc now_min, weekday)

-- The clock so many minutes on.
abbrev pub minutes_on : ℕ → ℕ × ℕ → ℕ × ℕ
minutes_on zero clock = clock
minutes_on (suc n) clock = next_minute (minutes_on n clock)

abbrev pub answer : TimeWindow → ℕ × ℕ → Bool
answer w (now_min, weekday) = in_window w now_min weekday

-- The clock at the n-th minute since the midnight before a day.
abbrev At : ℕ → ℕ → ℕ × ℕ → Type 0
At weekday n (m, d) = (m ≡ n % 1440) × (d ≡ (weekday + 6 + n / 1440) % 7 + 1)

next_minute-At :
    (weekday n : ℕ) (clock : ℕ × ℕ) → At weekday n clock → At weekday (suc n) (next_minute clock)
next_minute-At weekday n (m, d) (at, day) = elim (Bool-cases (eqb m 1439)) [
  | inr before ↦ rw before (ground arith, ground arith)
  | inl last ↦ rw last (ground arith, ground arith)
]

module _ (now_min weekday : ℕ) where
  module _ (minute : now_min < 1440) (monday : 1 ≤ weekday) (sunday : weekday ≤ 7) where
    minutes_on-At : (j : ℕ) → At weekday (now_min + j) (minutes_on j (now_min, weekday))
    minutes_on-At zero = (omega arith, omega arith)
    minutes_on-At (suc j) =
        subst (λ n. At weekday n (minutes_on (suc j) (now_min, weekday))) (omega arith)
          (next_minute-At weekday (now_min + j) _ (minutes_on-At j))

    -- The search reads the clock as it will be.
    answer-minutes_on :
        (w : TimeWindow) (j : ℕ)
        → j ≤ 2880
        → answer w (minutes_on j (now_min, weekday)) ≡ in_window_at w now_min weekday j
    unfolding step_min step_weekday
    answer-minutes_on w j near =
        let (at, day) = minutes_on-At j in
        ap₂ (λ m d. in_window w m d) (omega (arith, at)) (omega (arith, day))

  -- The first minute of the next two days at which the answer is another than now.
  abbrev pub IsNextEdge : TimeWindow → ℕ → Type 0
  IsNextEdge w j =
      (1 ≤ j)
      × (j ≤ 2880)
      × (answer w (minutes_on j (now_min, weekday)) ≢ in_window w now_min weekday)
      × ((i : ℕ)
          → 1 ≤ i
          → i < j
          → answer w (minutes_on i (now_min, weekday)) ≡ in_window w now_min weekday)

  -- The edge is reported exactly if the answer of the engine changes at a whole minute within two
  -- days, and it is the time until the first such minute, at least a second. The minutes are those of
  -- a clock that goes on minute by minute from now, which is a valid minute of a weekday.
  pub window_edge_secs_iff :
      (w : TimeWindow) (sec_in_min s : ℕ)
      → now_min < 1440
      → 1 ≤ weekday
      → weekday ≤ 7
      → (window_edge_secs w now_min weekday sec_in_min ≡ some s)
        ↔ ((j : ℕ) × IsNextEdge w j × (s ≡ max (j * 60 - sec_in_min) 1))
  window_edge_secs_iff w sec s minute monday sunday = (
    (λ found.
        let (j, (low, high, hit, first), value) = steps.0 found in
        (
          j,
          (
            low,
            high,
            (λ same. hit (sym (seen j high) ∙ same)),
            (λ i from before. seen i (omega arith) ∙ first i from before),
          ),
          value,
        )),
    (λ (j, (low, high, hit, first), value). steps.1 (
      j,
      (
        low,
        high,
        (λ same. hit (seen j high ∙ same)),
        (λ i from before. sym (seen i (omega arith)) ∙ first i from before),
      ),
      value,
    )),
  )
    where
      seen :
          (j : ℕ)
          → j ≤ 2880
          → answer w (minutes_on j (now_min, weekday)) ≡ in_window_at w now_min weekday j
      seen j near = answer-minutes_on minute monday sunday w j near

      steps :
          (window_edge_secs w now_min weekday sec ≡ some s)
          ↔ ((j : ℕ) × IsFirstFlip w now_min weekday j × (s ≡ max (j * 60 - sec) 1))
      steps = window_edge_secs_steps w now_min weekday sec s
