-- ===== src/Rules/Days.antt =====
-- What the repair of a weekday set keeps, and that it leaves a repaired set alone.
use ningshi.Prelude.{
  ℕ, ◌≤◌, ◌≡◌, refl, ap, ◌∙◌, true, ◌&&◌, List, [], ◌∷◌, arith, contains, filter, All, leb, nat_key,
  eqb_iff,
}
use ningshi.Prelude.Sort.{
  sort, dedup, IsAscending, sort-IsSorted, dedup-IsAscending, contains-sort, contains-dedup,
  sort_of_IsAscending, dedup_of_IsAscending,
}
use ningshi.Rules.{in_week, sanitize_days}

filter_week-All : (days : List ℕ) → All (λ d. 1 ≤ d) (filter in_week days)
filter_week-All [] = tt
filter_week-All (d ∷ days) = ground (arith, filter_week-All days)

contains-filter_week :
    (days : List ℕ) (d : ℕ) → contains (filter in_week days) d ≡ (in_week d && contains days d)
contains-filter_week [] d = ground arith
contains-filter_week (x ∷ days) d = ground (arith, contains-filter_week days d, eqb_iff x d)

-- Exactly the given days that are 1 to 7 are kept.
contains-sanitize_days :
    (days : List ℕ) (d : ℕ) → contains (sanitize_days days) d ≡ (in_week d && contains days d)
unfolding sanitize_days
contains-sanitize_days days d =
    contains-dedup (sort leb (filter in_week days)) d
    ∙ contains-sort leb (filter in_week days) d
    ∙ contains-filter_week days d

-- The result is ascending from 1, so it names no day twice.
sanitize_days-IsAscending : (days : List ℕ) → IsAscending 1 (sanitize_days days)
unfolding sanitize_days
sanitize_days-IsAscending days =
    dedup-IsAscending 1 _ (sort-IsSorted 1 (filter in_week days) (filter_week-All days))

filter_of_All : (days : List ℕ) → All (λ d. in_week d ≡ true) days → filter in_week days ≡ days
filter_of_All [] h = refl
filter_of_All (d ∷ days) h = ground (arith, filter_of_All days h.1)

All-of_contains :
    (days : List ℕ)
    → ((d : ℕ) → contains days d ≡ true → in_week d ≡ true)
    → All (λ d. in_week d ≡ true) days
All-of_contains [] h = tt
All-of_contains (d ∷ days) h =
    (ground (arith, h d, eqb_iff d d), All-of_contains days (λ x m. ground (arith, h x)))

sanitize_days_week : (days : List ℕ) → All (λ d. in_week d ≡ true) (sanitize_days days)
sanitize_days_week days =
    All-of_contains (sanitize_days days) (λ d m. ground (arith, contains-sanitize_days days d))

sanitize_days_of_clean :
    (days : List ℕ)
    → All (λ d. in_week d ≡ true) days
    → IsAscending 1 days
    → sanitize_days days ≡ days
unfolding sanitize_days
sanitize_days_of_clean days w a =
    ap (λ l. dedup (sort leb l)) (filter_of_All days w)
    ∙ ap dedup (sort_of_IsAscending 1 days a)
    ∙ dedup_of_IsAscending 1 days a

-- A set that was repaired once is not changed by a second repair.
pub sanitize_days_idem : (days : List ℕ) → sanitize_days (sanitize_days days) ≡ sanitize_days days
sanitize_days_idem days =
    sanitize_days_of_clean (sanitize_days days) (sanitize_days_week days)
      (sanitize_days-IsAscending days)
