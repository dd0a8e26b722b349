-- ===== src/Rules/Sanitize.antt =====
-- The repair of a whole rule file.
use ningshi.Prelude.{◌≡◌, refl, List, [], ◌∷◌, map, arith}
use ningshi.Rules.{
  TimeWindow, RuleSet, Rules, sanitize_window, sanitize_set, sanitize_app, sanitize_group, sanitize,
}
use ningshi.Rules.Days.{sanitize_days_idem}

map_idem {ℓ} :
    {A : Type ℓ} (f : A → A)
    → ((a : A) → f (f a) ≡ f a)
    → (xs : List A) → map f (map f xs) ≡ map f xs
map_idem f h [] = refl
map_idem f h (x ∷ xs) = cc (h x, map_idem f h xs)

sanitize_window_idem : (w : TimeWindow) → sanitize_window (sanitize_window w) ≡ sanitize_window w
unfolding sanitize_window
sanitize_window_idem w = ground (arith, sanitize_days_idem w.days)

sanitize_set_idem : (s : RuleSet) → sanitize_set (sanitize_set s) ≡ sanitize_set s
unfolding sanitize_set
sanitize_set_idem s =
    ground (arith, map_idem sanitize_window sanitize_window_idem s.time_windows.windows)

-- Repairing rules that were repaired changes nothing.
pub sanitize_idem : (r : Rules) → sanitize (sanitize r) ≡ sanitize r
unfolding sanitize
sanitize_idem r = ground (
  arith,
  map_idem sanitize_app (λ (key, a). ground (arith, sanitize_set_idem a.rules)) r.apps,
  map_idem sanitize_group (λ (gid, g). ground (arith, sanitize_set_idem g.rules)) r.groups,
)
