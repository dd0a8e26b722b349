-- ===== src/Wake/Sets.antt =====
-- The rule sets of the enabled rules are among `enabled_sets`.
use ningshi.Prelude.{◌≡◌, true, Occurs}
use ningshi.Prelude.Map.{values}
use ningshi.Prelude.Members.{Occurs-append_left, Occurs-append_right, Occurs-filter, Occurs-map}
use ningshi.Rules.{AppRule, GroupRule, Rules}
use ningshi.Wake.{enabled_sets, app_sets, group_sets}

module _ (r : Rules) where
  pub Occurs-enabled_sets_app :
      (app : AppRule)
      → Occurs app (values r.apps)
      → app.enabled ≡ true
      → Occurs app.rules (enabled_sets r)
  unfolding enabled_sets app_sets
  Occurs-enabled_sets_app app at on = Occurs-append_left _ _ app.rules (
      Occurs-map (λ (a : AppRule). a.rules) _ app
        (Occurs-filter (λ (a : AppRule). a.enabled) _ app at on))

  pub Occurs-enabled_sets_group :
      (g : GroupRule)
      → Occurs g (values r.groups)
      → g.enabled ≡ true
      → Occurs g.rules (enabled_sets r)
  unfolding enabled_sets group_sets
  Occurs-enabled_sets_group g at on = Occurs-append_right (app_sets (values r.apps)) _ g.rules (
      Occurs-map (λ (a : GroupRule). a.rules) _ g
        (Occurs-filter (λ (a : GroupRule). a.enabled) _ g at on))
