-- ===== src/Engine/Counting/Targets.antt =====
-- Which uids have a limit, described without the loops that collect them.
use ningshi.Prelude.{
  ℕ, ◌≡◌, refl, ◌∙◌, String, Bool, true, false, not, ◌&&◌, ◌||◌, List, [], ◌∷◌, ◌++◌, Option, none,
  some, any, arith, ltb, eqb, contains, nat_key, string_key,
}
use ningshi.Prelude.Map.{Map, get, values}
use ningshi.Prelude.Set
use ningshi.Prelude.Set.{contains-insert}
use ningshi.Rules.{RuleSet, AppRule, GroupRule}
use ningshi.Wake.{enabled_sets, app_sets, group_sets}
use ningshi.Engine.{Engine}
use ningshi.Engine.Usage.{member_uids}
use ningshi.Engine.Counting.{
  is_limited, needs_usage, insert_all, insert_found, app_targets, group_targets, duration_targets,
}

abbrev pub is_uid : Option ℕ → ℕ → Bool
is_uid none j = false
is_uid (some uid) j = eqb uid j

module _ {M : Type 0} (e : Engine M) (j : ℕ) where
  abbrev pub app_limits : String × AppRule → Bool
  app_limits (key, app) =
      app.enabled && ltb 0 app.rules.duration.limit_minutes && is_uid (get e.uid_of key) j

  abbrev pub group_limits : GroupRule → Bool
  group_limits g =
      g.enabled
      && ltb 0 g.rules.duration.limit_minutes
      && any (λ (key : String). is_uid (get e.uid_of key) j) g.members

  -- An enabled rule for an app of the uid has a limit, or an enabled group with such an app.
  abbrev pub has_limit : Bool
  has_limit = any app_limits e.rules.apps || any group_limits (values e.rules.groups)

  contains-insert_found :
      (out : List ℕ) (o : Option ℕ)
      → contains (insert_found out o) j ≡ (is_uid o j || contains out j)
  contains-insert_found out none = refl
  contains-insert_found out (some uid) = contains-insert out uid j

  contains-app_targets :
      (apps : Map String AppRule) (out : List ℕ)
      → contains (app_targets e apps out) j ≡ (any app_limits apps || contains out j)
  unfolding app_targets
  contains-app_targets [] out = refl
  contains-app_targets ((key, app) ∷ apps) out =
      contains-app_targets apps _ ∙ ground (arith, contains-insert_found out (get e.uid_of key))

  contains-insert_all :
      (us out : List ℕ) → contains (insert_all out us) j ≡ (contains us j || contains out j)
  unfolding insert_all
  contains-insert_all [] out = refl
  contains-insert_all (u ∷ us) out =
      contains-insert_all us (Set.insert out u) ∙ ground (arith, contains-insert out u j)

  contains-member_uids :
      (members : List String)
      → contains (member_uids e members) j
        ≡ any (λ (key : String). is_uid (get e.uid_of key) j) members
  unfolding member_uids
  contains-member_uids [] = refl
  contains-member_uids (key ∷ members) = ground (arith, contains-member_uids members)

  contains-group_targets :
      (groups : List GroupRule) (out : List ℕ)
      → contains (group_targets e groups out) j ≡ (any group_limits groups || contains out j)
  unfolding group_targets
  contains-group_targets [] out = refl
  contains-group_targets (g ∷ groups) out =
      contains-group_targets groups _
      ∙ ground
          (arith, contains-insert_all (member_uids e g.members) out, contains-member_uids g.members)

  pub contains-duration_targets : contains (duration_targets e) j ≡ has_limit
  unfolding duration_targets
  contains-duration_targets =
      contains-group_targets (values e.rules.groups) _
      ∙ ground (arith, contains-app_targets e.rules.apps [])

  any_append :
      (p : RuleSet → Bool) (xs ys : List RuleSet) → any p (xs ++ ys) ≡ (any p xs || any p ys)
  any_append p [] ys = refl
  any_append p (x ∷ xs) ys = ground (arith, any_append p xs ys)

  apps_need :
      (apps : Map String AppRule)
      → (not (any app_limits apps) || any is_limited (app_sets (values apps))) ≡ true
  unfolding values app_sets
  apps_need [] = refl
  apps_need ((key, app) ∷ apps) = ground (arith, apps_need apps)

  groups_need :
      (groups : List GroupRule)
      → (not (any group_limits groups) || any is_limited (group_sets groups)) ≡ true
  unfolding group_sets
  groups_need [] = refl
  groups_need (g ∷ groups) = ground (arith, groups_need groups)

  -- A uid with a limit is reason enough to count.
  pub has_limit-needs_usage : (not has_limit || needs_usage e) ≡ true
  unfolding needs_usage enabled_sets
  has_limit-needs_usage = ground (
    arith,
    any_append is_limited (app_sets (values e.rules.apps)) (group_sets (values e.rules.groups)),
    apps_need e.rules.apps,
    groups_need (values e.rules.groups),
  )
