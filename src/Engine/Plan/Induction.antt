-- ===== src/Engine/Plan/Induction.antt =====
-- What every round keeps holds of the whole plan.
use ningshi.Prelude.{ℕ, String, Bool, List, [], ◌∷◌}
use ningshi.Prelude.Map.{Map}
use ningshi.Rules.{AppRule, GroupRule}
use ningshi.Engine.{Engine, Moment}
use ningshi.Engine.Plan.{
  Plan, empty_plan, plan_key, app_blocks, member_blocks, plan_apps, plan_members, plan_groups,
  make_plan,
}

module _ {ℓ} {M : Type 0} (e : Engine M) (m : Moment) (off : Bool) (P : Plan → Type ℓ)
    (keep : (key : String) (blocks : ℕ → Bool) (plan : Plan)
      → P plan
      → P (plan_key e key blocks plan)) where
  plan_apps-keep :
      (apps : Map String AppRule) (plan : Plan) → P plan → P (plan_apps e m off apps plan)
  unfolding plan_apps
  plan_apps-keep [] plan h = h
  plan_apps-keep ((key, app) ∷ apps) plan h =
      plan_apps-keep apps (plan_key e key (app_blocks e m off app) plan)
        (keep key (app_blocks e m off app) plan h)

  plan_members-keep :
      (gid : String) (g : GroupRule) (members : List String) (plan : Plan)
      → P plan
      → P (plan_members e m off gid g members plan)
  unfolding plan_members
  plan_members-keep gid g [] plan h = h
  plan_members-keep gid g (key ∷ members) plan h =
      plan_members-keep gid g members (plan_key e key (member_blocks e m off gid g) plan)
        (keep key (member_blocks e m off gid g) plan h)

  plan_groups-keep :
      (groups : Map String GroupRule) (plan : Plan) → P plan → P (plan_groups e m off groups plan)
  unfolding plan_groups
  plan_groups-keep [] plan h = h
  plan_groups-keep ((gid, g) ∷ groups) plan h =
      plan_groups-keep groups (plan_members e m off gid g g.members plan)
        (plan_members-keep gid g g.members plan h)

  pub make_plan_induction : P empty_plan → P (make_plan e m off)
  unfolding make_plan
  make_plan_induction h =
      plan_groups-keep e.rules.groups (plan_apps e m off e.rules.apps empty_plan)
        (plan_apps-keep e.rules.apps empty_plan h)
