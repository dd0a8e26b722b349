-- ===== src/Engine/Plan/Quiet.antt =====
-- No verdict of the plan changes while the daemon sleeps.
use mathlib.Core.Path.{fun_ext}
use ningshi.Prelude.{
  ℕ, ◌≡◌, refl, Bool, String, inl, inr, Occurs, List, [], ◌∷◌, ◌++◌, map, some, none, ltb, Key,
  nat_key, string_key, Option-cases, Bool-cases, if◌then◌else◌,
}
use ningshi.Prelude.Map.{Map, get, values}
use ningshi.Prelude.Members.{Occurs-append_left, Occurs-append_right, Occurs-values}
use ningshi.Rules.{RuleSet, AppRule, GroupRule}
use ningshi.Decide.{eval}
use ningshi.Wake.{enabled_sets}
use ningshi.Wake.Sets.{Occurs-enabled_sets_app, Occurs-enabled_sets_group}
use ningshi.Engine.{Engine, Moment}
use ningshi.Engine.Usage.{over_duration}
use ningshi.Engine.Plan.{
  Plan, empty_plan, plan_key, running, app_blocks, member_blocks, plan_apps, plan_members,
  plan_groups, make_plan,
}

-- All that `tick_interval_secs` looks at as a deadline.
abbrev pub deadlines : {M : Type 0} → Engine M → List ℕ
deadlines e =
    values e.extension_until
    ++ values e.group_extension_until
    ++ values e.cooldown_until
    ++ values e.group_cooldown_until

-- At both moments the windows of every enabled rule set and every deadline tell the same.
pub record AreAlike {M : Type 0} (e : Engine M) (m m' : Moment) : Type 0 where
  pub eval_alike :
      (set : RuleSet) (ext over cool off : Bool)
      → Occurs set (enabled_sets e.rules)
      → eval set m'.now_min m'.weekday ext over cool off
        ≡ eval set m.now_min m.weekday ext over cool off
  pub running_alike : (t : ℕ) → Occurs t (deadlines e) → ltb m'.now_epoch t ≡ ltb m.now_epoch t

module _ {M : Type 0} (e : Engine M) (m m' : Moment) (alike : AreAlike e m m') where
  running_map :
      {K : Type 0} ⦃key : Key K⦄ (map : Map K ℕ) (k : K)
      → ((t : ℕ) → Occurs t (values map) → Occurs t (deadlines e))
      → running m'.now_epoch (get map k) ≡ running m.now_epoch (get map k)
  running_map map k sub = elim (Option-cases (get map k)) [
    | inl missing ↦ rw missing
    | inr (t, found) ↦ rw found (alike.running_alike t (sub t (Occurs-values map k t found)))
  ]

  in_first_two :
      (t : ℕ)
      → Occurs t (values e.extension_until ++ values e.group_extension_until)
      → Occurs t (deadlines e)
  in_first_two t at =
      Occurs-append_left _ (values e.group_cooldown_until) t
        (Occurs-append_left _ (values e.cooldown_until) t at)

  running_extension :
      (uid : ℕ)
      → running m'.now_epoch (get e.extension_until uid)
        ≡ running m.now_epoch (get e.extension_until uid)
  running_extension uid = running_map e.extension_until uid (λ t at.
      in_first_two t
        (Occurs-append_left (values e.extension_until) (values e.group_extension_until) t at))

  running_group_extension :
      (gid : String)
      → running m'.now_epoch (get e.group_extension_until gid)
        ≡ running m.now_epoch (get e.group_extension_until gid)
  running_group_extension gid = running_map e.group_extension_until gid (λ t at.
      in_first_two t
        (Occurs-append_right (values e.extension_until) (values e.group_extension_until) t at))

  running_cooldown :
      (uid : ℕ)
      → running m'.now_epoch (get e.cooldown_until uid)
        ≡ running m.now_epoch (get e.cooldown_until uid)
  running_cooldown uid = running_map e.cooldown_until uid (λ t at.
      Occurs-append_left _ (values e.group_cooldown_until) t
        (Occurs-append_right _ (values e.cooldown_until) t at))

  running_group_cooldown :
      (gid : String)
      → running m'.now_epoch (get e.group_cooldown_until gid)
        ≡ running m.now_epoch (get e.group_cooldown_until gid)
  running_group_cooldown gid =
      running_map e.group_cooldown_until gid
        (λ t at. Occurs-append_right _ (values e.group_cooldown_until) t at)

  app_blocks-alike :
      (off : Bool) (app : AppRule)
      → Occurs app (values e.rules.apps)
      → (uid : ℕ) → app_blocks e m' off app uid ≡ app_blocks e m off app uid
  unfolding app_blocks
  app_blocks-alike off app at uid = elim (Bool-cases app.enabled) [
    | inr disabled ↦ rw disabled
    | inl on ↦ rw (
      running_extension uid,
      running_cooldown uid,
      alike.eval_alike app.rules (running m.now_epoch (get e.extension_until uid))
          (over_duration e app.rules.duration uid none)
          (running m.now_epoch (get e.cooldown_until uid)) off
          (Occurs-enabled_sets_app e.rules app at on),
    )
  ]

  member_blocks-alike :
      (off : Bool) (gid : String) (g : GroupRule)
      → Occurs g (values e.rules.groups)
      → (uid : ℕ) → member_blocks e m' off gid g uid ≡ member_blocks e m off gid g uid
  unfolding member_blocks
  member_blocks-alike off gid g at uid = elim (Bool-cases g.enabled) [
    | inr disabled ↦ rw disabled
    | inl on ↦ rw (
      running_group_extension gid,
      running_cooldown uid,
      running_group_cooldown gid,
      alike.eval_alike g.rules (running m.now_epoch (get e.group_extension_until gid))
          (over_duration e g.rules.duration uid (some g))
          (if g.shared_pool
            then running m.now_epoch (get e.group_cooldown_until gid)
            else running m.now_epoch (get e.cooldown_until uid))
          off (Occurs-enabled_sets_group e.rules g at on),
    )
  ]

  plan_apps-alike :
      (off : Bool) (apps : Map String AppRule) (plan : Plan)
      → ((app : AppRule) → Occurs app (values apps) → Occurs app (values e.rules.apps))
      → plan_apps e m' off apps plan ≡ plan_apps e m off apps plan
  unfolding plan_apps values
  plan_apps-alike off [] plan sub = refl
  plan_apps-alike off ((key, app) ∷ apps) plan sub =
      rw (fun_ext (app_blocks-alike off app (sub app (inl refl)))) (
        plan_apps-alike off apps (plan_key e key (app_blocks e m off app) plan)
          (λ a at. sub a (inr at)))

  plan_members-alike :
      (off : Bool) (gid : String) (g : GroupRule) (members : List String) (plan : Plan)
      → Occurs g (values e.rules.groups)
      → plan_members e m' off gid g members plan ≡ plan_members e m off gid g members plan
  unfolding plan_members
  plan_members-alike off gid g [] plan at = refl
  plan_members-alike off gid g (key ∷ members) plan at =
      rw (fun_ext (member_blocks-alike off gid g at)) (
        plan_members-alike off gid g members (plan_key e key (member_blocks e m off gid g) plan) at)

  plan_groups-alike :
      (off : Bool) (groups : Map String GroupRule) (plan : Plan)
      → ((g : GroupRule) → Occurs g (values groups) → Occurs g (values e.rules.groups))
      → plan_groups e m' off groups plan ≡ plan_groups e m off groups plan
  unfolding plan_groups values
  plan_groups-alike off [] plan sub = refl
  plan_groups-alike off ((gid, g) ∷ groups) plan sub =
      rw (plan_members-alike off gid g g.members plan (sub g (inl refl))) (
        plan_groups-alike off groups (plan_members e m off gid g g.members plan)
          (λ a at. sub a (inr at)))

  pub make_plan-alike : (off : Bool) → make_plan e m' off ≡ make_plan e m off
  unfolding make_plan
  make_plan-alike off = rw (plan_apps-alike off e.rules.apps empty_plan (λ a at. at)) (
      plan_groups-alike off e.rules.groups (plan_apps e m off e.rules.apps empty_plan) (λ a at. at))
