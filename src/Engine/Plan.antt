-- ===== src/Engine/Plan.antt =====
-- The part of `tick` in daemon/src/engine.rs that decides which uids to block and under which
-- package names, with `is_protected` and `package_of`.
pub mod Induction
pub mod Spared
pub mod Quiet
pub mod Names
pub mod Resolved
use Prim.Native.String.{compare}
use text.Mathlib.Text.{is_le}
use ningshi.Prelude.{
  ℕ, String, Bool, true, false, not, ◌&&◌, ◌||◌, List, [], ◌∷◌, ◌++◌, map, Option, none, some, ltb,
  contains, or_else, if◌then◌else◌, nat_key, string_key, split_once, is_empty,
}
use ningshi.Prelude.Map.{Map, get, insert}
use ningshi.Prelude.Sort.{sort, dedup}
use ningshi.Rules.{RuleSet, AppRule, GroupRule, Rules}
use ningshi.Decide.{eval}
use ningshi.Engine.{Engine, Moment}
use ningshi.Engine.Usage.{over_duration}

-- The text behind the first colon.
abbrev pub package_part : Option (String × String) → Option String
package_part none = none
package_part (some (user, pkg)) = if is_empty pkg then none else some pkg

unfoldable pub package_of : String → Option String
package_of key = package_part (split_once b':' key)

abbrev pub after_colon : String → Option (String × String) → String
after_colon key none = key
after_colon key (some (user, pkg)) = pkg

-- `is_some_and(|&t| now_epoch < t)` on a looked-up deadline.
abbrev pub running : ℕ → Option ℕ → Bool
running now none = false
running now (some t) = ltb now t

-- `want` and `blocked_names`.
pub record Plan : Type 0 where
  pub want : Map ℕ Bool
  pub names : Map ℕ (List String)

abbrev pub empty_plan : Plan
empty_plan = record { want = []; names = [] }

-- `entry(uid).or_default().push(pkg)`, if the key has a package.
unfoldable pub push_name : Map ℕ (List String) → ℕ → Option String → Map ℕ (List String)
push_name names uid none = names
push_name names uid (some pkg) = insert names uid (or_else (get names uid) [] ++ pkg ∷ [])

unfoldable pub record_verdict : Plan → String → ℕ → Bool → Plan
record_verdict plan key uid block = record {
  want = insert plan.want uid block;
  names = if block then push_name plan.names uid (package_of key) else plan.names;
}

module _ {M : Type 0} where
  unfoldable pub is_protected : Engine M → String → Bool
  is_protected e key = contains e.protected (after_colon key (split_once b':' key))

  -- The `continue`s of both loops: no uid, a system uid, or a protected package.
  unfoldable pub target_uid : Engine M → String → Option ℕ
  target_uid e key = elim (get e.uid_of key) [
    | none ↦ none
    | some uid ↦ if ltb uid 10000 || is_protected e key then none else some uid
  ]

  unfoldable pub app_blocks : Engine M → Moment → Bool → AppRule → ℕ → Bool
  app_blocks e m screen_off app uid =
      app.enabled
      && eval app.rules m.now_min m.weekday (running m.now_epoch (get e.extension_until uid))
          (over_duration e app.rules.duration uid none)
          (running m.now_epoch (get e.cooldown_until uid)) screen_off

  unfoldable pub member_blocks : Engine M → Moment → Bool → String → GroupRule → ℕ → Bool
  member_blocks e m screen_off gid g uid =
      g.enabled
      && eval g.rules m.now_min m.weekday (running m.now_epoch (get e.group_extension_until gid))
          (over_duration e g.rules.duration uid (some g))
          (if g.shared_pool
            then running m.now_epoch (get e.group_cooldown_until gid)
            else running m.now_epoch (get e.cooldown_until uid))
          screen_off

  -- One round of either loop, given the verdict for the key's uid.
  unfoldable pub plan_key : Engine M → String → (ℕ → Bool) → Plan → Plan
  unfolding target_uid record_verdict
  plan_key e key blocks plan = elim (target_uid e key) [
    | none ↦ plan
    | some uid ↦ record_verdict plan key uid (blocks uid)
  ]

  unfoldable pub plan_apps : Engine M → Moment → Bool → Map String AppRule → Plan → Plan
  unfolding plan_key app_blocks
  plan_apps e m off [] plan = plan
  plan_apps e m off ((key, app) ∷ apps) plan =
      plan_apps e m off apps (plan_key e key (app_blocks e m off app) plan)

  unfoldable pub plan_members :
      Engine M → Moment → Bool → String → GroupRule → List String → Plan → Plan
  unfolding plan_key member_blocks
  plan_members e m off gid g [] plan = plan
  plan_members e m off gid g (key ∷ members) plan =
      plan_members e m off gid g members (plan_key e key (member_blocks e m off gid g) plan)

  unfoldable pub plan_groups : Engine M → Moment → Bool → Map String GroupRule → Plan → Plan
  unfolding plan_members
  plan_groups e m off [] plan = plan
  plan_groups e m off ((gid, g) ∷ groups) plan =
      plan_groups e m off groups (plan_members e m off gid g g.members plan)

  -- Both loops.
  unfoldable pub make_plan : Engine M → Moment → Bool → Plan
  unfolding plan_apps plan_groups
  make_plan e m off = plan_groups e m off e.rules.groups (plan_apps e m off e.rules.apps empty_plan)

-- `names.sort(); names.dedup();`
abbrev pub tidy : List String → List String
tidy names = dedup (sort (λ a b. is_le (compare a b)) names)

abbrev tidy_entry : ℕ × List String → ℕ × List String
tidy_entry (uid, names) = (uid, tidy names)

unfoldable pub tidy_names : Map ℕ (List String) → Map ℕ (List String)
tidy_names names = map tidy_entry names
