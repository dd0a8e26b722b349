-- ===== src/Engine/Usage.antt =====
-- `scoped_usage` and `over_duration` of daemon/src/engine.rs.
use ningshi.Prelude.{
  sum_u64, ℕ, ◌-◌, ◌*◌, String, Bool, false, List, map, Option, none, some, eqb, leb, or_else,
  filter_map, if◌then◌else◌, ◌==◌, nat_key, string_key,
}
use ningshi.Prelude.Map.{get}
use ningshi.Rules.{DurationRule, GroupRule}
use ningshi.Engine.{Engine}

module _ {M : Type 0} where
  unfoldable pub scoped_usage : Engine M → ℕ → String → ℕ
  scoped_usage e uid scope =
      let any = or_else (get e.usage_seconds uid) 0 in
      let fg = or_else (get e.usage_fg uid) 0 in
      if scope == "background" then any - fg else if scope == "any" then any else fg

  -- The uids of a group's members that are installed.
  unfoldable pub member_uids : Engine M → List String → List ℕ
  member_uids e members = filter_map (get e.uid_of) members

  unfoldable pub pooled_usage : Engine M → GroupRule → String → ℕ
  unfolding member_uids
  pooled_usage e g scope = sum_u64 (map (λ u. scoped_usage e u scope) (member_uids e g.members))

  -- The `match group` of `over_duration`.
  unfoldable pub counted_usage : Engine M → DurationRule → ℕ → Option GroupRule → ℕ
  counted_usage e d uid none = scoped_usage e uid d.scope
  counted_usage e d uid (some g) =
      if g.shared_pool then pooled_usage e g d.scope else scoped_usage e uid d.scope

  unfoldable pub over_duration : Engine M → DurationRule → ℕ → Option GroupRule → Bool
  unfolding counted_usage
  over_duration e d uid group =
      if eqb d.limit_minutes 0
      then false
      else leb (d.limit_minutes * 60) (counted_usage e d uid group)
