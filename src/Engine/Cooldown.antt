-- ===== src/Engine/Cooldown.antt =====
-- `maintain_uid_cooldown` and `maintain_group_cooldown` of daemon/src/engine.rs.
pub mod Uid
pub mod Group
use ningshi.Prelude.{
  ℕ, ◌+◌, ◌*◌, String, List, [], ◌∷◌, Option, none, some, ltb, leb, u64, if◌then◌else◌, nat_key,
  string_key,
}
use ningshi.Prelude.Map.{get, insert, remove}
use ningshi.Rules.{DurationRule, GroupRule}
use ningshi.Engine.{Engine}
use ningshi.Engine.Usage.{scoped_usage, member_uids, pooled_usage}

module _ {M : Type 0} where
  unfoldable pub reset_usage : Engine M → ℕ → Engine M
  reset_usage e uid = record e {
    usage_seconds = insert e.usage_seconds uid 0;
    usage_fg = insert e.usage_fg uid 0;
  }

  -- The end of `maintain_uid_cooldown`.
  unfoldable pub start_uid_cooldown : Engine M → ℕ → DurationRule → ℕ → Engine M
  start_uid_cooldown e uid d now =
      if leb (d.limit_minutes * 60) (scoped_usage e uid d.scope)
      then record e {
        cooldown_until = insert e.cooldown_until uid (u64 (now + d.freeze_minutes * 60));
      }
      else e

  -- What follows once the deadline was looked up.
  unfoldable pub after_uid_deadline : Option ℕ → Engine M → ℕ → DurationRule → ℕ → Engine M
  unfolding start_uid_cooldown reset_usage
  after_uid_deadline none e uid d now = start_uid_cooldown e uid d now
  after_uid_deadline (some until) e uid d now =
      if ltb now until
      then e
      else start_uid_cooldown
          (reset_usage (record e { cooldown_until = remove e.cooldown_until uid }) uid) uid d now

  unfoldable pub maintain_uid_cooldown : Engine M → ℕ → DurationRule → ℕ → Engine M
  unfolding after_uid_deadline
  maintain_uid_cooldown e uid d now = after_uid_deadline (get e.cooldown_until uid) e uid d now

  -- The loop over the members of a pool.
  unfoldable pub reset_members : Engine M → List ℕ → Engine M
  unfolding reset_usage
  reset_members e [] = e
  reset_members e (uid ∷ uids) = reset_members (reset_usage e uid) uids

  unfoldable pub start_group_cooldown : Engine M → String → GroupRule → ℕ → Engine M
  start_group_cooldown e gid g now =
      if leb (g.rules.duration.limit_minutes * 60) (pooled_usage e g g.rules.duration.scope)
      then record e {
        group_cooldown_until =
            insert e.group_cooldown_until gid (u64 (now + g.rules.duration.freeze_minutes * 60));
      }
      else e

  unfoldable pub after_group_deadline : Option ℕ → Engine M → String → GroupRule → ℕ → Engine M
  unfolding start_group_cooldown reset_members
  after_group_deadline none e gid g now = start_group_cooldown e gid g now
  after_group_deadline (some until) e gid g now =
      if ltb now until
      then e
      else start_group_cooldown
          (reset_members (record e { group_cooldown_until = remove e.group_cooldown_until gid })
            (member_uids e g.members))
          gid g now

  unfoldable pub maintain_group_cooldown : Engine M → String → GroupRule → ℕ → Engine M
  unfolding after_group_deadline
  maintain_group_cooldown e gid g now =
      after_group_deadline (get e.group_cooldown_until gid) e gid g now
