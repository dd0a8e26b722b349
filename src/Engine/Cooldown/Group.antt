-- ===== src/Engine/Cooldown/Group.antt =====
-- The cooldown cycle of a shared pool.
pub mod Cycle
use mathlib.Core.Path.{subst}
use ningshi.Prelude.{
  ℕ, ◌+◌, ◌*◌, ◌<◌, ◌≡◌, refl, ap, ◌∙◌, ◌⊎◌, inl, inr, String, List, [], ◌∷◌, map, filter_map, ◌≤◌,
  sym, false, All, contains, sum_u64, true, eqb_iff, if◌then◌else◌, Option, none, some, arith, ltb,
  leb, u64, nat_key, string_key, ==_refl, Bool-cases,
}
use ningshi.Prelude.Map.{Map, get, remove, get-insert, get-remove}
use ningshi.Rules.{GroupRule}
use ningshi.Engine.{Engine}
use ningshi.Engine.Usage.{scoped_usage, member_uids, pooled_usage}
use ningshi.Engine.Cooldown.Uid.{scoped_usage-reset_usage}
use ningshi.Engine.Cooldown.{
  reset_usage, reset_members, start_group_cooldown, after_group_deadline, maintain_group_cooldown,
}

abbrev pub pool_limit : GroupRule → ℕ
pool_limit g = g.rules.duration.limit_minutes * 60

module _ {M : Type 0} where
  -- What the pool counts for its own rule.
  abbrev pub pool_used : Engine M → GroupRule → ℕ
  pool_used e g = pooled_usage e g g.rules.duration.scope

  abbrev pub IsPoolSettled : Engine M → String → GroupRule → ℕ → Type 0
  IsPoolSettled e gid g now =
      ((t : ℕ) × (get e.group_cooldown_until gid ≡ some t) × (now < t))
      ⊎ ((get e.group_cooldown_until gid ≡ none) × (pool_used e g < pool_limit g))

  module _ (gid : String) (g : GroupRule) (now : ℕ) (frz : 0 < g.rules.duration.freeze_minutes)
      (fits : now + g.rules.duration.freeze_minutes * 60 < 18446744073709551616) where
    start-IsPoolSettled :
        (e : Engine M)
        → get e.group_cooldown_until gid ≡ none
        → IsPoolSettled (start_group_cooldown e gid g now) gid g now
    start-IsPoolSettled e fresh = elim (Bool-cases (leb (pool_limit g) (pool_used e g))) [
      | inl over ↦
          unfold start_group_cooldown in
          rw over (
            inl (
              now + g.rules.duration.freeze_minutes * 60,
              ground (
                arith,
                get-insert e.group_cooldown_until gid gid
                    (u64 (now + g.rules.duration.freeze_minutes * 60)),
                ==_refl gid,
              ),
              omega arith,
            ))
      | inr under ↦ unfold start_group_cooldown in rw under (inr (fresh, ground arith))
    ]

    pub reset_members-deadlines :
        (e : Engine M) (uids : List ℕ)
        → (reset_members e uids).group_cooldown_until ≡ e.group_cooldown_until
    unfolding reset_members
    reset_members-deadlines e [] = refl
    reset_members-deadlines e (u ∷ us) =
        reset_members-deadlines (reset_usage e u) us ∙ unfold reset_usage in refl

    IsPoolSettled-cases :
        (o : Option ℕ) (e : Engine M)
        → get e.group_cooldown_until gid ≡ o
        → IsPoolSettled (after_group_deadline o e gid g now) gid g now
    unfolding after_group_deadline
    IsPoolSettled-cases none e at = start-IsPoolSettled e at
    IsPoolSettled-cases (some t) e at = elim (Bool-cases (ltb now t)) [
      | inl running ↦ rw running (inl (t, at, ground arith))
      | inr served ↦ rw served (
          start-IsPoolSettled _ (
            ap (λ (m : Map String ℕ). get m gid)
              (reset_members-deadlines _ (member_uids e g.members))
            ∙ ground (arith, get-remove e.group_cooldown_until gid gid, ==_refl gid)))
    ]

    pub maintain_group_cooldown-IsPoolSettled :
        (e : Engine M) → IsPoolSettled (maintain_group_cooldown e gid g now) gid g now
    unfolding maintain_group_cooldown
    maintain_group_cooldown-IsPoolSettled e =
        IsPoolSettled-cases (get e.group_cooldown_until gid) e refl
