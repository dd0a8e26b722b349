-- ===== src/Engine/Cooldown/Uid.antt =====
-- The cooldown cycle of one uid.
pub mod Cycle
use mathlib.Core.Path.{subst}
use ningshi.Prelude.{
  ℕ, ◌+◌, ◌*◌, ◌≤◌, ◌<◌, ◌≡◌, ◌≢◌, refl, sym, true, ◌&&◌, ◌∙◌, ◌⊎◌, inl, inr, String, Option, none,
  some, arith, eqb, eqb_iff, ltb, leb, u64, if◌then◌else◌, nat_key, string_key, Bool-cases,
}
use ningshi.Prelude.Map.{get, remove, get-insert, get-remove}
use ningshi.Rules.{DurationRule}
use ningshi.Engine.{Engine}
use ningshi.Engine.Usage.{scoped_usage}
use ningshi.Engine.Cooldown.{
  reset_usage, start_uid_cooldown, after_uid_deadline, maintain_uid_cooldown,
}

module _ {M : Type 0} where
  pub get-start_uid_cooldown :
      (e : Engine M) (uid j : ℕ) (d : DurationRule) (now : ℕ)
      → get (start_uid_cooldown e uid d now).cooldown_until j ≡ (
          if leb (d.limit_minutes * 60) (scoped_usage e uid d.scope) && eqb uid j
          then some (u64 (now + d.freeze_minutes * 60))
          else get e.cooldown_until j)
  unfolding start_uid_cooldown
  get-start_uid_cooldown e uid j d now =
      ground (arith, get-insert e.cooldown_until uid j (u64 (now + d.freeze_minutes * 60)))

  pub scoped_usage-reset_usage :
      (e : Engine M) (uid j : ℕ) (scope : String)
      → scoped_usage (reset_usage e uid) j scope ≡ (if eqb uid j then 0 else scoped_usage e j scope)
  unfolding scoped_usage reset_usage
  scoped_usage-reset_usage e uid j scope =
      ground (arith, get-insert e.usage_seconds uid j 0, get-insert e.usage_fg uid j 0)

  -- Either a deadline lies ahead, or none is set and the limit is not reached.
  abbrev pub IsSettled : Engine M → ℕ → DurationRule → ℕ → Type 0
  IsSettled e uid d now =
      ((t : ℕ) × (get e.cooldown_until uid ≡ some t) × (now < t))
      ⊎ ((get e.cooldown_until uid ≡ none) × (scoped_usage e uid d.scope < d.limit_minutes * 60))

  start-IsSettled :
      (e : Engine M) (uid : ℕ) (d : DurationRule) (now : ℕ)
      → 0 < d.freeze_minutes
      → now + d.freeze_minutes * 60 < 18446744073709551616
      → get e.cooldown_until uid ≡ none
      → IsSettled (start_uid_cooldown e uid d now) uid d now
  start-IsSettled e uid d now frz fits fresh =
      elim (Bool-cases (leb (d.limit_minutes * 60) (scoped_usage e uid d.scope))) [
        | inl over ↦ inl (
          now + d.freeze_minutes * 60,
          ground (arith, get-start_uid_cooldown e uid uid d now, eqb_iff uid uid),
          omega arith,
        )
        | inr under ↦ unfold start_uid_cooldown in rw under (inr (fresh, ground arith))
      ]

  module _ (e : Engine M) (uid : ℕ) (d : DurationRule) (now : ℕ) (frz : 0 < d.freeze_minutes)
      (fits : now + d.freeze_minutes * 60 < 18446744073709551616) where
    IsSettled-cases :
        (o : Option ℕ)
        → get e.cooldown_until uid ≡ o
        → IsSettled (after_uid_deadline o e uid d now) uid d now
    unfolding after_uid_deadline
    IsSettled-cases none at = start-IsSettled e uid d now frz fits at
    IsSettled-cases (some t) at = elim (Bool-cases (ltb now t)) [
      | inl running ↦ rw running (inl (t, at, ground arith))
      | inr served ↦ rw served (
          start-IsSettled _ uid d now frz fits
            (ground (arith, get-remove e.cooldown_until uid uid, eqb_iff uid uid)))
    ]

    pub maintain_uid_cooldown-IsSettled : IsSettled (maintain_uid_cooldown e uid d now) uid d now
    unfolding maintain_uid_cooldown
    maintain_uid_cooldown-IsSettled = IsSettled-cases (get e.cooldown_until uid) refl

  abbrev pub uncooled : Engine M → ℕ → Engine M
  uncooled e uid = record e { cooldown_until = remove e.cooldown_until uid }

  start_under :
      (e : Engine M) (uid : ℕ) (d : DurationRule) (now : ℕ)
      → scoped_usage e uid d.scope < d.limit_minutes * 60
      → start_uid_cooldown e uid d now ≡ e
  unfolding start_uid_cooldown
  start_under e uid d now h =
      elim (Bool-cases (leb (d.limit_minutes * 60) (scoped_usage e uid d.scope))) [
        | inl over ↦ absurd (ground arith)
        | inr under ↦ rw under
      ]

  scoped_usage_reset :
      (e : Engine M) (uid : ℕ) (scope : String) → scoped_usage (reset_usage e uid) uid scope ≡ 0
  scoped_usage_reset e uid scope =
      scoped_usage-reset_usage e uid uid scope ∙ ground (arith, eqb_iff uid uid)

  maintain_uid_cooldown-served :
      (e : Engine M) (uid : ℕ) (d : DurationRule) (now t : ℕ)
      → 0 < d.limit_minutes
      → get e.cooldown_until uid ≡ some t
      → t ≤ now
      → maintain_uid_cooldown e uid d now ≡ reset_usage (uncooled e uid) uid
  unfolding maintain_uid_cooldown after_uid_deadline
  maintain_uid_cooldown-served e uid d now t lim at late = elim (Bool-cases (ltb now t)) [
    | inl running ↦ absurd (ground arith)
    | inr served ↦
        rw (at, served)
          (start_under (reset_usage (uncooled e uid) uid) uid d now
            (omega (arith, scoped_usage_reset (uncooled e uid) uid d.scope)))
  ]

  pub maintain_uid_cooldown_served :
      (e : Engine M) (uid : ℕ) (d : DurationRule) (now t : ℕ) (scope : String)
      → 0 < d.limit_minutes
      → get e.cooldown_until uid ≡ some t
      → t ≤ now
      → let e' = maintain_uid_cooldown e uid d now in
        (get e'.cooldown_until uid ≡ none) × (scoped_usage e' uid scope ≡ 0)
  maintain_uid_cooldown_served e uid d now t scope lim at late =
      rw (maintain_uid_cooldown-served e uid d now t lim at late) (
        unfold reset_usage in ground (arith, get-remove e.cooldown_until uid uid, eqb_iff uid uid),
        scoped_usage_reset (uncooled e uid) uid scope,
      )
