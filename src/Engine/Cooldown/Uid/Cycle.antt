-- ===== src/Engine/Cooldown/Uid/Cycle.antt =====
-- What each part of the cycle of a uid does.
use mathlib.Core.Path.{subst}
use ningshi.Prelude.{
  ℕ, ◌+◌, ◌*◌, ◌≤◌, ◌<◌, ◌≡◌, ◌≢◌, refl, sym, true, ◌∙◌, ◌⊎◌, inl, inr, String, Option, none, some,
  arith, eqb, eqb_iff, ltb, leb, if◌then◌else◌, nat_key, string_key, Bool-cases,
}
use ningshi.Prelude.Map.{get, get-remove}
use ningshi.Rules.{DurationRule}
use ningshi.Engine.{Engine}
use ningshi.Engine.Usage.{scoped_usage}
use ningshi.Engine.Cooldown.{
  reset_usage, start_uid_cooldown, after_uid_deadline, maintain_uid_cooldown,
}
use ningshi.Engine.Cooldown.Uid.{
  get-start_uid_cooldown, scoped_usage-reset_usage, IsSettled, maintain_uid_cooldown-IsSettled,
  uncooled, maintain_uid_cooldown_served,
}

module _ {M : Type 0} where
  -- The cycle: a cooldown that runs changes nothing; one that has run out is removed, and the usage
  -- starts again at 0 under every scope; and without one, a cooldown starts exactly if the limit is
  -- reached, and the usage stays.
  abbrev pub IsCycle : Engine M → Engine M → ℕ → DurationRule → ℕ → Type 0
  IsCycle e e' uid d now =
      ((t : ℕ) × (get e.cooldown_until uid ≡ some t) × (now < t) × (e' ≡ e))
      ⊎ ((t : ℕ) × (get e.cooldown_until uid ≡ some t)
          × (t ≤ now)
          × (get e'.cooldown_until uid ≡ none)
          × ((scope : String) → scoped_usage e' uid scope ≡ 0))
      ⊎ ((get e.cooldown_until uid ≡ none)
          × ((get e'.cooldown_until uid ≡ (
                if leb (d.limit_minutes * 60) (scoped_usage e uid d.scope)
                then some (now + d.freeze_minutes * 60)
                else none))
              × ((scope : String) → scoped_usage e' uid scope ≡ scoped_usage e uid scope)))

  maintain_uid_cooldown-free :
      (e : Engine M) (uid : ℕ) (d : DurationRule) (now : ℕ)
      → get e.cooldown_until uid ≡ none
      → maintain_uid_cooldown e uid d now ≡ start_uid_cooldown e uid d now
  unfolding maintain_uid_cooldown after_uid_deadline
  maintain_uid_cooldown-free e uid d now free = rw free refl

  maintain_uid_cooldown-running :
      (e : Engine M) (uid : ℕ) (d : DurationRule) (now t : ℕ)
      → get e.cooldown_until uid ≡ some t
      → ltb now t ≡ true
      → maintain_uid_cooldown e uid d now ≡ e
  unfolding maintain_uid_cooldown after_uid_deadline
  maintain_uid_cooldown-running e uid d now t at running = rw (at, running) refl

  scoped_usage-start :
      (e : Engine M) (uid : ℕ) (d : DurationRule) (now : ℕ) (scope : String)
      → scoped_usage (start_uid_cooldown e uid d now) uid scope ≡ scoped_usage e uid scope
  unfolding start_uid_cooldown scoped_usage
  scoped_usage-start e uid d now scope = ground arith

  start-frame :
      (e : Engine M) (uid j : ℕ) (d : DurationRule) (now : ℕ) (scope : String)
      → uid ≢ j
      → (get (start_uid_cooldown e uid d now).cooldown_until j ≡ get e.cooldown_until j)
        × (scoped_usage (start_uid_cooldown e uid d now) j scope ≡ scoped_usage e j scope)
  start-frame e uid j d now scope ne = (
    ground (arith, get-start_uid_cooldown e uid j d now, eqb_iff uid j),
    unfold start_uid_cooldown scoped_usage in ground arith,
  )

  reset-frame :
      (e : Engine M) (uid j : ℕ) (scope : String)
      → uid ≢ j
      → (get (reset_usage (uncooled e uid) uid).cooldown_until j ≡ get e.cooldown_until j)
        × (scoped_usage (reset_usage (uncooled e uid) uid) j scope ≡ scoped_usage e j scope)
  reset-frame e uid j scope ne = (
    unfold reset_usage in ground (arith, get-remove e.cooldown_until uid j, eqb_iff uid j),
    scoped_usage-reset_usage (uncooled e uid) uid j scope
        ∙ unfold scoped_usage in ground (arith, eqb_iff uid j),
  )

  after_deadline-frame :
      (o : Option ℕ) (e : Engine M) (uid j : ℕ) (d : DurationRule) (now : ℕ) (scope : String)
      → uid ≢ j
      → (get (after_uid_deadline o e uid d now).cooldown_until j ≡ get e.cooldown_until j)
        × (scoped_usage (after_uid_deadline o e uid d now) j scope ≡ scoped_usage e j scope)
  unfolding after_uid_deadline
  after_deadline-frame none e uid j d now scope ne = start-frame e uid j d now scope ne
  after_deadline-frame (some t) e uid j d now scope ne = elim (Bool-cases (ltb now t)) [
    | inl running ↦ rw running (refl, refl)
    | inr served ↦
        let (deadline, usage) =
          start-frame (reset_usage (uncooled e uid) uid) uid j d now scope ne in
        let (kept, used) = reset-frame e uid j scope ne in rw served (deadline ∙ kept, usage ∙ used)
  ]

  maintain_uid_cooldown_frame :
      (e : Engine M) (uid j : ℕ) (d : DurationRule) (now : ℕ) (scope : String)
      → uid ≢ j
      → let e' = maintain_uid_cooldown e uid d now in
        (get e'.cooldown_until j ≡ get e.cooldown_until j)
        × (scoped_usage e' j scope ≡ scoped_usage e j scope)
  unfolding maintain_uid_cooldown
  maintain_uid_cooldown_frame e uid j d now scope ne =
      after_deadline-frame (get e.cooldown_until uid) e uid j d now scope ne

  -- The deadline and the usage of a uid are as before.
  abbrev pub IsKept : Engine M → Engine M → ℕ → String → Type 0
  IsKept e e' j scope =
      (get e'.cooldown_until j ≡ get e.cooldown_until j)
      × (scoped_usage e' j scope ≡ scoped_usage e j scope)

  -- The maintenance of a rule with a cooldown: a cooldown that runs changes nothing. One that has run
  -- out is removed, and the usage of the uid starts again at 0 under every scope. Without one, a
  -- cooldown until the end of the freeze starts exactly if the limit is reached, and the usage stays.
  -- Afterwards either a deadline lies ahead or the counted usage is below the limit. Another uid keeps
  -- its deadline and its usage. The limit and the freeze are positive, and the deadline does not wrap
  -- around.
  pub maintain_uid_cooldown-IsCycle :
      (e : Engine M) (uid : ℕ) (d : DurationRule) (now : ℕ)
      → 0 < d.limit_minutes
      → 0 < d.freeze_minutes
      → now + d.freeze_minutes * 60 < 18446744073709551616
      → IsCycle e (maintain_uid_cooldown e uid d now) uid d now
        × IsSettled (maintain_uid_cooldown e uid d now) uid d now
        × ((j : ℕ) (scope : String)
            → (uid ≡ j) ⊎ IsKept e (maintain_uid_cooldown e uid d now) j scope)
  maintain_uid_cooldown-IsCycle e uid d now lim frz fits = (
    cycle (get e.cooldown_until uid) refl,
    maintain_uid_cooldown-IsSettled e uid d now frz fits,
    λ j scope. elim (Bool-cases (eqb uid j)) [
      | inl same ↦ inl ((eqb_iff uid j).0 same)
      | inr other ↦ inr (
          maintain_uid_cooldown_frame e uid j d now scope
            (λ same. cc (other, (eqb_iff uid j).1 same)))
    ],
  )
    where
      cycle :
          (o : Option ℕ)
          → get e.cooldown_until uid ≡ o
          → IsCycle e (maintain_uid_cooldown e uid d now) uid d now
      cycle none free = inr (
          inr (
            free,
            subst
                (λ (e' : Engine M).
                  (get e'.cooldown_until uid ≡ (
                    if leb (d.limit_minutes * 60) (scoped_usage e uid d.scope)
                    then some (now + d.freeze_minutes * 60)
                    else none))
                  × ((scope : String) → scoped_usage e' uid scope ≡ scoped_usage e uid scope))
                (sym (maintain_uid_cooldown-free e uid d now free))
                (
                  ground (arith, get-start_uid_cooldown e uid uid d now, eqb_iff uid uid),
                  scoped_usage-start e uid d now,
                ),
          ))
      cycle (some t) at = elim (Bool-cases (ltb now t)) [
        | inl running ↦
            inl (t, at, ground arith, maintain_uid_cooldown-running e uid d now t at running)
        | inr over ↦ inr (
            inl (
              t,
              at,
              ground arith,
              (maintain_uid_cooldown_served e uid d now t d.scope lim at (ground arith)).0,
              λ scope. (maintain_uid_cooldown_served e uid d now t scope lim at (ground arith)).1,
            ))
      ]
