-- ===== src/Engine/Cooldown/Group/Cycle.antt =====
-- What each part of the cycle of a pool does.
use mathlib.Core.Path.{subst}
use ningshi.Prelude.{
  ℕ, ◌+◌, ◌*◌, ◌<◌, ◌≡◌, refl, ap, ◌∙◌, ◌⊎◌, inl, inr, String, List, [], ◌∷◌, map, filter_map, ◌≤◌,
  sym, false, All, contains, sum_u64, true, eqb_iff, if◌then◌else◌, Option, none, some, arith, ltb,
  leb, u64, nat_key, string_key, ==_refl, Bool-cases,
}
use ningshi.Prelude.Map.{Map, get, remove, get-insert, get-remove}
use ningshi.Rules.{GroupRule}
use ningshi.Engine.{Engine}
use ningshi.Engine.Usage.{scoped_usage, member_uids, pooled_usage}
use ningshi.Engine.Cooldown.Uid.{scoped_usage-reset_usage}
use ningshi.Engine.Cooldown.{
  reset_usage, reset_members, start_group_cooldown, after_group_deadline, maintain_group_cooldown,
}
use ningshi.Engine.Cooldown.Group.{
  pool_limit, pool_used, IsPoolSettled, maintain_group_cooldown-IsPoolSettled,
  reset_members-deadlines,
}

module _ {M : Type 0} where
  scoped_usage-reset_members :
      (uids : List ℕ) (e : Engine M) (j : ℕ) (scope : String)
      → scoped_usage (reset_members e uids) j scope
        ≡ (if contains uids j then 0 else scoped_usage e j scope)
  unfolding reset_members
  scoped_usage-reset_members [] e j scope = refl
  scoped_usage-reset_members (u ∷ us) e j scope =
      scoped_usage-reset_members us (reset_usage e u) j scope
      ∙ ground (arith, scoped_usage-reset_usage e u j scope)

  uid_of-reset_members : (uids : List ℕ) (e : Engine M) → (reset_members e uids).uid_of ≡ e.uid_of
  unfolding reset_members reset_usage
  uid_of-reset_members [] e = refl
  uid_of-reset_members (u ∷ us) e = uid_of-reset_members us (reset_usage e u)

  -- The members' usage is 0 under every scope.
  abbrev pub IsFresh : Engine M → List ℕ → Type 0
  IsFresh e uids = All (λ uid. (scope : String) → scoped_usage e uid scope ≡ 0) uids

  reset_members-IsFresh :
      (all uids : List ℕ) (e : Engine M)
      → ((j : ℕ) → contains uids j ≡ true → contains all j ≡ true)
      → IsFresh (reset_members e all) uids
  reset_members-IsFresh all [] e sub = tt
  reset_members-IsFresh all (u ∷ us) e sub = (
    (λ scope.
        scoped_usage-reset_members all e u scope ∙ rw (sub u (ground (arith, eqb_iff u u))) refl),
    reset_members-IsFresh all us e (λ j h. sub j (ground (arith, h))),
  )

  sum_fresh :
      (e : Engine M) (uids : List ℕ) (scope : String)
      → IsFresh e uids
      → sum_u64 (map (λ u. scoped_usage e u scope) uids) ≡ 0
  sum_fresh e [] scope h = refl
  sum_fresh e (u ∷ us) scope h = rw (h.0 scope, sum_fresh e us scope h.1) refl

  abbrev uncooled : Engine M → String → Engine M
  uncooled e gid = record e { group_cooldown_until = remove e.group_cooldown_until gid }

  -- The engine behind a cooldown of the pool that has run out.
  abbrev served : Engine M → String → GroupRule → Engine M
  served e gid g = reset_members (uncooled e gid) (member_uids e g.members)

  served-IsFresh :
      (e : Engine M) (gid : String) (g : GroupRule)
      → IsFresh (served e gid g) (member_uids e g.members)
  served-IsFresh e gid g =
      reset_members-IsFresh (member_uids e g.members) (member_uids e g.members) (uncooled e gid)
        (λ j h. h)

  member_uids-served :
      (e : Engine M) (gid : String) (g : GroupRule)
      → member_uids (served e gid g) g.members ≡ member_uids e g.members
  unfolding member_uids
  member_uids-served e gid g =
      ap (λ (uid_of : Map String ℕ). filter_map (get uid_of) g.members)
        (uid_of-reset_members (member_uids e g.members) (uncooled e gid))

  pool_used-served :
      (e : Engine M) (gid : String) (g : GroupRule) → pool_used (served e gid g) g ≡ 0
  unfolding pooled_usage
  pool_used-served e gid g =
      ap
        (λ (us : List ℕ).
          sum_u64 (map (λ u. scoped_usage (served e gid g) u g.rules.duration.scope) us))
        (member_uids-served e gid g)
      ∙ sum_fresh (served e gid g) (member_uids e g.members) g.rules.duration.scope
          (served-IsFresh e gid g)

  start_under :
      (e : Engine M) (gid : String) (g : GroupRule) (now : ℕ)
      → pool_used e g < pool_limit g
      → start_group_cooldown e gid g now ≡ e
  unfolding start_group_cooldown
  start_under e gid g now h = elim (Bool-cases (leb (pool_limit g) (pool_used e g))) [
    | inl over ↦ absurd (ground arith)
    | inr under ↦ rw under refl
  ]

  maintain_group_cooldown-served :
      (e : Engine M) (gid : String) (g : GroupRule) (now t : ℕ)
      → 0 < g.rules.duration.limit_minutes
      → get e.group_cooldown_until gid ≡ some t
      → ltb now t ≡ false
      → maintain_group_cooldown e gid g now ≡ served e gid g
  unfolding maintain_group_cooldown after_group_deadline
  maintain_group_cooldown-served e gid g now t lim at over =
      rw (at, over)
        (start_under (served e gid g) gid g now (omega (arith, pool_used-served e gid g)))

  maintain_group_cooldown-running :
      (e : Engine M) (gid : String) (g : GroupRule) (now t : ℕ)
      → get e.group_cooldown_until gid ≡ some t
      → ltb now t ≡ true
      → maintain_group_cooldown e gid g now ≡ e
  unfolding maintain_group_cooldown after_group_deadline
  maintain_group_cooldown-running e gid g now t at running = rw (at, running) refl

  maintain_group_cooldown-free :
      (e : Engine M) (gid : String) (g : GroupRule) (now : ℕ)
      → get e.group_cooldown_until gid ≡ none
      → maintain_group_cooldown e gid g now ≡ start_group_cooldown e gid g now
  unfolding maintain_group_cooldown after_group_deadline
  maintain_group_cooldown-free e gid g now free = rw free refl

  -- What the start of a cooldown depends on and what it leaves.
  abbrev pub IsStart : Engine M → Engine M → String → GroupRule → ℕ → Type 0
  IsStart e e' gid g now =
      (get e'.group_cooldown_until gid ≡ (
        if leb (pool_limit g) (pool_used e g)
        then some (now + g.rules.duration.freeze_minutes * 60)
        else none))
      × (e'.usage_seconds ≡ e.usage_seconds)
      × (e'.usage_fg ≡ e.usage_fg)

  start_group_cooldown-IsStart :
      (e : Engine M) (gid : String) (g : GroupRule) (now : ℕ)
      → now + g.rules.duration.freeze_minutes * 60 < 18446744073709551616
      → get e.group_cooldown_until gid ≡ none
      → IsStart e (start_group_cooldown e gid g now) gid g now
  unfolding start_group_cooldown
  start_group_cooldown-IsStart e gid g now fits free =
      elim (Bool-cases (leb (pool_limit g) (pool_used e g))) [
        | inr under ↦ rw under (free, refl, refl)
        | inl over ↦ rw over (
          ground (
            arith,
            get-insert e.group_cooldown_until gid gid
                (u64 (now + g.rules.duration.freeze_minutes * 60)),
            ==_refl gid,
          ),
          refl,
          refl,
        )
      ]

  -- The cycle: a cooldown that runs changes nothing; one that has run out is removed, and the usage of
  -- each member starts again at 0; and without one, a cooldown starts exactly if the pool has reached
  -- its limit.
  abbrev pub IsPoolCycle : Engine M → Engine M → String → GroupRule → ℕ → Type 0
  IsPoolCycle e e' gid g now =
      ((t : ℕ) × (get e.group_cooldown_until gid ≡ some t) × (now < t) × (e' ≡ e))
      ⊎ ((t : ℕ) × (get e.group_cooldown_until gid ≡ some t)
          × (t ≤ now)
          × ((get e'.group_cooldown_until gid ≡ none) × IsFresh e' (member_uids e g.members)))
      ⊎ ((get e.group_cooldown_until gid ≡ none) × IsStart e e' gid g now)

  -- The maintenance of a pool with a cooldown: a cooldown that runs changes nothing. One that has run
  -- out is removed, and the usage of each installed member starts again at 0 under every scope.
  -- Without one, a cooldown until the end of the freeze starts exactly if the members' usage together
  -- reaches the limit, and no usage changes. Afterwards either a deadline lies ahead or the usage
  -- counted over all members is below the limit. The limit and the freeze are positive, and the
  -- deadline does not wrap around.
  pub maintain_group_cooldown-IsPoolCycle :
      (e : Engine M) (gid : String) (g : GroupRule) (now : ℕ)
      → 0 < g.rules.duration.limit_minutes
      → 0 < g.rules.duration.freeze_minutes
      → now + g.rules.duration.freeze_minutes * 60 < 18446744073709551616
      → IsPoolCycle e (maintain_group_cooldown e gid g now) gid g now
        × IsPoolSettled (maintain_group_cooldown e gid g now) gid g now
  maintain_group_cooldown-IsPoolCycle e gid g now lim frz fits = (
    cycle (get e.group_cooldown_until gid) refl,
    maintain_group_cooldown-IsPoolSettled gid g now frz fits e,
  )
    where
      cycle :
          (o : Option ℕ)
          → get e.group_cooldown_until gid ≡ o
          → IsPoolCycle e (maintain_group_cooldown e gid g now) gid g now
      cycle none free = inr (
          inr (
            free,
            subst (λ (e' : Engine M). IsStart e e' gid g now)
                (sym (maintain_group_cooldown-free e gid g now free))
                (start_group_cooldown-IsStart e gid g now fits free),
          ))
      cycle (some t) at = elim (Bool-cases (ltb now t)) [
        | inl running ↦
            inl (t, at, ground arith, maintain_group_cooldown-running e gid g now t at running)
        | inr over ↦ inr (
            inl (
              t,
              at,
              ground arith,
              subst
                  (λ (e' : Engine M).
                    (get e'.group_cooldown_until gid ≡ none) × IsFresh e' (member_uids e g.members))
                  (sym (maintain_group_cooldown-served e gid g now t lim at over))
                  (
                    ap (λ (m : Map String ℕ). get m gid)
                          (reset_members-deadlines gid g now frz fits (uncooled e gid)
                            (member_uids e g.members))
                        ∙ ground (arith, get-remove e.group_cooldown_until gid gid, ==_refl gid),
                    served-IsFresh e gid g,
                  ),
            ))
      ]
