-- ===== src/Engine/Tick/Frame/Accounts.antt =====
-- What the part of a tick before the plan keeps: the new day, the counting, the cooldowns, the screen.
use ningshi.Prelude.{
  ℕ, ◌*◌, inl, inr, String, Bool, ◌&&◌, List, [], ◌∷◌, ◌++◌, Option, none, some, ltb, leb, nat_key,
  string_key, Bool-cases,
}
use ningshi.Prelude.Map.{Map, get, values}
use ningshi.Rules.{DurationRule, GroupRule}
use ningshi.Engine.{Engine, Moment}
use ningshi.Engine.Usage.{scoped_usage, pooled_usage, member_uids}
use ningshi.Engine.Cooldown.{
  reset_usage, start_uid_cooldown, after_uid_deadline, maintain_uid_cooldown, reset_members,
  start_group_cooldown, after_group_deadline, maintain_group_cooldown,
}
use ningshi.Engine.Reload.Frame.{if-keep}
use ningshi.Engine.Saved.{reset_day}
use ningshi.Engine.Counting.{
  needs_screen, needs_usage, elapsed_since, count_one, count_all, count_usage, duration_targets,
}
use ningshi.Engine.Tick.{
  Readings, app_jobs, member_jobs, group_jobs, do_uid_jobs, do_group_jobs, maintain_cooldowns,
  poll_screen, prepare,
}

-- Every assignment of that part keeps the predicate.
pub record OutlivesAccounts {ℓ} {M : Type 0} (P : Engine M → Type ℓ) : Type ℓ where
  pub uid_cooldowns : (e : Engine M) (c : Map ℕ ℕ) → P e → P (record e { cooldown_until = c })
  pub group_cooldowns :
      (e : Engine M) (c : Map String ℕ) → P e → P (record e { group_cooldown_until = c })
  pub usage :
      (e : Engine M) (all fg : Map ℕ ℕ) → P e → P (record e { usage_seconds = all; usage_fg = fg })
  pub day : (e : Engine M) (m : Moment) → P e → P (reset_day m e)
  pub counted : (e : Engine M) (t : Option ℕ) → P e → P (record e { last_tick = t })
  pub screen : (e : Engine M) (off : Option Bool) → P e → P (record e { screen_off = off })

module _ {ℓ} {M : Type 0} (P : Engine M → Type ℓ) (out : OutlivesAccounts P) where
  start_uid_cooldown-keep :
      (e : Engine M) (uid : ℕ) (d : DurationRule) (now : ℕ)
      → P e
      → P (start_uid_cooldown e uid d now)
  unfolding start_uid_cooldown
  start_uid_cooldown-keep e uid d now h =
      if-keep P (leb (d.limit_minutes * 60) (scoped_usage e uid d.scope)) _ e
        (out.uid_cooldowns e _ h) h

  after_uid_deadline-keep :
      (o : Option ℕ) (e : Engine M) (uid : ℕ) (d : DurationRule) (now : ℕ)
      → P e
      → P (after_uid_deadline o e uid d now)
  unfolding after_uid_deadline reset_usage
  after_uid_deadline-keep none e uid d now h = start_uid_cooldown-keep e uid d now h
  after_uid_deadline-keep (some t) e uid d now h =
      if-keep P (ltb now t) e _ h
        (start_uid_cooldown-keep _ uid d now (out.usage _ _ _ (out.uid_cooldowns e _ h)))

  reset_members-keep : (uids : List ℕ) (e : Engine M) → P e → P (reset_members e uids)
  unfolding reset_members reset_usage
  reset_members-keep [] e h = h
  reset_members-keep (uid ∷ uids) e h =
      reset_members-keep uids (reset_usage e uid) (out.usage e _ _ h)

  start_group_cooldown-keep :
      (e : Engine M) (gid : String) (g : GroupRule) (now : ℕ)
      → P e
      → P (start_group_cooldown e gid g now)
  unfolding start_group_cooldown
  start_group_cooldown-keep e gid g now h =
      if-keep P
        (leb (g.rules.duration.limit_minutes * 60) (pooled_usage e g g.rules.duration.scope)) _ e
        (out.group_cooldowns e _ h) h

  after_group_deadline-keep :
      (o : Option ℕ) (e : Engine M) (gid : String) (g : GroupRule) (now : ℕ)
      → P e
      → P (after_group_deadline o e gid g now)
  unfolding after_group_deadline
  after_group_deadline-keep none e gid g now h = start_group_cooldown-keep e gid g now h
  after_group_deadline-keep (some t) e gid g now h = if-keep P (ltb now t) e _ h (
      start_group_cooldown-keep _ gid g now
        (reset_members-keep (member_uids e g.members) _ (out.group_cooldowns e _ h)))

  do_uid_jobs-keep :
      (now : ℕ) (jobs : List (ℕ × DurationRule)) (e : Engine M) → P e → P (do_uid_jobs now jobs e)
  unfolding do_uid_jobs maintain_uid_cooldown
  do_uid_jobs-keep now [] e h = h
  do_uid_jobs-keep now ((uid, d) ∷ jobs) e h =
      do_uid_jobs-keep now jobs (maintain_uid_cooldown e uid d now)
        (after_uid_deadline-keep (get e.cooldown_until uid) e uid d now h)

  do_group_jobs-keep :
      (now : ℕ) (jobs : Map String GroupRule) (e : Engine M) → P e → P (do_group_jobs now jobs e)
  unfolding do_group_jobs maintain_group_cooldown
  do_group_jobs-keep now [] e h = h
  do_group_jobs-keep now ((gid, g) ∷ jobs) e h =
      do_group_jobs-keep now jobs (maintain_group_cooldown e gid g now)
        (after_group_deadline-keep (get e.group_cooldown_until gid) e gid g now h)

  maintain_cooldowns-keep : (now : ℕ) (e : Engine M) → P e → P (maintain_cooldowns now e)
  unfolding maintain_cooldowns
  maintain_cooldowns-keep now e h =
      do_group_jobs-keep now (group_jobs e.rules.groups) _ (
        do_uid_jobs-keep now (app_jobs e e.rules.apps ++ member_jobs e (values e.rules.groups)) e h)

  count_all-keep :
      (live fg : List ℕ) (elapsed : ℕ) (uids : List ℕ) (e : Engine M)
      → P e
      → P (count_all live fg elapsed uids e)
  unfolding count_all count_one
  count_all-keep live fg elapsed [] e h = h
  count_all-keep live fg elapsed (uid ∷ uids) e h =
      count_all-keep live fg elapsed uids _ (out.usage e _ _ h)

  count_usage-keep :
      (snapshot : Bool → List ℕ → List ℕ × List ℕ) (now : ℕ) (e : Engine M)
      → P e
      → P (count_usage snapshot now e)
  unfolding count_usage
  count_usage-keep snapshot now e h =
      let begun = out.counted e (some now) h in
      if-keep P (ltb 0 (elapsed_since e.last_tick now) && needs_usage e) _ _
        (count_all-keep _ _ _ (duration_targets e) _ begun) begun

  poll_screen-keep : (off : Bool) (e : Engine M) → P e → P (poll_screen off e).0
  unfolding poll_screen
  poll_screen-keep off e h = elim (Bool-cases (needs_screen e)) [
    | inl asked ↦ rw asked (out.screen e (some off) h)
    | inr idle ↦ rw idle h
  ]

  pub prepare-keep : (r : Readings) (e : Engine M) → P e → P (prepare r e).0
  unfolding prepare
  prepare-keep r e h = poll_screen-keep r.screen_is_off _ (
      maintain_cooldowns-keep r.now.now_epoch _
        (count_usage-keep r.snapshot r.now.now_epoch _ (out.day e r.now h)))
