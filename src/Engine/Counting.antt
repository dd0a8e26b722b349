-- ===== src/Engine/Counting.antt =====
-- The usage accounting of `tick` in daemon/src/engine.rs, with `needs_usage`, `needs_live_scan`,
-- `needs_screen` and `duration_targets`. What `fg::uids_snapshot` reports is the argument
-- `snapshot`: from the need of a full scan and the uids looked for, those alive and in front.
pub mod Targets
pub mod Exact
use ningshi.Prelude.{
  ℕ, ◌+◌, ◌-◌, min, String, Bool, true, false, not, ◌&&◌, List, [], ◌∷◌, Option, none, some, any,
  ltb, eqb, u64, contains, or_else, if◌then◌else◌, nat_key, string_key, ◌==◌,
}
use ningshi.Prelude.Map.{Map, get, insert, values}
use ningshi.Prelude.Set
use ningshi.Rules.{RuleSet, AppRule, GroupRule}
use ningshi.Wake.{enabled_sets}
use ningshi.Engine.{Engine}
use ningshi.Engine.Usage.{member_uids}

abbrev pub max_tick_secs : ℕ
max_tick_secs = 60

-- `map_or(0, |t| now_epoch.saturating_sub(t)).min(MAX_TICK_SECS)`
unfoldable pub elapsed_since : Option ℕ → ℕ → ℕ
elapsed_since none now = 0
elapsed_since (some t) now = min (now - t) max_tick_secs

abbrev pub is_limited : RuleSet → Bool
is_limited s = ltb 0 s.duration.limit_minutes

-- `*map.entry(uid).or_insert(0) += elapsed`
unfoldable pub count_up : Map ℕ ℕ → ℕ → ℕ → Map ℕ ℕ
count_up m uid elapsed = insert m uid (u64 (or_else (get m uid) 0 + elapsed))

-- `out.insert(uid)` for each uid.
unfoldable pub insert_all : List ℕ → List ℕ → List ℕ
insert_all out [] = out
insert_all out (uid ∷ uids) = insert_all (Set.insert out uid) uids

abbrev pub insert_found : List ℕ → Option ℕ → List ℕ
insert_found out none = out
insert_found out (some uid) = Set.insert out uid

module _ {M : Type 0} where
  unfoldable pub needs_usage : Engine M → Bool
  needs_usage e = any is_limited (enabled_sets e.rules)

  unfoldable pub needs_live_scan : Engine M → Bool
  needs_live_scan e =
      any (λ (s : RuleSet). is_limited s && not (s.duration.scope == "foreground"))
        (enabled_sets e.rules)

  unfoldable pub needs_screen : Engine M → Bool
  needs_screen e = any (λ (s : RuleSet). s.lock_block) (enabled_sets e.rules)

  -- The loop over the apps, then the one over the groups.
  unfoldable pub app_targets : Engine M → Map String AppRule → List ℕ → List ℕ
  app_targets e [] out = out
  app_targets e ((key, app) ∷ apps) out =
      app_targets e apps
        (if app.enabled && is_limited app.rules then insert_found out (get e.uid_of key) else out)

  unfoldable pub group_targets : Engine M → List GroupRule → List ℕ → List ℕ
  unfolding insert_all member_uids
  group_targets e [] out = out
  group_targets e (g ∷ groups) out = group_targets e groups (
      if not g.enabled
      then out
      else if eqb g.rules.duration.limit_minutes 0
      then out
      else insert_all out (member_uids e g.members))

  unfoldable pub duration_targets : Engine M → List ℕ
  unfolding app_targets group_targets values
  duration_targets e = group_targets e (values e.rules.groups) (app_targets e e.rules.apps [])

  -- One target.
  unfoldable pub count_one : List ℕ → List ℕ → ℕ → ℕ → Engine M → Engine M
  unfolding count_up
  count_one live fg elapsed uid e = record e {
    usage_seconds =
        if contains live uid then count_up e.usage_seconds uid elapsed else e.usage_seconds;
    usage_fg = if contains fg uid then count_up e.usage_fg uid elapsed else e.usage_fg;
  }

  unfoldable pub count_all : List ℕ → List ℕ → ℕ → List ℕ → Engine M → Engine M
  unfolding count_one
  count_all live fg elapsed [] e = e
  count_all live fg elapsed (uid ∷ uids) e =
      count_all live fg elapsed uids (count_one live fg elapsed uid e)

  -- From `elapsed` on; `last_tick` moves in any case.
  unfoldable pub count_usage : (Bool → List ℕ → List ℕ × List ℕ) → ℕ → Engine M → Engine M
  unfolding elapsed_since needs_usage needs_live_scan duration_targets count_all
  count_usage snapshot now e =
      let elapsed = elapsed_since e.last_tick now in
      let e' = record e { last_tick = some now } in
      if ltb 0 elapsed && needs_usage e
      then (let (live, fg) = snapshot (needs_live_scan e) (duration_targets e) in
          count_all live fg elapsed (duration_targets e) e')
      else e'
