-- ===== src/Wake.antt =====
-- The wake scheduler of daemon/src/engine.rs: `enabled_sets`, `WakeInputs` and `next_wake_secs`.
pub mod Bounds
pub mod Quiet
pub mod Sets
use ningshi.Prelude.{
  ℕ, ◌+◌, ◌-◌, ◌*◌, ◌%◌, min, max, Bool, true, List, [], ◌∷◌, ◌++◌, map, Option, none, some, ltb,
  filter, if◌then◌else◌, String,
}
use ningshi.Prelude.Map.{Map, values}
use ningshi.Rules.{TimeWindow, RuleSet, AppRule, GroupRule, Rules}
use ningshi.Window.{window_edge_secs}

abbrev pub active_tick_secs : ℕ
active_tick_secs = 15

abbrev pub sweep_tick_secs : ℕ
sweep_tick_secs = 60

abbrev pub idle_tick_secs : ℕ
idle_tick_secs = 300

unfoldable pub app_sets : List AppRule → List RuleSet
app_sets apps = map (λ (a : AppRule). a.rules) (filter (λ (a : AppRule). a.enabled) apps)

unfoldable pub group_sets : List GroupRule → List RuleSet
group_sets groups = map (λ (g : GroupRule). g.rules) (filter (λ (g : GroupRule). g.enabled) groups)

-- The rule sets of the enabled apps, then those of the enabled groups.
unfoldable pub enabled_sets : Rules → List RuleSet
unfolding app_sets group_sets values
enabled_sets r = app_sets (values r.apps) ++ group_sets (values r.groups)

pub record WakeInputs : Type 0 where
  pub rules : Rules
  pub any_blocked : Bool
  pub expiries : List ℕ
  pub now_epoch : ℕ
  pub now_min : ℕ
  pub weekday : ℕ
  pub sec_in_min : ℕ

-- `edge.map_or(s, |b| b.min(s))`, where the window has an edge.
abbrev pub nearer : Option ℕ → Option ℕ → Option ℕ
nearer edge none = edge
nearer none (some s) = some s
nearer (some b) (some s) = some (min b s)

-- The loop over the windows of one rule set.
unfoldable pub windows_edge : WakeInputs → Option ℕ → List TimeWindow → Option ℕ
windows_edge i edge [] = edge
windows_edge i edge (w ∷ ws) =
    windows_edge i (nearer edge (window_edge_secs w i.now_min i.weekday i.sec_in_min)) ws

-- What one rule set makes of `secs`.
unfoldable pub set_secs : ℕ → RuleSet → ℕ
set_secs secs set =
    let limited = if ltb 0 set.duration.limit_minutes then min secs active_tick_secs else secs in
    if set.lock_block then min limited active_tick_secs else limited

-- The loop over the rule sets: `secs` and `edge`.
unfoldable pub sets_secs : ℕ → List RuleSet → ℕ
unfolding set_secs
sets_secs secs [] = secs
sets_secs secs (set ∷ sets) = sets_secs (set_secs secs set) sets

unfoldable pub sets_edge : WakeInputs → Option ℕ → List RuleSet → Option ℕ
unfolding windows_edge
sets_edge i edge [] = edge
sets_edge i edge (set ∷ sets) = sets_edge i (windows_edge i edge set.time_windows.windows) sets

abbrev pub cap_edge : ℕ → Option ℕ → ℕ
cap_edge secs none = secs
cap_edge secs (some s) = min secs s

-- The loop over the deadlines.
unfoldable pub expiries_secs : ℕ → ℕ → List ℕ → ℕ
expiries_secs now_epoch secs [] = secs
expiries_secs now_epoch secs (t ∷ ts) =
    expiries_secs now_epoch (if ltb now_epoch t then min secs (t - now_epoch) else secs) ts

unfoldable pub to_midnight : WakeInputs → ℕ
to_midnight i = (1440 - i.now_min) * 60 - i.sec_in_min

unfoldable pub next_wake_secs : WakeInputs → ℕ
unfolding sets_secs sets_edge expiries_secs to_midnight
next_wake_secs i =
    let swept = if i.any_blocked then min idle_tick_secs sweep_tick_secs else idle_tick_secs in
    let sets = enabled_sets i.rules in
    let edged = cap_edge (sets_secs swept sets) (sets_edge i none sets) in
    let expired = expiries_secs i.now_epoch edged i.expiries in
    max (min expired (max (to_midnight i) 1)) 1
