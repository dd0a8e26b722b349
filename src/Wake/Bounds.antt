-- ===== src/Wake/Bounds.antt =====
-- How long the scheduler may sleep at most.
use ningshi.Prelude.{
  ℕ, ◌+◌, ◌-◌, ◌*◌, ◌≤◌, ◌<◌, ◌≡◌, min, max, ◌⊎◌, inl, inr, true, List, [], ◌∷◌, Option, none, some,
  ltb, Occurs, arith, if◌then◌else◌, Bool-cases,
}
use ningshi.Rules.{TimeWindow, RuleSet}
use ningshi.Window.{window_edge_secs}
use ningshi.Wake.{
  WakeInputs, enabled_sets, nearer, windows_edge, set_secs, sets_secs, sets_edge, cap_edge,
  expiries_secs, to_midnight, next_wake_secs, active_tick_secs, sweep_tick_secs, idle_tick_secs,
}

set_secs-le : (secs : ℕ) (set : RuleSet) → set_secs secs set ≤ secs
unfolding set_secs
set_secs-le secs set = ground arith

sets_secs-le : (secs : ℕ) (sets : List RuleSet) → sets_secs secs sets ≤ secs
unfolding sets_secs
sets_secs-le secs [] = omega arith
sets_secs-le secs (set ∷ sets) =
    omega (arith, set_secs-le secs set, sets_secs-le (set_secs secs set) sets)

-- A rule set that needs a steady cadence.
abbrev pub IsActive : RuleSet → Type 0
IsActive set = (0 < set.duration.limit_minutes) ⊎ (set.lock_block ≡ true)

set_secs_active : (secs : ℕ) (set : RuleSet) → IsActive set → set_secs secs set ≤ active_tick_secs
unfolding set_secs
set_secs_active secs set h = ground arith

sets_secs_active :
    (secs : ℕ) (sets : List RuleSet) (set : RuleSet)
    → Occurs set sets
    → IsActive set
    → sets_secs secs sets ≤ active_tick_secs
unfolding sets_secs
sets_secs_active secs [] set at h = elim at [ ]
sets_secs_active secs (s ∷ sets) set (inl e) h =
    omega (arith, sets_secs-le (set_secs secs s) sets, set_secs_active secs s (rw e h))
sets_secs_active secs (s ∷ sets) set (inr at) h = sets_secs_active (set_secs secs s) sets set at h

-- The edge found so far only comes nearer.
abbrev pub AtMost : Option ℕ → ℕ → Type 0
AtMost none s = ⊥
AtMost (some b) s = b ≤ s

nearer-AtMost : (edge new : Option ℕ) (s : ℕ) → AtMost edge s → AtMost (nearer edge new) s
nearer-AtMost edge none s h = h
nearer-AtMost none (some n) s h = elim h [ ]
nearer-AtMost (some b) (some n) s h = omega arith

nearer_self : (edge : Option ℕ) (s : ℕ) → AtMost (nearer edge (some s)) s
nearer_self none s = omega arith
nearer_self (some b) s = omega arith

module _ (i : WakeInputs) where
  windows_edge-AtMost :
      (ws : List TimeWindow) (edge : Option ℕ) (s : ℕ)
      → AtMost edge s
      → AtMost (windows_edge i edge ws) s
  unfolding windows_edge
  windows_edge-AtMost [] edge s h = h
  windows_edge-AtMost (w ∷ ws) edge s h =
      let new = window_edge_secs w i.now_min i.weekday i.sec_in_min in
      windows_edge-AtMost ws (nearer edge new) s (nearer-AtMost edge new s h)

  windows_edge_found :
      (ws : List TimeWindow) (edge : Option ℕ) (w : TimeWindow) (s : ℕ)
      → Occurs w ws
      → window_edge_secs w i.now_min i.weekday i.sec_in_min ≡ some s
      → AtMost (windows_edge i edge ws) s
  unfolding windows_edge
  windows_edge_found [] edge w s at e = elim at [ ]
  windows_edge_found (v ∷ ws) edge w s (inl p) e =
      windows_edge-AtMost ws _ s (rw (p, e) (nearer_self edge s))
  windows_edge_found (v ∷ ws) edge w s (inr at) e = windows_edge_found ws _ w s at e

  sets_edge-AtMost :
      (sets : List RuleSet) (edge : Option ℕ) (s : ℕ)
      → AtMost edge s
      → AtMost (sets_edge i edge sets) s
  unfolding sets_edge
  sets_edge-AtMost [] edge s h = h
  sets_edge-AtMost (set ∷ sets) edge s h =
      sets_edge-AtMost sets _ s (windows_edge-AtMost set.time_windows.windows edge s h)

  sets_edge_found :
      (sets : List RuleSet) (edge : Option ℕ) (set : RuleSet) (w : TimeWindow) (s : ℕ)
      → Occurs set sets
      → Occurs w set.time_windows.windows
      → window_edge_secs w i.now_min i.weekday i.sec_in_min ≡ some s
      → AtMost (sets_edge i edge sets) s
  unfolding sets_edge
  sets_edge_found [] edge set w s at wat e = elim at [ ]
  sets_edge_found (t ∷ sets) edge set w s (inl p) wat e =
      sets_edge-AtMost sets _ s (windows_edge_found t.time_windows.windows edge w s (rw p wat) e)
  sets_edge_found (t ∷ sets) edge set w s (inr at) wat e = sets_edge_found sets _ set w s at wat e

cap_edge-le : (secs : ℕ) (edge : Option ℕ) (s : ℕ) → AtMost edge s → cap_edge secs edge ≤ s
cap_edge-le secs none s h = elim h [ ]
cap_edge-le secs (some b) s h = omega arith

cap_edge-le_secs : (secs : ℕ) (edge : Option ℕ) → cap_edge secs edge ≤ secs
cap_edge-le_secs secs none = omega arith
cap_edge-le_secs secs (some b) = omega arith

expiries_secs-le : (now : ℕ) (ts : List ℕ) (secs : ℕ) → expiries_secs now secs ts ≤ secs
unfolding expiries_secs
expiries_secs-le now [] secs = omega arith
expiries_secs-le now (t ∷ ts) secs =
    ground (arith, expiries_secs-le now ts (if ltb now t then min secs (t - now) else secs))

expiries_secs_due :
    (now : ℕ) (ts : List ℕ) (secs : ℕ) (t : ℕ)
    → Occurs t ts
    → now < t
    → now + expiries_secs now secs ts ≤ t
unfolding expiries_secs
expiries_secs_due now [] secs t at h = elim at [ ]
expiries_secs_due now (u ∷ ts) secs t (inl e) h =
    ground (arith, expiries_secs-le now ts (if ltb now u then min secs (u - now) else secs))
expiries_secs_due now (u ∷ ts) secs t (inr at) h = expiries_secs_due now ts _ t at h

module _ (i : WakeInputs) where
  -- The sleep before the last two bounds of the code.
  edged : ℕ
  edged =
      cap_edge (sets_secs (if i.any_blocked then 60 else 300) (enabled_sets i.rules))
        (sets_edge i none (enabled_sets i.rules))

  next_wake_secs-le : (b : ℕ) → 1 ≤ b → edged ≤ b → next_wake_secs i ≤ b
  unfolding next_wake_secs edged
  next_wake_secs-le b h k =
      ground (arith, expiries_secs-le i.now_epoch i.expiries edged, Bool-cases i.any_blocked)

  -- The interval to the next tick is at least a second and at most five minutes, and it ends at local
  -- midnight at the latest, or after the one second.
  pub next_wake_secs_range :
      (1 ≤ next_wake_secs i)
      × (next_wake_secs i ≤ idle_tick_secs)
      × (next_wake_secs i ≤ max ((1440 - i.now_min) * 60 - i.sec_in_min) 1)
  unfolding next_wake_secs to_midnight
  next_wake_secs_range = (omega arith, idle, omega arith)
    where
      idle : next_wake_secs i ≤ idle_tick_secs
      idle = next_wake_secs-le idle_tick_secs (omega arith) (
          unfold edged in
          ground (
            arith,
            cap_edge-le_secs (sets_secs (if i.any_blocked then 60 else 300) (enabled_sets i.rules))
                (sets_edge i none (enabled_sets i.rules)),
            sets_secs-le (if i.any_blocked then 60 else 300) (enabled_sets i.rules),
          ))

  -- While anything is blocked the sweep comes within a minute.
  pub next_wake_secs_swept : i.any_blocked ≡ true → next_wake_secs i ≤ sweep_tick_secs
  unfolding edged
  next_wake_secs_swept h = next_wake_secs-le sweep_tick_secs (omega arith) (
      ground (
        arith,
        cap_edge-le_secs (sets_secs (if i.any_blocked then 60 else 300) (enabled_sets i.rules))
            (sets_edge i none (enabled_sets i.rules)),
        sets_secs-le (if i.any_blocked then 60 else 300) (enabled_sets i.rules),
      ))

  -- While an enabled rule set limits usage or watches the screen, a tick comes within 15 seconds.
  next_wake_secs_active :
      (set : RuleSet)
      → Occurs set (enabled_sets i.rules)
      → IsActive set
      → next_wake_secs i ≤ active_tick_secs
  unfolding edged
  next_wake_secs_active set at h = next_wake_secs-le active_tick_secs (omega arith) (
      omega (
        arith,
        cap_edge-le_secs (sets_secs (if i.any_blocked then 60 else 300) (enabled_sets i.rules))
            (sets_edge i none (enabled_sets i.rules)),
        sets_secs_active (if i.any_blocked then 60 else 300) (enabled_sets i.rules) set at h,
      ))

  -- No extension and no cooldown that is still running ends while the daemon sleeps.
  pub next_wake_secs_due :
      (t : ℕ) → Occurs t i.expiries → i.now_epoch < t → i.now_epoch + next_wake_secs i ≤ t
  unfolding next_wake_secs edged
  next_wake_secs_due t at h =
      ground
        (arith, expiries_secs_due i.now_epoch i.expiries edged t at h, Bool-cases i.any_blocked)

  -- Nor does the sleep pass the edge of a window of an enabled rule set.
  pub next_wake_secs-le_edge :
      (set : RuleSet) (w : TimeWindow) (s : ℕ)
      → Occurs set (enabled_sets i.rules)
      → Occurs w set.time_windows.windows
      → window_edge_secs w i.now_min i.weekday i.sec_in_min ≡ some s
      → 1 ≤ s
      → next_wake_secs i ≤ s
  unfolding edged
  next_wake_secs-le_edge set w s at wat e h =
      next_wake_secs-le s h
        (cap_edge-le _ _ s (sets_edge_found i (enabled_sets i.rules) none set w s at wat e))
