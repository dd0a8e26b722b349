-- ===== src/Engine/Tick/Guarded.antt =====
-- The packages that stay reachable whatever the rules say.
use mathlib.Core.Path.{subst}
use ningshi.Prelude.{
  ℕ, ◌≡◌, sym, ap, ◌∙◌, inl, inr, ◌⊎◌, String, Bool, true, false, ◌||◌, Option, none, some, arith,
  contains, ltb, or_else, split_once, nat_key, string_key,
}
use ningshi.Prelude.Map.{Map, get}
use ningshi.Rules.{Serde}
use ningshi.Gate.{BlockMap, set_block_index}
use ningshi.Engine.{Engine}
use ningshi.Engine.Packages.{is_time, drop_dead}
use ningshi.Engine.Plan.{is_protected, after_colon}
use ningshi.Engine.Plan.Spared.{IsSpared, make_plan-IsSilent}
use ningshi.Engine.Protected.{protected_packages, contains-resolve_protected}
use ningshi.Engine.Reload.{
  Files, System, refresh_settings, with_uids, finish_reload, reload, reload_if_changed,
}
use ningshi.Engine.Reload.Frame.{if-keep, reset_toggled-keep}
use ningshi.Engine.Saved.{reset_day}
use ningshi.Engine.Transitions.{apply_plan}
use ningshi.Engine.Transitions.Exact.{is_blocked}
use ningshi.Engine.Transitions.Frame.{apply_plan-keep}
use ningshi.Engine.Tick.{Readings, World, prepare, tick_plan, refresh, ready, enforce, tick}
use ningshi.Engine.Tick.Enforces.{is_blocked-tick}
use ningshi.Engine.Tick.Frame.Accounts.{OutlivesAccounts, prepare-keep}
use ningshi.Engine.Tick.Frame.{OutlivesTick, synced-keep, refresh-keep, ready-keep, finish-keep}

module _ {M : Type 0} where
  -- The engine knows the packages that must never be blocked.
  abbrev pub IsGuarded : Engine M → Type 0
  IsGuarded e =
      (pkg : String) → contains protected_packages pkg ≡ true → contains e.protected pkg ≡ true

  pub IsGuarded-OutlivesTick : OutlivesTick {M = M} IsGuarded
  unfolding drop_dead reset_day set_block_index
  IsGuarded-OutlivesTick = record {
    reloading = record {
      rule_set = λ e r s h. h;
      settings = λ e tz ime home h. contains-resolve_protected ime home;
      uids = λ e m t h. h;
      uid_cooldowns = λ e c h. h;
      group_cooldowns = λ e c h. h;
    };
    seen = λ e t h. h;
    usage = λ e all fg h. h;
    extension = λ e x h. h;
    dead = λ e uids h. h;
    day = λ e m h. if-keep IsGuarded (is_time e.last_day m.today) e _ h h;
    counted = λ e t h. h;
    screen = λ e off h. h;
    named = λ e names h. h;
    kept_house = λ e sweep save interval h. h;
  }

  with_uids-IsGuarded :
      (resolved : Option (Map String ℕ)) (sys : System) (flags : Map String Bool) (e : Engine M)
      (files : Files)
      → IsGuarded e
      → IsGuarded (with_uids resolved sys flags e files).0.0
  unfolding with_uids finish_reload
  with_uids-IsGuarded none sys flags e files h = h
  with_uids-IsGuarded (some m) sys flags e files h =
      reset_toggled-keep IsGuarded (λ x c p. p) (λ x c p. p) flags _ h

  -- Any reload guards, even one that fails.
  reload-IsGuarded :
      (serde : Serde) (sys : System) (e : Engine M) (files : Files)
      → IsGuarded (reload serde sys e files).0.0
  unfolding reload refresh_settings
  reload-IsGuarded serde sys e files =
      with_uids-IsGuarded sys.resolved sys _ _ _
        (contains-resolve_protected sys.input_method sys.launcher)

  -- The tick reads the rule file again.
  abbrev pub Reloads : Readings → Engine M → Type 0
  Reloads r e = (t : ℕ) × (r.sys.rules_mtime ≡ some t) × (is_time e.last_mtime t ≡ false)

  reload_if_changed_due :
      (serde : Serde) (sys : System) (e : Engine M) (files : Files) (t : ℕ)
      → sys.rules_mtime ≡ some t
      → is_time e.last_mtime t ≡ false
      → reload_if_changed serde sys e files ≡ reload serde sys e files
  unfolding reload_if_changed
  reload_if_changed_due serde sys e files t there changed = ground (arith, there, changed)

  pub refresh-IsGuarded :
      (serde : Serde) (r : Readings) (w : World M)
      → IsGuarded w.run.eng ⊎ Reloads r w.run.eng
      → IsGuarded (refresh serde r w).0.0
  unfolding refresh
  refresh-IsGuarded serde r w (inl h) = refresh-keep IsGuarded IsGuarded-OutlivesTick serde r w h
  refresh-IsGuarded serde r w (inr (t, there, changed)) =
      synced-keep IsGuarded IsGuarded-OutlivesTick r
        (reload_if_changed serde r.sys w.run.eng w.files)
        (subst (λ (o : (Engine M × Files) × Bool). IsGuarded o.0.0)
          (sym (reload_if_changed_due serde r.sys w.run.eng w.files t there changed))
          (reload-IsGuarded serde r.sys w.run.eng w.files))

  -- A uid that only packages on the list resolve to.
  abbrev pub IsVital : Engine M → ℕ → Type 0
  IsVital e uid =
      (key : String)
      → get e.uid_of key ≡ some uid
      → contains protected_packages (after_colon key (split_once b':' key)) ≡ true

  IsVital-IsSpared : (e : Engine M) (uid : ℕ) → IsGuarded e → IsVital e uid → IsSpared e uid
  unfolding is_protected
  IsVital-IsSpared e uid guarded vital key at =
      rw (guarded (after_colon key (split_once b':' key)) (vital key at)) (or_true (ltb uid 10000))
    where
      or_true : (b : Bool) → (b || true) ≡ true
      or_true b = ground arith

  -- The uids of the packages are not touched between the refresh and the plan, nor is the list.
  IsVital-OutlivesAccounts : (uid : ℕ) → OutlivesAccounts {M = M} (λ e. IsGuarded e × IsVital e uid)
  unfolding reset_day
  IsVital-OutlivesAccounts uid = record {
    uid_cooldowns = λ e c h. h;
    group_cooldowns = λ e c h. h;
    usage = λ e all fg h. h;
    day = λ e m h. if-keep (λ e. IsGuarded e × IsVital e uid) (is_time e.last_day m.today) e _ h h;
    counted = λ e t h. h;
    screen = λ e off h. h;
  }

  tick_plan-IsVital :
      (r : Readings) (e : Engine M) (uid : ℕ)
      → IsGuarded e
      → IsVital e uid
      → get (tick_plan r e).want uid ≡ none
  unfolding tick_plan
  tick_plan-IsVital r e uid guarded vital =
      let (guarded', vital') =
        prepare-keep (λ (x : Engine M). IsGuarded x × IsVital x uid) (IsVital-OutlivesAccounts uid)
          r e (guarded, vital) in
      make_plan-IsSilent (prepare r e).0 uid (IsVital-IsSpared (prepare r e).0 uid guarded' vital')
        r.now (prepare r e).1

  module _ (bpf : BlockMap M) where
    pub enforce-IsGuarded :
        (r : Readings) (w : World M) (o : (Engine M × Files) × Bool)
        → IsGuarded o.0.0
        → IsGuarded (enforce bpf r w o).0.run.eng
    unfolding enforce
    enforce-IsGuarded r w ((e, files), false) h = h
    enforce-IsGuarded r w ((e, files), true) h =
        let run = record (w.run) { eng = ready r e } in
        finish-keep IsGuarded IsGuarded-OutlivesTick r (record w { files = files })
          (apply_plan bpf r.snap (tick_plan r e).want run)
          (apply_plan-keep bpf IsGuarded (λ x c p. p) (λ x g b p. p) r.snap (tick_plan r e).want run
            (ready-keep IsGuarded IsGuarded-OutlivesTick r e h))

    -- After a tick that succeeds, and that reads the rule file again or finds that the engine knows
    -- the packages that must never be blocked: it knows them still, and a uid that only such packages
    -- have is not blocked, whatever the rules say.
    pub tick-IsGuarded :
        (serde : Serde) (r : Readings) (w : World M) (uid : ℕ)
        → IsGuarded w.run.eng ⊎ Reloads r w.run.eng
        → IsVital (refresh serde r w).0.0 uid
        → (tick bpf serde r w).1 ≡ true
        → IsGuarded (tick bpf serde r w).0.run.eng
          × (is_blocked bpf (tick bpf serde r w).0.run uid ≡ false)
    unfolding tick
    tick-IsGuarded serde r w uid known vital done =
        let guarded : IsGuarded (refresh serde r w).0.0 = refresh-IsGuarded serde r w known in
        (
          enforce-IsGuarded r w (refresh serde r w) guarded,
          is_blocked-tick bpf serde r w uid done
              ∙ ap (λ (v : Option Bool). or_else v false)
                  (tick_plan-IsVital r (refresh serde r w).0.0 uid guarded vital),
        )
