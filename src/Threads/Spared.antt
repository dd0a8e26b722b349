-- ===== src/Threads/Spared.antt =====
-- No interleaving of the threads hits a system uid.
use mathlib.Core.Path.{subst}
use ningshi.Prelude.{
  ℕ, ◌≤◌, ◌<◌, ◌≡◌, refl, sym, ap, ◌∙◌, ◌⊎◌, inl, inr, Bool, true, false, List, [], ◌∷◌, Option,
  none, some, All, arith, eqb, ltb, xor, contains, nat_key, Bool-cases, Option-cases, ==_refl,
  eqb_iff,
}
use ningshi.Prelude.Map.{Map, get, contains_key}
use ningshi.Rules.{Serde}
use ningshi.Clear.{Procs}
use ningshi.Gate.{BlockMap, set_blocked}
use ningshi.Gate.Mirror.{contains-set_blocked}
use ningshi.Gate.Killer.{Pending, Sight, Killer, examine}
use ningshi.Gate.Killer.Scan.{get_elem?}
use ningshi.Gate.Killer.Scan.Once.{is_shot, examine-signalled}
use ningshi.Gate.Killer.Checks.{may_kill_iff, is_shot-may_kill}
use ningshi.Engine.{Engine}
use ningshi.Engine.Reload.{Files}
use ningshi.Engine.Transitions.{Run, Outcome, cleaned, switch, transition, release_one}
use ningshi.Engine.Transitions.Frame.{cleaned-keep}
use ningshi.Engine.Tick.{Readings, World, refresh, ready, tick_plan, finish_tick}
use ningshi.Engine.Tick.Enforces.{tick_plan-IsSilent}
use ningshi.Engine.Tick.Frame.{refresh-keep, ready-keep, finish_tick-keep}
use ningshi.Engine.Tick.View.{view, view-OutlivesTick}
use ningshi.Socket.{Parsed, Around}
use ningshi.Socket.Block.{view-handle}
use ningshi.Daemon.{serve}
use ningshi.Threads.{
  Threads, Phase, outside, switching, releasing, take_item, received, receive, looked_at_entry,
  look_at_entry, begun, begin_tick, stepped, advance, Step, event, message, look, request, begin,
  ticking, Steps, here, next,
}

-- The mirror has no system uid.
abbrev Spares : {M : Type 0} → Engine M → Type 0
Spares e = (j : ℕ) → j < 10000 → contains e.gate.blocked_set j ≡ false

-- What is left to be switched are uids of apps.
abbrev IsForApps : Phase → Type 0
IsForApps outside = Unit
IsForApps (switching r want left) = All (λ (kv : ℕ × Bool). 10000 ≤ kv.0) left
IsForApps (releasing r want left) = Unit

record IsSpared {M : Type 0} (t : Threads M) : Type 0 where
  mirror : Spares t.world.run.eng
  planned : IsForApps t.phase
  shots : All (λ (p : Pending). 10000 ≤ p.uid) t.killer.signalled

All-of_silent :
    (want : Map ℕ Bool)
    → ((j : ℕ) → j < 10000 → get want j ≡ none)
    → All (λ (kv : ℕ × Bool). 10000 ≤ kv.0) want
unfolding get
All-of_silent [] h = tt
All-of_silent ((uid, on) ∷ want) h = (high, All-of_silent want rest)
  where
    high : 10000 ≤ uid
    high = elim (Bool-cases (ltb uid 10000)) [
      | inl low ↦ cc (rw (==_refl uid) at (h uid (ground arith)))
      | inr enough ↦ ground arith
    ]

    rest : (j : ℕ) → j < 10000 → get want j ≡ none
    rest j low = elim (Bool-cases (eqb uid j)) [
      | inl same ↦ absurd (omega (arith, high, (eqb_iff uid j).0 same))
      | inr other ↦ rw other at (h j low)
    ]

-- What is shot is on the list as the killer sees it.
shots_examine :
    (s : Sight) (p : Pending) (k : Killer)
    → ((j : ℕ) → j < 10000 → contains s.blocked_set j ≡ false)
    → All (λ (q : Pending). 10000 ≤ q.uid) k.signalled
    → All (λ (q : Pending). 10000 ≤ q.uid) (examine s p k).0.signalled
shots_examine s p k unlisted h = rw (examine-signalled s p k) (elim (Bool-cases (is_shot s p)) [
  | inr missed ↦ rw missed h
  | inl hit ↦ rw hit (
    elim (Bool-cases (ltb p.uid 10000)) [
      | inl low ↦
          cc (((may_kill_iff s p).0 (is_shot-may_kill s p hit)).0, unlisted p.uid (ground arith))
      | inr enough ↦ ground arith
    ],
    h,
  )
])

module _ {M : Type 0} where
  Spares-of_view : (e e' : Engine M) → view e' ≡ view e → Spares e → Spares e'
  Spares-of_view e e' same h =
      subst (λ (v : M × List ℕ × List ℕ). (j : ℕ) → j < 10000 → contains v.1 j ≡ false) (sym same) h

  module _ (bpf : BlockMap M) where
    switch-Spares :
        (uid : ℕ) (on : Bool) (run : Run M)
        → (10000 ≤ uid) ⊎ (on ≡ false)
        → Spares run.eng
        → Spares (switch bpf uid on run).0.eng
    unfolding switch
    switch-Spares uid on run fine h = elim (Option-cases (set_blocked bpf run.eng.gate uid on)) [
      | inl failed ↦ rw (failed, switch) h
      | inr (g, set) ↦
          rw (set, switch)
            λ j low.
              contains-set_blocked bpf run.eng.gate g uid on j set ∙ ground (arith, h j low, fine)
    ]

    transition-Spares :
        (snap : ℕ → Procs) (uid : ℕ) (on : Bool) (run : Run M)
        → 10000 ≤ uid
        → Spares run.eng
        → Spares (transition bpf snap uid on run).0.eng
    unfolding transition
    transition-Spares snap uid on run app h =
        let kept : Spares (cleaned snap uid on run).eng =
          cleaned-keep Spares (λ e c p. p) snap uid on run h in
        elim (Bool-cases (xor on (contains run.eng.blocked uid))) [
          | inl differs ↦ rw differs (switch-Spares uid on (cleaned snap uid on run) (inl app) kept)
          | inr same ↦ rw same kept
        ]

    release_one-Spares :
        (want : Map ℕ Bool) (uid : ℕ) (run : Run M)
        → Spares run.eng
        → Spares (release_one bpf want uid run).0.eng
    unfolding release_one
    release_one-Spares want uid run h = elim (Bool-cases (contains_key want uid)) [
      | inl named ↦ rw named h
      | inr unnamed ↦ rw unnamed (switch-Spares uid false run (inr refl) h)
    ]

    stepped-IsSpared :
        (t : Threads M) (phase : Phase) (o : Outcome M)
        → Spares o.0.eng
        → IsForApps phase
        → All (λ (p : Pending). 10000 ≤ p.uid) t.killer.signalled
        → IsSpared (stepped t phase o)
    stepped-IsSpared t phase (run, true) h k shots = record {
      mirror = h;
      planned = k;
      shots = shots;
    }
    stepped-IsSpared t phase (run, false) h k shots = record {
      mirror = h;
      planned = tt;
      shots = shots;
    }

    -- `phase` is that of `t`.
    advance-IsSpared :
        (t : Threads M) (phase : Phase)
        → IsForApps phase
        → IsSpared t
        → IsSpared (advance bpf phase t)
    unfolding advance
    advance-IsSpared t outside k h = h
    advance-IsSpared t (switching r want ((uid, on) ∷ left)) k h =
        stepped-IsSpared t (switching r want left) (transition bpf r.snap uid on t.world.run)
          (transition-Spares r.snap uid on t.world.run k.0 h.mirror) k.1 h.shots
    advance-IsSpared t (switching r want []) k h = record {
      mirror = h.mirror;
      planned = tt;
      shots = h.shots;
    }
    advance-IsSpared t (releasing r want (uid ∷ left)) k h =
        stepped-IsSpared t (releasing r want left) (release_one bpf want uid t.world.run)
          (release_one-Spares want uid t.world.run h.mirror) tt h.shots
    advance-IsSpared t (releasing r want []) k h = record {
      mirror =
          Spares-of_view t.world.run.eng (finish_tick r t.world).run.eng
            (finish_tick-keep (λ (x : Engine M). view x ≡ view t.world.run.eng)
              (view-OutlivesTick _) r t.world refl)
            h.mirror;
      planned = tt;
      shots = h.shots;
    }

  begun-IsSpared :
      (r : Readings) (t : Threads M) (o : (Engine M × Files) × Bool)
      → view o.0.0 ≡ view t.world.run.eng
      → IsSpared t
      → IsSpared (begun r t o)
  begun-IsSpared r t ((e, files), false) same h = record {
    mirror = Spares-of_view t.world.run.eng e same h.mirror;
    planned = tt;
    shots = h.shots;
  }
  begun-IsSpared r t ((e, files), true) same h = record {
    mirror =
        Spares-of_view t.world.run.eng (ready r e)
          (ready-keep (λ (x : Engine M). view x ≡ view t.world.run.eng) (view-OutlivesTick _) r e
            same)
          h.mirror;
    planned = All-of_silent (tick_plan r e).want (tick_plan-IsSilent r e);
    shots = h.shots;
  }

  begin_tick-IsSpared :
      (serde : Serde) (r : Readings) (t : Threads M) → IsSpared t → IsSpared (begin_tick serde r t)
  unfolding begin_tick
  begin_tick-IsSpared serde r t h =
      begun-IsSpared r t (refresh serde r t.world)
        (refresh-keep (λ (x : Engine M). view x ≡ view t.world.run.eng) (view-OutlivesTick _) serde
          r t.world refl)
        h

  received-IsSpared :
      (pidfd : Option ℕ) (now : ℕ) (t : Threads M) (queue : Map ℕ ℕ)
      → IsSpared t
      → IsSpared (received pidfd now t queue)
  received-IsSpared pidfd now t [] h = h
  received-IsSpared pidfd now t ((pid, uid) ∷ rest) h = record {
    mirror = h.mirror;
    planned = h.planned;
    shots = h.shots;
  }

  looked_at_entry-IsSpared :
      (i : ℕ) (s : Sight) (t : Threads M) (o : Option Pending)
      → s.blocked_set ≡ t.world.run.eng.gate.blocked_set
      → IsSpared t
      → IsSpared (looked_at_entry i s t o)
  looked_at_entry-IsSpared i s t none same h = h
  looked_at_entry-IsSpared i s t (some p) same h = record {
    mirror = h.mirror;
    planned = h.planned;
    shots =
        shots_examine s p (record (t.killer) { kill_count = t.world.run.eng.kill_count })
          (λ j low. ap (λ us. contains us j) same ∙ h.mirror j low) h.shots;
  }

  module _ (bpf : BlockMap M) (from_slice : List ℕ → Parsed) (serde : Serde) where
    serve-view :
        (around : Around) (client : Option (Option (List ℕ))) (w : World M)
        → view (serve from_slice serde around client w).0.run.eng ≡ view w.run.eng
    unfolding serve
    serve-view around none w = refl
    serve-view around (some buf) w = view-handle w.run.eng serde around w.files from_slice buf

    Step-IsSpared : {t u : Threads M} → Step bpf from_slice serde t u → IsSpared t → IsSpared u
    unfolding take_item receive look_at_entry
    Step-IsSpared (event t item now) h = record {
      mirror = h.mirror;
      planned = h.planned;
      shots = h.shots;
    }
    Step-IsSpared (message t pidfd now) h = received-IsSpared pidfd now t t.queue h
    Step-IsSpared (look t i s same) h =
        looked_at_entry-IsSpared i s t (get_elem? t.pending i) same h
    Step-IsSpared (request t around client free) h = record {
      mirror =
          Spares-of_view t.world.run.eng (serve from_slice serde around client t.world).0.run.eng
            (serve-view around client t.world) h.mirror;
      planned = h.planned;
      shots = h.shots;
    }
    Step-IsSpared (begin t r free) h = begin_tick-IsSpared serde r t h
    Step-IsSpared (ticking t) h = advance-IsSpared bpf t t.phase h.planned h

    Steps-IsSpared : {t u : Threads M} → IsSpared t → Steps bpf from_slice serde t u → IsSpared u
    Steps-IsSpared h here = h
    Steps-IsSpared h (next so_far step) = Step-IsSpared step (Steps-IsSpared h so_far)

    -- From a start with nothing blocked, nothing signalled and no tick under way, however the threads
    -- take turns: at no moment does the list that the killer reads hold a system uid, and no process
    -- of a system uid is ever signalled by the killer.
    pub no_system_uid :
        (t u : Threads M)
        → t.world.run.eng.gate.blocked_set ≡ []
        → t.phase ≡ outside
        → t.killer.signalled ≡ []
        → Steps bpf from_slice serde t u
        → ((j : ℕ) → j < 10000 → contains u.world.run.eng.gate.blocked_set j ≡ false)
          × All (λ (p : Pending). 10000 ≤ p.uid) u.killer.signalled
    no_system_uid t u empty free fresh steps =
        let h =
          Steps-IsSpared
            (record {
              mirror = λ j low. ap (λ us. contains us j) empty;
              planned = rw free tt;
              shots = rw fresh tt;
            })
            steps in
        (h.mirror, h.shots)
