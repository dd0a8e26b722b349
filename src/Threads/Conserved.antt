-- ===== src/Threads/Conserved.antt =====
-- Every process that the event thread queues is dealt with once.
use ningshi.Prelude.{
  ℕ, ◌+◌, ◌≤◌, ◌≡◌, refl, sym, ap, ap₂, ◌∙◌, Bool, true, false, ◌&&◌, List, [], ◌∷◌, ◌++◌, Option,
  none, some, arith, eqb, length, if◌then◌else◌,
}
use ningshi.Prelude.Map.{Map}
use ningshi.Rules.{Serde}
use ningshi.Gate.{BlockMap}
use ningshi.Gate.Events.{handle_item}
use ningshi.Gate.Killer.{Pending, Sight, Killer, examine, by_score, try_kill, kill_if_blocked}
use ningshi.Gate.Killer.Scan.{get_elem?, init, last, swap_remove}
use ningshi.Gate.Killer.Scan.Once.{is_shot, examine-signalled}
use ningshi.Gate.Killer.Scan.Moves.{rotated, init-last, swap_remove-append, get_elem?-split}
use ningshi.Engine.{Engine}
use ningshi.Engine.Reload.{Files}
use ningshi.Engine.Transitions.{Outcome, transition, release_one}
use ningshi.Engine.Tick.{refresh, Readings}
use ningshi.Socket.{Parsed}
use ningshi.Threads.{
  Threads, Phase, outside, switching, releasing, take_item, received, receive, looked_at_entry,
  look_at_entry, begun, begin_tick, stepped, advance, Step, event, message, look, request, begin,
  ticking, Steps, here, next,
}

module _ (pid uid : ℕ) where
  abbrev one : ℕ → ℕ → ℕ
  one p u = if eqb p pid && eqb u uid then 1 else 0

  -- How often the process stands in a list of messages, and in one of entries.
  abbrev pub count : Map ℕ ℕ → ℕ
  count [] = 0
  count ((p, u) ∷ xs) = one p u + count xs

  abbrev pub count_entries : List Pending → ℕ
  count_entries [] = 0
  count_entries (p ∷ ps) = one p.pid p.uid + count_entries ps

  count-append : (xs ys : Map ℕ ℕ) → count (xs ++ ys) ≡ count xs + count ys
  count-append [] ys = omega arith
  count-append ((p, u) ∷ xs) ys = omega (arith, count-append xs ys)

  count_entries-append :
      (xs ys : List Pending) → count_entries (xs ++ ys) ≡ count_entries xs + count_entries ys
  count_entries-append [] ys = omega arith
  count_entries-append (p ∷ xs) ys = omega (arith, count_entries-append xs ys)

  count_entries-rotated : (xs : List Pending) → count_entries (rotated xs) ≡ count_entries xs
  count_entries-rotated [] = refl
  count_entries-rotated (x ∷ xs) =
      omega (
        arith,
        count_entries-append (init x xs) (last x xs ∷ []),
        ap count_entries (init-last x xs),
      )

  swap_remove_split :
      (done rest : List Pending) (p : Pending)
      → count_entries (swap_remove (done ++ p ∷ rest) (length done)) + one p.pid p.uid
        ≡ count_entries (done ++ p ∷ rest)
  swap_remove_split done rest p = rw (swap_remove-append done p rest) (
      omega (
        arith,
        count_entries-append done (rotated rest),
        count_entries-append done (p ∷ rest),
        count_entries-rotated rest,
      ))

  count_entries-swap_remove :
      (xs : List Pending) (i : ℕ) (p : Pending)
      → get_elem? xs i ≡ some p
      → count_entries (swap_remove xs i) + one p.pid p.uid ≡ count_entries xs
  count_entries-swap_remove xs i p h =
      let (done, rest, e, at) = get_elem?-split xs i p h in
      ap₂ (λ ys j. count_entries (swap_remove ys j) + one p.pid p.uid) e at
      ∙ swap_remove_split done rest p
      ∙ ap count_entries (sym e)

examine-closed :
    (s : Sight) (p : Pending) (k : Killer)
    → (examine s p k).0.closed ≡ (if (examine s p k).1 then k.closed else p ∷ k.closed)
unfolding examine by_score try_kill kill_if_blocked
examine-closed s p k = ground arith

examine_shot :
    (s : Sight) (p : Pending) (k : Killer) → is_shot s p ≡ true → (examine s p k).1 ≡ false
unfolding examine by_score is_shot
examine_shot s p k h = ground arith

module _ {M : Type 0} (pid uid : ℕ) where
  -- Whatever was queued is in the channel, pending, closed or gone; and what was signalled was
  -- closed.
  record IsConserved (t : Threads M) : Type 0 where
    total :
        count pid uid t.sent
        ≡ count pid uid t.queue
          + count_entries pid uid t.pending
          + count_entries pid uid t.killer.closed
          + count pid uid t.gone
    few : count_entries pid uid t.killer.signalled ≤ count_entries pid uid t.killer.closed

  take_item-IsConserved :
      (item : List ℕ) (now : ℕ) (t : Threads M) → IsConserved t → IsConserved (take_item item now t)
  unfolding take_item
  take_item-IsConserved item now t h =
      let new = (handle_item item now (record { recent = t.recent; sent = [] })).sent in
      record {
        total =
            omega
              (arith, h.total, count-append pid uid t.sent new, count-append pid uid t.queue new);
        few = h.few;
      }

  received-IsConserved :
      (pidfd : Option ℕ) (now : ℕ) (t : Threads M) (queue : Map ℕ ℕ)
      → t.queue ≡ queue
      → IsConserved t
      → IsConserved (received pidfd now t queue)
  received-IsConserved pidfd now t [] same h = h
  received-IsConserved (some fd) now t ((p, u) ∷ rest) same h =
      let entry : Pending = record { pidfd = fd; pid = p; uid = u; started = now } in
      record {
        total = omega (
          arith,
          h.total,
          ap (count pid uid) same,
          count_entries-append pid uid t.pending (entry ∷ []),
          count-append pid uid t.gone [],
        );
        few = h.few;
      }
  received-IsConserved none now t ((p, u) ∷ rest) same h = record {
    total = omega (
      arith,
      h.total,
      ap (count pid uid) same,
      count_entries-append pid uid t.pending [],
      count-append pid uid t.gone ((p, u) ∷ []),
    );
    few = h.few;
  }

  looked_at_entry-IsConserved :
      (i : ℕ) (s : Sight) (t : Threads M) (o : Option Pending)
      → get_elem? t.pending i ≡ o
      → IsConserved t
      → IsConserved (looked_at_entry i s t o)
  looked_at_entry-IsConserved i s t none found h = h
  looked_at_entry-IsConserved i s t (some p) found h =
      let k = record (t.killer) { kill_count = t.world.run.eng.kill_count } in
      record {
        total = ground (
          arith,
          h.total,
          examine-closed s p k,
          count_entries-swap_remove pid uid t.pending i p found,
        );
        few =
            ground
              (arith, h.few, examine-closed s p k, examine-signalled s p k, examine_shot s p k);
      }

  stepped-IsConserved :
      (t : Threads M) (phase : Phase) (o : Outcome M)
      → IsConserved t
      → IsConserved (stepped t phase o)
  stepped-IsConserved t phase (run, true) h = record { total = h.total; few = h.few }
  stepped-IsConserved t phase (run, false) h = record { total = h.total; few = h.few }

  begun-IsConserved :
      (r : Readings) (t : Threads M) (o : (Engine M × Files) × Bool)
      → IsConserved t
      → IsConserved (begun r t o)
  begun-IsConserved r t ((e, files), false) h = record { total = h.total; few = h.few }
  begun-IsConserved r t ((e, files), true) h = record { total = h.total; few = h.few }

  module _ (bpf : BlockMap M) where
    advance-IsConserved :
        (t : Threads M) (phase : Phase) → IsConserved t → IsConserved (advance bpf phase t)
    unfolding advance
    advance-IsConserved t outside h = h
    advance-IsConserved t (switching r want ((j, on) ∷ left)) h =
        stepped-IsConserved t (switching r want left) (transition bpf r.snap j on t.world.run) h
    advance-IsConserved t (switching r want []) h = record { total = h.total; few = h.few }
    advance-IsConserved t (releasing r want (j ∷ left)) h =
        stepped-IsConserved t (releasing r want left) (release_one bpf want j t.world.run) h
    advance-IsConserved t (releasing r want []) h = record { total = h.total; few = h.few }

    module _ (from_slice : List ℕ → Parsed) (serde : Serde) where
      Step-IsConserved :
          {t u : Threads M} → Step bpf from_slice serde t u → IsConserved t → IsConserved u
      unfolding receive look_at_entry begin_tick
      Step-IsConserved (event t item now) h = take_item-IsConserved item now t h
      Step-IsConserved (message t pidfd now) h = received-IsConserved pidfd now t t.queue refl h
      Step-IsConserved (look t i s same) h =
          looked_at_entry-IsConserved i s t (get_elem? t.pending i) refl h
      Step-IsConserved (request t around client free) h = record { total = h.total; few = h.few }
      Step-IsConserved (begin t r free) h = begun-IsConserved r t (refresh serde r t.world) h
      Step-IsConserved (ticking t) h = advance-IsConserved t t.phase h

      Steps-IsConserved :
          {t u : Threads M} → IsConserved t → Steps bpf from_slice serde t u → IsConserved u
      Steps-IsConserved h here = h
      Steps-IsConserved h (next so_far step) = Step-IsConserved step (Steps-IsConserved h so_far)

-- Nothing is queued, pending or done yet.
abbrev pub IsIdle : {M : Type 0} → Threads M → Type 0
IsIdle t =
    (t.sent ≡ [])
    × (t.queue ≡ [])
    × (t.pending ≡ [])
    × (t.gone ≡ [])
    × (t.killer.closed ≡ [])
    × (t.killer.signalled ≡ [])

module _ {M : Type 0} (bpf : BlockMap M) (from_slice : List ℕ → Parsed) (serde : Serde) where
  -- From a start with nothing queued, however the threads take turns: each time that the event thread
  -- queued a process, it is still in the channel, or pending, or its descriptor was closed, or it had
  -- none any more; exactly one of these, and no process is signalled more often than it was queued.
  pub queued_once :
      (t u : Threads M) (pid uid : ℕ)
      → IsIdle t
      → Steps bpf from_slice serde t u
      → (count pid uid u.sent
          ≡ count pid uid u.queue
            + count_entries pid uid u.pending
            + count_entries pid uid u.killer.closed
            + count pid uid u.gone)
        × (count_entries pid uid u.killer.signalled ≤ count pid uid u.sent)
  queued_once t u pid uid (a, b, c, d, e, f) steps =
      let h =
        Steps-IsConserved pid uid bpf from_slice serde
          (record { total = rw (a, b, c, d, e) refl; few = rw (e, f) (omega arith) }) steps in
      (h.total, omega (arith, h.total, h.few))
