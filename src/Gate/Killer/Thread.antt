-- ===== src/Gate/Killer/Thread.antt =====
-- One turn of the killer thread's outer loop: receive, then a pass over the pending entries.
use ningshi.Prelude.{
  ℕ, suc, ◌≡◌, refl, sym, ap, ◌∙◌, Bool, true, false, List, [], ◌∷◌, ◌++◌, Option, none, some,
  length, arith,
}
use mathlib.Core.List.{reverse, reverse-cons, append_assoc}
use ningshi.Gate.Killer.{Pending, Sight, Killer, count_kill}
use ningshi.Gate.Killer.Scan.{scan}
use ningshi.Gate.Killer.Scan.Once.{scan_once}

-- A queued pid and uid, with the descriptor that `pidfd_open` returned.
pub record Queued : Type 0 where
  pub pid : ℕ
  pub uid : ℕ
  pub pidfd : Option ℕ

-- What receiving returned: the first message and those that `try_recv` found, a timeout, or that
-- the sender is gone. The clock is read for each message; here once for all of them.
pub data Received : Type 0 where
  messages : List Queued → ℕ → Received
  timeout disconnected : Received

-- A process that has no descriptor any more is not queued.
abbrev pub pending_of : Queued → Option ℕ → ℕ → List Pending
pending_of q none now = []
pending_of q (some pidfd) now =
    record { pidfd = pidfd; pid = q.pid; uid = q.uid; started = now } ∷ []

unfoldable pub admit : List Pending → List Queued → ℕ → List Pending
admit pending [] now = pending
admit pending (q ∷ qs) now = admit (pending ++ pending_of q q.pidfd now) qs now

-- `pending.drain(..)` when the sender is gone.
unfoldable pub shutdown : List Pending → Killer → Killer
shutdown [] k = k
shutdown (p ∷ pending) k =
    shutdown pending
      (count_kill p.uid (record k { signalled = p ∷ k.signalled; closed = p ∷ k.closed }))

abbrev running : Option (List Pending × Killer) → Option (List Pending × Killer × Bool)
running none = none
running (some (pending, k)) = some (pending, k, false)

drained :
    (pending : List Pending) (k : Killer)
    → (shutdown pending k).signalled ≡ reverse pending ++ k.signalled
unfolding shutdown
drained [] k = refl
drained (p ∷ pending) k =
    drained pending _
    ∙ sym (
        ap (λ ps. ps ++ k.signalled) (reverse-cons p pending)
        ∙ append_assoc (reverse pending) (p ∷ []) k.signalled)

-- `true` at the end: the thread stops. The fuel is one more than the pass needs rounds.
unfoldable pub turn :
    (Pending → Sight) → Received → List Pending → Killer → Option (List Pending × Killer × Bool)
unfolding admit shutdown
turn look (messages qs now) pending k =
    running (scan (suc (length (admit pending qs now))) look 0 (admit pending qs now) k)
turn look timeout pending k = running (scan (suc (length pending)) look 0 pending k)
turn look disconnected pending k = some ([], shutdown pending k, true)

-- The sender's end of the channel is closed.
abbrev pub is_gone : Received → Bool
is_gone (messages qs now) = false
is_gone timeout = false
is_gone disconnected = true

pass_total :
    (look : Pending → Sight) (pending : List Pending) (k : Killer)
    → (left : List Pending) × (k' : Killer) × (running
          (scan (suc (length pending)) look 0 pending k)
        ≡ some (left, k', false))
pass_total look pending k =
    let (left, k', e, _, _) = scan_once (suc (length pending)) look pending k (omega arith) in
    (left, k', ap running e)

-- Every turn of the thread ends, whatever it receives and whatever it sees: the fuel that its pass
-- is given is enough. The thread stops exactly if the sender is gone.
turn_total :
    (look : Pending → Sight) (r : Received) (pending : List Pending) (k : Killer)
    → (left : List Pending) × (k' : Killer) × (turn look r pending k ≡ some (left, k', is_gone r))
unfolding turn
turn_total look (messages qs now) pending k = pass_total look (admit pending qs now) k
turn_total look timeout pending k = pass_total look pending k
turn_total look disconnected pending k = ([], shutdown pending k, refl)

-- When the sender is gone, every pending process is signalled, whatever the block list and the
-- names say by then.
pub signalled-shutdown :
    (look : Pending → Sight) (pending : List Pending) (k : Killer)
    → (k' : Killer) × (turn look disconnected pending k ≡ some ([], k', true))
      × (k'.signalled ≡ reverse pending ++ k.signalled)
unfolding turn
signalled-shutdown look pending k = (shutdown pending k, refl, drained pending k)
