-- ===== src/Gate/Killer.antt =====
-- The killer thread of daemon/src/gate.rs: `kill_if_blocked`, `identity_ok`, and the loop that
-- `Gate::start` spawns. What the thread sees of a process when its turn comes is one record,
-- `Sight`; the engine may change the mirror and the names between two turns.
pub mod Scan
pub mod Checks
pub mod Thread
use ningshi.Prelude.{
  ℕ, zero, suc, ◌+◌, String, Bool, true, false, not, ◌&&◌, List, [], ◌∷◌, ◌++◌, Option, none, some,
  leb, u64, or_else, contains, is_nil, if◌then◌else◌, nat_key, string_key, trim,
}
use ningshi.Prelude.Map.{Map, get, insert}
use ningshi.Prelude.Int.{ℤ, pos, negsuc, parse_i32}
use ningshi.Proc.{accepts, pkg_of_pid_wait}

abbrev pub timeout_ms : ℕ
timeout_ms = 300

abbrev pub identity_tries : ℕ
identity_tries = 20

-- `(pidfd, pid, uid, queued_at)`, with the time in milliseconds.
pub record Pending : Type 0 where
  pub pidfd : ℕ
  pub pid : ℕ
  pub uid : ℕ
  pub started : ℕ

-- Whether the descriptor says that the process is gone, the text of its `oom_score_adj`, the clock, the mirror of
-- the block map, the names blocked for each uid, and the command line at each retry.
pub record Sight : Type 0 where
  pub exited : Bool
  pub oom_score_adj : Option String
  pub now : ℕ
  pub blocked_set : List ℕ
  pub identity : Map ℕ (List String)
  pub reads : ℕ → Option String

-- `signalled` and `closed` are the pending entries whose descriptors were used, the last first.
pub record Killer : Type 0 where
  pub kill_count : Map ℕ ℕ
  pub kill_skipped : ℕ
  pub identity_skipped : ℕ
  pub signalled : List Pending
  pub closed : List Pending

-- `identity_ok` without the text for the log.
names_ok : Option (List String) → (ℕ → Option String) → Bool
names_ok none reads = false
names_ok (some names) reads =
    if is_nil names then false else accepts names (pkg_of_pid_wait reads names identity_tries)

unfoldable pub identity_ok : Sight → ℕ → Bool
unfolding names_ok
identity_ok s uid = names_ok (get s.identity uid) s.reads

-- The two checks of `kill_if_blocked`.
unfoldable pub may_kill : Sight → Pending → Bool
unfolding identity_ok
may_kill s p = contains s.blocked_set p.uid && identity_ok s p.uid

abbrev close : Pending → Killer → Killer
close p k = record k { closed = p ∷ k.closed }

unfoldable pub kill_if_blocked : Sight → Pending → Killer → Killer × Bool
unfolding identity_ok
kill_if_blocked s p k =
    if not (contains s.blocked_set p.uid)
    then (close p (record k { kill_skipped = u64 (k.kill_skipped + 1) }), false)
    else if not (identity_ok s p.uid)
    then (close p (record k { identity_skipped = u64 (k.identity_skipped + 1) }), false)
    else (close p (record k { signalled = p ∷ k.signalled }), true)

abbrev pub count_kill : ℕ → Killer → Killer
count_kill uid k = record k {
  kill_count = insert k.kill_count uid (u64 (or_else (get k.kill_count uid) 0 + 1));
}

-- `if kill_if_blocked(…) { counters += 1 }`
unfoldable pub try_kill : Sight → Pending → Killer → Killer
unfolding kill_if_blocked
try_kill s p k = let (k', done) = kill_if_blocked s p k in if done then count_kill p.uid k' else k'

abbrev trimmed_i32 : Option String → Option ℤ
trimmed_i32 none = none
trimmed_i32 (some text) = parse_i32 (trim text)

-- `none`: the file cannot be read, or holds no number.
unfoldable pub read_oom_score_adj : Option String → Option ℤ
unfolding parse_i32 trim
read_oom_score_adj text = trimmed_i32 text

abbrev pub is_zero : ℤ → Bool
is_zero (pos zero) = true
is_zero (pos (suc n)) = false
is_zero (negsuc n) = false

-- The `match` on the score; `true`: the entry stays.
unfoldable pub by_score : Option ℤ → Sight → Pending → Killer → Killer × Bool
unfolding try_kill
by_score none s p k = (close p k, false)
by_score (some adj) s p k =
    if is_zero adj
    then (try_kill s p k, false)
    else if leb (p.started + timeout_ms) s.now
    then (try_kill s p k, false)
    else (k, true)

-- One round of the inner loop.
unfoldable pub examine : Sight → Pending → Killer → Killer × Bool
unfolding by_score read_oom_score_adj
examine s p k =
    if s.exited then (close p k, false) else by_score (read_oom_score_adj s.oom_score_adj) s p k
