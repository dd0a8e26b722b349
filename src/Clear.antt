-- ===== src/Clear.antt =====
-- daemon/src/clear.rs, and `kill_pid_if_uid` of daemon/src/proc.rs: every process of some uids is
-- signalled. What the kernel answers is the argument `Procs`; pids are the positive `i32`s.
pub mod Safety
pub mod Complete
use ningshi.Prelude.{
  ℕ, String, Bool, true, false, ◌&&◌, List, [], ◌∷◌, ◌++◌, Option, none, some, ltb, filter,
  contains, length, if◌then◌else◌, nat_key, Key, ◌==◌,
}
use ningshi.Prelude.Map.{Map, insert}

-- One pass over the processes: the pids that the cgroup of a uid lists (`none`: no such file), the
-- numeric entries of /proc (`none`: not readable), the owner of a pid during the walk and again
-- just before the signal, and whether opening a pidfd and signalling through it succeed.
pub record Procs : Type 0 where
  pub cgroup : ℕ → Option (List ℕ)
  pub proc_pids : Option (List ℕ)
  pub uid_at_walk : ℕ → Option ℕ
  pub uid_at_kill : ℕ → Option ℕ
  pub pidfd_open : ℕ → Bool
  pub send_signal : ℕ → Bool

-- The pids that `cgroup_pids` returns: those above 1.
unfoldable pub cgroup_pids : Procs → ℕ → Option (List ℕ)
cgroup_pids p uid = elim (p.cgroup uid) [
  | none ↦ none
  | some pids ↦ some (filter (λ pid. ltb 1 pid) pids)
]

-- `targets.insert(pid, uid)` for each pid.
unfoldable pub add_targets : Map ℕ ℕ → List ℕ → ℕ → Map ℕ ℕ
add_targets targets [] uid = targets
add_targets targets (pid ∷ pids) uid = add_targets (insert targets pid uid) pids uid

-- The loop over the uids: the targets from cgroups, and the uids that have none.
unfoldable pub cgroup_targets : Procs → List ℕ → Map ℕ ℕ → Map ℕ ℕ
unfolding cgroup_pids add_targets
cgroup_targets p [] targets = targets
cgroup_targets p (uid ∷ uids) targets = elim (cgroup_pids p uid) [
  | none ↦ cgroup_targets p uids targets
  | some pids ↦ cgroup_targets p uids (add_targets targets pids uid)
]

unfoldable pub missing_uids : Procs → List ℕ → List ℕ
unfolding cgroup_pids
missing_uids p [] = []
missing_uids p (uid ∷ uids) =
    let rest = missing_uids p uids in
    elim (cgroup_pids p uid) [ none ↦ uid ∷ rest | some pids ↦ rest ]

-- One entry of /proc.
unfoldable pub walk_one : Procs → List ℕ → ℕ → Map ℕ ℕ → Map ℕ ℕ
walk_one p missing pid targets =
    if ltb 1 pid
    then elim (p.uid_at_walk pid) [
      | none ↦ targets
      | some uid ↦ if contains missing uid then insert targets pid uid else targets
    ]
    else targets

unfoldable pub walk : Procs → List ℕ → List ℕ → Map ℕ ℕ → Map ℕ ℕ
unfolding walk_one
walk p missing [] targets = targets
walk p missing (pid ∷ pids) targets = walk p missing pids (walk_one p missing pid targets)

-- `fs::read_dir("/proc")`, when it is needed.
unfoldable pub walk_proc : Procs → List ℕ → Map ℕ ℕ → Map ℕ ℕ
unfolding walk
walk_proc p [] targets = targets
walk_proc p (uid ∷ missing) targets = elim (p.proc_pids) [
  | none ↦ targets
  | some pids ↦ walk p (uid ∷ missing) pids targets
]

unfoldable pub targets_of : Procs → List ℕ → Map ℕ ℕ
unfolding cgroup_targets missing_uids walk_proc
targets_of p uids = walk_proc p (missing_uids p uids) (cgroup_targets p uids [])

-- proc.rs: `true` when a signal was delivered.
unfoldable pub kill_pid_if_uid : Procs → ℕ → ℕ → Bool
kill_pid_if_uid p pid uid = elim (p.uid_at_kill pid) [
  | none ↦ false
  | some owner ↦ if owner == uid then p.pidfd_open pid && p.send_signal pid else false
]

-- The pids, with their uids, that a signal is delivered to.
unfoldable pub signalled : Procs → Map ℕ ℕ → Map ℕ ℕ
unfolding kill_pid_if_uid
signalled p [] = []
signalled p ((pid, uid) ∷ targets) =
    if kill_pid_if_uid p pid uid then (pid, uid) ∷ signalled p targets else signalled p targets

-- What `kill_uids` delivers; it returns the number of these. No uids, no pass over /proc.
unfoldable pub kill_uids : Procs → List ℕ → Map ℕ ℕ
unfolding targets_of signalled
kill_uids p uids = signalled p (targets_of p uids)

unfoldable pub kill_uid : Procs → ℕ → Map ℕ ℕ
unfolding kill_uids
kill_uid p uid = kill_uids p (uid ∷ [])
