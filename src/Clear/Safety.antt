-- ===== src/Clear/Safety.antt =====
-- Who is hit by a sweep.
use ningshi.Prelude.{
  ℕ, ◌<◌, ◌≡◌, ap, sym, ◌∙◌, inl, inr, true, List, [], ◌∷◌, some, arith, ltb, filter, contains,
  Occurs, All, nat_key, eqb, eqb_iff, Bool-cases, Option-cases,
}
use ningshi.Prelude.Map.{Map, insert, remove}
use ningshi.Clear.{
  Procs, cgroup_pids, add_targets, cgroup_targets, missing_uids, walk_one, walk, walk_proc,
  targets_of, kill_pid_if_uid, signalled, kill_uids,
}

All-remove : (P : ℕ × ℕ → Type 0) (m : Map ℕ ℕ) (k : ℕ) → All P m → All P (remove m k)
unfolding remove
All-remove P [] k h = tt
All-remove P ((j, v) ∷ m) k h = ground (arith, All-remove P m k h.1)

All-insert :
    (P : ℕ × ℕ → Type 0) (m : Map ℕ ℕ) (k v : ℕ) → P (k, v) → All P m → All P (insert m k v)
unfolding insert
All-insert P m k v p h = (p, All-remove P m k h)

-- What may be a target: an ordinary process, under one of the uids.
abbrev IsTarget : List ℕ → ℕ × ℕ → Type 0
IsTarget uids (pid, uid) = (1 < pid) × (contains uids uid ≡ true)

add_targets-All :
    (P : ℕ × ℕ → Type 0) (m : Map ℕ ℕ) (pids : List ℕ) (uid : ℕ)
    → All (λ pid. P (pid, uid)) pids
    → All P m
    → All P (add_targets m pids uid)
unfolding add_targets
add_targets-All P m [] uid h k = k
add_targets-All P m (pid ∷ pids) uid h k =
    add_targets-All P (insert m pid uid) pids uid h.1 (All-insert P m pid uid h.0 k)

filter-IsTarget :
    (uids : List ℕ) (uid : ℕ) (pids : List ℕ)
    → contains uids uid ≡ true
    → All (λ pid. IsTarget uids (pid, uid)) (filter (λ pid. ltb 1 pid) pids)
filter-IsTarget uids uid [] h = tt
filter-IsTarget uids uid (pid ∷ pids) h = ground (arith, filter-IsTarget uids uid pids h)

cgroup_pids-IsTarget :
    (p : Procs) (uids : List ℕ) (uid : ℕ) (pids : List ℕ)
    → contains uids uid ≡ true
    → cgroup_pids p uid ≡ some pids
    → All (λ pid. IsTarget uids (pid, uid)) pids
unfolding cgroup_pids
cgroup_pids-IsTarget p uids uid pids h e = elim (Option-cases (p.cgroup uid)) [
  | inl none_listed ↦ cc (rw (none_listed, cgroup_pids) at e)
  | inr (listed, at) ↦
      let same : filter (λ pid. ltb 1 pid) listed ≡ pids =
        ground (arith, rw (at, cgroup_pids) at e) in
      rw (← same) (filter-IsTarget uids uid listed h)
]

module _ (p : Procs) (uids : List ℕ) where
  cgroup_targets-All :
      (us : List ℕ) (m : Map ℕ ℕ)
      → ((u : ℕ) → contains us u ≡ true → contains uids u ≡ true)
      → All (IsTarget uids) m
      → All (IsTarget uids) (cgroup_targets p us m)
  unfolding cgroup_targets
  cgroup_targets-All [] m sub h = h
  cgroup_targets-All (u ∷ us) m sub h = elim (Option-cases (cgroup_pids p u)) [
    | inl none_listed ↦
        rw (none_listed, cgroup_targets) (cgroup_targets-All us m (λ v k. ground (arith, sub v)) h)
    | inr (pids, listed) ↦
        rw (listed, cgroup_targets)
          (cgroup_targets-All us (add_targets m pids u) (λ v k. ground (arith, sub v))
            (add_targets-All (IsTarget uids) m pids u
              (cgroup_pids-IsTarget p uids u pids (ground (arith, sub u, eqb_iff u u)) listed) h))
  ]

  missing_uids-contains :
      (us : List ℕ) (u : ℕ) → contains (missing_uids p us) u ≡ true → contains us u ≡ true
  unfolding missing_uids
  missing_uids-contains [] u h = h
  missing_uids-contains (v ∷ us) u h = elim (Option-cases (cgroup_pids p v)) [
    | inl none_listed ↦
        ground (arith, missing_uids-contains us u, rw (none_listed, missing_uids) at h)
    | inr (pids, listed) ↦
        ground (arith, missing_uids-contains us u, rw (listed, missing_uids) at h)
  ]

  walk_one-All :
      (missing : List ℕ) (pid : ℕ) (m : Map ℕ ℕ)
      → ((u : ℕ) → contains missing u ≡ true → contains uids u ≡ true)
      → All (IsTarget uids) m
      → All (IsTarget uids) (walk_one p missing pid m)
  unfolding walk_one
  walk_one-All missing pid m sub h = elim (Bool-cases (ltb 1 pid)) [
    | inr low ↦ rw low h
    | inl ordinary ↦ elim (Option-cases (p.uid_at_walk pid)) [
      | inl gone ↦ rw (ordinary, gone) h
      | inr (u, owned) ↦ elim (Bool-cases (contains missing u)) [
        | inl wanted ↦
            rw (ordinary, owned, wanted)
              (All-insert (IsTarget uids) m pid u (ground arith, sub u wanted) h)
        | inr other ↦ rw (ordinary, owned, other) h
      ]
    ]
  ]

  walk-All :
      (missing : List ℕ)
      → ((u : ℕ) → contains missing u ≡ true → contains uids u ≡ true)
      → (pids : List ℕ) (m : Map ℕ ℕ) → All (IsTarget uids) m
      → All (IsTarget uids) (walk p missing pids m)
  unfolding walk
  walk-All missing sub [] m h = h
  walk-All missing sub (pid ∷ pids) m h =
      walk-All missing sub pids (walk_one p missing pid m) (walk_one-All missing pid m sub h)

  walk_proc-All :
      (missing : List ℕ) (m : Map ℕ ℕ)
      → ((u : ℕ) → contains missing u ≡ true → contains uids u ≡ true)
      → All (IsTarget uids) m
      → All (IsTarget uids) (walk_proc p missing m)
  unfolding walk_proc
  walk_proc-All [] m sub h = h
  walk_proc-All (u ∷ missing) m sub h = elim (Option-cases p.proc_pids) [
    | inl unreadable ↦ rw (unreadable, walk_proc) h
    | inr (pids, read) ↦ rw (read, walk_proc) (walk-All (u ∷ missing) sub pids m h)
  ]

  targets_of-All : All (IsTarget uids) (targets_of p uids)
  unfolding targets_of
  targets_of-All =
      walk_proc-All (missing_uids p uids) (cgroup_targets p uids []) (missing_uids-contains uids)
        (cgroup_targets-All uids [] (λ u h. h) tt)

All-Occurs : (P : ℕ × ℕ → Type 0) (m : Map ℕ ℕ) (x : ℕ × ℕ) → All P m → Occurs x m → P x
All-Occurs P [] x h at = elim at [ ]
All-Occurs P (y ∷ m) x h (inl e) = rw e at h.0
All-Occurs P (y ∷ m) x h (inr at) = All-Occurs P m x h.1 at

signalled-Occurs :
    (p : Procs) (m : Map ℕ ℕ) (pid uid : ℕ)
    → Occurs (pid, uid) (signalled p m)
    → Occurs (pid, uid) m × (kill_pid_if_uid p pid uid ≡ true)
unfolding signalled
signalled-Occurs p [] pid uid at = elim at [ ]
signalled-Occurs p ((q, u) ∷ m) pid uid at = elim (Bool-cases (kill_pid_if_uid p q u)) [
  | inl sent ↦ here sent (signalled-Occurs p m pid uid) (rw sent at at)
  | inr spared ↦
      let (there, sent) = signalled-Occurs p m pid uid (rw spared at at) in (inr there, sent)
]
  where
    here :
        kill_pid_if_uid p q u ≡ true
        → (Occurs (pid, uid) (signalled p m)
            → Occurs (pid, uid) m × (kill_pid_if_uid p pid uid ≡ true))
        → Occurs (pid, uid) ((q, u) ∷ signalled p m)
        → Occurs (pid, uid) ((q, u) ∷ m) × (kill_pid_if_uid p pid uid ≡ true)
    here sent later (inl e) = (inl e, ap (λ (x : ℕ × ℕ). kill_pid_if_uid p x.0 x.1) (sym e) ∙ sent)
    here sent later (inr r) = let (there, done) = later r in (inr there, done)

kill_pid_if_uid-owner :
    (p : Procs) (pid uid : ℕ) → kill_pid_if_uid p pid uid ≡ true → p.uid_at_kill pid ≡ some uid
unfolding kill_pid_if_uid
kill_pid_if_uid-owner p pid uid h = elim (Option-cases (p.uid_at_kill pid)) [
  | inl gone ↦ cc (rw (gone, kill_pid_if_uid) at h)
  | inr (owner, at) ↦ elim (Bool-cases (eqb owner uid)) [
    | inl same ↦ at ∙ ap some ((eqb_iff owner uid).0 same)
    | inr other ↦ cc (rw (at, kill_pid_if_uid, other) at h)
  ]
]

-- Every process that a sweep signals is an ordinary one (pid above 1), was looked for under one of
-- the uids given, and still belonged to that uid when it was checked before the signal.
pub kill_uids_safe :
    (p : Procs) (uids : List ℕ) (pid uid : ℕ)
    → Occurs (pid, uid) (kill_uids p uids)
    → (1 < pid) × (contains uids uid ≡ true) × (p.uid_at_kill pid ≡ some uid)
unfolding kill_uids
kill_uids_safe p uids pid uid at =
    let (there, sent) = signalled-Occurs p (targets_of p uids) pid uid at in
    let (ordinary, given) =
      All-Occurs (IsTarget uids) (targets_of p uids) (pid, uid) (targets_of-All p uids) there in
    (ordinary, given, kill_pid_if_uid-owner p pid uid sent)
