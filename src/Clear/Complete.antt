-- ===== src/Clear/Complete.antt =====
-- What a sweep does not miss.
use mathlib.Core.Path.{subst}
use ningshi.Prelude.{
  ℕ, ◌<◌, ◌≡◌, refl, ap, sym, ◌∙◌, inl, inr, true, false, List, [], ◌∷◌, none, some, arith, ltb,
  lt→ltb, contains, Occurs, nat_key, eqb, eqb_iff, Bool-cases, Option-cases,
}
use ningshi.Prelude.Map.{Map, insert, remove}
use ningshi.Clear.{
  Procs, cgroup_pids, missing_uids, walk_one, walk, walk_proc, targets_of, kill_pid_if_uid,
  signalled, kill_uids,
}

Occurs-remove :
    (m : Map ℕ ℕ) (pid uid k : ℕ)
    → Occurs (pid, uid) m
    → eqb pid k ≡ false
    → Occurs (pid, uid) (remove m k)
unfolding remove
Occurs-remove [] pid uid k at ne = elim at [ ]
Occurs-remove ((q, u) ∷ m) pid uid k (inl e) ne =
    let same : eqb q k ≡ false = ap (λ (x : ℕ × ℕ). eqb x.0 k) e ∙ ne in rw same (inl e)
Occurs-remove ((q, u) ∷ m) pid uid k (inr at) ne = elim (Bool-cases (eqb q k)) [
  | inl gone ↦ rw gone (Occurs-remove m pid uid k at ne)
  | inr kept ↦ rw kept (inr (Occurs-remove m pid uid k at ne))
]

signalled_complete :
    (p : Procs) (m : Map ℕ ℕ) (pid uid : ℕ)
    → kill_pid_if_uid p pid uid ≡ true
    → Occurs (pid, uid) m
    → Occurs (pid, uid) (signalled p m)
unfolding signalled
signalled_complete p [] pid uid h at = elim at [ ]
signalled_complete p ((q, u) ∷ m) pid uid h (inl e) =
    let sent : kill_pid_if_uid p q u ≡ true = ap (λ (x : ℕ × ℕ). kill_pid_if_uid p x.0 x.1) e ∙ h in
    rw sent (inl e)
signalled_complete p ((q, u) ∷ m) pid uid h (inr at) = elim (Bool-cases (kill_pid_if_uid p q u)) [
  | inl sent ↦ rw sent (inr (signalled_complete p m pid uid h at))
  | inr spared ↦ rw spared (signalled_complete p m pid uid h at)
]

missing_uids_complete :
    (p : Procs) (us : List ℕ) (u : ℕ)
    → contains us u ≡ true
    → cgroup_pids p u ≡ none
    → contains (missing_uids p us) u ≡ true
unfolding missing_uids
missing_uids_complete p [] u h e = h
missing_uids_complete p (v ∷ us) u h e = elim (Option-cases (cgroup_pids p v)) [
  | inl none_listed ↦ rw (none_listed, missing_uids) (ground (arith, missing_uids_complete p us u))
  | inr (pids, listed) ↦
      rw (listed, missing_uids)
        (ground (arith, missing_uids_complete p us u, eqb_iff v u, ap (cgroup_pids p)))
]

module _ (p : Procs) (missing : List ℕ) (pid uid : ℕ) (ordinary : 1 < pid)
    (owned : p.uid_at_walk pid ≡ some uid) (wanted : contains missing uid ≡ true) where
  walk_one_self : (m : Map ℕ ℕ) → Occurs (pid, uid) (walk_one p missing pid m)
  unfolding walk_one insert
  walk_one_self m = rw (lt→ltb 1 pid ordinary, owned, wanted) (inl refl)

  walk_one_at :
      (q : ℕ) (m : Map ℕ ℕ) → eqb q pid ≡ true → Occurs (pid, uid) (walk_one p missing q m)
  walk_one_at q m e =
      subst (λ x. Occurs (pid, uid) (walk_one p missing x m)) (sym ((eqb_iff q pid).0 e))
        (walk_one_self m)

  walk_one_keeps :
      (q : ℕ) (m : Map ℕ ℕ) → Occurs (pid, uid) m → Occurs (pid, uid) (walk_one p missing q m)
  unfolding walk_one insert
  walk_one_keeps q m at = elim (Bool-cases (eqb pid q)) [
    | inl same ↦ walk_one_at q m (ground arith)
    | inr ne ↦ elim (Bool-cases (ltb 1 q)) [
      | inr low ↦ rw low at
      | inl high ↦ elim (Option-cases (p.uid_at_walk q)) [
        | inl gone ↦ rw (high, gone) at
        | inr (u, there) ↦ elim (Bool-cases (contains missing u)) [
          | inl hit ↦ rw (high, there, hit) (inr (Occurs-remove m pid uid q at ne))
          | inr other ↦ rw (high, there, other) at
        ]
      ]
    ]
  ]

  walk_keeps :
      (pids : List ℕ) (m : Map ℕ ℕ)
      → Occurs (pid, uid) m
      → Occurs (pid, uid) (walk p missing pids m)
  unfolding walk
  walk_keeps [] m at = at
  walk_keeps (q ∷ pids) m at = walk_keeps pids (walk_one p missing q m) (walk_one_keeps q m at)

  walk_finds :
      (pids : List ℕ) (m : Map ℕ ℕ)
      → contains pids pid ≡ true
      → Occurs (pid, uid) (walk p missing pids m)
  unfolding walk
  walk_finds [] m h = cc
  walk_finds (q ∷ pids) m h = elim (Bool-cases (eqb q pid)) [
    | inl same ↦ walk_keeps pids (walk_one p missing q m) (walk_one_at q m same)
    | inr ne ↦ walk_finds pids (walk_one p missing q m) (ground arith)
  ]

walk_proc_finds :
    (p : Procs) (missing : List ℕ) (m : Map ℕ ℕ) (pids : List ℕ) (pid uid : ℕ)
    → 1 < pid
    → p.uid_at_walk pid ≡ some uid
    → contains missing uid ≡ true
    → p.proc_pids ≡ some pids
    → contains pids pid ≡ true
    → Occurs (pid, uid) (walk_proc p missing m)
unfolding walk_proc
walk_proc_finds p [] m pids pid uid ordinary owned wanted read listed = cc
walk_proc_finds p (u ∷ missing) m pids pid uid ordinary owned wanted read listed =
    rw (read, walk_proc) (walk_finds p (u ∷ missing) pid uid ordinary owned wanted pids m listed)

-- A process of one of the uids is signalled, where that uid has no cgroup file, /proc can be read
-- and lists the process, the process belongs to the uid in the walk and at the check, and the
-- kernel opens the pidfd and delivers the signal.
pub kill_uids_complete :
    (p : Procs) (uids pids : List ℕ) (pid uid : ℕ)
    → contains uids uid ≡ true
    → p.cgroup uid ≡ none
    → p.proc_pids ≡ some pids
    → contains pids pid ≡ true
    → 1 < pid
    → p.uid_at_walk pid ≡ some uid
    → kill_pid_if_uid p pid uid ≡ true
    → Occurs (pid, uid) (kill_uids p uids)
unfolding kill_uids targets_of
kill_uids_complete p uids pids pid uid given absent read listed ordinary owned sent =
    signalled_complete p _ pid uid sent (
      walk_proc_finds p (missing_uids p uids) _ pids pid uid ordinary owned
        (missing_uids_complete p uids uid given (unfold cgroup_pids in rw (absent, cgroup_pids)))
        read listed)
