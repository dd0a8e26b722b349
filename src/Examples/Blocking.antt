-- ===== src/Examples/Blocking.antt =====
-- The theorem on the sweep on a few processes.
use ningshi.Prelude.{
  ℕ, ◌≡◌, refl, inl, true, [], ◌∷◌, none, some, contains, nat_key, string_key, ◌<◌, eqb,
  if◌then◌else◌,
}
use ningshi.Prelude.Map.{insert}
use ningshi.Clear.{Procs, kill_uids}
use ningshi.Clear.Safety.{kill_uids_safe}

-- Process 4242 runs as 10001.
abbrev procs : Procs
procs = record {
  cgroup = λ uid. none;
  proc_pids = some (1 ∷ 4242 ∷ []);
  uid_at_walk = λ pid. if eqb pid 4242 then some 10001 else some 0;
  uid_at_kill = λ pid. if eqb pid 4242 then some 10001 else some 0;
  pidfd_open = λ pid. true;
  send_signal = λ pid. true;
}

kill_uids_safe_example :
    (1 < 4242)
    × (contains {A = ℕ} (10001 ∷ []) 10001 ≡ true)
    × (procs.uid_at_kill 4242 ≡ some 10001)
unfolding kill_uids insert
kill_uids_safe_example = kill_uids_safe procs (10001 ∷ []) 4242 10001 (inl refl)
