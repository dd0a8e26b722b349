-- ===== src/Foreground/Snapshot.antt =====
-- Which uids a snapshot reports.
use ningshi.Prelude.{
  ℕ, ◌≡◌, ap, inl, inr, Bool, true, false, ◌&&◌, ◌||◌, List, [], ◌∷◌, Option, none, some, arith,
  any, ltb, eqb, eqb_iff, contains, Bool-cases, nat_key,
}
use ningshi.Prelude.Set.{contains-insert}
use ningshi.Foreground.{
  ProcDir, add_target, front_uids, look_at, walk_uids, walk_all, uids_snapshot,
}

abbrev pub is_uid : Option ℕ → ℕ → Bool
is_uid none j = false
is_uid (some u) j = eqb u j

contains-add_target :
    (targets : List ℕ) (o : Option ℕ) (set : List ℕ) (j : ℕ)
    → contains (add_target targets o set) j ≡ ((contains targets j && is_uid o j) || contains set j)
contains-add_target targets none set j = ground arith
contains-add_target targets (some u) set j = elim (Bool-cases (eqb u j)) [
  | inl same ↦
      ground (arith, contains-insert set u j, ap (λ x. contains targets x) ((eqb_iff u j).0 same))
  | inr other ↦ ground (arith, contains-insert set u j)
]

module _ (dir : ProcDir) (targets : List ℕ) (j : ℕ) where
  contains-front_uids :
      (pids fg : List ℕ)
      → contains (front_uids dir targets pids fg) j
        ≡ ((contains targets j && any (λ pid. is_uid (dir.pid_uid pid) j) pids) || contains fg j)
  unfolding front_uids
  contains-front_uids [] fg = ground arith
  contains-front_uids (pid ∷ pids) fg = ground (
    arith,
    contains-front_uids pids (add_target targets (dir.pid_uid pid) fg),
    contains-add_target targets (dir.pid_uid pid) fg j,
  )

  module _ (top_pids : List ℕ) where
    abbrev pub lives : ℕ → Bool
    lives pid = ltb 1 pid && is_uid (dir.pid_uid pid) j

    abbrev pub fronts : ℕ → Bool
    fronts pid = lives pid && contains top_pids pid

    contains-look_at :
        (pid : ℕ) (live fg : List ℕ)
        → (contains (look_at dir top_pids targets pid (live, fg)).0 j
            ≡ ((contains targets j && lives pid) || contains live j))
          × (contains (look_at dir top_pids targets pid (live, fg)).1 j
              ≡ ((contains targets j && fronts pid) || contains fg j))
    unfolding look_at
    contains-look_at pid live fg = ground (
      arith,
      contains-add_target targets (dir.pid_uid pid) live j,
      contains-add_target targets (dir.pid_uid pid) fg j,
    )

    contains-walk_uids :
        (pids live fg : List ℕ)
        → (contains (walk_uids dir top_pids targets pids (live, fg)).0 j
            ≡ ((contains targets j && any lives pids) || contains live j))
          × (contains (walk_uids dir top_pids targets pids (live, fg)).1 j
              ≡ ((contains targets j && any fronts pids) || contains fg j))
    unfolding walk_uids
    contains-walk_uids [] live fg = ground arith
    contains-walk_uids (pid ∷ pids) live fg =
        let (live', fg') = look_at dir top_pids targets pid (live, fg) in
        ground (arith, contains-walk_uids pids live' fg', contains-look_at pid live fg)

    -- With a pass over /proc, a uid counts as alive exactly if it is a target and owns some listed
    -- process above 1, and as in front if one of these is a top-app process. Without the pass none
    -- counts as alive, and a target is in front exactly if it owns a top-app process.
    pub contains-uids_snapshot :
        (pids : List ℕ)
        → dir.pids ≡ some pids
        → (contains (uids_snapshot dir top_pids true targets).0 j
            ≡ (contains targets j && any lives pids))
          × (contains (uids_snapshot dir top_pids true targets).1 j
              ≡ (contains targets j && any fronts pids))
          × (contains (uids_snapshot dir top_pids false targets).0 j ≡ false)
          × (contains (uids_snapshot dir top_pids false targets).1 j
              ≡ (contains targets j && any (λ pid. is_uid (dir.pid_uid pid) j) top_pids))
    unfolding uids_snapshot walk_all
    contains-uids_snapshot pids readable =
        rw readable (ground (arith, contains-walk_uids pids [] [], contains-front_uids top_pids []))
