-- ===== src/Gate/Killer/Checks.antt =====
-- What the two checks before a kill ask, and what a pass of the loop leaves.
use mathlib.Core.Path.{subst}
use mathlib.Core.List.{Perm, append-nil, Mem, mem-cons, not-mem-nil}
use mathlib.Core.List.Perm
use mathlib.Core.Logic.Or
use mathlib.Core.Bool.{Bool-set}
use ningshi.Prelude.{
  ℕ, ◌+◌, ◌<◌, ◌≡◌, ◌≢◌, refl, sym, ap, ◌∙◌, ◌↔◌, ◌⊎◌, inl, inr, String, Bool, true, false, List,
  [], ◌∷◌, ◌++◌, some, arith, length, filter, contains, Bool-cases, Option-cases, nat_key,
  string_key,
}
use ningshi.Prelude.Map.{get}
use ningshi.Proc.Wait.{IsSeen, IsUnreadable, accepts-pkg_of_pid_wait}
use ningshi.Gate.Killer.{Pending, Sight, Killer, identity_ok, may_kill}
use ningshi.Gate.Killer.Scan.{scan}
use ningshi.Gate.Killer.Scan.Once.{is_due, is_shot, waits, shot, scan_once}

-- The process turns out to be one of the packages blocked for the uid: a blocked name is read at
-- one of twenty tries, or no name at any.
abbrev pub IsWanted : Sight → ℕ → Type 0
IsWanted s uid =
    (names : List String) × (get s.identity uid ≡ some names)
    × (names ≢ [])
    × (IsSeen s.reads names 0 20 ⊎ IsUnreadable s.reads 0 20)

identity_ok_sound : (s : Sight) (uid : ℕ) → identity_ok s uid ≡ true → IsWanted s uid
unfolding identity_ok
identity_ok_sound s uid h = elim (Option-cases (get s.identity uid)) [
  | inl missing ↦ cc (rw (missing, identity_ok) at h)
  | inr ([], named) ↦ cc (rw (named, identity_ok) at h)
  | inr (n ∷ names, named) ↦ (
    n ∷ names,
    named,
    (λ e. cc e),
    (accepts-pkg_of_pid_wait s.reads (n ∷ names) 20 (omega arith)).0 (rw (named, identity_ok) at h),
  )
]

identity_ok_complete : (s : Sight) (uid : ℕ) → IsWanted s uid → identity_ok s uid ≡ true
unfolding identity_ok
identity_ok_complete s uid ([], named, some_name, read) = absurd (some_name refl)
identity_ok_complete s uid (n ∷ names, named, some_name, read) =
    rw (named, identity_ok) ((accepts-pkg_of_pid_wait s.reads (n ∷ names) 20 (omega arith)).1 read)

-- A kill is allowed exactly if the mirror of the block map still has the uid, some package is
-- blocked for it, and in twenty tries a blocked name is read at some, or no name at any.
pub may_kill_iff :
    (s : Sight) (p : Pending)
    → (may_kill s p ≡ true) ↔ ((contains s.blocked_set p.uid ≡ true) × IsWanted s p.uid)
unfolding may_kill
may_kill_iff s p = (
  (λ h. elim (Bool-cases (contains s.blocked_set p.uid)) [
    | inl listed ↦ (listed, identity_ok_sound s p.uid (rw listed at h))
    | inr gone ↦ cc (rw gone at h)
  ]),
  (λ (listed, wanted). rw listed (identity_ok_complete s p.uid wanted)),
)

Mem-filter :
    (q : Pending → Bool) (p : Pending) (xs : List Pending) → Mem p (filter q xs) → q p ≡ true
Mem-filter q p [] m = absurd (not-mem-nil m)
Mem-filter q p (x ∷ xs) m = elim (Bool-cases (q x)) [
  | inr out ↦ Mem-filter q p xs (rw out at m)
  | inl in_ ↦
      Or.elim (Bool-set (q p) true) (mem-cons.0 (rw in_ at m)) (λ e. ap q e ∙ in_)
        (Mem-filter q p xs)
]

is_due-late :
    (s : Sight) (p : Pending) → is_due s p ≡ false → (s.exited ≡ false) × (s.now < p.started + 300)
unfolding is_due
is_due-late s p h = ground arith

pub is_shot-may_kill : (s : Sight) (p : Pending) → is_shot s p ≡ true → may_kill s p ≡ true
unfolding is_shot
is_shot-may_kill s p h = ground arith

module _ (fuel : ℕ) (look : Pending → Sight) (pending left : List Pending) (k k' : Killer)
    (enough : length pending < fuel) (ends : scan fuel look 0 pending k ≡ some (left, k')) where
  ended :
      Perm left (filter (waits look) pending)
      × Perm k'.signalled (filter (shot look) pending ++ k.signalled)
  ended =
      let (left0, k0, e, kept, sent) = scan_once fuel look pending k enough in
      let same : ◌≡◌ {A = List Pending × Killer} (left0, k0) (left, k') = cc (sym e ∙ ends) in
      (
        subst (λ (o : List Pending × Killer). Perm o.0 (filter (waits look) pending)) same kept,
        subst
            (λ (o : List Pending × Killer).
              Perm o.1.signalled (filter (shot look) pending ++ k.signalled))
            same sent,
      )

  -- No entry outlives its time: one that a pass leaves pending was looked at less than 300 ms after
  -- it was queued. The fuel exceeds the number of entries.
  pub now-lt-deadline : (p : Pending) → Mem p left → (look p).now < p.started + 300
  now-lt-deadline p m =
      let stays = Mem-filter (waits look) p pending ((Perm.mem_iff ended.0).0 m) in
      (is_due-late (look p) p (ground arith)).1

  -- A pass signals no process that the checks do not allow when its turn comes.
  pub may_kill_of_signalled :
      (p : Pending) → k.signalled ≡ [] → Mem p k'.signalled → may_kill (look p) p ≡ true
  may_kill_of_signalled p fresh m = is_shot-may_kill (look p) p (
      Mem-filter (shot look) p pending (
        subst (Mem p) (ap (λ sent. filter (shot look) pending ++ sent) fresh ∙ append-nil _)
          ((Perm.mem_iff ended.1).0 m)))
