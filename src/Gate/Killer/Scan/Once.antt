-- ===== src/Gate/Killer/Scan/Once.antt =====
-- One pass of the loop looks at every pending entry once, whatever order `swap_remove` leaves.
use mathlib.Core.List.{Perm, append_assoc, perm_middle}
use mathlib.Core.List.Perm
use mathlib.Core.Path.{subst}
use ningshi.Prelude.{
  ℕ, zero, suc, ◌+◌, ◌<◌, ◌≡◌, refl, sym, ap, ap₂, ◌∙◌, inl, inr, Bool, true, false, not, ◌&&◌,
  List, [], ◌∷◌, ◌++◌, Option, none, some, arith, length, filter, leb, if◌then◌else◌, Bool-cases,
}
use ningshi.Gate.Killer.{
  Pending, Sight, Killer, examine, by_score, try_kill, kill_if_blocked, may_kill, is_zero,
  read_oom_score_adj, timeout_ms,
}
use ningshi.Gate.Killer.Scan.Moves.{
  rotated, length-rotated, filter-rotated, length-snoc, get_elem?-append, swap_remove-append,
}
use ningshi.Gate.Killer.Scan.{get_elem?, swap_remove, scan}

-- The process is gone or in front, or its time is up: the entry leaves the list.
unfoldable pub is_due : Sight → Pending → Bool
is_due s p = if s.exited then true else elim (read_oom_score_adj s.oom_score_adj) [
  | none ↦ true
  | some adj ↦ if is_zero adj then true else leb (p.started + timeout_ms) s.now
]

-- The process lives, and is in front or late, and both checks allow the kill.
unfoldable pub is_shot : Sight → Pending → Bool
is_shot s p = if s.exited then false else elim (read_oom_score_adj s.oom_score_adj) [
  | none ↦ false
  | some adj ↦
      if is_zero adj then may_kill s p else leb (p.started + timeout_ms) s.now && may_kill s p
]

pub examine-stays : (s : Sight) (p : Pending) (k : Killer) → (examine s p k).1 ≡ not (is_due s p)
unfolding examine by_score is_due
examine-stays s p k = ground arith

pub examine-signalled :
    (s : Sight) (p : Pending) (k : Killer)
    → (examine s p k).0.signalled ≡ (if is_shot s p then p ∷ k.signalled else k.signalled)
unfolding examine by_score try_kill is_shot may_kill kill_if_blocked
examine-signalled s p k = ground arith

abbrev pub waits : (Pending → Sight) → Pending → Bool
waits look p = not (is_due (look p) p)

abbrev pub shot : (Pending → Sight) → Pending → Bool
shot look p = is_shot (look p) p

-- The loop ends with what stood before, and from the rest those that wait; and it signalled
-- those of the rest that are shot.
abbrev IsPass :
    (Pending → Sight)
    → List Pending
    → List Pending
    → Killer
    → Option (List Pending × Killer)
    → Type 0
IsPass look done rest k o =
    (left : List Pending) × (k' : Killer) × (o ≡ some (left, k'))
    × Perm left (done ++ filter (waits look) rest)
    × Perm k'.signalled (filter (shot look) rest ++ k.signalled)

is_shot-is_due : (s : Sight) (p : Pending) → is_due s p ≡ false → is_shot s p ≡ false
unfolding is_due is_shot
is_shot-is_due s p h = ground arith

module _ (look : Pending → Sight) (done : List Pending) (x : Pending) (rest : List Pending)
    (k : Killer) where
  abbrev examined : Killer
  examined = (examine (look x) x k).0

  not_shot : is_shot (look x) x ≡ false → examined.signalled ≡ k.signalled
  not_shot spared = examine-signalled (look x) x k ∙ rw spared refl

  is_sent : is_shot (look x) x ≡ true → examined.signalled ≡ x ∷ k.signalled
  is_sent hit = examine-signalled (look x) x k ∙ rw hit refl

  stay-IsPass :
      (o : Option (List Pending × Killer))
      → is_due (look x) x ≡ false
      → IsPass look (done ++ x ∷ []) rest examined o
      → IsPass look done (x ∷ rest) k o
  stay-IsPass o waiting (left, k', ends, kept, sent) =
      let spared = is_shot-is_due (look x) x waiting in
      (
        left,
        k',
        ends,
        rw waiting (subst (Perm left) (append_assoc done (x ∷ []) (filter (waits look) rest)) kept),
        rw spared (
            subst (λ sent'. Perm k'.signalled (filter (shot look) rest ++ sent')) (not_shot spared)
              sent),
      )

  leave-IsPass :
      (o : Option (List Pending × Killer))
      → is_due (look x) x ≡ true
      → IsPass look done (rotated rest) examined o
      → IsPass look done (x ∷ rest) k o
  leave-IsPass o due (left, k', ends, kept, sent) = (
    left,
    k',
    ends,
    rw due (Perm.trans kept (Perm.append_left done (filter-rotated (waits look) rest))),
    elim (Bool-cases (is_shot (look x) x)) [
      | inr spared ↦ rw spared (
          Perm.trans
            (subst (λ sent'. Perm k'.signalled (filter (shot look) (rotated rest) ++ sent'))
              (not_shot spared) sent)
            (Perm.append_right k.signalled (filter-rotated (shot look) rest)))
      | inl hit ↦ rw hit (
          Perm.trans
            (subst (λ sent'. Perm k'.signalled (filter (shot look) (rotated rest) ++ sent'))
              (is_sent hit) sent)
            (Perm.trans (Perm.append_right (x ∷ k.signalled) (filter-rotated (shot look) rest))
              (perm_middle (filter (shot look) rest) k.signalled)))
    ],
  )

module _ (fuel : ℕ) (look : Pending → Sight) (i : ℕ) (pending : List Pending) (k : Killer) where
  scan_end : get_elem? pending i ≡ none → scan (suc fuel) look i pending k ≡ some (pending, k)
  unfolding scan
  scan_end h = rw (h, scan)

  scan_step :
      (p : Pending) (stays : Bool)
      → get_elem? pending i ≡ some p
      → is_due (look p) p ≡ not stays
      → scan (suc fuel) look i pending k ≡ (
          if stays
          then scan fuel look (i + 1) pending (examine (look p) p k).0
          else scan fuel look i (swap_remove pending i) (examine (look p) p k).0)
  unfolding scan
  scan_step p true at waiting = rw (at, scan, examine-stays, waiting) refl
  scan_step p false at due = rw (at, scan, examine-stays, due) refl

-- Fuel above the number of entries not yet looked at is enough.
scan-IsPass :
    (fuel : ℕ) (look : Pending → Sight) (done rest : List Pending) (k : Killer)
    → length rest < fuel
    → IsPass look done rest k (scan fuel look (length done) (done ++ rest) k)
scan-IsPass zero look done rest k h = absurd (omega arith)
scan-IsPass (suc fuel) look done [] k h = (
  done ++ [],
  k,
  scan_end fuel look (length done) (done ++ []) k (get_elem?-append done []),
  Perm.refl (done ++ []),
  Perm.refl k.signalled,
)
scan-IsPass (suc fuel) look done (x ∷ rest) k h = elim (Bool-cases (is_due (look x) x)) [
  | inl due ↦ leave-IsPass look done x rest k _ due (
      subst (IsPass look done (rotated rest) k1) (sym (leave due))
        (scan-IsPass fuel look done (rotated rest) k1 (omega (arith, length-rotated rest))))
  | inr waiting ↦ stay-IsPass look done x rest k _ waiting (
      subst (IsPass look (done ++ x ∷ []) rest k1) (sym (stay waiting))
        (scan-IsPass fuel look (done ++ x ∷ []) rest k1 (omega arith)))
]
  where
    k1 : Killer
    k1 = (examine (look x) x k).0

    leave :
        is_due (look x) x ≡ true
        → scan (suc fuel) look (length done) (done ++ x ∷ rest) k
          ≡ scan fuel look (length done) (done ++ rotated rest) k1
    leave due =
        scan_step fuel look (length done) (done ++ x ∷ rest) k x false
          (get_elem?-append done (x ∷ rest)) due
        ∙ ap (λ ps. scan fuel look (length done) ps k1) (swap_remove-append done x rest)

    stay :
        is_due (look x) x ≡ false
        → scan (suc fuel) look (length done) (done ++ x ∷ rest) k
          ≡ scan fuel look (length (done ++ x ∷ [])) ((done ++ x ∷ []) ++ rest) k1
    stay waiting =
        scan_step fuel look (length done) (done ++ x ∷ rest) k x true
          (get_elem?-append done (x ∷ rest)) waiting
        ∙ ap₂ (λ i ps. scan fuel look i ps k1) (sym (length-snoc done x))
            (sym (append_assoc done (x ∷ []) rest))

-- A pass of the killer's loop ends, if the fuel exceeds the number of entries. It looks at every
-- entry exactly once, although `swap_remove` moves them: the entries that stay are those whose
-- process lives, is not in front and has time left, and those that were signalled are those that
-- the checks allow among the others.
pub scan_once :
    (fuel : ℕ) (look : Pending → Sight) (pending : List Pending) (k : Killer)
    → length pending < fuel
    → (left : List Pending) × (k' : Killer) × (scan fuel look 0 pending k ≡ some (left, k'))
      × Perm left (filter (waits look) pending)
      × Perm k'.signalled (filter (shot look) pending ++ k.signalled)
scan_once fuel look pending k h = scan-IsPass fuel look [] pending k h
