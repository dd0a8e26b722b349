-- ===== src/Proc/Wait.antt =====
-- What the retries for a process's name come to.
use mathlib.Core.Path.{subst}
use ningshi.Prelude.{
  ℕ, zero, suc, ◌+◌, ◌≤◌, ◌<◌, ◌≡◌, refl, sym, max, ◌⊎◌, ◌↔◌, inl, inr, ap, String, true, List,
  Option, none, some, arith, contains, eqb, eqb_iff, Bool-cases, Option-cases, string_key,
}
use ningshi.Proc.{accepts, pkg_of, wait_from, pkg_of_pid_wait}

-- A wanted name is read at one of the attempts.
abbrev pub IsSeen : (ℕ → Option String) → List String → ℕ → ℕ → Type 0
IsSeen reads expected i end =
    (k : ℕ) × (pkg : String) × (i ≤ k)
    × (k < end)
    × (pkg_of (reads k) ≡ some pkg)
    × (contains expected pkg ≡ true)

-- No name can be read at any of the attempts.
abbrev pub IsUnreadable : (ℕ → Option String) → ℕ → ℕ → Type 0
IsUnreadable reads i end = (k : ℕ) → i ≤ k → k < end → pkg_of (reads k) ≡ none

module _ (reads : ℕ → Option String) (expected : List String) where
  later-IsSeen :
      (i attempts : ℕ)
      → IsSeen reads expected (i + 1) (i + 1 + attempts)
      → IsSeen reads expected i (i + suc attempts)
  later-IsSeen i attempts (k, pkg, lo, hi, read, wanted) =
      (k, pkg, omega arith, omega arith, read, wanted)

  cons-IsUnreadable :
      (i attempts : ℕ)
      → pkg_of (reads i) ≡ none
      → IsUnreadable reads (i + 1) (i + 1 + attempts)
      → IsUnreadable reads i (i + suc attempts)
  cons-IsUnreadable i attempts now later k lo hi = elim (Bool-cases (eqb k i)) [
    | inl same ↦ subst (λ x. pkg_of (reads x) ≡ none) (sym ((eqb_iff k i).0 same)) now
    | inr other ↦ later k (ground arith) (omega arith)
  ]

  wait_from_sound :
      (attempts i : ℕ) (seen : Option String)
      → accepts expected (wait_from reads expected attempts i seen) ≡ true
      → IsSeen reads expected i (i + attempts)
        ⊎ (IsUnreadable reads i (i + attempts) × (accepts expected seen ≡ true))
  unfolding wait_from
  wait_from_sound zero i seen h = inr (λ k lo hi. absurd (omega arith), h)
  wait_from_sound (suc attempts) i seen h = elim (Option-cases (pkg_of (reads i))) [
    | inl nothing ↦ elim (wait_from_sound attempts (i + 1) seen (rw (nothing, wait_from) at h)) [
      | inl found ↦ inl (later-IsSeen i attempts found)
      | inr (dark, ok) ↦ inr (cons-IsUnreadable i attempts nothing dark, ok)
    ]
    | inr (pkg, read) ↦ elim (Bool-cases (contains expected pkg)) [
      | inl wanted ↦ inl (i, pkg, omega arith, omega arith, read, wanted)
      | inr other ↦
          elim (wait_from_sound attempts (i + 1) (some pkg) (rw (read, wait_from, other) at h)) [
            | inl found ↦ inl (later-IsSeen i attempts found)
            | inr (dark, ok) ↦ cc (ok, other)
          ]
    ]
  ]

  wait_from_seen :
      (attempts i : ℕ) (seen : Option String)
      → IsSeen reads expected i (i + attempts)
      → accepts expected (wait_from reads expected attempts i seen) ≡ true
  unfolding wait_from
  wait_from_seen zero i seen (k, pkg, lo, hi, read, wanted) = absurd (omega arith)
  wait_from_seen (suc attempts) i seen (k, pkg, lo, hi, read, wanted) =
      elim (Bool-cases (eqb k i)) [
        | inl same ↦
            let here : pkg_of (reads i) ≡ some pkg =
              subst (λ x. pkg_of (reads x) ≡ some pkg) ((eqb_iff k i).0 same) read in
            rw (here, wait_from, wanted) wanted
        | inr other ↦ elim (Option-cases (pkg_of (reads i))) [
          | inl nothing ↦
              rw (nothing, wait_from)
                (wait_from_seen attempts (i + 1) seen
                  (k, pkg, ground arith, omega arith, read, wanted))
          | inr (p, named) ↦ elim (Bool-cases (contains expected p)) [
            | inl ok ↦ rw (named, wait_from, ok) ok
            | inr no_match ↦
                rw (named, wait_from, no_match)
                  (wait_from_seen attempts (i + 1) (some p)
                    (k, pkg, ground arith, omega arith, read, wanted))
          ]
        ]
      ]

  wait_from_unreadable :
      (attempts i : ℕ) (seen : Option String)
      → IsUnreadable reads i (i + attempts)
      → wait_from reads expected attempts i seen ≡ seen
  unfolding wait_from
  wait_from_unreadable zero i seen dark = refl
  wait_from_unreadable (suc attempts) i seen dark =
      rw (dark i (omega arith) (omega arith), wait_from)
        (wait_from_unreadable attempts (i + 1) seen (λ k lo hi. dark k (omega arith) (omega arith)))

-- The retries end in a wanted name or in none exactly if a wanted name is read at one of the
-- attempts, or no name at any. There is at least one attempt.
pub accepts-pkg_of_pid_wait :
    (reads : ℕ → Option String) (expected : List String) (attempts : ℕ)
    → 1 ≤ attempts
    → (accepts expected (pkg_of_pid_wait reads expected attempts) ≡ true)
      ↔ (IsSeen reads expected 0 attempts ⊎ IsUnreadable reads 0 attempts)
unfolding pkg_of_pid_wait
accepts-pkg_of_pid_wait reads expected n some_attempt =
    let least : max n 1 ≡ n = omega arith in
    let total : 0 + n ≡ n = omega arith in
    rw (least, pkg_of_pid_wait)
      (subst
        (λ end.
          (accepts expected (wait_from reads expected n 0 none) ≡ true)
          ↔ (IsSeen reads expected 0 end ⊎ IsUnreadable reads 0 end))
        total (forth, back))
  where
    forth :
        accepts expected (wait_from reads expected n 0 none) ≡ true
        → IsSeen reads expected 0 (0 + n) ⊎ IsUnreadable reads 0 (0 + n)
    forth h = elim (wait_from_sound reads expected n 0 none h) [
      | inl found ↦ inl found
      | inr (dark, ok) ↦ inr dark
    ]

    back :
        IsSeen reads expected 0 (0 + n) ⊎ IsUnreadable reads 0 (0 + n)
        → accepts expected (wait_from reads expected n 0 none) ≡ true
    back (inl found) = wait_from_seen reads expected n 0 none found
    back (inr dark) = ap (accepts expected) (wait_from_unreadable reads expected n 0 none dark)
