-- ===== src/Engine/Transitions/Exact.antt =====
-- The blocked set after a plan was applied, and its agreement with the kernel.
use ningshi.Prelude.{
  ℕ, ◌≡◌, refl, ◌∙◌, ap, inl, inr, Bool, true, false, not, ◌&&◌, List, [], ◌∷◌, arith, eqb, eqb_iff,
  contains, or_else, xor, if◌then◌else◌, nat_key, Bool-cases, Option-cases,
}
use ningshi.Prelude.Map.{Map, get, contains_key, IsDistinct}
use ningshi.Prelude.Set.{contains-insert, contains-remove}
use ningshi.Clear.{Procs}
use ningshi.Gate.{BlockMap, BlockMapLaws, set_blocked}
use ningshi.Gate.Mirror.{has-set_blocked, contains-set_blocked}
use ningshi.Engine.Transitions.{
  Run, Outcome, ◌>>=◌, clean_up, cleaned, switch, transition, transitions, release_one, release,
  apply_plan,
}

-- What a successful chain of two steps says of each.
>>=-eq-true :
    {M : Type 0} (o : Outcome M) (f : Run M → Outcome M)
    → (o >>= f).1 ≡ true
    → (o.1 ≡ true) × ((f o.0).1 ≡ true) × ((o >>= f).0 ≡ (f o.0).0)
>>=-eq-true (r, true) f h = (refl, h, refl)
>>=-eq-true (r, false) f h = cc

-- What both steps keep, the chain keeps, also when the first fails.
>>=-keep {ℓ} :
    {M : Type 0} (P : Run M → Type ℓ) (o : Outcome M) (f : Run M → Outcome M)
    → P o.0
    → ((r : Run M) → P r → P (f r).0)
    → P (o >>= f).0
>>=-keep P (r, true) f h k = k r h
>>=-keep P (r, false) f h k = h

module _ {M : Type 0} (bpf : BlockMap M) where
  abbrev pub is_blocked : Run M → ℕ → Bool
  is_blocked r j = contains r.eng.blocked j

  -- The engine's set, the mirror of the killer thread and the kernel's map hold the same uids.
  abbrev pub IsSynced : Run M → Type 0
  IsSynced r =
      (j : ℕ)
      → (bpf.has r.eng.gate.blocked j ≡ is_blocked r j)
        × (contains r.eng.gate.blocked_set j ≡ is_blocked r j)

  is_blocked-clean_up :
      (p : Procs) (uid j : ℕ) (r : Run M) → is_blocked (clean_up p uid r) j ≡ is_blocked r j
  unfolding clean_up
  is_blocked-clean_up p uid j r = ground arith

  is_blocked-cleaned :
      (snap : ℕ → Procs) (uid : ℕ) (b : Bool) (j : ℕ) (r : Run M)
      → is_blocked (cleaned snap uid b r) j ≡ is_blocked r j
  unfolding cleaned
  is_blocked-cleaned snap uid b j r = elim (Bool-cases (b && not (contains r.eng.blocked uid))) [
    | inl new ↦ rw new (is_blocked-clean_up (snap uid) uid j r)
    | inr old ↦ rw old
  ]

  clean_up-IsSynced : (p : Procs) (uid : ℕ) (r : Run M) → IsSynced r → IsSynced (clean_up p uid r)
  unfolding clean_up
  clean_up-IsSynced p uid r h j = ground (arith, h j)

  -- A step succeeds only if the uid's state is now `on`, and touches no other uid.
  is_blocked-switch :
      (uid : ℕ) (on : Bool) (r : Run M) (j : ℕ)
      → (switch bpf uid on r).1 ≡ true
      → is_blocked (switch bpf uid on r).0 j ≡ (if eqb uid j then on else is_blocked r j)
  unfolding switch
  is_blocked-switch uid on r j h = elim (Option-cases (set_blocked bpf r.eng.gate uid on)) [
    | inl failed ↦ cc (rw (failed, switch) at h)
    | inr (g, set) ↦
        rw (set, switch)
          (ground (arith, contains-insert r.eng.blocked uid j, contains-remove r.eng.blocked uid j))
  ]

  is_blocked-transition :
      (snap : ℕ → Procs) (uid : ℕ) (b : Bool) (r : Run M) (j : ℕ)
      → (transition bpf snap uid b r).1 ≡ true
      → is_blocked (transition bpf snap uid b r).0 j ≡ (if eqb uid j then b else is_blocked r j)
  unfolding transition
  is_blocked-transition snap uid b r j h = elim (Bool-cases (xor b (contains r.eng.blocked uid))) [
    | inl changes ↦ rw changes (
        is_blocked-switch uid b (cleaned snap uid b r) j (rw changes at h)
        ∙ rw (is_blocked-cleaned snap uid b j r))
    | inr stays ↦ rw stays (
        is_blocked-cleaned snap uid b j r
        ∙ ground (arith, eqb_iff uid j, ap (λ k. contains r.eng.blocked k)))
  ]

  is_blocked-transitions :
      (snap : ℕ → Procs) (want : Map ℕ Bool) (r : Run M) (j : ℕ)
      → IsDistinct want
      → (transitions bpf snap want r).1 ≡ true
      → is_blocked (transitions bpf snap want r).0 j ≡ or_else (get want j) (is_blocked r j)
  unfolding transitions get
  is_blocked-transitions snap [] r j d h = refl
  is_blocked-transitions snap ((uid, b) ∷ want) r j d h =
      let step = transition bpf snap uid b r in
      let (first, rest, same) = >>=-eq-true step (λ r'. transitions bpf snap want r') h in
      ap (λ r'. is_blocked r' j) same
      ∙ is_blocked-transitions snap want step.0 j d.1 rest
      ∙ rw (is_blocked-transition snap uid b r j first) (ground (arith, d.0, eqb_iff uid j))

  is_blocked-release_one :
      (want : Map ℕ Bool) (uid : ℕ) (r : Run M) (j : ℕ)
      → (release_one bpf want uid r).1 ≡ true
      → is_blocked (release_one bpf want uid r).0 j
        ≡ (if eqb uid j && not (contains_key want uid) then false else is_blocked r j)
  unfolding release_one
  is_blocked-release_one want uid r j h = elim (Bool-cases (contains_key want uid)) [
    | inl named ↦ rw named (ground arith)
    | inr free ↦ rw free (is_blocked-switch uid false r j (rw free at h) ∙ ground arith)
  ]

  is_blocked-release :
      (want : Map ℕ Bool) (current : List ℕ) (r : Run M) (j : ℕ)
      → (release bpf want current r).1 ≡ true
      → is_blocked (release bpf want current r).0 j
        ≡ (if contains current j && not (contains_key want j) then false else is_blocked r j)
  unfolding release
  is_blocked-release want [] r j h = refl
  is_blocked-release want (uid ∷ current) r j h =
      let step = release_one bpf want uid r in
      let (first, rest, same) = >>=-eq-true step (λ r'. release bpf want current r') h in
      ap (λ r'. is_blocked r' j) same
      ∙ is_blocked-release want current step.0 j rest
      ∙ rw (is_blocked-release_one want uid r j first)
          (ground (arith, eqb_iff uid j, ap (contains_key want)))

  -- What is blocked once a plan was applied without an error is exactly what the plan wants
  -- blocked: also where the plan has no verdict, and whatever was blocked before.
  pub is_blocked-apply_plan :
      (snap : ℕ → Procs) (want : Map ℕ Bool) (r : Run M) (j : ℕ)
      → IsDistinct want
      → (apply_plan bpf snap want r).1 ≡ true
      → is_blocked (apply_plan bpf snap want r).0 j ≡ or_else (get want j) false
  unfolding apply_plan
  is_blocked-apply_plan snap want r j d h =
      let step = transitions bpf snap want r in
      let (first, rest, same) = >>=-eq-true step (λ r'. release bpf want r'.eng.blocked r') h in
      ap (λ r'. is_blocked r' j) same
      ∙ is_blocked-release want step.0.eng.blocked step.0 j rest
      ∙ rw (is_blocked-transitions snap want r j d first) (unfold contains_key in ground arith)

  module _ (laws : BlockMapLaws bpf) where
    switch-IsSynced :
        (uid : ℕ) (on : Bool) (r : Run M) → IsSynced r → IsSynced (switch bpf uid on r).0
    unfolding switch
    switch-IsSynced uid on r h j = elim (Option-cases (set_blocked bpf r.eng.gate uid on)) [
      | inl failed ↦ rw (failed, switch) (h j)
      | inr (g, set) ↦
          rw (set, switch)
            (ground (
              arith,
              h j,
              has-set_blocked bpf laws r.eng.gate g uid on j set,
              contains-set_blocked bpf r.eng.gate g uid on j set,
              contains-insert r.eng.blocked uid j,
              contains-remove r.eng.blocked uid j,
            ))
    ]

    clean-IsSynced :
        (snap : ℕ → Procs) (uid : ℕ) (b : Bool) (r : Run M)
        → IsSynced r
        → IsSynced (cleaned snap uid b r)
    unfolding cleaned
    clean-IsSynced snap uid b r h = elim (Bool-cases (b && not (contains r.eng.blocked uid))) [
      | inl new ↦ rw new (clean_up-IsSynced (snap uid) uid r h)
      | inr old ↦ rw old h
    ]

    transition-IsSynced :
        (snap : ℕ → Procs) (uid : ℕ) (b : Bool) (r : Run M)
        → IsSynced r
        → IsSynced (transition bpf snap uid b r).0
    unfolding transition
    transition-IsSynced snap uid b r h = elim (Bool-cases (xor b (contains r.eng.blocked uid))) [
      | inl changes ↦ rw changes (switch-IsSynced uid b _ (clean-IsSynced snap uid b r h))
      | inr stays ↦ rw stays (clean-IsSynced snap uid b r h)
    ]

    transitions-IsSynced :
        (snap : ℕ → Procs) (want : Map ℕ Bool) (r : Run M)
        → IsSynced r
        → IsSynced (transitions bpf snap want r).0
    unfolding transitions
    transitions-IsSynced snap [] r h = h
    transitions-IsSynced snap ((uid, b) ∷ want) r h =
        >>=-keep IsSynced (transition bpf snap uid b r) (λ r'. transitions bpf snap want r')
          (transition-IsSynced snap uid b r h) (λ r' k. transitions-IsSynced snap want r' k)

    release_one-IsSynced :
        (want : Map ℕ Bool) (uid : ℕ) (r : Run M)
        → IsSynced r
        → IsSynced (release_one bpf want uid r).0
    unfolding release_one
    release_one-IsSynced want uid r h = elim (Bool-cases (contains_key want uid)) [
      | inl named ↦ rw named h
      | inr free ↦ rw free (switch-IsSynced uid false r h)
    ]

    release-IsSynced :
        (want : Map ℕ Bool) (current : List ℕ) (r : Run M)
        → IsSynced r
        → IsSynced (release bpf want current r).0
    unfolding release
    release-IsSynced want [] r h = h
    release-IsSynced want (uid ∷ current) r h =
        >>=-keep IsSynced (release_one bpf want uid r) (λ r'. release bpf want current r')
          (release_one-IsSynced want uid r h) (λ r' k. release-IsSynced want current r' k)

    -- Applying a plan keeps the engine's set, the killer's mirror and the kernel's map equal, also
    -- when the kernel refuses an update half way.
    pub apply_plan-IsSynced :
        (snap : ℕ → Procs) (want : Map ℕ Bool) (r : Run M)
        → IsSynced r
        → IsSynced (apply_plan bpf snap want r).0
    unfolding apply_plan
    apply_plan-IsSynced snap want r h =
        >>=-keep IsSynced (transitions bpf snap want r) (λ r'. release bpf want r'.eng.blocked r')
          (transitions-IsSynced snap want r h) (λ r' k. release-IsSynced want r'.eng.blocked r' k)
