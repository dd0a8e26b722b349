-- ===== src/Engine/Plan/Spared.antt =====
-- Who can never be planned for.
use ningshi.Prelude.{
  ℕ, ◌≡◌, ◌∙◌, ap, inl, inr, String, Bool, true, false, ◌||◌, none, some, arith, ltb, eqb, eqb_iff,
  nat_key, string_key, Bool-cases, Option-cases,
}
use ningshi.Prelude.Map.{get, get-insert, get-empty}
use ningshi.Engine.{Engine, Moment}
use ningshi.Engine.Plan.Induction.{make_plan_induction}
use ningshi.Engine.Plan.{Plan, record_verdict, is_protected, target_uid, plan_key, make_plan}

-- The plan has no verdict for the uid.
abbrev pub IsSilent : ℕ → Plan → Type 0
IsSilent uid plan = get plan.want uid ≡ none

module _ {M : Type 0} (e : Engine M) (uid : ℕ) where
  -- A system uid, or one that only protected packages resolve to.
  abbrev pub IsSpared : Type 0
  IsSpared =
      (key : String) → get e.uid_of key ≡ some uid → (ltb uid 10000 || is_protected e key) ≡ true

  module _ (spared : IsSpared) where
    target_uid-ne : (key : String) (v : ℕ) → target_uid e key ≡ some v → eqb v uid ≡ false
    unfolding target_uid
    target_uid-ne key v h = elim (Option-cases (get e.uid_of key)) [
      | inl missing ↦ cc (rw (missing, target_uid) at h)
      | inr (u, at) ↦ elim (Bool-cases (ltb u 10000 || is_protected e key)) [
        | inl skipped ↦ cc (rw (at, target_uid, skipped) at h)
        | inr kept ↦ elim (Bool-cases (eqb v uid)) [
          | inr ne ↦ ne
          | inl same ↦
              let found : u ≡ v = ground (arith, rw (at, target_uid, kept) at h) in
              let equal : u ≡ uid = found ∙ (eqb_iff v uid).0 same in
              cc (spared key (at ∙ ap some equal), rw equal at kept)
        ]
      ]
    ]

    plan_key-IsSilent :
        (key : String) (blocks : ℕ → Bool) (plan : Plan)
        → IsSilent uid plan
        → IsSilent uid (plan_key e key blocks plan)
    unfolding plan_key record_verdict
    plan_key-IsSilent key blocks plan h = elim (Option-cases (target_uid e key)) [
      | inl skipped ↦ rw (skipped, plan_key) h
      | inr (v, at) ↦
          rw (at, plan_key) (get-insert plan.want v uid (blocks v) ∙ rw (target_uid-ne key v at) h)
    ]

    -- Whatever the rules say, no plan has a verdict for a system uid, nor for a uid all of whose
    -- packages are protected.
    pub make_plan-IsSilent : (m : Moment) (off : Bool) → IsSilent uid (make_plan e m off)
    make_plan-IsSilent m off =
        make_plan_induction e m off (IsSilent uid) plan_key-IsSilent (get-empty uid)
