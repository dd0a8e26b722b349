-- ===== src/Engine/Plan/Names.antt =====
-- The plan's verdicts and names against the rules.
use mathlib.Core.Path.{subst}
use ningshi.Prelude.{
  ℕ, ◌≡◌, ◌≢◌, sym, inl, inr, String, Bool, true, false, List, [], ◌∷◌, ◌++◌, Option, none, some,
  arith, eqb, eqb_iff, contains, or_else, nat_key, string_key, Bool-cases, Option-cases, ==_refl,
}
use ningshi.Prelude.Map.{Map, get, get-insert, get-insert_self, get-empty}
use ningshi.Engine.{Engine, Moment}
use ningshi.Engine.Plan.Induction.{make_plan_induction}
use ningshi.Engine.Plan.{
  Plan, push_name, record_verdict, target_uid, plan_key, make_plan, package_of,
}

contains-append_left :
    (xs ys : List String) (x : String) → contains xs x ≡ true → contains (xs ++ ys) x ≡ true
contains-append_left [] ys x h = cc
contains-append_left (y ∷ xs) ys x h = ground (arith, contains-append_left xs ys x)

contains-append_self : (xs : List String) (x : String) → contains (xs ++ x ∷ []) x ≡ true
contains-append_self [] x = ground (arith, ==_refl x)
contains-append_self (y ∷ xs) x = ground (arith, contains-append_self xs x)

-- Some package name is on the list of the uid.
abbrev pub IsNamed : ℕ → Map ℕ (List String) → Type 0
IsNamed uid names = (pkg : String) × (contains (or_else (get names uid) []) pkg ≡ true)

push_name-keeps :
    (names : Map ℕ (List String)) (v uid : ℕ) (pkg : Option String)
    → IsNamed uid names
    → IsNamed uid (push_name names v pkg)
unfolding push_name
push_name-keeps names v uid none h = h
push_name-keeps names v uid (some pkg) (q, h) = elim (Bool-cases (eqb v uid)) [
  | inl same ↦ (
    q,
    rw (get-insert, same)
        (contains-append_left (or_else (get names v) []) (pkg ∷ []) q (
          subst (λ x. contains (or_else (get names x) []) q ≡ true) (sym ((eqb_iff v uid).0 same))
            h)),
  )
  | inr ne ↦ (q, rw (get-insert, ne) h)
]

push_name_self :
    (names : Map ℕ (List String)) (uid : ℕ) (pkg : String)
    → IsNamed uid (push_name names uid (some pkg))
unfolding push_name
push_name_self names uid pkg =
    (pkg, rw get-insert_self (contains-append_self (or_else (get names uid) []) pkg))

-- A blocked uid has a name.
abbrev IsServed : ℕ → Plan → Type 0
IsServed uid plan = get plan.want uid ≡ some true → IsNamed uid plan.names

record_verdict-IsServed :
    (uid : ℕ) (plan : Plan) (key pkg : String) (v : ℕ) (block : Bool)
    → package_of key ≡ some pkg
    → IsServed uid plan
    → IsServed uid (record_verdict plan key v block)
unfolding record_verdict
record_verdict-IsServed uid plan key pkg v true named h w = elim (Bool-cases (eqb v uid)) [
  | inl same ↦ rw named (
      subst (λ x. IsNamed x (push_name plan.names v (some pkg))) ((eqb_iff v uid).0 same)
        (push_name_self plan.names v pkg))
  | inr ne ↦ push_name-keeps plan.names v uid (package_of key) (h (rw (get-insert, ne) at w))
]
record_verdict-IsServed uid plan key pkg v false named h w = elim (Bool-cases (eqb v uid)) [
  | inl same ↦ cc (rw (get-insert, same) at w)
  | inr ne ↦ h (rw (get-insert, ne) at w)
]

-- Every key that resolves to a uid has a package behind its colon.
abbrev pub HasPackages : Map String ℕ → Type 0
HasPackages uid_of = (key : String) → get uid_of key ≢ none → package_of key ≢ none

module _ {M : Type 0} (e : Engine M) (keyed : HasPackages e.uid_of) (uid : ℕ) where
  target_uid-package : (key : String) (v : ℕ) → target_uid e key ≡ some v → package_of key ≢ none
  unfolding target_uid
  target_uid-package key v h = elim (Option-cases (get e.uid_of key)) [
    | inl missing ↦ cc (rw (missing, target_uid) at h)
    | inr (u, at) ↦ keyed key (λ gone. cc (at, gone))
  ]

  plan_key-IsServed :
      (key : String) (blocks : ℕ → Bool) (plan : Plan)
      → IsServed uid plan
      → IsServed uid (plan_key e key blocks plan)
  unfolding plan_key
  plan_key-IsServed key blocks plan h = elim (Option-cases (target_uid e key)) [
    | inl skipped ↦ rw (skipped, plan_key) h
    | inr (v, at) ↦ elim (Option-cases (package_of key)) [
      | inl nameless ↦ absurd (target_uid-package key v at nameless)
      | inr (pkg, named) ↦
          rw (at, plan_key) (record_verdict-IsServed uid plan key pkg v (blocks v) named h)
    ]
  ]

  -- A uid that is to be blocked has a package name for the killer to confirm, provided that every
  -- installed key has a package in it.
  pub make_plan-IsNamed :
      (m : Moment) (off : Bool)
      → get (make_plan e m off).want uid ≡ some true
      → IsNamed uid (make_plan e m off).names
  make_plan-IsNamed m off =
      make_plan_induction e m off (IsServed uid) plan_key-IsServed
        (λ w. cc (w, get-empty {V = Bool} uid))
