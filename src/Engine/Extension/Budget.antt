-- ===== src/Engine/Extension/Budget.antt =====
-- The daily budget of extensions.
use ningshi.Prelude.{
  ℕ, ◌+◌, ◌-◌, ◌≤◌, min, inl, inr, String, Option, none, some, arith, or_else, nat_key, string_key,
  Bool-cases, Option-cases, Key,
}
use ningshi.Prelude.Map.{Map, get, get-insert, contains_key}
use ningshi.Engine.{Engine}
use ningshi.Engine.Extension.{daily_cap, extend_uid, extend_group, extend_key, owner, add_extension}

-- No key of the map has more than the cap.
abbrev pub IsCapped {ℓ} : {K : Type ℓ} ⦃eq : Key K⦄ → Map K ℕ → Type ℓ
IsCapped {K} m = (k : K) → or_else (get m k) 0 ≤ daily_cap

module _ {M : Type 0} where
  abbrev pub IsWithinBudget : Engine M → Type 0
  IsWithinBudget e = IsCapped e.ext_granted_today × IsCapped e.group_ext_granted_today

  extend_uid-IsWithinBudget :
      (e : Engine M) (uid now minutes : ℕ)
      → IsWithinBudget e
      → IsWithinBudget (extend_uid e uid now minutes).0
  unfolding extend_uid
  extend_uid-IsWithinBudget e uid now minutes h = (
    λ k. ground (
      arith,
      h.0 k,
      get-insert e.ext_granted_today uid k (
          or_else (get e.ext_granted_today uid) 0
          + min minutes (daily_cap - or_else (get e.ext_granted_today uid) 0)),
    ),
    λ k. ground (arith, h.1 k),
  )

  extend_group-IsWithinBudget :
      (e : Engine M) (gid : String) (now minutes : ℕ)
      → IsWithinBudget e
      → IsWithinBudget (extend_group e gid now minutes).0
  unfolding extend_group
  extend_group-IsWithinBudget e gid now minutes h = (
    λ k. ground (arith, h.0 k),
    λ k. ground (
      arith,
      h.1 k,
      get-insert e.group_ext_granted_today gid k (
          or_else (get e.group_ext_granted_today gid) 0
          + min minutes (daily_cap - or_else (get e.group_ext_granted_today gid) 0)),
    ),
  )

  extend_key-IsWithinBudget :
      (o : Option ℕ) (e : Engine M) (key : String) (now minutes : ℕ)
      → IsWithinBudget e
      → IsWithinBudget (extend_key o e key now minutes).0
  unfolding extend_key
  extend_key-IsWithinBudget (some uid) e key now minutes h =
      extend_uid-IsWithinBudget e uid now minutes h
  extend_key-IsWithinBudget none e key now minutes h =
      elim (Bool-cases (contains_key e.rules.groups key)) [
        | inl there ↦ rw there (extend_group-IsWithinBudget e key now minutes h)
        | inr not_there ↦ rw not_there h
      ]

  -- No request, granted or refused, takes an app or a group past 120 minutes a day.
  pub add_extension-IsWithinBudget :
      (e : Engine M) (key : String) (now minutes : ℕ)
      → IsWithinBudget e
      → IsWithinBudget (add_extension e key now minutes).0
  unfolding add_extension
  add_extension-IsWithinBudget e key now minutes h = elim (Option-cases (owner e key)) [
    | inl free ↦
        rw (free, add_extension) (extend_key-IsWithinBudget (get e.uid_of key) e key now minutes h)
    | inr (gid, owned) ↦ rw (owned, add_extension) h
  ]
