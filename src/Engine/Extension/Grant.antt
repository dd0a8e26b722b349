-- ===== src/Engine/Extension/Grant.antt =====
-- What a granted request changes, and that a refused one changes nothing.
use ningshi.Prelude.{
  ℕ, ◌+◌, ◌-◌, ◌*◌, ◌≤◌, ◌<◌, min, max, ◌≡◌, refl, ◌⊎◌, inl, inr, String, Option, none, some, arith,
  or_else, leb, nat_key, string_key, Bool-cases, Option-cases,
}
use ningshi.Prelude.Map.{get, get-insert_self, contains_key}
use ningshi.Engine.{Engine}
use ningshi.Engine.Extension.{
  ExtensionError, ok, err, daily_cap, extend_uid, extend_group, extend_key, owner, add_extension,
}

-- `n` minutes more are on the day's account, and the deadline is that much later, counted from
-- now if the old one has passed.
abbrev pub IsExtended : Option ℕ → Option ℕ → Option ℕ → Option ℕ → ℕ → ℕ → Type 0
IsExtended granted granted' until until' now n =
    (or_else granted' 0 ≡ or_else granted 0 + n)
    × (or_else until' 0 ≡ max (or_else until 0) now + n * 60)

abbrev pub Fits : Option ℕ → ℕ → Type 0
Fits until now = max (or_else until 0) now + 7200 < 18446744073709551616

module _ {M : Type 0} where
  extend_uid_refused :
      (e : Engine M) (uid now minutes : ℕ) (x : ExtensionError)
      → (extend_uid e uid now minutes).1 ≡ err x
      → (extend_uid e uid now minutes).0 ≡ e
  unfolding extend_uid
  extend_uid_refused e uid now minutes x h =
      elim (Bool-cases (leb daily_cap (or_else (get e.ext_granted_today uid) 0))) [
        | inl full ↦ rw full
        | inr room ↦ cc (rw room at h)
      ]

  extend_group_refused :
      (e : Engine M) (gid : String) (now minutes : ℕ) (x : ExtensionError)
      → (extend_group e gid now minutes).1 ≡ err x
      → (extend_group e gid now minutes).0 ≡ e
  unfolding extend_group
  extend_group_refused e gid now minutes x h =
      elim (Bool-cases (leb daily_cap (or_else (get e.group_ext_granted_today gid) 0))) [
        | inl full ↦ rw full
        | inr room ↦ cc (rw room at h)
      ]

  extend_key_refused :
      (o : Option ℕ) (e : Engine M) (key : String) (now minutes : ℕ) (x : ExtensionError)
      → (extend_key o e key now minutes).1 ≡ err x
      → (extend_key o e key now minutes).0 ≡ e
  unfolding extend_key
  extend_key_refused (some uid) e key now minutes x h = extend_uid_refused e uid now minutes x h
  extend_key_refused none e key now minutes x h =
      elim (Bool-cases (contains_key e.rules.groups key)) [
        | inl there ↦ rw there (extend_group_refused e key now minutes x (rw there at h))
        | inr not_there ↦ rw not_there
      ]

  -- A request that is refused leaves the whole state as it was.
  add_extension_refused :
      (e : Engine M) (key : String) (now minutes : ℕ) (x : ExtensionError)
      → (add_extension e key now minutes).1 ≡ err x
      → (add_extension e key now minutes).0 ≡ e
  unfolding add_extension
  add_extension_refused e key now minutes x h = elim (Option-cases (owner e key)) [
    | inl free ↦
        rw (free, add_extension)
          (extend_key_refused (get e.uid_of key) e key now minutes x
            (rw (free, add_extension) at h))
    | inr (gid, owned) ↦ rw (owned, add_extension)
  ]

  extend_uid_granted :
      (e : Engine M) (uid now minutes n : ℕ)
      → Fits (get e.extension_until uid) now
      → (extend_uid e uid now minutes).1 ≡ ok n
      → let e' = (extend_uid e uid now minutes).0 in
        (n ≤ minutes)
        × IsExtended
            (get e.ext_granted_today uid)
            (get e'.ext_granted_today uid)
            (get e.extension_until uid)
            (get e'.extension_until uid)
            now
            n
  unfolding extend_uid
  extend_uid_granted e uid now minutes n room h =
      elim (Bool-cases (leb daily_cap (or_else (get e.ext_granted_today uid) 0))) [
        | inl full ↦ cc (rw full at h)
        | inr free ↦
            let same : min minutes (daily_cap - or_else (get e.ext_granted_today uid) 0) ≡ n =
              ground (arith, rw free at h) in
            rw (free, get-insert_self, get-insert_self, ← same)
              (omega arith, (omega arith, omega arith))
      ]

  extend_group_granted :
      (e : Engine M) (gid : String) (now minutes n : ℕ)
      → Fits (get e.group_extension_until gid) now
      → (extend_group e gid now minutes).1 ≡ ok n
      → let e' = (extend_group e gid now minutes).0 in
        (n ≤ minutes)
        × IsExtended
            (get e.group_ext_granted_today gid)
            (get e'.group_ext_granted_today gid)
            (get e.group_extension_until gid)
            (get e'.group_extension_until gid)
            now
            n
  unfolding extend_group
  extend_group_granted e gid now minutes n room h =
      elim (Bool-cases (leb daily_cap (or_else (get e.group_ext_granted_today gid) 0))) [
        | inl full ↦ cc (rw full at h)
        | inr free ↦
            let same : min minutes (daily_cap - or_else (get e.group_ext_granted_today gid) 0) ≡ n =
              ground (arith, rw free at h) in
            rw (free, get-insert_self, get-insert_self, ← same)
              (omega arith, (omega arith, omega arith))
      ]

  -- The key is an installed app's and its own account is charged, or it is a group's and the
  -- group's account is.
  abbrev pub IsCharged : Engine M → Engine M → String → ℕ → ℕ → Type 0
  IsCharged e e' key now n =
      ((uid : ℕ) × (get e.uid_of key ≡ some uid)
        × IsExtended (get e.ext_granted_today uid) (get e'.ext_granted_today uid)
            (get e.extension_until uid) (get e'.extension_until uid) now n)
      ⊎ ((get e.uid_of key ≡ none)
          × IsExtended (get e.group_ext_granted_today key) (get e'.group_ext_granted_today key)
              (get e.group_extension_until key) (get e'.group_extension_until key) now n)

  module _ (e : Engine M) (key : String) (now minutes n : ℕ)
      (uids_fit : (uid : ℕ) → Fits (get e.extension_until uid) now)
      (groups_fit : (gid : String) → Fits (get e.group_extension_until gid) now) where
    extend_key_granted :
        (o : Option ℕ)
        → get e.uid_of key ≡ o
        → (extend_key o e key now minutes).1 ≡ ok n
        → (n ≤ minutes) × IsCharged e (extend_key o e key now minutes).0 key now n
    unfolding extend_key
    extend_key_granted (some uid) at h =
        let (le, done) = extend_uid_granted e uid now minutes n (uids_fit uid) h in
        (le, inl (uid, at, done))
    extend_key_granted none at h = elim (Bool-cases (contains_key e.rules.groups key)) [
      | inl there ↦
          let (le, done) =
            extend_group_granted e key now minutes n (groups_fit key) (rw there at h) in
          rw there (le, inr (at, done))
      | inr not_there ↦ cc (rw not_there at h)
    ]

    -- A granted request gives at most the minutes that were asked for, charges exactly what it
    -- gives, and moves the deadline by as much. The deadlines do not wrap around.
    pub add_extension_granted :
        (add_extension e key now minutes).1 ≡ ok n
        → (n ≤ minutes) × IsCharged e (add_extension e key now minutes).0 key now n
    unfolding add_extension
    add_extension_granted h = elim (Option-cases (owner e key)) [
      | inl free ↦
          rw (free, add_extension)
            (extend_key_granted (get e.uid_of key) refl (rw (free, add_extension) at h))
      | inr (gid, owned) ↦ cc (rw (owned, add_extension) at h)
    ]
