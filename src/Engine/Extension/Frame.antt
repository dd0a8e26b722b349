-- ===== src/Engine/Extension/Frame.antt =====
-- What a request for more time keeps: whatever the four tables of extensions do not matter for.
use ningshi.Prelude.{
  ℕ, inl, inr, String, Option, none, some, leb, or_else, nat_key, string_key, Bool-cases,
  Option-cases,
}
use ningshi.Prelude.Map.{Map, get, contains_key}
use ningshi.Engine.{Engine}
use ningshi.Engine.Extension.{daily_cap, add_extension, extend_key, owner, extend_uid, extend_group}

module _ {ℓ} {M : Type 0} (P : Engine M → Type ℓ)
    (for_uid : (e : Engine M) (granted until : Map ℕ ℕ)
      → P e
      → P (record e { ext_granted_today = granted; extension_until = until }))
    (for_group : (e : Engine M) (granted until : Map String ℕ)
      → P e
      → P (record e { group_ext_granted_today = granted; group_extension_until = until })) where
  extend_key-keep :
      (uid : Option ℕ) (e : Engine M) (key : String) (now minutes : ℕ)
      → P e
      → P (extend_key uid e key now minutes).0
  unfolding extend_key extend_uid extend_group
  extend_key-keep (some uid) e key now minutes h =
      elim (Bool-cases (leb daily_cap (or_else (get e.ext_granted_today uid) 0))) [
        | inl spent ↦ rw spent h
        | inr left ↦ rw left (for_uid e _ _ h)
      ]
  extend_key-keep none e key now minutes h = elim (Bool-cases (contains_key e.rules.groups key)) [
    | inr unknown ↦ rw unknown h
    | inl group ↦
        rw group
          (elim (Bool-cases (leb daily_cap (or_else (get e.group_ext_granted_today key) 0))) [
            | inl spent ↦ rw spent h
            | inr left ↦ rw left (for_group e _ _ h)
          ])
  ]

  pub add_extension-keep :
      (e : Engine M) (key : String) (now minutes : ℕ) → P e → P (add_extension e key now minutes).0
  unfolding add_extension
  add_extension-keep e key now minutes h = elim (Option-cases (owner e key)) [
    | inl free ↦ rw (free, add_extension) (extend_key-keep (get e.uid_of key) e key now minutes h)
    | inr (gid, owned) ↦ rw (owned, add_extension) h
  ]
