-- ===== src/Engine/Extension.antt =====
-- `add_extension` and `group_of_member` of daemon/src/engine.rs.
pub mod Budget
pub mod Grant
pub mod Frame
use ningshi.Prelude.{
  ℕ, ◌+◌, ◌-◌, ◌*◌, min, max, String, List, [], ◌∷◌, Option, none, some, leb, u64, or_else,
  contains, if◌then◌else◌, nat_key, string_key, is_some, not, ◌&&◌,
}
use ningshi.Prelude.Map.{Map, get, insert, contains_key}
use ningshi.Rules.{GroupRule}
use ningshi.Engine.{Engine}

pub data ExtensionError : Type 0 where
  managed_by : String → ExtensionError
  limit_reached unknown_key : ExtensionError

pub data Granted : Type 0 where
  ok : ℕ → Granted
  err : ExtensionError → Granted

abbrev pub daily_cap : ℕ
daily_cap = 120

unfoldable pub find_member : Map String GroupRule → String → Option String
find_member [] key = none
find_member ((gid, g) ∷ groups) key =
    let rest = find_member groups key in if contains g.members key then some gid else rest

-- The new deadline of an extension: `base + (add as u64) * 60`.
abbrev pub extended : Option ℕ → ℕ → ℕ → ℕ
extended until now add = u64 (max (or_else until 0) now + add * 60)

module _ {M : Type 0} where
  unfoldable pub group_of_member : Engine M → String → Option String
  unfolding find_member
  group_of_member e key = find_member e.rules.groups key

  unfoldable pub extend_uid : Engine M → ℕ → ℕ → ℕ → Engine M × Granted
  extend_uid e uid now minutes =
      let used = or_else (get e.ext_granted_today uid) 0 in
      let add = min minutes (daily_cap - used) in
      if leb daily_cap used then (e, err limit_reached) else (
        record e {
          ext_granted_today = insert e.ext_granted_today uid (used + add);
          extension_until =
              insert e.extension_until uid (extended (get e.extension_until uid) now add);
        },
        ok add,
      )

  unfoldable pub extend_group : Engine M → String → ℕ → ℕ → Engine M × Granted
  extend_group e gid now minutes =
      let used = or_else (get e.group_ext_granted_today gid) 0 in
      let add = min minutes (daily_cap - used) in
      if leb daily_cap used then (e, err limit_reached) else (
        record e {
          group_ext_granted_today = insert e.group_ext_granted_today gid (used + add);
          group_extension_until =
              insert e.group_extension_until gid
                (extended (get e.group_extension_until gid) now add);
        },
        ok add,
      )

  -- The part behind the refusal of a group's member.
  unfoldable pub extend_key : Option ℕ → Engine M → String → ℕ → ℕ → Engine M × Granted
  unfolding extend_uid extend_group contains_key
  extend_key (some uid) e key now minutes = extend_uid e uid now minutes
  extend_key none e key now minutes =
      if contains_key e.rules.groups key
      then extend_group e key now minutes
      else (e, err unknown_key)

  -- `group_of_member` as it is consulted: only for a key with no rule of its own.
  unfoldable pub owner : Engine M → String → Option String
  unfolding group_of_member contains_key
  owner e key = if contains_key e.rules.apps key then none else group_of_member e key

  unfoldable pub add_extension : Engine M → String → ℕ → ℕ → Engine M × Granted
  unfolding extend_key owner
  add_extension e key now minutes = elim (owner e key) [
    | some gid ↦ (e, err (managed_by gid))
    | none ↦ extend_key (get e.uid_of key) e key now minutes
  ]
