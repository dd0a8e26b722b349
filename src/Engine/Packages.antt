-- ===== src/Engine/Packages.antt =====
-- `sync_packages` of daemon/src/engine.rs. The new map is the result of `pm::resolve_uids`.
pub mod Live
pub mod Migration
use ningshi.Prelude.{
  ℕ, String, Bool, true, false, List, [], ◌∷◌, Option, none, some, contains, if◌then◌else◌, nat_key,
  string_key, eqb,
}
use ningshi.Prelude.Map.{Map, get, insert, remove, retain, values}
use ningshi.Engine.{Engine}

-- `if let Some(v) = map.remove(&old) { map.insert(new, v); }`
unfoldable pub move_key : Map ℕ ℕ → ℕ → ℕ → Map ℕ ℕ
move_key m old new = elim (get m old) [ none ↦ m | some v ↦ insert (remove m old) new v ]

-- Equality of file times: `self.last_pkg_mtime == Some(mtime)`.
abbrev pub is_time : Option ℕ → ℕ → Bool
is_time none t = false
is_time (some s) t = eqb s t

-- `live.contains(&uid)`
abbrev pub is_live : Map String ℕ → ℕ → Bool
is_live uid_of uid = contains (values uid_of) uid

module _ {M : Type 0} where
  unfoldable pub move_uid : Engine M → ℕ → ℕ → Engine M
  unfolding move_key
  move_uid e old new = record e {
    usage_seconds = move_key e.usage_seconds old new;
    usage_fg = move_key e.usage_fg old new;
    extension_until = move_key e.extension_until old new;
  }

  -- One entry of the new map, against the uid that its key had.
  unfoldable pub migrate_one : Option ℕ → ℕ → Engine M → Engine M
  migrate_one none new e = e
  migrate_one (some old) new e = if eqb old new then e else move_uid e old new

  -- The loop over the new map; `uid_of` is the old one throughout.
  unfoldable pub migrate : Map String ℕ → Map String ℕ → Engine M → Engine M
  unfolding migrate_one
  migrate uid_of [] e = e
  migrate uid_of ((key, new) ∷ new_uids) e =
      migrate uid_of new_uids (migrate_one (get uid_of key) new e)

  -- The `retain`s.
  unfoldable pub drop_dead : Map String ℕ → Engine M → Engine M
  drop_dead uid_of e = record e {
    usage_seconds = retain (is_live uid_of) e.usage_seconds;
    usage_fg = retain (is_live uid_of) e.usage_fg;
    extension_until = retain (is_live uid_of) e.extension_until;
    ext_granted_today = retain (is_live uid_of) e.ext_granted_today;
    cooldown_until = retain (is_live uid_of) e.cooldown_until;
    kill_count = retain (is_live uid_of) e.kill_count;
  }

  unfoldable pub resync : ℕ → Map String ℕ → Engine M → Engine M
  resync mtime new_uids e =
      drop_dead new_uids
        (record (migrate old_uids new_uids (record e { last_pkg_mtime = some mtime })) {
          uid_of = new_uids;
        })
    where
      old_uids : Map String ℕ
      old_uids = e.uid_of

  -- `false` is an error. The file time is `none` where it cannot be read.
  unfoldable pub sync_packages : Option ℕ → Option (Map String ℕ) → Engine M → Engine M × Bool
  sync_packages none resolved e = (e, true)
  sync_packages (some mtime) resolved e =
      if is_time e.last_pkg_mtime mtime
      then (e, true)
      else elim resolved [ none ↦ (e, false) | some new_uids ↦ (resync mtime new_uids e, true) ]
