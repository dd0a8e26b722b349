-- ===== src/Engine/Reload.antt =====
-- `load_rules`, `reload`, `reload_if_changed` and `apply_rules_file` of
-- daemon/src/engine.rs, with the rule file and its backup as state.
pub mod Keep
pub mod Install
pub mod Frame
pub mod Lost
use ningshi.Prelude.{
  ℕ, ◌≤◌, ◌<◌, String, Bool, true, false, not, ◌&&◌, List, [], ◌∷◌, map, Option, none, some, ltb,
  xor, or_else, length, if◌then◌else◌, nat_key, string_key, split_once,
}
use ningshi.Prelude.Map.{Map, get, insert, remove}
use ningshi.Prelude.Set
use ningshi.Rules.{Rules, GroupRule, Serde, default_rules, rules_version_max, sanitize, load}
use ningshi.Timezone.{parse_tz}
use ningshi.Engine.{Engine, RulesSource, file, backup, default}
use ningshi.Engine.Packages.{is_time}
use ningshi.Engine.Protected.{Output, resolve_protected}
use ningshi.Engine.Usage.{member_uids}

-- The texts of `rules.json` and `rules.json.ok`; `none` cannot be read.
pub record Files : Type 0 where
  pub rules_json : Option String
  pub rules_ok : Option String

-- What the system answers during one call: whether copying the backup works, the rule file's time,
-- `pm::resolve_uids`, and what the commands for the input method and the launcher leave.
pub record System : Type 0 where
  pub copies : Bool
  pub rules_mtime : Option ℕ
  pub resolved : Option (Map String ℕ)
  pub input_method : Option Output
  pub launcher : Option Output

-- `fs::copy(rules.json, rules.json.ok)`, which fails if there is nothing to read.
abbrev pub copied : Option String → Option String → Option String
copied none old = old
copied (some text) old = some text

unfoldable pub refresh_backup : System → Files → Files
refresh_backup sys files =
    if sys.copies then record files { rules_ok = copied files.rules_json files.rules_ok } else files

-- The flags before a reload, to find the groups whose flag it changes.
abbrev pub shared_flags : Map String GroupRule → Map String Bool
shared_flags [] = []
shared_flags ((gid, g) ∷ groups) = (gid, g.shared_pool) ∷ shared_flags groups

-- `groups.get(&gid).map(|g| g.shared_pool).unwrap_or(old)`
abbrev pub new_flag : Option GroupRule → Bool → Bool
new_flag none old = old
new_flag (some g) old = g.shared_pool

abbrev pub is_file : RulesSource → Bool
is_file file = true
is_file backup = false
is_file default = false

abbrev pub seen_mtime : Option ℕ → Option ℕ → Option ℕ
seen_mtime none old = old
seen_mtime (some t) old = some t

module _ {M : Type 0} where
  abbrev with_rules : Engine M → Rules → RulesSource → Engine M
  with_rules e rules source = record e { rules = rules; rules_source = source }

  -- The live file, else the last good copy, else nothing.
  unfoldable pub load_rules : Serde → System → Engine M → Files → Engine M × Files
  unfolding refresh_backup
  load_rules serde sys e files = elim (load serde files.rules_json) [
    | some rules ↦ (with_rules e rules file, refresh_backup sys files)
    | none ↦ elim (load serde files.rules_ok) [
      | some rules ↦ (with_rules e rules backup, files)
      | none ↦ (with_rules e default_rules default, files)
    ]
  ]

  -- The first statement of `reload`: rules that parse are taken; else running rules stay, unless
  -- they are a fallback.
  unfoldable pub reload_rules : Serde → System → Engine M → Files → Engine M × Files
  reload_rules serde sys e files = elim (load serde files.rules_json) [
    | some rules ↦ (with_rules e rules file, refresh_backup sys files)
    | none ↦ if is_file e.rules_source then (e, files) else load_rules serde sys e files
  ]

  unfoldable pub drop_cooldowns : Engine M → List ℕ → Engine M
  drop_cooldowns e [] = e
  drop_cooldowns e (uid ∷ uids) =
      drop_cooldowns (record e { cooldown_until = remove e.cooldown_until uid }) uids

  -- The members of a group that is gone are not looked at.
  unfoldable pub drop_member_cooldowns : Option GroupRule → Engine M → Engine M
  unfolding drop_cooldowns member_uids
  drop_member_cooldowns none e = e
  drop_member_cooldowns (some g) e = drop_cooldowns e (member_uids e g.members)

  -- One group that was there before.
  unfoldable pub reset_one : String → Bool → Engine M → Engine M
  unfolding drop_member_cooldowns
  reset_one gid old e =
      if xor (new_flag (get e.rules.groups gid) old) old
      then drop_member_cooldowns (get e.rules.groups gid)
          (record e { group_cooldown_until = remove e.group_cooldown_until gid })
      else e

  unfoldable pub reset_toggled : Map String Bool → Engine M → Engine M
  unfolding reset_one
  reset_toggled [] e = e
  reset_toggled ((gid, old) ∷ flags) e = reset_toggled flags (reset_one gid old e)

  -- The statements between the rules and the uid map.
  unfoldable pub refresh_settings : System → Engine M → Engine M
  unfolding resolve_protected
  refresh_settings sys e = record e {
    tz_secs = parse_tz e.rules.settings.timezone;
    protected = resolve_protected sys.input_method sys.launcher;
  }

  unfoldable pub finish_reload : System → Map String Bool → Map String ℕ → Engine M → Engine M
  unfolding reset_toggled
  finish_reload sys flags uids e =
      reset_toggled flags
        (record e { uid_of = uids; last_mtime = seen_mtime sys.rules_mtime e.last_mtime })

  -- `pm::resolve_uids()?` and what follows; `false` is an error.
  unfoldable pub with_uids :
      Option (Map String ℕ)
      → System
      → Map String Bool
      → Engine M
      → Files
      → (Engine M × Files) × Bool
  with_uids none sys flags e files = ((e, files), false)
  with_uids (some uids) sys flags e files = ((finish_reload sys flags uids e, files), true)

  unfoldable pub reload : Serde → System → Engine M → Files → (Engine M × Files) × Bool
  reload serde sys e files =
      let (e', files') = reload_rules serde sys e files in
      with_uids sys.resolved sys (shared_flags e.rules.groups) (refresh_settings sys e') files'

  unfoldable pub reload_if_changed : Serde → System → Engine M → Files → (Engine M × Files) × Bool
  reload_if_changed serde sys e files = elim sys.rules_mtime [
    | none ↦ ((e, files), true)
    | some t ↦ if is_time e.last_mtime t then ((e, files), true) else reload serde sys e files
  ]

pub data ApplyError : Type 0 where
  cannot_read invalid_rules not_printed not_written not_reloaded not_read_back : ApplyError
  newer_version : ℕ → ApplyError

pub data Applied : Type 0 where
  ok : ℕ → Applied
  err : ApplyError → Applied

-- `Rules` behind the checks of `apply_rules_file`, and its text.
pub data Checked : Type 0 where
  good : String → Checked
  bad : ApplyError → Checked

abbrev printed : Option String → Checked
printed none = bad not_printed
printed (some text) = good text

abbrev checked_version : Serde → Rules → Checked
checked_version serde r =
    if ltb rules_version_max r.version
    then bad (newer_version r.version)
    else printed (serde.to_string_pretty (sanitize r))

abbrev checked_rules : Serde → Option Rules → Checked
checked_rules serde none = bad invalid_rules
checked_rules serde (some r) = checked_version serde r

unfoldable pub check_candidate : Serde → Option String → Checked
check_candidate serde none = bad cannot_read
check_candidate serde (some text) = checked_rules serde (serde.from_str text)

module _ {M : Type 0} where
  abbrev pub reloaded : (Engine M × Files) × Bool → (Engine M × Files) × Applied
  reloaded (s, false) = (s, err not_reloaded)
  reloaded ((e, files), true) =
      if is_file e.rules_source
      then ((e, files), ok (length e.rules.apps))
      else ((e, files), err not_read_back)

  -- `written` says whether writing, protecting and renaming the new file all work.
  unfoldable pub install :
      Serde → System → Bool → Checked → Engine M → Files → (Engine M × Files) × Applied
  install serde sys written (bad x) e files = ((e, files), err x)
  install serde sys written (good text) e files =
      if written
      then reloaded (reload serde sys e (record files { rules_json = some text }))
      else ((e, files), err not_written)

  unfoldable pub apply_rules_file :
      Serde → System → Bool → Option String → Engine M → Files → (Engine M × Files) × Applied
  unfolding install check_candidate
  apply_rules_file serde sys written candidate e files =
      install serde sys written (check_candidate serde candidate) e files
