-- ===== src/Rules.antt =====
-- daemon/src/rules.rs: the rule file's types, loading, and the repair of weekday sets.
-- `serde_json` is a parameter: `Serde` holds its parser and its printer at the type `Rules`.
pub mod Days
pub mod Sanitize
use ningshi.Prelude.{
  ℕ, ◌≡◌, String, Bool, true, false, ◌&&◌, List, [], ◌∷◌, ◌++◌, map, Option, none, some, leb,
  filter, if◌then◌else◌, nat_key,
}
use ningshi.Prelude.Map.{Map}
use ningshi.Prelude.Sort.{sort, dedup}

abbrev pub rules_version_max : ℕ
rules_version_max = 1

pub record TimeWindow : Type 0 where
  pub start : String
  pub end : String
  pub days : List ℕ

pub record TimeWindows : Type 0 where
  pub mode : String
  pub windows : List TimeWindow

pub record DurationRule : Type 0 where
  pub limit_minutes : ℕ
  pub freeze_minutes : ℕ
  pub scope : String

pub record RuleSet : Type 0 where
  pub always_on : Bool
  pub lock_block : Bool
  pub time_windows : TimeWindows
  pub duration : DurationRule

pub record AppRule : Type 0 where
  pub enabled : Bool
  pub rules : RuleSet

pub record GroupRule : Type 0 where
  pub name : String
  pub enabled : Bool
  pub shared_pool : Bool
  pub members : List String
  pub rules : RuleSet

pub record Settings : Type 0 where
  pub timezone : String
  pub language : String
  pub clear_log_on_boot : Bool

pub record Rules : Type 0 where
  pub version : ℕ
  pub settings : Settings
  pub apps : Map String AppRule
  pub groups : Map String GroupRule

abbrev pub default_settings : Settings
default_settings = record { timezone = "UTC"; language = "en"; clear_log_on_boot = false }

-- `Rules::default()`
abbrev pub default_rules : Rules
default_rules = record { version = 0; settings = default_settings; apps = []; groups = [] }

-- (1..=7).contains(d)
abbrev pub in_week : ℕ → Bool
in_week d = leb 1 d && leb d 7

-- The three calls on `w.days`: `retain`, `sort_unstable`, `dedup`.
unfoldable pub sanitize_days : List ℕ → List ℕ
sanitize_days days = dedup (sort leb (filter in_week days))

unfoldable pub sanitize_window : TimeWindow → TimeWindow
sanitize_window w = record w { days = sanitize_days w.days }

unfoldable pub sanitize_set : RuleSet → RuleSet
sanitize_set s = record s { time_windows = record tw { windows = map sanitize_window tw.windows } }
  where
    tw : TimeWindows
    tw = s.time_windows

abbrev pub sanitize_app : String × AppRule → String × AppRule
sanitize_app (key, a) = (key, record a { rules = sanitize_set a.rules })

abbrev pub sanitize_group : String × GroupRule → String × GroupRule
sanitize_group (gid, g) = (gid, record g { rules = sanitize_set g.rules })

unfoldable pub sanitize : Rules → Rules
sanitize r = record r { apps = map sanitize_app r.apps; groups = map sanitize_group r.groups }

-- `serde_json::from_str` and `serde_json::to_string_pretty`; `none` is an error.
pub record Serde : Type 0 where
  pub from_str : String → Option Rules
  pub to_string_pretty : Rules → Option String

abbrev parsed : Option Rules → Option Rules
parsed none = none
parsed (some r) = some (sanitize r)

-- `Rules::load`, given what reading the file returned.
unfoldable pub load : Serde → Option String → Option Rules
load serde none = none
load serde (some text) = parsed (serde.from_str text)
