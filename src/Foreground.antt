-- ===== src/Foreground.antt =====
-- daemon/src/fg.rs: which uids live and which are in front, and whether the display is off. The
-- texts of the files and the owners of processes are arguments.
pub mod Snapshot
pub mod Screen
use ningshi.Prelude.{
  ℕ, String, Bool, true, false, not, ◌&&◌, ◌||◌, List, [], ◌∷◌, Option, none, some, ltb, contains,
  is_nil, if◌then◌else◌, nat_key, string_key, ◌==◌, split_whitespace, has_char, has_text, trim,
}
use ningshi.Prelude.Int.{ℤ, pos, negsuc, parse_i32}
use ningshi.Prelude.Set.{insert}

-- A pid above 1.
abbrev pub pid_of : Option ℤ → Option ℕ
pid_of none = none
pid_of (some (pos n)) = if ltb 1 n then some n else none
pid_of (some (negsuc n)) = none

abbrev pub add_pid : List ℕ → Option ℕ → List ℕ
add_pid set none = set
add_pid set (some pid) = insert set pid

unfoldable pub parse_pids : List ℕ → List String → List ℕ
parse_pids set [] = set
parse_pids set (tok ∷ toks) = parse_pids (add_pid set (pid_of (parse_i32 tok))) toks

-- The candidates' texts in order; `none` cannot be read. The first that names a pid is taken.
unfoldable pub top_app_pids : List (Option String) → List ℕ
unfolding parse_pids
top_app_pids [] = []
top_app_pids (none ∷ paths) = top_app_pids paths
top_app_pids (some content ∷ paths) =
    let set = parse_pids [] (split_whitespace content) in
    let rest = top_app_pids paths in if is_nil set then rest else set

-- The pids that name entries of /proc (`none`: not readable), and `pid_uid`.
pub record ProcDir : Type 0 where
  pub pids : Option (List ℕ)
  pub pid_uid : ℕ → Option ℕ

abbrev pub add_target : List ℕ → Option ℕ → List ℕ → List ℕ
add_target targets none set = set
add_target targets (some uid) set = if contains targets uid then insert set uid else set

-- The loop without a pass over /proc.
unfoldable pub front_uids : ProcDir → List ℕ → List ℕ → List ℕ → List ℕ
front_uids dir targets [] fg = fg
front_uids dir targets (pid ∷ pids) fg =
    front_uids dir targets pids (add_target targets (dir.pid_uid pid) fg)

-- One entry of /proc: `live` and `fg`.
unfoldable pub look_at : ProcDir → List ℕ → List ℕ → ℕ → List ℕ × List ℕ → List ℕ × List ℕ
look_at dir top_pids targets pid (live, fg) =
    if ltb 1 pid
    then (
      add_target targets (dir.pid_uid pid) live,
      if contains top_pids pid then add_target targets (dir.pid_uid pid) fg else fg,
    )
    else (live, fg)

unfoldable pub walk_uids : ProcDir → List ℕ → List ℕ → List ℕ → List ℕ × List ℕ → List ℕ × List ℕ
unfolding look_at
walk_uids dir top_pids targets [] acc = acc
walk_uids dir top_pids targets (pid ∷ pids) acc =
    walk_uids dir top_pids targets pids (look_at dir top_pids targets pid acc)

unfoldable pub walk_all : ProcDir → List ℕ → List ℕ → Option (List ℕ) → List ℕ × List ℕ
unfolding walk_uids
walk_all dir top_pids targets none = ([], [])
walk_all dir top_pids targets (some pids) = walk_uids dir top_pids targets pids ([], [])

unfoldable pub uids_snapshot : ProcDir → List ℕ → Bool → List ℕ → List ℕ × List ℕ
unfolding front_uids walk_all
uids_snapshot dir top_pids need_live targets =
    if not need_live
    then ([], front_uids dir targets top_pids [])
    else walk_all dir top_pids targets dir.pids

-- One entry of /sys/class/drm with the text of its `dpms` file.
pub record Connector : Type 0 where
  pub name : String
  pub dpms : Option String

abbrev pub is_physical : Connector → Bool
is_physical c = has_char b'-' c.name && not (has_text "Virtual" c.name)

-- What reading a connector says: nothing, or whether it is on.
abbrev pub power : Option String → Option Bool
power none = none
power (some s) = some (trim s == "On")

-- The loop over the connectors.
unfoldable pub scan_connectors : List Connector → Bool → Bool
scan_connectors [] found = found
scan_connectors (c ∷ cs) found =
    let rest = scan_connectors cs in
    if is_physical c
    then elim (power c.dpms) [ none ↦ rest found | some on ↦ if on then false else rest true ]
    else rest found

unfoldable pub screen_off : Option (List Connector) → Bool
unfolding scan_connectors
screen_off none = false
screen_off (some cs) = scan_connectors cs false
