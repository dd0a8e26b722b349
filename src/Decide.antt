-- ===== src/Decide.antt =====
-- `eval` of daemon/src/engine.rs: whether one rule set blocks, given the moment and four flags.
pub mod Meaning
use ningshi.Prelude.{
  ℕ, String, Bool, true, false, not, ◌&&◌, ◌||◌, List, any, if◌then◌else◌, is_nil, string_key, ◌==◌,
}
use ningshi.Rules.{TimeWindow, TimeWindows, RuleSet}
use ningshi.Window.{in_window}

-- The last part of `eval`.
unfoldable pub windows_block : TimeWindows → ℕ → ℕ → Bool
windows_block tw now_min weekday =
    let in_any = any (λ w. in_window w now_min weekday) tw.windows in
    if is_nil tw.windows
    then false
    else if tw.mode == "block"
    then (if in_any then true else false)
    else if not in_any
    then true
    else false

unfoldable pub eval : RuleSet → ℕ → ℕ → Bool → Bool → Bool → Bool → Bool
eval rules now_min weekday ext_active over_duration cooldown screen_off =
    if ext_active
    then false
    else if rules.always_on
    then true
    else if rules.lock_block && screen_off
    then true
    else if cooldown
    then true
    else if over_duration
    then true
    else windows_block rules.time_windows now_min weekday
