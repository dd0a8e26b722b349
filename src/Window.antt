-- ===== src/Window.antt =====
-- The time windows of daemon/src/engine.rs: `parse_hhmm`, `in_window`, the weekday helpers and
-- `window_edge_secs`. Weekdays are 1 (Monday) to 7 (Sunday), `u8` and `u32` in the source.
pub mod Meaning
pub mod Edge
pub mod First
pub mod NextEdge
pub mod Blind
use ningshi.Prelude.{
  ℕ, zero, suc, ◌+◌, ◌-◌, ◌*◌, ◌/◌, ◌%◌, max, ◌≡◌, refl, String, Bool, false, ◌&&◌, ◌||◌, List, [],
  ◌∷◌, Option, none, some, ltb, leb, eqb, if◌then◌else◌, or_else, contains, is_nil, split_once,
  parse_u32, nat_key, u32, xor,
}
use ningshi.Rules.{TimeWindow}

hhmm : Option (String × String) → ℕ
hhmm none = 0
hhmm (some (h, m)) = u32 (u32 (or_else (parse_u32 h) 0 * 60) + or_else (parse_u32 m) 0)

-- Minutes since midnight of "HH:MM".
unfoldable pub parse_hhmm : String → ℕ
unfolding hhmm
parse_hhmm s = hhmm (split_once b':' s)

unfoldable pub prev_weekday : ℕ → ℕ
prev_weekday weekday = if leb weekday 1 then 7 else weekday - 1

unfoldable pub days_allow : List ℕ → ℕ → Bool
days_allow days weekday = is_nil days || contains days weekday

abbrev pub day_allowed : TimeWindow → ℕ → Bool
day_allowed w weekday = days_allow w.days weekday

-- The tests of `in_window` behind the one for a degenerate window.
unfoldable pub inside : ℕ → ℕ → List ℕ → ℕ → ℕ → Bool
inside start end days now_min weekday =
    if ltb start end
    then days_allow days weekday && leb start now_min && ltb now_min end
    else if leb start now_min
    then days_allow days weekday
    else if ltb now_min end
    then days_allow days (prev_weekday weekday)
    else false

unfoldable pub in_window : TimeWindow → ℕ → ℕ → Bool
in_window w now_min weekday =
    let start = parse_hhmm w.start in
    let end = parse_hhmm w.end in
    if eqb start end then false else inside start end w.days now_min weekday

-- `abs % 1440` and the weekday of `abs`, with `abs = now_min + step`.
unfoldable pub step_min : ℕ → ℕ → ℕ
step_min now_min step = u32 (now_min + step) % 1440

unfoldable pub step_weekday : ℕ → ℕ → ℕ → ℕ
step_weekday now_min weekday step =
    u32 (u32 (weekday + 4294967295) + u32 (now_min + step) / 1440) % 7 + 1

-- `for step in a..` with so many rounds: the first step that passes the test.
unfoldable pub first_step : (ℕ → Bool) → ℕ → ℕ → Option ℕ
first_step test zero step = none
first_step test (suc rounds) step =
    let rest = first_step test rounds (suc step) in if test step then some step else rest

-- `((step as u64) * 60).saturating_sub(sec_in_min).max(1)`
abbrev pub edge_secs : ℕ → Option ℕ → Option ℕ
edge_secs sec_in_min none = none
edge_secs sec_in_min (some step) = some (max (step * 60 - sec_in_min) 1)

unfoldable pub window_edge_secs : TimeWindow → ℕ → ℕ → ℕ → Option ℕ
window_edge_secs w now_min weekday sec_in_min =
    let start = parse_hhmm w.start in
    let end = parse_hhmm w.end in
    let now = in_window w now_min weekday in
    let flips = λ (step : ℕ).
      xor (inside start end w.days (step_min now_min step) (step_weekday now_min weekday step))
        now in
    if eqb start end then none else edge_secs sec_in_min (first_step flips 2880 1)
