-- ===== src/Timezone.antt =====
-- `parse_tz` and the offset that `now_parts` uses, of daemon/src/engine.rs.
use ningshi.Prelude.{
  String, Option, none, some, ltb, if◌then◌else◌, string_key, ◌==◌, trim, strip_prefix,
}
use ningshi.Prelude.Int.{ℤ, pos, nat_abs, parse_i32, wrapping_mul}

hours_text : Option String → Option ℤ
hours_text none = none
hours_text (some s) = parse_i32 s

hours : Option ℤ → Option ℤ
hours none = none
hours (some n) = some (wrapping_mul n 3600)

-- Seconds east of UTC; `none` for a text that is no fixed offset.
unfoldable pub parse_tz : String → Option ℤ
unfolding hours_text hours
parse_tz value =
    if trim value == "UTC"
    then some (pos 0)
    else hours (hours_text (strip_prefix "UTC" (trim value)))

-- `east_opt(secs)` where it is a valid offset, and UTC otherwise.
unfoldable pub offset : Option ℤ → ℤ
offset none = pos 0
offset (some secs) = if ltb (nat_abs secs) 86400 then secs else pos 0
