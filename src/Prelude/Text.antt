-- ===== src/Prelude/Text.antt =====
-- Texts: the parts of `str` that the daemon uses, by recursion over the characters.
use Prim.Native.Nat.{ℕ, ◌+◌, ◌-◌, ◌*◌}
use Prim.Native.Char.{Char, code}
use Prim.Native.String.{String}
use mathlib.Core.Bool.{Bool, true, false, ◌&&◌, ◌||◌}
use mathlib.Core.Option.{Option, none, some}
use mathlib.Core.List.{List, [], ◌∷◌}
use ningshi.Prelude.Tests.{ltb, leb, eqb, is_some, if◌then◌else◌}

abbrev pub is_empty : String → Bool
is_empty String.[] = true
is_empty (String.◌∷◌ c s) = false

unfoldable pub cons_fst : Char → Option (String × String) → Option (String × String)
cons_fst c none = none
cons_fst c (some (a, b)) = some (String.◌∷◌ c a, b)

-- str::split_once, at a single character given by its code
unfoldable pub split_once : ℕ → String → Option (String × String)
unfolding cons_fst
split_once sep String.[] = none
split_once sep (String.◌∷◌ c s) =
    if eqb (code c) sep then some (String.[], s) else cons_fst c (split_once sep s)

unfoldable pub digits_from : ℕ → String → Option ℕ
digits_from acc String.[] = some acc
digits_from acc (String.◌∷◌ c s) =
    let rest = digits_from (acc * 10 + (code c - 48)) s in
    if leb 48 (code c) && leb (code c) 57 then rest else none

-- One or more decimal digits.
unfoldable pub parse_digits : String → Option ℕ
unfolding digits_from
parse_digits s = if is_empty s then none else digits_from 0 s

-- A leading `+` is accepted by `from_str` of every integer type.
unfoldable pub strip_plus : String → String
strip_plus String.[] = String.[]
strip_plus (String.◌∷◌ c s) = if eqb (code c) 43 then s else String.◌∷◌ c s

abbrev in_range : ℕ → Option ℕ → Option ℕ
in_range bound none = none
in_range bound (some n) = if ltb n bound then some n else none

-- str::parse::<u32>
unfoldable pub parse_u32 : String → Option ℕ
unfolding parse_digits strip_plus
parse_u32 s = in_range 4294967296 (parse_digits (strip_plus s))

-- str::strip_prefix
unfoldable pub strip_prefix : String → String → Option String
strip_prefix String.[] s = some s
strip_prefix (String.◌∷◌ p prefix) String.[] = none
strip_prefix (String.◌∷◌ p prefix) (String.◌∷◌ c s) =
    let rest = strip_prefix prefix s in if eqb (code p) (code c) then rest else none

-- char::is_whitespace
unfoldable pub is_whitespace : ℕ → Bool
is_whitespace c =
    (leb 9 c && leb c 13)
    || eqb c 32
    || eqb c 0x85
    || eqb c 0xa0
    || eqb c 0x1680
    || (leb 0x2000 c && leb c 0x200a)
    || eqb c 0x2028
    || eqb c 0x2029
    || eqb c 0x202f
    || eqb c 0x205f
    || eqb c 0x3000

unfoldable pub trim_start : String → String
unfolding is_whitespace
trim_start String.[] = String.[]
trim_start (String.◌∷◌ c s) =
    let rest = trim_start s in if is_whitespace (code c) then rest else String.◌∷◌ c s

unfoldable pub trim_end : String → String
unfolding is_whitespace
trim_end String.[] = String.[]
trim_end (String.◌∷◌ c s) =
    let rest = trim_end s in
    if is_whitespace (code c) && is_empty rest then String.[] else String.◌∷◌ c rest

-- str::trim
unfoldable pub trim : String → String
unfolding trim_start trim_end
trim s = trim_end (trim_start s)

-- The word that a text begins with, which may be empty, and the words behind it.
unfoldable pub flush : String → List String → List String
flush w ws = if is_empty w then ws else w ∷ ws

unfoldable pub lead : String → String × List String
unfolding flush is_whitespace
lead String.[] = (String.[], [])
lead (String.◌∷◌ c s) =
    let (w, ws) = lead s in
    if is_whitespace (code c) then (String.[], flush w ws) else (String.◌∷◌ c w, ws)

-- str::split_whitespace
unfoldable pub split_whitespace : String → List String
unfolding lead
split_whitespace s = flush (lead s).0 (lead s).1

-- str::contains, for a character given by its code
unfoldable pub has_char : ℕ → String → Bool
has_char sep String.[] = false
has_char sep (String.◌∷◌ c s) = eqb (code c) sep || has_char sep s

-- str::contains, for a text
unfoldable pub has_text : String → String → Bool
unfolding strip_prefix
has_text part String.[] = is_some (strip_prefix part String.[])
has_text part (String.◌∷◌ c s) = is_some (strip_prefix part (String.◌∷◌ c s)) || has_text part s

-- What stands before the first newline, and the lines behind it; the text behind the last newline
-- is the last entry, which may be empty.
unfoldable pub line_lead : String → String × List String
line_lead String.[] = (String.[], [])
line_lead (String.◌∷◌ c s) =
    let (w, ws) = line_lead s in
    if eqb (code c) b'\n' then (String.[], w ∷ ws) else (String.◌∷◌ c w, ws)

unfoldable pub drop_last_empty : String → List String → List String
drop_last_empty w [] = if is_empty w then [] else w ∷ []
drop_last_empty w (v ∷ ws) = w ∷ drop_last_empty v ws

-- str::lines, but for a carriage return at a line's end, which stays on the line.
unfoldable pub lines : String → List String
unfolding line_lead drop_last_empty
lines s = drop_last_empty (line_lead s).0 (line_lead s).1
