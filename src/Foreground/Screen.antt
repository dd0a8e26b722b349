-- ===== src/Foreground/Screen.antt =====
-- When the screen counts as off.
use ningshi.Prelude.{
  ◌≡◌, inl, inr, Bool, true, false, not, ◌&&◌, ◌||◌, List, [], ◌∷◌, Option, none, some, arith, any,
  Option-cases, string_key,
}
use ningshi.Foreground.{Connector, is_physical, power, scan_connectors, screen_off}

abbrev pub is_known : Option Bool → Bool
is_known none = false
is_known (some on) = true

abbrev pub is_on : Option Bool → Bool
is_on none = false
is_on (some on) = on

abbrev pub reports : Connector → Bool
reports c = is_physical c && is_known (power c.dpms)

abbrev pub shines : Connector → Bool
shines c = is_physical c && is_on (power c.dpms)

scan_connectors_lem :
    (cs : List Connector) (found : Bool)
    → scan_connectors cs found ≡ ((found || any reports cs) && not (any shines cs))
unfolding scan_connectors
scan_connectors_lem [] found = ground arith
scan_connectors_lem (c ∷ cs) found = elim (Option-cases (power c.dpms)) [
  | inl dark ↦ ground (arith, dark, scan_connectors_lem cs found)
  | inr (on, seen) ↦ ground (arith, seen, scan_connectors_lem cs found, scan_connectors_lem cs true)
]

-- The screen counts as off exactly if some physical connector can be read and none of these is on.
screen_off_lem :
    (cs : List Connector) → screen_off (some cs) ≡ (any reports cs && not (any shines cs))
unfolding screen_off
screen_off_lem cs = scan_connectors_lem cs false
