-- ===== src/Gate/Anchors.antt =====
-- The probes that `Gate::start` of daemon/src/gate.rs attaches. `attach program symbol` says whether
-- loading and attaching succeed.
use ningshi.Prelude.{
  ◌≡◌, String, Bool, not, ◌&&◌, ◌||◌, List, [], ◌∷◌, Option, none, some, arith, any, is_some,
  or_else, if◌then◌else◌,
}
use ningshi.Gate.Health.{GateHealth}

abbrev pub uid_switch_symbols : List String
uid_switch_symbols = "commit_creds" ∷ "__arm64_sys_setresuid" ∷ []

-- The first symbol that attaches.
unfoldable pub first_symbol : (String → Bool) → List String → Option String
first_symbol attaches [] = none
first_symbol attaches (symbol ∷ symbols) =
    let rest = first_symbol attaches symbols in if attaches symbol then some symbol else rest

-- The health before any counter is read.
unfoldable pub attached : (String → String → Bool) → GateHealth
unfolding first_symbol
attached attach = record {
  binder_entry = attach "gate_binder_entry" "binder_transaction";
  binder_exit = attach "gate_binder_exit" "binder_transaction";
  uid_switch = is_some symbol;
  uid_switch_symbol = or_else symbol "";
  marks = 0;
  events = 0;
  ringbuf_full = 0;
  uid_switch_events = 0;
  uid_switch_ringbuf_full = 0;
  probe_read_failures = 0;
  kill_skipped = 0;
  identity_skipped = 0;
}
  where
    symbol : Option String
    symbol = first_symbol (attach "gate_uid_switch") uid_switch_symbols

-- `none`: no usable anchor.
unfoldable pub attach_anchors : (String → String → Bool) → Option GateHealth
unfolding attached
attach_anchors attach =
    if not (attached attach).binder_entry && not (attached attach).uid_switch
    then none
    else some (attached attach)

is_some-first_symbol :
    (attaches : String → Bool) (symbols : List String)
    → is_some (first_symbol attaches symbols) ≡ any attaches symbols
unfolding first_symbol
is_some-first_symbol attaches [] = ground arith
is_some-first_symbol attaches (symbol ∷ symbols) =
    ground (arith, is_some-first_symbol attaches symbols)

-- The gate starts exactly if the entry probe or one of the symbols attaches; the exit probe, which
-- sends the events of the binder anchor, does not matter.
attach_anchors_lem :
    (attach : String → String → Bool)
    → is_some (attach_anchors attach) ≡ (
        attach "gate_binder_entry" "binder_transaction"
        || any (attach "gate_uid_switch") uid_switch_symbols)
unfolding attach_anchors attached
attach_anchors_lem attach =
    ground (arith, is_some-first_symbol (attach "gate_uid_switch") uid_switch_symbols)
