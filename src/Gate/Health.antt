-- ===== src/Gate/Health.antt =====
-- `GateHealth` and `health` of daemon/src/gate.rs.
use ningshi.Prelude.{sum_u64, ℕ, String, Bool, List, Option, none, some}

pub record GateHealth : Type 0 where
  pub binder_entry : Bool
  pub binder_exit : Bool
  pub uid_switch : Bool
  pub uid_switch_symbol : String
  pub marks : ℕ
  pub events : ℕ
  pub ringbuf_full : ℕ
  pub uid_switch_events : ℕ
  pub uid_switch_ringbuf_full : ℕ
  pub probe_read_failures : ℕ
  pub kill_skipped : ℕ
  pub identity_skipped : ℕ

-- The counter of one index, over the processors; `none` cannot be read.
unfoldable pub read : Option (List ℕ) → ℕ
read none = 0
read (some values) = sum_u64 values

-- The counters by their index, and those of the killer thread.
pub record Counters : Type 0 where
  pub stats : ℕ → Option (List ℕ)
  pub kill_skipped : ℕ
  pub identity_skipped : ℕ

unfoldable pub health : GateHealth → Counters → GateHealth
unfolding read
health attached c = record attached {
  kill_skipped = c.kill_skipped;
  identity_skipped = c.identity_skipped;
  marks = read (c.stats 0);
  events = read (c.stats 1);
  ringbuf_full = read (c.stats 2);
  uid_switch_events = read (c.stats 3);
  uid_switch_ringbuf_full = read (c.stats 4);
  probe_read_failures = read (c.stats 5);
}
