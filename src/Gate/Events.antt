-- ===== src/Gate/Events.antt =====
-- The thread of daemon/src/gate.rs that drains the ring buffer: the record's bytes, and the map
-- `recent` that keeps one spawn from being queued more than once. Times are seconds on the
-- monotonic clock; `elapsed` is measured at the reading that comes with the item.
pub mod Spacing
use ningshi.Prelude.{
  ℕ, ◌+◌, ◌-◌, ◌*◌, Bool, true, false, not, List, [], ◌∷◌, ◌++◌, Option, none, some, length, ltb,
  if◌then◌else◌, nat_key,
}
use ningshi.Prelude.Map.{Map, get, insert}

-- `u32::from_ne_bytes` on Android's little-endian processors.
abbrev pub from_bytes : ℕ → ℕ → ℕ → ℕ → ℕ
from_bytes a b c d = a + 256 * b + 65536 * c + 16777216 * d

-- The pid and the uid of an item; `none`: it is too short.
unfoldable pub decode : List ℕ → Option (ℕ × ℕ)
decode (a ∷ b ∷ c ∷ d ∷ e ∷ f ∷ g ∷ h ∷ rest) = some (from_bytes a b c d, from_bytes e f g h)
decode _ = none

-- `recent.retain(|_, t| t.elapsed().as_secs() < 10)`
unfoldable pub retain_recent : ℕ → Map ℕ ℕ → Map ℕ ℕ
retain_recent now [] = []
retain_recent now ((pid, t) ∷ m) =
    if ltb (now - t) 10 then (pid, t) ∷ retain_recent now m else retain_recent now m

-- The times of the pids queued, and the messages sent to the killer.
pub record Drain : Type 0 where
  pub recent : Map ℕ ℕ
  pub sent : List (ℕ × ℕ)

abbrev pub is_recent : Option ℕ → ℕ → Bool
is_recent none now = false
is_recent (some t) now = ltb (now - t) 5

unfoldable pub prune : ℕ → Map ℕ ℕ → Map ℕ ℕ
unfolding retain_recent
prune now recent = if ltb 64 (length recent) then retain_recent now recent else recent

unfoldable pub handle_event : Option (ℕ × ℕ) → ℕ → Drain → Drain
unfolding prune
handle_event none now d = d
handle_event (some (pid, uid)) now d =
    if is_recent (get d.recent pid) now
    then d
    else record { recent = prune now (insert d.recent pid now); sent = d.sent ++ (pid, uid) ∷ [] }

unfoldable pub handle_item : List ℕ → ℕ → Drain → Drain
unfolding decode handle_event
handle_item item now d = handle_event (decode item) now d

-- `while let Some(item) = events.next()`, each item with its time.
unfoldable pub drain : List (List ℕ × ℕ) → Drain → Drain
drain [] d = d
drain ((item, now) ∷ items) d = drain items (handle_item item now d)

-- What `poll` of the thread finds: an error or nothing, a byte in the wake pipe, or items.
pub data Polled : Type 0 where
  nothing woken : Polled
  items : List (List ℕ × ℕ) → Polled

-- `true`: the thread ends, which closes the channel.
unfoldable pub event_loop : List Polled → Drain → Drain × Bool
unfolding drain
event_loop [] d = (d, false)
event_loop (nothing ∷ polls) d = event_loop polls d
event_loop (woken ∷ polls) d = (d, true)
event_loop (items xs ∷ polls) d = event_loop polls (drain xs d)
