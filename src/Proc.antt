-- ===== src/Proc.antt =====
-- The name that a process carries: `pkg_from_cmdline`, `pkg_of_pid` and `pkg_of_pid_wait` of
-- daemon/src/proc.rs. A command line is the text that its bytes decode to; the decoding keeps the
-- zero bytes that end the arguments, so cutting before or after it is the same.
pub mod Wait
use ningshi.Prelude.{
  ℕ, zero, suc, ◌+◌, String, Bool, true, false, List, [], ◌∷◌, Option, none, some, max, contains,
  is_empty, split_once, trim, if◌then◌else◌, string_key,
}

-- What stands before the first separator, or everything.
abbrev pub before : String → Option (String × String) → String
before s none = s
before s (some (head, rest)) = head

abbrev pub nonempty : String → Option String
nonempty s = if is_empty s then none else some s

-- `argv[0]` up to the first colon, trimmed.
unfoldable pub pkg_from_cmdline : String → Option String
pkg_from_cmdline raw =
    let argv0 = before raw (split_once 0 raw) in
    if is_empty argv0 then none else nonempty (trim (before argv0 (split_once b':' argv0)))

abbrev pub pkg_of : Option String → Option String
pkg_of none = none
pkg_of (some raw) = pkg_from_cmdline raw

-- The loop of `pkg_of_pid_wait`: so many attempts, from attempt `i` on. `reads i` is the command
-- line at that attempt, `none` where it cannot be read.
unfoldable pub wait_from : (ℕ → Option String) → List String → ℕ → ℕ → Option String → Option String
wait_from reads expected zero i seen = seen
wait_from reads expected (suc attempts) i seen =
    let rest = wait_from reads expected attempts (i + 1) in
    elim (pkg_of (reads i)) [
      | none ↦ rest seen
      | some pkg ↦ if contains expected pkg then some pkg else rest (some pkg)
    ]

unfoldable pub pkg_of_pid_wait : (ℕ → Option String) → List String → ℕ → Option String
unfolding wait_from
pkg_of_pid_wait reads expected attempts = wait_from reads expected (max attempts 1) 0 none

-- The `match` of `identity_ok` in daemon/src/gate.rs on what the retries saw.
abbrev pub accepts : List String → Option String → Bool
accepts expected none = true
accepts expected (some pkg) = contains expected pkg
