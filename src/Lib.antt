-- ===== src/Lib.antt =====
-- The decision core of the ningshi daemon, a per-app time limiter for Android whose kernel gate
-- refuses binder calls of blocked uids.
--
-- A rule file says per app or per group of apps when it may run. The engine decides every few
-- seconds, for every installed app with a rule, whether its uid is blocked, cleans up the processes
-- of a uid that becomes blocked, and tells the gate. Between ticks it sleeps for a time that it
-- computes from the rules, unless a request or the package list wakes it. A thread of the gate queues
-- the processes that the kernel reports, and a killer thread signals them when they are in front.
--
-- Parts and sources:
--   Rules        daemon/src/rules.rs: the types of the rule file, `load`, `sanitize`
--   Window       daemon/src/engine.rs: `in_window`, `window_edge_secs`, `parse_hhmm`, weekdays
--   Decide       daemon/src/engine.rs: `eval`
--   Wake         daemon/src/engine.rs: `enabled_sets`, `WakeInputs`, `next_wake_secs`
--   Timezone     daemon/src/engine.rs: `parse_tz`, the offset in `now_parts`
--   Paths        daemon/src/config.rs: the files below the module and the data directory
--   Clear        daemon/src/clear.rs, and `kill_pid_if_uid` of daemon/src/proc.rs
--   PackageList  daemon/src/pm.rs: `keys_for`, `users`, `resolve_uids`
--   Proc         daemon/src/proc.rs: `pkg_from_cmdline`, `pkg_of_pid_wait`
--   Foreground   daemon/src/fg.rs: `top_app_pids`, `uids_snapshot`, `screen_off`
--   Gate         daemon/src/gate.rs: `set_block_index`, `set_blocked`, and below it
--     Mirror       what one call of `set_blocked` does to the mirror
--     Health       `health`
--     Anchors      the choice of probes in `Gate::start`
--     Events       the thread that drains the ring buffer
--     Killer       the killer thread: `kill_if_blocked`, `identity_ok`, the pass over the pending
--                  entries (Scan) and one turn (Thread)
--   Engine       daemon/src/engine.rs: the state, a field for each of the struct's, and below it
--     Usage        `scoped_usage`, `over_duration`
--     Cooldown     `maintain_uid_cooldown`, `maintain_group_cooldown`
--     Extension    `add_extension`, `group_of_member`
--     Plan         the loops of `tick` that fill `want` and `blocked_names`
--     Transitions  the loops of `tick` that apply `want`
--     Packages     `sync_packages`
--     Protected    `resolve_protected`, `cmd_line`: the packages that are never blocked
--     Reload       `load_rules`, `reload`, `reload_if_changed`, `apply_rules_file`
--     Saved        `load_state`, `save_state`, the daily reset
--     Counting     the usage accounting of `tick`, `duration_targets`
--     Tick         `tick` as a composition of all of these, `tick_interval_secs`
--     Status       `status`
--     Start        `Engine::new`, and what a restart keeps (Kept)
--     Clock        `now_parts`, over the parameter `Chrono`
--   Socket       daemon/src/socket.rs: `handle`, and both ends of the connection (Client)
--   Daemon       daemon/src/main.rs: `run_daemon`, and below it the start with the lock (Launch),
--                `drain_inotify` (Inotify), and `main` and `cli` with the exit status (Cli)
--   Threads      daemon/src/main.rs and daemon/src/gate.rs: the main thread, the event thread and
--                the killer thread on what they share, as a step relation
--   Prelude      tests, lists, texts, maps, sets, integers and sorting that all of these share
--   Examples     a configuration, an engine and a few processes to run the theorems on
--
-- Operations are functions on an explicit state. A step that can fail returns the state it leaves
-- and whether it succeeded, because the source keeps what was done before an error. Maps are
-- association lists, used through the laws of Prelude.Map; the order in which the source iterates
-- over a `HashMap` is the order of the list, and is arbitrary. The release build has no overflow
-- checks, so sums and products of `u32` and `u64` wrap around; where a theorem needs that a
-- deadline does not, it says so.
--
-- Parameters: the BPF map (`BlockMap`, with the laws `BlockMapLaws` of a kernel hash map),
-- `serde_json` (`Serde`), what the kernel says of processes (`Procs`), and what one call reads from
-- the system (`System`, and for a whole tick `Readings`). The clock and the calendar are inputs
-- (`Moment`).
--
-- Other parameters: the date and time of `chrono` at an offset (`Chrono`), the JSON texts of requests
-- and answers (`Json`), what the system answers a request (`Around`), what a round of the main loop
-- meets (`Round`), and what the killer sees of a process (`Sight`). The threads share the block list,
-- the names and the counters only. Each is modelled by itself, where `Sight` may be anything at each
-- turn; Threads lets them take turns, between any two entries of a plan, messages or processes, and
-- there the killer sees the block list as it is. Its two checks of one process are one step.
--
-- Frame modules hold what an operation keeps: a predicate on the engine that every assignment of the
-- operation keeps holds behind it. The block list, the budget of extensions and the protected packages
-- are instances.
--
-- The clock of the main loop counts nanoseconds, and the timeout of `poll` is rounded down to whole
-- milliseconds. An error of the system or of a library has the text `cause`; the texts of the
-- daemon's own errors are written out.
--
-- Bounds: the search in `window_edge_secs` has the 2880 steps of the source. The killer's pass and the
-- decoding of the watch run on fuel: the pass looks at each entry once, so one more than the number of
-- entries is enough, and an event of the watch takes 16 bytes or more, so the number of bytes is. A
-- `u32` is printed with fuel for its ten digits. All other loops run over a list.
--
-- Not modelled: logging; loading the kernel's program; the setup of the watch and of the socket; the
-- text of the saved state and of answers; the kernel's program and the web interface, which are not
-- Rust. These are calls of the system or of libraries with no decision of their own. The kills that
-- the killer thread counts are added to the engine's counters in Threads only, not in the rounds of
-- Daemon.
pub mod Prelude
pub mod Rules
pub mod Window
pub mod Decide
pub mod Wake
pub mod Timezone
pub mod Clear
pub mod PackageList
pub mod Proc
pub mod Foreground
pub mod Gate
pub mod Engine
pub mod Socket
pub mod Daemon
pub mod Threads
pub mod Paths
pub mod Examples
