-- ===== src/Daemon/Cli.antt =====
-- The command line of daemon/src/main.rs: `main`, and `cli` up to its exit status.
pub mod Told
use ningshi.Prelude.{
  ℕ, String, Bool, true, false, not, ◌||◌, List, [], ◌∷◌, Option, none, some, parse_u32,
  if◌then◌else◌, string_key, ◌==◌,
}
use ningshi.Socket.{Request, Response, protocol_version}
use ningshi.Socket.Client.{Json, request}

-- What `main` does, by the first word behind the program's name.
pub data Command : Type 0 where
  ask : String → Command
  clear_log print_version run_daemon : Command

unfoldable pub command : Option String → Command
command none = run_daemon
command (some word) =
    if word == "status" || word == "reload" || word == "extension" || word == "apply"
    then ask word
    else if word == "clear_log"
    then clear_log
    else if word == "--version" || word == "version"
    then print_version
    else run_daemon

-- args.get(2), where the first word is the command
abbrev second : List String → Option String
second [] = none
second (a ∷ rest) = some a

abbrev third : List String → Option String
third [] = none
third (a ∷ rest) = second rest

abbrev number : Option String → Option ℕ
number none = none
number (some s) = parse_u32 s

unfoldable pub cli_request : String → List String → Request
cli_request cmd args =
    if cmd == "extension"
    then record req { key = second args; minutes = number (third args) }
    else (if cmd == "apply" then record req { path = second args } else req)
  where
    req : Request
    req = record { v = protocol_version; cmd = cmd; key = none; minutes = none; path = none }

-- How `cli` ends: the request fails; the `data` of the answer is printed, and it is a refusal, with
-- the text of the error; or it is not, with a warning if the daemon is of another version.
pub data CliEnd (V : Type 0) : Type 0 where
  failed : CliEnd V
  refused : V → Option String → CliEnd V
  answered : V → Bool → CliEnd V

abbrev is_stale : String → Option String → Bool
is_stale version none = false
is_stale version (some v) = not (v == version)

unfoldable pub cli_end : (json : Json) → String → Option (Response json.Value) → CliEnd json.Value
cli_end json version none = failed
cli_end json version (some resp) =
    if resp.ok
    then answered resp.payload (is_stale version (json.version resp.payload))
    else refused resp.payload resp.error

unfoldable pub cli :
    (json : Json) → (List ℕ → Option (List ℕ)) → String → String → List String → CliEnd json.Value
unfolding cli_end cli_request request
cli json exchange version cmd args =
    cli_end json version (request json exchange (cli_request cmd args))

-- The exit status of the process.
unfoldable pub exit_status : {V : Type 0} → CliEnd V → ℕ
exit_status failed = 1
exit_status (refused data_ error) = 1
exit_status (answered data_ stale) = 0
