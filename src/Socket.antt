-- ===== src/Socket.antt =====
-- The server of daemon/src/socket.rs: one connection, from the bytes that the client sent to the
-- answer. The JSON parser is a parameter, and so is what the system answers on the way.
pub mod Effects
pub mod Frame
pub mod Block
pub mod Unseen
pub mod Client
use ningshi.Prelude.{
  ℕ, String, Bool, true, false, not, ◌&&◌, List, [], ◌∷◌, Option, none, some, eqb, or_else,
  is_empty, if◌then◌else◌, nat_key, string_key, ◌==◌,
}
use ningshi.Prelude.Decimal.{append, decimal}
use ningshi.Rules.{Serde, rules_version_max}
use ningshi.Gate.Health.{GateHealth, Counters, health}
use ningshi.Engine.{Engine}
use ningshi.Engine.Extension.{
  ExtensionError, managed_by, limit_reached, unknown_key, Granted, add_extension,
}
use ningshi.Engine.Reload.{
  Files, System, ApplyError, cannot_read, invalid_rules, newer_version, not_printed, not_written,
  not_reloaded, not_read_back, Applied, reload, apply_rules_file,
}
use ningshi.Engine.Status.{Status, status}

abbrev pub protocol_version : ℕ
protocol_version = 2

pub record Request : Type 0 where
  pub v : ℕ
  pub cmd : String
  pub key : Option String
  pub minutes : Option ℕ
  pub path : Option String

-- The `data` of an answer: what the source's `json!` is given, namely nothing, the report of
-- `status`, the granted minutes, or the count of apps beside the rules' source, which is "file".
pub data Payload : Type 0 where
  empty : Payload
  report : Status → Payload
  minutes apps : ℕ → Payload

-- The server builds its `data` from a payload; what the client gets is a value of `serde_json`.
pub record Response (D : Type 0) : Type 0 where
  pub v : ℕ
  pub ok : Bool
  pub error : Option String
  pub payload : D

abbrev pub Answer : Type 0
Answer = Response Payload

abbrev pub ok_resp : Payload → Answer
ok_resp p = record { v = protocol_version; ok = true; error = none; payload = p }

abbrev pub err_resp : String → Answer
err_resp msg = record { v = protocol_version; ok = false; error = some msg; payload = empty }

-- `format!` joins its parts.
infixr 5 ◌+++◌
abbrev ◌+++◌ : String → String → String
s +++ t = append s t

-- The texts of the errors. `cause` is the text of an error of the system or of a library.
unfoldable pub extension_text : String → ExtensionError → String
extension_text key (managed_by gid) =
    key +++ " is managed by group '" +++ gid +++ "'; extend that group instead"
extension_text key limit_reached = "daily extension limit (120 min) reached"
extension_text key unknown_key = "unknown app or group key: " +++ key

unfoldable pub apply_text : String → String → ApplyError → String
apply_text cause path cannot_read = "cannot read " +++ path +++ ": " +++ cause
apply_text cause path invalid_rules = "invalid rules: " +++ cause
apply_text cause path (newer_version v) =
    "rules version "
    +++ decimal v
    +++ " is newer than this module supports ("
    +++ decimal rules_version_max
    +++ ")"
apply_text cause path not_printed = cause
apply_text cause path not_written = cause
apply_text cause path not_reloaded = cause
apply_text cause path not_read_back = "rules were replaced but could not be read back"

unfoldable pub version_text : ℕ → String
version_text v =
    "protocol v"
    +++ decimal v
    +++ " is not supported by this daemon (v"
    +++ decimal protocol_version
    +++ "); reinstall the module"

-- `serde_json::from_slice`: a request, or the parser's message.
pub data Parsed : Type 0 where
  good : Request → Parsed
  bad : String → Parsed

-- What the system answers while the request is handled: the files that `apply` can name by their
-- path, whether the new rules can be written, the text of the error that occurs, the clock, and what `status` reads from the gate.
pub record Around : Type 0 where
  pub sys : System
  pub candidate : String → Option String
  pub written : Bool
  pub cause : String
  pub now : ℕ
  pub version : String
  pub attached : GateHealth
  pub counters : Counters

-- The state with the answer, and whether the request counts as a change.
abbrev pub Handled : Type 0 → Type 0
Handled M = (Engine M × Files) × (Answer × Bool)

-- The state, the answer if there is one, and whether a tick must follow at once.
abbrev pub Served : Type 0 → Type 0
Served M = (Engine M × Files) × (Option Answer × Bool)

module _ {M : Type 0} where
  unfoldable pub on_reload : String → (Engine M × Files) × Bool → Handled M
  on_reload cause (s, true) = (s, (ok_resp empty, true))
  on_reload cause (s, false) = (s, (err_resp cause, false))

  unfoldable pub on_extension : String → Files → Engine M × Granted → Handled M
  on_extension key files (e, Granted.ok mins) = ((e, files), (ok_resp (minutes mins), true))
  on_extension key files (e, Granted.err x) = ((e, files), (err_resp (extension_text key x), false))

  unfoldable pub on_apply : String → String → (Engine M × Files) × Applied → Handled M
  on_apply cause path (s, Applied.ok n) = (s, (ok_resp (apps n), true))
  on_apply cause path (s, Applied.err x) = (s, (err_resp (apply_text cause path x), false))

  unfoldable pub apply_path : Serde → Around → String → Engine M → Files → Handled M
  unfolding on_apply
  apply_path serde around path e files =
      if is_empty path
      then ((e, files), (err_resp "apply needs a file path", false))
      else on_apply around.cause path
          (apply_rules_file serde around.sys around.written (around.candidate path) e files)

  -- The `match` on the command.
  unfoldable pub dispatch : Serde → Around → Request → Engine M → Files → Handled M
  unfolding on_reload on_extension apply_path
  dispatch serde around req e files =
      if req.cmd == "reload"
      then on_reload around.cause (reload serde around.sys e files)
      else (if req.cmd == "status"
          then (
            (e, files),
            (
              ok_resp (
                  report
                    (status around.version (health around.attached around.counters) around.now e)),
              false,
            ),
          )
          else (if req.cmd == "extension"
              then on_extension (or_else req.key "") files
                  (add_extension e (or_else req.key "") around.now (or_else req.minutes 5))
              else (if req.cmd == "apply"
                  then apply_path serde around (or_else req.path "") e files
                  else ((e, files), (err_resp ("unknown cmd: " +++ req.cmd), false)))))

  abbrev answered : Handled M → Served M
  answered (s, (resp, changed)) = (s, (some resp, changed))

  unfoldable pub on_request : Serde → Around → Engine M → Files → Parsed → Served M
  unfolding dispatch
  on_request serde around e files (bad message) = ((e, files), (some (err_resp message), false))
  on_request serde around e files (good req) =
      if not (eqb req.v 0) && not (eqb req.v protocol_version)
      then ((e, files), (some (err_resp (version_text req.v)), false))
      else answered (dispatch serde around req e files)

  -- `none`: the read fails, which includes the five seconds without a byte.
  unfoldable pub handle :
      (List ℕ → Parsed) → Serde → Around → Option (List ℕ) → Engine M → Files → Served M
  unfolding on_request
  handle from_slice serde around none e files = ((e, files), (none, false))
  handle from_slice serde around (some buf) e files =
      on_request serde around e files (from_slice buf)
