-- ===== src/Examples/Commands.antt =====
-- The theorem on the command line at `ningshi reload`.
use mathlib.Core.Path.{subst}
use ningshi.Prelude.{
  sym, ◌∙◌, inl, inr, or_else, Bool-cases, ℕ, ◌≡◌, refl, ap, ◌↔◌, String, Bool, true, false, List,
  [], ◌∷◌, ◌++◌, Option, none, some, arith, eqb, if◌then◌else◌, string_key, ◌==◌,
}
use ningshi.Socket.{
  Request, Response, Answer, Payload, empty, good, on_request, dispatch, ok_resp, err_resp,
}
use ningshi.Socket.Client.{Json, JsonLaws, IsReadAs, newline}
use ningshi.Daemon.Cli.{cli_request, cli, exit_status}
use ningshi.Daemon.Cli.Told.{served, exchange, exit_status-cli}
use ningshi.Socket.{Around}
use ningshi.Engine.Reload.{reload, with_uids}
use ningshi.Examples.{live_engine}
use ningshi.Examples.Files.{serde, system, broken}
use ningshi.Examples.Serving.{around}

-- A printer that knows one request and one answer.
abbrev reload_request : Request
reload_request = record { v = 2; cmd = "reload"; key = none; minutes = none; path = none }

print_request : ℕ → String → Option String → Option ℕ → Option String → Option (List ℕ)
print_request v cmd none none none =
    if eqb v 2 then (if cmd == "reload" then some (123 ∷ []) else none) else none
print_request v cmd _ _ _ = none

-- Answers without an error, and refusals for one reason.
print_response : Bool → Option String → Option (List ℕ)
print_response true none = some (116 ∷ [])
print_response false (some text) = if text == "disk" then some (102 ∷ []) else none
print_response _ _ = none

read_response : List ℕ → Option (Response Payload)
read_response [] = none
read_response (b ∷ bytes) =
    if eqb b 116 then some (ok_resp empty) else if eqb b 102 then some (err_resp "disk") else none

abbrev tiny_json : Json
unfolding print_request print_response read_response
tiny_json = record {
  Value = Payload;
  version = λ data_. none;
  request_to_string = λ req. print_request req.v req.cmd req.key req.minutes req.path;
  response_to_string = λ resp. print_response resp.ok resp.error;
  request_from_slice = λ bytes. good reload_request;
  response_from_str = read_response;
}

same_request :
    (v : ℕ) (cmd : String) (key : Option String) (minutes : Option ℕ) (path : Option String)
    (line : List ℕ)
    → print_request v cmd key minutes path ≡ some line
    → ◌≡◌ {A = Request} reload_request
        (record { v = v; cmd = cmd; key = key; minutes = minutes; path = path })
unfolding print_request
same_request v cmd none none none line h = ground (arith, string_key.same_iff cmd "reload")
same_request v cmd (some k) minutes path line h = cc
same_request v cmd none (some m) path line h = cc
same_request v cmd none none (some p) line h = cc

as_line :
    (resp : Answer) (l line : List ℕ)
    → some l ≡ some line
    → IsReadAs resp (read_response (l ++ newline ∷ []))
    → IsReadAs resp (read_response (line ++ newline ∷ []))
as_line resp l line h =
    subst (λ x. IsReadAs resp (read_response (x ++ newline ∷ [])))
      (ap (λ (o : Option (List ℕ)). or_else o []) h)

same_response :
    (resp : Answer) (ok : Bool) (error : Option String) (line : List ℕ)
    → resp.ok ≡ ok
    → resp.error ≡ error
    → print_response ok error ≡ some line
    → IsReadAs resp (read_response (line ++ newline ∷ []))
unfolding print_response read_response
same_response resp true none line fine text h = as_line resp (116 ∷ []) line h (sym fine, sym text)
same_response resp false (some x) line fine text h = elim (Bool-cases (x == "disk")) [
  | inr other ↦ cc (rw other at h)
  | inl same ↦
      as_line resp (102 ∷ []) line (rw same at h)
        (sym fine, ap some (sym ((string_key.same_iff x "disk").0 same)) ∙ sym text)
]
same_response resp true (some x) line fine text h = cc
same_response resp false none line fine text h = cc

tiny_json-JsonLaws : JsonLaws tiny_json
unfolding tiny_json
tiny_json-JsonLaws = record {
  request_roundtrip =
      λ req line h. ap good (same_request req.v req.cmd req.key req.minutes req.path line h);
  response_roundtrip = λ resp line h. same_response resp resp.ok resp.error line refl refl h;
}

abbrev healthy : Around
healthy = record around { sys = system }

answered :
    (on_request serde healthy live_engine broken (good (cli_request "reload" ("reload" ∷ [])))).1.0
    ≡ some (ok_resp empty)
unfolding on_request dispatch cli_request reload with_uids
answered = refl

exit_status-cli_example :
    let o = served tiny_json serde healthy live_engine broken (123 ∷ newline ∷ []) in
    (o ≡ on_request serde healthy live_engine broken (good (cli_request "reload" ("reload" ∷ []))))
    × ((exit_status (
            cli tiny_json
              (exchange tiny_json serde healthy live_engine broken)
              "0.4.4"
              "reload"
              ("reload" ∷ []))
          ≡ 0)
        ↔ (o.1.1 ≡ true))
unfolding cli_request tiny_json
exit_status-cli_example =
    exit_status-cli tiny_json tiny_json-JsonLaws serde healthy live_engine broken "0.4.4" "reload"
      ("reload" ∷ []) (123 ∷ []) (ok_resp empty) (116 ∷ []) refl refl (omega arith) answered refl
