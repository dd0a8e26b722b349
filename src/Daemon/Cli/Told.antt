-- ===== src/Daemon/Cli/Told.antt =====
-- What the exit status of a command tells.
use mathlib.Core.Path.{subst}
use ningshi.Prelude.{
  ℕ, zero, suc, ◌+◌, ◌≤◌, ◌<◌, ◌≡◌, refl, sym, ap, ap₂, ◌∙◌, ◌↔◌, inl, inr, String, true, ◌&&◌,
  List, [], ◌∷◌, ◌++◌, Option, none, some, arith, length, Bool-cases,
}
use ningshi.Rules.{Serde}
use ningshi.Engine.{Engine}
use ningshi.Engine.Reload.{Files}
use ningshi.Socket.{
  Request, Response, Answer, Around, Served, good, on_request, handle, protocol_version,
}
use ningshi.Socket.Effects.{is_change, is_ok, is_spoken, on_request-changed}
use ningshi.Socket.Client.{Json, JsonLaws, IsReadAs, newline, write_resp, request, sent, line_of}
use ningshi.Daemon.Inotify.{take}
use ningshi.Daemon.Cli.{cli_request, cli_end, cli, exit_status}

-- The server reads once, 8192 bytes at most.
abbrev pub read_limit : ℕ
read_limit = 8192

take_all : (n : ℕ) (xs : List ℕ) → length xs ≤ n → take n xs ≡ xs
unfolding take
take_all zero [] h = refl
take_all zero (x ∷ xs) h = absurd (omega arith)
take_all (suc n) [] h = refl
take_all (suc n) (x ∷ xs) h = ap (λ ys. x ∷ ys) (take_all n xs (omega arith))

length-line : (xs : List ℕ) → length (xs ++ newline ∷ []) ≡ length xs + 1
length-line [] = omega arith
length-line (x ∷ xs) = omega (arith, length-line xs)

module _ {M : Type 0} (json : Json) (serde : Serde) (around : Around) (e : Engine M)
    (files : Files) where
  -- The daemon on what a client writes, and what the client can read then.
  abbrev pub served : List ℕ → Served M
  served bytes = handle json.request_from_slice serde around (some (take read_limit bytes)) e files

  abbrev pub exchange : List ℕ → Option (List ℕ)
  exchange bytes = some (write_resp json (served bytes).1.0)

  module _ (laws : JsonLaws json) (req : Request) (line : List ℕ)
      (printed : json.request_to_string req ≡ some line) (short : length line < read_limit) where
    served_lem : served (line ++ newline ∷ []) ≡ on_request serde around e files (good req)
    unfolding handle
    served_lem = ap (on_request serde around e files) (
        ap json.request_from_slice
          (take_all read_limit (line ++ newline ∷ []) (omega (arith, length-line line)))
        ∙ laws.request_roundtrip req line printed)

    -- The client is told the server's answer.
    told :
        (resp : Answer) (text : List ℕ)
        → (on_request serde around e files (good req)).1.0 ≡ some resp
        → json.response_to_string resp ≡ some text
        → IsReadAs resp (request json exchange req)
    unfolding request write_resp
    told resp text answer shown =
        subst (IsReadAs resp)
          (sym (
            ap (sent json exchange) printed
            ∙ ap (λ o. json.response_from_str (write_resp json o))
                (ap (λ (s : Served M). s.1.0) served_lem ∙ answer)
            ∙ ap (λ t. json.response_from_str (line_of t)) shown))
          (laws.response_roundtrip resp text shown)

ends_well :
    (json : Json) (version : String) (resp : Answer) (got : Option (Response json.Value))
    → IsReadAs resp got
    → (exit_status (cli_end json version got) ≡ 0) ↔ (resp.ok ≡ true)
unfolding exit_status cli_end
ends_well json version resp none h = elim h [ ]
ends_well json version resp (some got) (same, _) = elim (Bool-cases got.ok) [
  | inl fine ↦ rw (fine, exit_status, cli_end) ((λ h. sym same ∙ fine), (λ h. refl))
  | inr bad ↦ rw (bad, exit_status, cli_end) ((λ h. absurd (omega arith)), (λ h. cc (bad, same, h)))
]

cli_request_lem :
    (cmd : String) (args : List String)
    → ((cli_request cmd args).v ≡ protocol_version) × ((cli_request cmd args).cmd ≡ cmd)
unfolding cli_request
cli_request_lem cmd args = ground arith

module _ {M : Type 0} (json : Json) (laws : JsonLaws json) (serde : Serde) (around : Around)
    (e : Engine M) (files : Files) (version cmd : String) (args : List String) where
  on_request-ok :
      (resp : Answer)
      → is_change cmd ≡ true
      → (on_request serde around e files (good (cli_request cmd args))).1.0 ≡ some resp
      → (on_request serde around e files (good (cli_request cmd args))).1.1 ≡ resp.ok
  on_request-ok resp change answer =
      let req = cli_request cmd args in
      (on_request-changed serde around e files (good req)).0
      ∙ ap₂
          (λ v c.
            (is_spoken v && is_change c) && is_ok (on_request serde around e files (good req)).1.0)
          (cli_request_lem cmd args).0 (cli_request_lem cmd args).1
      ∙ ap₂ (λ b o. b && is_ok o) change answer

  pub exit_status-cli :
      (line : List ℕ) (resp : Answer) (text : List ℕ)
      → is_change cmd ≡ true
      → json.request_to_string (cli_request cmd args) ≡ some line
      → length line < read_limit
      → (on_request serde around e files (good (cli_request cmd args))).1.0 ≡ some resp
      → json.response_to_string resp ≡ some text
      → let o = served json serde around e files (line ++ newline ∷ []) in
        (o ≡ on_request serde around e files (good (cli_request cmd args)))
        × ((exit_status (cli json (exchange json serde around e files) version cmd args) ≡ 0)
            ↔ (o.1.1 ≡ true))
  unfolding cli
  exit_status-cli line resp text change printed short answer shown =
      let req = cli_request cmd args in
      let done = served_lem json serde around e files laws req line printed short in
      let heard =
        told json serde around e files laws req line printed short resp text answer shown in
      let changed = ap (λ (s : Served M). s.1.1) done ∙ on_request-ok resp change answer in
      let (ok_of, of_ok) = ends_well json version resp _ heard in
      (done, ((λ zero_exit. changed ∙ ok_of zero_exit), (λ counted. of_ok (sym changed ∙ counted))))
