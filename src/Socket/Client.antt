-- ===== src/Socket/Client.antt =====
-- Both ends of the connection of daemon/src/socket.rs: `write_resp`, and `request` of the client. The
-- JSON texts are parameters; a text is the list of its bytes.
use ningshi.Prelude.{List, [], ◌∷◌, ◌++◌, Option, none, some, ◌≡◌, ℕ, String}
use ningshi.Socket.{Request, Response, Answer, Parsed, good}

-- `serde_json::to_string` of a request and of a response with what `json!` makes of its payload,
-- `from_slice` and `from_str`; `Value` is the library's, and `version` is its
-- `get("version").and_then(|v| v.as_str())`.
pub record Json : Type 1 where
  pub Value : Type 0
  pub version : Value → Option String
  pub request_to_string : Request → Option (List ℕ)
  pub response_to_string : Answer → Option (List ℕ)
  pub request_from_slice : List ℕ → Parsed
  pub response_from_str : List ℕ → Option (Response Value)

abbrev pub newline : ℕ
newline = 10

-- A response that was read carries the verdict and the error text of the answer that was printed.
abbrev pub IsReadAs : {V : Type 0} → Answer → Option (Response V) → Type 0
IsReadAs resp none = ⊥
IsReadAs resp (some got) = (got.ok ≡ resp.ok) × (got.error ≡ resp.error)

-- What was printed is read back, and a newline behind it does not matter. Of an answer only the
-- verdict and the error text count here, not its `data`.
pub record JsonLaws (json : Json) : Type 0 where
  pub request_roundtrip :
      (req : Request) (line : List ℕ)
      → json.request_to_string req ≡ some line
      → json.request_from_slice (line ++ newline ∷ []) ≡ good req
  pub response_roundtrip :
      (resp : Answer) (line : List ℕ)
      → json.response_to_string resp ≡ some line
      → IsReadAs resp (json.response_from_str (line ++ newline ∷ []))

abbrev pub line_of : Option (List ℕ) → List ℕ
line_of none = []
line_of (some line) = line ++ newline ∷ []

-- The bytes that the server writes; without an answer, or if it cannot be printed, none.
unfoldable pub write_resp : Json → Option Answer → List ℕ
write_resp json none = []
write_resp json (some resp) = line_of (json.response_to_string resp)

abbrev pub reply : (json : Json) → Option (List ℕ) → Option (Response json.Value)
reply json none = none
reply json (some buf) = json.response_from_str buf

abbrev pub sent :
    (json : Json) → (List ℕ → Option (List ℕ)) → Option (List ℕ) → Option (Response json.Value)
sent json exchange none = none
sent json exchange (some line) = reply json (exchange (line ++ newline ∷ []))

-- `exchange` is the connection: what can be read after these bytes were written, or `none` if
-- connecting, writing or reading fails.
unfoldable pub request :
    (json : Json) → (List ℕ → Option (List ℕ)) → Request → Option (Response json.Value)
request json exchange req = sent json exchange (json.request_to_string req)
