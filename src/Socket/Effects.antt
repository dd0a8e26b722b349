-- ===== src/Socket/Effects.antt =====
-- What a connection does to the daemon.
use mathlib.Core.Path.{subst}
use ningshi.Prelude.{
  ℕ, ◌≡◌, refl, sym, inl, inr, String, Bool, true, false, not, ◌&&◌, ◌||◌, List, Option, none, some,
  arith, is_some, eqb, or_else, is_empty, nat_key, string_key, ◌==◌, Bool-cases,
}
use ningshi.Rules.{Serde}
use ningshi.Engine.{Engine}
use ningshi.Engine.Extension.{Granted, add_extension}
use ningshi.Engine.Reload.{Files, Applied, reload}
use ningshi.Socket.{
  Request, Answer, Parsed, good, bad, Around, Handled, on_reload, on_extension, on_apply,
  apply_path, dispatch, on_request, handle, protocol_version,
}

-- The three commands that may change something.
abbrev pub is_change : String → Bool
is_change cmd = cmd == "reload" || cmd == "extension" || cmd == "apply"

-- The versions that are understood: from before versioning, and the current one.
abbrev pub is_spoken : ℕ → Bool
is_spoken v = eqb v 0 || eqb v protocol_version

abbrev pub asks_change : Parsed → Bool
asks_change (bad message) = false
asks_change (good req) = is_spoken req.v && is_change req.cmd

abbrev pub received : (List ℕ → Parsed) → Option (List ℕ) → Bool
received from_slice none = false
received from_slice (some buf) = asks_change (from_slice buf)

abbrev pub is_ok : Option Answer → Bool
is_ok none = false
is_ok (some resp) = resp.ok

-- An answer says `ok` exactly if it carries no error, and names the current version.
abbrev pub IsSound : Option Answer → Type 0
IsSound none = Unit
IsSound (some resp) = (resp.ok ≡ not (is_some resp.error)) × (resp.v ≡ protocol_version)

status_alone :
    (cmd : String) → (cmd == "status") ≡ true → (cmd == "extension" || cmd == "apply") ≡ false
status_alone cmd h =
    subst (λ c. (c == "extension" || c == "apply") ≡ false)
      (sym ((string_key.same_iff cmd "status").0 h)) refl

module _ {M : Type 0} (serde : Serde) (around : Around) (e : Engine M) (files : Files) where
  dispatch_harmless :
      (req : Request)
      → is_change req.cmd ≡ false
      → ((dispatch serde around req e files).0 ≡ (e, files))
        × ((dispatch serde around req e files).1.1 ≡ false)
  unfolding dispatch
  dispatch_harmless req h = ground arith

  on_request_harmless :
      (p : Parsed)
      → asks_change p ≡ false
      → ((on_request serde around e files p).0 ≡ (e, files))
        × ((on_request serde around e files p).1.1 ≡ false)
  unfolding on_request
  on_request_harmless (bad message) h = (refl, refl)
  on_request_harmless (good req) h = ground (arith, dispatch_harmless req)

  -- A connection that sends nothing, no request, a request of another version, or a command other
  -- than reload, extension and apply leaves the engine and the rule files as they are, and causes
  -- no tick.
  pub handle_harmless :
      (from_slice : List ℕ → Parsed) (buf : Option (List ℕ))
      → received from_slice buf ≡ false
      → ((handle from_slice serde around buf e files).0 ≡ (e, files))
        × ((handle from_slice serde around buf e files).1.1 ≡ false)
  unfolding handle
  handle_harmless from_slice none h = (refl, refl)
  handle_harmless from_slice (some buf) h = on_request_harmless (from_slice buf) h

  -- A change counts as one exactly if the answer says `ok`.
  abbrev IsReported : Handled M → Type 0
  IsReported o = (o.1.1 ≡ o.1.0.ok) × IsSound (some o.1.0)

  on_reload-IsReported :
      (cause : String) (o : (Engine M × Files) × Bool) → IsReported (on_reload cause o)
  unfolding on_reload
  on_reload-IsReported cause (s, true) = (refl, (refl, refl))
  on_reload-IsReported cause (s, false) = (refl, (refl, refl))

  on_extension-IsReported :
      (key : String) (o : Engine M × Granted) → IsReported (on_extension key files o)
  unfolding on_extension
  on_extension-IsReported key (s, Granted.ok n) = (refl, (refl, refl))
  on_extension-IsReported key (s, Granted.err x) = (refl, (refl, refl))

  on_apply-IsReported :
      (cause path : String) (o : (Engine M × Files) × Applied) → IsReported (on_apply cause path o)
  unfolding on_apply
  on_apply-IsReported cause path (s, Applied.ok n) = (refl, (refl, refl))
  on_apply-IsReported cause path (s, Applied.err x) = (refl, (refl, refl))

  apply_path-IsReported : (path : String) → IsReported (apply_path serde around path e files)
  unfolding apply_path
  apply_path-IsReported path = elim (Bool-cases (is_empty path)) [
    | inl nothing ↦ rw nothing (refl, (refl, refl))
    | inr named ↦ rw named (on_apply-IsReported around.cause path _)
  ]

  dispatch-changed :
      (req : Request)
      → let o = dispatch serde around req e files in
        (o.1.1 ≡ (is_change req.cmd && o.1.0.ok)) × IsSound (some o.1.0)
  unfolding dispatch
  dispatch-changed req = elim (Bool-cases (req.cmd == "reload")) [
    | inl is_reload ↦
        rw is_reload (on_reload-IsReported around.cause (reload serde around.sys e files))
    | inr no_reload ↦ rw no_reload (elim (Bool-cases (req.cmd == "status")) [
      | inl is_status ↦ rw is_status (rw (status_alone req.cmd is_status) (refl, (refl, refl)))
      | inr no_status ↦ rw no_status (elim (Bool-cases (req.cmd == "extension")) [
        | inl is_extension ↦ rw is_extension (
            on_extension-IsReported (or_else req.key "")
              (add_extension e (or_else req.key "") around.now (or_else req.minutes 5)))
        | inr no_extension ↦ rw no_extension (elim (Bool-cases (req.cmd == "apply")) [
          | inl is_apply ↦ rw is_apply (apply_path-IsReported (or_else req.path ""))
          | inr no_apply ↦ rw no_apply (refl, (refl, refl))
        ])
      ])
    ])
  ]

  pub on_request-changed :
      (p : Parsed)
      → let o = on_request serde around e files p in
        (o.1.1 ≡ (asks_change p && is_ok o.1.0)) × IsSound o.1.0
  unfolding on_request
  on_request-changed (bad message) = (refl, (refl, refl))
  on_request-changed (good req) = ground (arith, dispatch-changed req)

  -- A tick follows at once exactly if the request is one of reload, extension and apply, in a
  -- version that is understood, and its answer says `ok`. Each answer says `ok` exactly if it
  -- carries no error, and names the current version.
  pub handle-changed :
      (from_slice : List ℕ → Parsed) (buf : Option (List ℕ))
      → let o = handle from_slice serde around buf e files in
        (o.1.1 ≡ (received from_slice buf && is_ok o.1.0)) × IsSound o.1.0
  unfolding handle
  handle-changed from_slice none = (refl, tt)
  handle-changed from_slice (some buf) = on_request-changed (from_slice buf)
