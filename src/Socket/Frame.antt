-- ===== src/Socket/Frame.antt =====
-- What a connection keeps: whatever outlives a reload and is kept by `add_extension`.
use ningshi.Prelude.{
  ℕ, inl, inr, String, Bool, true, false, not, ◌&&◌, List, Option, none, some, eqb, or_else,
  is_empty, string_key, ◌==◌, Bool-cases,
}
use ningshi.Rules.{Serde}
use ningshi.Engine.{Engine}
use ningshi.Engine.Extension.{Granted, add_extension}
use ningshi.Engine.Reload.{
  Files, System, Checked, Applied, reload, reloaded, install, apply_rules_file, check_candidate,
  is_file,
}
use ningshi.Engine.Reload.Frame.{OutlivesReload, reload-keep}
use ningshi.Socket.{
  Request, Parsed, good, bad, Around, on_reload, on_extension, on_apply, apply_path, dispatch,
  on_request, handle, protocol_version,
}

module _ {ℓ} {M : Type 0} (P : Engine M → Type ℓ) (out : OutlivesReload P)
    (granted : (e : Engine M) (key : String) (now minutes : ℕ)
      → P e
      → P (add_extension e key now minutes).0)
    (serde : Serde) where
  reloaded-keep : (o : (Engine M × Files) × Bool) → P o.0.0 → P (reloaded o).0.0
  reloaded-keep (s, false) h = h
  reloaded-keep ((e, files), true) h = elim (Bool-cases (is_file e.rules_source)) [
    | inl live ↦ rw live h
    | inr fallen ↦ rw fallen h
  ]

  install-keep :
      (sys : System) (written : Bool) (c : Checked) (e : Engine M) (files : Files)
      → P e
      → P (install serde sys written c e files).0.0
  unfolding install
  install-keep sys written (Checked.bad x) e files h = h
  install-keep sys false (Checked.good text) e files h = h
  install-keep sys true (Checked.good text) e files h =
      reloaded-keep (reload serde sys e (record files { rules_json = some text }))
        (reload-keep P out serde sys e (record files { rules_json = some text }) h)

  on_reload-keep :
      (cause : String) (o : (Engine M × Files) × Bool) → P o.0.0 → P (on_reload cause o).0.0
  unfolding on_reload
  on_reload-keep cause (s, true) h = h
  on_reload-keep cause (s, false) h = h

  on_extension-keep :
      (key : String) (files : Files) (o : Engine M × Granted)
      → P o.0
      → P (on_extension key files o).0.0
  unfolding on_extension
  on_extension-keep key files (e, Granted.ok n) h = h
  on_extension-keep key files (e, Granted.err x) h = h

  on_apply-keep :
      (cause path : String) (o : (Engine M × Files) × Applied)
      → P o.0.0
      → P (on_apply cause path o).0.0
  unfolding on_apply
  on_apply-keep cause path (s, Applied.ok n) h = h
  on_apply-keep cause path (s, Applied.err x) h = h

  module _ (around : Around) (e : Engine M) (files : Files) (h : P e) where
    apply_path-keep : (path : String) → P (apply_path serde around path e files).0.0
    unfolding apply_path apply_rules_file
    apply_path-keep path = elim (Bool-cases (is_empty path)) [
      | inl nothing ↦ rw nothing h
      | inr named ↦ rw named (
          on_apply-keep around.cause path _ (
            install-keep around.sys around.written (check_candidate serde (around.candidate path)) e
              files h))
    ]

    dispatch-keep : (req : Request) → P (dispatch serde around req e files).0.0
    unfolding dispatch
    dispatch-keep req = elim (Bool-cases (req.cmd == "reload")) [
      | inl is_reload ↦
          rw is_reload
            (on_reload-keep around.cause _ (reload-keep P out serde around.sys e files h))
      | inr no_reload ↦ rw no_reload (elim (Bool-cases (req.cmd == "status")) [
        | inl is_status ↦ rw is_status h
        | inr no_status ↦ rw no_status (elim (Bool-cases (req.cmd == "extension")) [
          | inl is_extension ↦ rw is_extension (
              on_extension-keep (or_else req.key "") files _
                (granted e (or_else req.key "") around.now (or_else req.minutes 5) h))
          | inr no_extension ↦ rw no_extension (elim (Bool-cases (req.cmd == "apply")) [
            | inl is_apply ↦ rw is_apply (apply_path-keep (or_else req.path ""))
            | inr no_apply ↦ rw no_apply h
          ])
        ])
      ])
    ]

    on_request-keep : (p : Parsed) → P (on_request serde around e files p).0.0
    unfolding on_request
    on_request-keep (bad message) = h
    on_request-keep (good req) =
        elim (Bool-cases (not (eqb req.v 0) && not (eqb req.v protocol_version))) [
          | inl strange ↦ rw strange h
          | inr spoken ↦ rw spoken (dispatch-keep req)
        ]

    pub handle-keep :
        (from_slice : List ℕ → Parsed) (buf : Option (List ℕ))
        → P (handle from_slice serde around buf e files).0.0
    unfolding handle
    handle-keep from_slice none = h
    handle-keep from_slice (some buf) = on_request-keep (from_slice buf)
