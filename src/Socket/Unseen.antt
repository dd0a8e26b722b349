-- ===== src/Socket/Unseen.antt =====
-- A reload that half succeeds.
use ningshi.Prelude.{ℕ, ◌≡◌, refl, ap, ◌∙◌, Bool, true, false, List, none, some, string_key, arith}
use ningshi.Rules.{Rules, Serde, load}
use ningshi.Engine.{Engine}
use ningshi.Engine.Reload.{Files, with_uids, reload_rules, refresh_settings, shared_flags, reload}
use ningshi.Engine.Reload.Keep.{rules-reload}
use ningshi.Socket.{Request, Parsed, good, Around, on_reload, dispatch, on_request, handle}
use ningshi.Socket.Effects.{is_spoken}

module _ {M : Type 0} (serde : Serde) (around : Around) (e : Engine M) (files : Files) where
  reload_broken : around.sys.resolved ≡ none → (reload serde around.sys e files).1 ≡ false
  unfolding reload with_uids
  reload_broken gone =
      let (e', files') = reload_rules serde around.sys e files in
      ap
        (λ o.
          (with_uids o around.sys (shared_flags e.rules.groups) (refresh_settings around.sys e')
            files').1)
        gone

  on_reload_broken :
      (o : (Engine M × Files) × Bool)
      → o.1 ≡ false
      → ((on_reload around.cause o).0 ≡ o.0) × ((on_reload around.cause o).1.1 ≡ false)
  unfolding on_reload
  on_reload_broken (s, true) h = cc h
  on_reload_broken (s, false) h = (refl, refl)

  on_request-reload :
      (req : Request)
      → is_spoken req.v ≡ true
      → req.cmd ≡ "reload"
      → ((on_request serde around e files (good req)).0
          ≡ (on_reload around.cause (reload serde around.sys e files)).0)
        × ((on_request serde around e files (good req)).1.1
            ≡ (on_reload around.cause (reload serde around.sys e files)).1.1)
  unfolding on_request dispatch
  on_request-reload req spoken cmd = ground (arith, (string_key.same_iff req.cmd "reload").1 cmd)

  -- A reload request in a version that is understood, when the rule file is good and the package
  -- list cannot be read: the new rules are the running ones from then on, but the request does not
  -- count as a change, so no tick applies them at once.
  pub handle_unseen :
      (from_slice : List ℕ → Parsed) (buf : List ℕ) (req : Request) (r : Rules)
      → from_slice buf ≡ good req
      → is_spoken req.v ≡ true
      → req.cmd ≡ "reload"
      → load serde files.rules_json ≡ some r
      → around.sys.resolved ≡ none
      → let o = handle from_slice serde around (some buf) e files in
        (o.0.0.rules ≡ r) × (o.1.1 ≡ false)
  unfolding handle
  handle_unseen from_slice buf req r parsed spoken cmd fine gone =
      let (kept, quiet) = on_reload_broken (reload serde around.sys e files) (reload_broken gone) in
      let (same, told) = on_request-reload req spoken cmd in
      rw parsed (
        ap (λ s. s.0.rules) (same ∙ kept) ∙ rules-reload serde around.sys e files ∙ rw fine refl,
        told ∙ quiet,
      )
