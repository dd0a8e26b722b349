-- ===== src/Engine/Reload/Install.antt =====
-- Installing a candidate rule file.
use ningshi.Prelude.{
  ℕ, ◌≤◌, ◌≡◌, ◌≢◌, refl, ap, ◌∙◌, ◌⊎◌, inl, inr, String, Bool, true, false, Option, none, some,
  arith, ltb, length, Bool-cases,
}
use ningshi.Prelude.Map.{Map}
use ningshi.Rules.{Rules, Serde, rules_version_max, sanitize, load}
use ningshi.Rules.Sanitize.{sanitize_idem}
use ningshi.Engine.{Engine, file}
use ningshi.Engine.Reload.{
  Files, System, is_file, Checked, good, bad, ApplyError, not_reloaded, not_read_back, ok, err,
  check_candidate, reload_rules, reload, reloaded, with_uids, install, apply_rules_file,
  refresh_backup, refresh_settings, shared_flags,
}
use ningshi.Engine.Reload.Keep.{reload-HasRules}

rules_json-refresh_backup :
    (sys : System) (files : Files) → (refresh_backup sys files).rules_json ≡ files.rules_json
unfolding refresh_backup
rules_json-refresh_backup sys files = elim (Bool-cases sys.copies) [
  | inl copied ↦ rw copied refl
  | inr failed ↦ rw failed refl
]

module _ {M : Type 0} where
  reloaded-err :
      (o : (Engine M × Files) × Bool) (x : ApplyError)
      → (reloaded o).1 ≡ err x
      → (x ≡ not_reloaded) ⊎ (x ≡ not_read_back)
  reloaded-err (s, false) x h = inl (ground arith)
  reloaded-err ((e, files), true) x h = elim (Bool-cases (is_file e.rules_source)) [
    | inl live ↦ absurd (cc (rw live at h))
    | inr fallen ↦ inr (ground (arith, rw fallen at h))
  ]

  install_refused :
      (serde : Serde) (sys : System) (written : Bool) (c : Checked) (e : Engine M) (files : Files)
      (x : ApplyError)
      → (install serde sys written c e files).1 ≡ err x
      → x ≢ not_reloaded
      → x ≢ not_read_back
      → (install serde sys written c e files).0 ≡ (e, files)
  unfolding install
  install_refused serde sys written (bad y) e files x h a b = refl
  install_refused serde sys false (good text) e files x h a b = refl
  install_refused serde sys true (good text) e files x h a b =
      elim (reloaded-err (reload serde sys e (record files { rules_json = some text })) x h) [
        | inl p ↦ absurd (a p)
        | inr p ↦ absurd (b p)
      ]

  -- A candidate that is refused changes neither the running engine nor the rule file nor its
  -- backup. The two errors excluded come after the file was replaced.
  pub apply_rules_file_refused :
      (serde : Serde) (sys : System) (written : Bool) (candidate : Option String) (e : Engine M)
      (files : Files) (x : ApplyError)
      → (apply_rules_file serde sys written candidate e files).1 ≡ err x
      → x ≢ not_reloaded
      → x ≢ not_read_back
      → (apply_rules_file serde sys written candidate e files).0 ≡ (e, files)
  unfolding apply_rules_file
  apply_rules_file_refused serde sys written candidate e files x h a b =
      install_refused serde sys written (check_candidate serde candidate) e files x h a b

  reloaded_ok :
      (o : (Engine M × Files) × Bool)
      → o.1 ≡ true
      → is_file o.0.0.rules_source ≡ true
      → reloaded o ≡ (o.0, ok (length o.0.0.rules.apps))
  reloaded_ok (s, false) done live = absurd (cc done)
  reloaded_ok ((e, files), true) done live = ground (arith, live)

  abbrev IsInstalled : Rules → String → (Engine M × Files) × Bool → Type 0
  IsInstalled r text ((e, files), done) =
      (done ≡ true) × (e.rules ≡ r) × (e.rules_source ≡ file) × (files.rules_json ≡ some text)

  with_uids_good :
      (resolved : Option (Map String ℕ)) (uids : Map String ℕ) (sys : System)
      (flags : Map String Bool) (e : Engine M) (files : Files)
      → resolved ≡ some uids
      → let o = with_uids resolved sys flags e files in (o.1 ≡ true) × (o.0.1 ≡ files)
  unfolding with_uids
  with_uids_good none uids sys flags e files h = absurd (cc h)
  with_uids_good (some u) uids sys flags e files h = (refl, refl)

  reload_rules_good :
      (serde : Serde) (sys : System) (e : Engine M) (files : Files) (r : Rules)
      → load serde files.rules_json ≡ some r
      → reload_rules serde sys e files
        ≡ (record e { rules = r; rules_source = file }, refresh_backup sys files)
  unfolding reload_rules
  reload_rules_good serde sys e files r h = rw (h, reload_rules) refl

  reload_good :
      (serde : Serde) (sys : System) (e : Engine M) (files : Files) (r : Rules) (text : String)
      (uids : Map String ℕ)
      → load serde files.rules_json ≡ some r
      → files.rules_json ≡ some text
      → sys.resolved ≡ some uids
      → IsInstalled r text (reload serde sys e files)
  unfolding reload
  reload_good serde sys e files r text uids h t p =
      let good_rules = reload_rules_good serde sys e files r h in
      let (runs, source) = reload-HasRules serde sys e files in
      let (e', files') = reload_rules serde sys e files in
      let (done, kept) =
        with_uids_good sys.resolved uids sys (shared_flags e.rules.groups) (refresh_settings sys e')
          files' p in
      (
        done,
        runs ∙ ap (λ z. z.0.rules) good_rules,
        source ∙ ap (λ z. z.0.rules_source) good_rules,
        ap (λ f. f.rules_json) kept
            ∙ ap (λ z. z.1.rules_json) good_rules
            ∙ rules_json-refresh_backup sys files
            ∙ t,
      )

  module _ (serde : Serde) (sys : System) (e : Engine M) (files : Files) (text canonical : String)
      (r : Rules) (uids : Map String ℕ) (parses : serde.from_str text ≡ some r)
      (supported : r.version ≤ rules_version_max)
      (prints : serde.to_string_pretty (sanitize r) ≡ some canonical)
      (round_trips : serde.from_str canonical ≡ some (sanitize r))
      (reads_packages : sys.resolved ≡ some uids) where
    check_candidate-good : check_candidate serde (some text) ≡ good canonical
    unfolding check_candidate
    check_candidate-good = elim (Bool-cases (ltb rules_version_max r.version)) [
      | inl newer ↦ absurd (ground arith)
      | inr fits ↦ ground (arith, parses, fits, prints)
    ]

    loads : load serde (some canonical) ≡ some (sanitize r)
    unfolding load
    loads = rw (round_trips, sanitize_idem r) refl

    reloads :
        IsInstalled
          (sanitize r)
          canonical
          (reload serde sys e (record files { rules_json = some canonical }))
    reloads =
        reload_good serde sys e (record files { rules_json = some canonical }) (sanitize r)
          canonical uids loads refl reads_packages

    -- A candidate that parses, is not too new and can be printed, replaces the rule file by its
    -- sanitized form and runs, if the new file can be written, what was printed parses back and
    -- the package list can be read. The count returned is that of the rules that now run.
    pub apply_rules_file_installed :
        let ((e', files'), result) = apply_rules_file serde sys true (some text) e files in
        (result ≡ ok (length e'.rules.apps))
        × (e'.rules ≡ sanitize r)
        × (e'.rules_source ≡ file)
        × (files'.rules_json ≡ some canonical)
    unfolding apply_rules_file install
    apply_rules_file_installed =
        let o = reload serde sys e (record files { rules_json = some canonical }) in
        let (done, runs, source, kept) = reloads in
        let q : apply_rules_file serde sys true (some text) e files ≡ reloaded o =
          ap (λ c. install serde sys true c e files) check_candidate-good in
        let q' : apply_rules_file serde sys true (some text) e files
            ≡ (o.0, ok (length o.0.0.rules.apps)) =
          q ∙ reloaded_ok o done (ap is_file source) in
        rw q' (refl, runs, source, kept)
