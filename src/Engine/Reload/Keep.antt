-- ===== src/Engine/Reload/Keep.antt =====
-- Which rules run after a reload.
use ningshi.Prelude.{
  ℕ, ◌≡◌, refl, ◌∙◌, inl, inr, String, Bool, List, [], ◌∷◌, Option, none, some, arith, or_else, xor,
  if◌then◌else◌, nat_key, string_key, Bool-cases, Option-cases,
}
use ningshi.Prelude.Map.{Map, get}
use ningshi.Rules.{Rules, GroupRule, Serde, default_rules, load}
use ningshi.Engine.{Engine, RulesSource}
use ningshi.Engine.Usage.{member_uids}
use ningshi.Engine.Reload.{
  with_uids, reset_one, Files, System, new_flag, is_file, drop_cooldowns, drop_member_cooldowns,
  reset_toggled, refresh_settings, finish_reload, load_rules, reload_rules, reload, shared_flags,
}

module _ {M : Type 0} where
  -- The parts of the engine that the end of a reload leaves alone.
  abbrev pub HasRules : Engine M → Rules → RulesSource → Type 0
  HasRules e rules source = (e.rules ≡ rules) × (e.rules_source ≡ source)

  drop_cooldowns-HasRules :
      (uids : List ℕ) (e : Engine M) (r : Rules) (s : RulesSource)
      → HasRules e r s
      → HasRules (drop_cooldowns e uids) r s
  unfolding drop_cooldowns
  drop_cooldowns-HasRules [] e r s h = h
  drop_cooldowns-HasRules (uid ∷ uids) e r s h = drop_cooldowns-HasRules uids _ r s h

  drop_member-HasRules :
      (g : Option GroupRule) (e : Engine M) (r : Rules) (s : RulesSource)
      → HasRules e r s
      → HasRules (drop_member_cooldowns g e) r s
  unfolding drop_member_cooldowns
  drop_member-HasRules none e r s h = h
  drop_member-HasRules (some g) e r s h = drop_cooldowns-HasRules (member_uids e g.members) e r s h

  reset_one-HasRules :
      (gid : String) (old : Bool) (e : Engine M) (r : Rules) (s : RulesSource)
      → HasRules e r s
      → HasRules (reset_one gid old e) r s
  unfolding reset_one
  reset_one-HasRules gid old e r s h =
      elim (Bool-cases (xor (new_flag (get e.rules.groups gid) old) old)) [
        | inl toggled ↦ rw toggled (drop_member-HasRules (get e.rules.groups gid) _ r s h)
        | inr same ↦ rw same h
      ]

  reset_toggled-HasRules :
      (flags : Map String Bool) (e : Engine M) (r : Rules) (s : RulesSource)
      → HasRules e r s
      → HasRules (reset_toggled flags e) r s
  unfolding reset_toggled
  reset_toggled-HasRules [] e r s h = h
  reset_toggled-HasRules ((gid, old) ∷ flags) e r s h =
      reset_toggled-HasRules flags (reset_one gid old e) r s (reset_one-HasRules gid old e r s h)

  -- The rules that `load_rules` and `reload` choose from: the live file, the running rules if they
  -- came from a file, the backup, none.
  abbrev pub fallback : Serde → Engine M → Files → Rules
  fallback serde e files =
      if is_file e.rules_source then e.rules else or_else (load serde files.rules_ok) default_rules

  rules-reload_rules :
      (serde : Serde) (sys : System) (e : Engine M) (files : Files)
      → (reload_rules serde sys e files).0.rules
        ≡ or_else (load serde files.rules_json) (fallback serde e files)
  unfolding reload_rules load_rules
  rules-reload_rules serde sys e files = elim (Option-cases (load serde files.rules_json)) [
    | inr (r, parsed) ↦ rw (parsed, reload_rules)
    | inl broken ↦ elim (Bool-cases (is_file e.rules_source)) [
      | inl live ↦ rw (broken, reload_rules, live)
      | inr fallen ↦ elim (Option-cases (load serde files.rules_ok)) [
        | inl lost ↦ ground (arith, broken, fallen, lost)
        | inr (r, kept) ↦ ground (arith, broken, fallen, kept)
      ]
    ]
  ]

  rules-with_uids :
      (resolved : Option (Map String ℕ)) (sys : System) (flags : Map String Bool) (e : Engine M)
      (files : Files)
      → HasRules (with_uids resolved sys flags e files).0.0 e.rules e.rules_source
  unfolding with_uids finish_reload
  rules-with_uids none sys flags e files = (refl, refl)
  rules-with_uids (some uids) sys flags e files =
      reset_toggled-HasRules flags _ e.rules e.rules_source (refl, refl)

  rules-refresh_settings :
      (sys : System) (e : Engine M) → HasRules (refresh_settings sys e) e.rules e.rules_source
  unfolding refresh_settings
  rules-refresh_settings sys e = (refl, refl)

  -- A reload ends with the rules and the source that `reload_rules` chose.
  pub reload-HasRules :
      (serde : Serde) (sys : System) (e : Engine M) (files : Files)
      → let e' = (reload_rules serde sys e files).0 in
        HasRules (reload serde sys e files).0.0 e'.rules e'.rules_source
  unfolding reload
  reload-HasRules serde sys e files =
      let (e', files') = reload_rules serde sys e files in
      let (r, s) =
        rules-with_uids sys.resolved sys (shared_flags e.rules.groups) (refresh_settings sys e')
          files' in
      let (r', s') = rules-refresh_settings sys e' in (r ∙ r', s ∙ s')

  -- After a reload the live file's rules run if it parses, whatever version it claims. If it does
  -- not, rules that came from the file stay in force; a daemon on a fallback takes the backup, and
  -- only without a readable backup runs no rules. This is so whether or not the package list can be
  -- read.
  pub rules-reload :
      (serde : Serde) (sys : System) (e : Engine M) (files : Files)
      → (reload serde sys e files).0.0.rules
        ≡ or_else (load serde files.rules_json) (fallback serde e files)
  rules-reload serde sys e files =
      (reload-HasRules serde sys e files).0 ∙ rules-reload_rules serde sys e files
