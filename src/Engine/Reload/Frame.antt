-- ===== src/Engine/Reload/Frame.antt =====
-- What a reload keeps: whatever no change of the rules, of the settings that are taken from them, of
-- the cooldowns, of the uids and of the time of the rule file can break.
use ningshi.Prelude.{
  ℕ, inl, inr, String, Bool, List, [], ◌∷◌, Option, none, some, xor, if◌then◌else◌, nat_key,
  string_key, Bool-cases, Option-cases,
}
use ningshi.Prelude.Int.{ℤ}
use ningshi.Prelude.Map.{Map, get}
use ningshi.Rules.{Rules, GroupRule, Serde, load}
use ningshi.Engine.{Engine, RulesSource}
use ningshi.Engine.Protected.{Output, resolve_protected}
use ningshi.Engine.Usage.{member_uids}
use ningshi.Engine.Reload.{
  Files, System, is_file, new_flag, shared_flags, drop_cooldowns, drop_member_cooldowns, reset_one,
  reset_toggled, refresh_settings, finish_reload, with_uids, load_rules, reload_rules, reload,
}

-- Every assignment of a reload keeps the predicate.
pub record OutlivesReload {ℓ} {M : Type 0} (P : Engine M → Type ℓ) : Type ℓ where
  pub rule_set :
      (e : Engine M) (r : Rules) (s : RulesSource)
      → P e
      → P (record e { rules = r; rules_source = s })
  pub settings :
      (e : Engine M) (tz : Option ℤ) (ime home : Option Output)
      → P e
      → P (record e { tz_secs = tz; protected = resolve_protected ime home })
  pub uids :
      (e : Engine M) (uid_of : Map String ℕ) (t : Option ℕ)
      → P e
      → P (record e { uid_of = uid_of; last_mtime = t })
  pub uid_cooldowns : (e : Engine M) (c : Map ℕ ℕ) → P e → P (record e { cooldown_until = c })
  pub group_cooldowns :
      (e : Engine M) (c : Map String ℕ) → P e → P (record e { group_cooldown_until = c })

pub if-keep {ℓ} :
    {M : Type 0} (P : Engine M → Type ℓ) (b : Bool) (x y : Engine M)
    → P x
    → P y
    → P (if b then x else y)
if-keep P b x y h k = elim (Bool-cases b) [ inl p ↦ rw p h | inr p ↦ rw p k ]

module _ {ℓ} {M : Type 0} (P : Engine M → Type ℓ)
    (rule_set : (e : Engine M) (r : Rules) (s : RulesSource)
      → P e
      → P (record e { rules = r; rules_source = s })) where
  pub load_rules-keep :
      (serde : Serde) (sys : System) (e : Engine M) (files : Files)
      → P e
      → P (load_rules serde sys e files).0
  unfolding load_rules
  load_rules-keep serde sys e files h = elim (Option-cases (load serde files.rules_json)) [
    | inr (r, good) ↦ rw (good, load_rules) (rule_set e r _ h)
    | inl broken ↦ elim (Option-cases (load serde files.rules_ok)) [
      | inr (r, kept) ↦ rw (broken, load_rules, kept) (rule_set e r _ h)
      | inl lost ↦ rw (broken, load_rules, lost) (rule_set e _ _ h)
    ]
  ]

  reload_rules-keep :
      (serde : Serde) (sys : System) (e : Engine M) (files : Files)
      → P e
      → P (reload_rules serde sys e files).0
  unfolding reload_rules
  reload_rules-keep serde sys e files h = elim (Option-cases (load serde files.rules_json)) [
    | inr (r, good) ↦ rw (good, reload_rules) (rule_set e r _ h)
    | inl broken ↦ elim (Bool-cases (is_file e.rules_source)) [
      | inl live ↦ rw (broken, reload_rules, live) h
      | inr fallen ↦ rw (broken, reload_rules, fallen) (load_rules-keep serde sys e files h)
    ]
  ]

module _ {ℓ} {M : Type 0} (P : Engine M → Type ℓ)
    (uid_cooldowns : (e : Engine M) (c : Map ℕ ℕ) → P e → P (record e { cooldown_until = c }))
    (group_cooldowns : (e : Engine M) (c : Map String ℕ)
      → P e
      → P (record e { group_cooldown_until = c })) where
  drop_cooldowns-keep : (uids : List ℕ) (e : Engine M) → P e → P (drop_cooldowns e uids)
  unfolding drop_cooldowns
  drop_cooldowns-keep [] e h = h
  drop_cooldowns-keep (uid ∷ uids) e h = drop_cooldowns-keep uids _ (uid_cooldowns e _ h)

  drop_member_cooldowns-keep :
      (g : Option GroupRule) (e : Engine M) → P e → P (drop_member_cooldowns g e)
  unfolding drop_member_cooldowns
  drop_member_cooldowns-keep none e h = h
  drop_member_cooldowns-keep (some g) e h = drop_cooldowns-keep (member_uids e g.members) e h

  reset_one-keep : (gid : String) (old : Bool) (e : Engine M) → P e → P (reset_one gid old e)
  unfolding reset_one
  reset_one-keep gid old e h =
      if-keep P (xor (new_flag (get e.rules.groups gid) old) old) _ e
        (drop_member_cooldowns-keep (get e.rules.groups gid) _ (group_cooldowns e _ h)) h

  pub reset_toggled-keep :
      (flags : Map String Bool) (e : Engine M) → P e → P (reset_toggled flags e)
  unfolding reset_toggled
  reset_toggled-keep [] e h = h
  reset_toggled-keep ((gid, old) ∷ flags) e h =
      reset_toggled-keep flags (reset_one gid old e) (reset_one-keep gid old e h)

module _ {ℓ} {M : Type 0} (P : Engine M → Type ℓ) (out : OutlivesReload P) where
  with_uids-keep :
      (resolved : Option (Map String ℕ)) (sys : System) (flags : Map String Bool) (e : Engine M)
      (files : Files)
      → P e
      → P (with_uids resolved sys flags e files).0.0
  unfolding with_uids finish_reload
  with_uids-keep none sys flags e files h = h
  with_uids-keep (some m) sys flags e files h =
      reset_toggled-keep P out.uid_cooldowns out.group_cooldowns flags _ (out.uids e m _ h)

  pub reload-keep :
      (serde : Serde) (sys : System) (e : Engine M) (files : Files)
      → P e
      → P (reload serde sys e files).0.0
  unfolding reload refresh_settings
  reload-keep serde sys e files h =
      let (e', files') = reload_rules serde sys e files in
      with_uids-keep sys.resolved sys (shared_flags e.rules.groups) (refresh_settings sys e') files'
        (out.settings e' _ _ _ (reload_rules-keep P out.rule_set serde sys e files h))
