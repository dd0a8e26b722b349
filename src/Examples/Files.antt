-- ===== src/Examples/Files.antt =====
-- The theorems on the rule file with one parser and one file.
use ningshi.Prelude.{
  ◌≡◌, refl, true, String, [], ◌∷◌, Option, none, some, arith, length, nat_key, or_else,
  if◌then◌else◌, ◌==◌, string_key, sym, ap,
}
use ningshi.Rules.{Rules, Serde, sanitize, load}
use ningshi.Rules.Sanitize.{sanitize_idem}
use ningshi.Engine.{file}
use ningshi.Engine.Reload.{
  Files, System, newer_version, ok, reload, apply_rules_file, check_candidate, install,
}
use ningshi.Engine.Reload.Keep.{fallback, rules-reload}
use ningshi.Engine.Reload.Install.{apply_rules_file_refused, apply_rules_file_installed}
use ningshi.Examples.{the_rules, live_engine}

-- It reads two texts: the rules, and rules of a version to come.
abbrev two_texts : String → Option Rules
two_texts s =
    if s == "rules"
    then some (sanitize the_rules)
    else if s == "newer"
    then some (record the_rules { version = 2 })
    else none

abbrev pub serde : Serde
serde = record { from_str = two_texts; to_string_pretty = λ r. some "rules" }

abbrev pub system : System
system = record {
  copies = true;
  rules_mtime = some 2;
  resolved = some (("0:video", 10001) ∷ []);
  input_method = some (record { success = true; stdout = "org.keys/.Service" });
  launcher = none;
}

abbrev pub broken : Files
broken = record { rules_json = some "{"; rules_ok = some "rules" }

rules-reload_example :
    (reload serde system live_engine broken).0.0.rules
    ≡ or_else (load serde (some "{")) (fallback serde live_engine broken)
rules-reload_example = rules-reload serde system live_engine broken

apply_rules_file_refused_example :
    (apply_rules_file serde system true (some "newer") live_engine broken).0 ≡ (live_engine, broken)
unfolding apply_rules_file check_candidate install
apply_rules_file_refused_example =
    apply_rules_file_refused serde system true (some "newer") live_engine broken (newer_version 2)
      refl (λ h. cc h) (λ h. cc h)

apply_rules_file_installed_example :
    let ((e', files'), result) =
      apply_rules_file serde system true (some "rules") live_engine broken in
    (result ≡ ok (length e'.rules.apps))
    × (e'.rules ≡ sanitize (sanitize the_rules))
    × (e'.rules_source ≡ file)
    × (files'.rules_json ≡ some "rules")
apply_rules_file_installed_example =
    apply_rules_file_installed serde system live_engine broken "rules" "rules" (sanitize the_rules)
      (("0:video", 10001) ∷ []) refl (unfold sanitize in omega arith) refl
      (ap some (sym (sanitize_idem the_rules))) refl
