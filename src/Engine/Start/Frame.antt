-- ===== src/Engine/Start/Frame.antt =====
-- What the start of the engine establishes.
use ningshi.Prelude.{ℕ, ◌≡◌, refl, Option, none, some, eqb}
use ningshi.Prelude.Map.{Map}
use ningshi.Rules.{Rules, Serde}
use ningshi.Gate.{Gate}
use ningshi.Engine.{Engine, Moment, RulesSource}
use ningshi.Engine.Reload.{Files, System}
use ningshi.Engine.Reload.Frame.{if-keep, load_rules-keep}
use ningshi.Engine.Saved.{StateFile, restored, load_state}
use ningshi.Engine.Start.{blank, new}

-- It holds of the empty engine, and neither the rules nor a saved state break it.
pub new-keep {ℓ} :
    {M : Type 0} (P : Engine M → Type ℓ)
    (rule_set : (e : Engine M) (r : Rules) (s : RulesSource)
      → P e
      → P (record e { rules = r; rules_source = s }))
    (serde : Serde) (sys : System) (gate : Gate M) (kills : Map ℕ ℕ) (m : Moment)
    (saved : Option StateFile) (files : Files)
    → P (blank gate kills m.now_epoch)
    → ((e : Engine M) (st : StateFile) → saved ≡ some st → P e → P (restored e st))
    → P (new serde sys gate kills m saved files).0
unfolding new load_state
new-keep P rule_set serde sys gate kills m none files begun load =
    load_rules-keep P rule_set serde sys (blank gate kills m.now_epoch) files begun
new-keep P rule_set serde sys gate kills m (some st) files begun load =
    let kept = load_rules-keep P rule_set serde sys (blank gate kills m.now_epoch) files begun in
    if-keep P (eqb st.day m.today) _ _ (load _ st refl kept) kept
