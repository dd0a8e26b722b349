-- ===== src/Examples/Budgets.antt =====
-- The theorems on extensions, cooldowns and uid changes on one engine.
use ningshi.Prelude.{
  ℕ, ◌≡◌, refl, inr, ◌⊎◌, String, [], ◌∷◌, true, none, some, arith, if◌then◌else◌, nat_key,
  string_key, ◌≤◌,
}
use ningshi.Prelude.Map.{Map, get}
use ningshi.Engine.Extension.{add_extension}
use ningshi.Engine.Extension.Grant.{IsCharged, Fits, add_extension_granted}
use ningshi.Engine.Cooldown.{maintain_uid_cooldown, maintain_group_cooldown}
use ningshi.Engine.Cooldown.Uid.{IsSettled}
use ningshi.Engine.Cooldown.Uid.Cycle.{IsCycle, IsKept, maintain_uid_cooldown-IsCycle}
use ningshi.Engine.Cooldown.Group.{IsPoolSettled}
use ningshi.Engine.Cooldown.Group.Cycle.{IsPoolCycle, maintain_group_cooldown-IsPoolCycle}
use ningshi.Engine.Packages.{resync, is_live}
use ningshi.Engine.Packages.Migration.{resync_moved}
use ningshi.Rules.{Serde}
use ningshi.Engine.Reload.{Files, System, reload}
use ningshi.Engine.Reload.Lost.{usage-resync-reload}
use ningshi.Examples.{an_hour, games, live_engine}

deadlines_fit : (uid : ℕ) → Fits (get live_engine.extension_until uid) 1000
unfolding get
deadlines_fit uid = ground arith

group_deadlines_fit : (gid : String) → Fits (get live_engine.group_extension_until gid) 1000
unfolding get
group_deadlines_fit gid = ground arith

add_extension_granted_example :
    (10 ≤ 20)
    × IsCharged live_engine (add_extension live_engine "0:video" 1000 20).0 "0:video" 1000 10
unfolding add_extension get
add_extension_granted_example =
    add_extension_granted live_engine "0:video" 1000 20 10 deadlines_fit group_deadlines_fit refl

maintain_uid_cooldown-IsCycle_example :
    IsCycle live_engine (maintain_uid_cooldown live_engine 10002 an_hour 1000) 10002 an_hour 1000
    × IsSettled (maintain_uid_cooldown live_engine 10002 an_hour 1000) 10002 an_hour 1000
    × ((j : ℕ) (scope : String)
        → (10002 ≡ j)
          ⊎ IsKept live_engine (maintain_uid_cooldown live_engine 10002 an_hour 1000) j scope)
maintain_uid_cooldown-IsCycle_example =
    maintain_uid_cooldown-IsCycle live_engine 10002 an_hour 1000 (omega arith) (omega arith)
      (omega arith)

maintain_group_cooldown-IsPoolCycle_example :
    IsPoolCycle live_engine (maintain_group_cooldown live_engine "g1" games 1000) "g1" games 1000
    × IsPoolSettled (maintain_group_cooldown live_engine "g1" games 1000) "g1" games 1000
maintain_group_cooldown-IsPoolCycle_example =
    maintain_group_cooldown-IsPoolCycle live_engine "g1" games 1000 (omega arith) (omega arith)
      (omega arith)

resync_moved_example :
    let e' = resync 2 (("0:video", 10001) ∷ ("0:chess", 10007) ∷ []) live_engine in
    (get e'.usage_seconds 10007 ≡ some 3600)
    × (get e'.usage_fg 10007 ≡ none)
    × (get e'.extension_until 10007 ≡ some 5000)
    × (get e'.ext_granted_today 10007 ≡ get live_engine.ext_granted_today 10007)
    × (get e'.cooldown_until 10007 ≡ get live_engine.cooldown_until 10007)
unfolding get
resync_moved_example =
    resync_moved live_engine 2 (("0:video", 10001) ∷ []) [] "0:chess" 10002 10007 (inr refl, tt) tt
      refl (λ h. omega (arith, h))

-- Chess has another uid in the list that the reload reads.
abbrev moved : Map String ℕ
moved = ("0:video", 10001) ∷ ("0:chess", 10009) ∷ []

abbrev reads_moved : System
reads_moved = record {
  copies = true;
  rules_mtime = some 2;
  resolved = some moved;
  input_method = none;
  launcher = none;
}

abbrev no_files : Files
no_files = record { rules_json = none; rules_ok = none }

abbrev no_serde : Serde
no_serde = record { from_str = λ s. none; to_string_pretty = λ r. none }

usage-resync-reload_example :
    get (resync 2 moved (reload no_serde reads_moved live_engine no_files).0.0).usage_seconds 10009
    ≡ (if is_live moved 10009 then get live_engine.usage_seconds 10009 else none)
unfolding get
usage-resync-reload_example =
    usage-resync-reload no_serde reads_moved live_engine no_files moved 2 10009 refl
      (refl, (refl, tt))
