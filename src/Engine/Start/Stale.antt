-- ===== src/Engine/Start/Stale.antt =====
-- A restart in the hours in which the date of the rules' time zone is ahead of the date in UTC.
use ningshi.Prelude.{
  ℕ, ◌+◌, ◌/◌, ◌%◌, ◌≤◌, ◌<◌, ◌≡◌, refl, sym, ◌∙◌, [], none, some, true, arith, ltb,
}
use mathlib.Core.Path.{subst}
use ningshi.Prelude.Map.{Map}
use ningshi.Prelude.Int.{pos}
use ningshi.Timezone.{offset}
use ningshi.Rules.{Serde}
use ningshi.Gate.{Gate}
use ningshi.Engine.{Engine}
use ningshi.Engine.Clock.{Chrono, ChronoLaws, local_secs, parts, now_parts}
use ningshi.Engine.Reload.{Files, System}
use ningshi.Engine.Reload.Frame.{load_rules-keep}
use ningshi.Engine.Saved.{save_state}
use ningshi.Engine.Saved.Restart.{load_state_stale}
use ningshi.Engine.Start.{blank, new}

module _ {M : Type 0} where
  -- No usage, no cooldown and no granted minute.
  abbrev pub IsForgotten : Engine M → Type 0
  IsForgotten e =
      (e.usage_seconds ≡ [])
      × (e.usage_fg ≡ [])
      × (e.cooldown_until ≡ [])
      × (e.group_cooldown_until ≡ [])
      × (e.ext_granted_today ≡ [])
      × (e.group_ext_granted_today ≡ [])

  module _ (c : Chrono) (laws : ChronoLaws c) (n : ℕ) (valid : n < 86400) where
    today_east :
        (e : Engine M) (t : ℕ)
        → e.tz_secs ≡ some (pos n)
        → (now_parts c e t).today ≡ (t + 86400 + n) / 86400
    unfolding now_parts parts offset local_secs
    today_east e t zone = rw zone (rw (the_zone) (laws.date_naive_lem (pos n) t valid))
      where
        the_zone : ltb n 86400 ≡ true
        the_zone = ground arith

    today_utc :
        (e : Engine M) (t : ℕ) → e.tz_secs ≡ none → (now_parts c e t).today ≡ (t + 86400) / 86400
    unfolding now_parts parts offset local_secs
    today_utc e t unset = rw unset (laws.date_naive_lem (pos 0) t (omega arith) ∙ omega arith)

    -- The rules' time zone is east of UTC, and the daemon saves its state when the date there is
    -- already that of the next day in UTC. It is started again on the same day: the date in the time
    -- zone is that of the save, yet the engine is made without any usage, cooldown or granted minute.
    pub new-IsForgotten :
        (serde : Serde) (sys : System) (gate : Gate M) (kills : Map ℕ ℕ) (files : Files)
        (before : Engine M) (t t' : ℕ)
        → before.tz_secs ≡ some (pos n)
        → 86400 ≤ t % 86400 + n
        → t ≤ t'
        → t' / 86400 ≡ t / 86400
        → ((now_parts c before t').today ≡ (now_parts c before t).today)
          × IsForgotten
              (new serde sys gate kills
                (now_parts c (blank gate kills t') t')
                (save_state true before (now_parts c before t) none).1
                files).0
    unfolding new blank
    new-IsForgotten serde sys gate kills files before t t' zone ahead order same =
        let saved_on = today_east before t zone in
        let loaded_on = today_utc (blank gate kills t') t' refl in
        (
          today_east before t' zone ∙ omega arith ∙ sym saved_on,
          subst IsForgotten
              (sym (
                load_state_stale before _ (now_parts c before t)
                  (now_parts c (blank gate kills t') t')
                  (λ e. omega (arith, e, saved_on, loaded_on))))
              (load_rules-keep IsForgotten (λ e r s h. h) serde sys (blank gate kills _) files
                (refl, refl, refl, refl, refl, refl)),
        )
