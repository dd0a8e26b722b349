-- ===== src/Decide/Meaning.antt =====
-- The decision as a condition on the rule set and the moment.
use ningshi.Prelude.{
  ℕ, ◌≡◌, ◌≢◌, refl, ◌↔◌, ◌⊎◌, inl, inr, Bool, true, false, List, [], ◌∷◌, any, Occurs, arith,
  string_key, Bool-cases,
}
use text.Mathlib.TextEquality.{eq_iff}
use ningshi.Rules.{TimeWindow, TimeWindows, RuleSet}
use ningshi.Window.{in_window}
use ningshi.Decide.{windows_block, eval}

module _ (now_min weekday : ℕ) where
  -- Some window of the list is open.
  abbrev pub SomeOpen : List TimeWindow → Type 0
  SomeOpen ws = (w : TimeWindow) × Occurs w ws × (in_window w now_min weekday ≡ true)

  -- Windows block inside them in block mode, and outside all of them in every other mode.
  abbrev pub WindowsBlock : TimeWindows → Type 0
  WindowsBlock tw =
      (tw.windows ≢ [])
      × (((tw.mode ≡ "block") × SomeOpen tw.windows)
          ⊎ ((tw.mode ≢ "block") × ¬ SomeOpen tw.windows))

  any→SomeOpen :
      (ws : List TimeWindow) → any (λ w. in_window w now_min weekday) ws ≡ true → SomeOpen ws
  any→SomeOpen [] h = cc
  any→SomeOpen (w ∷ ws) h = elim (Bool-cases (in_window w now_min weekday)) [
    | inl open_now ↦ (w, inl refl, open_now)
    | inr shut ↦ let (v, at, open_now) = any→SomeOpen ws (ground arith) in (v, inr at, open_now)
  ]

  any-of_Occurs :
      (ws : List TimeWindow) (w : TimeWindow)
      → Occurs w ws
      → in_window w now_min weekday ≡ true
      → any (λ v. in_window v now_min weekday) ws ≡ true
  any-of_Occurs [] w at h = elim at [ ]
  any-of_Occurs (v ∷ ws) w (inl e) h = ground arith
  any-of_Occurs (v ∷ ws) w (inr at) h = ground (arith, any-of_Occurs ws w at h)

  not-SomeOpen :
      (ws : List TimeWindow) → any (λ w. in_window w now_min weekday) ws ≡ false → ¬ SomeOpen ws
  not-SomeOpen ws h (w, at, open_now) = cc (any-of_Occurs ws w at open_now)

  -- The reasons to block, without an order among them.
  abbrev pub Reason : RuleSet → Bool → Bool → Bool → Type 0
  Reason rules over_duration cooldown screen_off =
      (rules.always_on ≡ true)
      ⊎ ((rules.lock_block ≡ true) × (screen_off ≡ true))
      ⊎ (cooldown ≡ true)
      ⊎ (over_duration ≡ true)
      ⊎ WindowsBlock rules.time_windows

  windows_block_sound :
      (tw : TimeWindows) → windows_block tw now_min weekday ≡ true → WindowsBlock tw
  unfolding windows_block
  windows_block_sound tw h = elim (Bool-cases (any (λ w. in_window w now_min weekday) tw.windows)) [
    | inl some_open ↦ (
      ground arith,
      inl (ground (arith, eq_iff tw.mode "block"), any→SomeOpen tw.windows some_open),
    )
    | inr none_open ↦ (
      ground arith,
      inr (ground (arith, eq_iff tw.mode "block"), not-SomeOpen tw.windows none_open),
    )
  ]

  windows_block_complete :
      (tw : TimeWindows) → WindowsBlock tw → windows_block tw now_min weekday ≡ true
  unfolding windows_block
  windows_block_complete tw (ne, inl (mode, (w, at, open_now))) =
      ground (arith, any-of_Occurs tw.windows w at open_now, eq_iff tw.mode "block")
  windows_block_complete tw (ne, inr (mode, shut)) =
      elim (Bool-cases (any (λ w. in_window w now_min weekday) tw.windows)) [
        | inl some_open ↦ absurd (shut (any→SomeOpen tw.windows some_open))
        | inr none_open ↦ ground (arith, eq_iff tw.mode "block")
      ]

  windows_block-cases :
      (tw : TimeWindows) → WindowsBlock tw ⊎ (windows_block tw now_min weekday ≡ false)
  windows_block-cases tw = elim (Bool-cases (windows_block tw now_min weekday)) [
    | inl h ↦ inl (windows_block_sound tw h)
    | inr h ↦ inr h
  ]

  module _ (rules : RuleSet) (ext_active over_duration cooldown screen_off : Bool) where
    eval_sound :
        eval rules now_min weekday ext_active over_duration cooldown screen_off ≡ true
        → (ext_active ≡ false) × Reason rules over_duration cooldown screen_off
    unfolding eval
    eval_sound h = elim (windows_block-cases rules.time_windows) [
      | inl why ↦ (ground arith, inr (inr (inr (inr why))))
      | inr none_blocks ↦ ground arith
    ]

    eval_complete :
        ext_active ≡ false
        → Reason rules over_duration cooldown screen_off
        → eval rules now_min weekday ext_active over_duration cooldown screen_off ≡ true
    unfolding eval
    eval_complete e (inl h) = ground arith
    eval_complete e (inr (inl h)) = ground arith
    eval_complete e (inr (inr (inl h))) = ground arith
    eval_complete e (inr (inr (inr (inl h)))) = ground arith
    eval_complete e (inr (inr (inr (inr h)))) =
        ground (arith, windows_block_complete rules.time_windows h)

    -- The rule set blocks exactly when no extension is active and one of the reasons holds.
    pub eval_iff :
        (eval rules now_min weekday ext_active over_duration cooldown screen_off ≡ true)
        ↔ ((ext_active ≡ false) × Reason rules over_duration cooldown screen_off)
    eval_iff = (eval_sound, λ h. eval_complete h.0 h.1)
