-- ===== src/Engine/Transitions/Frame.antt =====
-- What applying a plan keeps: whatever neither the kill counters nor the block list matter for.
use ningshi.Prelude.{
  ℕ, inl, inr, Bool, true, false, not, ◌&&◌, List, [], ◌∷◌, ltb, xor, contains, length, nat_key,
  Bool-cases, Option-cases,
}
use ningshi.Prelude.Map.{Map, contains_key}
use ningshi.Clear.{Procs, kill_uid}
use ningshi.Gate.{BlockMap, Gate, set_blocked}
use ningshi.Engine.{Engine}
use ningshi.Engine.Reload.Frame.{if-keep}
use ningshi.Engine.Transitions.{
  Run, Outcome, ◌>>=◌, clean_up, cleaned, switch, transition, transitions, release_one, release,
  apply_plan,
}

module _ {ℓ} {M : Type 0} (P : Engine M → Type ℓ)
    (killed : (e : Engine M) (c : Map ℕ ℕ) → P e → P (record e { kill_count = c })) where
  pub cleaned-keep :
      (snap : ℕ → Procs) (uid : ℕ) (on : Bool) (r : Run M) → P r.eng → P (cleaned snap uid on r).eng
  unfolding cleaned clean_up
  cleaned-keep snap uid on r h = elim (Bool-cases (on && not (contains r.eng.blocked uid))) [
    | inr old ↦ rw old h
    | inl new ↦
        rw new (if-keep P (ltb 0 (length (kill_uid (snap uid) uid))) _ r.eng (killed r.eng _ h) h)
  ]

module _ {ℓ} {M : Type 0} (bpf : BlockMap M) (P : Engine M → Type ℓ)
    (killed : (e : Engine M) (c : Map ℕ ℕ) → P e → P (record e { kill_count = c }))
    (switched : (e : Engine M) (g : Gate M) (b : List ℕ)
      → P e
      → P (record e { gate = g; blocked = b })) where
  >>=-keep :
      (o : Outcome M) (f : Run M → Outcome M)
      → P o.0.eng
      → ((r : Run M) → P r.eng → P (f r).0.eng)
      → P (o >>= f).0.eng
  >>=-keep (r, true) f h k = k r h
  >>=-keep (r, false) f h k = h

  switch-keep : (uid : ℕ) (on : Bool) (r : Run M) → P r.eng → P (switch bpf uid on r).0.eng
  unfolding switch
  switch-keep uid on r h = elim (Option-cases (set_blocked bpf r.eng.gate uid on)) [
    | inl failed ↦ rw (failed, switch) h
    | inr (g, set) ↦ rw (set, switch) (switched r.eng g _ h)
  ]

  transition-keep :
      (snap : ℕ → Procs) (uid : ℕ) (on : Bool) (r : Run M)
      → P r.eng
      → P (transition bpf snap uid on r).0.eng
  unfolding transition
  transition-keep snap uid on r h =
      let kept : P (cleaned snap uid on r).eng = cleaned-keep P killed snap uid on r h in
      elim (Bool-cases (xor on (contains r.eng.blocked uid))) [
        | inl differs ↦ rw differs (switch-keep uid on (cleaned snap uid on r) kept)
        | inr same ↦ rw same kept
      ]

  transitions-keep :
      (snap : ℕ → Procs) (want : Map ℕ Bool) (r : Run M)
      → P r.eng
      → P (transitions bpf snap want r).0.eng
  unfolding transitions
  transitions-keep snap [] r h = h
  transitions-keep snap ((uid, on) ∷ want) r h =
      >>=-keep (transition bpf snap uid on r) (transitions bpf snap want)
        (transition-keep snap uid on r h) (λ r' h'. transitions-keep snap want r' h')

  release_one-keep :
      (want : Map ℕ Bool) (uid : ℕ) (r : Run M) → P r.eng → P (release_one bpf want uid r).0.eng
  unfolding release_one
  release_one-keep want uid r h = elim (Bool-cases (contains_key want uid)) [
    | inl named ↦ rw named h
    | inr unnamed ↦ rw unnamed (switch-keep uid false r h)
  ]

  release-keep :
      (want : Map ℕ Bool) (uids : List ℕ) (r : Run M) → P r.eng → P (release bpf want uids r).0.eng
  unfolding release
  release-keep want [] r h = h
  release-keep want (uid ∷ uids) r h =
      >>=-keep (release_one bpf want uid r) (release bpf want uids) (release_one-keep want uid r h)
        (λ r' h'. release-keep want uids r' h')

  pub apply_plan-keep :
      (snap : ℕ → Procs) (want : Map ℕ Bool) (r : Run M)
      → P r.eng
      → P (apply_plan bpf snap want r).0.eng
  unfolding apply_plan
  apply_plan-keep snap want r h =
      >>=-keep (transitions bpf snap want r) _ (transitions-keep snap want r h)
        (λ r' h'. release-keep want r'.eng.blocked r' h')
