-- ===== src/Engine/Transitions.antt =====
-- The part of `tick` in daemon/src/engine.rs that applies a plan: newly blocked uids are cleaned up
-- and counted, the gate's block map follows, and uids that no rule names are released.
pub mod Frame
pub mod Exact
use ningshi.Prelude.{
  ℕ, ◌+◌, Bool, true, false, not, ◌&&◌, List, [], ◌∷◌, ◌++◌, map, Option, none, some, ltb, u64, xor,
  contains, length, or_else, if◌then◌else◌, nat_key,
}
use ningshi.Prelude.Map.{Map, get, insert, contains_key}
use ningshi.Prelude.Set
use ningshi.Clear.{Procs, kill_uid}
use ningshi.Gate.{BlockMap, Gate, set_blocked}
use ningshi.Engine.{Engine}

-- The engine, and the signals sent so far: pid and uid.
pub record Run (M : Type 0) : Type 0 where
  pub eng : Engine M
  pub signals : Map ℕ ℕ

-- What a fallible step leaves: the state, and whether it returned `Ok`.
abbrev pub Outcome : Type 0 → Type 0
Outcome M = Run M × Bool

-- `?`: an error ends the function, and what was done stays.
infixl 5 ◌>>=◌
abbrev pub ◌>>=◌ : {M : Type 0} → Outcome M → (Run M → Outcome M) → Outcome M
(r, true) >>= f = f r
(r, false) >>= f = (r, false)

-- `*c.entry(uid).or_insert(0) += 1`
abbrev pub bump : Map ℕ ℕ → ℕ → Map ℕ ℕ
bump counts uid = insert counts uid (u64 (or_else (get counts uid) 0 + 1))

module _ {M : Type 0} where
  -- The cleanup of a uid that becomes blocked.
  unfoldable pub clean_up : Procs → ℕ → Run M → Run M
  clean_up procs uid r =
      let hit = kill_uid procs uid in
      record r {
        eng =
            if ltb 0 (length hit) then record eng { kill_count = bump eng.kill_count uid } else eng;
        signals = r.signals ++ hit;
      }
    where
      eng : Engine M
      eng = r.eng

  -- The cleanup is for a uid that is to be blocked and is not yet.
  unfoldable pub cleaned : (ℕ → Procs) → ℕ → Bool → Run M → Run M
  cleaned snap uid should_block r =
      if should_block && not (contains r.eng.blocked uid) then clean_up (snap uid) uid r else r

module _ {M : Type 0} (bpf : BlockMap M) where
  -- `set_blocked(uid, on)?` and the update of `blocked`.
  unfoldable pub switch : ℕ → Bool → Run M → Outcome M
  switch uid on r = elim (set_blocked bpf r.eng.gate uid on) [
    | none ↦ (r, false)
    | some g ↦ (
      record r {
        eng = record eng {
          gate = g;
          blocked = if on then Set.insert blocked uid else Set.remove blocked uid;
        };
      },
      true,
    )
  ]
    where
      eng : Engine M
      eng = r.eng

      blocked : List ℕ
      blocked = r.eng.blocked

  -- One entry of `want`. What happens to each uid's processes is a snapshot of its own.
  unfoldable pub transition : (ℕ → Procs) → ℕ → Bool → Run M → Outcome M
  transition snap uid should_block r =
      let r' = cleaned snap uid should_block r in
      if xor should_block (contains r.eng.blocked uid)
      then switch uid should_block r'
      else (r', true)

  unfoldable pub transitions : (ℕ → Procs) → Map ℕ Bool → Run M → Outcome M
  transitions snap [] r = (r, true)
  transitions snap ((uid, should_block) ∷ want) r =
      transition snap uid should_block r >>= λ r'. transitions snap want r'

  -- One round of the loop over the uids that are blocked.
  unfoldable pub release_one : Map ℕ Bool → ℕ → Run M → Outcome M
  release_one want uid r = if contains_key want uid then (r, true) else switch uid false r

  unfoldable pub release : Map ℕ Bool → List ℕ → Run M → Outcome M
  release want [] r = (r, true)
  release want (uid ∷ current) r = release_one want uid r >>= λ r'. release want current r'

  -- Both loops. The uids to look at in the second are read after the first.
  unfoldable pub apply_plan : (ℕ → Procs) → Map ℕ Bool → Run M → Outcome M
  apply_plan snap want r = transitions snap want r >>= λ r'. release want r'.eng.blocked r'
