-- ===== src/Gate.antt =====
-- The part of daemon/src/gate.rs that the engine drives: the block map, its mirror for the killer
-- thread, and the names blocked for each uid. The BPF map is a parameter, `BlockMap`.
pub mod Mirror
pub mod Events
pub mod Killer
pub mod Health
pub mod Anchors
use ningshi.Prelude.{
  ℕ, ◌≡◌, ◌≢◌, String, Bool, true, false, not, ◌&&◌, ◌||◌, List, Option, none, some, contains, eqb,
  nat_key,
}
use ningshi.Prelude.Map.{Map}
use ningshi.Prelude.Set.{insert, remove}

-- `aya::maps::HashMap<_, u32, u8>` over the map `blocked_uids`; `none` is an error of the syscall.
pub record BlockMap (M : Type 0) : Type 0 where
  pub insert : M → ℕ → Option M
  pub remove : M → ℕ → Option M
  pub has : M → ℕ → Bool

-- What a BPF hash map does when the syscall succeeds, and that deleting a present key succeeds.
pub record BlockMapLaws {M : Type 0} (bpf : BlockMap M) : Type 0 where
  pub has-insert :
      (m m' : M) (uid j : ℕ)
      → bpf.insert m uid ≡ some m'
      → bpf.has m' j ≡ (eqb uid j || bpf.has m j)
  pub has-remove :
      (m m' : M) (uid j : ℕ)
      → bpf.remove m uid ≡ some m'
      → bpf.has m' j ≡ (not (eqb uid j) && bpf.has m j)
  pub remove_present : (m : M) (uid : ℕ) → bpf.has m uid ≡ true → bpf.remove m uid ≢ none

-- `identity` is shared with the killer thread, and so is `blocked_set`.
pub record Gate (M : Type 0) : Type 0 where
  pub blocked : M
  pub blocked_set : List ℕ
  pub identity : Map ℕ (List String)

module _ {M : Type 0} where
  unfoldable pub set_block_index : Gate M → Map ℕ (List String) → Gate M
  set_block_index g index = record g { identity = index }

  unfoldable pub set_blocked : BlockMap M → Gate M → ℕ → Bool → Option (Gate M)
  set_blocked bpf g uid true = elim (bpf.insert g.blocked uid) [
    | none ↦ none
    | some m ↦ some (record g { blocked = m; blocked_set = insert g.blocked_set uid })
  ]
  set_blocked bpf g uid false = elim (bpf.remove g.blocked uid) [
    | none ↦ none
    | some m ↦ some (record g { blocked = m; blocked_set = remove g.blocked_set uid })
  ]
