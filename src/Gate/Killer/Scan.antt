-- ===== src/Gate/Killer/Scan.antt =====
-- The inner loop of the killer thread, over a vector with `swap_remove`, and the thread's rounds.
pub mod Moves
pub mod Once
use ningshi.Prelude.{
  ℕ, zero, suc, ◌+◌, Bool, true, false, List, [], ◌∷◌, ◌++◌, Option, none, some, length,
  if◌then◌else◌,
}
use ningshi.Gate.Killer.{Pending, Sight, Killer, examine, count_kill}

module _ {ℓ} {A : Type ℓ} where
  abbrev pub get_elem? : List A → ℕ → Option A
  get_elem? [] i = none
  get_elem? (x ∷ xs) zero = some x
  get_elem? (x ∷ xs) (suc i) = get_elem? xs i

  -- A write past the end changes nothing.
  abbrev pub set : List A → ℕ → A → List A
  set [] i v = []
  set (x ∷ xs) zero v = v ∷ xs
  set (x ∷ xs) (suc i) v = x ∷ set xs i v

  -- The last element of a list with this head, and what stands before it.
  abbrev pub last : A → List A → A
  last x [] = x
  last x (y ∷ ys) = last y ys

  abbrev pub init : A → List A → List A
  init x [] = []
  init x (y ∷ ys) = x ∷ init y ys

  -- Vec::swap_remove, for an index in range: the last element takes the place.
  unfoldable pub swap_remove : List A → ℕ → List A
  swap_remove [] i = []
  swap_remove (x ∷ xs) i = set (init x xs) i (last x xs)

-- `while i < pending.len()`; `none` means that the fuel ran out.
unfoldable pub scan :
    ℕ → (Pending → Sight) → ℕ → List Pending → Killer → Option (List Pending × Killer)
scan zero look i pending k = none
scan (suc fuel) look i pending k = elim (get_elem? pending i) [
  | none ↦ some (pending, k)
  | some p ↦ elim ((examine (look p) p k).1) [
    | true ↦ scan fuel look (i + 1) pending (examine (look p) p k).0
    | false ↦ scan fuel look i (swap_remove pending i) (examine (look p) p k).0
  ]
]
