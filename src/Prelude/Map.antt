-- ===== src/Prelude/Map.antt =====
-- `HashMap` and `BTreeMap` as association lists. Clients use the laws; the order of the entries is
-- the order of iteration, which for a `BTreeMap` is that of the keys and for a `HashMap` arbitrary.
use mathlib.Core.Path.{◌≡◌, refl}
use mathlib.Core.Bool.{Bool}
use mathlib.Core.List.{List, [], ◌∷◌, map}
use mathlib.Core.Option.{Option, none, some}
use native.Mathlib.Omega.{arith}
use ningshi.Prelude.Tests.{Key, ◌==◌, if◌then◌else◌, is_some}

abbrev pub Map {ℓ κ} : Type ℓ → Type κ → Type (ℓ ⊔ κ)
Map K V = List (K × V)

module _ {ℓ κ} {K : Type ℓ} {V : Type κ} where
  unfoldable pub values : Map K V → List V
  values m = map (λ (kv : K × V). kv.1) m

  unfoldable pub retain : (K → Bool) → Map K V → Map K V
  retain p [] = []
  retain p ((k, v) ∷ m) = if p k then (k, v) ∷ retain p m else retain p m

module _ {ℓ κ} {K : Type ℓ} {V : Type κ} ⦃e : Key K⦄ where
  unfoldable pub get : Map K V → K → Option V
  get [] k = none
  get ((j, v) ∷ m) k = if j == k then some v else get m k

  unfoldable pub contains_key : Map K V → K → Bool
  unfolding get
  contains_key m k = is_some (get m k)

  unfoldable pub remove : Map K V → K → Map K V
  remove [] k = []
  remove ((j, v) ∷ m) k = if j == k then remove m k else (j, v) ∷ remove m k

  unfoldable pub insert : Map K V → K → V → Map K V
  unfolding remove
  insert m k v = (k, v) ∷ remove m k

  pub get-empty : (k : K) → get [] k ≡ none
  unfolding get
  get-empty k = refl

  pub get-remove : (m : Map K V) (k j : K) → get (remove m k) j ≡ (if k == j then none else get m j)
  unfolding get remove
  get-remove [] k j = ground arith
  get-remove ((i, v) ∷ m) k j =
      ground (arith, get-remove m k j, e.same_iff i k, e.same_iff i j, e.same_iff k j)

  pub get-insert :
      (m : Map K V) (k j : K) (v : V) → get (insert m k v) j ≡ (if k == j then some v else get m j)
  unfolding insert get
  get-insert m k j v = ground (arith, get-remove m k j)

  pub get-insert_self : (m : Map K V) (k : K) (v : V) → get (insert m k v) k ≡ some v
  get-insert_self m k v = rw (get-insert, (e.same_iff k k).1 refl)

  pub get-retain :
      (p : K → Bool) (m : Map K V) (k : K) → get (retain p m) k ≡ (if p k then get m k else none)
  unfolding get retain
  get-retain p [] k = ground arith
  get-retain p ((i, v) ∷ m) k = ground (arith, get-retain p m k, e.same_iff i k)

-- No key stands twice.
abbrev pub IsDistinct {ℓ κ} : {K : Type ℓ} {V : Type κ} ⦃e : Key K⦄ → Map K V → Type κ
IsDistinct [] = Unit
IsDistinct ((k, v) ∷ m) = (get m k ≡ none) × IsDistinct m

module _ {ℓ κ} {K : Type ℓ} {V : Type κ} ⦃e : Key K⦄ where
  remove-IsDistinct : (m : Map K V) (k : K) → IsDistinct m → IsDistinct (remove m k)
  unfolding remove
  remove-IsDistinct [] k h = tt
  remove-IsDistinct ((j, v) ∷ m) k h =
      ground (arith, remove-IsDistinct m k h.1, get-remove m k j, e.same_iff k j, e.same_iff j k)

  pub insert-IsDistinct : (m : Map K V) (k : K) (v : V) → IsDistinct m → IsDistinct (insert m k v)
  unfolding insert
  insert-IsDistinct m k v h =
      (ground (arith, get-remove m k k, e.same_iff k k), remove-IsDistinct m k h)

pub ruleset map_laws = (get-empty, get-remove, get-insert, get-retain)
