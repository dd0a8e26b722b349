-- ===== src/Prelude/Set.antt =====
-- `HashSet` and `BTreeSet` as lists; clients use `contains` and its laws.
use mathlib.Core.Path.{◌≡◌}
use mathlib.Core.Bool.{not, ◌&&◌, ◌||◌}
use mathlib.Core.List.{List, [], ◌∷◌}
use native.Mathlib.Omega.{arith}
use ningshi.Prelude.Tests.{Key, ◌==◌, if◌then◌else◌}
use ningshi.Prelude.Lists.{contains}

module _ {ℓ} {A : Type ℓ} ⦃e : Key A⦄ where
  unfoldable pub insert : List A → A → List A
  insert xs a = if contains xs a then xs else a ∷ xs

  unfoldable pub remove : List A → A → List A
  remove [] a = []
  remove (x ∷ xs) a = if x == a then remove xs a else x ∷ remove xs a

  pub contains-insert :
      (xs : List A) (a b : A) → contains (insert xs a) b ≡ (a == b || contains xs b)
  unfolding insert
  contains-insert xs a b = ground (arith, e.same_iff a b)

  pub contains-remove :
      (xs : List A) (a b : A) → contains (remove xs a) b ≡ (not (a == b) && contains xs b)
  unfolding remove
  contains-remove [] a b = ground arith
  contains-remove (x ∷ xs) a b =
      ground (arith, contains-remove xs a b, e.same_iff x a, e.same_iff x b, e.same_iff a b)

pub ruleset set_laws = (contains-insert, contains-remove)
