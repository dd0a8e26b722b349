-- ===== src/Prelude/Members.antt =====
-- Where an element of a joined, mapped or filtered list comes from.
use mathlib.Core.Path.{◌≡◌, ap, ◌∙◌}
use mathlib.Core.Logic.{inl, inr}
use mathlib.Core.Bool.{Bool, true}
use mathlib.Core.List.{List, [], ◌∷◌, ◌++◌, map}
use mathlib.Core.Option.{some}
use native.Mathlib.Omega.{arith}
use ningshi.Prelude.Tests.{Key, Bool-cases, ◌==◌}
use ningshi.Prelude.Lists.{Occurs, filter}
use ningshi.Prelude.Map.{Map, values, get}

module _ {A : Type 0} where
  pub Occurs-append_left : (xs ys : List A) (a : A) → Occurs a xs → Occurs a (xs ++ ys)
  Occurs-append_left [] ys a at = elim at [ ]
  Occurs-append_left (x ∷ xs) ys a (inl e) = inl e
  Occurs-append_left (x ∷ xs) ys a (inr at) = inr (Occurs-append_left xs ys a at)

  pub Occurs-append_right : (xs ys : List A) (a : A) → Occurs a ys → Occurs a (xs ++ ys)
  Occurs-append_right [] ys a at = at
  Occurs-append_right (x ∷ xs) ys a at = inr (Occurs-append_right xs ys a at)

  pub Occurs-filter :
      (p : A → Bool) (xs : List A) (a : A) → Occurs a xs → p a ≡ true → Occurs a (filter p xs)
  Occurs-filter p [] a at h = elim at [ ]
  Occurs-filter p (x ∷ xs) a (inl e) h = rw (ap p e ∙ h) (inl e)
  Occurs-filter p (x ∷ xs) a (inr at) h = elim (Bool-cases (p x)) [
    | inl kept ↦ rw kept (inr (Occurs-filter p xs a at h))
    | inr dropped ↦ rw dropped (Occurs-filter p xs a at h)
  ]

pub Occurs-map :
    {A B : Type 0} (f : A → B) (xs : List A) (a : A) → Occurs a xs → Occurs (f a) (map f xs)
Occurs-map f [] a at = elim at [ ]
Occurs-map f (x ∷ xs) a (inl e) = inl (ap f e)
Occurs-map f (x ∷ xs) a (inr at) = inr (Occurs-map f xs a at)

pub Occurs-values :
    {K V : Type 0} ⦃key : Key K⦄ (m : Map K V) (k : K) (v : V)
    → get m k ≡ some v
    → Occurs v (values m)
unfolding get values
Occurs-values [] k v h = cc
Occurs-values ((j, w) ∷ m) k v h = elim (Bool-cases (j == k)) [
  | inl same ↦ inl (ground arith)
  | inr other ↦ inr (Occurs-values m k v (ground arith))
]
