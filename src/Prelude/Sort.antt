-- ===== src/Prelude/Sort.antt =====
-- `slice::sort` and `Vec::dedup`, with what they keep and how they order numbers.
use Prim.Native.Nat.{ℕ, suc, ◌≤◌}
use mathlib.Core.Path.{◌≡◌, refl}
use mathlib.Core.Bool.{Bool, ◌||◌}
use mathlib.Core.List.{List, [], ◌∷◌}
use native.Mathlib.Omega.{arith}
use ningshi.Prelude.Tests.{nat_key, Key, ◌==◌, if◌then◌else◌, leb}
use ningshi.Prelude.Lists.{contains, All}

module _ {ℓ} {A : Type ℓ} where
  unfoldable pub insert_sorted : (A → A → Bool) → A → List A → List A
  insert_sorted le a [] = a ∷ []
  insert_sorted le a (x ∷ xs) = if le a x then a ∷ x ∷ xs else x ∷ insert_sorted le a xs

  unfoldable pub sort : (A → A → Bool) → List A → List A
  unfolding insert_sorted
  sort le [] = []
  sort le (x ∷ xs) = insert_sorted le x (sort le xs)

  pub All-sort {κ} :
      (P : A → Type κ) (le : A → A → Bool) (xs : List A) → All P xs → All P (sort le xs)
  unfolding sort
  All-sort P le [] h = tt
  All-sort P le (x ∷ xs) h = All-insert_sorted (sort le xs) (All-sort P le xs h.1)
    where
      All-insert_sorted : (ys : List A) → All P ys → All P (insert_sorted le x ys)
      All-insert_sorted [] k = (h.0, tt)
      All-insert_sorted (y ∷ ys) k = ground (arith, All-insert_sorted ys k.1)

module _ {ℓ} {A : Type ℓ} ⦃e : Key A⦄ where
  unfoldable pub dedup_from : A → List A → List A
  dedup_from x [] = x ∷ []
  dedup_from x (y ∷ ys) = let rest = dedup_from y ys in if x == y then rest else x ∷ rest

  unfoldable pub dedup : List A → List A
  unfolding dedup_from
  dedup [] = []
  dedup (x ∷ xs) = dedup_from x xs

  contains-insert_sorted :
      (le : A → A → Bool) (a b : A) (xs : List A)
      → contains (insert_sorted le a xs) b ≡ (a == b || contains xs b)
  unfolding insert_sorted
  contains-insert_sorted le a b [] = ground arith
  contains-insert_sorted le a b (x ∷ xs) = ground (arith, contains-insert_sorted le a b xs)

  pub contains-sort :
      (le : A → A → Bool) (xs : List A) (b : A) → contains (sort le xs) b ≡ contains xs b
  unfolding sort
  contains-sort le [] b = refl
  contains-sort le (x ∷ xs) b =
      ground (arith, contains-insert_sorted le x b (sort le xs), contains-sort le xs b)

  contains-dedup_from :
      (x : A) (ys : List A) (b : A) → contains (dedup_from x ys) b ≡ contains (x ∷ ys) b
  unfolding dedup_from
  contains-dedup_from x [] b = refl
  contains-dedup_from x (y ∷ ys) b =
      ground (arith, contains-dedup_from y ys b, e.same_iff x y, e.same_iff x b, e.same_iff y b)

  pub contains-dedup : (xs : List A) (b : A) → contains (dedup xs) b ≡ contains xs b
  unfolding dedup
  contains-dedup [] b = refl
  contains-dedup (x ∷ xs) b = contains-dedup_from x xs b

-- Every element is at least the bound, and at least what stands before it.
abbrev pub IsSorted : ℕ → List ℕ → Type 0
IsSorted lo [] = Unit
IsSorted lo (x ∷ xs) = (lo ≤ x) × IsSorted x xs

-- Every element is at least the bound, and greater than what stands before it.
abbrev pub IsAscending : ℕ → List ℕ → Type 0
IsAscending lo [] = Unit
IsAscending lo (x ∷ xs) = (lo ≤ x) × IsAscending (suc x) xs

insert_sorted-IsSorted :
    (lo a : ℕ) (xs : List ℕ) → lo ≤ a → IsSorted lo xs → IsSorted lo (insert_sorted leb a xs)
unfolding insert_sorted
insert_sorted-IsSorted lo a [] h s = (h, tt)
insert_sorted-IsSorted lo a (x ∷ xs) h s = ground (arith, insert_sorted-IsSorted x a xs)

-- Sorting numbers that are all at least `lo` orders them.
pub sort-IsSorted : (lo : ℕ) (xs : List ℕ) → All (λ x. lo ≤ x) xs → IsSorted lo (sort leb xs)
unfolding sort
sort-IsSorted lo [] h = tt
sort-IsSorted lo (x ∷ xs) h =
    insert_sorted-IsSorted lo x (sort leb xs) h.0 (sort-IsSorted lo xs h.1)

dedup_from-IsAscending :
    (lo x : ℕ) (ys : List ℕ) → lo ≤ x → IsSorted x ys → IsAscending lo (dedup_from x ys)
unfolding dedup_from
dedup_from-IsAscending lo x [] h s = (h, tt)
dedup_from-IsAscending lo x (y ∷ ys) h s =
    ground (arith, dedup_from-IsAscending lo y ys, dedup_from-IsAscending (suc x) y ys)

-- After sorting, `dedup` leaves no number twice.
pub dedup-IsAscending : (lo : ℕ) (xs : List ℕ) → IsSorted lo xs → IsAscending lo (dedup xs)
unfolding dedup
dedup-IsAscending lo [] s = tt
dedup-IsAscending lo (x ∷ xs) s = dedup_from-IsAscending lo x xs s.0 s.1

-- What is ascending is left alone.
pub sort_of_IsAscending : (lo : ℕ) (xs : List ℕ) → IsAscending lo xs → sort leb xs ≡ xs
unfolding sort
sort_of_IsAscending lo [] h = refl
sort_of_IsAscending lo (x ∷ []) h = refl
sort_of_IsAscending lo (x ∷ y ∷ ys) h = ground (arith, sort_of_IsAscending (suc x) (y ∷ ys) h.1)

dedup_from_of_IsAscending :
    (x : ℕ) (ys : List ℕ) → IsAscending (suc x) ys → dedup_from x ys ≡ x ∷ ys
unfolding dedup_from
dedup_from_of_IsAscending x [] h = refl
dedup_from_of_IsAscending x (y ∷ ys) h = ground (arith, dedup_from_of_IsAscending y ys h.1)

pub dedup_of_IsAscending : (lo : ℕ) (xs : List ℕ) → IsAscending lo xs → dedup xs ≡ xs
unfolding dedup
dedup_of_IsAscending lo [] h = refl
dedup_of_IsAscending lo (x ∷ xs) h = dedup_from_of_IsAscending x xs h.1
