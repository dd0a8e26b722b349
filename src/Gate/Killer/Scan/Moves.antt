-- ===== src/Gate/Killer/Scan/Moves.antt =====
-- `swap_remove` in the middle of a list: what stands behind the index moves round by one.
use mathlib.Core.List.{Perm, perm_append_comm}
use mathlib.Core.List.Perm
use mathlib.Core.Path.{subst}
use ningshi.Prelude.{
  ℕ, zero, suc, some, ◌+◌, ◌≡◌, refl, ap, Bool, List, [], ◌∷◌, ◌++◌, arith, length, filter,
}
use ningshi.Gate.Killer.Scan.{get_elem?, last, init, swap_remove}

pub init-last {ℓ} : {A : Type ℓ} (x : A) (xs : List A) → init x xs ++ last x xs ∷ [] ≡ x ∷ xs
init-last x [] = refl
init-last x (y ∷ ys) = ap (λ zs. x ∷ zs) (init-last y ys)

pub filter-append {ℓ} :
    {A : Type ℓ} (q : A → Bool) (xs ys : List A) → filter q (xs ++ ys) ≡ filter q xs ++ filter q ys
filter-append q [] ys = refl
filter-append q (x ∷ xs) ys = ground (arith, filter-append q xs ys)

pub filter-cons {ℓ} :
    {A : Type ℓ} (q : A → Bool) (x : A) (xs : List A)
    → filter q (x ∷ xs) ≡ filter q (x ∷ []) ++ filter q xs
filter-cons q x xs = ground arith

-- What `swap_remove` makes of the entries behind the index.
abbrev pub rotated {ℓ} : {A : Type ℓ} → List A → List A
rotated [] = []
rotated (x ∷ xs) = last x xs ∷ init x xs

length-init {ℓ} : {A : Type ℓ} (x : A) (xs : List A) → length (init x xs) ≡ length xs
length-init x [] = refl
length-init x (y ∷ ys) = omega (arith, length-init y ys)

pub length-rotated {ℓ} : {A : Type ℓ} (xs : List A) → length (rotated xs) ≡ length xs
length-rotated [] = refl
length-rotated (x ∷ xs) = omega (arith, length-init x xs)

pub filter-rotated {ℓ} :
    {A : Type ℓ} (q : A → Bool) (xs : List A) → Perm (filter q (rotated xs)) (filter q xs)
filter-rotated q [] = Perm.refl []
filter-rotated q (x ∷ xs) =
    subst (λ ys. Perm (filter q (last x xs ∷ init x xs)) (filter q ys)) (init-last x xs)
      (rw (filter-append q (init x xs) (last x xs ∷ []), filter-cons)
        (perm_append_comm (filter q (last x xs ∷ [])) (filter q (init x xs))))

pub length-snoc {ℓ} : {A : Type ℓ} (xs : List A) (x : A) → length (xs ++ x ∷ []) ≡ length xs + 1
length-snoc [] x = omega arith
length-snoc (y ∷ xs) x = omega (arith, length-snoc xs x)

pub get_elem?-append {ℓ} :
    {A : Type ℓ} (done rest : List A) → get_elem? (done ++ rest) (length done) ≡ get_elem? rest 0
get_elem?-append [] rest = refl
get_elem?-append (x ∷ done) rest = get_elem?-append done rest

pub swap_remove-append {ℓ} :
    {A : Type ℓ} (done : List A) (x : A) (rest : List A)
    → swap_remove (done ++ x ∷ rest) (length done) ≡ done ++ rotated rest
unfolding swap_remove
swap_remove-append [] x [] = refl
swap_remove-append [] x (y ∷ rest) = refl
swap_remove-append (d ∷ []) x rest = ap (λ zs. d ∷ zs) (swap_remove-append [] x rest)
swap_remove-append (d ∷ e ∷ done) x rest = ap (λ zs. d ∷ zs) (swap_remove-append (e ∷ done) x rest)

-- What stands on both sides of an index.
pub get_elem?-split {ℓ} :
    {A : Type ℓ} (xs : List A) (i : ℕ) (a : A)
    → get_elem? xs i ≡ some a
    → (done : List A) × (rest : List A) × (xs ≡ done ++ a ∷ rest) × (i ≡ length done)
get_elem?-split [] i a h = cc
get_elem?-split (x ∷ xs) zero a h = let same : x ≡ a = cc in ([], xs, ap (λ q. q ∷ xs) same, refl)
get_elem?-split (x ∷ xs) (suc i) a h =
    let (done, rest, e, at) = get_elem?-split xs i a h in
    (x ∷ done, rest, ap (λ ys. x ∷ ys) e, ap suc at)
