-- ===== src/PackageList/Listed.antt =====
-- Which keys the resolved map has.
use ningshi.Prelude.{
  ℕ, ◌+◌, ◌*◌, ◌/◌, ◌≡◌, refl, ap, ◌∙◌, inl, inr, String, Bool, false, ◌||◌, List, [], ◌∷◌, map,
  Option, none, some, arith, leb, any, u32, lines, split_whitespace, parse_u32, if◌then◌else◌,
  nat_key, string_key, ◌==◌, Bool-cases,
}
use ningshi.Prelude.Map.{Map, insert, contains_key, get-insert, get-empty}
use ningshi.PackageList.{
  key_of, keys_for, users, insert_all, add_package, add_line, add_lines, resolve_uids,
}

-- The package's key under the number's user, or under one of the users.
abbrev fits : List ℕ → String → String → Option ℕ → Bool
fits users key pkg none = false
fits users key pkg (some raw) =
    if leb 100000 raw
    then key_of (raw / 100000) pkg == key
    else any (λ (user : ℕ). key_of user pkg == key) users

-- The words of a line begin with a package and a number that give the key.
abbrev pub is_listed : List ℕ → String → List String → Bool
is_listed users key [] = false
is_listed users key (pkg ∷ []) = false
is_listed users key (pkg ∷ raw ∷ rest) = fits users key pkg (parse_u32 raw)

module _ (users : List ℕ) (key : String) where
  contains_key-insert :
      (m : Map String ℕ) (k : String) (v : ℕ)
      → contains_key (insert m k v) key ≡ (k == key || contains_key m key)
  unfolding contains_key
  contains_key-insert m k v = elim (Bool-cases (k == key)) [
    | inl same ↦ rw (get-insert, same) refl
    | inr other ↦ rw (get-insert, other) refl
  ]

  contains_key-insert_all :
      (keys : List (String × ℕ)) (m : Map String ℕ)
      → contains_key (insert_all m keys) key
        ≡ (any (λ (kv : String × ℕ). kv.0 == key) keys || contains_key m key)
  unfolding insert_all
  contains_key-insert_all [] m = refl
  contains_key-insert_all ((k, v) ∷ keys) m =
      ground (arith, contains_key-insert_all keys (insert m k v), contains_key-insert m k v)

  any-map :
      (raw : ℕ) (pkg : String) (us : List ℕ)
      → any
          (λ (kv : String × ℕ). kv.0 == key)
          (map (λ (user : ℕ). (key_of user pkg, u32 (user * 100000 + raw))) us)
        ≡ any (λ (user : ℕ). key_of user pkg == key) us
  any-map raw pkg [] = refl
  any-map raw pkg (u ∷ us) = ap (λ x. key_of u pkg == key || x) (any-map raw pkg us)

  any-keys_for :
      (raw : ℕ) (pkg : String)
      → any (λ (kv : String × ℕ). kv.0 == key) (keys_for raw pkg users)
        ≡ fits users key pkg (some raw)
  unfolding keys_for
  any-keys_for raw pkg = elim (Bool-cases (leb 100000 raw)) [
    | inl full ↦ rw full (ground arith)
    | inr app ↦ rw app (any-map raw pkg users)
  ]

  contains_key-add_package :
      (m : Map String ℕ) (pkg : String) (raw : Option ℕ)
      → contains_key (add_package users m pkg raw) key
        ≡ (fits users key pkg raw || contains_key m key)
  unfolding add_package
  contains_key-add_package m pkg none = refl
  contains_key-add_package m pkg (some raw) = rw (contains_key-insert_all, any-keys_for) refl

  contains_key-add_line :
      (m : Map String ℕ) (words : List String)
      → contains_key (add_line users m words) key
        ≡ (is_listed users key words || contains_key m key)
  unfolding add_line
  contains_key-add_line m [] = refl
  contains_key-add_line m (pkg ∷ []) = refl
  contains_key-add_line m (pkg ∷ raw ∷ rest) = contains_key-add_package m pkg (parse_u32 raw)

  contains_key-add_lines :
      (rest : List String) (m : Map String ℕ)
      → contains_key (add_lines users m rest) key ≡ (
          any (λ (line : String). is_listed users key (split_whitespace line)) rest
          || contains_key m key)
  unfolding add_lines
  contains_key-add_lines [] m = refl
  contains_key-add_lines (line ∷ rest) m = ground (
    arith,
    contains_key-add_lines rest (add_line users m (split_whitespace line)),
    contains_key-add_line m (split_whitespace line),
  )

or_contains_key : (b : Bool) (key : String) → (b || contains_key {V = ℕ} [] key) ≡ b
unfolding contains_key
or_contains_key b key = ground (arith, get-empty {V = ℕ} key)

-- A key is in the resolved map exactly if a line of the package list gives it: the line's words
-- begin with a package and a `u32`, and the key is the package under the number's own user if the
-- number is at least 100000, and else under one of the users of the device.
pub contains_key-resolve_uids :
    (names : Option (List String)) (content : String) (key : String)
    → (m : Map String ℕ) × (resolve_uids names (some content) ≡ some m)
      × (contains_key m key
          ≡ any
              (λ (line : String). is_listed (users names) key (split_whitespace line))
              (lines content))
unfolding resolve_uids
contains_key-resolve_uids names content key = (
  add_lines (users names) [] (lines content),
  refl,
  contains_key-add_lines (users names) key (lines content) [] ∙ or_contains_key _ key,
)
