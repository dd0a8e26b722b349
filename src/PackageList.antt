-- ===== src/PackageList.antt =====
-- daemon/src/pm.rs: from the package list to the map from "user:package" to uid. The names in the
-- directory of users and the text of the package list are arguments.
pub mod Keys
pub mod Listed
use Prim.Native.Char.{char}
use ningshi.Prelude.{
  ℕ, ◌+◌, ◌*◌, ◌/◌, String, List, [], ◌∷◌, map, Option, none, some, leb, contains, u32, lines,
  split_whitespace, parse_u32, if◌then◌else◌, nat_key, string_key, ◌++◌,
}
use ningshi.Prelude.Map.{Map, insert}
use ningshi.Prelude.Sort.{sort}
use ningshi.Prelude.Decimal.{append, decimal}

-- `format!("{user}:{pkg}")`
unfoldable pub key_of : ℕ → String → String
key_of user pkg = append (decimal user) (String.◌∷◌ (char 58 tt) pkg)

unfoldable pub keys_for : ℕ → String → List ℕ → List (String × ℕ)
unfolding key_of
keys_for raw pkg users =
    if leb 100000 raw
    then (key_of (raw / 100000) pkg, raw) ∷ []
    else map (λ (user : ℕ). (key_of user pkg, u32 (user * 100000 + raw))) users

abbrev add_user : List ℕ → Option ℕ → List ℕ
add_user set none = set
add_user set (some user) = if contains set user then set else set ++ user ∷ []

unfoldable pub collect_users : List ℕ → List String → List ℕ
collect_users set [] = set
collect_users set (name ∷ names) = collect_users (add_user set (parse_u32 name)) names

-- `none`: the directory cannot be read.
unfoldable pub users : Option (List String) → List ℕ
unfolding collect_users
users none = sort leb (0 ∷ [])
users (some names) = sort leb (collect_users (0 ∷ []) names)

unfoldable pub insert_all : Map String ℕ → List (String × ℕ) → Map String ℕ
insert_all m [] = m
insert_all m ((key, uid) ∷ keys) = insert_all (insert m key uid) keys

-- A package with the column behind it, if that is a number.
unfoldable pub add_package : List ℕ → Map String ℕ → String → Option ℕ → Map String ℕ
unfolding keys_for insert_all
add_package users m pkg none = m
add_package users m pkg (some raw) = insert_all m (keys_for raw pkg users)

-- One line, as its words.
unfoldable pub add_line : List ℕ → Map String ℕ → List String → Map String ℕ
unfolding add_package
add_line users m [] = m
add_line users m (pkg ∷ []) = m
add_line users m (pkg ∷ raw ∷ rest) = add_package users m pkg (parse_u32 raw)

unfoldable pub add_lines : List ℕ → Map String ℕ → List String → Map String ℕ
unfolding add_line
add_lines users m [] = m
add_lines users m (line ∷ rest) = add_lines users (add_line users m (split_whitespace line)) rest

unfoldable pub resolve_uids : Option (List String) → Option String → Option (Map String ℕ)
unfolding add_lines users
resolve_uids names none = none
resolve_uids names (some content) = some (add_lines (users names) [] (lines content))
