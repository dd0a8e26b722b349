-- ===== src/PackageList/Keys.antt =====
-- What the resolved map says of each key.
use Prim.Native.Char.{char}
use mathlib.Core.Path.{subst}
use ningshi.Prelude.{
  ℕ, ◌+◌, ◌*◌, ◌/◌, ◌<◌, ◌≡◌, refl, ap, ◌∙◌, inl, inr, String, false, List, [], ◌∷◌, map, Option,
  none, some, arith, leb, u32, lines, split_whitespace, split_once, parse_u32, is_empty, nat_key,
  string_key, ◌==◌, All, Bool-cases, Option-cases, lead, flush, parse_digits, strip_plus,
}
use ningshi.Prelude.Map.{Map, get, insert, get-insert, get-empty}
use ningshi.Prelude.Decimal.{decimal, split_once-decimal, parse_u32-decimal}
use ningshi.PackageList.{
  key_of, keys_for, users, insert_all, add_package, add_line, add_lines, resolve_uids,
}

-- The key is the user of the uid, printed, and the name of a package.
abbrev pub IsKeyed : String → ℕ → Type 0
IsKeyed key uid =
    (user : String) × (pkg : String) × (split_once 58 key ≡ some (user, pkg))
    × (parse_u32 user ≡ some (uid / 100000))
    × (is_empty pkg ≡ false)

abbrev IsKeyedMap : Map String ℕ → Type 0
IsKeyedMap m = (key : String) (uid : ℕ) → get m key ≡ some uid → IsKeyed key uid

key_of-IsKeyed :
    (user : ℕ) (pkg : String) (uid : ℕ)
    → user ≡ uid / 100000
    → uid < 4294967296
    → is_empty pkg ≡ false
    → IsKeyed (key_of user pkg) uid
unfolding key_of
key_of-IsKeyed user pkg uid owner small named = (
  decimal user,
  pkg,
  split_once-decimal user (char 58 tt) pkg refl,
  parse_u32-decimal user (omega (arith, owner)) ∙ ap some owner,
  named,
)

insert-IsKeyedMap :
    (m : Map String ℕ) (k : String) (v : ℕ) → IsKeyedMap m → IsKeyed k v → IsKeyedMap (insert m k v)
insert-IsKeyedMap m k v keyed fresh key uid at = elim (Bool-cases (k == key)) [
  | inl same ↦
      subst (λ x. IsKeyed key x) (ground (arith, rw (get-insert, same) at at))
        (subst (λ x. IsKeyed x v) ((string_key.same_iff k key).0 same) fresh)
  | inr other ↦ keyed key uid (rw (get-insert, other) at at)
]

abbrev AllKeyed : List (String × ℕ) → Type 0
AllKeyed keys = All (λ (kv : String × ℕ). IsKeyed kv.0 kv.1) keys

insert_all-IsKeyedMap :
    (keys : List (String × ℕ)) (m : Map String ℕ)
    → IsKeyedMap m
    → AllKeyed keys
    → IsKeyedMap (insert_all m keys)
unfolding insert_all
insert_all-IsKeyedMap [] m keyed fresh = keyed
insert_all-IsKeyedMap ((k, v) ∷ keys) m keyed fresh =
    insert_all-IsKeyedMap keys (insert m k v) (insert-IsKeyedMap m k v keyed fresh.0) fresh.1

-- No user number is so large that a uid of that user leaves the 32 bits.
abbrev pub IsSmall : List ℕ → Type 0
IsSmall users = All (λ (user : ℕ). user < 42949) users

map-AllKeyed :
    (users : List ℕ) (raw : ℕ) (pkg : String)
    → IsSmall users
    → raw < 100000
    → is_empty pkg ≡ false
    → AllKeyed (map (λ (user : ℕ). (key_of user pkg, u32 (user * 100000 + raw))) users)
map-AllKeyed [] raw pkg small app named = tt
map-AllKeyed (user ∷ users) raw pkg small app named = (
  key_of-IsKeyed user pkg (u32 (user * 100000 + raw)) (omega (arith, small.0)) (omega arith) named,
  map-AllKeyed users raw pkg small.1 app named,
)

keys_for-AllKeyed :
    (users : List ℕ) (raw : ℕ) (pkg : String)
    → IsSmall users
    → raw < 4294967296
    → is_empty pkg ≡ false
    → AllKeyed (keys_for raw pkg users)
unfolding keys_for
keys_for-AllKeyed users raw pkg small bits named = elim (Bool-cases (leb 100000 raw)) [
  | inl full ↦ rw full (key_of-IsKeyed (raw / 100000) pkg raw refl bits named, tt)
  | inr app ↦ rw app (map-AllKeyed users raw pkg small (ground arith) named)
]

parse_u32_bound : (s : String) (n : ℕ) → parse_u32 s ≡ some n → n < 4294967296
unfolding parse_u32
parse_u32_bound s n h = elim (Option-cases (parse_digits (strip_plus s))) [
  | inl bad ↦ cc (bad, h)
  | inr (k, good) ↦ ground (arith, good, h)
]

-- Every word has a character.
abbrev AllNamed : List String → Type 0
AllNamed words = All (λ (w : String). is_empty w ≡ false) words

flush-AllNamed : (w : String) (ws : List String) → AllNamed ws → AllNamed (flush w ws)
unfolding flush
flush-AllNamed w ws h = ground arith

lead-AllNamed : (s : String) → AllNamed (lead s).1
unfolding lead
lead-AllNamed String.[] = tt
lead-AllNamed (String.◌∷◌ c s) =
    ground (arith, flush-AllNamed (lead s).0 (lead s).1, lead-AllNamed s)

split_whitespace-AllNamed : (s : String) → AllNamed (split_whitespace s)
unfolding split_whitespace
split_whitespace-AllNamed s = flush-AllNamed (lead s).0 (lead s).1 (lead-AllNamed s)

module _ (users : List ℕ) (small : IsSmall users) where
  add_line-IsKeyedMap :
      (words : List String) (m : Map String ℕ)
      → AllNamed words
      → IsKeyedMap m
      → IsKeyedMap (add_line users m words)
  unfolding add_line add_package
  add_line-IsKeyedMap [] m named keyed = keyed
  add_line-IsKeyedMap (pkg ∷ []) m named keyed = keyed
  add_line-IsKeyedMap (pkg ∷ raw ∷ rest) m named keyed = elim (Option-cases (parse_u32 raw)) [
    | inl bad ↦ rw bad keyed
    | inr (n, good) ↦ rw good (
        insert_all-IsKeyedMap (keys_for n pkg users) m keyed
          (keys_for-AllKeyed users n pkg small (parse_u32_bound raw n good) named.0))
  ]

  add_lines-IsKeyedMap :
      (rest : List String) (m : Map String ℕ) → IsKeyedMap m → IsKeyedMap (add_lines users m rest)
  unfolding add_lines
  add_lines-IsKeyedMap [] m keyed = keyed
  add_lines-IsKeyedMap (line ∷ rest) m keyed =
      add_lines-IsKeyedMap rest (add_line users m (split_whitespace line))
        (add_line-IsKeyedMap (split_whitespace line) m (split_whitespace-AllNamed line) keyed)

-- Whatever the package list holds: a key of the resolved map is the printed number of its uid's
-- user, a colon and a name that is not empty, provided that all user numbers are below 42949.
pub resolve_uids-IsKeyed :
    (names : Option (List String)) (content : Option String) (m : Map String ℕ) (key : String)
    (uid : ℕ)
    → IsSmall (users names)
    → resolve_uids names content ≡ some m
    → get m key ≡ some uid
    → IsKeyed key uid
unfolding resolve_uids
resolve_uids-IsKeyed names none m key uid small done at = cc done
resolve_uids-IsKeyed names (some content) m key uid small done at =
    add_lines-IsKeyedMap (users names) small (lines content) []
      (λ k u h. cc (get-empty {V = ℕ} k, h)) key uid (cc (done, at))
