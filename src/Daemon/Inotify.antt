-- ===== src/Daemon/Inotify.antt =====
-- `drain_inotify` of daemon/src/main.rs, over the bytes that the reads return.
pub mod Events
use ningshi.Prelude.{
  ℕ, zero, suc, ◌+◌, ◌*◌, String, Bool, true, false, ◌||◌, List, [], ◌∷◌, Option, none, some, ltb,
  eqb, length, if◌then◌else◌,
}
use ningshi.Gate.Events.{from_bytes}

unfoldable pub drop : ℕ → List ℕ → List ℕ
drop zero xs = xs
drop (suc n) [] = []
drop (suc n) (x ∷ xs) = drop n xs

unfoldable pub take : ℕ → List ℕ → List ℕ
take zero xs = []
take (suc n) [] = []
take (suc n) (x ∷ xs) = x ∷ take n xs

-- The 32-bit number that the bytes begin with.
abbrev pub word : List ℕ → ℕ
word (a ∷ b ∷ c ∷ d ∷ rest) = from_bytes a b c d
word _ = 0

-- The bytes in front of the first zero.
unfoldable pub name_of : List ℕ → List ℕ
name_of [] = []
name_of (b ∷ bs) = let rest = name_of bs in if eqb b 0 then [] else b ∷ rest

unfoldable pub same_bytes : List ℕ → List ℕ → Bool
same_bytes [] [] = true
same_bytes [] (b ∷ bs) = false
same_bytes (a ∷ as') [] = false
same_bytes (a ∷ as') (b ∷ bs) = if eqb a b then same_bytes as' bs else false

-- b"packages.list"
abbrev pub packages_list : List ℕ
packages_list = 112 ∷ 97 ∷ 99 ∷ 107 ∷ 97 ∷ 103 ∷ 101 ∷ 115 ∷ 46 ∷ 108 ∷ 105 ∷ 115 ∷ 116 ∷ []

-- The test on the name behind the header.
unfoldable pub is_packages_list : List ℕ → Bool
unfolding name_of same_bytes
is_packages_list raw = if ltb 0 (length raw) then same_bytes (name_of raw) packages_list else false

-- The events of one read; `buf` is what is left behind `off`. Each event takes 16 bytes or more.
unfoldable pub scan_events : ℕ → List ℕ → Bool → Bool
unfolding drop take is_packages_list
scan_events zero buf changed = changed
scan_events (suc fuel) buf changed =
    let len = word (drop 12 buf) in
    let raw = take len (drop 16 buf) in
    let rest = scan_events fuel (drop len (drop 16 buf)) (changed || is_packages_list raw) in
    if ltb (length buf) 16 then changed else (if ltb (length buf) (16 + len) then changed else rest)

-- The reads that return something.
unfoldable pub scan_reads : List (List ℕ) → Bool → Bool
unfolding scan_events
scan_reads [] changed = changed
scan_reads (buf ∷ reads) changed = scan_reads reads (scan_events (length buf) buf changed)

unfoldable pub drain_inotify : List (List ℕ) → Bool
unfolding scan_reads
drain_inotify reads = scan_reads reads false
