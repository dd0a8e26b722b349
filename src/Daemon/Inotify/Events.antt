-- ===== src/Daemon/Inotify/Events.antt =====
-- What the watch reports, for buffers as the kernel fills them.
use ningshi.Prelude.{
  map, ℕ, zero, suc, ◌+◌, ◌/◌, ◌%◌, ◌≤◌, ◌<◌, ◌≡◌, refl, ap, ◌∙◌, Bool, false, ◌||◌, List, [], ◌∷◌,
  ◌++◌, arith, any, All, length,
}
use ningshi.Daemon.Inotify.{
  drop, take, word, name_of, same_bytes, packages_list, is_packages_list, scan_events, scan_reads,
  drain_inotify,
}

-- An event: the twelve bytes of its header in front of the length, its name, and the zeros behind it.
pub record Event : Type 0 where
  pub head : List ℕ
  pub name : List ℕ
  pub padding : ℕ

abbrev pub to_bytes : ℕ → List ℕ
to_bytes n = n % 256 ∷ n / 256 % 256 ∷ n / 65536 % 256 ∷ n / 16777216 ∷ []

abbrev pub zeros : ℕ → List ℕ
zeros zero = []
zeros (suc n) = 0 ∷ zeros n

-- What stands behind the header.
abbrev pub tail_of : Event → List ℕ
tail_of ev = ev.name ++ zeros ev.padding

-- The bytes of events, one behind the other.
unfoldable pub encode_all : List Event → List ℕ
encode_all [] = []
encode_all (ev ∷ evs) =
    ev.head ++ (to_bytes (length (tail_of ev)) ++ (tail_of ev ++ encode_all evs))

-- The header has its length, the name has no zero byte, and the length fits its field.
pub record IsEvent (ev : Event) : Type 0 where
  pub header : length ev.head ≡ 12
  pub named : All (λ (b : ℕ). 0 < b) ev.name
  pub fits : length (tail_of ev) < 4294967296

length-append : (xs ys : List ℕ) → length (xs ++ ys) ≡ length xs + length ys
length-append [] ys = omega arith
length-append (x ∷ xs) ys = omega (arith, length-append xs ys)

drop-append : (xs ys : List ℕ) (n m : ℕ) → length xs ≡ n → drop (n + m) (xs ++ ys) ≡ drop m ys
unfolding drop
drop-append [] ys zero m h = ap (λ k. drop k ys) (omega arith)
drop-append [] ys (suc n) m h = absurd (omega (arith, h))
drop-append (x ∷ xs) ys zero m h = absurd (omega (arith, h))
drop-append (x ∷ xs) ys (suc n) m h =
    let e : suc n + m ≡ suc (n + m) = omega arith in
    ap (λ k. drop k (x ∷ (xs ++ ys))) e ∙ drop-append xs ys n m (omega (arith, h))

take-append : (xs ys : List ℕ) (n : ℕ) → length xs ≡ n → take n (xs ++ ys) ≡ xs
unfolding take
take-append [] ys zero h = refl
take-append [] ys (suc n) h = absurd (omega (arith, h))
take-append (x ∷ xs) ys zero h = absurd (omega (arith, h))
take-append (x ∷ xs) ys (suc n) h = ap (λ zs. x ∷ zs) (take-append xs ys n (omega (arith, h)))

word-to_bytes : (n : ℕ) (rest : List ℕ) → n < 4294967296 → word (to_bytes n ++ rest) ≡ n
word-to_bytes n rest h = omega arith

name_of-zeros : (n : ℕ) → name_of (zeros n) ≡ []
unfolding name_of
name_of-zeros zero = refl
name_of-zeros (suc n) = refl

name_of-tail :
    (name : List ℕ) (padding : ℕ)
    → All (λ (b : ℕ). 0 < b) name
    → name_of (name ++ zeros padding) ≡ name
unfolding name_of
name_of-tail [] padding h = name_of-zeros padding
name_of-tail (b ∷ bs) padding h = ground (arith, name_of-tail bs padding h.1)

is_packages_list-tail :
    (name : List ℕ) (padding : ℕ)
    → All (λ (b : ℕ). 0 < b) name
    → is_packages_list (name ++ zeros padding) ≡ same_bytes name packages_list
unfolding is_packages_list same_bytes
is_packages_list-tail [] zero h = ground arith
is_packages_list-tail [] (suc n) h = ground (arith, name_of-zeros (suc n))
is_packages_list-tail (b ∷ bs) padding h = ground (arith, name_of-tail (b ∷ bs) padding h)

-- Whether an event is about the package list.
abbrev pub is_wanted : Event → Bool
is_wanted ev = same_bytes ev.name packages_list

scan_events_step :
    (fuel : ℕ) (ev : Event) (rest : List ℕ) (changed : Bool)
    → IsEvent ev
    → scan_events
        (suc fuel)
        (ev.head ++ (to_bytes (length (tail_of ev)) ++ (tail_of ev ++ rest)))
        changed
      ≡ scan_events fuel rest (changed || is_wanted ev)
unfolding scan_events
scan_events_step fuel ev rest changed h =
    let body = tail_of ev ++ rest in
    let len = length (tail_of ev) in
    let buf = ev.head ++ (to_bytes len ++ body) in
    let size : length buf ≡ 16 + (len + length rest) = omega (
      arith,
      length-append ev.head (to_bytes len ++ body),
      length-append (to_bytes len) body,
      length-append (tail_of ev) rest,
      h.header,
    ) in
    let at_word : word (drop 12 buf) ≡ len =
      ap word (drop-append ev.head (to_bytes len ++ body) 12 0 h.header)
      ∙ word-to_bytes len body h.fits in
    let at_body : drop 16 buf ≡ body = drop-append ev.head (to_bytes len ++ body) 12 4 h.header in
    let raw : take len body ≡ tail_of ev = take-append (tail_of ev) rest len refl in
    let behind : drop len body ≡ rest =
      ap (λ k. drop k body) (omega arith) ∙ drop-append (tail_of ev) rest len 0 refl in
    rw (at_word, at_body, raw, behind, is_packages_list-tail ev.name ev.padding h.named)
      (ground (arith, size))

scan_events_end : (fuel : ℕ) (changed : Bool) → scan_events fuel [] changed ≡ changed
unfolding scan_events
scan_events_end zero changed = refl
scan_events_end (suc fuel) changed = ground arith

scan_events-encode_all :
    (fuel : ℕ) (evs : List Event) (changed : Bool)
    → All IsEvent evs
    → length evs ≤ fuel
    → scan_events fuel (encode_all evs) changed ≡ (changed || any is_wanted evs)
unfolding encode_all
scan_events-encode_all zero [] changed h k = scan_events_end 0 changed ∙ ground arith
scan_events-encode_all (suc fuel) [] changed h k = scan_events_end (suc fuel) changed ∙ ground arith
scan_events-encode_all zero (ev ∷ evs) changed h k = absurd (omega (arith, k))
scan_events-encode_all (suc fuel) (ev ∷ evs) changed h k =
    scan_events_step fuel ev (encode_all evs) changed h.0
    ∙ scan_events-encode_all fuel evs (changed || is_wanted ev) h.1 (omega (arith, k))
    ∙ ground arith

-- Each read holds whole events.
abbrev AllEvents : List (List Event) → Type 0
AllEvents reads = All (λ (evs : List Event). All IsEvent evs) reads

length-encode_all : (evs : List Event) → length evs ≤ length (encode_all evs)
unfolding encode_all
length-encode_all [] = omega arith
length-encode_all (ev ∷ evs) =
    let body = tail_of ev ++ encode_all evs in
    let len = length (tail_of ev) in
    omega (
      arith,
      length-append ev.head (to_bytes len ++ body),
      length-append (to_bytes len) body,
      length-append (tail_of ev) (encode_all evs),
      length-encode_all evs,
    )

scan_reads-encode_all :
    (reads : List (List Event)) (changed : Bool)
    → AllEvents reads
    → scan_reads (map encode_all reads) changed ≡ (changed || any (any is_wanted) reads)
unfolding scan_reads
scan_reads-encode_all [] changed h = ground arith
scan_reads-encode_all (evs ∷ reads) changed h = ground (
  arith,
  scan_reads-encode_all reads (scan_events (length (encode_all evs)) (encode_all evs) changed) h.1,
  scan_events-encode_all (length (encode_all evs)) evs changed h.0 (length-encode_all evs),
)

-- For reads that hold whole events as the kernel writes them, the watch reports a change exactly if
-- some event of some read is named packages.list, wherever it stands and however its name is
-- padded.
pub drain_inotify-encode_all :
    (reads : List (List Event))
    → AllEvents reads
    → drain_inotify (map encode_all reads) ≡ any (any is_wanted) reads
unfolding drain_inotify
drain_inotify-encode_all reads h = scan_reads-encode_all reads false h ∙ ground arith
