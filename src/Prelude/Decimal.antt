-- ===== src/Prelude/Decimal.antt =====
-- The decimal print of `u32`, and texts put behind one another.
use Prim.Native.Nat.{ℕ, zero, suc, ◌+◌, ◌*◌, ◌/◌, ◌%◌, ◌<◌}
use Prim.Native.Char.{Char, char, code}
use Prim.Native.String.{String}
use mathlib.Core.Path.{◌≡◌, refl}
use mathlib.Core.Bool.{Bool, true, false}
use mathlib.Core.Option.{some}
use native.Mathlib.Omega.{arith}
use ningshi.Prelude.Tests.{ltb, leb, if◌then◌else◌}
use ningshi.Prelude.Text.{
  has_char, split_once, digits_from, parse_digits, strip_plus, parse_u32, cons_fst,
}

unfoldable pub append : String → String → String
append String.[] t = t
append (String.◌∷◌ c s) t = String.◌∷◌ c (append s t)

unfoldable pub digit : ℕ → Char
digit zero = char 48 tt
digit (suc zero) = char 49 tt
digit (suc (suc zero)) = char 50 tt
digit (suc (suc (suc zero))) = char 51 tt
digit (suc (suc (suc (suc zero)))) = char 52 tt
digit (suc (suc (suc (suc (suc zero))))) = char 53 tt
digit (suc (suc (suc (suc (suc (suc zero)))))) = char 54 tt
digit (suc (suc (suc (suc (suc (suc (suc zero))))))) = char 55 tt
digit (suc (suc (suc (suc (suc (suc (suc (suc zero)))))))) = char 56 tt
digit (suc (suc (suc (suc (suc (suc (suc (suc (suc n))))))))) = char 57 tt

-- At most so many digits of a number, in front of a text.
unfoldable pub digits_of : ℕ → ℕ → String → String
unfolding digit
digits_of zero n s = s
digits_of (suc fuel) n s =
    let rest = digits_of fuel (n / 10) (String.◌∷◌ (digit (n % 10)) s) in
    if ltb n 10 then String.◌∷◌ (digit n) s else rest

-- `Display` of a `u32`, which has at most ten digits.
unfoldable pub decimal : ℕ → String
decimal n = digits_of 10 n String.[]

code-digit : (n : ℕ) → n < 10 → code (digit n) ≡ 48 + n
unfolding digit
code-digit zero h = refl
code-digit (suc zero) h = refl
code-digit (suc (suc zero)) h = refl
code-digit (suc (suc (suc zero))) h = refl
code-digit (suc (suc (suc (suc zero)))) h = refl
code-digit (suc (suc (suc (suc (suc zero))))) h = refl
code-digit (suc (suc (suc (suc (suc (suc zero)))))) h = refl
code-digit (suc (suc (suc (suc (suc (suc (suc zero))))))) h = refl
code-digit (suc (suc (suc (suc (suc (suc (suc (suc zero)))))))) h = refl
code-digit (suc (suc (suc (suc (suc (suc (suc (suc (suc zero))))))))) h = refl
code-digit (suc (suc (suc (suc (suc (suc (suc (suc (suc (suc n)))))))))) h = absurd (omega arith)

has_char-digits_of :
    (sep fuel n : ℕ) (s : String)
    → sep ≡ 58
    → has_char sep s ≡ false
    → has_char sep (digits_of fuel n s) ≡ false
unfolding digits_of has_char
has_char-digits_of sep zero n s colon h = h
has_char-digits_of sep (suc fuel) n s colon h = ground (
  arith,
  has_char-digits_of sep fuel (n / 10) (String.◌∷◌ (digit (n % 10)) s) colon,
  code-digit n,
  code-digit (n % 10),
)

split_once-append :
    (sep : ℕ) (s : String) (c : Char) (t : String)
    → code c ≡ sep
    → has_char sep s ≡ false
    → split_once sep (append s (String.◌∷◌ c t)) ≡ some (s, t)
unfolding split_once has_char append cons_fst
split_once-append sep String.[] c t is_sep h = ground arith
split_once-append sep (String.◌∷◌ d s) c t is_sep h =
    ground (arith, split_once-append sep s c t is_sep)

has_char-decimal : (n : ℕ) → has_char 58 (decimal n) ≡ false
unfolding decimal has_char
has_char-decimal n = has_char-digits_of 58 10 n String.[] refl refl

-- A number, a colon and a text are told apart at the colon.
pub split_once-decimal :
    (n : ℕ) (c : Char) (t : String)
    → code c ≡ 58
    → split_once 58 (append (decimal n) (String.◌∷◌ c t)) ≡ some (decimal n, t)
split_once-decimal n c t colon = split_once-append 58 (decimal n) c t colon (has_char-decimal n)

-- The powers of ten.
abbrev tens : ℕ → ℕ
tens zero = 1
tens (suc k) = 10 * tens k

digits_from-digits_of :
    (fuel n : ℕ) (s : String) → n < tens fuel → digits_from 0 (digits_of fuel n s) ≡ digits_from n s
unfolding digits_of digits_from
digits_from-digits_of zero n s small = ground arith
digits_from-digits_of (suc fuel) n s small = ground (
  arith,
  digits_from-digits_of fuel (n / 10) (String.◌∷◌ (digit (n % 10)) s),
  code-digit n,
  code-digit (n % 10),
)

-- A text that begins with a digit.
abbrev starts : String → Bool
starts String.[] = false
starts (String.◌∷◌ c s) = leb 48 (code c)

starts-digits_of : (fuel n : ℕ) (s : String) → starts s ≡ true → starts (digits_of fuel n s) ≡ true
unfolding digits_of
starts-digits_of zero n s h = h
starts-digits_of (suc fuel) n s h = ground (
  arith,
  starts-digits_of fuel (n / 10) (String.◌∷◌ (digit (n % 10)) s),
  code-digit n,
  code-digit (n % 10),
)

starts-digits_of-suc : (fuel n : ℕ) → starts (digits_of (suc fuel) n String.[]) ≡ true
unfolding digits_of
starts-digits_of-suc fuel n = ground (
  arith,
  starts-digits_of fuel (n / 10) (String.◌∷◌ (digit (n % 10)) String.[]),
  code-digit n,
  code-digit (n % 10),
)

parse_u32-starts :
    (s : String) (n : ℕ)
    → starts s ≡ true
    → digits_from 0 s ≡ some n
    → n < 4294967296
    → parse_u32 s ≡ some n
unfolding parse_u32 parse_digits strip_plus
parse_u32-starts String.[] n h value small = cc h
parse_u32-starts (String.◌∷◌ c s) n h value small = ground (arith, value)

-- Reading a printed `u32` gives it back.
pub parse_u32-decimal : (n : ℕ) → n < 4294967296 → parse_u32 (decimal n) ≡ some n
unfolding decimal digits_from
parse_u32-decimal n small =
    parse_u32-starts (digits_of 10 n String.[]) n (starts-digits_of-suc 9 n)
      (digits_from-digits_of 10 n String.[] (omega arith)) small
