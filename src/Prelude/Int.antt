-- ===== src/Prelude/Int.antt =====
-- The signed 32-bit integers that the timezone offset is computed in.
use Prim.Native.Nat.{ℕ, suc, ◌-◌, ◌*◌, ◌%◌}
use Prim.Native.Char.{code}
use Prim.Native.String.{String}
use mathlib.Core.Bool.{Bool, true, false}
use mathlib.Core.Option.{Option, none, some}
use ningshi.Prelude.Tests.{ltb, leb, eqb, if◌then◌else◌}
use ningshi.Prelude.Text.{parse_digits}

-- `negsuc n` is -(n + 1).
pub data ℤ : Type 0 where
  pos : ℕ → ℤ
  negsuc : ℕ → ℤ

-- The magnitude of an integer.
abbrev pub nat_abs : ℤ → ℕ
nat_abs (pos n) = n
nat_abs (negsuc n) = suc n

-- -n
abbrev pub neg_ℕ : ℕ → ℤ
neg_ℕ n = if ltb 0 n then negsuc (n - 1) else pos 0

-- The i32 with the given bit pattern.
abbrev pub of_bits : ℕ → ℤ
of_bits b = if ltb b 2147483648 then pos b else negsuc (4294967295 - b)

-- The bit pattern of an integer, modulo 2 ^ 32.
abbrev pub to_bits : ℤ → ℕ
to_bits (pos n) = n % 4294967296
to_bits (negsuc n) = 4294967295 - n % 4294967296

-- `a * k` for an i32 `a` and a constant `k`, wrapping around.
unfoldable pub wrapping_mul : ℤ → ℕ → ℤ
wrapping_mul a k = of_bits (to_bits a * k % 4294967296)

signed : Bool → Option ℕ → Option ℤ
signed negative none = none
signed true (some n) = if leb n 2147483648 then some (neg_ℕ n) else none
signed false (some n) = if ltb n 2147483648 then some (pos n) else none

-- str::parse::<i32>
unfoldable pub parse_i32 : String → Option ℤ
unfolding signed parse_digits
parse_i32 String.[] = none
parse_i32 (String.◌∷◌ c s) =
    if eqb (code c) b'-'
    then signed true (parse_digits s)
    else if eqb (code c) b'+'
    then signed false (parse_digits s)
    else signed false (parse_digits (String.◌∷◌ c s))
