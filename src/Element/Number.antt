-- ===== src/Element/Number.antt =====
-- The two conversions of the standard library that `Element::from_json` uses: `std::to_string`
-- of an `int64_t` and `std::stoi`, in base 10. `what()` is that of libstdc++.
pub mod Digits
pub mod Prefix
use scriptor.Prelude.{
  ℕ, zero, suc, ◌+◌, ◌-◌, ◌*◌, ◌/◌, ◌%◌, Bool, true, false, ◌&&◌, ◌||◌, List, [], ◌∷◌, ◌++◌, ℤ, pos,
  negsuc, ltb, leb, ◌==◌, if◌then◌else◌, Bytes, codes, Result, ok, err,
}

abbrev pub is_digit : ℕ → Bool
is_digit c = leb b'0' c && leb c b'9'

-- The digits of `n`, the least significant last; `n + 1` rounds are enough.
decimal_rounds : ℕ → ℕ → Bytes
decimal_rounds zero n = []
decimal_rounds (suc f) n =
    let shorter = decimal_rounds f (n / 10) ++ ((b'0' + n % 10) ∷ []) in
    if ltb n 10 then (b'0' + n) ∷ [] else shorter

unfoldable pub decimal : ℕ → Bytes
unfolding decimal_rounds
decimal n = decimal_rounds (suc n) n

-- `std::to_string(num)`
unfoldable pub to_string : ℤ → Bytes
to_string (pos n) = decimal n
to_string (negsuc n) = b'-' ∷ decimal (suc n)

-- The longest prefix of digits, on top of the value read so far.
pub read_digits : ℕ → Bytes → ℕ
read_digits acc [] = acc
read_digits acc (c ∷ cs) = if is_digit c then read_digits (acc * 10 + (c - b'0')) cs else acc

abbrev pub is_space : ℕ → Bool
is_space c = c == b' ' || leb 9 c && leb c 13

skip_space : Bytes → Bytes
skip_space [] = []
skip_space (c ∷ cs) = if is_space c then skip_space cs else c ∷ cs

abbrev pub int_max : ℕ
int_max = 2147483647

pub in_range : Bool → ℕ → Result ℤ
in_range false n = if leb n int_max then ok (pos n) else err (codes "stoi")
in_range true zero = ok (pos 0)
in_range true (suc n) = if leb n int_max then ok (negsuc n) else err (codes "stoi")

-- At least one digit after the sign, and a value that an `int` holds.
read_number : Bool → Bytes → Result ℤ
read_number minus [] = err (codes "stoi")
read_number minus (c ∷ cs) =
    if is_digit c then in_range minus (read_digits 0 (c ∷ cs)) else err (codes "stoi")

read_signed : Bytes → Result ℤ
read_signed [] = read_number false []
read_signed (c ∷ cs) =
    if c == b'-'
    then read_number true cs
    else if c == b'+'
    then read_number false cs
    else read_number false (c ∷ cs)

-- `std::stoi(text)`
unfoldable pub stoi : Bytes → Result ℤ
unfolding skip_space read_signed read_number in_range read_digits
stoi text = read_signed (skip_space text)
