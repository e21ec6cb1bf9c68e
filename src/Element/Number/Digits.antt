-- ===== src/Element/Number/Digits.antt =====
-- `std::stoi` reads back what `std::to_string` prints.
use scriptor.Prelude.{
  Bool, ℕ, zero, suc, ◌+◌, ◌-◌, ◌*◌, ◌/◌, ◌%◌, ◌≤◌, ◌<◌, ◌≡◌, refl, ap, ◌∙◌, true, false, [], ◌∷◌,
  ◌++◌, ℤ, pos, negsuc, ltb, inl, inr, Bool-cases, Bytes, All, ok, arith,
}
use scriptor.Element.Number.{
  is_digit, decimal_rounds, decimal, to_string, read_digits, int_max, skip_space, read_signed,
  read_number, in_range, stoi,
}

abbrev pub AreDigits : Bytes → Type 0
AreDigits = All (λ c. is_digit c ≡ true)

read_digits-concat :
    (acc : ℕ) (xs : Bytes) (d : ℕ)
    → AreDigits xs
    → is_digit d ≡ true
    → read_digits acc (xs ++ (d ∷ [])) ≡ read_digits acc xs * 10 + (d - b'0')
unfolding read_digits
read_digits-concat acc [] d hx hd = ground arith
read_digits-concat acc (x ∷ xs) d hx hd =
    ground (arith, read_digits-concat (acc * 10 + (x - b'0')) xs d hx.1 hd)

AreDigits-concat :
    (xs : Bytes) (d : ℕ) → AreDigits xs → is_digit d ≡ true → AreDigits (xs ++ (d ∷ []))
AreDigits-concat [] d hx hd = (hd, tt)
AreDigits-concat (x ∷ xs) d hx hd = (hx.0, AreDigits-concat xs d hx.1 hd)

decimal_rounds-AreDigits : (f n : ℕ) → AreDigits (decimal_rounds f n)
unfolding decimal_rounds
decimal_rounds-AreDigits zero n = tt
decimal_rounds-AreDigits (suc f) n = elim (Bool-cases (ltb n 10)) [
  | inl small ↦ rw small (ground arith, tt)
  | inr large ↦ rw large (AreDigits-concat _ _ (decimal_rounds-AreDigits f (n / 10)) (ground arith))
]

read_digits-decimal_rounds : (f n : ℕ) → n < f → read_digits 0 (decimal_rounds f n) ≡ n
unfolding decimal_rounds
read_digits-decimal_rounds zero n h = elim h [ ]
read_digits-decimal_rounds (suc f) n h = elim (Bool-cases (ltb n 10)) [
  | inl small ↦ rw small (unfold read_digits in ground arith)
  | inr large ↦ rw large (
      omega (
        arith,
        read_digits-concat 0 (decimal_rounds f (n / 10)) (b'0' + n % 10)
            (decimal_rounds-AreDigits f (n / 10)) (ground arith),
        read_digits-decimal_rounds f (n / 10) (ground arith),
      ))
]

pub read_digits-decimal : (n : ℕ) → read_digits 0 (decimal n) ≡ n
unfolding decimal
read_digits-decimal n = read_digits-decimal_rounds (suc n) n (omega arith)

pub decimal-AreDigits : (n : ℕ) → AreDigits (decimal n)
unfolding decimal
decimal-AreDigits n = decimal_rounds-AreDigits (suc n) n

concat-cons : (xs : Bytes) (d : ℕ) → (c : ℕ) × (cs : Bytes) × ((xs ++ (d ∷ [])) ≡ c ∷ cs)
concat-cons [] d = (d, [], refl)
concat-cons (x ∷ xs) d = (x, xs ++ (d ∷ []), refl)

pub decimal-cons : (n : ℕ) → (c : ℕ) × (cs : Bytes) × (decimal n ≡ c ∷ cs)
unfolding decimal decimal_rounds
decimal-cons n = elim (Bool-cases (ltb n 10)) [
  | inl small ↦ (b'0' + n, [], rw small)
  | inr large ↦
      let (c, cs, e) = concat-cons (decimal_rounds n (n / 10)) (b'0' + n % 10) in
      (c, cs, rw large e)
]

-- A number that an `int` holds.
abbrev pub FitsInt : ℤ → Type 0
FitsInt (pos n) = n ≤ int_max
FitsInt (negsuc n) = n ≤ int_max

abbrev pub signed : Bool → ℕ → ℤ
signed false n = pos n
signed true zero = pos 0
signed true (suc n) = negsuc n

read_number-digits :
    (minus : Bool) (text : Bytes) (c : ℕ) (cs : Bytes)
    → AreDigits text
    → text ≡ c ∷ cs
    → read_number minus text ≡ in_range minus (read_digits 0 text)
unfolding read_number
read_number-digits minus [] c cs h e = cc
read_number-digits minus (d ∷ ds) c cs h e = rw h.0

stoi_lem : (text : Bytes) → stoi text ≡ read_signed (skip_space text)
unfolding stoi
stoi_lem text = refl

-- A digit is no space and no sign.
skip_space-digit : (d : ℕ) (ds : Bytes) → is_digit d ≡ true → skip_space (d ∷ ds) ≡ d ∷ ds
unfolding skip_space
skip_space-digit d ds h = ground arith

read_signed-digit :
    (d : ℕ) (ds : Bytes) → is_digit d ≡ true → read_signed (d ∷ ds) ≡ read_number false (d ∷ ds)
unfolding read_signed
read_signed-digit d ds h = ground arith

stoi-digit : (d : ℕ) (ds : Bytes) → is_digit d ≡ true → stoi (d ∷ ds) ≡ read_number false (d ∷ ds)
stoi-digit d ds h = rw (stoi_lem (d ∷ ds), skip_space-digit d ds h) (read_signed-digit d ds h)

stoi-minus : (text : Bytes) → stoi (b'-' ∷ text) ≡ read_number true text
unfolding stoi
stoi-minus text = refl

stoi-digits :
    (text : Bytes) (c : ℕ) (cs : Bytes)
    → AreDigits text
    → text ≡ c ∷ cs
    → stoi text ≡ read_number false text
stoi-digits [] c cs h e = cc
stoi-digits (d ∷ ds) c cs h e = stoi-digit d ds h.0

pub in_range-FitsInt :
    (minus : Bool) (n : ℕ) → FitsInt (signed minus n) → in_range minus n ≡ ok (signed minus n)
unfolding in_range
in_range-FitsInt false n h = ground arith
in_range-FitsInt true zero h = refl
in_range-FitsInt true (suc n) h = ground arith

read_number-decimal :
    (minus : Bool) (n : ℕ)
    → FitsInt (signed minus n)
    → read_number minus (decimal n) ≡ ok (signed minus n)
read_number-decimal minus n h =
    let (c, cs, e) = decimal-cons n in
    read_number-digits minus (decimal n) c cs (decimal-AreDigits n) e
    ∙ (ap (in_range minus) (read_digits-decimal n) ∙ in_range-FitsInt minus n h)

-- `std::stoi` reads back every `int` from its decimal text.
pub stoi-to_string : (z : ℤ) → FitsInt z → stoi (to_string z) ≡ ok z
unfolding to_string
stoi-to_string (pos n) h =
    let (c, cs, e) = decimal-cons n in
    stoi-digits (decimal n) c cs (decimal-AreDigits n) e ∙ read_number-decimal false n h
stoi-to_string (negsuc n) h = stoi-minus (decimal (suc n)) ∙ read_number-decimal true (suc n) h
