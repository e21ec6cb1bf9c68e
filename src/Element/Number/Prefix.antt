-- ===== src/Element/Number/Prefix.antt =====
-- `std::stoi` takes the number at the front of a text, behind any white space.
use scriptor.Prelude.{
  Bool, ℕ, zero, suc, ◌+◌, ◌-◌, ◌*◌, ◌≡◌, refl, subst, if_true, if_false, ap, sym, ◌∙◌, true, false,
  [], ◌∷◌, ◌++◌, ℤ, pos, negsuc, inl, inr, Bool-cases, Bytes, All, ok, arith, ◌==◌,
}
use scriptor.Element.Number.{
  is_digit, is_space, decimal, to_string, read_digits, skip_space, read_signed, read_number,
  in_range, stoi,
}
use scriptor.Element.Number.Digits.{
  AreDigits, FitsInt, signed, decimal-AreDigits, decimal-cons, read_digits-decimal,
  in_range-FitsInt,
}

-- Where the digits of a number end.
abbrev pub IsEnd : Bytes → Type 0
IsEnd [] = Unit
IsEnd (c ∷ cs) = is_digit c ≡ false

abbrev pub AreSpaces : Bytes → Type 0
AreSpaces = All (λ c. is_space c ≡ true)

skip_space-append :
    (spaces text : Bytes) → AreSpaces spaces → skip_space (spaces ++ text) ≡ skip_space text
unfolding skip_space
skip_space-append [] text h = refl
skip_space-append (c ∷ spaces) text h = rw h.0 (skip_space-append spaces text h.1)

read_digits-append :
    (acc : ℕ) (xs rest : Bytes)
    → AreDigits xs
    → IsEnd rest
    → read_digits acc (xs ++ rest) ≡ read_digits acc xs
unfolding read_digits
read_digits-append acc [] [] h e = refl
read_digits-append acc [] (c ∷ rest) h e = rw e
read_digits-append acc (x ∷ xs) rest h e =
    rw h.0 (read_digits-append (acc * 10 + (x - b'0')) xs rest h.1 e)

read_number-append :
    (minus : Bool) (c : ℕ) (cs rest : Bytes)
    → is_digit c ≡ true
    → read_number minus ((c ∷ cs) ++ rest) ≡ in_range minus (read_digits 0 ((c ∷ cs) ++ rest))
unfolding read_number
read_number-append minus c cs rest h = rw h

-- The digits of a number, and what follows them.
read_number_prefix :
    (minus : Bool) (n : ℕ) (rest : Bytes)
    → FitsInt (signed minus n)
    → IsEnd rest
    → read_number minus (decimal n ++ rest) ≡ ok (signed minus n)
read_number_prefix minus n rest fits end =
    let (c, cs, e) = decimal-cons n in
    let digits = decimal-AreDigits n in
    ap (λ t. read_number minus (t ++ rest)) e
    ∙ (read_number-append minus c cs rest (subst AreDigits e digits).0
        ∙ (ap (λ t. in_range minus (read_digits 0 (t ++ rest))) (sym e)
            ∙ (ap (in_range minus)
                  (read_digits-append 0 (decimal n) rest digits end ∙ read_digits-decimal n)
                ∙ in_range-FitsInt minus n fits)))

front_digit :
    (d : ℕ) (ds : Bytes)
    → is_digit d ≡ true
    → read_signed (skip_space (d ∷ ds)) ≡ read_number false (d ∷ ds)
unfolding read_signed skip_space
front_digit d ds h = ground arith

front_minus : (text : Bytes) → read_signed (skip_space (b'-' ∷ text)) ≡ read_number true text
unfolding read_signed skip_space
front_minus text = refl

front-to_string :
    (z : ℤ) (rest : Bytes)
    → FitsInt z
    → IsEnd rest
    → read_signed (skip_space (to_string z ++ rest)) ≡ ok z
unfolding to_string
front-to_string (pos n) rest fits end =
    let (c, cs, e) = decimal-cons n in
    ap (λ t. read_signed (skip_space (t ++ rest))) e
    ∙ (front_digit c (cs ++ rest) (subst AreDigits e (decimal-AreDigits n)).0
        ∙ (ap (λ t. read_number false (t ++ rest)) (sym e)
            ∙ read_number_prefix false n rest fits end))
front-to_string (negsuc n) rest fits end =
    front_minus (decimal (suc n) ++ rest) ∙ read_number_prefix true (suc n) rest fits end

-- `std::stoi` reads back every `int` from its decimal text, also with white space in front of it
-- and with anything behind it that does not begin with a digit.
pub stoi_prefix :
    (spaces rest : Bytes) (z : ℤ)
    → AreSpaces spaces
    → FitsInt z
    → IsEnd rest
    → stoi (spaces ++ (to_string z ++ rest)) ≡ ok z
unfolding stoi
stoi_prefix spaces rest z white fits end =
    ap read_signed (skip_space-append spaces (to_string z ++ rest) white)
    ∙ front-to_string z rest fits end

in_range-eq-ok : (minus : Bool) (n : ℕ) {z : ℤ} → in_range minus n ≡ ok z → FitsInt z
unfolding in_range
in_range-eq-ok false n e = ground arith
in_range-eq-ok true zero e = ground arith
in_range-eq-ok true (suc n) e = ground arith

read_number-eq-ok :
    (minus : Bool) (text : Bytes) {z : ℤ} → read_number minus text ≡ ok z → FitsInt z
unfolding read_number
read_number-eq-ok minus [] e = absurd (ground arith)
read_number-eq-ok minus (c ∷ cs) e = elim (Bool-cases (is_digit c)) [
  | inl d ↦ in_range-eq-ok minus (read_digits 0 (c ∷ cs)) (sym (if_true (is_digit c) _ _ d) ∙ e)
  | inr d ↦ absurd (ground arith)
]

read_signed-eq-ok : (text : Bytes) {z : ℤ} → read_signed text ≡ ok z → FitsInt z
unfolding read_signed
read_signed-eq-ok [] e = read_number-eq-ok false [] e
read_signed-eq-ok (c ∷ cs) e = elim (Bool-cases (c == b'-')) [
  | inl minus ↦ read_number-eq-ok true cs (sym (if_true (c == b'-') _ _ minus) ∙ e)
  | inr other ↦ elim (Bool-cases (c == b'+')) [
    | inl plus ↦
        read_number-eq-ok false cs
          (sym (if_true (c == b'+') _ _ plus) ∙ (sym (if_false (c == b'-') _ _ other) ∙ e))
    | inr none ↦
        read_number-eq-ok false (c ∷ cs)
          (sym (if_false (c == b'+') _ _ none) ∙ (sym (if_false (c == b'-') _ _ other) ∙ e))
  ]
]

-- Whatever text `std::stoi` accepts, the value is one that an `int` holds.
pub stoi-FitsInt : (text : Bytes) {z : ℤ} → stoi text ≡ ok z → FitsInt z
unfolding stoi
stoi-FitsInt text e = read_signed-eq-ok (skip_space text) e
