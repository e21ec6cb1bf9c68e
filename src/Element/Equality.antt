-- ===== src/Element/Equality.antt =====
-- `Element::operator==` is equality.
use scriptor.Prelude.{◌≡◌, refl, ◌↔◌, true, [], ◌∷◌, ℤ, pos, negsuc, eqb_int, Bytes, ==_iff, arith}
use scriptor.Element.{Element, bytes_eq, element_eq}

eqb_int_iff : (a b : ℤ) → (eqb_int a b ≡ true) ↔ (a ≡ b)
eqb_int_iff (pos a) (pos b) = ground (arith, ==_iff a b)
eqb_int_iff (pos a) (negsuc b) = (λ h. cc, λ h. cc)
eqb_int_iff (negsuc a) (pos b) = (λ h. cc, λ h. cc)
eqb_int_iff (negsuc a) (negsuc b) = ground (arith, ==_iff a b)

bytes_eq_iff : (xs ys : Bytes) → (bytes_eq xs ys ≡ true) ↔ (xs ≡ ys)
unfolding bytes_eq
bytes_eq_iff [] [] = (λ h. refl, λ h. refl)
bytes_eq_iff [] (y ∷ ys) = (λ h. cc, λ h. cc)
bytes_eq_iff (x ∷ xs) [] = (λ h. cc, λ h. cc)
bytes_eq_iff (x ∷ xs) (y ∷ ys) = ground (arith, bytes_eq_iff xs ys)

-- Two elements compare equal exactly when their time, level and message are the same.
element_eq_iff : (a b : Element) → (element_eq a b ≡ true) ↔ (a ≡ b)
unfolding element_eq
element_eq_iff a b = ground (
  arith,
  eqb_int_iff a.time b.time,
  eqb_int_iff a.level b.level,
  bytes_eq_iff a.message b.message,
)
