-- ===== src/Prelude/Families.antt =====
-- Families indexed by numbers, for the members of which there is no fixed count.
use Prim.Native.Nat.{ℕ, zero, suc, ◌+◌, ◌≤◌, ◌<◌}
use mathlib.Core.Path.{◌≡◌, refl, sym, subst, ap, ◌∙◌}
use mathlib.Core.Logic.{◌≢◌, ◌⊎◌, inl, inr}
use mathlib.Core.Bool.{false}
use native.Mathlib.Omega.{arith}
use scriptor.Prelude.Tests.{◌==◌, ==_iff, if◌then◌else◌, if_true, if_false, Bool-cases}

pub ==_neq : (a b : ℕ) → (a == b) ≡ false → a ≢ b
==_neq a b h = ground (arith, ==_iff a b)

module _ {ℓ} {A : Type ℓ} where
  -- The family with another member at `i`.
  abbrev pub put : (ℕ → A) → ℕ → A → ℕ → A
  put f i a j = if i == j then a else f j

  -- What holds of the new member, and of the others as they are, holds of all.
  pub put_all {κ} :
      (P : ℕ → A → Type κ) (f : ℕ → A) (i : ℕ) (a : A)
      → ((j : ℕ) → i ≢ j → P j (f j))
      → P i a
      → (j : ℕ) → P j (put f i a j)
  put_all P f i a others here j = elim (Bool-cases (i == j)) [
    | inl e ↦
        subst (P j) (sym (if_true (i == j) a (f j) e)) (subst (λ k. P k a) ((==_iff i j).0 e) here)
    | inr e ↦ subst (P j) (sym (if_false (i == j) a (f j) e)) (others j (==_neq i j e))
  ]

pub put_self {ℓ} : {A : Type ℓ} (f : ℕ → A) (i : ℕ) (a : A) → put f i a i ≡ a
put_self f i a = if_true (i == i) a (f i) ((==_iff i i).1 refl)

pub put_other {ℓ} : {A : Type ℓ} (f : ℕ → A) (i : ℕ) (a : A) (j : ℕ) → i ≢ j → put f i a j ≡ f j
put_other f i a j = put_all (λ k b. i ≢ k → b ≡ f k) f i a (λ k n m. refl) (λ n. absurd (n refl)) j

pub put_eq {ℓ} :
    {A : Type ℓ} (f : ℕ → A) (i : ℕ) (a : A) (j : ℕ) (b : A)
    → put f i a j ≡ b
    → ((i ≡ j) × (a ≡ b)) ⊎ ((i ≢ j) × (f j ≡ b))
put_eq f i a j b h = elim (Bool-cases (i == j)) [
  | inl e ↦ inl ((==_iff i j).0 e, sym (if_true (i == j) a (f j) e) ∙ h)
  | inr e ↦ inr (==_neq i j e, sym (if_false (i == j) a (f j) e) ∙ h)
]

-- All below a number are one way, or one of them is the other.
pub all_or_one {ℓ κ} :
    {P : ℕ → Type ℓ} {Q : ℕ → Type κ}
    → ((x : ℕ) → P x ⊎ Q x)
    → (n : ℕ) → ((x : ℕ) → x < n → P x) ⊎ ((x : ℕ) × (x < n) × Q x)
all_or_one d zero = inl (λ x lt. absurd (omega (arith, lt)))
all_or_one {P = P} d (suc n) = elim (all_or_one d n) [
  | inr (x, lt, q) ↦ inr (x, omega (arith, lt), q)
  | inl all ↦ elim (d n) [
    | inr q ↦ inr (n, omega arith, q)
    | inl p ↦ inl (λ x lt. elim (Bool-cases (x == n)) [
      | inl e ↦ subst P (sym ((==_iff x n).0 e)) p
      | inr e ↦ all x (omega (arith, lt, ==_neq x n e))
    ])
  ]
]

-- The members below a number, added up.
pub sum : (ℕ → ℕ) → ℕ → ℕ
sum f zero = 0
sum f (suc n) = sum f n + f n

sum_same : (f g : ℕ → ℕ) (n : ℕ) → ((y : ℕ) → y < n → g y ≡ f y) → sum g n ≡ sum f n
unfolding sum
sum_same f g zero same = refl
sum_same f g (suc n) same =
    omega (arith, sum_same f g n (λ y lt. same y (omega (arith, lt))), same n (omega arith))

pub sum_less :
    (f g : ℕ → ℕ) (n x : ℕ) → x < n → ((y : ℕ) → x ≢ y → g y ≡ f y) → g x < f x → sum g n < sum f n
unfolding sum
sum_less f g zero x lt same less = omega (arith, lt)
sum_less f g (suc n) x lt same less = elim (Bool-cases (x == n)) [
  | inl e ↦
      let q : x ≡ n = (==_iff x n).0 e in
      let here : g n < f n = subst (λ y. g y < f y) q less in
      omega (arith, here, sum_same f g n (λ y below. same y (λ r. omega (arith, r, q, below))))
  | inr e ↦
      let n_differs = ==_neq x n e in
      omega (arith, sum_less f g n x (omega (arith, lt, n_differs)) same less, same n n_differs)
]

pub sum_none : (n : ℕ) → sum (λ x. 0) n ≡ 0
unfolding sum
sum_none zero = refl
sum_none (suc n) = omega (arith, sum_none n)

-- Where one member changes, the sum changes by it.
pub sum_moved :
    (f g : ℕ → ℕ) (n x : ℕ) → x < n → ((y : ℕ) → x ≢ y → g y ≡ f y) → sum g n + f x ≡ sum f n + g x
unfolding sum
sum_moved f g zero x lt same = absurd (omega (arith, lt))
sum_moved f g (suc n) x lt same = elim (Bool-cases (x == n)) [
  | inl e ↦
      let q : x ≡ n = (==_iff x n).0 e in
      let at_f : f x ≡ f n = ap f q in
      let at_g : g x ≡ g n = ap g q in
      omega
        (arith, at_f, at_g, sum_same f g n (λ y below. same y (λ r. omega (arith, r, q, below))))
  | inr e ↦
      let n_differs = ==_neq x n e in
      omega (arith, sum_moved f g n x (omega (arith, lt, n_differs)) same, same n n_differs)
]

member-le-sum : (f : ℕ → ℕ) (n x : ℕ) → x < n → f x ≤ sum f n
unfolding sum
member-le-sum f zero x lt = absurd (omega (arith, lt))
member-le-sum f (suc n) x lt = elim (Bool-cases (x == n)) [
  | inl e ↦ (let at_f : f x ≡ f n = ap f ((==_iff x n).0 e) in omega (arith, at_f))
  | inr e ↦ omega (arith, member-le-sum f n x (omega (arith, lt, ==_neq x n e)))
]

-- In a sum of 1 at most, there is one member of 1 at most.
pub sum_two :
    (f : ℕ → ℕ) (n x y : ℕ)
    → x < n
    → y < n
    → f x ≡ 1
    → f y ≡ 1
    → sum f n ≤ 1
    → (x ≡ y) × (sum f n ≡ 1)
sum_two f n x y lt lt' a b le = elim (Bool-cases (x == y)) [
  | inl e ↦ ((==_iff x y).0 e, omega (arith, le, a, member-le-sum f n x lt))
  | inr e ↦
      let g = put f x 0 in
      let moved = sum_moved f g n x lt (put_other f x 0) in
      let at_x : g x ≡ 0 = put_self f x 0 in
      let at_y : g y ≡ f y = put_other f x 0 y (==_neq x y e) in
      absurd (omega (arith, le, a, b, moved, at_x, at_y, member-le-sum g n y lt'))
]
