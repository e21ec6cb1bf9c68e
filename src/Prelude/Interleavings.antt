-- ===== src/Prelude/Interleavings.antt =====
-- Lists that take one member after the other from the fronts of several.
use Prim.Native.Nat.{ℕ}
use mathlib.Core.Path.{◌≡◌, sym, subst, ap, ◌∙◌}
use mathlib.Core.Logic.{◌≢◌, inl, inr}
use mathlib.Core.List.{List, [], ◌∷◌, ◌++◌}
use scriptor.Prelude.Tests.{◌==◌, ==_iff, Bool-cases}
use scriptor.Prelude.Families.{put, put_self, put_other, ==_neq}

module _ {ℓ} {A : Type ℓ} where
  -- Each member of the list is the next one of one of the family, and nothing is left over.
  pub data Interleaves : (ℕ → List A) → List A → Type ℓ where
    nothing_left : {f : ℕ → List A} → ((k : ℕ) → f k ≡ []) → Interleaves f []
    next_from :
        {f g : ℕ → List A} {x : A} {xs : List A} (k : ℕ)
        → f k ≡ x ∷ g k
        → ((i : ℕ) → k ≢ i → f i ≡ g i)
        → Interleaves g xs
        → Interleaves f (x ∷ xs)

  pub Interleaves-same :
      {f g : ℕ → List A} {xs : List A} → ((k : ℕ) → f k ≡ g k) → Interleaves g xs → Interleaves f xs
  Interleaves-same same (nothing_left e) = nothing_left (λ k. same k ∙ e k)
  Interleaves-same same (next_from k e others v) =
      next_from k (same k ∙ e) (λ i n. same i ∙ others i n) v

  -- Several in front, all from one of the family.
  pub Interleaves-append :
      (c : ℕ) (xs : List A) {f g : ℕ → List A} {ys : List A}
      → f c ≡ xs ++ g c
      → ((i : ℕ) → c ≢ i → f i ≡ g i)
      → Interleaves g ys
      → Interleaves f (xs ++ ys)
  Interleaves-append c [] {f} {g} e others v =
      Interleaves-same
        (λ k. elim (Bool-cases (c == k)) [
          | inl q ↦ subst (λ i. f i ≡ g i) ((==_iff c k).0 q) e
          | inr q ↦ others k (==_neq c k q)
        ])
        v
  Interleaves-append c (x ∷ xs) {f} {g} e others v =
      let f' = put f c (xs ++ g c) in
      next_from c (e ∙ ap (λ l. x ∷ l) (sym (put_self f c (xs ++ g c))))
        (λ i n. sym (put_other f c (xs ++ g c) i n))
        (Interleaves-append c xs (put_self f c (xs ++ g c))
          (λ i n. put_other f c (xs ++ g c) i n ∙ others i n) v)
