-- ===== src/Tests/Format.antt =====
-- A `fmt::format` for fields of one digit, and the single `{}`.
use scriptor.Prelude.{
  ℕ, ◌+◌, ◌-◌, ◌<◌, ◌≡◌, refl, sym, ap, ◌∙◌, true, false, List, [], ◌∷◌, ◌++◌, append-nil, ◌==◌,
  if◌then◌else◌, if_false, Bytes, codes, arith,
}
use scriptor.Host.{Piece, plain, field, is_plain, fits, pattern_of, argument, filled}

-- Where the reader of the pattern stands: in text, behind `{`, or behind `{` and a digit.
pub data Place : Type 0 where
  in_text behind_brace : Place
  behind_digit : ℕ → Place

abbrev fill : Place → List Bytes → Bytes → Bytes
fill place args [] = []
fill in_text args (c ∷ cs) =
    if c == 123 then fill behind_brace args cs else c ∷ fill in_text args cs
fill behind_brace args (c ∷ cs) =
    if c == 125
    then argument 0 args ++ fill in_text args cs
    else fill (behind_digit (c - 48)) args cs
fill (behind_digit i) args (c ∷ cs) = argument i args ++ fill in_text args cs

abbrev pub format : Bytes → List Bytes → Bytes
format pattern args = fill in_text args pattern

fill-plain :
    (t cs : Bytes) (args : List Bytes)
    → is_plain t ≡ true
    → fill in_text args (t ++ cs) ≡ t ++ fill in_text args cs
fill-plain [] cs args p = refl
fill-plain (c ∷ t) cs args p = ground (arith, fill-plain t cs args)

fill-field :
    (i : ℕ) (cs : Bytes) (args : List Bytes)
    → i < 10
    → fill in_text args (123 ∷ (48 + i) ∷ 125 ∷ cs) ≡ argument i args ++ fill in_text args cs
fill-field i cs args lt =
    let e : ((48 + i) == 125) ≡ false = ground arith in
    let same : (48 + i - 48) ≡ i = omega arith in
    if_false ((48 + i) == 125) _ _ e ∙ ap (λ k. argument k args ++ fill in_text args cs) same

pub format-by_number :
    (pieces : List Piece) (args : List Bytes) (n : ℕ)
    → fits n pieces ≡ true
    → format (pattern_of pieces) args ≡ filled args pieces
format-by_number [] args n p = refl
format-by_number (plain t ∷ pieces) args n p =
    fill-plain t (pattern_of pieces) args (ground arith)
    ∙ ap (λ l. t ++ l) (format-by_number pieces args n (ground arith))
format-by_number (field i ∷ pieces) args n p =
    fill-field i (pattern_of pieces) args (ground arith)
    ∙ ap (λ l. argument i args ++ l) (format-by_number pieces args n (ground arith))

pub format-in_turn :
    (before behind arg : Bytes)
    → is_plain before ≡ true
    → is_plain behind ≡ true
    → format (before ++ (codes "{}" ++ behind)) (arg ∷ []) ≡ before ++ (arg ++ behind)
format-in_turn before behind arg p q =
    fill-plain before (codes "{}" ++ behind) (arg ∷ []) p
    ∙ ap (λ l. before ++ (arg ++ l))
        (ap (fill in_text (arg ∷ [])) (sym (append-nil behind))
          ∙ (fill-plain behind [] (arg ∷ []) q ∙ append-nil behind))
