-- ===== src/Element/Accepted.antt =====
-- Which logs `Element::from_json` accepts.
use scriptor.Prelude.{
  ℕ, ◌≡◌, refl, ◌∙◌, ap, Bool, true, false, ◌&&◌, Option, none, some, ℤ, if◌then◌else◌, Bytes,
  codes, Result, ok, err, ◌>>=◌, arith,
}
use scriptor.Host.{Host}
use scriptor.Element.Number.{stoi}
use scriptor.Element.Nulls.{present}
use scriptor.Element.{
  find_string, find_time, find_level, find_message, from_json, finish, read_time, read_fields,
  from_parsed,
}

abbrev pub is_ok {ℓ} : {A : Type ℓ} → Result A → Bool
is_ok (ok a) = true
is_ok (err e) = false

-- What follows a call converts, or not, whatever the call gives.
is_ok-bind {ℓ κ} :
    {A : Type ℓ} {B : Type κ} (r : Result A) (next : A → Result B) {b c : Bool}
    → is_ok r ≡ b
    → ((a : A) → is_ok (next a) ≡ c)
    → is_ok (r >>= next) ≡ b && c
is_ok-bind (err e) next {c = c} p q = ap (λ b. b && c) p
is_ok-bind (ok a) next {c = c} p q = q a ∙ ap (λ b. b && c) p

and_true : (b : Bool) → b && true ≡ b
and_true true = refl
and_true false = refl

module _ (h : Host) where
  -- A field that becomes a part of the message: absent, null, or a number or a text that converts.
  abbrev pub accepts_text : h.Json → Bytes → Bool
  accepts_text json key = elim (present h json key) [
    | none ↦ true
    | some v ↦ if h.is_number v then is_ok (h.get_int64 v) else is_ok (h.get_string v)
  ]

  abbrev pub accepts_time : h.Json → Bool
  accepts_time json = elim (present h json (codes "s")) [
    | none ↦ true
    | some v ↦
        if h.is_string v
        then elim (h.get_string v) [ err e ↦ false | ok text ↦ is_ok (h.stod text) ]
        else is_ok (h.get_double v)
  ]

  abbrev pub accepts_level : h.Json → Bool
  accepts_level json = elim (present h json (codes "l")) [
    | none ↦ true
    | some v ↦
        if h.is_string v
        then elim (h.get_string v) [ err e ↦ false | ok text ↦ is_ok (stoi text) ]
        else is_ok (h.get_int v)
  ]

  abbrev pub accepts_message : h.Json → Bool
  accepts_message json =
      accepts_text json (codes "c")
      && (accepts_text json (codes "p")
          && (accepts_text json (codes "t")
              && (accepts_text json (codes "f")
                  && (accepts_text json (codes "i")
                      && (accepts_text json (codes "n") && accepts_text json (codes "m"))))))

  -- A text is accepted by what its fields are, each by itself.
  abbrev pub accepts : Bytes → Bool
  accepts text = elim (h.parse text) [
    | err e ↦ false
    | ok json ↦ accepts_time json && (accepts_level json && accepts_message json)
  ]

  find_string-is_ok :
      (json : h.Json) (key : Bytes) → is_ok (find_string h json key) ≡ accepts_text json key
  unfolding find_string
  find_string-is_ok json key = ground arith

  find_time-is_ok : (json : h.Json) → is_ok (find_time h json) ≡ accepts_time json
  unfolding find_time
  find_time-is_ok json = ground arith

  find_level-is_ok : (json : h.Json) → is_ok (find_level h json) ≡ accepts_level json
  unfolding find_level
  find_level-is_ok json = ground arith

  find_message-is_ok : (json : h.Json) → is_ok (find_message h json) ≡ accepts_message json
  unfolding find_message
  find_message-is_ok json =
      let text = find_string-is_ok json in
      is_ok-bind _ _ (text (codes "c")) (λ c. is_ok-bind _ _ (text (codes "p")) (λ p.
        is_ok-bind _ _ (text (codes "t")) (λ t. is_ok-bind _ _ (text (codes "f")) (λ f.
          is_ok-bind _ _ (text (codes "i")) (λ i. is_ok-bind _ _ (text (codes "n")) (λ n.
            is_ok-bind _ _ (text (codes "m")) (λ m. refl)
            ∙ and_true (accepts_text json (codes "m"))))))))

  finish-is_ok :
      (json : h.Json) (time : ℤ)
      → is_ok (finish h json time) ≡ accepts_level json && accepts_message json
  unfolding finish
  finish-is_ok json time = is_ok-bind _ _ (find_level-is_ok json) (λ level.
      is_ok-bind _ _ (find_message-is_ok json) (λ message. refl) ∙ and_true (accepts_message json))

  read_fields-is_ok :
      (json : h.Json) (r : Result (Option ℤ)) (calls : ℕ)
      → is_ok (read_fields h json r calls).0
        ≡ is_ok r && (accepts_level json && accepts_message json)
  unfolding read_fields
  read_fields-is_ok json (err e) calls = refl
  read_fields-is_ok json (ok found) calls = finish-is_ok json (read_time h found calls).0

  from_parsed-is_ok :
      (r : Result h.Json) (calls : ℕ)
      → is_ok (from_parsed h r calls).0 ≡ elim r [
        | err e ↦ false
        | ok json ↦ accepts_time json && (accepts_level json && accepts_message json)
      ]
  unfolding from_parsed
  from_parsed-is_ok (err e) calls = refl
  from_parsed-is_ok (ok json) calls =
      read_fields-is_ok json (find_time h json) calls
      ∙ ap (λ b. b && (accepts_level json && accepts_message json)) (find_time-is_ok json)

  -- A log is accepted just if its text parses and each of its nine fields is absent, null or
  -- converts by itself: `s` as a text that `std::stod` reads or else as a double, `l` as a text
  -- that `std::stoi` reads or else as an int, and the others as integers where they are numbers
  -- and as texts where not. Otherwise `from_json` throws, whatever the clock says.
  pub from_json-accepts :
      (text : Bytes) (calls : ℕ) → is_ok (from_json h text calls).0 ≡ accepts text
  unfolding from_json
  from_json-accepts text calls = from_parsed-is_ok (h.parse text) calls
