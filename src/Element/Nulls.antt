-- ===== src/Element/Nulls.antt =====
-- Logs that `Element::from_json` cannot tell apart.
use scriptor.Prelude.{
  ℕ, ◌≡◌, refl, sym, ◌∙◌, ap, true, false, Option, none, some, ℤ, if◌then◌else◌, Bytes, codes,
  Result, ok, err, arith,
}
use scriptor.Host.{Host}
use scriptor.Element.Number.{to_string}
use scriptor.Element.Number.Digits.{FitsInt, stoi-to_string}
use scriptor.Element.{
  find_string, find_time, check_level, find_level, find_message, from_json, finish, read_time,
  read_fields, from_parsed,
}

module _ (h : Host) where
  -- The field `key` of a log, unless it is null.
  abbrev pub present : h.Json → Bytes → Option h.Json
  present json key = elim (h.find json key) [
    | none ↦ none
    | some value ↦ if h.is_null value then none else some value
  ]

  find_string-present :
      (j k : h.Json) (key : Bytes)
      → present j key ≡ present k key
      → find_string h j key ≡ find_string h k key
  unfolding find_string
  find_string-present j k key e = ground arith

  find_time-present :
      (j k : h.Json) → present j (codes "s") ≡ present k (codes "s") → find_time h j ≡ find_time h k
  unfolding find_time
  find_time-present j k e = ground arith

  find_level-present :
      (j k : h.Json)
      → present j (codes "l") ≡ present k (codes "l")
      → find_level h j ≡ find_level h k
  unfolding find_level
  find_level-present j k e = ground arith

  find_message-present :
      (j k : h.Json)
      → ((key : Bytes) → present j key ≡ present k key)
      → find_message h j ≡ find_message h k
  unfolding find_message
  find_message-present j k e = simp (
    find_string-present j k (codes "c") (e (codes "c")),
    find_string-present j k (codes "p") (e (codes "p")),
    find_string-present j k (codes "t") (e (codes "t")),
    find_string-present j k (codes "f") (e (codes "f")),
    find_string-present j k (codes "i") (e (codes "i")),
    find_string-present j k (codes "n") (e (codes "n")),
    find_string-present j k (codes "m") (e (codes "m")),
  )

  finish-present :
      (j k : h.Json) (time : ℤ)
      → ((key : Bytes) → present j key ≡ present k key)
      → finish h j time ≡ finish h k time
  unfolding finish
  finish-present j k time e =
      rw (find_level-present j k (e (codes "l")), find_message-present j k e)

  read_fields-present :
      (j k : h.Json) (found : Result (Option ℤ)) (calls : ℕ)
      → ((key : Bytes) → present j key ≡ present k key)
      → read_fields h j found calls ≡ read_fields h k found calls
  unfolding read_fields
  read_fields-present j k (err x) calls e = refl
  read_fields-present j k (ok found) calls e =
      let (time, calls') = read_time h found calls in
      ap (λ r. (r, calls')) (finish-present j k time e)

  from_parsed-present :
      (j k : h.Json) (calls : ℕ)
      → ((key : Bytes) → present j key ≡ present k key)
      → from_parsed h (ok j) calls ≡ from_parsed h (ok k) calls
  unfolding from_parsed
  from_parsed-present j k calls e =
      read_fields-present j k (find_time h j) calls e
      ∙ ap (λ found. read_fields h k found calls) (find_time-present j k (e (codes "s")))

  -- Two texts give the same result, an element or an exception, if they have the same fields
  -- that are not null: a null field counts as absent.
  pub from_json-present :
      (t u : Bytes) (calls : ℕ) (j k : h.Json)
      → h.parse t ≡ ok j
      → h.parse u ≡ ok k
      → ((key : Bytes) → present j key ≡ present k key)
      → from_json h t calls ≡ from_json h u calls
  unfolding from_json
  from_json-present t u calls j k p q e =
      ap (λ r. from_parsed h r calls) p
      ∙ (from_parsed-present j k calls e ∙ ap (λ r. from_parsed h r calls) (sym q))

  -- A level may be sent as a number or as its decimal text: both are checked alike, and a number
  -- out of range becomes `trace`.
  find_level-text :
      (j k : h.Json) (v w : h.Json) (z : ℤ)
      → FitsInt z
      → h.find j (codes "l") ≡ some v
      → h.is_null v ≡ false
      → h.is_string v ≡ true
      → h.get_string v ≡ ok (to_string z)
      → h.find k (codes "l") ≡ some w
      → h.is_null w ≡ false
      → h.is_string w ≡ false
      → h.get_int w ≡ ok z
      → (find_level h j ≡ find_level h k) × (find_level h k ≡ ok (check_level h z))
  unfolding find_level
  find_level-text j k v w z fits a1 a2 a3 a4 b1 b2 b3 b4 = ground (arith, stoi-to_string z fits)
