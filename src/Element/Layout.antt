-- ===== src/Element/Layout.antt =====
-- The element that `Element::from_json` makes of a log that it accepts.
use scriptor.Prelude.{
  Bool, subst, ℕ, suc, ◌≡◌, true, false, ◌&&◌, Option, none, some, ℤ, if◌then◌else◌, Bytes, codes,
  [], Result, ok, err, arith,
}
use scriptor.Host.{Host, FormatsFields}
use scriptor.Element.Number.{to_string, stoi}
use scriptor.Element.Nulls.{present}
use scriptor.Element.Accepted.{accepts_text, accepts_time, accepts_level, accepts_message, accepts}
use scriptor.Element.Fields.{log_line, from_json-fields}
use scriptor.Element.{find_string, find_time, check_level, find_level, from_json}

and_split : (a b : Bool) → a && b ≡ true → (a ≡ true) × (b ≡ true)
and_split a b e = ground arith

module _ (h : Host) where
  -- What a field shows in the message: nothing, its number, or its text.
  abbrev pub shown : h.Json → Bytes → Bytes
  shown json key = elim (present h json key) [
    | none ↦ []
    | some v ↦
        if h.is_number v
        then elim (h.get_int64 v) [ err e ↦ [] | ok z ↦ to_string z ]
        else elim (h.get_string v) [ err e ↦ [] | ok text ↦ text ]
  ]

  -- The time that was sent.
  abbrev pub sent_time : h.Json → Option ℤ
  sent_time json = elim (present h json (codes "s")) [
    | none ↦ none
    | some v ↦
        if h.is_string v
        then elim (h.get_string v) [
          | err e ↦ none
          | ok text ↦ elim (h.stod text) [
            | err e ↦ none
            | ok d ↦ some (h.time_point (h.microseconds d))
          ]
        ]
        else elim (h.get_double v) [ err e ↦ none | ok d ↦ some (h.time_point (h.microseconds d)) ]
  ]

  -- The level that was sent, where it is in range.
  abbrev pub sent_level : h.Json → ℤ
  sent_level json = elim (present h json (codes "l")) [
    | none ↦ h.trace
    | some v ↦
        if h.is_string v
        then elim (h.get_string v) [
          | err e ↦ h.trace
          | ok text ↦ elim (stoi text) [ err e ↦ h.trace | ok z ↦ check_level h z ]
        ]
        else elim (h.get_int v) [ err e ↦ h.trace | ok z ↦ check_level h z ]
  ]

  find_string-shown :
      (json : h.Json) (key : Bytes)
      → accepts_text h json key ≡ true
      → find_string h json key ≡ ok (shown json key)
  unfolding find_string
  find_string-shown json key a = ground arith

  find_time-sent_time :
      (json : h.Json) → accepts_time h json ≡ true → find_time h json ≡ ok (sent_time json)
  unfolding find_time
  find_time-sent_time json a = ground arith

  find_level-sent_level :
      (json : h.Json) → accepts_level h json ≡ true → find_level h json ≡ ok (sent_level json)
  unfolding find_level
  find_level-sent_level json a = ground arith

  -- The element of a log that is accepted: the time that was sent or, without one, a reading of
  -- the clock; the level that was sent, or `trace` without one and out of range; and the message
  -- line, in which the seven texts stand as sent, numbers in decimal and absent ones empty.
  pub from_json_layout :
      FormatsFields h
      → (text : Bytes) (calls : ℕ) (json : h.Json) → h.parse text ≡ ok json
      → accepts h text ≡ true
      → from_json h text calls ≡ (
        ok (record {
          time = elim (sent_time json) [ none ↦ h.now calls | some t ↦ t ];
          level = sent_level json;
          message =
              log_line h
                (shown json (codes "c"))
                (shown json (codes "p"))
                (shown json (codes "t"))
                (shown json (codes "f"))
                (shown json (codes "i"))
                (shown json (codes "n"))
                (shown json (codes "m"));
        }),
        elim (sent_time json) [ none ↦ suc calls | some t ↦ calls ],
      )
  from_json_layout ff text calls json parsed good =
      let all =
        subst
          (λ (r : Result h.Json).
            elim r [
              | err e ↦ false
              | ok json ↦ accepts_time h json && (accepts_level h json && accepts_message h json)
            ]
            ≡ true)
          parsed good in
      let (time, rest) = and_split _ _ all in
      let (level, message) = and_split _ _ rest in
      let (c, rest_c) = and_split _ _ message in
      let (p, rest_p) = and_split _ _ rest_c in
      let (t, rest_t) = and_split _ _ rest_p in
      let (f, rest_f) = and_split _ _ rest_t in
      let (i, rest_i) = and_split _ _ rest_f in
      let (n, m) = and_split _ _ rest_i in
      let text_of = find_string-shown json in
      from_json-fields h ff text calls json (sent_time json) (sent_level json) _ _ _ _ _ _ _ parsed
        (find_time-sent_time json time) (find_level-sent_level json level) (text_of (codes "c") c)
        (text_of (codes "p") p) (text_of (codes "t") t) (text_of (codes "f") f)
        (text_of (codes "i") i) (text_of (codes "n") n) (text_of (codes "m") m)
