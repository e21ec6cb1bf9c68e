-- ===== src/Element/Fields.antt =====
-- What `Element::from_json` makes of the fields of a log.
use scriptor.Prelude.{
  List, ap, ◌∙◌, append-nil, ℕ, suc, ◌≡◌, refl, true, ◌&&◌, Option, none, some, [], ◌∷◌, ◌++◌, ℤ,
  pos, negsuc, leb, leb_int, ltb_int, if◌then◌else◌, Bytes, codes, Result, ok, err, arith,
}
use scriptor.Host.{
  Piece, plain, field, Host, FormatsFields, OrdersLevels, NumbersLevels, log_pattern,
}
use scriptor.Element.{
  Element, find_string, find_time, check_level, find_level, find_message, from_json, finish,
  read_fields, from_parsed,
}

module _ (h : Host) where
  check_level-range :
      OrdersLevels h
      → (value : ℤ)
      → leb_int h.trace (check_level h value) && ltb_int (check_level h value) h.n_levels ≡ true
  unfolding check_level
  check_level-range o value = ground (arith, o.trace_lt, o.trace_self)

  -- With the numbers of spdlog: the integers from 0 to 6 stay as they are, 6 included, which is
  -- `off`; any other one, a negative one too, becomes 0, which is `trace`.
  check_level_numbers :
      NumbersLevels h
      → (n : ℕ)
      → (check_level h (pos n) ≡ (if leb n 6 then pos n else pos 0))
        × (check_level h (negsuc n) ≡ pos 0)
  unfolding check_level
  check_level_numbers o n = rw (o.trace_zero, o.n_levels_seven) (ground arith, refl)

  finish-eq-ok :
      (json : h.Json) (time : ℤ) {e : Element}
      → finish h json time ≡ ok e
      → (find_level h json ≡ ok e.level) × (find_message h json ≡ ok e.message)
  unfolding finish
  finish-eq-ok json time h = ground arith

  find_level-range :
      OrdersLevels h
      → (json : h.Json) {level : ℤ} → find_level h json ≡ ok level
      → leb_int h.trace level && ltb_int level h.n_levels ≡ true
  unfolding find_level
  find_level-range o json e = ground (arith, o.trace_lt, o.trace_self, check_level-range o)

  read_fields-eq-ok :
      (json : h.Json) (r : Result (Option ℤ)) (calls : ℕ) {e : Element}
      → (read_fields h json r calls).0 ≡ ok e
      → (find_level h json ≡ ok e.level) × (find_message h json ≡ ok e.message)
  unfolding read_fields
  read_fields-eq-ok json (err x) calls q = cc
  read_fields-eq-ok json (ok (some t)) calls q = finish-eq-ok json t q
  read_fields-eq-ok json (ok none) calls q = finish-eq-ok json (h.now calls) q

  from_parsed-eq-ok :
      (r : Result h.Json) (calls : ℕ) {e : Element}
      → (from_parsed h r calls).0 ≡ ok e
      → (json : h.Json) × (r ≡ ok json)
        × (find_level h json ≡ ok e.level)
        × (find_message h json ≡ ok e.message)
  unfolding from_parsed
  from_parsed-eq-ok (err x) calls q = cc
  from_parsed-eq-ok (ok json) calls q =
      let (level, message) = read_fields-eq-ok json (find_time h json) calls q in
      (json, refl, level, message)

  -- A level below `trace` or from `n_levels` on never reaches a sink, whatever the client sends.
  pub from_json-level_range :
      OrdersLevels h
      → (text : Bytes) (calls : ℕ) {e : Element} → (from_json h text calls).0 ≡ ok e
      → leb_int h.trace e.level && ltb_int e.level h.n_levels ≡ true
  unfolding from_json
  from_json-level_range o text calls q =
      find_level-range o _ (from_parsed-eq-ok (h.parse text) calls q).2

  find_message_lem :
      (json : h.Json) (c p t f i n m : Bytes)
      → find_string h json (codes "c") ≡ ok c
      → find_string h json (codes "p") ≡ ok p
      → find_string h json (codes "t") ≡ ok t
      → find_string h json (codes "f") ≡ ok f
      → find_string h json (codes "i") ≡ ok i
      → find_string h json (codes "n") ≡ ok n
      → find_string h json (codes "m") ≡ ok m
      → find_message h json ≡ ok (h.format log_pattern (c ∷ p ∷ t ∷ f ∷ i ∷ n ∷ m ∷ []))
  unfolding find_message
  find_message_lem json c p t f i n m q1 q2 q3 q4 q5 q6 q7 = simp (q1, q2, q3, q4, q5, q6, q7)

  abbrev log_pieces : List Piece
  log_pieces =
      plain (codes "[")
      ∷ field 0
      ∷ plain (codes "] [")
      ∷ field 1
      ∷ plain (codes ":")
      ∷ field 2
      ∷ plain (codes "] [")
      ∷ field 3
      ∷ plain (codes ":")
      ∷ field 4
      ∷ plain (codes ":")
      ∷ field 5
      ∷ plain (codes "] ")
      ∷ field 6
      ∷ []

  -- The message line of seven texts.
  abbrev pub log_line : Bytes → Bytes → Bytes → Bytes → Bytes → Bytes → Bytes → Bytes
  log_line c p t f i n m =
      codes "["
      ++ (c
          ++ (codes "] ["
              ++ (p
                  ++ (codes ":"
                      ++ (t
                          ++ (codes "] ["
                              ++ (f
                                  ++ (codes ":"
                                      ++ (i ++ (codes ":" ++ (n ++ (codes "] " ++ m))))))))))))

  format-log_line :
      FormatsFields h
      → (c p t f i n m : Bytes)
      → h.format log_pattern (c ∷ p ∷ t ∷ f ∷ i ∷ n ∷ m ∷ []) ≡ log_line c p t f i n m
  format-log_line ff c p t f i n m =
      ff.by_number log_pieces (c ∷ p ∷ t ∷ f ∷ i ∷ n ∷ m ∷ []) refl
      ∙ ap (log_line c p t f i n) (append-nil m)

  from_json_success :
      (text : Bytes) (calls : ℕ) (json : h.Json) (found : Option ℤ) (level : ℤ) (message : Bytes)
      → h.parse text ≡ ok json
      → find_time h json ≡ ok found
      → find_level h json ≡ ok level
      → find_message h json ≡ ok message
      → from_json h text calls ≡ (
        ok (record {
          time = elim found [ none ↦ h.now calls | some t ↦ t ];
          level = level;
          message = message;
        }),
        elim found [ none ↦ suc calls | some t ↦ calls ],
      )
  unfolding from_json
  from_json_success text calls json none level message e1 e2 e3 e4 = rw (e1, from_json, e2, e3, e4)
  from_json_success text calls json (some t) level message e1 e2 e3 e4 =
      rw (e1, from_json, e2, e3, e4)

  pub from_json-fields :
      FormatsFields h
      → (text : Bytes) (calls : ℕ) (json : h.Json) (found : Option ℤ) (level : ℤ)
        (c p t f i n m : Bytes)
      → h.parse text ≡ ok json
      → find_time h json ≡ ok found
      → find_level h json ≡ ok level
      → find_string h json (codes "c") ≡ ok c
      → find_string h json (codes "p") ≡ ok p
      → find_string h json (codes "t") ≡ ok t
      → find_string h json (codes "f") ≡ ok f
      → find_string h json (codes "i") ≡ ok i
      → find_string h json (codes "n") ≡ ok n
      → find_string h json (codes "m") ≡ ok m
      → from_json h text calls ≡ (
        ok (record {
          time = elim found [ none ↦ h.now calls | some t ↦ t ];
          level = level;
          message = log_line c p t f i n m;
        }),
        elim found [ none ↦ suc calls | some t ↦ calls ],
      )
  from_json-fields ff text calls json found level c p t f i n m e1 e2 e3 q1 q2 q3 q4 q5 q6 q7 =
      from_json_success text calls json found level _ e1 e2 e3 (
        rw (← format-log_line ff c p t f i n m)
          (find_message_lem json c p t f i n m q1 q2 q3 q4 q5 q6 q7))

  find_string_absent :
      (json : h.Json) (key : Bytes) → h.find json key ≡ none → find_string h json key ≡ ok []
  unfolding find_string
  find_string_absent json key e = rw (e, find_string)

  -- A log with no field at all, `{}`: the clock, the level `trace`, and the empty message line.
  from_json_empty :
      FormatsFields h
      → (text : Bytes) (calls : ℕ) (json : h.Json) → h.parse text ≡ ok json
      → ((key : Bytes) → h.find json key ≡ none)
      → from_json h text calls ≡ (
        ok (record { time = h.now calls; level = h.trace; message = codes "[] [:] [::] " }),
        suc calls,
      )
  unfolding find_time find_level
  from_json_empty ff text calls json e absent =
      from_json-fields ff text calls json none h.trace [] [] [] [] [] [] [] e
        (rw (absent (codes "s"), find_time)) (rw (absent (codes "l"), find_level))
        (no_string (codes "c")) (no_string (codes "p")) (no_string (codes "t"))
        (no_string (codes "f")) (no_string (codes "i")) (no_string (codes "n"))
        (no_string (codes "m"))
    where
      no_string : (key : Bytes) → find_string h json key ≡ ok []
      no_string key = find_string_absent json key (absent key)
