-- ===== src/Element.antt =====
-- src/element.h and src/element.cpp: a log element, and how it is read from one JSON text.
pub mod Number
pub mod Equality
pub mod Fields
pub mod Nulls
pub mod Level
pub mod Accepted
pub mod Layout
use scriptor.Prelude.{
  ℕ, suc, ◌+◌, Bool, ◌&&◌, Option, none, some, List, [], ◌∷◌, ℤ, leb_int, ltb_int, eqb_int, ◌==◌,
  if◌then◌else◌, Bytes, codes, Result, ok, err, ◌>>=◌,
}
use scriptor.Host.{Host, log_pattern}
use Number.{to_string, stoi}

-- `time` in ticks of `log_clock`; `level` is the integer of the enumerator.
pub record Element : Type 0 where
  pub time : ℤ
  pub level : ℤ
  pub message : Bytes

bytes_eq : Bytes → Bytes → Bool
bytes_eq [] [] = Bool.true
bytes_eq [] (d ∷ ds) = Bool.false
bytes_eq (c ∷ cs) [] = Bool.false
bytes_eq (c ∷ cs) (d ∷ ds) = c == d && bytes_eq cs ds

-- `Element::operator==`
unfoldable pub element_eq : Element → Element → Bool
unfolding bytes_eq
element_eq a b = eqb_int a.time b.time && eqb_int a.level b.level && bytes_eq a.message b.message

-- A call that may read the clock: from the count of the readings made so far to the new count.
abbrev pub Clocked {ℓ} : Type ℓ → Type ℓ
Clocked A = ℕ → A × ℕ

module _ (h : Host) where
  -- What the lambda `find_string` makes of a value that it found.
  string_value : h.Json → Result Bytes
  string_value value =
      if h.is_null value
      then ok []
      else if h.is_number value
      then (do num ← h.get_int64 value; ok (to_string num))
      else h.get_string value

  -- The lambda `find_string`.
  unfoldable pub find_string : h.Json → Bytes → Result Bytes
  unfolding string_value
  find_string json token = elim (h.find json token) [
    | none ↦ ok []
    | some value ↦ string_value value
  ]

  -- The block for "s"; `none` asks for the clock.
  seconds_value : h.Json → Result (Option ℤ)
  seconds_value s = do
    value ← if h.is_string s then (do text ← h.get_string s; h.stod text) else h.get_double s
    ok (some (h.time_point (h.microseconds value)))

  unfoldable pub find_time : h.Json → Result (Option ℤ)
  unfolding seconds_value
  find_time json = elim (h.find json (codes "s")) [
    | none ↦ ok none
    | some s ↦ if h.is_null s then ok none else seconds_value s
  ]

  -- The range check on the integer of a level.
  unfoldable pub check_level : ℤ → ℤ
  check_level value = if leb_int h.trace value && ltb_int value h.n_levels then value else h.trace

  level_value : h.Json → Result ℤ
  unfolding check_level
  level_value l = do
    value ← if h.is_string l then (do text ← h.get_string l; stoi text) else h.get_int l
    ok (check_level value)

  -- The block for "l".
  unfoldable pub find_level : h.Json → Result ℤ
  unfolding level_value
  find_level json = elim (h.find json (codes "l")) [
    | none ↦ ok h.trace
    | some l ↦ if h.is_null l then ok h.trace else level_value l
  ]

  -- The call of `fmt::format`. C++ leaves the order of the seven lookups open; where more than
  -- one of them throws, this order fixes which exception it is.
  unfoldable pub find_message : h.Json → Result Bytes
  find_message json = do
    c ← find_string json (codes "c")
    p ← find_string json (codes "p")
    t ← find_string json (codes "t")
    f ← find_string json (codes "f")
    i ← find_string json (codes "i")
    n ← find_string json (codes "n")
    m ← find_string json (codes "m")
    ok (h.format log_pattern (c ∷ p ∷ t ∷ f ∷ i ∷ n ∷ m ∷ []))

  -- `time = log_clock::now()` reads the clock before the level is looked at.
  read_time : Option ℤ → Clocked ℤ
  read_time (some time) calls = (time, calls)
  read_time none calls = (h.now calls, suc calls)

  -- What follows the block for "s".
  finish : h.Json → ℤ → Result Element
  finish json time = do
    level ← find_level json
    message ← find_message json
    ok (record { time = time; level = level; message = message })

  -- What follows the call of `json::parse`.
  read_fields : h.Json → Result (Option ℤ) → Clocked (Result Element)
  unfolding read_time finish
  read_fields json (err e) calls = (err e, calls)
  read_fields json (ok found) calls =
      let (time, calls') = read_time found calls in (finish json time, calls')

  from_parsed : Result h.Json → Clocked (Result Element)
  unfolding read_fields
  from_parsed (err e) calls = (err e, calls)
  from_parsed (ok json) calls = read_fields json (find_time json) calls

  -- `Element::from_json(begin, end)`
  unfoldable pub from_json : Bytes → Clocked (Result Element)
  unfolding from_parsed
  from_json text calls = from_parsed (h.parse text) calls
