-- ===== src/Host.antt =====
-- What scriptor calls and does not implement, as one parameter of the model.
-- nlohmann/json (`parse` to `get_double`), fmt (`format`), the enumerators of
-- `spdlog::level::level_enum` by their integers, and of the standard library what depends on
-- floating point and on the clock: `std::stod`, the cast of seconds to whole microseconds, the
-- time point of a count of microseconds, and the readings of `log_clock::now()` in the order
-- in which the thread makes them.
use scriptor.Prelude.{
  zero, suc, ◌+◌, not, ◌&&◌, ◌==◌, ltb, length, ℕ, ◌≡◌, Bool, true, Option, List, [], ◌∷◌, ◌++◌, ℤ,
  pos, leb_int, ltb_int, Bytes, codes, Result,
}

pub record Host : Type 1 where
  pub Json : Type 0
  pub Double : Type 0
  -- `json::parse` of a range of characters
  pub parse : Bytes → Result Json
  -- `data.find(key)`; `none` is `data.end()`
  pub find : Json → Bytes → Option Json
  pub is_null : Json → Bool
  pub is_number : Json → Bool
  pub is_string : Json → Bool
  pub get_string : Json → Result Bytes
  pub get_int64 : Json → Result ℤ
  pub get_int : Json → Result ℤ
  pub get_double : Json → Result Double
  -- `fmt::format(pattern, arguments...)`, all arguments strings
  pub format : Bytes → List Bytes → Bytes
  pub trace : ℤ
  pub critical : ℤ
  pub n_levels : ℤ
  pub stod : Bytes → Result Double
  -- `duration_cast<microseconds>(duration<double>{value}).count()`
  pub microseconds : Double → ℤ
  -- `time_point{microseconds{count}}`, in ticks of the clock
  pub time_point : ℤ → ℤ
  pub now : ℕ → ℤ

abbrev pub log_pattern : Bytes
log_pattern = codes "[{0}] [{1}:{2}] [{3}:{4}:{5}] {6}"

abbrev pub parse_error_pattern : Bytes
parse_error_pattern = codes "Scriptor Json Parse Error: {}"

-- A part of a format string: text without a brace, or the replacement field `{n}`.
pub data Piece : Type 0 where
  plain : Bytes → Piece
  field : ℕ → Piece

abbrev pub is_plain : Bytes → Bool
is_plain [] = true
is_plain (c ∷ cs) = not (c == 123) && (not (c == 125) && is_plain cs)

-- The fields have one digit, and name one of so many arguments.
abbrev pub fits : ℕ → List Piece → Bool
fits n [] = true
fits n (plain t ∷ pieces) = is_plain t && fits n pieces
fits n (field i ∷ pieces) = ltb i 10 && (ltb i n && fits n pieces)

abbrev pub pattern_of : List Piece → Bytes
pattern_of [] = []
pattern_of (plain t ∷ pieces) = t ++ pattern_of pieces
pattern_of (field i ∷ pieces) = 123 ∷ (48 + i) ∷ 125 ∷ pattern_of pieces

abbrev pub argument : ℕ → List Bytes → Bytes
argument i [] = []
argument zero (a ∷ rest) = a
argument (suc i) (a ∷ rest) = argument i rest

abbrev pub filled : List Bytes → List Piece → Bytes
filled args [] = []
filled args (plain t ∷ pieces) = t ++ filled args pieces
filled args (field i ∷ pieces) = argument i args ++ filled args pieces

-- The documented rules of `fmt::format`: text is copied, `{n}` is replaced by the argument `n`, and
-- a single `{}` by the only argument.
pub record FormatsFields (h : Host) : Type 0 where
  pub by_number :
      (pieces : List Piece) (args : List Bytes)
      → fits (length args) pieces ≡ true
      → h.format (pattern_of pieces) args ≡ filled args pieces
  pub in_turn :
      (before behind arg : Bytes)
      → is_plain before ≡ true
      → is_plain behind ≡ true
      → h.format (before ++ (codes "{}" ++ behind)) (arg ∷ []) ≡ before ++ (arg ++ behind)

-- The order of the enumerators: `trace` comes first, `critical` and then `n_levels` after it.
pub record OrdersLevels (h : Host) : Type 0 where
  pub trace_lt : ltb_int h.trace h.n_levels ≡ true
  pub trace_self : leb_int h.trace h.trace ≡ true
  pub trace_le_critical : leb_int h.trace h.critical ≡ true
  pub critical_lt : ltb_int h.critical h.n_levels ≡ true

-- spdlog's enumeration: `trace` is 0, `critical` 5, `off` 6, and `n_levels` counts them.
pub record NumbersLevels (h : Host) : Type 0 where
  pub trace_zero : h.trace ≡ pos 0
  pub critical_five : h.critical ≡ pos 5
  pub n_levels_seven : h.n_levels ≡ pos 7
