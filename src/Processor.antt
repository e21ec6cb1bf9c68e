-- ===== src/Processor.antt =====
-- src/session.h and src/session.cpp, `Processor`: cutting the byte stream of a client into frames.
pub mod Frames
pub mod Drain
pub mod Stream
pub mod Elements
use scriptor.Prelude.{
  ℕ, zero, suc, ◌+◌, Option, none, some, List, [], ◌∷◌, ◌++◌, length, ◌==◌, if◌then◌else◌, Bytes,
  Result, ok, err,
}
use scriptor.Host.{Host, parse_error_pattern}
use scriptor.Element.{Element, Clocked, from_json}

abbrev pub start : ℕ
start = b'{'

abbrev pub end : ℕ
end = b'}'

-- `std::find`: what stands before the first `c`, and what stands behind it; `none` is `end()`.
unfoldable pub find_byte : ℕ → Bytes → Option (Bytes × Bytes)
find_byte c [] = none
find_byte c (x ∷ xs) =
    if x == c
    then some ([], xs)
    else elim (find_byte c xs) [ none ↦ none | some (before, behind) ↦ some (x ∷ before, behind) ]

-- The first frame of the buffer, braces included, and what stands beyond it.
unfoldable pub first_frame : Bytes → Option (Bytes × Bytes)
first_frame current = elim (find_byte start current) [
  | none ↦ none
  | some (skipped, inside) ↦ elim (find_byte end inside) [
    | none ↦ none
    | some (body, beyond) ↦ some (start ∷ (body ++ (end ∷ [])), beyond)
  ]
]

-- The member `m_current`.
pub record Processor : Type 0 where
  pub current : Bytes

module _ (h : Host) where
  -- The element for an exception of `from_json`, with a reading of the clock.
  recover : Result Element → Clocked Element
  recover (ok element) calls = (element, calls)
  recover (err what) calls = (
    record {
      time = h.now calls;
      level = h.critical;
      message = h.format parse_error_pattern (what ∷ []);
    },
    suc calls,
  )

  -- The `try` and `catch` of `find_one`.
  unfoldable pub decode : Bytes → Clocked Element
  unfolding recover
  decode frame calls = let (result, calls') = from_json h frame calls in recover result calls'

  -- The lambda `find_one`, with the bytes that it leaves in `m_current`.
  unfoldable pub find_one : Bytes → ℕ → Option (Element × Bytes × ℕ)
  find_one current calls = elim (first_frame current) [
    | none ↦ none
    | some (frame, beyond) ↦
        let (element, calls') = decode frame calls in some (element, beyond, calls')
  ]

  -- `while (auto&& e = find_one())`, for at most as many rounds as the fuel.
  unfoldable pub find_all : ℕ → Bytes → ℕ → List Element × Bytes × ℕ
  find_all zero current calls = ([], current, calls)
  find_all (suc fuel) current calls = elim (find_one current calls) [
    | none ↦ ([], current, calls)
    | some (element, beyond, calls') ↦
        let (elements, rest, calls'') = find_all fuel beyond calls' in
        (element ∷ elements, rest, calls'')
  ]

  -- `Processor::operator()`. A round takes two bytes or more out of the buffer.
  unfoldable pub process : Processor → Bytes → Clocked (List Element × Processor)
  process p received calls =
      let current = p.current ++ received in
      let (elements, rest, calls') = find_all (suc (length current)) current calls in
      ((elements, record { current = rest }), calls')
