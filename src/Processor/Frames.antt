-- ===== src/Processor/Frames.antt =====
-- Where `first_frame` cuts the buffer.
use scriptor.Prelude.{
  ℕ, ◌<◌, ◌≡◌, refl, sym, ap, ◌∙◌, inl, inr, false, none, some, [], ◌∷◌, ◌++◌, append_assoc, length,
  length-append, ◌==◌, ==_iff, ==_self, Option-cases, Bytes, All, arith,
}
use scriptor.Processor.{start, end, find_byte, first_frame}

-- The byte does not occur.
abbrev pub Lacks : ℕ → Bytes → Type 0
Lacks c = All (λ x. (x == c) ≡ false)

-- A search that succeeds splits the bytes at the first occurrence.
find_byte-split :
    (c : ℕ) (xs : Bytes) {before behind : Bytes}
    → find_byte c xs ≡ some (before, behind)
    → (xs ≡ before ++ (c ∷ behind)) × Lacks c before
unfolding find_byte
find_byte-split c [] h = cc
find_byte-split c (x ∷ xs) h = elim (Option-cases (find_byte c xs)) [
  | inl e ↦ ground (arith, ==_iff x c)
  | inr ((a, b), e) ↦ let (s, l) = find_byte-split c xs e in ground (arith, ==_iff x c)
]

find_byte-first :
    (c : ℕ) (before behind : Bytes)
    → Lacks c before
    → find_byte c (before ++ (c ∷ behind)) ≡ some (before, behind)
unfolding find_byte
find_byte-first c [] behind h = rw (==_self c)
find_byte-first c (x ∷ xs) behind h = rw (h.0, find_byte-first c xs behind h.1, find_byte)

pub find_byte-none : (c : ℕ) (xs : Bytes) → Lacks c xs → find_byte c xs ≡ none
unfolding find_byte
find_byte-none c [] h = refl
find_byte-none c (x ∷ xs) h = rw (h.0, find_byte-none c xs h.1, find_byte)

-- The bytes of a frame.
abbrev pub frame : Bytes → Bytes
frame body = start ∷ (body ++ (end ∷ []))

-- The first frame stands behind bytes with no `{`, and its body has no `}`.
pub first_frame-split :
    (current : Bytes) {text beyond : Bytes}
    → first_frame current ≡ some (text, beyond)
    → (skipped : Bytes) × (body : Bytes) × (text ≡ frame body)
      × (current ≡ skipped ++ (frame body ++ beyond))
      × Lacks start skipped
      × Lacks end body
unfolding first_frame
first_frame-split current h = elim (Option-cases (find_byte start current)) [
  | inl e ↦ absurd (ground arith)
  | inr ((skipped, inside), e) ↦ elim (Option-cases (find_byte end inside)) [
    | inl e' ↦ absurd (ground arith)
    | inr ((body, rest), e') ↦
        let (s, lacks_start) = find_byte-split start current e in
        let (s', lacks_end) = find_byte-split end inside e' in
        (
          skipped,
          body,
          ground arith,
          s
              ∙ (ap (λ l. skipped ++ (start ∷ l)) (s' ∙ sym (append_assoc body (end ∷ []) rest))
                  ∙ ap (λ l. skipped ++ (frame body ++ l)) (ground arith)),
          lacks_start,
          lacks_end,
        )
  ]
]

-- Whatever stands beyond it.
pub first_frame-first :
    (skipped body beyond : Bytes)
    → Lacks start skipped
    → Lacks end body
    → first_frame (skipped ++ (frame body ++ beyond)) ≡ some (frame body, beyond)
unfolding first_frame
first_frame-first skipped body beyond hs hb =
    rw (find_byte-first start skipped _ hs, first_frame)
      (rw (append_assoc body (end ∷ []) beyond, find_byte-first end body beyond hb))

framed-append :
    (skipped body beyond more : Bytes)
    → Lacks start skipped
    → Lacks end body
    → first_frame ((skipped ++ (frame body ++ beyond)) ++ more) ≡ some (frame body, beyond ++ more)
framed-append skipped body beyond more hs hb =
    ap first_frame (
      append_assoc skipped (frame body ++ beyond) more
      ∙ ap (λ l. skipped ++ l) (append_assoc (frame body) beyond more))
    ∙ first_frame-first skipped body (beyond ++ more) hs hb

-- More bytes behind the buffer do not change the first frame.
pub first_frame-append :
    (current more : Bytes) {text beyond : Bytes}
    → first_frame current ≡ some (text, beyond)
    → first_frame (current ++ more) ≡ some (text, beyond ++ more)
first_frame-append current more {beyond} h =
    let (skipped, body, is_frame, split, hs, hb) = first_frame-split current h in
    ap (λ l. first_frame (l ++ more)) split
    ∙ (framed-append skipped body beyond more hs hb
        ∙ ap (λ t. some (t, beyond ++ more)) (sym is_frame))

-- A frame takes at least two bytes.
pub first_frame-length :
    (current : Bytes) {text beyond : Bytes}
    → first_frame current ≡ some (text, beyond)
    → length beyond < length current
first_frame-length current {beyond} h =
    let (skipped, body, is_frame, split, hs, hb) = first_frame-split current h in
    omega (
      arith,
      ap length split,
      length-append skipped (frame body ++ beyond),
      length-append (frame body) beyond,
    )
