-- ===== src/Processor/Drain.antt =====
-- The loop over the buffer ends by its test, and cuts alike however the bytes arrive.
use scriptor.Prelude.{
  ℕ, zero, suc, ◌<◌, ◌≡◌, refl, sym, ap, ◌∙◌, inl, inr, none, some, List, [], ◌∷◌, ◌++◌, length,
  Option-cases, Bytes, arith,
}
use scriptor.Host.{Host}
use scriptor.Element.{Element}
use scriptor.Processor.{first_frame, decode, find_one, find_all}
use scriptor.Processor.Frames.{first_frame-append, first_frame-length}

-- The elements, the bytes left in the buffer, and the readings of the clock.
abbrev pub Drained : Type 0
Drained = List Element × Bytes × ℕ

abbrev pub prepend : List Element → Drained → Drained
prepend es (fs, rest, calls) = (es ++ fs, rest, calls)

module _ (h : Host) where
  find_all_stop :
      (f : ℕ) (current : Bytes) (calls : ℕ)
      → first_frame current ≡ none
      → find_all h f current calls ≡ ([], current, calls)
  unfolding find_all find_one
  find_all_stop zero current calls e = refl
  find_all_stop (suc f) current calls e = rw (e, find_one, find_all)

  find_all_more :
      (f : ℕ) (current : Bytes) (calls : ℕ) (text beyond : Bytes)
      → first_frame current ≡ some (text, beyond)
      → find_all h (suc f) current calls
        ≡ prepend ((decode h text calls).0 ∷ []) (find_all h f beyond (decode h text calls).1)
  unfolding find_all find_one
  find_all_more f current calls text beyond e = rw (e, find_one, find_all)

  find_all-fuel :
      (f g : ℕ) (current : Bytes) (calls : ℕ)
      → length current < f
      → length current < g
      → find_all h f current calls ≡ find_all h g current calls
  find_all-fuel zero g current calls p q = elim p [ ]
  find_all-fuel (suc f) zero current calls p q = elim q [ ]
  find_all-fuel (suc f) (suc g) current calls p q = elim (Option-cases (first_frame current)) [
    | inl e ↦ find_all_stop (suc f) current calls e ∙ sym (find_all_stop (suc g) current calls e)
    | inr ((text, beyond), e) ↦
        let shorter = first_frame-length current e in
        find_all_more f current calls text beyond e
        ∙ (ap (prepend ((decode h text calls).0 ∷ []))
              (find_all-fuel f g beyond (decode h text calls).1 (omega arith) (omega arith))
            ∙ sym (find_all_more g current calls text beyond e))
  ]

  -- The loop with the fuel that `process` gives it.
  unfoldable pub drain : Bytes → ℕ → Drained
  drain current calls = find_all h (suc (length current)) current calls

  pub drain_stop :
      (current : Bytes) (calls : ℕ)
      → first_frame current ≡ none
      → drain current calls ≡ ([], current, calls)
  unfolding drain
  drain_stop current calls e = find_all_stop _ current calls e

  pub drain_more :
      (current : Bytes) (calls : ℕ) (text beyond : Bytes)
      → first_frame current ≡ some (text, beyond)
      → drain current calls
        ≡ prepend ((decode h text calls).0 ∷ []) (drain beyond (decode h text calls).1)
  unfolding drain
  drain_more current calls text beyond e =
      find_all_more (length current) current calls text beyond e
      ∙ ap (prepend ((decode h text calls).0 ∷ []))
          (find_all-fuel _ _ beyond _ (first_frame-length current e) (omega arith))

  -- A statement about the loop holds if it holds without a frame, and passes from what stands
  -- beyond the first frame to the whole.
  module _ {κ} (P : Bytes → ℕ → Drained → Type κ)
      (stop : (current : Bytes) (calls : ℕ)
        → first_frame current ≡ none
        → P current calls ([], current, calls))
      (more : (current : Bytes) (calls : ℕ) (text beyond : Bytes) (r : Drained)
        → first_frame current ≡ some (text, beyond)
        → P beyond (decode h text calls).1 r
        → P current calls (prepend ((decode h text calls).0 ∷ []) r)) where
    drain_rounds :
        (n : ℕ) (current : Bytes) (calls : ℕ)
        → length current < n
        → P current calls (drain current calls)
    drain_rounds zero current calls p = elim p [ ]
    drain_rounds (suc n) current calls p = elim (Option-cases (first_frame current)) [
      | inl e ↦ rw (drain_stop current calls e) (stop current calls e)
      | inr ((text, beyond), e) ↦
          let shorter = first_frame-length current e in
          rw (drain_more current calls text beyond e) (
            more current calls text beyond _ e
              (drain_rounds n beyond (decode h text calls).1 (omega arith)))
    ]

    pub drain_induction : (current : Bytes) (calls : ℕ) → P current calls (drain current calls)
    drain_induction current calls = drain_rounds (suc (length current)) current calls (omega arith)

  -- Nothing that the loop leaves holds a frame: its fuel never runs out.
  pub drain_ends : (current : Bytes) (calls : ℕ) → first_frame (drain current calls).1 ≡ none
  drain_ends =
      drain_induction (λ current calls r. first_frame r.1 ≡ none) (λ current calls e. e)
        (λ current calls text beyond r e ih. ih)

  -- Bytes that arrive later are cut as if they had arrived at once.
  pub drain-append :
      (current : Bytes) (calls : ℕ) (more : Bytes)
      → drain (current ++ more) calls
        ≡ prepend
            (drain current calls).0
            (drain ((drain current calls).1 ++ more) (drain current calls).2)
  drain-append =
      drain_induction
        (λ current calls r.
          (more : Bytes) → drain (current ++ more) calls ≡ prepend r.0 (drain (r.1 ++ more) r.2))
        (λ current calls e more. refl)
        (λ current calls text beyond r e ih more.
          drain_more (current ++ more) calls text (beyond ++ more)
            (first_frame-append current more e)
          ∙ ap (prepend ((decode h text calls).0 ∷ [])) (ih more))
