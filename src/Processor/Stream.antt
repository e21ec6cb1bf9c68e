-- ===== src/Processor/Stream.antt =====
-- What `Processor::operator()` makes of the byte stream: which bytes become frames, in which
-- order, and what stays in the buffer.
use scriptor.Prelude.{
  ℕ, ◌≡◌, refl, sym, ap, ◌∙◌, none, some, List, [], ◌∷◌, ◌++◌, append_assoc, Bytes, All,
}
use scriptor.Host.{Host}
use scriptor.Element.{Element}
use scriptor.Processor.{start, end, first_frame, Processor, decode, process}
use scriptor.Processor.Frames.{Lacks, frame, first_frame-split, first_frame-first, find_byte-none}
use scriptor.Processor.Drain.{
  Drained, prepend, drain, drain_stop, drain_more, drain_induction, drain_ends, drain-append,
}

-- Frames on the wire: each with the bytes that are skipped in front of it, and its body.
abbrev pub wire : List (Bytes × Bytes) → Bytes
wire [] = []
wire ((skipped, body) ∷ cuts) = skipped ++ (frame body ++ wire cuts)

abbrev pub AreCuts : List (Bytes × Bytes) → Type 0
AreCuts = All (λ cut. Lacks start cut.0 × Lacks end cut.1)

abbrev empty_buffer : Processor
empty_buffer = record { current = [] }

inner_frame :
    (body rest : Bytes)
    → Lacks end body
    → first_frame (frame (body ++ (end ∷ rest))) ≡ some (frame body, rest ++ (end ∷ []))
inner_frame body rest lacks =
    ap (λ l. first_frame (start ∷ l))
      (append_assoc body (end ∷ rest) (end ∷ [])
        ∙ sym (append_assoc body (end ∷ []) (rest ++ (end ∷ []))))
    ∙ first_frame-first [] body (rest ++ (end ∷ [])) tt lacks

module _ (h : Host) where
  -- One element for each frame, in order.
  abbrev pub decode_cuts : List (Bytes × Bytes) → ℕ → List Element × ℕ
  decode_cuts [] calls = ([], calls)
  decode_cuts ((skipped, body) ∷ cuts) calls =
      let (element, calls') = decode h (frame body) calls in
      let (elements, calls'') = decode_cuts cuts calls' in (element ∷ elements, calls'')

  pub process_lem :
      (p : Processor) (received : Bytes) (calls : ℕ)
      → process h p received calls ≡ (
        (
          (drain h (p.current ++ received) calls).0,
          record { current = (drain h (p.current ++ received) calls).1 },
        ),
        (drain h (p.current ++ received) calls).2,
      )
  unfolding process drain
  process_lem p received calls = refl

  drain-wire :
      (cuts : List (Bytes × Bytes)) (tail : Bytes) (calls : ℕ)
      → AreCuts cuts
      → first_frame tail ≡ none
      → drain h (wire cuts ++ tail) calls
        ≡ ((decode_cuts cuts calls).0, tail, (decode_cuts cuts calls).1)
  drain-wire [] tail calls lacks e = drain_stop h tail calls e
  drain-wire ((skipped, body) ∷ cuts) tail calls lacks e =
      ap (λ l. drain h l calls)
        (append_assoc skipped (frame body ++ wire cuts) tail
          ∙ ap (λ l. skipped ++ l) (append_assoc (frame body) (wire cuts) tail))
      ∙ (drain_more h _ calls (frame body) (wire cuts ++ tail)
            (first_frame-first skipped body (wire cuts ++ tail) lacks.0.0 lacks.0.1)
          ∙ ap (prepend ((decode h (frame body) calls).0 ∷ []))
              (drain-wire cuts tail (decode h (frame body) calls).1 lacks.1 e))

  -- With an empty buffer: a stream of frames whose bodies have no `}`, with bytes other than `{`
  -- in front of each and a tail that holds no frame, is cut into just these frames. There is one
  -- element for each, in order, and the tail stays in the buffer.
  pub process-wire :
      (cuts : List (Bytes × Bytes)) (tail : Bytes) (calls : ℕ)
      → AreCuts cuts
      → first_frame tail ≡ none
      → process h (record { current = [] }) (wire cuts ++ tail) calls
        ≡ (((decode_cuts cuts calls).0, record { current = tail }), (decode_cuts cuts calls).1)
  process-wire cuts tail calls lacks e =
      process_lem (record { current = [] }) (wire cuts ++ tail) calls
      ∙ ap (λ (r : Drained). ((r.0, record { current = r.1 }), r.2))
          (drain-wire cuts tail calls lacks e)

  -- The bytes are frames and skipped bytes, and the elements are those of the frames.
  abbrev pub Cut : Bytes → ℕ → Drained → Type 0
  Cut current calls r =
      (cuts : List (Bytes × Bytes)) × AreCuts cuts
      × (current ≡ wire cuts ++ r.1)
      × ((r.0, r.2) ≡ decode_cuts cuts calls)

  Cut-more :
      (current : Bytes) (calls : ℕ) (text beyond : Bytes) (r : Drained)
      → first_frame current ≡ some (text, beyond)
      → Cut beyond (decode h text calls).1 r
      → Cut current calls (prepend ((decode h text calls).0 ∷ []) r)
  Cut-more current calls text beyond r e (cuts, lacks, split, made) =
      let (skipped, body, is_frame, at, hs, hb) = first_frame-split current e in
      (
        (skipped, body) ∷ cuts,
        ((hs, hb), lacks),
        at
            ∙ (ap (λ b. skipped ++ (frame body ++ b)) split
                ∙ sym (
                    append_assoc skipped (frame body ++ wire cuts) r.1
                    ∙ ap (λ l. skipped ++ l) (append_assoc (frame body) (wire cuts) r.1))),
        ap (λ (q : List Element × ℕ). ((decode h text calls).0 ∷ q.0, q.1)) made
            ∙ ap
                (λ t. (
                  (decode h t calls).0 ∷ (decode_cuts cuts (decode h t calls).1).0,
                  (decode_cuts cuts (decode h t calls).1).1,
                ))
                is_frame,
      )

  drain-Cut : (current : Bytes) (calls : ℕ) → Cut current calls (drain h current calls)
  drain-Cut =
      drain_induction h Cut (λ current calls e. ([], tt, refl, refl))
        (λ current calls text beyond r e ih. Cut-more current calls text beyond r e ih)

  pub process_cut :
      (p : Processor) (received : Bytes) (calls : ℕ)
      → let ((elements, q), calls') = process h p received calls in
        (cuts : List (Bytes × Bytes)) × AreCuts cuts
        × (p.current ++ received ≡ wire cuts ++ q.current)
        × ((elements, calls') ≡ decode_cuts cuts calls)
        × (first_frame q.current ≡ none)
  unfolding process drain
  process_cut p received calls =
      let (cuts, lacks, split, made) = drain-Cut (p.current ++ received) calls in
      (cuts, lacks, split, made, drain_ends h (p.current ++ received) calls)

  -- It makes no difference how the bytes are split into calls: two calls return together what
  -- one call with all the bytes returns, leave the same buffer and read the clock as often.
  pub process-append :
      (p : Processor) (a b : Bytes) (calls : ℕ)
      → let ((es, q), calls') = process h p a calls in
        let ((fs, r), calls'') = process h q b calls' in
        process h p (a ++ b) calls ≡ ((es ++ fs, r), calls'')
  unfolding process drain
  process-append p a b calls =
      ap (λ (r : Drained). ((r.0, record { current = r.1 }), r.2))
        (ap (λ l. drain h l calls) (sym (append_assoc p.current a b))
          ∙ drain-append h (p.current ++ a) calls b)

  -- Where neither the buffer nor the new bytes hold a `{`, all the bytes are kept in the buffer
  -- and nothing is returned.
  process_noise :
      (p : Processor) (received : Bytes) (calls : ℕ)
      → Lacks start (p.current ++ received)
      → process h p received calls ≡ (([], record { current = p.current ++ received }), calls)
  unfolding process drain
  process_noise p received calls lacks =
      ap (λ (r : Drained). ((r.0, record { current = r.1 }), r.2))
        (drain_stop h (p.current ++ received) calls (
          unfold first_frame in
          rw (find_byte-none start (p.current ++ received) lacks, first_frame)))

  -- With an empty buffer: the first element for a text with a `}` before its last one, as in a
  -- message with a brace or in a nested object, is decoded from the text up to the first `}` only.
  process_inner_brace :
      (body rest : Bytes) (calls : ℕ)
      → Lacks end body
      → (elements : List Element) × ((process h
            (record { current = [] })
            (frame (body ++ (end ∷ rest)))
            calls).0.0
          ≡ (decode h (frame body) calls).0 ∷ elements)
  unfolding process drain
  process_inner_brace body rest calls lacks = (
    (drain h (rest ++ (end ∷ [])) (decode h (frame body) calls).1).0,
    ap (λ (r : Drained). r.0)
        (drain_more h (frame (body ++ (end ∷ rest))) calls (frame body) (rest ++ (end ∷ []))
          (inner_frame body rest lacks)),
  )
