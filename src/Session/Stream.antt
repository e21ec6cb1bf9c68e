-- ===== src/Session/Stream.antt =====
-- A session over its whole life: the byte stream goes in, and the elements come out.
use scriptor.Prelude.{
  ℕ, suc, ◌≡◌, refl, sym, ap, ◌∙◌, none, List, [], ◌∷◌, ◌++◌, map, append-nil, append_assoc, concat,
  concat-append, Bytes, arith,
}
use scriptor.Host.{Host}
use scriptor.Element.{Element}
use scriptor.Processor.{first_frame, Processor, process}
use scriptor.Processor.Drain.{Drained, drain_stop, drain}
use scriptor.Processor.Stream.{process_lem, process_cut, process-append}
use scriptor.Socket.{async_read_some, answered, Completion, failed, completed}
use scriptor.Session.{Session, fill, Pushes, push_some, on_read, run_session}
use scriptor.Session.Reads.{on_read_completed, run_session_gone, run_session_next, and_then}

concat-push_some : (es : List Element) → concat (push_some es) ≡ es
concat-push_some [] = refl
concat-push_some (e ∷ es) = append-nil (e ∷ es)

module _ (h : Host) where
  process_nothing :
      (p : Processor) (calls : ℕ)
      → first_frame p.current ≡ none
      → process h p [] calls ≡ (([], p), calls)
  process_nothing p calls e =
      process_lem h p [] calls
      ∙ ap (λ (r : Drained). ((r.0, record { current = r.1 }), r.2))
          (ap (λ l. drain h l calls) (append-nil p.current) ∙ drain_stop h p.current calls e)

  -- What a session has handed on, its processor, and the readings of the clock.
  abbrev Outcome : Type 0
  Outcome = (List Element × Processor) × ℕ

  abbrev pub outcome : (Pushes × Session) × ℕ → Outcome
  outcome r = ((concat r.0.0, r.0.1.processor), r.1)

  outcome-and_then :
      (es : List Element) (t : Session) (calls : ℕ) (r : (Pushes × Session) × ℕ)
      → outcome (and_then h ((push_some es, t), calls) r)
        ≡ ((es ++ (outcome r).0.0, (outcome r).0.1), (outcome r).1)
  outcome-and_then es t calls ((ps, u), calls') =
      ap (λ (l : List Element). ((l, u.processor), calls'))
        (concat-append (push_some es) ps ∙ ap (λ l. l ++ concat ps) (concat-push_some es))

  -- The session after a first read of the bytes `c`.
  abbrev after : Session → Bytes → ℕ → Session
  after s c calls = record s {
    buffer = fill s.buffer c;
    processor = (process h s.processor c calls).0.1;
    socket = async_read_some (answered s.socket);
  }

  run_session_received :
      (s : Session) (c : Bytes) (cs : List Completion) (calls n : ℕ)
      → s.socket.pending ≡ suc n
      → run_session h s (completed c ∷ cs) calls
        ≡ and_then h
            (
              (push_some (process h s.processor c calls).0.0, after s c calls),
              (process h s.processor c calls).1,
            )
            (run_session h (after s c calls) cs (process h s.processor c calls).1)
  run_session_received s c cs calls n e =
      run_session_next h s (completed c) cs calls n e
      ∙ ap (λ r. and_then h r (run_session h r.0.1 cs r.1)) (on_read_completed h s c calls)

  -- However the network splits the bytes of a client into reads, the session hands on the elements
  -- of the whole stream, in order and each once, and one read stays pending.
  pub run_session-stream :
      (chunks : List Bytes) (s : Session) (calls : ℕ)
      → s.socket.pending ≡ 1
      → first_frame s.processor.current ≡ none
      → (outcome (run_session h s (map completed chunks) calls)
          ≡ process h s.processor (concat chunks) calls)
        × ((run_session h s (map completed chunks) calls).0.1.socket.pending ≡ 1)
  run_session-stream [] s calls e idle =
      unfold run_session in (sym (process_nothing s.processor calls idle), e)
  run_session-stream (c ∷ cs) s calls e idle =
      let a = process h s.processor c calls in
      let (rest, pending) =
        run_session-stream cs (after s c calls) a.1 (omega arith)
          (process_cut h s.processor c calls).4 in
      let first = run_session_received s c (map completed cs) calls 0 e in
      (
        ap outcome first
            ∙ (outcome-and_then a.0.0 (after s c calls) a.1
                  (run_session h (after s c calls) (map completed cs) a.1)
                ∙ (ap (λ (o : (List Element × Processor) × ℕ). ((a.0.0 ++ o.0.0, o.0.1), o.1)) rest
                    ∙ sym (process-append h s.processor c (concat cs) calls))),
        ap (λ (r : (Pushes × Session) × ℕ). r.0.1.socket.pending) first ∙ pending,
      )

  run_session_failed :
      (s : Session) (cs : List Completion) (calls : ℕ)
      → s.socket.pending ≡ 1
      → run_session h s (failed ∷ cs) calls ≡ (([], record s { socket = answered s.socket }), calls)
  run_session_failed s cs calls e =
      run_session_next h s failed cs calls 0 e
      ∙ unfold on_read in
        ap (and_then h (([], record s { socket = answered s.socket }), calls))
          (run_session_gone h (record s { socket = answered s.socket }) cs calls (omega arith))

  and_then_assoc :
      (r t u : (Pushes × Session) × ℕ)
      → and_then h r (and_then h t u) ≡ and_then h (and_then h r t) u
  and_then_assoc r t u =
      ap (λ (ps : Pushes). ((ps, u.0.1), u.1)) (sym (append_assoc r.0.0 t.0.0 u.0.0))

  run_session-append :
      (chunks : List Bytes) (s : Session) (cs : List Completion) (calls : ℕ)
      → s.socket.pending ≡ 1
      → let r = run_session h s (map completed chunks) calls in
        run_session h s (map completed chunks ++ cs) calls
        ≡ and_then h r (run_session h r.0.1 cs r.1)
  run_session-append [] s cs calls e = unfold run_session in refl
  run_session-append (c ∷ chunks) s cs calls e =
      let a = process h s.processor c calls in
      let first : (Pushes × Session) × ℕ = ((push_some a.0.0, after s c calls), a.1) in
      let r = run_session h (after s c calls) (map completed chunks) a.1 in
      run_session_received s c (map completed chunks ++ cs) calls 0 e
      ∙ (ap (and_then h first) (run_session-append chunks (after s c calls) cs a.1 (omega arith))
          ∙ (and_then_assoc first r (run_session h r.0.1 cs r.1)
              ∙ sym (
                  ap (λ u. and_then h u (run_session h u.0.1 cs u.1))
                    (run_session_received s c (map completed chunks) calls 0 e))))

  -- The life of a connection, for a session with one read pending and no whole frame in its
  -- processor: reads that deliver bytes in any pieces, a read that fails, and whatever asio might
  -- report after that. The session hands on just the elements that the processor returns for all
  -- the bytes at once, and it has no read pending at the end.
  pub run_session_life :
      (chunks : List Bytes) (s : Session) (cs : List Completion) (calls : ℕ)
      → s.socket.pending ≡ 1
      → first_frame s.processor.current ≡ none
      → let r = run_session h s (map completed chunks ++ (failed ∷ cs)) calls in
        (outcome r ≡ process h s.processor (concat chunks) calls) × (r.0.1.socket.pending ≡ 0)
  run_session_life chunks s cs calls e idle =
      let (stream, pending) = run_session-stream chunks s calls e idle in
      let r = run_session h s (map completed chunks) calls in
      let split =
        run_session-append chunks s (failed ∷ cs) calls e
        ∙ ap (and_then h r) (run_session_failed r.0.1 cs r.1 pending) in
      (
        ap outcome split
            ∙ (ap (λ (l : Pushes). ((concat l, r.0.1.processor), r.1)) (append-nil r.0.0) ∙ stream),
        ap (λ (u : (Pushes × Session) × ℕ). u.0.1.socket.pending) split ∙ omega (arith, pending),
      )
