-- ===== src/Session/Reads.antt =====
-- How often a session asks for bytes, and what it hands on.
use scriptor.Prelude.{
  ℕ, zero, suc, ◌≤◌, ◌≡◌, ◌≢◌, refl, sym, subst, ◌∙◌, List, [], ◌∷◌, ◌++◌, length, length-append,
  length-drop, drop, take-append, Bytes, All, arith,
}
use scriptor.Host.{Host}
use scriptor.Element.{Element}
use scriptor.Processor.{process}
use scriptor.Socket.{async_read_some, answered, Completion, failed, completed}
use scriptor.Session.{Session, buffer_size, fill, Pushes, push_some, on_read, run_session}

module _ (h : Host) where
  -- The processor sees the received bytes and nothing of what stood in the buffer before.
  pub on_read_completed :
      (s : Session) (received : Bytes) (calls : ℕ)
      → on_read h s (completed received) calls ≡ (
        (
          push_some (process h s.processor received calls).0.0,
          record s {
            buffer = fill s.buffer received;
            processor = (process h s.processor received calls).0.1;
            socket = async_read_some (answered s.socket);
          },
        ),
        (process h s.processor received calls).1,
      )
  unfolding on_read
  on_read_completed s received calls = rw (take-append received (drop (length received) s.buffer))

  -- At most one read is pending, and what is handed on is never empty.
  abbrev pub Orderly : (Pushes × Session) × ℕ → Type 0
  Orderly r = All (λ es. es ≢ []) r.0.0 × (r.0.1.socket.pending ≤ 1)

  push_some-NonEmpty : (es : List Element) → All (λ es. es ≢ []) (push_some es)
  push_some-NonEmpty [] = tt
  push_some-NonEmpty (e ∷ es) = (λ q. cc, tt)

  NonEmpty-append :
      (ps qs : Pushes)
      → All (λ es. es ≢ []) ps
      → All (λ es. es ≢ []) qs
      → All (λ es. es ≢ []) (ps ++ qs)
  NonEmpty-append [] qs hp hq = hq
  NonEmpty-append (p ∷ ps) qs hp hq = (hp.0, NonEmpty-append ps qs hp.1 hq)

  on_read-Orderly :
      (s : Session) (c : Completion) (calls : ℕ)
      → s.socket.pending ≤ 1
      → Orderly (on_read h s c calls)
  on_read-Orderly s failed calls le = unfold on_read in (tt, omega arith)
  on_read-Orderly s (completed received) calls le =
      rw (on_read_completed s received calls) (push_some-NonEmpty _, omega arith)

  pub run_session_gone :
      (s : Session) (cs : List Completion) (calls : ℕ)
      → s.socket.pending ≡ 0
      → run_session h s cs calls ≡ (([], s), calls)
  unfolding run_session
  run_session_gone s [] calls e = refl
  run_session_gone s (c ∷ cs) calls e = ground arith

  -- The pushes of a first completion, and then the rest of a session's life.
  abbrev pub and_then : (Pushes × Session) × ℕ → (Pushes × Session) × ℕ → (Pushes × Session) × ℕ
  and_then r t = ((r.0.0 ++ t.0.0, t.0.1), t.1)

  pub run_session_next :
      (s : Session) (c : Completion) (cs : List Completion) (calls n : ℕ)
      → s.socket.pending ≡ suc n
      → run_session h s (c ∷ cs) calls
        ≡ and_then
            (on_read h s c calls)
            (run_session h (on_read h s c calls).0.1 cs (on_read h s c calls).1)
  unfolding run_session
  run_session_next s c cs calls n e = ground arith

  -- A session with at most one read pending keeps at most one, whatever asio reports and in
  -- whatever number, and none of the batches that it hands on is empty.
  run_session-Orderly :
      (n : ℕ) (s : Session) (cs : List Completion) (calls : ℕ)
      → s.socket.pending ≡ n
      → n ≤ 1
      → Orderly (run_session h s cs calls)
  run_session-Orderly n s [] calls e le = unfold run_session in (tt, omega arith)
  run_session-Orderly zero s (c ∷ cs) calls e le =
      rw (run_session_gone s (c ∷ cs) calls e) (tt, omega arith)
  run_session-Orderly (suc n) s (c ∷ cs) calls e le =
      let t : Session = (on_read h s c calls).0.1 in
      let first = on_read-Orderly s c calls (omega arith) in
      let rest = run_session-Orderly t.socket.pending t cs (on_read h s c calls).1 refl first.1 in
      rw (run_session_next s c cs calls n e) (NonEmpty-append _ _ first.0 rest.0, rest.1)

  length-fill :
      (buffer received : Bytes)
      → length received ≤ length buffer
      → length (fill buffer received) ≡ length buffer
  unfolding fill
  length-fill buffer received le = omega (
    arith,
    length-append received (drop (length received) buffer),
    length-drop (length received) buffer,
  )

  -- asio writes no more than the `n` bytes that it was given.
  abbrev pub FitsIn : ℕ → Completion → Type 0
  FitsIn n failed = Unit
  FitsIn n (completed received) = length received ≤ n

  length-on_read :
      (s : Session) (c : Completion) (calls : ℕ)
      → FitsIn (length s.buffer) c
      → length (on_read h s c calls).0.1.buffer ≡ length s.buffer
  length-on_read s failed calls fit = unfold on_read in refl
  length-on_read s (completed received) calls fit =
      rw (on_read_completed s received calls) (length-fill s.buffer received fit)

  -- If asio never reports more bytes than it was given room for, `m_buffer` keeps its 1024
  -- characters over any sequence of reads.
  length-run_session :
      (cs : List Completion) (s : Session) (calls : ℕ)
      → length s.buffer ≡ buffer_size
      → All (FitsIn buffer_size) cs
      → length (run_session h s cs calls).0.1.buffer ≡ buffer_size
  length-run_session cs s calls e fit = rounds cs s.socket.pending s calls refl e fit
    where
      rounds :
          (cs : List Completion) (n : ℕ) (s : Session) (calls : ℕ)
          → s.socket.pending ≡ n
          → length s.buffer ≡ buffer_size
          → All (FitsIn buffer_size) cs
          → length (run_session h s cs calls).0.1.buffer ≡ buffer_size
      rounds [] n s calls p e fit = unfold run_session in e
      rounds (c ∷ cs) zero s calls p e fit = rw (run_session_gone s (c ∷ cs) calls p) e
      rounds (c ∷ cs) (suc n) s calls p e fit = rw (run_session_next s c cs calls n p) (
          rounds cs _ (on_read h s c calls).0.1 (on_read h s c calls).1 refl
            (length-on_read s c calls (subst (λ k. FitsIn k c) (sym e) fit.0) ∙ e) fit.1)
