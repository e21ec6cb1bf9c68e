-- ===== src/Logger/Flush.antt =====
-- Whether what a logger has written is flushed.
use scriptor.Prelude.{
  ℕ, ◌+◌, ◌≡◌, refl, ap, ◌∙◌, Bool, true, false, List, [], ◌∷◌, ◌++◌, ℤ, if_cases, All, arith,
}
use scriptor.Element.{Element}
use scriptor.Logger.{
  SinkCall, log, flush, Worker, waiting, logging, exited, terminated, Logger, push, stop, leave,
  take_batch, log_one, end_batch, worker_turn, turn, Event, pushed, stopped, turned, step,
  run_logger,
}
use scriptor.Logger.Order.{IsQuiet}

-- The messages taken since the last flush, on top of `n` before the calls.
abbrev pub unflushed : ℕ → List SinkCall → ℕ
unflushed n [] = n
unflushed n (log m true ∷ cs) = unflushed n cs
unflushed n (log m false ∷ cs) = unflushed (n + 1) cs
unflushed n (flush true ∷ cs) = unflushed n cs
unflushed n (flush false ∷ cs) = unflushed 0 cs

unflushed-append :
    (n : ℕ) (cs ds : List SinkCall) → unflushed n (cs ++ ds) ≡ unflushed (unflushed n cs) ds
unflushed-append n [] ds = refl
unflushed-append n (log m true ∷ cs) ds = unflushed-append n cs ds
unflushed-append n (log m false ∷ cs) ds = unflushed-append (n + 1) cs ds
unflushed-append n (flush true ∷ cs) ds = unflushed-append n cs ds
unflushed-append n (flush false ∷ cs) ds = unflushed-append 0 cs ds

-- `count` in the worker's loop; nothing anywhere else.
abbrev pub owed : Worker → ℕ
owed waiting = 0
owed (logging es count) = count
owed exited = 0
owed terminated = 0

module _ (should_log : ℤ → Bool) where
  abbrev Settles : Logger → Logger × List SinkCall → Type 0
  Settles l r = unflushed (owed l.worker) r.1 ≡ owed r.0.worker

  leave-Settles : (l : Logger) → l.worker ≡ waiting → Settles l (leave l false)
  unfolding leave
  leave-Settles l w = refl

  take_batch-Settles :
      (l : Logger) (es : List Element) → l.worker ≡ waiting → Settles l (take_batch l es)
  unfolding take_batch
  take_batch-Settles l [] w = refl
  take_batch-Settles l (e ∷ es) w = ap owed w

  log_one-Settles :
      (l : Logger) (e : Element) (es : List Element) (count : ℕ)
      → l.worker ≡ logging (e ∷ es) count
      → Settles l (log_one should_log l e es count false)
  unfolding log_one
  log_one-Settles l e es count w = ground arith

  end_batch-Settles :
      (l : Logger) (count : ℕ)
      → l.worker ≡ logging [] count
      → Settles l (end_batch should_log l count false)
  unfolding end_batch
  end_batch-Settles l count w = ground arith

  worker_turn-Settles :
      (w : Worker) (l : Logger) → l.worker ≡ w → Settles l (worker_turn should_log w l false)
  unfolding worker_turn
  worker_turn-Settles waiting l e =
      if_cases (Settles l) l.done (λ d. leave-Settles l e) (λ d. take_batch-Settles l l.elements e)
  worker_turn-Settles (logging [] count) l e = end_batch-Settles l count e
  worker_turn-Settles (logging (x ∷ es) count) l e = log_one-Settles l x es count e
  worker_turn-Settles exited l e = refl
  worker_turn-Settles terminated l e = refl

  step-Settles : (l : Logger) (v : Event) → IsQuiet v → Settles l (step should_log l v)
  step-Settles l (pushed es) q = unfold step push in refl
  step-Settles l stopped q = unfold step stop in refl
  step-Settles l (turned t) q = unfold step turn in rw q (worker_turn-Settles l.worker l refl)

  -- While the sink does not throw, the messages that it has taken since its last flush are those
  -- that the worker has counted in the batch at hand, if that was so at the start. So all are
  -- flushed whenever the worker waits for work and when it has left.
  pub run_logger-unflushed :
      (vs : List Event) (l : Logger)
      → All IsQuiet vs
      → unflushed (owed l.worker) (run_logger should_log l vs).1
        ≡ owed (run_logger should_log l vs).0.worker
  unfolding run_logger
  run_logger-unflushed [] l q = refl
  run_logger-unflushed (v ∷ vs) l q =
      let (m, cs) = step should_log l v in
      let r = run_logger should_log m vs in
      unflushed-append (owed l.worker) cs r.1
      ∙ (ap (λ n. unflushed n r.1) (step-Settles l v q.0) ∙ run_logger-unflushed vs m q.1)
