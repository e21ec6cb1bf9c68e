-- ===== src/Logger/Join.antt =====
-- The end of a logger: its destructor waits for the worker, and the worker leaves.
use scriptor.Prelude.{
  if_cases, List, ℕ, zero, suc, ◌+◌, ◌-◌, ◌≤◌, ◌≡◌, refl, ◌∙◌, Bool, true, [], ◌∷◌, ℤ, arith,
}
use scriptor.Element.{Element}
use scriptor.Logger.{
  SinkCall, take_batch, Worker, waiting, logging, exited, terminated, Logger, stop, leave, log_one,
  end_batch, worker_turn, turn, turns_left, join, destroy_logger,
}

-- The worker has left its loop, or it has ended the process.
abbrev pub HasEnded : Worker → Type 0
HasEnded waiting = ⊥
HasEnded (logging es count) = ⊥
HasEnded exited = Unit
HasEnded terminated = Unit

no_turns_left : (w : Worker) → turns_left w ≤ 0 → HasEnded w
no_turns_left waiting h = absurd (omega (arith, h))
no_turns_left (logging es count) h = absurd (omega (arith, h))
no_turns_left exited h = tt
no_turns_left terminated h = tt

module _ (should_log : ℤ → Bool) where
  -- A turn of a worker that is told to stop leaves it fewer turns, and the queue as it is.
  abbrev pub Nears : Logger → Logger → Type 0
  Nears l m =
      (m.done ≡ true) × (m.elements ≡ l.elements) × (turns_left m.worker ≤ turns_left l.worker - 1)

  worker_turn-Nears :
      (w : Worker) (l : Logger) (throws : Bool)
      → l.worker ≡ w
      → l.done ≡ true
      → Nears l (worker_turn should_log w l throws).0
  unfolding worker_turn leave log_one end_batch
  worker_turn-Nears waiting l throws e d = ground arith
  worker_turn-Nears (logging [] count) l throws e d = ground arith
  worker_turn-Nears (logging (x ∷ es) count) l throws e d = ground arith
  worker_turn-Nears exited l throws e d = ground arith
  worker_turn-Nears terminated l throws e d = ground arith

  join-HasEnded :
      (fuel : ℕ) (throws : ℕ → Bool) (i : ℕ) (l : Logger)
      → l.done ≡ true
      → turns_left l.worker ≤ fuel
      → HasEnded (join should_log fuel throws i l).0.worker
        × ((join should_log fuel throws i l).0.elements ≡ l.elements)
  unfolding join turn
  join-HasEnded zero throws i l d h = (no_turns_left l.worker h, refl)
  join-HasEnded (suc fuel) throws i l d h =
      let m = (worker_turn should_log l.worker l (throws i)).0 in
      let (done, same, near) = worker_turn-Nears l.worker l (throws i) refl d in
      let (ended, kept) = join-HasEnded fuel throws (i + 1) m done (omega (arith, near, h)) in
      (ended, kept ∙ same)

  -- The destructor of a logger returns, or the worker ends the process, in whatever state the
  -- worker is and wherever the sink throws: with `m_done` stored, two turns more than its batch has
  -- elements are enough for the worker to leave its loop or to be dead of an exception. What is in
  -- the queue stays there.
  pub destroy_logger-HasEnded :
      (throws : ℕ → Bool) (l : Logger)
      → HasEnded (destroy_logger should_log throws l).0.worker
        × ((destroy_logger should_log throws l).0.elements ≡ l.elements)
  unfolding destroy_logger stop
  destroy_logger-HasEnded throws l =
      join-HasEnded (turns_left l.worker) throws 0 (record l { done = true }) refl (omega arith)

  take_batch-done : (l : Logger) (es : List Element) → (take_batch l es).0.done ≡ l.done
  unfolding take_batch
  take_batch-done l [] = refl
  take_batch-done l (e ∷ es) = refl

  worker_turn-done :
      (w : Worker) (l : Logger) (throws : Bool)
      → (worker_turn should_log w l throws).0.done ≡ l.done
  unfolding worker_turn leave log_one end_batch
  worker_turn-done waiting l throws =
      if_cases (λ (r : Logger × List SinkCall). r.0.done ≡ l.done) l.done (λ d. refl)
        (λ d. take_batch-done l l.elements)
  worker_turn-done (logging [] count) l throws = refl
  worker_turn-done (logging (e ∷ es) count) l throws = ground arith
  worker_turn-done exited l throws = refl
  worker_turn-done terminated l throws = refl

  -- Only the destructor stores to `m_done`.
  pub turn-done : (l : Logger) (throws : Bool) → (turn should_log l throws).0.done ≡ l.done
  unfolding turn
  turn-done l throws = worker_turn-done l.worker l throws

  pub turn-Nears :
      (l : Logger) (throws : Bool) → l.done ≡ true → Nears l (turn should_log l throws).0
  unfolding turn
  turn-Nears l throws d = worker_turn-Nears l.worker l throws refl d
