-- ===== src/Logger/Settling.antt =====
-- How much work a worker has left.
use scriptor.Prelude.{
  ℕ, ◌+◌, ◌*◌, ◌<◌, ◌≡◌, refl, ◌⊎◌, inl, inr, Bool, List, [], ◌∷◌, ℤ, length, if_cases, arith,
}
use scriptor.Element.{Element}
use scriptor.Logger.{
  SinkCall, Worker, waiting, logging, exited, terminated, Logger, leave, take_batch, log_one,
  end_batch, worker_turn, turn,
}

-- The turns of the worker until it has nothing to do, at most, with this in the queue.
abbrev pub load : Worker → List Element → ℕ
load waiting queue = 1 + 3 * length queue
load (logging es count) queue = length es + 2 + 3 * length queue
load exited queue = 0
load terminated queue = 0

-- Less work than before, or nothing has happened.
abbrev pub Settles : Logger → Logger × List SinkCall → Type 0
Settles l (m, calls) =
    (load m.worker m.elements < load l.worker l.elements) ⊎ ((m ≡ l) × (calls ≡ []))

module _ (should_log : ℤ → Bool) where
  take_batch-Settles :
      (l : Logger) (es : List Element)
      → l.worker ≡ waiting
      → l.elements ≡ es
      → Settles l (take_batch l es)
  unfolding take_batch
  take_batch-Settles l [] e q = inr (refl, refl)
  take_batch-Settles l (x ∷ es) e q = inl (rw (e, q) (omega arith))

  worker_turn-Settles :
      (w : Worker) (l : Logger) (throws : Bool)
      → l.worker ≡ w
      → Settles l (worker_turn should_log w l throws)
  unfolding worker_turn leave log_one end_batch
  worker_turn-Settles waiting l throws e =
      if_cases (Settles l) l.done (λ d. inl (rw e (ground arith)))
        (λ d. take_batch-Settles l l.elements e refl)
  worker_turn-Settles (logging [] count) l throws e = inl (rw e (omega arith))
  worker_turn-Settles (logging (x ∷ es) count) l throws e = inl (rw e (ground arith))
  worker_turn-Settles exited l throws e = inr (refl, refl)
  worker_turn-Settles terminated l throws e = inr (refl, refl)

  pub turn-Settles : (l : Logger) (throws : Bool) → Settles l (turn should_log l throws)
  unfolding turn
  turn-Settles l throws = worker_turn-Settles l.worker l throws refl
