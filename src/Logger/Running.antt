-- ===== src/Logger/Running.antt =====
-- While a logger is not told to stop, its worker is in its loop; on its own it then empties the
-- queue.
use scriptor.Prelude.{
  ◌≢◌, inl, inr, ap, ◌∙◌, ◌+◌, ℕ, zero, suc, ◌≡◌, refl, sym, subst, Bool, true, false, List, [],
  ◌∷◌, ◌++◌, ℤ, All, ltb, if_cases,
}
use scriptor.Element.{Element}
use scriptor.Logger.{
  join, destroy_logger, turns_left, SinkCall, Worker, waiting, logging, exited, terminated, Logger,
  leave, take_batch, log_one, end_batch, worker_turn, turn, Event, pushed, stopped, turned, stop,
  push, step, run_logger,
}
use scriptor.Logger.Calls.{IsTaken}
use scriptor.Logger.Order.{batch, in_hand}
use scriptor.Logger.Join.{HasEnded, destroy_logger-HasEnded}
use scriptor.Logger.Faults.{turn_terminates}
use scriptor.Logger.Turns.{IsRunning, turns}

abbrev pub IsAlive : Logger → Type 0
IsAlive l = l.done ≡ false → IsRunning l.worker

module _ {ℓ κ} {A : Type ℓ} (P : A → Type κ) where
  pub All-append : (xs ys : List A) → All P xs → All P ys → All P (xs ++ ys)
  All-append [] ys a b = b
  All-append (x ∷ xs) ys a b = (a.0, All-append xs ys a.1 b)

module _ (should_log : ℤ → Bool) where
  take_batch-IsAlive :
      (l : Logger) (es : List Element) → l.worker ≡ waiting → IsAlive (take_batch l es).0
  unfolding take_batch
  take_batch-IsAlive l [] e = λ d. subst IsRunning (sym e) tt
  take_batch-IsAlive l (x ∷ es) e = λ d. tt

  worker_turn-IsAlive :
      (w : Worker) (l : Logger) (throws : Bool)
      → (l.done ≡ false → IsRunning w)
      → l.worker ≡ w
      → IsAlive (worker_turn should_log w l throws).0
  unfolding worker_turn leave log_one end_batch
  worker_turn-IsAlive waiting l throws r e =
      if_cases (λ (m : Logger × List SinkCall). IsAlive m.0) l.done
        (λ d q. absurd (let c : true ≡ false = cc in cc)) (λ d. take_batch-IsAlive l l.elements e)
  worker_turn-IsAlive (logging [] count) l throws r e = λ d. tt
  worker_turn-IsAlive (logging (x ∷ es) count) l throws r e =
      if_cases (λ (m : Logger × List SinkCall). IsAlive m.0) (should_log x.level)
        (λ p d. if_cases IsRunning throws (λ q. tt) (λ q. tt)) (λ p d. tt)
  worker_turn-IsAlive exited l throws r e = λ d. absurd (r d)
  worker_turn-IsAlive terminated l throws r e = λ d. absurd (r d)

  step-IsAlive : (l : Logger) (v : Event) → IsAlive l → IsAlive (step should_log l v).0
  unfolding step push stop turn
  step-IsAlive l (pushed es) r = r
  step-IsAlive l stopped r = λ d. absurd (let c : true ≡ false = d in cc)
  step-IsAlive l (turned throws) r = worker_turn-IsAlive l.worker l throws r refl

  pub run_logger-IsAlive :
      (vs : List Event) (l : Logger) → IsAlive l → IsAlive (run_logger should_log l vs).0
  unfolding run_logger
  run_logger-IsAlive [] l r = r
  run_logger-IsAlive (v ∷ vs) l r =
      run_logger-IsAlive vs (step should_log l v).0 (step-IsAlive l v r)

  worker_turn-IsTaken : (w : Worker) (l : Logger) → All IsTaken (worker_turn should_log w l false).1
  unfolding worker_turn leave take_batch log_one end_batch
  worker_turn-IsTaken waiting l =
      if_cases (λ (m : Logger × List SinkCall). All IsTaken m.1) l.done (λ d. (refl, tt))
        (λ d. take_batch-IsTaken l.elements)
    where
      take_batch-IsTaken : (es : List Element) → All IsTaken (take_batch l es).1
      take_batch-IsTaken [] = tt
      take_batch-IsTaken (x ∷ es) = tt
  worker_turn-IsTaken (logging [] count) l =
      if_cases (All IsTaken) (ltb 0 count) (λ p. (refl, tt)) (λ p. tt)
  worker_turn-IsTaken (logging (x ∷ es) count) l =
      if_cases (λ (m : Logger × List SinkCall). All IsTaken m.1) (should_log x.level)
        (λ p. (refl, tt)) (λ p. tt)
  worker_turn-IsTaken exited l = tt
  worker_turn-IsTaken terminated l = tt

  -- Turns in which the sink does not throw.
  pub turns-IsTaken : (n : ℕ) (l : Logger) → All IsTaken (run_logger should_log l (turns n)).1
  unfolding run_logger step turn
  turns-IsTaken zero l = tt
  turns-IsTaken (suc n) l =
      All-append IsTaken _ _ (worker_turn-IsTaken l.worker l)
        (turns-IsTaken n (turn should_log l false).0)

  join-IsTaken : (fuel i : ℕ) (l : Logger) → All IsTaken (join should_log fuel (λ k. false) i l).1
  unfolding join turn
  join-IsTaken zero i l = tt
  join-IsTaken (suc fuel) i l =
      All-append IsTaken _ _ (worker_turn-IsTaken l.worker l)
        (join-IsTaken fuel (i + 1) (turn should_log l false).0)

  -- A logger with nothing in hand is destroyed with nothing in hand.
  pub destroy_logger-IsTaken :
      (l : Logger)
      → in_hand l ≡ []
      → All IsTaken (destroy_logger should_log (λ k. false) l).1
        × (in_hand (destroy_logger should_log (λ k. false) l).0 ≡ [])
  destroy_logger-IsTaken l none =
      let (ended, kept) = destroy_logger-HasEnded should_log (λ k. false) l in
      (
        unfold destroy_logger in join-IsTaken (turns_left l.worker) 0 (stop l),
        ap (λ es. es ++ (destroy_logger should_log (λ k. false) l).0.elements)
              (batch-ended (destroy_logger should_log (λ k. false) l).0.worker ended)
            ∙ (kept ∙ append_right-nil (batch l.worker) l.elements none),
      )
    where
      batch-ended : (w : Worker) → HasEnded w → batch w ≡ []
      batch-ended waiting e = absurd e
      batch-ended (logging es count) e = absurd e
      batch-ended exited e = refl
      batch-ended terminated e = refl

      append_right-nil : (es fs : List Element) → es ++ fs ≡ [] → fs ≡ []
      append_right-nil [] fs e = e
      append_right-nil (x ∷ es) fs e = cc

  join-ne-terminated :
      (fuel i : ℕ) (l : Logger)
      → l.worker ≢ terminated
      → (join should_log fuel (λ k. false) i l).0.worker ≢ terminated
  unfolding join
  join-ne-terminated zero i l ne = ne
  join-ne-terminated (suc fuel) i l ne =
      join-ne-terminated fuel (i + 1) (turn should_log l false).0 (λ e.
        elim ((turn_terminates should_log l false).0.0 e) [
          | inl q ↦ ne q
          | inr (w, d, q) ↦ absurd (let c : false ≡ true = q in cc)
        ])

  -- A worker in its loop leaves it when the logger is destroyed and the sink does not throw.
  pub destroy_logger-exits :
      (l : Logger)
      → IsRunning l.worker
      → (destroy_logger should_log (λ k. false) l).0.worker ≡ exited
  unfolding destroy_logger stop
  destroy_logger-exits l running =
      exits (destroy_logger should_log (λ k. false) l).0.worker
        (destroy_logger-HasEnded should_log (λ k. false) l).0
        (join-ne-terminated (turns_left l.worker) 0 (record l { done = true })
          (alive l.worker running))
    where
      alive : (w : Worker) → IsRunning w → w ≢ terminated
      alive waiting r q = cc
      alive (logging es count) r q = cc
      alive exited r q = cc
      alive terminated r q = absurd r

      exits : (w : Worker) → HasEnded w → w ≢ terminated → w ≡ exited
      exits waiting e ne = absurd e
      exits (logging es count) e ne = absurd e
      exits exited e ne = refl
      exits terminated e ne = absurd (ne refl)
