-- ===== src/Logger/Progress.antt =====
-- How far the worker gets on its own, and what the destructor leaves behind.
use scriptor.Prelude.{
  ℕ, suc, ◌+◌, ◌≤◌, ◌≡◌, refl, sym, ap, ◌∙◌, Bool, true, false, List, [], ◌∷◌, ◌++◌, append-nil, ℤ,
  length, length-append, All, arith,
}
use mathlib.Core.List.{append_cancel_right}
use scriptor.Element.{Element}
use scriptor.Logger.{waiting, logging, exited, Logger, stop, Event, stopped, step, run_logger}
use scriptor.Logger.Order.{
  batch, in_hand, all_pushed, IsQuiet, written, passed, passed-append, run_logger-order,
}
use scriptor.Logger.Turns.{
  turns, IsRunning, rounds, state, turns-IsQuiet, all_pushed-turns, turns-add, rounds-le, turns-suc,
  state-append, batch_ends, batch_over, leaves, takes,
}

module _ (should_log : ℤ → Bool) where
  -- The state behind the destructor: the worker finishes the batch at hand, flushes and exits.
  -- What is still in the queue stays there.
  stopped_state :
      (l : Logger)
      → IsRunning l.worker
      → state should_log l (stopped ∷ turns (suc (rounds l.worker)))
        ≡ record l { done = true; worker = exited }
  stopped_state l r =
      let m : Logger = record l { done = true } in
      unfold run_logger step stop in
      ap (state should_log m) (sym (turns-suc (rounds l.worker)))
      ∙ (state-append should_log m (turns (rounds l.worker)) (turns 1)
          ∙ (ap (λ k. state should_log k (turns 1)) (batch_over should_log l.worker m refl r)
              ∙ leaves should_log (record m { worker = waiting }) refl refl))

  -- `run_logger-order`, where nothing is pushed.
  accounted :
      (l : Logger) (vs : List Event)
      → All IsQuiet vs
      → all_pushed vs ≡ []
      → written (run_logger should_log l vs).1
          ++ passed should_log (in_hand (state should_log l vs))
        ≡ passed should_log (in_hand l)
  accounted l vs q e =
      run_logger-order should_log vs l q
      ∙ ap (passed should_log) (ap (λ es. in_hand l ++ es) e ∙ append-nil (in_hand l))

  queue_emptied :
      (l : Logger) (queue : List Element)
      → l.elements ≡ queue
      → IsRunning l.worker
      → l.done ≡ false
      → (n : ℕ) × (n ≤ length (batch l.worker) + length queue + 3)
        × (state should_log l (turns n) ≡ record l { worker = waiting; elements = [] })
  queue_emptied l [] q r d = (
    rounds l.worker,
    omega (arith, rounds-le l.worker),
    batch_over should_log l.worker l refl r
        ∙ ap (λ es. record l { worker = waiting; elements = es }) q,
  )
  queue_emptied l (e ∷ es) q r d =
      let idle : Logger = record l { worker = waiting } in
      let busy : Logger = record l { worker = logging (e ∷ es) 0; elements = [] } in
      let a = rounds l.worker in
      let b = suc (length (e ∷ es)) in
      (
        a + (1 + b),
        omega (arith, rounds-le l.worker),
        ap (state should_log l)
              (sym (ap (λ vs. turns a ++ vs) (turns-add 1 b) ∙ turns-add a (1 + b)))
            ∙ (state-append should_log l (turns a) (turns 1 ++ turns b)
                ∙ (ap (λ m. state should_log m (turns 1 ++ turns b))
                      (batch_over should_log l.worker l refl r)
                    ∙ (state-append should_log idle (turns 1) (turns b)
                        ∙ (ap (λ m. state should_log m (turns b))
                              (takes should_log idle e es refl d q)
                            ∙ batch_ends should_log (e ∷ es) 0 busy refl)))),
      )

  -- The destructor's join returns: told to stop in any state of its loop, the worker exits within
  -- two turns more than its batch has elements, if the sink does not throw. The elements in the
  -- queue stay there: of all that was in hand, the sink gets the batch only.
  pub shutdown_loses_queue :
      (l : Logger)
      → IsRunning l.worker
      → let r = run_logger should_log l (stopped ∷ turns (suc (rounds l.worker))) in
        (r.0.worker ≡ exited)
        × (r.0.elements ≡ l.elements)
        × (written r.1 ≡ passed should_log (batch l.worker))
        × (rounds l.worker ≤ length (batch l.worker) + 1)
  shutdown_loses_queue l r =
      let vs = stopped ∷ turns (suc (rounds l.worker)) in
      let ends = stopped_state l r in
      (
        ap (λ (m : Logger). m.worker) ends,
        ap (λ (m : Logger). m.elements) ends,
        append_cancel_right _ _ (passed should_log l.elements) (
            sym (
              ap
                (λ (m : Logger).
                  written (run_logger should_log l vs).1 ++ passed should_log (in_hand m))
                ends)
            ∙ (accounted l vs (tt, turns-IsQuiet (suc (rounds l.worker)))
                  (all_pushed-turns (suc (rounds l.worker)))
                ∙ passed-append should_log (batch l.worker) l.elements)),
        rounds-le l.worker,
      )

  -- A worker that is in its loop and not told to stop, left alone with a sink that does not throw,
  -- empties the queue within three turns more than it has elements in hand and waits again; by
  -- then the sink has got all that was in hand and passes its level.
  pub catches_up :
      (l : Logger)
      → IsRunning l.worker
      → l.done ≡ false
      → (n : ℕ) × (n ≤ length (in_hand l) + 3)
        × ((run_logger should_log l (turns n)).0 ≡ record l { worker = waiting; elements = [] })
        × (written (run_logger should_log l (turns n)).1 ≡ passed should_log (in_hand l))
  catches_up l r d =
      let (n, le, ends) = queue_emptied l l.elements refl r d in
      (
        n,
        omega (arith, le, length-append (batch l.worker) l.elements),
        ends,
        sym (append-nil _)
            ∙ (sym (
                  ap
                    (λ (m : Logger).
                      written (run_logger should_log l (turns n)).1
                      ++ passed should_log (in_hand m))
                    ends)
                ∙ accounted l (turns n) (turns-IsQuiet n) (all_pushed-turns n)),
      )
