-- ===== src/Logger/Monitor/Refines.antt =====
-- The logger of Logger.antt is what the threads make of their mutex and condition variable.
use scriptor.Prelude.{◌≡◌, refl, sym, ap, ◌∙◌, Bool, List, [], ◌∷◌, ◌++◌, append_assoc, ℤ, arith}
use scriptor.Logger.{
  SinkCall, Event, Worker, waiting, logging, exited, terminated, Logger, push, stop, leave,
  take_batch, log_one, end_batch, worker_turn, turn, step, run_logger,
}
use scriptor.Logger.Monitor.{
  Thread, locking, holding, sleeping, writing, left, thrown, Monitor, start, notify, Begin,
  push_locks, stop_locks, wakes, Move, inserts, notifies, unlocks, stores, stop_releases,
  stop_notifies, joins, locks, sleeps, finds_done, finds_elements, breaks, dies, swaps, skips, logs,
  log_throws, ends_silent, ends, Run, here, begun, moved,
}
use scriptor.Logger.Monitor.Wakeup.{Inv, start-Inv, Run-Inv}

-- Between two batches it does not matter where the worker stands.
abbrev pub view : Thread → Worker
view locking = waiting
view holding = waiting
view sleeping = waiting
view (writing es count) = logging es count
view left = exited
view thrown = terminated

abbrev pub logger_of : Monitor → Logger
logger_of s = record { done = s.done; elements = s.elements; worker = view s.thread }

view-notify : (x : Thread) → view (notify x) ≡ view x
view-notify locking = refl
view-notify holding = refl
view-notify sleeping = refl
view-notify (writing es count) = refl
view-notify left = refl
view-notify thrown = refl

module _ (should_log : ℤ → Bool) where
  pub run_logger-append :
      (l : Logger) (vs ws : List Event)
      → let (m, cs) = run_logger should_log l vs in
        let (n, ds) = run_logger should_log m ws in
        run_logger should_log l (vs ++ ws) ≡ (n, cs ++ ds)
  unfolding run_logger
  run_logger-append l [] ws = refl
  run_logger-append l (v ∷ vs) ws =
      let (k, bs) = step should_log l v in
      let (m, cs) = run_logger should_log k vs in
      let (n, ds) = run_logger should_log m ws in
      ap (λ (r : Logger × List SinkCall). (r.0, bs ++ r.1)) (run_logger-append k vs ws)
      ∙ ap (λ xs. (n, xs)) (sym (append_assoc bs cs ds))

  Begin-logger_of : {s t : Monitor} → Begin s t → logger_of s ≡ logger_of t
  Begin-logger_of (push_locks es f) = refl
  Begin-logger_of (stop_locks f d) = refl
  Begin-logger_of (wakes w) = ground arith

  Move-run_logger :
      {s t : Monitor} {vs : List Event} {cs : List SinkCall}
      → Move should_log s vs cs t
      → Inv s
      → run_logger should_log (logger_of s) vs ≡ (logger_of t, cs)
  unfolding run_logger step push stop turn worker_turn leave take_batch log_one end_batch
  Move-run_logger (inserts es h) v = refl
  Move-run_logger {s} (notifies h) v = ground (arith, view-notify s.thread)
  Move-run_logger (unlocks h) v = refl
  Move-run_logger (stores h) v = refl
  Move-run_logger (stop_releases h) v = refl
  Move-run_logger {s} (stop_notifies d) v = ground (arith, view-notify s.thread)
  Move-run_logger (joins d l) v = refl
  Move-run_logger (locks h w) v = ground arith
  Move-run_logger (sleeps h d e) v = ground arith
  Move-run_logger (finds_done h d) v = refl
  Move-run_logger (finds_elements h d e) v = refl
  Move-run_logger (breaks h w) v = ground arith
  Move-run_logger (dies h w) v = ground arith
  Move-run_logger (swaps h) v = ground arith
  Move-run_logger (skips e es n w p) v = ground arith
  Move-run_logger (logs e es n w p) v = ground arith
  Move-run_logger (log_throws e es n w p) v = ground arith
  Move-run_logger (ends_silent w) v = ground arith
  Move-run_logger (ends n t w) v = ground arith

  Run-run_logger :
      {s t : Monitor} {vs : List Event} {cs : List SinkCall}
      → Inv s
      → Run should_log s vs cs t
      → run_logger should_log (logger_of s) vs ≡ (logger_of t, cs)
  Run-run_logger v here = unfold run_logger in refl
  Run-run_logger {vs} {cs} v (begun r b) =
      Run-run_logger v r ∙ ap (λ l. (l, cs)) (Begin-logger_of b)
  Run-run_logger {s} v (moved {u} {vs} {ws} {cs} {ds} r m p q) =
      let before = Run-run_logger v r in
      ap (run_logger should_log (logger_of s)) p
      ∙ (run_logger-append (logger_of s) vs ws
          ∙ (ap
                (λ (b : Logger × List SinkCall).
                  ((run_logger should_log b.0 ws).0, b.1 ++ (run_logger should_log b.0 ws).1))
                before
              ∙ (ap (λ (b : Logger × List SinkCall). (b.0, cs ++ b.1))
                    (Move-run_logger m (Run-Inv should_log v r))
                  ∙ ap (λ bs. (logger_of u, bs)) (sym q))))

  -- At the grain of locks, stores, notifications and unlocks a logger does nothing but what it
  -- does at the grain of pushes, stops and turns: every run of its threads from the start, with
  -- any interleaving and spurious wakeups, is the run of the logger on the events of its steps,
  -- with the same calls on the sink, and ends in the same state.
  pub start-run_logger :
      {t : Monitor} {vs : List Event} {cs : List SinkCall}
      → Run should_log start vs cs t
      → run_logger should_log (logger_of start) vs ≡ (logger_of t, cs)
  start-run_logger r = Run-run_logger start-Inv r
