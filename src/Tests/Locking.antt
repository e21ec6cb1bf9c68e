-- ===== src/Tests/Locking.antt =====
-- The threads of a logger, through a few steps.
use scriptor.Prelude.{◌<◌, ◌≡◌, refl, ◌⊎◌, false, List, [], ◌∷◌}
use scriptor.Logger.{Event, SinkCall, pushed, run_logger}
use scriptor.Logger.Monitor
use scriptor.Logger.Monitor.{Monitor, Move, Run}
use scriptor.Logger.Monitor.Wakeup.{IsTold, no_lost_wakeup}
use scriptor.Logger.Monitor.Deadlock.{IsAtRest, CanMove}
use scriptor.Logger.Monitor.Rest.{effort, comes_to_rest}
use scriptor.Logger.Monitor.Refines.{logger_of, start-run_logger}
use scriptor.Tests.Logging.{loud, from_warn}

-- The worker goes to sleep; an element is pushed, and the worker is not told yet.
abbrev asleep : Monitor
asleep = record {
  holder = Monitor.push_notifies;
  done = false;
  elements = loud ∷ [];
  thread = Monitor.sleeping;
  destructor = Monitor.uncalled;
}

falls_asleep : Run from_warn Monitor.start (pushed (loud ∷ []) ∷ []) [] asleep
falls_asleep =
    Run.moved
      (Run.begun
        (Run.moved (Run.moved Run.here (Move.locks refl refl) refl refl)
          (Move.sleeps refl refl refl) refl refl)
        (Monitor.push_locks (loud ∷ []) refl))
      (Move.inserts (loud ∷ []) refl) refl refl

no_lost_wakeup_example : ((asleep.done ≡ false) × (asleep.elements ≡ [])) ⊎ IsTold asleep
no_lost_wakeup_example = no_lost_wakeup from_warn falls_asleep refl

comes_to_rest_example :
    ((asleep.thread ≡ Monitor.thrown) ⊎ (IsAtRest asleep ⊎ CanMove from_warn asleep))
    × ((t : Monitor) (ws : List Event) (ds : List SinkCall)
        → Move from_warn asleep ws ds t
        → effort t < effort asleep)
comes_to_rest_example = comes_to_rest from_warn falls_asleep

start-run_logger_example :
    run_logger from_warn (logger_of Monitor.start) (pushed (loud ∷ []) ∷ [])
    ≡ (logger_of asleep, [])
start-run_logger_example = start-run_logger from_warn falls_asleep
