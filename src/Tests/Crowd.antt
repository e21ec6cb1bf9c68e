-- ===== src/Tests/Crowd.antt =====
-- Two clients and two loggers, whose pushes interleave.
use scriptor.Prelude.{◌≡◌, refl, false, List, [], ◌∷◌}
use scriptor.Logger.{Logger, SinkCall, log, log_msg, push, turn, step, waiting, logging}
use scriptor.Server.Crowd.{Action, by_client, by_worker, run_crowd}
use scriptor.Tests.Logging.{loud, quiet, from_warn}

abbrev actions : List Action
actions =
    by_client 7 0 (loud ∷ [])
    ∷ by_client 8 0 (quiet ∷ [])
    ∷ by_client 8 1 (quiet ∷ [])
    ∷ by_worker 1 false
    ∷ by_client 7 1 (loud ∷ [])
    ∷ by_worker 0 false
    ∷ by_worker 0 false
    ∷ []

abbrev idle : Logger
idle = record { done = false; elements = []; worker = waiting }

abbrev idle_loggers : List (Logger × List SinkCall)
idle_loggers = (idle, []) ∷ (idle, []) ∷ []

run_crowd_run :
    run_crowd (λ i. from_warn) actions idle_loggers
    ≡ (
      record { done = false; elements = []; worker = logging (quiet ∷ []) 1 },
      log (log_msg loud) false ∷ [],
    )
      ∷ (record { done = false; elements = loud ∷ []; worker = logging (quiet ∷ []) 0 }, [])
      ∷ []
unfolding run_crowd step push turn
run_crowd_run = refl
