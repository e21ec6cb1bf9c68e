-- ===== src/Tests/Logging.antt =====
-- A logger on short sequences of events.
use scriptor.Prelude.{
  ◌==◌, ◌≤◌, ◌≡◌, refl, ◌⊎◌, ◌↔◌, Bool, true, false, List, [], ◌∷◌, ℤ, pos, leb_int, codes, All,
}
use scriptor.Element.{Element}
use scriptor.Logger.Join.{HasEnded, destroy_logger-HasEnded}
use scriptor.Logger.{
  destroy_logger, log, flush, log_msg, waiting, logging, exited, terminated, Logger, new_logger,
  push, stop, turn, Event, pushed, stopped, turned, step, run_logger,
}
use scriptor.Logger.Order.{written, IsQuiet}
use scriptor.Logger.Flush.{unflushed, owed, run_logger-unflushed}
use scriptor.Logger.Turns.{turns}
use scriptor.Logger.Progress.{shutdown_loses_queue}
use scriptor.Logger.Faults.{turn_terminates}

abbrev pub loud : Element
loud = record { time = pos 1; level = pos 4; message = codes "loud" }

abbrev pub quiet : Element
quiet = record { time = pos 2; level = pos 0; message = codes "quiet" }

abbrev pub from_warn : ℤ → Bool
from_warn level = leb_int (pos 3) level

abbrev busy : Logger
busy = record { done = false; elements = quiet ∷ loud ∷ []; worker = logging (loud ∷ []) 1 }

abbrev leaving : Logger
leaving = record { done = true; elements = loud ∷ []; worker = waiting }

abbrev events : List Event
events =
    pushed (quiet ∷ loud ∷ [])
    ∷ turned false
    ∷ turned false
    ∷ pushed (loud ∷ [])
    ∷ turned false
    ∷ turned false
    ∷ stopped
    ∷ turned false
    ∷ []

abbrev stormy : List Event
stormy =
    pushed (loud ∷ loud ∷ [])
    ∷ turned false
    ∷ turned true
    ∷ pushed (loud ∷ [])
    ∷ turned false
    ∷ turned false
    ∷ []

run_logger_run : run_logger from_warn new_logger events ≡ (
  record { done = true; elements = loud ∷ []; worker = exited },
  log (log_msg loud) false ∷ flush false ∷ flush false ∷ [],
)
unfolding run_logger step push stop turn new_logger
run_logger_run = refl

events-IsQuiet : All IsQuiet events
events-IsQuiet = (tt, (refl, (refl, (tt, (refl, (refl, (tt, (refl, tt))))))))

shutdown_loses_queue_example :
    let r = run_logger from_warn busy (stopped ∷ turns 3) in
    (r.0.worker ≡ exited)
    × (r.0.elements ≡ quiet ∷ loud ∷ [])
    × (written r.1 ≡ log_msg loud ∷ [])
    × (2 ≤ 2)
shutdown_loses_queue_example = shutdown_loses_queue from_warn busy tt

run_logger-unflushed_example :
    unflushed 1 (run_logger from_warn busy events).1
    ≡ owed (run_logger from_warn busy events).0.worker
run_logger-unflushed_example = run_logger-unflushed from_warn events busy events-IsQuiet

turn_terminates_example :
    (((turn from_warn leaving true).0.worker ≡ terminated) ↔ (
      (leaving.worker ≡ terminated)
      ⊎ ((leaving.worker ≡ waiting) × (leaving.done ≡ true) × (true ≡ true))))
    × (((turn from_warn leaving true).0.worker ≡ exited) ↔ (
        (leaving.worker ≡ exited)
        ⊎ ((leaving.worker ≡ waiting) × (leaving.done ≡ true) × (true ≡ false))))
turn_terminates_example = turn_terminates from_warn leaving true

destroy_logger-HasEnded_example :
    HasEnded (destroy_logger from_warn (λ k. k == 1) busy).0.worker
    × ((destroy_logger from_warn (λ k. k == 1) busy).0.elements ≡ busy.elements)
destroy_logger-HasEnded_example = destroy_logger-HasEnded from_warn (λ k. k == 1) busy
