-- ===== src/Server.antt =====
-- src/server.h and src/server.cpp: the server as a whole, its constructor and its destructor.
pub mod Setup
pub mod Threads
pub mod Accept
pub mod Dispatch
pub mod Crowd
pub mod Life
pub mod Delivery
pub mod System
use scriptor.Prelude.{ℕ, ◌+◌, ℤ, Bool, false, List, [], ◌∷◌, map, Bytes, Result, ok, err, ◌>>=◌}
use scriptor.Host.{Host}
use scriptor.Options.{Site, Options}
use scriptor.Acceptor.{Acceptor}
use scriptor.Logger.{Logger, SinkCall, new_logger, destroy_logger}
use Setup.{Sink, setup_acceptors, setup_sinks}
use Threads.{Start, Producers, Ended, runs, threw, shutdown, start_threads}
use Accept.{Front, accept}

-- `sinks` are the sinks of the loggers in `loggers`, in order.
pub record Server : Type 0 where
  pub front : Front
  pub producers : Producers
  pub sinks : List Sink
  pub loggers : List Logger

-- How the constructor ends: with a server that runs, or with an exception.
ended : Front → List Sink → List Logger → Ended → Result Server
ended front sinks loggers (runs producers) =
    ok (record { front = front; producers = producers; sinks = sinks; loggers = loggers })
ended front sinks loggers (threw what producers loose) = err what

abbrev pub no_producers : Producers
no_producers = record { ioc_stopped = false; threads = [] }

module _ (h : Host) (site : Site h) where
  -- `Server::Server`; `starts` says how the starts of the threads go.
  unfoldable pub new_server : Options h → (ℕ → Start) → Result Server
  unfolding ended
  new_server opt starts = do
    acceptors ← setup_acceptors h site opt
    sinks ← setup_sinks h site opt
    ended (accept (record { acceptors = acceptors; sessions = [] })) sinks
        (map (λ s. new_logger) sinks) (start_threads opt.n_threads starts 0 no_producers)

-- `m_loggers.clear()`: one logger after the other, the `i`th with the level of its sink and the
-- turns in which its sink throws.
destroy_each : (ℕ → ℤ → Bool) → (ℕ → ℕ → Bool) → ℕ → List Logger → List (Logger × List SinkCall)
destroy_each should_log throws i [] = []
destroy_each should_log throws i (l ∷ ls) =
    destroy_logger (should_log i) (throws i) l ∷ destroy_each should_log throws (i + 1) ls

-- `Server::~Server`: the producers are joined, and then each logger is destroyed.
unfoldable pub destroy :
    (ℕ → ℤ → Bool) → (ℕ → ℕ → Bool) → Server → Producers × List (Logger × List SinkCall)
unfolding destroy_each
destroy should_log throws s = (shutdown s.producers, destroy_each should_log throws 0 s.loggers)
