-- ===== src/Server/System/Shutdown.antt =====
-- src/server.cpp, `Server::~Server`, in the running server: whether it comes to its end.
use scriptor.Prelude.{ℕ, ◌≡◌, ◌⊎◌, Bool, ℤ}
use scriptor.Host.{Host}
use scriptor.Acceptor.{Acceptor}
use scriptor.Logger.{terminated}
use scriptor.Server.System.{clearing, awaiting, System, Step}
use scriptor.Server.System.Kinds.{worked}
use scriptor.Server.System.Advance.{IsNearer}

module _ (h : Host) (now : ℕ → ℕ → ℤ) (should_log : ℕ → ℤ → Bool) (threads loggers : ℕ) where
  -- The sink has thrown out of the worker that the destructor joins: the process has ended.
  abbrev pub IsDead : System → Type 0
  IsDead s = (j : ℕ) × (s.phase ≡ awaiting j) × ((s.station j).logger.worker ≡ terminated)

  -- A thread or the destructor can take a step that brings the end nearer, or the destructor waits
  -- for a worker whose next turn does so, whether or not the sink throws in it.
  abbrev pub CanAdvance : System → Type 0
  CanAdvance s =
      ((t : System) × Step h now should_log threads loggers s t × IsNearer threads loggers s t)
      ⊎ ((j : ℕ) × (s.phase ≡ awaiting j)
          × ((throws : Bool)
              → Step h now should_log threads loggers s
                  (worked h now should_log threads loggers s j throws)
                × IsNearer threads loggers s (worked h now should_log threads loggers s j throws)))

  abbrev Progress : System → Type 0
  Progress s = (s.phase ≡ clearing loggers) ⊎ (IsDead s ⊎ CanAdvance s)
