-- ===== src/Server/Threads.antt =====
-- src/server.cpp: the loop that starts the producer threads, and `Server::shutdown`.
pub mod Safety
use scriptor.Prelude.{ℕ, zero, suc, ◌+◌, Bool, true, false, List, [], ◌∷◌, ◌++◌, map, Bytes}

-- A `std::thread` that runs, or that has been joined.
pub data Thread : Type 0 where
  joinable joined : Thread

-- How a round of the loop goes: a thread is started and stored, `std::thread` throws, or
-- `push_back` throws when the thread is running.
pub data Start : Type 0 where
  started : Start
  no_thread : Bytes → Start
  no_room : Bytes → Start

-- `m_ioc` and `m_ioc_threads`.
pub record Producers : Type 0 where
  pub ioc_stopped : Bool
  pub threads : List Thread

-- `if (t.joinable()) { t.join(); }`, which returns since the context is stopped.
unfoldable pub join_if_joinable : Thread → Thread
join_if_joinable joinable = joined
join_if_joinable joined = joined

-- `Server::shutdown`
unfoldable pub shutdown : Producers → Producers
shutdown p = record { ioc_stopped = true; threads = map join_if_joinable p.threads }

-- How the loop ends. Where it throws, `local` holds the thread that was not stored, if any.
pub data Ended : Type 0 where
  runs : Producers → Ended
  threw : Bytes → Producers → List Thread → Ended

-- `while (m_ioc_threads.size() < opt.n_threads)`, by the threads that are still to be started;
-- `starts` says how the rounds go.
unfoldable pub start_threads : ℕ → (ℕ → Start) → ℕ → Producers → Ended
start_threads zero starts i p = runs p
start_threads (suc n) starts i p = elim (starts i) [
  | started ↦ start_threads n starts (i + 1) (record p { threads = p.threads ++ (joinable ∷ []) })
  | no_thread what ↦ threw what (shutdown p) []
  | no_room what ↦ threw what (shutdown p) (joined ∷ [])
]
