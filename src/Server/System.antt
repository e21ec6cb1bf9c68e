-- ===== src/Server/System.antt =====
-- src/server.cpp with src/session.cpp and src/logger.cpp: the running server as one system. The
-- threads of `m_ioc` run the callbacks of acceptors and sessions, a session's callback pushes to
-- one logger after the other, and workers take turns; any thread may take the next step.
pub mod Parts
pub mod Streams
pub mod Sessions
pub mod Seats
pub mod Threads
pub mod Alone
pub mod Accepts
pub mod Listening
pub mod Listeners
pub mod Callbacks
pub mod Lifetimes
pub mod Gets
pub mod Unused
pub mod Order
pub mod Accounts
pub mod Costs
pub mod Finishing
pub mod Kinds
pub mod Settling
pub mod Joins
pub mod Teardown
pub mod Plan
pub mod Advance
pub mod Shutdown
pub mod Interleaved
pub mod Over
pub mod Written
pub mod Threadless
pub mod Launch
pub mod Attended
pub mod Idle
pub mod CatchUp
pub mod Farewell
pub use scriptor.Server.System.Parts.*
use scriptor.Prelude.{ℕ, suc, ◌≤◌, ◌<◌, ◌≡◌, Bool, true, List, [], ◌∷◌, length, ℤ, put, Bytes}
use scriptor.Host.{Host}
use scriptor.Element.{Element}
use scriptor.Acceptor.{Acceptor}
use scriptor.Session.{Session}
use scriptor.Logger.{stopped, turned, exited}
use scriptor.Server.Accept.{connected, complete_at, opened}
use scriptor.Server.Accept.Pending.{IsAwaited}

module _ (h : Host) (now : ℕ → ℕ → ℤ) where
  module _ (should_log : ℕ → ℤ → Bool) (threads loggers : ℕ) where
    pub data Step (s : System) : System → Type 0 where
      accepts :
          (x i handle : ℕ) (garbage : Bytes) (e : Session)
          → IsReady threads s x
          → IsAwaited i s.acceptors
          → opened s.acceptors (connected i handle garbage) ≡ e ∷ []
          → Step s (record s {
            acceptors = complete_at i s.acceptors;
            opened = suc s.opened;
            client = put s.client s.opened (new_client e);
            thread = put s.thread x (accepting 0);
          })
      refuses :
          (x i : ℕ)
          → IsReady threads s x
          → IsAwaited i s.acceptors
          → Step s (record s {
            acceptors = complete_at i s.acceptors;
            thread = put s.thread x (accepting 0);
          })
      listens :
          (x j : ℕ)
          → x < threads
          → s.thread x ≡ accepting j
          → j < length s.acceptors
          → Step s (record s {
            acceptors = listen_at j s.acceptors;
            thread = put s.thread x (accepting (suc j));
          })
      has_listened :
          (x j : ℕ)
          → x < threads
          → s.thread x ≡ accepting j
          → j ≡ length s.acceptors
          → Step s (record s { thread = put s.thread x polling })
      receives :
          (x k : ℕ) (bytes : Bytes)
          → IsReady threads s x
          → k < s.opened
          → 1 ≤ (s.client k).session.socket.pending
          → Step s (record s {
            thread = put s.thread x (serving k);
            client = put s.client k (receive h now k (s.client k) bytes);
          })
      fails :
          (x k : ℕ)
          → IsReady threads s x
          → k < s.opened
          → 1 ≤ (s.client k).session.socket.pending
          → Step s (record s { client = put s.client k (give_up (s.client k)) })
      pushes :
          (x k j : ℕ) (elements : List Element)
          → x < threads
          → s.thread x ≡ serving k
          → (s.client k).stage ≡ pushing j elements
          → j < loggers
          → Step s (record s {
            client = put s.client k (record (s.client k) { stage = pushing (suc j) elements });
            station = put s.station j (deliver should_log j k elements (s.station j));
          })
      has_pushed :
          (x k j : ℕ) (elements : List Element)
          → x < threads
          → s.thread x ≡ serving k
          → (s.client k).stage ≡ pushing j elements
          → j ≡ loggers
          → Step s (record s { client = put s.client k (record (s.client k) { stage = rearming }) })
      rearms :
          (x k : ℕ)
          → x < threads
          → s.thread x ≡ serving k
          → (s.client k).stage ≡ rearming
          → Step s (record s {
            thread = put s.thread x (leaving k);
            client = put s.client k (rearm (s.client k));
          })
      has_served :
          (x k : ℕ)
          → x < threads
          → s.thread x ≡ leaving k
          → Step s (record s { thread = put s.thread x polling })
      works :
          (j : ℕ) (throws : Bool)
          → Step s (record s {
            station = put s.station j (happen should_log j (turned throws) (s.station j));
          })
      -- `Server::shutdown`: `m_ioc.stop()`, and the loop that joins the threads
      stops : s.phase ≡ alive → Step s (record s { ioc_stopped = true; phase = joining 0 })
      joins :
          (x : ℕ)
          → s.phase ≡ joining x
          → x < threads
          → s.thread x ≡ gone
          → Step s (record s { phase = joining (suc x) })
      has_joined :
          (x : ℕ) → s.phase ≡ joining x → x ≡ threads → Step s (record s { phase = clearing 0 })
      returns :
          (x : ℕ)
          → x < threads
          → s.thread x ≡ polling
          → s.ioc_stopped ≡ true
          → Step s (record s { thread = put s.thread x gone })
      -- `m_loggers.clear()`, in the destructor of each logger the store to `m_done` and the join
      closes :
          (j : ℕ)
          → s.phase ≡ clearing j
          → j < loggers
          → Step s (record s {
            station = put s.station j (happen should_log j stopped (s.station j));
            phase = awaiting j;
          })
      has_closed :
          (j : ℕ)
          → s.phase ≡ awaiting j
          → (s.station j).logger.worker ≡ exited
          → Step s (record s { phase = clearing (suc j) })

    pub data Reach (acceptors : List Acceptor) : System → Type 0 where
      here : Reach acceptors (begin acceptors)
      later : {s t : System} → Reach acceptors s → Step s t → Reach acceptors t
