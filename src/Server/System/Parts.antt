-- ===== src/Server/System/Parts.antt =====
-- src/server.cpp, src/session.cpp, src/logger.cpp: the state of the running server, and what a step
-- does to a session or to a logger.
use scriptor.Prelude.{
  ℕ, zero, suc, ◌<◌, ◌≡◌, Bool, false, List, [], ◌∷◌, ◌++◌, length, take, is_empty, ℤ,
  if◌then◌else◌, Bytes,
}
use scriptor.Host.{Host}
use scriptor.Element.{Element}
use scriptor.Socket.{unix, new_socket, answered}
use scriptor.Acceptor.{Acceptor, async_accept}
use scriptor.Processor.{process}
use scriptor.Session.{Session, read, fill}
use scriptor.Logger.{Logger, SinkCall, new_logger, Event, pushed, step}

-- Where the callback of a session stands: none runs; the elements that it pushes, with the place
-- of the next logger; before its call of `read`.
pub data Stage : Type 0 where
  quiet : Stage
  pushing : ℕ → List Element → Stage
  rearming : Stage

-- A session, the bytes that it has been sent and the readings of the clock that it has made.
pub record Client : Type 0 where
  pub session : Session
  pub stage : Stage
  pub sent : Bytes
  pub clock : ℕ

-- A logger with the calls on its sink, and what has been pushed to it and by which session.
pub record Station : Type 0 where
  pub logger : Logger
  pub calls : List SinkCall
  pub inbox : List (ℕ × List Element)

-- A thread of `m_ioc`: inside `run` between two callbacks; in the callback of a session, up to its
-- call of `read`, or behind that; in the callback of an accept, at the place of the next acceptor in
-- the loop of `accept`; or behind `run`.
pub data Post : Type 0 where
  polling : Post
  serving : ℕ → Post
  leaving : ℕ → Post
  accepting : ℕ → Post
  gone : Post

-- Where the thread that owns the server stands: `Server::~Server` has not been called; it joins the
-- threads in `shutdown`, at this place; it is about to destroy the logger at this place of
-- `m_loggers`; it joins the worker of that logger in `Logger::~Logger`.
pub data Phase : Type 0 where
  alive : Phase
  joining clearing awaiting : ℕ → Phase

-- `opened` sessions have been opened, with the numbers below `opened`.
pub record System : Type 0 where
  pub acceptors : List Acceptor
  pub opened : ℕ
  pub client : ℕ → Client
  pub station : ℕ → Station
  pub thread : ℕ → Post
  pub ioc_stopped : Bool
  pub phase : Phase

-- A number that no session has yet.
abbrev pub nobody : Client
nobody = record {
  session = record { socket = new_socket unix 0; buffer = []; processor = record { current = [] } };
  stage = quiet;
  sent = [];
  clock = 0;
}

abbrev pub new_station : Station
new_station = record { logger = new_logger; calls = []; inbox = [] }

-- The server behind its constructor.
abbrev pub begin : List Acceptor → System
begin acceptors = record {
  acceptors = acceptors;
  opened = 0;
  client = λ k. nobody;
  station = λ j. new_station;
  thread = λ x. polling;
  ioc_stopped = false;
  phase = alive;
}

-- `m_push`, and whether there is anything to push.
abbrev pub next_stage : List Element → Stage
next_stage elements = if is_empty elements then rearming else pushing 0 elements

abbrev pub new_client : Session → Client
new_client e = record { session = e; stage = quiet; sent = []; clock = 0 }

-- The callback with an error.
abbrev pub give_up : Client → Client
give_up c = record c { session = record c.session { socket = answered c.session.socket } }

abbrev pub rearm : Client → Client
rearm c = record c { session = read c.session; stage = quiet }

-- A callback begins only on a thread that polls a context that is not stopped.
abbrev pub IsReady : ℕ → System → ℕ → Type 0
IsReady threads s x = (x < threads) × (s.thread x ≡ polling) × (s.ioc_stopped ≡ false)

-- A round of the loop in `Server::accept`.
abbrev pub listen_at : ℕ → List Acceptor → List Acceptor
listen_at i [] = []
listen_at zero (a ∷ rest) = async_accept a ∷ rest
listen_at (suc i) (a ∷ rest) = a ∷ listen_at i rest

module _ (should_log : ℕ → ℤ → Bool) where
  -- A push of the session `k`.
  abbrev pub deliver : ℕ → ℕ → List Element → Station → Station
  deliver j k elements st =
      let (l, more) = step (should_log j) st.logger (pushed elements) in
      record { logger = l; calls = st.calls ++ more; inbox = st.inbox ++ ((k, elements) ∷ []) }

  abbrev pub happen : ℕ → Event → Station → Station
  happen j v st =
      let (l, more) = step (should_log j) st.logger v in
      record st { logger = l; calls = st.calls ++ more }

module _ (h : Host) (now : ℕ → ℕ → ℤ) where
  -- The host as the session `k` sees it: its readings of the clock are a row of the table.
  abbrev pub host_of : ℕ → Host
  host_of k = record h { now = now k }

  -- The callback of `Session::read` without an error, up to the test of `elements`; before it asio
  -- has put `bytes` into the buffer.
  abbrev pub receive : ℕ → Client → Bytes → Client
  receive k c bytes =
      let buffer = fill c.session.buffer bytes in
      let ((elements, p), clock) =
        process (host_of k) c.session.processor (take (length bytes) buffer) c.clock in
      record {
        session = record { socket = answered c.session.socket; buffer = buffer; processor = p };
        stage = next_stage elements;
        sent = c.sent ++ bytes;
        clock = clock;
      }
