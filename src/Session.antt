-- ===== src/Session.antt =====
-- src/session.h and src/session.cpp, `Session`: one client's connection.
pub mod Reads
pub mod Stream
use scriptor.Prelude.{
  ℕ, zero, suc, ◌+◌, ◌-◌, ◌≤◌, Bool, true, false, List, [], ◌∷◌, ◌++◌, length, take, drop, is_empty,
  replicate, if◌then◌else◌, Bytes,
}
use scriptor.Host.{Host}
use scriptor.Element.{Element, Clocked}
use scriptor.Processor.{Processor, process}
use scriptor.Socket.{Socket, async_read_some, answered, Completion, failed, completed}

-- The size of `m_buffer`.
abbrev pub buffer_size : ℕ
buffer_size = 1024

-- The callback of each read that asio has not completed holds the session alive: with none pending
-- on its socket the session is gone.
pub record Session : Type 0 where
  pub socket : Socket
  pub buffer : Bytes
  pub processor : Processor

-- `Session::Session`. The array is not initialised; `garbage` is what it holds.
unfoldable pub new_session : Socket → Bytes → Session
new_session socket garbage = record {
  socket = socket;
  buffer = garbage;
  processor = record { current = [] };
}

-- `Session::read`, up to the return of `async_read_some`.
unfoldable pub read : Session → Session
read s = record s { socket = async_read_some s.socket }

-- What asio does to the buffer before it calls back.
unfoldable pub fill : Bytes → Bytes → Bytes
fill buffer received = received ++ drop (length received) buffer

-- A call of `m_push`, with what it hands over.
abbrev pub Pushes : Type 0
Pushes = List (List Element)

-- `if (!elements.empty()) { self->m_push(std::move(elements)); }`
abbrev pub push_some : List Element → Pushes
push_some elements = if is_empty elements then [] else elements ∷ []

module _ (h : Host) where
  -- The callback without an error, for `length` bytes in the buffer.
  on_received : Session → ℕ → Clocked (Pushes × Session)
  unfolding read
  on_received s length calls =
      let ((elements, p), calls') = process h s.processor (take length s.buffer) calls in
      ((push_some elements, read (record s { processor = p })), calls')

  -- The callback of `Session::read`, and what asio does before it.
  unfoldable pub on_read : Session → Completion → Clocked (Pushes × Session)
  unfolding on_received fill
  on_read s failed calls = (([], record s { socket = answered s.socket }), calls)
  on_read s (completed received) calls =
      on_received (record s { buffer = fill s.buffer received; socket = answered s.socket })
        (length received) calls

  -- The completions of a session's reads, in order. What asio reports after the last pending
  -- read has completed is not for this session.
  unfoldable pub run_session : Session → List Completion → Clocked (Pushes × Session)
  run_session s [] calls = (([], s), calls)
  run_session s (c ∷ cs) calls = elim s.socket.pending [
    | zero ↦ (([], s), calls)
    | suc n ↦
        let ((ps, t), calls') = on_read s c calls in
        let ((qs, u), calls'') = run_session t cs calls' in ((ps ++ qs, u), calls'')
  ]
