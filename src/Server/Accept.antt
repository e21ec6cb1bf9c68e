-- ===== src/Server/Accept.antt =====
-- src/server.cpp, `Server::accept`: the acceptors, and the sessions that they open.
pub mod Pending
use scriptor.Prelude.{
  ℕ, zero, suc, ◌+◌, Bool, true, false, List, [], ◌∷◌, ◌++◌, map, if◌then◌else◌, Bytes,
}
use scriptor.Socket.{Socket}
use scriptor.Acceptor.{Acceptor, async_accept, complete, wrap}
use scriptor.Session.{Session, new_session, read}

-- `m_acceptors`, and the sessions that asio's pending reads keep alive, the newest last.
pub record Front : Type 0 where
  pub acceptors : List Acceptor
  pub sessions : List Session

-- `Server::accept`
unfoldable pub accept : Front → Front
accept f = record f { acceptors = map async_accept f.acceptors }

-- A callback of asio: the acceptor that it is for, by its place, and an error or the handle of
-- the connected socket with the bytes that the new session's buffer happens to hold.
pub data Arrival : Type 0 where
  refused : ℕ → Arrival
  connected : ℕ → ℕ → Bytes → Arrival

abbrev pub place : Arrival → ℕ
place (refused i) = i
place (connected i handle garbage) = i

abbrev pub complete_at : ℕ → List Acceptor → List Acceptor
complete_at i [] = []
complete_at zero (a ∷ rest) = complete a ∷ rest
complete_at (suc i) (a ∷ rest) = a ∷ complete_at i rest

-- `std::make_shared<Session>(std::move(socket), push)->read()`
unfoldable pub open_session : List Acceptor → ℕ → ℕ → Bytes → List Session
open_session [] i handle garbage = []
open_session (a ∷ rest) zero handle garbage = read (new_session (wrap a handle) garbage) ∷ []
open_session (a ∷ rest) (suc i) handle garbage = open_session rest i handle garbage

unfoldable pub opened : List Acceptor → Arrival → List Session
opened accs (refused i) = []
opened accs (connected i handle garbage) = open_session accs i handle garbage

-- The callback of `async_accept`, with the call of `accept` at its end.
unfoldable pub on_accept : Front → Arrival → Front
unfolding opened open_session
on_accept f v = accept (record {
  acceptors = complete_at (place v) f.acceptors;
  sessions = f.sessions ++ opened f.acceptors v;
})

unfoldable pub run_accepts : Front → List Arrival → Front
run_accepts f [] = f
run_accepts f (v ∷ vs) = run_accepts (on_accept f v) vs
