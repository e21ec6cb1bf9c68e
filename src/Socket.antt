-- ===== src/Socket.antt =====
-- src/socket.h and src/socket.cpp: a connected socket, by the protocol that it was accepted on.
-- Of asio only this is modelled: a read that is under way is counted by the socket, and asio
-- decides when and how it completes.
use scriptor.Prelude.{ℕ, ◌+◌, ◌-◌, Bytes}

pub data Protocol : Type 0 where
  unix tcp : Protocol

-- `UnixSocket` and `TcpSocket`, each over the asio socket `handle`. `pending` counts the calls of
-- `async_read_some` whose callback asio has not called.
pub record Socket : Type 0 where
  pub protocol : Protocol
  pub handle : ℕ
  pub pending : ℕ

-- The constructors, which take over the asio socket.
abbrev pub new_socket : Protocol → ℕ → Socket
new_socket protocol handle = record { protocol = protocol; handle = handle; pending = 0 }

-- `async_read_some` of either class, up to its return.
abbrev pub async_read_some : Socket → Socket
async_read_some s = record s { pending = s.pending + 1 }

-- asio calls back: one read less is under way.
abbrev pub answered : Socket → Socket
answered s = record s { pending = s.pending - 1 }

-- What asio hands to the callback of `async_read_some`: an error, or the bytes that it has
-- written to the front of the buffer.
pub data Completion : Type 0 where
  failed : Completion
  completed : Bytes → Completion
