-- ===== src/Acceptor.antt =====
-- src/acceptor.h and src/acceptor.cpp: a listening socket, and the accepts that are under way.
use scriptor.Prelude.{ℕ, ◌+◌, ◌-◌}
use scriptor.Socket.{Protocol, Socket, new_socket}

-- `UnixAcceptor` and `TcpAcceptor`. `pending` counts the calls of `async_accept` whose callback
-- asio has not called.
pub record Acceptor : Type 0 where
  pub protocol : Protocol
  pub pending : ℕ

unfoldable pub new_acceptor : Protocol → Acceptor
new_acceptor protocol = record { protocol = protocol; pending = 0 }

-- `async_accept`, up to its return.
unfoldable pub async_accept : Acceptor → Acceptor
async_accept a = record a { pending = a.pending + 1 }

-- asio calls back: one accept less is under way, and the socket is wrapped for its protocol.
unfoldable pub complete : Acceptor → Acceptor
complete a = record a { pending = a.pending - 1 }

unfoldable pub wrap : Acceptor → ℕ → Socket
wrap a handle = new_socket a.protocol handle
