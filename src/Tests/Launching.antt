-- ===== src/Tests/Launching.antt =====
-- Servers as their constructor leaves them, through a few steps.
use scriptor.Prelude.{length, ok, ℕ, ◌≡◌, refl, [], ◌∷◌, codes, arith}
use scriptor.Socket.{unix, tcp}
use scriptor.Acceptor.{async_accept, new_acceptor, complete}
use scriptor.Logger.{new_logger}
use scriptor.Server.Accept.{accept, on_accept, connected}
use scriptor.Server.System.Listening.{Hears}
use scriptor.Server.System.Alone.{Returns, Opens, accept_alone}
use scriptor.Server.Accept.Pending.{total_pending}
use scriptor.Tests.Running.{now, levels}
use scriptor.Server.System.{accepting, begin, new_station, refuses, System, here, later}
use scriptor.Server.System.Launch.{
  one_socket_one_listener, two_sockets_two_listeners, Serves, server_listens,
}
use scriptor.Options.{Options}
use scriptor.Server.Setup.{
  unix_acceptors, tcp_acceptors, setup_acceptors, sink_if, platform_sinks, setup_sinks,
}
use scriptor.Server.Setup.Laws.{wanted_acceptors}
use scriptor.Server.Threads.{started, start_threads}
use scriptor.Server.{Server, new_server}
use scriptor.Tests.Serving.{on_unix, started_server, server_starts}
use scriptor.Tests.Sample.{host, site}

-- The server of the options in `on_unix`, behind a failed accept.
abbrev refused_once : (t : System) × Serves host site now levels started_server t
unfolding accept on_accept complete async_accept
refused_once = (_, later here (refuses 1 0 (omega arith, refl, refl) (omega arith)))

server_listens_example :
    (length refused_once.0.acceptors ≡ length (wanted_acceptors host site on_unix))
    × Hears (length started_server.producers.threads) refused_once.0.acceptors refused_once.0.thread
server_listens_example =
    server_listens host site now levels on_unix (λ i. started) server_starts refused_once.1

one_socket_one_listener_example : (◌≡◌ {A = ℕ} 1 1) × (total_pending refused_once.0.acceptors ≡ 0)
unfolding accept on_accept complete async_accept
one_socket_one_listener_example =
    one_socket_one_listener host site now levels on_unix (λ i. started) server_starts refl
      refused_once.1 1 1 (omega arith) (omega arith) refl refl

abbrev on_both : Options host
on_both = record on_unix { socket_address = codes "127.0.0.1" }

abbrev both_server : Server
both_server = record started_server {
  front = record {
    acceptors =
        record { protocol = unix; pending = 1 } ∷ record { protocol = tcp; pending = 1 } ∷ [];
    sessions = [];
  };
}

both_starts : new_server host site on_both (λ i. started) ≡ ok both_server
unfolding new_server setup_acceptors unix_acceptors tcp_acceptors setup_sinks sink_if platform_sinks
    start_threads accept async_accept new_acceptor new_logger
both_starts = refl

two_sockets_two_listeners_example :
    (t : System) × Serves host site now levels both_server t
    × (t.thread 0 ≡ accepting 0)
    × (t.thread 1 ≡ accepting 0)
two_sockets_two_listeners_example =
    two_sockets_two_listeners host site now levels on_both (λ i. started) both_starts refl
      (omega arith)

accept_alone_example :
    (t : System) × Returns host now levels 2 1 1 (begin both_server.front.acceptors) 4 t
    × (t.acceptors
        ≡ (on_accept
            (record { acceptors = both_server.front.acceptors; sessions = [] })
            (connected 1 9 [])).acceptors)
    × Opens host now levels 2 1
        (begin both_server.front.acceptors)
        t
        (on_accept
          (record { acceptors = both_server.front.acceptors; sessions = [] })
          (connected 1 9 [])).sessions
    × (t.station ≡ λ j. new_station)
accept_alone_example =
    accept_alone host now levels 2 1 (begin both_server.front.acceptors) 1 (connected 1 9 [])
      (omega arith, refl, refl) (omega arith)
