-- ===== src/Tests/Serving.antt =====
-- A server with two acceptors and two loggers, and the ways its start can go.
use scriptor.Prelude.{
  Bool, Bytes, ℕ, zero, suc, ◌+◌, ◌*◌, ◌≤◌, ◌≡◌, refl, true, false, none, List, [], ◌∷◌, ◌++◌, map,
  is_empty, replicate, pos, codes, All, ok, arith,
}
use scriptor.Options.{systemd, Options}
use scriptor.Socket.{unix, tcp, completed, failed}
use scriptor.Acceptor.{new_acceptor, async_accept, complete, wrap}
use scriptor.Session.{Session, run_session, new_session, read}
use scriptor.Logger.{
  log, flush, log_msg, logging, terminated, turn, join, stop, destroy_logger, Logger, new_logger,
  waiting,
}
use scriptor.Server.Setup.{
  Sink, unix_acceptors, tcp_acceptors, setup_acceptors, sink_if, platform_sinks, setup_sinks,
}
use scriptor.Server.Setup.Laws.{wanted_acceptors, wanted_sinks, or_console, AreOpen, setup_sinks-ok}
use scriptor.Server.Threads.{
  joinable, joined, Start, started, no_room, Producers, join_if_joinable, shutdown, Ended,
  start_threads,
}
use scriptor.Server.Threads.Safety.{EndsSafely, start_threads-EndsSafely}
use scriptor.Server.Accept.{Front, accept, refused, connected, on_accept, run_accepts}
use scriptor.Server.Accept.Pending.{total_pending, run_accepts-total}
use scriptor.Server.Dispatch.{dispatch_all}
use scriptor.Server.{destroy, Server, new_server}
use scriptor.Server.Life.{new_server-ok}
use scriptor.Server.Delivery.{Writes, client-Writes}
use scriptor.Processor.Stream.{AreCuts, decode_cuts}
use scriptor.Tests.Sample.{host, site}
use scriptor.Tests.Frames.{no_frame, pieces}
use scriptor.Tests.Logging.{from_warn, loud, quiet}

abbrev both : Front
both = record {
  acceptors = record { protocol = unix; pending = 1 } ∷ record { protocol = tcp; pending = 1 } ∷ [];
  sessions = [];
}

accept_run : on_accept both (connected 1 9 []) ≡ record {
  acceptors = record { protocol = unix; pending = 2 } ∷ record { protocol = tcp; pending = 1 } ∷ [];
  sessions =
      record {
        socket = record { protocol = tcp; handle = 9; pending = 1 };
        buffer = [];
        processor = record { current = [] };
      }
      ∷ [];
}
unfolding on_accept accept complete async_accept wrap new_session read
accept_run = refl

run_accepts-total_example :
    total_pending (run_accepts both (connected 1 9 [] ∷ refused 0 ∷ [])).acceptors + 2 ≡ 2 + 2 * 2
unfolding on_accept accept async_accept
run_accepts-total_example = run_accepts-total (connected 1 9 [] ∷ refused 0 ∷ []) both awaited
  where
    awaited : (1 ≤ 1) × ((1 ≤ 2) × Unit {0})
    awaited = (omega arith, (omega arith, tt))

abbrev second_fails : ℕ → Start
second_fails zero = started
second_fails (suc i) = no_room (codes "bad_alloc")

start_threads_run :
    start_threads 3 second_fails 0 (record { ioc_stopped = false; threads = [] })
    ≡ Ended.threw
        (codes "bad_alloc")
        (record { ioc_stopped = true; threads = joined ∷ [] })
        (joined ∷ [])
unfolding start_threads shutdown join_if_joinable
start_threads_run = refl

start_threads-EndsSafely_example :
    EndsSafely 3 second_fails 0
      (record { ioc_stopped = false; threads = [] })
      (start_threads 3 second_fails 0 (record { ioc_stopped = false; threads = [] }))
start_threads-EndsSafely_example =
    start_threads-EndsSafely 3 second_fails 0 (record { ioc_stopped = false; threads = [] })

abbrev two_threads : Producers
two_threads = record { ioc_stopped = false; threads = joinable ∷ joined ∷ [] }

abbrev pub on_unix : Options host
on_unix = record {
  socket_file = codes "/tmp/s.sock";
  socket_address = [];
  socket_port = 12345;
  identity = codes "scriptor";
  n_threads = 2;
  file_sink_filename = [];
  file_sink_max_file_size = pos 10;
  file_sink_max_files = 3;
  file_sink_log_level = pos 0;
  systemd_sink_use = true;
  systemd_sink_log_level = pos 9;
  syslog_sink_use = false;
  syslog_sink_log_level = pos 0;
  eventlog_sink_use = false;
  eventlog_sink_log_level = pos 0;
}

abbrev journal : List Sink
journal = record { kind = systemd (codes "scriptor"); level = pos 9; pattern = none } ∷ []

sinks_made : setup_sinks host site on_unix ≡ ok journal
unfolding setup_sinks sink_if platform_sinks
sinks_made = refl

setup_sinks-ok_example :
    (journal ≡ or_console host site on_unix (wanted_sinks host site on_unix))
    × AreOpen host site on_unix journal
    × (is_empty journal ≡ false)
setup_sinks-ok_example = setup_sinks-ok host site on_unix sinks_made

abbrev all_start : ℕ → Start
all_start i = started

abbrev pub started_server : Server
started_server = record {
  front = record { acceptors = record { protocol = unix; pending = 1 } ∷ []; sessions = [] };
  producers = record { ioc_stopped = false; threads = joinable ∷ joinable ∷ [] };
  sinks = journal;
  loggers = record { done = false; elements = []; worker = waiting } ∷ [];
}

pub server_starts : new_server host site on_unix (λ i. started) ≡ ok started_server
unfolding new_server setup_acceptors unix_acceptors tcp_acceptors setup_sinks sink_if platform_sinks
    start_threads accept async_accept new_acceptor new_logger
server_starts = refl

new_server-ok_example :
    (started_server.front.acceptors ≡ map async_accept (wanted_acceptors host site on_unix))
    × (is_empty started_server.front.acceptors ≡ false)
    × (started_server.sinks ≡ or_console host site on_unix (wanted_sinks host site on_unix))
    × (started_server.loggers ≡ map (λ k. new_logger) started_server.sinks)
    × (started_server.producers.threads ≡ replicate 2 joinable)
    × (started_server.producers.ioc_stopped ≡ false)
new_server-ok_example = new_server-ok host site on_unix (λ i. started) server_starts

abbrev two_loggers : List Logger
two_loggers = record { done = false; elements = loud ∷ []; worker = waiting } ∷ new_logger ∷ []

abbrev two_logs : List (Bytes × Bytes)
two_logs = ([], codes "l:2,m:hi") ∷ ([], []) ∷ []

two_logs-AreCuts : AreCuts two_logs
two_logs-AreCuts =
    ((tt, (refl, (refl, (refl, (refl, (refl, (refl, (refl, (refl, tt))))))))), ((tt, tt), tt))

client-Writes_example :
    (s : Session) × ((on_accept both (connected 1 9 [])).sessions ≡ s ∷ [])
    × All (Writes from_warn (decode_cuts host two_logs 0).0) (
        dispatch_all
          (map (λ k. new_logger) (journal ++ journal))
          (run_session host s (map completed pieces ++ (failed ∷ [])) 0).0.0)
client-Writes_example =
    client-Writes host from_warn both 1 9 [] (journal ++ journal) pieces [] 0 two_logs (codes "{l")
      (omega arith) two_logs-AreCuts no_frame refl

abbrev busy_server : Server
busy_server = record {
  front = both;
  producers = two_threads;
  sinks = journal;
  loggers =
      record { done = false; elements = quiet ∷ []; worker = logging (loud ∷ loud ∷ []) 0 } ∷ [];
}

abbrev second_throws : ℕ → ℕ → Bool
second_throws i zero = false
second_throws i (suc n) = true

destroy_run :
    (destroy (λ i. from_warn) second_throws busy_server).1
    ≡ (
      record { done = true; elements = quiet ∷ []; worker = terminated },
      log (log_msg loud) false ∷ log (log_msg loud) true ∷ flush true ∷ [],
    )
      ∷ []
unfolding destroy destroy_logger join stop turn
destroy_run = refl
