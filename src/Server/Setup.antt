-- ===== src/Server/Setup.antt =====
-- src/server.cpp, `Server::Server` up to the threads: the acceptors and the loggers that the
-- options ask for.
pub mod Laws
use scriptor.Prelude.{
  ℕ, Bool, true, false, Option, none, some, List, [], ◌∷◌, ◌++◌, ℤ, is_empty, not, if◌then◌else◌,
  Bytes, codes, Result, ok, err, ◌>>=◌, ◌>>◌,
}
use scriptor.Host.{Host}
use scriptor.Options.{
  Platform, linux, windows, apple, SinkKind, rotating_file, systemd, syslog, eventlog, stdout, Site,
  Options,
}
use scriptor.Socket.{unix, tcp}
use scriptor.Acceptor.{Acceptor, new_acceptor}

-- A sink with its level, and the pattern that was set, if one was.
pub record Sink : Type 0 where
  pub kind : SinkKind
  pub level : ℤ
  pub pattern : Option Bytes

abbrev pub pattern_text : Bytes
pattern_text = codes "[%Y-%m-%dT%H:%M:%S.%f] [%l] %v"

abbrev pub no_acceptor : Bytes
no_acceptor = codes "Must provide socket_file and/or socket_address!"

module _ (h : Host) (site : Site h) (opt : Options h) where
  unfoldable pub unix_acceptors : Result (List Acceptor)
  unix_acceptors =
      if is_empty opt.socket_file
      then ok []
      else (do site.bind_unix opt.socket_file; ok (new_acceptor unix ∷ []))

  unfoldable pub tcp_acceptors : Result (List Acceptor)
  tcp_acceptors = if is_empty opt.socket_address then ok [] else (do
    address ← site.address_from_string opt.socket_address
    site.bind_tcp address opt.socket_port
    ok (new_acceptor tcp ∷ []))

  -- `m_acceptors`, or the exception of "Setup acceptors".
  unfoldable pub setup_acceptors : Result (List Acceptor)
  setup_acceptors = do
    us ← unix_acceptors
    ts ← tcp_acceptors
    if is_empty (us ++ ts) then err no_acceptor else ok (us ++ ts)

  -- A sink behind its `if`.
  unfoldable pub sink_if : Bool → SinkKind → ℤ → Option Bytes → Result (List Sink)
  sink_if asked kind level pattern =
      if asked
      then (do
        site.open_sink kind
        ok (record { kind = kind; level = level; pattern = pattern } ∷ []))
      else ok []

  unfoldable pub file_kind : SinkKind
  file_kind =
      rotating_file opt.file_sink_filename (site.bytes_of_mb opt.file_sink_max_file_size)
        opt.file_sink_max_files

  -- What the preprocessor leaves of the sinks of the operating system.
  unfoldable pub platform_sinks : Platform → Result (List Sink)
  platform_sinks linux = do
    ds ← sink_if opt.systemd_sink_use (systemd opt.identity) opt.systemd_sink_log_level none
    ss ← sink_if opt.syslog_sink_use (syslog opt.identity) opt.syslog_sink_log_level none
    ok (ds ++ ss)
  platform_sinks windows =
      sink_if opt.eventlog_sink_use (eventlog opt.identity) opt.eventlog_sink_log_level none
  platform_sinks apple = ok []

  -- The sinks of `m_loggers`, in order, or the exception of "Setup loggers".
  unfoldable pub setup_sinks : Result (List Sink)
  setup_sinks = do
    fs ←
        sink_if (not (is_empty opt.file_sink_filename)) file_kind opt.file_sink_log_level
          (some pattern_text)
    ps ← platform_sinks site.platform
    if is_empty (fs ++ ps) then sink_if true stdout h.trace (some pattern_text) else ok (fs ++ ps)
