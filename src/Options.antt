-- ===== src/Options.antt =====
-- src/server.h: `Options`, and what the setup of a server needs of the platform and of libraries.
use scriptor.Prelude.{ℕ, Bool, false, [], ℤ, Bytes, codes, Result}
use scriptor.Host.{Host}

-- The macros of CMakeLists.txt: SCRIPTOR_LINUX, SCRIPTOR_WINDOWS, SCRIPTOR_APPLE.
pub data Platform : Type 0 where
  linux windows apple : Platform

-- The spdlog sinks that a server makes, with the arguments of their constructors.
pub data SinkKind : Type 0 where
  rotating_file : Bytes → ℕ → ℕ → SinkKind
  systemd : Bytes → SinkKind
  syslog : Bytes → SinkKind
  eventlog : Bytes → SinkKind
  stdout : SinkKind

-- Constructors of asio and spdlog, which may throw: binding a unix socket to a file, reading an
-- address, binding a tcp socket to an address and a port, opening a sink.
-- `bytes_of_mb` is `static_cast<std::size_t>(value * 1e6)`.
pub record Site (h : Host) : Type 1 where
  pub Address : Type 0
  pub platform : Platform
  pub bind_unix : Bytes → Result (Unit {0})
  pub address_from_string : Bytes → Result Address
  pub bind_tcp : Address → ℕ → Result (Unit {0})
  pub open_sink : SinkKind → Result (Unit {0})
  pub bytes_of_mb : h.Double → ℕ
  pub ten : h.Double
  pub hardware_concurrency : ℕ

module _ (h : Host) where
  pub record Options : Type 0 where
    pub socket_file : Bytes
    pub socket_address : Bytes
    pub socket_port : ℕ
    pub identity : Bytes
    pub n_threads : ℕ
    pub file_sink_filename : Bytes
    pub file_sink_max_file_size : h.Double
    pub file_sink_max_files : ℕ
    pub file_sink_log_level : ℤ
    pub systemd_sink_use : Bool
    pub systemd_sink_log_level : ℤ
    pub syslog_sink_use : Bool
    pub syslog_sink_log_level : ℤ
    pub eventlog_sink_use : Bool
    pub eventlog_sink_log_level : ℤ

  -- The member initialisers.
  unfoldable pub default_options : Site h → Options
  default_options site = record {
    socket_file = [];
    socket_address = [];
    socket_port = 12345;
    identity = codes "scriptor";
    n_threads = site.hardware_concurrency;
    file_sink_filename = [];
    file_sink_max_file_size = site.ten;
    file_sink_max_files = 3;
    file_sink_log_level = h.trace;
    systemd_sink_use = false;
    systemd_sink_log_level = h.trace;
    syslog_sink_use = false;
    syslog_sink_log_level = h.trace;
    eventlog_sink_use = false;
    eventlog_sink_log_level = h.trace;
  }
