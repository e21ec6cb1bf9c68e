-- ===== src/Run/Command.antt =====
-- src/scriptor.cpp, the options of `run` and the members of `Options` that they are bound to.
pub mod Members
use scriptor.Prelude.{ℕ, suc, Bool, List, [], ◌∷◌, ℤ, Bytes, codes}
use scriptor.Host.{Host}
use scriptor.Options.{Options}

-- The members of `Options` that command line options assign to; `help` has none.
pub data Target : Type 0 where
  help : Target
  socket_file socket_address socket_port identity threads : Target
  filelog_filename filelog_max_file_mb filelog_max_files filelog_level : Target
  systemd_logging systemd_level syslog_logging syslog_level : Target
  eventlog_logging eventlog_level : Target

-- `popl::Switch` takes no argument, `popl::Value` takes one.
pub data Argument : Type 0 where
  switch value : Argument

-- A call of `op.add`.
pub record OptionSpec : Type 0 where
  pub short_name : Bytes
  pub long_name : Bytes
  pub argument : Argument
  pub target : Target

abbrev long_option : Argument → Bytes → Target → OptionSpec
long_option argument name target = record {
  short_name = [];
  long_name = name;
  argument = argument;
  target = target;
}

-- The options of `run`, in order.
unfoldable pub option_specs : List OptionSpec
option_specs =
    record { short_name = codes "h"; long_name = codes "help"; argument = switch; target = help }
    ∷ long_option value (codes "socket_file") socket_file
    ∷ long_option value (codes "socket_address") socket_address
    ∷ long_option value (codes "socket_port") socket_port
    ∷ long_option value (codes "identity") identity
    ∷ long_option value (codes "threads") threads
    ∷ long_option value (codes "filelog_filename") filelog_filename
    ∷ long_option value (codes "filelog_max_file_mb") filelog_max_file_mb
    ∷ long_option value (codes "filelog_max_files") filelog_max_files
    ∷ long_option value (codes "filelog_level") filelog_level
    ∷ long_option switch (codes "systemd_logging") systemd_logging
    ∷ long_option value (codes "systemd_level") systemd_level
    ∷ long_option switch (codes "syslog_logging") syslog_logging
    ∷ long_option value (codes "syslog_level") syslog_level
    ∷ long_option switch (codes "eventlog_logging") eventlog_logging
    ∷ long_option value (codes "eventlog_level") eventlog_level
    ∷ []

module _ (h : Host) where
  -- The type of the member that an option is bound to; `help` is bound to none.
  abbrev pub ValueOf : Target → Type 0
  ValueOf help = Unit
  ValueOf socket_file = Bytes
  ValueOf socket_address = Bytes
  ValueOf socket_port = ℕ
  ValueOf identity = Bytes
  ValueOf threads = ℕ
  ValueOf filelog_filename = Bytes
  ValueOf filelog_max_file_mb = h.Double
  ValueOf filelog_max_files = ℕ
  ValueOf filelog_level = ℤ
  ValueOf systemd_logging = Bool
  ValueOf systemd_level = ℤ
  ValueOf syslog_logging = Bool
  ValueOf syslog_level = ℤ
  ValueOf eventlog_logging = Bool
  ValueOf eventlog_level = ℤ

  -- An option of the command line, with the value that popl has read.
  abbrev pub Assignment : Type 0
  Assignment = (t : Target) × ValueOf t

  -- `*assign_to = value`
  unfoldable pub assign : (t : Target) → ValueOf t → Options h → Options h
  assign help v o = o
  assign socket_file v o = record o { socket_file = v }
  assign socket_address v o = record o { socket_address = v }
  assign socket_port v o = record o { socket_port = v }
  assign identity v o = record o { identity = v }
  assign threads v o = record o { n_threads = v }
  assign filelog_filename v o = record o { file_sink_filename = v }
  assign filelog_max_file_mb v o = record o { file_sink_max_file_size = v }
  assign filelog_max_files v o = record o { file_sink_max_files = v }
  assign filelog_level v o = record o { file_sink_log_level = v }
  assign systemd_logging v o = record o { systemd_sink_use = v }
  assign systemd_level v o = record o { systemd_sink_log_level = v }
  assign syslog_logging v o = record o { syslog_sink_use = v }
  assign syslog_level v o = record o { syslog_sink_log_level = v }
  assign eventlog_logging v o = record o { eventlog_sink_use = v }
  assign eventlog_level v o = record o { eventlog_sink_log_level = v }

  unfoldable pub assign_all : List Assignment → Options h → Options h
  assign_all [] o = o
  assign_all ((t, v) ∷ given) o = assign_all given (assign t v o)

  -- `help->count()`
  unfoldable pub count_help : List Assignment → ℕ
  count_help [] = 0
  count_help ((help, v) ∷ given) = suc (count_help given)
  count_help ((t, v) ∷ given) = count_help given
