-- ===== src/Tests/Program.antt =====
-- Runs of the program: one line of three asks for help, one is wrong, one starts a server.
use scriptor.Prelude.{
  map, false, ◌≡◌, ◌≢◌, refl, true, none, some, Option, List, [], ◌∷◌, if◌then◌else◌, ℤ, pos, Bytes,
  codes, ok, arith,
}
use scriptor.Options.{Options, default_options}
use scriptor.Server.Threads.{started}
use scriptor.Run.Command.{
  option_specs, Target, ValueOf, OptionSpec, Assignment, help, socket_file, socket_address,
  socket_port, identity, threads, filelog_filename, filelog_max_file_mb, filelog_max_files,
  filelog_level, systemd_logging, systemd_level, syslog_logging, syslog_level, eventlog_logging,
  eventlog_level, assign, assign_all, count_help,
}
use scriptor.Run.Command.Members.{member}
use scriptor.Run.Given.{parse_options-given, options_complete}
use scriptor.Run.{
  Exception, parse_options, Shell, invalid_option, file_removed, server_started, server_destroyed,
  exited, clear_socket, run,
}
use scriptor.Run.Exit.{Explained, parsed, run-Explained, run_until_signal}
use scriptor.Tests.Sample.{host, site, same}
use scriptor.Tests.Serving.{started_server, server_starts}

-- `--threads` is given twice.
abbrev given : List (Assignment host)
given =
    (socket_file, codes "/tmp/s.sock")
    ∷ (threads, 7)
    ∷ (systemd_logging, true)
    ∷ (threads, 2)
    ∷ (systemd_level, pos 9)
    ∷ []

abbrev parse : List OptionSpec → List Bytes → List (Assignment host) × Option Exception
parse specs argv = elim argv [
  | [] ↦ (given, none)
  | (word ∷ words) ↦
      if same word (codes "-h")
      then ((help, tt) ∷ [], some (invalid_option (codes "unknown")))
      else ([], some (invalid_option word))
]

abbrev shell : Shell host
shell = record { parse = parse; exists = λ file. ok true; remove = λ file. ok true }

abbrev looks : List (Option ℤ)
looks = none ∷ some (pos 15) ∷ []

run-Explained_example :
    Explained
      (parsed host site shell []).options.socket_file
      (run host site shell [] (λ i. started) looks)
run-Explained_example = run-Explained host site shell [] (λ i. started) looks

cleared :
    clear_socket host site shell (codes "/tmp/s.sock")
    ≡ ok (file_removed (codes "/tmp/s.sock") ∷ [])
unfolding clear_socket
cleared = refl

run_until_signal_example : run host site shell [] (λ i. started) looks ≡ (
  exited 0,
  file_removed (codes "/tmp/s.sock")
      ∷ server_started started_server
      ∷ server_destroyed started_server
      ∷ [],
)
unfolding parse_options assign_all assign count_help default_options
run_until_signal_example =
    run_until_signal host site shell [] (λ i. started) looks started_server
      (file_removed (codes "/tmp/s.sock") ∷ []) refl refl cleared server_starts

abbrev bare : Shell host
bare = record {
  parse = λ specs argv. ([], none);
  exists = λ file. ok false;
  remove = λ file. ok false;
}

not_there : clear_socket host site bare [] ≡ ok []
unfolding clear_socket
not_there = refl

parse_options-given_example : member host threads (parsed host site shell []).options ≡ 2
parse_options-given_example =
    parse_options-given host site shell [] threads 2
      ((socket_file, codes "/tmp/s.sock") ∷ (threads, 7) ∷ (systemd_logging, true) ∷ [])
      ((systemd_level, pos 9) ∷ []) refl (level_is_other, tt)
  where
    level_is_other : systemd_level ≢ threads
    level_is_other = λ e. ground arith

abbrev settings : (t : Target) → ValueOf host t
settings help = tt
settings socket_file = codes "/tmp/s.sock"
settings socket_address = []
settings socket_port = 80
settings identity = codes "me"
settings threads = 2
settings filelog_filename = codes "log"
settings filelog_max_file_mb = pos 1
settings filelog_max_files = 4
settings filelog_level = pos 2
settings systemd_logging = true
settings systemd_level = pos 3
settings syslog_logging = false
settings syslog_level = pos 1
settings eventlog_logging = true
settings eventlog_level = pos 5

abbrev thorough : Shell host
thorough = record bare {
  parse = λ specs argv. (map (λ (s : OptionSpec). (s.target, settings s.target)) specs, none);
}

options_complete_example :
    ((t : Target) → member host t (parsed host site thorough []).options ≡ settings t)
    × ((o : Options host)
        → ((t : Target) → member host t o ≡ settings t)
        → o ≡ (parsed host site thorough []).options)
options_complete_example = options_complete host site thorough settings [] refl

-- The options are those of the usage in README.md.
names :
    map (λ (s : OptionSpec). s.long_name) option_specs
    ≡ codes "help"
      ∷ codes "socket_file"
      ∷ codes "socket_address"
      ∷ codes "socket_port"
      ∷ codes "identity"
      ∷ codes "threads"
      ∷ codes "filelog_filename"
      ∷ codes "filelog_max_file_mb"
      ∷ codes "filelog_max_files"
      ∷ codes "filelog_level"
      ∷ codes "systemd_logging"
      ∷ codes "systemd_level"
      ∷ codes "syslog_logging"
      ∷ codes "syslog_level"
      ∷ codes "eventlog_logging"
      ∷ codes "eventlog_level"
      ∷ []
unfolding option_specs
names = refl
