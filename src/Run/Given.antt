-- ===== src/Run/Given.antt =====
-- src/scriptor.cpp, 35-115: what the command line leaves in the options.
use scriptor.Prelude.{map, sym, refl, ◌≡◌, ◌≢◌, ap, ◌∙◌, List, ◌∷◌, ◌++◌, All, Bytes}
use scriptor.Host.{Host}
use scriptor.Options.{Options, Site, default_options}
use scriptor.Run.Command.{
  assign, OptionSpec, help, socket_file, socket_address, socket_port, identity, threads,
  filelog_filename, filelog_max_file_mb, filelog_max_files, filelog_level, systemd_logging,
  systemd_level, syslog_logging, syslog_level, eventlog_logging, eventlog_level, Target, ValueOf,
  Assignment, option_specs, assign_all,
}
use scriptor.Run.Command.Members.{member, member-assign_all_other, member-assign_all}
use scriptor.Run.{Shell, parse_options}
use scriptor.Run.Exit.{parsed}

module _ (h : Host) (site : Site h) (shell : Shell h) where
  -- The assignments that `op.parse` makes.
  abbrev made : List Bytes → List (Assignment h)
  made argv = (shell.parse option_specs argv).0

  -- The member of the options that an option is bound to holds the value of the last assignment
  -- that popl makes through the option, whatever it assigns before that, and through the other
  -- options behind it.
  pub parse_options-given :
      (argv : List Bytes) (t : Target) (v : ValueOf h t) (before behind : List (Assignment h))
      → made argv ≡ before ++ ((t, v) ∷ behind)
      → All (λ (a : Assignment h). a.0 ≢ t) behind
      → member h t (parsed h site shell argv).options ≡ v
  unfolding parse_options
  parse_options-given argv t v before behind e n =
      ap (λ g. member h t (assign_all h g (default_options h site))) e
      ∙ member-assign_all h t v before behind (default_options h site) n

  -- A member through whose option popl assigns nothing keeps its default.
  parse_options-kept :
      (argv : List Bytes) (t : Target)
      → All (λ (a : Assignment h). a.0 ≢ t) (made argv)
      → member h t (parsed h site shell argv).options ≡ member h t (default_options h site)
  unfolding parse_options
  parse_options-kept argv t n = member-assign_all_other h t (made argv) (default_options h site) n

  -- Each option of the table is given once, with these values.
  abbrev pub given : ((t : Target) → ValueOf h t) → List (Assignment h)
  given f = map (λ (s : OptionSpec). (s.target, f s.target)) option_specs

  -- The table of options has all members of the options, and no more: where each option of the
  -- table is given once, every member holds the value given for it, and the members with these
  -- values are all that there is to the options.
  pub options_complete :
      (f : (t : Target) → ValueOf h t) (argv : List Bytes)
      → made argv ≡ given f
      → ((t : Target) → member h t (parsed h site shell argv).options ≡ f t)
        × ((o : Options h)
            → ((t : Target) → member h t o ≡ f t)
            → o ≡ (parsed h site shell argv).options)
  unfolding parse_options option_specs assign_all assign
  options_complete f argv e =
      let set = ap (λ g. assign_all h g (default_options h site)) e in
      (
        λ t. ap (member h t) set ∙ holds t,
        λ o same.
            (λ i. record {
              socket_file = same socket_file i;
              socket_address = same socket_address i;
              socket_port = same socket_port i;
              identity = same identity i;
              n_threads = same threads i;
              file_sink_filename = same filelog_filename i;
              file_sink_max_file_size = same filelog_max_file_mb i;
              file_sink_max_files = same filelog_max_files i;
              file_sink_log_level = same filelog_level i;
              systemd_sink_use = same systemd_logging i;
              systemd_sink_log_level = same systemd_level i;
              syslog_sink_use = same syslog_logging i;
              syslog_sink_log_level = same syslog_level i;
              eventlog_sink_use = same eventlog_logging i;
              eventlog_sink_log_level = same eventlog_level i;
            })
            ∙ sym set,
      )
    where
      holds : (t : Target) → member h t (assign_all h (given f) (default_options h site)) ≡ f t
      holds help = refl
      holds socket_file = refl
      holds socket_address = refl
      holds socket_port = refl
      holds identity = refl
      holds threads = refl
      holds filelog_filename = refl
      holds filelog_max_file_mb = refl
      holds filelog_max_files = refl
      holds filelog_level = refl
      holds systemd_logging = refl
      holds systemd_level = refl
      holds syslog_logging = refl
      holds syslog_level = refl
      holds eventlog_logging = refl
      holds eventlog_level = refl
