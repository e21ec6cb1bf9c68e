-- ===== src/Run/Command/Members.antt =====
-- An assignment sets its own member and no other, and the last one made to a member stays.
use scriptor.Prelude.{◌≡◌, ◌≢◌, refl, ◌∙◌, List, [], ◌∷◌, ◌++◌, All}
use scriptor.Host.{Host}
use scriptor.Options.{Options}
use scriptor.Run.Command.{
  Target, help, socket_file, socket_address, socket_port, identity, threads, filelog_filename,
  filelog_max_file_mb, filelog_max_files, filelog_level, systemd_logging, systemd_level,
  syslog_logging, syslog_level, eventlog_logging, eventlog_level, ValueOf, Assignment, assign,
  assign_all,
}

module _ (h : Host) where
  -- The member that an option is bound to.
  abbrev pub member : (t : Target) → Options h → ValueOf h t
  member help o = tt
  member socket_file o = o.socket_file
  member socket_address o = o.socket_address
  member socket_port o = o.socket_port
  member identity o = o.identity
  member threads o = o.n_threads
  member filelog_filename o = o.file_sink_filename
  member filelog_max_file_mb o = o.file_sink_max_file_size
  member filelog_max_files o = o.file_sink_max_files
  member filelog_level o = o.file_sink_log_level
  member systemd_logging o = o.systemd_sink_use
  member systemd_level o = o.systemd_sink_log_level
  member syslog_logging o = o.syslog_sink_use
  member syslog_level o = o.syslog_sink_log_level
  member eventlog_logging o = o.eventlog_sink_use
  member eventlog_level o = o.eventlog_sink_log_level

  member-assign : (t : Target) (v : ValueOf h t) (o : Options h) → member t (assign h t v o) ≡ v
  unfolding assign
  member-assign help v o = refl
  member-assign socket_file v o = refl
  member-assign socket_address v o = refl
  member-assign socket_port v o = refl
  member-assign identity v o = refl
  member-assign threads v o = refl
  member-assign filelog_filename v o = refl
  member-assign filelog_max_file_mb v o = refl
  member-assign filelog_max_files v o = refl
  member-assign filelog_level v o = refl
  member-assign systemd_logging v o = refl
  member-assign systemd_level v o = refl
  member-assign syslog_logging v o = refl
  member-assign syslog_level v o = refl
  member-assign eventlog_logging v o = refl
  member-assign eventlog_level v o = refl

  member-assign_other :
      (t u : Target) (v : ValueOf h u) (o : Options h)
      → u ≢ t
      → member t (assign h u v o) ≡ member t o
  unfolding assign
  member-assign_other help help v o n = absurd (n refl)
  member-assign_other socket_file socket_file v o n = absurd (n refl)
  member-assign_other socket_address socket_address v o n = absurd (n refl)
  member-assign_other socket_port socket_port v o n = absurd (n refl)
  member-assign_other identity identity v o n = absurd (n refl)
  member-assign_other threads threads v o n = absurd (n refl)
  member-assign_other filelog_filename filelog_filename v o n = absurd (n refl)
  member-assign_other filelog_max_file_mb filelog_max_file_mb v o n = absurd (n refl)
  member-assign_other filelog_max_files filelog_max_files v o n = absurd (n refl)
  member-assign_other filelog_level filelog_level v o n = absurd (n refl)
  member-assign_other systemd_logging systemd_logging v o n = absurd (n refl)
  member-assign_other systemd_level systemd_level v o n = absurd (n refl)
  member-assign_other syslog_logging syslog_logging v o n = absurd (n refl)
  member-assign_other syslog_level syslog_level v o n = absurd (n refl)
  member-assign_other eventlog_logging eventlog_logging v o n = absurd (n refl)
  member-assign_other eventlog_level eventlog_level v o n = absurd (n refl)
  member-assign_other _ _ v o n = refl

  pub member-assign_all_other :
      (t : Target) (given : List (Assignment h)) (o : Options h)
      → All (λ (a : Assignment h). a.0 ≢ t) given
      → member t (assign_all h given o) ≡ member t o
  unfolding assign_all
  member-assign_all_other t [] o n = refl
  member-assign_all_other t ((u, v) ∷ given) o n =
      member-assign_all_other t given (assign h u v o) n.1 ∙ member-assign_other t u v o n.0

  pub member-assign_all :
      (t : Target) (v : ValueOf h t) (before behind : List (Assignment h)) (o : Options h)
      → All (λ (a : Assignment h). a.0 ≢ t) behind
      → member t (assign_all h (before ++ ((t, v) ∷ behind)) o) ≡ v
  unfolding assign_all
  member-assign_all t v [] behind o n =
      member-assign_all_other t behind (assign h t v o) n ∙ member-assign t v o
  member-assign_all t v ((u, w) ∷ before) behind o n =
      member-assign_all t v before behind (assign h u w o) n
