-- ===== src/Server/Setup/Laws.antt =====
-- The acceptors and sinks of a server, described by the options alone.
use scriptor.Prelude.{
  ◌≡◌, refl, sym, subst, ap, ap₂, ◌∙◌, Bool, true, false, ◌&&◌, Option, none, some, List, [], ◌∷◌,
  ◌++◌, ℤ, is_empty, not, if◌then◌else◌, Bytes, All, ok, err, bind-eq-ok, arith,
}
use scriptor.Host.{Host}
use scriptor.Options.{
  Platform, linux, windows, apple, SinkKind, rotating_file, systemd, syslog, eventlog, stdout, Site,
  Options,
}
use scriptor.Socket.{unix, tcp}
use scriptor.Acceptor.{Acceptor, new_acceptor}
use scriptor.Server.Setup.{
  Sink, pattern_text, no_acceptor, unix_acceptors, tcp_acceptors, setup_acceptors, sink_if,
  file_kind, platform_sinks, setup_sinks,
}

abbrev pub only_if {ℓ} : {A : Type ℓ} → Bool → A → List A
only_if asked a = if asked then a ∷ [] else []

refuse_empty :
    (xs : List Acceptor) {accs : List Acceptor}
    → (if is_empty xs then err no_acceptor else ok xs) ≡ ok accs
    → (accs ≡ xs) × (is_empty accs ≡ false)
refuse_empty [] e = cc
refuse_empty (x ∷ xs) e = ground arith

module _ (h : Host) (site : Site h) (opt : Options h) where
  -- An acceptor for each socket that the options name.
  abbrev pub wanted_acceptors : List Acceptor
  wanted_acceptors =
      only_if (not (is_empty opt.socket_file)) (new_acceptor unix)
      ++ only_if (not (is_empty opt.socket_address)) (new_acceptor tcp)

  unix_acceptors-ok :
      {us : List Acceptor}
      → unix_acceptors h site opt ≡ ok us
      → us ≡ only_if (not (is_empty opt.socket_file)) (new_acceptor unix)
  unfolding unix_acceptors
  unix_acceptors-ok e = ground arith

  tcp_acceptors-ok :
      {ts : List Acceptor}
      → tcp_acceptors h site opt ≡ ok ts
      → ts ≡ only_if (not (is_empty opt.socket_address)) (new_acceptor tcp)
  unfolding tcp_acceptors
  tcp_acceptors-ok e = ground arith

  -- Where the setup of the acceptors succeeds, there is one for each socket that the options name,
  -- the unix socket first, and there is at least one.
  pub setup_acceptors-ok :
      {accs : List Acceptor}
      → setup_acceptors h site opt ≡ ok accs
      → (accs ≡ wanted_acceptors) × (is_empty accs ≡ false)
  unfolding setup_acceptors
  setup_acceptors-ok e =
      let (us, eu, e') = bind-eq-ok (unix_acceptors h site opt) _ e in
      let (ts, et, e'') = bind-eq-ok (tcp_acceptors h site opt) _ e' in
      let (same, some_left) = refuse_empty (us ++ ts) e'' in
      (same ∙ ap₂ ◌++◌ (unix_acceptors-ok eu) (tcp_acceptors-ok et), some_left)

  -- Where asio takes the address and binds both sockets: with neither socket among the options the
  -- setup is refused, and otherwise there is an acceptor for each socket that the options name.
  setup_acceptors_bound :
      (a : site.Address)
      → site.bind_unix opt.socket_file ≡ ok tt
      → site.address_from_string opt.socket_address ≡ ok a
      → site.bind_tcp a opt.socket_port ≡ ok tt
      → setup_acceptors h site opt ≡ (
          if is_empty opt.socket_file && is_empty opt.socket_address
          then err no_acceptor
          else ok wanted_acceptors)
  unfolding setup_acceptors unix_acceptors tcp_acceptors
  setup_acceptors_bound a eu ea et = ground arith

  -- What `open_sink` has let through.
  abbrev pub AreOpen : List Sink → Type 0
  AreOpen = All (λ s. site.open_sink s.kind ≡ ok tt)

  AreOpen-append : (xs ys : List Sink) → AreOpen xs → AreOpen ys → AreOpen (xs ++ ys)
  AreOpen-append [] ys hx hy = hy
  AreOpen-append (x ∷ xs) ys hx hy = (hx.0, AreOpen-append xs ys hx.1 hy)

  -- The sinks are the wanted ones, and all of them could be opened.
  abbrev pub Made : List Sink → List Sink → Type 0
  Made ss wanted = (ss ≡ wanted) × AreOpen ss

  Made-append :
      (xs ys : List Sink) {vs ws : List Sink} → Made xs vs → Made ys ws → Made (xs ++ ys) (vs ++ ws)
  Made-append xs ys x y = (ap₂ ◌++◌ x.0 y.0, AreOpen-append xs ys x.1 y.1)

  sink_if-ok :
      (asked : Bool) (kind : SinkKind) (level : ℤ) (pattern : Option Bytes) {ss : List Sink}
      → sink_if h site opt asked kind level pattern ≡ ok ss
      → Made ss (only_if asked (record { kind = kind; level = level; pattern = pattern }))
  unfolding sink_if
  sink_if-ok false kind level pattern {ss} e = let q : ss ≡ [] = cc in (q, subst AreOpen (sym q) tt)
  sink_if-ok true kind level pattern {ss} e =
      let (u, opened, e') = bind-eq-ok (site.open_sink kind) _ e in
      let q : ss ≡ record { kind = kind; level = level; pattern = pattern } ∷ [] = cc in
      (q, subst AreOpen (sym q) (opened, tt))

  abbrev pub wanted_platform_sinks : Platform → List Sink
  wanted_platform_sinks linux =
      only_if opt.systemd_sink_use
        (record { kind = systemd opt.identity; level = opt.systemd_sink_log_level; pattern = none })
      ++ only_if opt.syslog_sink_use
          (record { kind = syslog opt.identity; level = opt.syslog_sink_log_level; pattern = none })
  wanted_platform_sinks windows =
      only_if opt.eventlog_sink_use (record {
        kind = eventlog opt.identity;
        level = opt.eventlog_sink_log_level;
        pattern = none;
      })
  wanted_platform_sinks apple = []

  platform_sinks-ok :
      (platform : Platform) {ss : List Sink}
      → platform_sinks h site opt platform ≡ ok ss
      → Made ss (wanted_platform_sinks platform)
  unfolding platform_sinks
  platform_sinks-ok linux {ss} e =
      let (ds, ed, e') = bind-eq-ok _ _ e in
      let (ls, el, e'') = bind-eq-ok _ _ e' in
      let q : ss ≡ ds ++ ls = cc in
      subst (λ xs. Made xs (wanted_platform_sinks linux)) (sym q)
        (Made-append ds ls (sink_if-ok _ _ _ _ ed) (sink_if-ok _ _ _ _ el))
  platform_sinks-ok windows e = sink_if-ok _ _ _ _ e
  platform_sinks-ok apple {ss} e = let q : ss ≡ [] = cc in (q, subst AreOpen (sym q) tt)

  -- The file sink with its pattern, and the sinks of the operating system; all at the levels that
  -- the options give, whatever integers these are.
  abbrev pub wanted_sinks : List Sink
  wanted_sinks =
      only_if (not (is_empty opt.file_sink_filename)) (record {
        kind =
            rotating_file opt.file_sink_filename (site.bytes_of_mb opt.file_sink_max_file_size)
              opt.file_sink_max_files;
        level = opt.file_sink_log_level;
        pattern = some pattern_text;
      })
      ++ wanted_platform_sinks site.platform

  abbrev pub or_console : List Sink → List Sink
  or_console ss =
      if is_empty ss
      then record { kind = stdout; level = h.trace; pattern = some pattern_text } ∷ []
      else ss

  or_console_some : (ws : List Sink) → is_empty (or_console ws) ≡ false
  or_console_some [] = refl
  or_console_some (w ∷ ws) = refl

  console_only_alone :
      (xs ws : List Sink) {ss : List Sink}
      → Made xs ws
      → (if is_empty xs then sink_if h site opt true stdout h.trace (some pattern_text) else ok xs)
        ≡ ok ss
      → Made ss (or_console ws)
  console_only_alone [] ws {ss} m e =
      subst (λ vs. Made ss (or_console vs)) m.0
        (sink_if-ok true stdout h.trace (some pattern_text) e)
  console_only_alone (x ∷ xs) ws {ss} m e =
      let q : ss ≡ x ∷ xs = cc in
      subst (λ vs. Made vs (or_console ws)) (sym q)
        (subst (λ vs. (x ∷ xs ≡ or_console vs)) m.0 refl, m.1)

  -- Where the setup of the loggers succeeds, there is a sink for each logging that is asked for
  -- and that the platform has, with its level and pattern; the console stands in where there is
  -- no other. Every sink could be opened, and there is at least one.
  pub setup_sinks-ok :
      {ss : List Sink}
      → setup_sinks h site opt ≡ ok ss
      → (ss ≡ or_console wanted_sinks) × AreOpen ss × (is_empty ss ≡ false)
  unfolding setup_sinks file_kind
  setup_sinks-ok {ss} e =
      let (fs, ef, e') = bind-eq-ok _ _ e in
      let (ps, ep, e'') = bind-eq-ok _ _ e' in
      let made =
        console_only_alone (fs ++ ps) _
          (Made-append fs ps (sink_if-ok _ _ _ _ ef) (platform_sinks-ok site.platform ep)) e'' in
      (made.0, made.1, ap is_empty made.0 ∙ or_console_some wanted_sinks)
