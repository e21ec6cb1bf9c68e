-- ===== src/Run/Exit.antt =====
-- The exit codes, and what a run has done when it gives one.
use scriptor.Prelude.{
  ℕ, ◌≤◌, ◌≡◌, refl, ap, ◌∙◌, ◌⊎◌, inl, inr, Bool, true, false, Option, none, some, List, [], ◌∷◌,
  ◌++◌, ℤ, pos, negsuc, eqb_int, leb, if_cases, if_true, if_false, if◌then◌else◌, Bytes, Bool-cases,
  Result, ok, err, arith,
}
use scriptor.Host.{Host}
use scriptor.Options.{Site, Options}
use scriptor.Server.Threads.{Start}
use scriptor.Server.{Server, new_server}
use scriptor.Run.{
  parse_options, Exception, invalid_option, standard, unknown, Parsed, Shell, Effect, help_printed,
  error_printed, file_removed, server_started, server_destroyed, exited, running, Report, stop,
  wait, on_exception, after, serve, clear_socket, start_server, behind_parse, run,
}

-- Nothing, or the one file removed.
abbrev pub ClearedAtMost : Bytes → List Effect → Type 0
ClearedAtMost file effects = (effects ≡ []) ⊎ (effects ≡ file_removed file ∷ [])

-- The reports that a run can give: 0 behind the help text alone, or behind a server that has
-- been destroyed; 1 behind an error message; and a server that runs on. At most the socket file
-- is removed first.
pub data Explained (file : Bytes) : Report → Type 0 where
  helped : Explained file (exited 0, help_printed ∷ [])
  failed :
      (cleared : List Effect) (what : Bytes)
      → ClearedAtMost file cleared
      → Explained file (exited 1, cleared ++ (error_printed what ∷ []))
  served :
      (cleared : List Effect) (s : Server)
      → ClearedAtMost file cleared
      → Explained file (exited 0, cleared ++ (server_started s ∷ server_destroyed s ∷ []))
  serving :
      (cleared : List Effect) (s : Server)
      → ClearedAtMost file cleared
      → Explained file (running, cleared ++ (server_started s ∷ []))

on_exception-Explained :
    (file : Bytes) (helps : ℕ) (e : Exception) → Explained file (on_exception helps e)
unfolding on_exception
on_exception-Explained file helps (invalid_option what) =
    if_cases (Explained file) (leb 1 helps) (λ p. helped) (λ p. failed [] _ (inl refl))
on_exception-Explained file helps (standard what) = failed [] _ (inl refl)
on_exception-Explained file helps unknown = failed [] _ (inl refl)

serve-Explained :
    (file : Bytes) (cleared : List Effect) (r : Result Server) (looks : List (Option ℤ))
    → ClearedAtMost file cleared
    → Explained file (after cleared (serve r looks))
unfolding serve on_exception
serve-Explained file cleared (err what) looks c = failed cleared _ c
serve-Explained file cleared (ok s) looks c =
    if_cases (λ r. Explained file (after cleared r)) (wait (pos 0) looks) (λ p. served cleared s c)
      (λ p. serving cleared s c)

-- A zero says that the loop has not seen a signal; any other value ends it.
abbrev pub is_signal : Option ℤ → Bool
is_signal none = false
is_signal (some signal) = if eqb_int signal (pos 0) then false else true

abbrev pub any_signal : List (Option ℤ) → Bool
any_signal [] = false
any_signal (v ∷ vs) = if is_signal v then true else any_signal vs

eqb_int_zero : (z : ℤ) → eqb_int z (pos 0) ≡ true → z ≡ pos 0
eqb_int_zero (pos n) e = ground arith
eqb_int_zero (negsuc n) e = cc

wait-any_signal : (looks : List (Option ℤ)) → wait (pos 0) looks ≡ any_signal looks
unfolding wait
wait-any_signal [] = refl
wait-any_signal (none ∷ vs) = wait-any_signal vs
wait-any_signal (some signal ∷ vs) = elim (Bool-cases (eqb_int signal (pos 0))) [
  | inl e ↦ unfold stop in rw e (ap (λ g. wait g vs) (eqb_int_zero signal e) ∙ wait-any_signal vs)
  | inr e ↦ unfold stop in rw e
]

leb_one : (n : ℕ) → 1 ≤ n → leb 1 n ≡ true
leb_one n h = ground arith

leb_one_zero : (n : ℕ) → n ≡ 0 → leb 1 n ≡ false
leb_one_zero n h = ground arith

module _ (h : Host) (site : Site h) (shell : Shell h) where
  clear_socket-ok :
      (file : Bytes) {effects : List Effect}
      → clear_socket h site shell file ≡ ok effects
      → ClearedAtMost file effects
  unfolding clear_socket
  clear_socket-ok file e = ground arith

  start_server-Explained :
      (opt : Options h) (starts : ℕ → Start) (looks : List (Option ℤ)) (r : Result (List Effect))
      → ((effects : List Effect) → r ≡ ok effects → ClearedAtMost opt.socket_file effects)
      → Explained opt.socket_file (start_server h site shell opt starts looks r)
  unfolding start_server
  start_server-Explained opt starts looks (err what) c = on_exception-Explained _ 0 (standard what)
  start_server-Explained opt starts looks (ok effects) c =
      serve-Explained opt.socket_file effects (new_server h site opt starts) looks (c effects refl)

  behind_parse-Explained :
      (thrown : Option Exception) (p : Parsed h) (starts : ℕ → Start) (looks : List (Option ℤ))
      → Explained p.options.socket_file (behind_parse h site shell thrown p starts looks)
  unfolding behind_parse
  behind_parse-Explained (some e) p starts looks = on_exception-Explained _ p.helps e
  behind_parse-Explained none p starts looks =
      if_cases (Explained p.options.socket_file) (leb 1 p.helps) (λ q. helped)
        (λ q.
          start_server-Explained p.options starts looks
            (clear_socket h site shell p.options.socket_file)
            (λ effects e. clear_socket-ok p.options.socket_file e))

  -- What `op.parse` leaves of a command line.
  abbrev pub parsed : List Bytes → Parsed h
  parsed argv = parse_options h site shell argv

  -- Every run ends in one of these ways: it exits with 0 behind the help text, or behind a server
  -- that has been started and destroyed; with 1 behind an error message; or it serves on. Before
  -- that it removes at most the file at `socket_file`.
  pub run-Explained :
      (argv : List Bytes) (starts : ℕ → Start) (looks : List (Option ℤ))
      → Explained (parsed argv).options.socket_file (run h site shell argv starts looks)
  unfolding run
  run-Explained argv starts looks =
      behind_parse-Explained (parsed argv).thrown (parsed argv) starts looks

  -- Where help was asked for and popl has accepted the command line or found an invalid option:
  -- the text is printed, the code is 0, and neither a file nor a server is touched.
  run_help :
      (argv : List Bytes) (starts : ℕ → Start) (looks : List (Option ℤ))
      → 1 ≤ (parsed argv).helps
      → ((parsed argv).thrown ≡ none)
        ⊎ ((what : Bytes) × ((parsed argv).thrown ≡ some (invalid_option what)))
      → run h site shell argv starts looks ≡ (exited 0, help_printed ∷ [])
  unfolding run behind_parse on_exception
  run_help argv starts looks asked (inl e) =
      ap (λ t. behind_parse h site shell t (parsed argv) starts looks) e
      ∙ if_true (leb 1 (parsed argv).helps) _ _ (leb_one (parsed argv).helps asked)
  run_help argv starts looks asked (inr (what, e)) =
      ap (λ t. behind_parse h site shell t (parsed argv) starts looks) e
      ∙ if_true (leb 1 (parsed argv).helps) _ _ (leb_one (parsed argv).helps asked)

  pub without_help :
      (p : Parsed h) (starts : ℕ → Start) (looks : List (Option ℤ))
      → p.helps ≡ 0
      → behind_parse h site shell none p starts looks
        ≡ start_server h site shell p.options starts looks
            (clear_socket h site shell p.options.socket_file)
  unfolding behind_parse
  without_help p starts looks e = if_false (leb 1 p.helps) _ _ (leb_one_zero p.helps e)

  -- A run whose command line is accepted without asking for help, and that gets its server behind
  -- the look at the socket file, stays in its loop until the first signal, and then destroys the
  -- server and exits with 0.
  pub run_until_signal :
      (argv : List Bytes) (starts : ℕ → Start) (looks : List (Option ℤ)) (s : Server)
      (cleared : List Effect)
      → (parsed argv).thrown ≡ none
      → (parsed argv).helps ≡ 0
      → clear_socket h site shell (parsed argv).options.socket_file ≡ ok cleared
      → new_server h site (parsed argv).options starts ≡ ok s
      → run h site shell argv starts looks
        ≡ after cleared (
            if any_signal looks
            then (exited 0, server_started s ∷ server_destroyed s ∷ [])
            else (running, server_started s ∷ []))
  unfolding run
  run_until_signal argv starts looks s cleared e1 e2 e3 e4 =
      let p = parsed argv in
      ap (λ t. behind_parse h site shell t p starts looks) e1
      ∙ (without_help p starts looks e2
          ∙ (ap (start_server h site shell p.options starts looks) e3
              ∙ unfold start_server serve in
                (ap (λ r. after cleared (serve r looks)) e4
                  ∙ ap
                      (λ b. after cleared (
                        if b
                        then (exited 0, server_started s ∷ server_destroyed s ∷ [])
                        else (running, server_started s ∷ [])))
                      (wait-any_signal looks))))
