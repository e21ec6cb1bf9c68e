-- ===== src/Run/Refusal.antt =====
-- Command lines that the server refuses.
use scriptor.Prelude.{ℕ, ◌≡◌, ap, ◌∙◌, none, Option, List, [], ◌∷◌, ◌++◌, ℤ, Bytes, codes, ok, err}
use scriptor.Host.{Host}
use scriptor.Options.{Site, Options}
use scriptor.Server.Setup.{no_acceptor, unix_acceptors, tcp_acceptors, setup_acceptors}
use scriptor.Server.Threads.{Start}
use scriptor.Server.{new_server}
use scriptor.Run.{
  Shell, Effect, error_printed, exited, on_exception, after, serve, clear_socket, start_server,
  behind_parse, run,
}
use scriptor.Run.Exit.{parsed, without_help}

module _ (h : Host) (site : Site h) where
  no_socket_no_server :
      (opt : Options h) (starts : ℕ → Start)
      → opt.socket_file ≡ []
      → opt.socket_address ≡ []
      → new_server h site opt starts ≡ err no_acceptor
  unfolding new_server setup_acceptors unix_acceptors tcp_acceptors
  no_socket_no_server opt starts f a = rw (f, a)

  -- A command line that is accepted without asking for help, but names no socket: behind the look
  -- at the empty file name, the run ends with code 1 and the message that a socket is needed.
  run_no_socket :
      (shell : Shell h) (argv : List Bytes) (starts : ℕ → Start) (looks : List (Option ℤ))
      (cleared : List Effect)
      → (parsed h site shell argv).thrown ≡ none
      → (parsed h site shell argv).helps ≡ 0
      → (parsed h site shell argv).options.socket_file ≡ []
      → (parsed h site shell argv).options.socket_address ≡ []
      → clear_socket h site shell [] ≡ ok cleared
      → run h site shell argv starts looks ≡ (
        exited 1,
        cleared
            ++ (error_printed (codes "Fatal Error: Must provide socket_file and/or socket_address!")
                ∷ []),
      )
  unfolding run
  run_no_socket shell argv starts looks cleared e1 e2 e3 e4 e5 =
      let p = parsed h site shell argv in
      ap (λ t. behind_parse h site shell t p starts looks) e1
      ∙ (without_help h site shell p starts looks e2
          ∙ (ap (start_server h site shell p.options starts looks)
                (ap (clear_socket h site shell) e3 ∙ e5)
              ∙ unfold start_server serve on_exception in
                ap (λ r. after cleared (serve r looks))
                  (no_socket_no_server p.options starts e3 e4)))
