-- ===== src/Server/System/Launch.antt =====
-- The running server that a constructor has started.
use scriptor.Prelude.{
  ℕ, zero, suc, ◌≤◌, ◌<◌, ◌≡◌, ◌∷◌, map, length-replicate, arith, sym, subst, ap, ◌∙◌, Bool, List,
  [], length, ℤ, ok,
}
use scriptor.Host.{Host}
use scriptor.Options.{Site, Options}
use scriptor.Acceptor.{Acceptor, async_accept, new_acceptor}
use scriptor.Server.Accept.Pending.{IsAwaited, length-accept, total_pending, total_pending-accept}
use scriptor.Server.Setup.Laws.{wanted_acceptors}
use scriptor.Server.Threads.{Start, joinable}
use scriptor.Server.{Server, new_server}
use scriptor.Server.Life.{new_server-ok}
use scriptor.Server.System.{System, accepting, Reach}
use scriptor.Server.System.Accepts.{Reach-Placed}
use scriptor.Server.System.Listening.{Hears, Reach-Hears}
use scriptor.Server.System.Listeners.{one_listener, two_listeners}
use scriptor.Server.System.Threadless.{no_threads_no_service}

All-IsAwaited :
    (accs : List Acceptor) → (i : ℕ) → i < length accs → IsAwaited i (map async_accept accs)
unfolding async_accept
All-IsAwaited [] i lt = omega (arith, lt)
All-IsAwaited (a ∷ rest) zero lt = omega arith
All-IsAwaited (a ∷ rest) (suc i) lt = All-IsAwaited rest i (omega (arith, lt))

module _ (h : Host) (site : Site h) (now : ℕ → ℕ → ℤ) (should_log : ℕ → ℤ → Bool) where
  -- The states that a server reaches, with its threads, loggers and acceptors.
  abbrev pub Serves : Server → System → Type 0
  Serves s t =
      Reach h now should_log (length s.producers.threads) (length s.loggers) s.front.acceptors t

  -- A server never stops listening: if the constructor has made a server, then in every state
  -- that it reaches it has an acceptor for each socket that the options name, and each of them
  -- has an accept under way, or a thread is on its way to start one there, in the callback of
  -- another accept. Whatever connections come and fail, and whichever threads run the callbacks.
  pub server_listens :
      (opt : Options h) (starts : ℕ → Start) {s : Server} {t : System}
      → new_server h site opt starts ≡ ok s
      → Serves s t
      → (length t.acceptors ≡ length (wanted_acceptors h site opt))
        × Hears (length s.producers.threads) t.acceptors t.thread
  server_listens opt starts {s} e r =
      let made = (new_server-ok h site opt starts e).0 in
      let wanted = wanted_acceptors h site opt in
      let same : length s.front.acceptors ≡ length wanted = ap length made ∙ length-accept wanted in
      let threads = length s.producers.threads in
      let loggers = length s.loggers in
      (
        (Reach-Placed h now should_log threads loggers r).0 ∙ same,
        Reach-Hears h now should_log threads loggers r (λ i lt.
            subst (IsAwaited i) (sym made) (All-IsAwaited wanted i (omega (arith, lt, same)))),
      )

  wanted-total : (opt : Options h) → total_pending (wanted_acceptors h site opt) ≡ 0
  unfolding new_acceptor
  wanted-total opt = ground arith

  n_threads-length :
      (opt : Options h) (starts : ℕ → Start) {s : Server}
      → new_server h site opt starts ≡ ok s
      → length s.producers.threads ≡ opt.n_threads
  n_threads-length opt starts e =
      let (_, _, _, _, started, _) = new_server-ok h site opt starts e in
      ap length started ∙ length-replicate opt.n_threads joinable

  -- A server for one socket never calls `async_accept` from two threads at a time: in every state
  -- that it reaches, two threads that are about to call it are the same thread, and then no accept
  -- is under way.
  pub one_socket_one_listener :
      (opt : Options h) (starts : ℕ → Start) {s : Server} {t : System}
      → new_server h site opt starts ≡ ok s
      → length (wanted_acceptors h site opt) ≡ 1
      → Serves s t
      → (x y : ℕ) → x < length s.producers.threads
      → y < length s.producers.threads
      → t.thread x ≡ accepting 0
      → t.thread y ≡ accepting 0
      → (x ≡ y) × (total_pending t.acceptors ≡ 0)
  one_socket_one_listener opt starts {s} e one r x y lt lt' a b =
      let made = (new_server-ok h site opt starts e).0 in
      let wanted = wanted_acceptors h site opt in
      one_listener h now should_log (length s.producers.threads) (length s.loggers) r
        (ap length made ∙ (length-accept wanted ∙ one))
        (ap total_pending made ∙ omega (arith, total_pending-accept wanted, wanted-total opt, one))
        x y lt lt' a b

  -- A server for two sockets, with two threads or more, may call `async_accept` on one acceptor
  -- from two threads at a time: it reaches a state in which two different threads are about to
  -- call it on the first acceptor.
  pub two_sockets_two_listeners :
      (opt : Options h) (starts : ℕ → Start) {s : Server}
      → new_server h site opt starts ≡ ok s
      → length (wanted_acceptors h site opt) ≡ 2
      → 2 ≤ opt.n_threads
      → (t : System) × Serves s t × (t.thread 0 ≡ accepting 0) × (t.thread 1 ≡ accepting 0)
  two_sockets_two_listeners opt starts {s} e two le =
      let made = (new_server-ok h site opt starts e).0 in
      let wanted = wanted_acceptors h site opt in
      two_listeners h now should_log (length s.producers.threads) (length s.loggers)
        s.front.acceptors
        (subst (IsAwaited 0) (sym made) (All-IsAwaited wanted 0 (omega (arith, two))))
        (subst (IsAwaited 1) (sym made) (All-IsAwaited wanted 1 (omega (arith, two))))
        (omega (arith, n_threads-length opt starts e, le))

  -- With 0 threads a server serves nobody: if the constructor has made a server for such
  -- options, then in every state that it reaches no session has been opened, the accepts are
  -- those that the constructor has started, and no logger has got anything.
  threadless_server :
      (opt : Options h) (starts : ℕ → Start) {s : Server} {t : System}
      → new_server h site opt starts ≡ ok s
      → opt.n_threads ≡ 0
      → Serves s t
      → (t.acceptors ≡ s.front.acceptors) × (t.opened ≡ 0) × ((j : ℕ) → (t.station j).inbox ≡ [])
  threadless_server opt starts {s} {t} e none r =
      let no_threads : length s.producers.threads ≡ 0 = n_threads-length opt starts e ∙ none in
      no_threads_no_service h now should_log (length s.loggers)
        (subst (λ n. Reach h now should_log n (length s.loggers) s.front.acceptors t) no_threads r)
