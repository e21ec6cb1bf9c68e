-- ===== src/Server/Life.antt =====
-- A server that has been constructed, and one that is destroyed.
use scriptor.Prelude.{
  All, true, ap₂, ◌+◌, ℤ, Bool, ℕ, ◌≡◌, refl, sym, subst, ap, ◌∙◌, false, List, [], ◌∷◌, map,
  is_empty, replicate, Result, ok, err, bind-eq-ok,
}
use scriptor.Host.{Host}
use scriptor.Options.{Site, Options}
use scriptor.Acceptor.{Acceptor, async_accept}
use scriptor.Logger.{Logger, new_logger, SinkCall}
use scriptor.Server.Setup.{Sink, setup_acceptors, setup_sinks}
use scriptor.Server.Setup.Laws.{
  wanted_acceptors, wanted_sinks, or_console, setup_acceptors-ok, setup_sinks-ok,
}
use scriptor.Server.Threads.{Start, joinable, Ended, runs, threw, start_threads}
use scriptor.Server.Threads.Safety.{IsJoined, shutdown_once, EndsSafely, start_threads-EndsSafely}
use scriptor.Server.Accept.{Front, accept}
use scriptor.Logger.Join.{HasEnded, destroy_logger-HasEnded}
use scriptor.Server.{Server, destroy_each, destroy, ended, no_producers, new_server}

ended-ok :
    (front : Front) (sinks : List Sink) (loggers : List Logger) (n : ℕ) (starts : ℕ → Start)
    (r : Ended) {s : Server}
    → EndsSafely n starts 0 no_producers r
    → ended front sinks loggers r ≡ ok s
    → (s.front ≡ front)
      × (s.sinks ≡ sinks)
      × (s.loggers ≡ loggers)
      × (s.producers.threads ≡ replicate n joinable)
      × (s.producers.ioc_stopped ≡ false)
unfolding ended
ended-ok front sinks loggers n starts (runs p) safe e =
    subst
      (λ (u : Server).
        (u.front ≡ front)
        × (u.sinks ≡ sinks)
        × (u.loggers ≡ loggers)
        × (u.producers.threads ≡ replicate n joinable)
        × (u.producers.ioc_stopped ≡ false))
      (ap is_server e) (refl, refl, refl, safe.0, safe.1)
  where
    is_server : Result Server → Server
    is_server (ok s) = s
    is_server (err x) = record { front = front; producers = p; sinks = sinks; loggers = loggers }
ended-ok front sinks loggers n starts (threw what p loose) safe e = cc

is_empty-map : (accs : List Acceptor) → is_empty (map async_accept accs) ≡ is_empty accs
is_empty-map [] = refl
is_empty-map (a ∷ accs) = refl

module _ (h : Host) (site : Site h) where
  -- A constructed server runs as many producer threads as the options say, its acceptors are the
  -- wanted ones with one accept under way on each, and it has a logger that waits for each of
  -- the wanted sinks, the console if none is wanted.
  pub new_server-ok :
      (opt : Options h) (starts : ℕ → Start) {s : Server}
      → new_server h site opt starts ≡ ok s
      → (s.front.acceptors ≡ map async_accept (wanted_acceptors h site opt))
        × (is_empty s.front.acceptors ≡ false)
        × (s.sinks ≡ or_console h site opt (wanted_sinks h site opt))
        × (s.loggers ≡ map (λ k. new_logger) s.sinks)
        × (s.producers.threads ≡ replicate opt.n_threads joinable)
        × (s.producers.ioc_stopped ≡ false)
  unfolding new_server
  new_server-ok opt starts {s} e =
      let (accs, ea, e') = bind-eq-ok (setup_acceptors h site opt) _ e in
      let (sinks, es, e'') = bind-eq-ok (setup_sinks h site opt) _ e' in
      let front = accept (record { acceptors = accs; sessions = [] }) in
      let (is_front, is_sinks, is_loggers, threads, running) =
        ended-ok front sinks (map (λ k. new_logger) sinks) opt.n_threads starts
          (start_threads opt.n_threads starts 0 no_producers)
          (start_threads-EndsSafely opt.n_threads starts 0 no_producers) e'' in
      let (wanted, some_left) = setup_acceptors-ok h site opt ea in
      let listening = ap (λ (f : Front). f.acceptors) is_front in
      (
        listening ∙ unfold accept in ap (map async_accept) wanted,
        ap is_empty listening ∙ unfold accept in (is_empty-map accs ∙ some_left),
        is_sinks ∙ (setup_sinks-ok h site opt es).0,
        is_loggers ∙ ap (map (λ k. new_logger)) (sym is_sinks),
        threads,
        running,
      )

destroy_each-HasEnded :
    (should_log : ℕ → ℤ → Bool) (throws : ℕ → ℕ → Bool) (i : ℕ) (ls : List Logger)
    → All
        (λ (r : Logger × List SinkCall). HasEnded r.0.worker)
        (destroy_each should_log throws i ls)
      × (map (λ (r : Logger × List SinkCall). r.0.elements) (destroy_each should_log throws i ls)
          ≡ map (λ (l : Logger). l.elements) ls)
unfolding destroy_each
destroy_each-HasEnded should_log throws i [] = (tt, refl)
destroy_each-HasEnded should_log throws i (l ∷ ls) =
    let (ended, kept) = destroy_logger-HasEnded (should_log i) (throws i) l in
    let (all_ended, all_kept) = destroy_each-HasEnded should_log throws (i + 1) ls in
    ((ended, all_ended), ap₂ ◌∷◌ kept all_kept)

-- The destructor of a server, in whatever states its threads and loggers are and wherever the
-- sinks throw: no producer is left running, the context is stopped, and the worker of every
-- logger has left its loop or has ended the process. What is in the queue of a logger then
-- stays there.
destroy-HasEnded :
    (should_log : ℕ → ℤ → Bool) (throws : ℕ → ℕ → Bool) (s : Server)
    → let (producers, loggers) = destroy should_log throws s in
      (producers.ioc_stopped ≡ true)
      × All IsJoined producers.threads
      × All (λ (r : Logger × List SinkCall). HasEnded r.0.worker) loggers
      × (map (λ (r : Logger × List SinkCall). r.0.elements) loggers
          ≡ map (λ (l : Logger). l.elements) s.loggers)
unfolding destroy
destroy-HasEnded should_log throws s =
    let (is_stopped, all_joined, once) = shutdown_once s.producers in
    let (ended, kept) = destroy_each-HasEnded should_log throws 0 s.loggers in
    (is_stopped, all_joined, ended, kept)
