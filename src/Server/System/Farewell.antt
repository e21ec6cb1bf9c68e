-- ===== src/Server/System/Farewell.antt =====
-- src/server.cpp, `Server::~Server`, where the loggers have been given the time to catch up.
use scriptor.Prelude.{
  ap, ℕ, zero, suc, ◌≤◌, ◌<◌, ◌≡◌, Interleaves, refl, sym, subst, ◌∙◌, inl, inr, Bool, true, false,
  Bool-cases, List, [], ℤ, All, put, put_self, put_other, ==_iff, ==_neq, ◌==◌, arith,
}
use scriptor.Host.{Host}
use scriptor.Acceptor.{Acceptor}
use scriptor.Logger.Order.{written, in_hand, passed}
use scriptor.Logger.Calls.{IsTaken}
use scriptor.Logger.Running.{All-append, destroy_logger-IsTaken, destroy_logger-exits}
use scriptor.Server.System.{
  Station, Post, polling, gone, System, stops, returns, Reach, alive, joining, clearing, joins,
  has_joined,
}
use scriptor.Server.System.Callbacks.{Reach-goes, Goes, stays, goes}
use scriptor.Server.System.CatchUp.{rests, Reach-IsAlive, all_open, rested-Interleaves, all_quiet}
use scriptor.Logger.{exited}
use scriptor.Logger.Turns.{IsRunning}
use scriptor.Server.System.Lifetimes.{Reach-Outlives}
use scriptor.Server.System.Streams.{stream}
use scriptor.Server.System.Teardown.{destroy_goes, goes-append}

module _ (h : Host) (now : ℕ → ℕ → ℤ) (should_log : ℕ → ℤ → Bool) (threads loggers : ℕ) where
  -- The threads leave `m_ioc`, one after the other.
  leave :
      (m : ℕ) (s : System)
      → m ≤ threads
      → s.ioc_stopped ≡ true
      → ((x : ℕ) → x < threads → s.thread x ≡ polling)
      → (n : ℕ) × (f : ℕ → Post) × Goes h now should_log threads loggers s n
          (record s { thread = f })
        × (((x : ℕ) → x < m → f x ≡ gone) × ((x : ℕ) → m ≤ x → f x ≡ s.thread x))
  leave zero s le stopped all =
      (0, s.thread, stays, ((λ x lt. absurd (omega (arith, lt))), λ x le. refl))
  leave (suc m) s le stopped all =
      let (n, f, g, (left, others)) = leave m s (omega (arith, le)) stopped all in
      let here : m < threads = omega (arith, le) in
      let (k, whole) =
        goes-append should_log h now threads loggers g
          (goes (returns m here (others m (omega arith) ∙ all m here) stopped) stays) in
      (
        k,
        put f m gone,
        whole,
        (
          (λ x lt. elim (Bool-cases (m == x)) [
            | inl e ↦ subst (λ y. put f m gone y ≡ gone) ((==_iff m x).0 e) (put_self f m gone)
            | inr e ↦ put_other f m gone x (==_neq m x e) ∙ left x (omega (arith, lt, ==_neq m x e))
          ]),
          (λ x le. put_other f m gone x (λ e. omega (arith, e, le)) ∙ others x (omega (arith, le))),
        ),
      )

  -- `Server::shutdown` joins them, in order.
  join_all :
      (m : ℕ) (s : System)
      → m ≤ threads
      → ((x : ℕ) → x < threads → s.thread x ≡ gone)
      → (n : ℕ) × Goes h now should_log threads loggers
          (record s { phase = joining 0 })
          n
          (record s { phase = joining m })
  join_all zero s le all = (0, stays)
  join_all (suc m) s le all =
      let (n, g) = join_all m s (omega (arith, le)) all in
      goes-append should_log h now threads loggers g
        (goes (joins m refl (omega (arith, le)) (all m (omega (arith, le)))) stays)

  -- Nothing need be lost by a shutdown, if the server is let finish first: from every state that
  -- it reaches with a thread, with a context that is not stopped and with sinks that have not
  -- thrown, it can go on, without new bytes, to the end of `Server::~Server`, in which every thread
  -- has left, every logger has been destroyed and its worker has left its loop without an
  -- exception, and what each sink has taken is an interleaving of the logs of the sessions, as far
  -- as they pass its level.
  pub clean_shutdown :
      {accs : List Acceptor} {s : System}
      → Reach h now should_log threads loggers accs s
      → 1 ≤ threads
      → s.ioc_stopped ≡ false
      → ((j : ℕ) → j < loggers → All IsTaken (s.station j).calls)
      → (n : ℕ) × (t : System) × Goes h now should_log threads loggers s n t
        × (t.phase ≡ clearing loggers)
        × ((x : ℕ) → x < threads → t.thread x ≡ gone)
        × ((k : ℕ) → (t.client k).sent ≡ (s.client k).sent)
        × ((j : ℕ)
            → j < loggers
            → ((t.station j).logger.worker ≡ exited)
              × Interleaves
                  (λ k. passed (should_log j) (stream h now k (s.client k).sent).0.0)
                  (written (t.station j).calls))
  clean_shutdown {s} r some going taken =
      let (a, t, g, (all, open_still, opened, sent, finished)) =
        rests h now should_log threads loggers r some going taken in
      let r' = Reach-goes h now should_log threads loggers r g in
      let alive_still : t.phase ≡ alive =
        elim (Reach-Outlives should_log h now threads loggers r').called [
          | inl e ↦ e
          | inr e ↦ absurd (let c : true ≡ false = sym e ∙ open_still in cc)
        ] in
      let (b, f, g', (left, others)) =
        leave threads (record t { ioc_stopped = true; phase = joining 0 }) (omega arith) refl all in
      let u = record t { ioc_stopped = true; thread = f } in
      let (b', joined) = join_all threads u (omega arith) left in
      let running : (j : ℕ) → IsRunning (t.station j).logger.worker = λ (j : ℕ).
        Reach-IsAlive h now should_log threads loggers r' j
          (all_open h now should_log threads loggers r' some open_still j) in
      let exits = λ (j : ℕ) (lt : j < loggers).
        destroy_logger-exits (should_log j) (t.station j).logger (running j) in
      let (c, st, g'', (torn, untouched)) =
        destroy_goes should_log h now threads loggers (λ j i. false) u loggers (omega arith)
          exits in
      let (d, first) =
        goes-append should_log h now threads loggers g (goes (stops alive_still) g') in
      let (d', second) = goes-append should_log h now threads loggers first joined in
      let (n, whole) =
        goes-append should_log h now threads loggers second
          (goes (has_joined threads refl refl) g'') in
      (
        n,
        record u { station = st; phase = clearing loggers },
        whole,
        refl,
        left,
        sent,
        (λ j lt.
            let l = (t.station j).logger in
            let (quietly, empty) = destroy_logger-IsTaken (should_log j) l (finished j lt).0 in
            let calls = All-append IsTaken _ _ (finished j lt).1 quietly in
            let same = sym (torn j lt) in
            (
              ap (λ (v : Station). v.logger.worker) (torn j lt) ∙ exits j lt,
              rested-Interleaves h now should_log threads loggers s
                  (Reach-goes h now should_log threads loggers r whole)
                  (all_quiet h now should_log threads loggers r' all) sent j lt
                  (subst (λ (v : Station). in_hand v.logger ≡ []) same empty)
                  (subst (λ (v : Station). All IsTaken v.calls) same calls),
            )),
      )
