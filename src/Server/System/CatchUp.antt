-- ===== src/Server/System/CatchUp.antt =====
-- How the running server gets through the work that it has.
use scriptor.Prelude.{
  ℕ, zero, suc, ◌≤◌, ◌<◌, ◌≡◌, Interleaves, Interleaves-same, ◌≢◌, refl, sym, subst, ap, ◌∙◌, ◌⊎◌,
  inl, inr, Bool, true, false, Bool-cases, List, [], ◌++◌, append_assoc, append-nil, ℤ, All, put,
  put_self, arith,
}
use scriptor.Host.{Host}
use scriptor.Acceptor.{Acceptor}
use scriptor.Logger.{SinkCall, Logger, turned, step, run_logger, new_logger}
use scriptor.Logger.Order.{written, in_hand, passed}
use scriptor.Logger.Calls.{IsTaken}
use scriptor.Logger.Progress.{catches_up}
use scriptor.Logger.Running.{IsAlive, All-append, run_logger-IsAlive, turns-IsTaken}
use scriptor.Logger.Turns.{turns}
use scriptor.Server.System.{
  Stage, quiet, pushing, rearming, Station, polling, serving, System, happen, works, Reach,
}
use scriptor.Server.System.Accounts.{Reach-Runs}
use scriptor.Server.System.Attended.{Reach-Attended}
use scriptor.Server.System.Callbacks.{Reach-goes, Goes, stays}
use scriptor.Server.System.Costs.{remaining}
use scriptor.Server.System.Idle.{quieten}
use scriptor.Server.System.Lifetimes.{Reach-Outlives}
use scriptor.Server.System.Streams.{stream}
use scriptor.Server.System.Teardown.{Turns, then-Turns, goes-append, each_logger}
use scriptor.Server.System.Written.{sink-Interleaves}

is_quiet : (y : Stage) → (y ≡ quiet) ⊎ (y ≢ quiet)
is_quiet quiet = inl refl
is_quiet (pushing j es) = inr (λ q. cc)
is_quiet rearming = inr (λ q. cc)

module _ (h : Host) (now : ℕ → ℕ → ℤ) (should_log : ℕ → ℤ → Bool) (threads loggers : ℕ) where
  -- The logger behind turns in which its sink does not throw.
  abbrev ran : ℕ → ℕ → Station → Station
  ran j n st =
      let (l, more) = run_logger (should_log j) st.logger (turns n) in
      record st { logger = l; calls = st.calls ++ more }

  ran-zero : (j : ℕ) (st : Station) → ran j 0 st ≡ st
  unfolding run_logger
  ran-zero j st = ap (λ cs. record st { calls = cs }) (append-nil st.calls)

  ran-suc :
      (j n : ℕ) (st : Station) → ran j n (happen should_log j (turned false) st) ≡ ran j (suc n) st
  unfolding run_logger
  ran-suc j n st =
      let (m, cs) = step (should_log j) st.logger (turned false) in
      let (l, ds) = run_logger (should_log j) m (turns n) in
      ap (λ calls. record st { logger = l; calls = calls }) (append_assoc st.calls cs ds)

  ran-Turns :
      (n j : ℕ) (s : System) → Turns should_log h now threads loggers s n j (ran j n (s.station j))
  ran-Turns zero j s = (s.station, stays, sym (ran-zero j (s.station j)), λ i d. refl)
  ran-Turns (suc n) j s =
      let st = happen should_log j (turned false) (s.station j) in
      let s' = record s { station = put s.station j st } in
      then-Turns should_log h now threads loggers s n j st (ran j (suc n) (s.station j))
        (works j false)
        (subst (Turns should_log h now threads loggers s' n j)
          (ap (ran j n) (put_self s.station j st) ∙ ran-suc j n (s.station j)) (ran-Turns n j s'))

  -- The logger has nothing to do, and its sink has thrown only if it had before.
  abbrev pub IsDone : Station → Station → Type 0
  IsDone old st = (in_hand st.logger ≡ []) × (All IsTaken old.calls → All IsTaken st.calls)

  logger_catches_up :
      (j : ℕ) (s : System)
      → (s.station j).logger.done ≡ false
      → IsAlive (s.station j).logger
      → (n : ℕ) × (st : Station) × Turns should_log h now threads loggers s n j st
        × IsDone (s.station j) st
  logger_catches_up j s fresh alive =
      let l = (s.station j).logger in
      let (n, le, ends, all) = catches_up (should_log j) l (alive fresh) fresh in
      (
        n,
        ran j n (s.station j),
        ran-Turns n j s,
        (
          ap in_hand ends,
          (λ before. All-append IsTaken _ _ before (turns-IsTaken (should_log j) n l)),
        ),
      )

  pub Reach-IsAlive :
      {accs : List Acceptor} {s : System}
      → Reach h now should_log threads loggers accs s
      → (j : ℕ) → IsAlive (s.station j).logger
  Reach-IsAlive {s} r j =
      let (vs, e, p) = Reach-Runs should_log h now threads loggers r j in
      subst (λ (b : Logger × List SinkCall). IsAlive b.0) e
        (run_logger-IsAlive (should_log j) vs new_logger (unfold new_logger in λ d. tt))

  -- With a thread that has not left, no logger is told to stop.
  pub all_open :
      {accs : List Acceptor} {s : System}
      → Reach h now should_log threads loggers accs s
      → 1 ≤ threads
      → s.ioc_stopped ≡ false
      → (j : ℕ) → (s.station j).logger.done ≡ false
  all_open {s} r some going j = elim (Bool-cases (s.station j).logger.done) [
    | inl d ↦
        let v = Reach-Outlives should_log h now threads loggers r in
        let e = v.ended 0 (v.closed j 0 (omega (arith, some)) d) in
        absurd (let c : true ≡ false = sym e ∙ going in cc)
    | inr d ↦ d
  ]

  pub all_quiet :
      {accs : List Acceptor} {s : System}
      → Reach h now should_log threads loggers accs s
      → ((x : ℕ) → x < threads → s.thread x ≡ polling)
      → (k : ℕ) → (s.client k).stage ≡ quiet
  all_quiet {s} r all k = elim (is_quiet (s.client k).stage) [
    | inl e ↦ e
    | inr ne ↦
        let (x, lt, a) = Reach-Attended h now should_log threads loggers r k ne in
        absurd (let c : polling ≡ serving k = sym (all x lt) ∙ a in cc)
  ]

  -- Every thread polls and no logger has anything to do, with the same input and no failure.
  abbrev pub Rests : System → System → Type 0
  Rests s t =
      ((x : ℕ) → x < threads → t.thread x ≡ polling)
      × (t.ioc_stopped ≡ false)
      × (t.opened ≡ s.opened)
      × ((k : ℕ) → (t.client k).sent ≡ (s.client k).sent)
      × ((j : ℕ)
          → j < loggers
          → (in_hand (t.station j).logger ≡ []) × All IsTaken (t.station j).calls)

  pub rests :
      {accs : List Acceptor} {s : System}
      → Reach h now should_log threads loggers accs s
      → 1 ≤ threads
      → s.ioc_stopped ≡ false
      → ((j : ℕ) → j < loggers → All IsTaken (s.station j).calls)
      → (n : ℕ) × (t : System) × Goes h now should_log threads loggers s n t × Rests s t
  rests {s} r some going taken =
      let (n, t, g, all, (same, opened, sent, calls)) =
        quieten h now should_log threads loggers (remaining threads loggers s) r going
          (omega arith) in
      let r' = Reach-goes h now should_log threads loggers r g in
      let (n', f, g', (finished, untouched)) =
        each_logger should_log h now threads loggers (λ j. IsDone (t.station j)) t
          (λ j f e.
            let l =
              subst (λ (st : Station). (st.logger.done ≡ false) × IsAlive st.logger) (sym e)
                (all_open r' some (same ∙ going) j, Reach-IsAlive r' j) in
            let (m, st, by_turns, is_done) =
              logger_catches_up j (record t { station = f }) l.0 l.1 in
            (m, st, by_turns, subst (λ old. IsDone old st) e is_done))
          loggers in
      let (k, whole) = goes-append should_log h now threads loggers g g' in
      (
        k,
        record t { station = f },
        whole,
        (
          all,
          same ∙ going,
          opened,
          sent,
          (λ j lt. (
            (finished j lt).0,
            (finished j lt).1 (subst (All IsTaken) (sym (calls j)) (taken j lt)),
          )),
        ),
      )

  -- What the sink has then is all that the sessions had been sent.
  pub rested-Interleaves :
      {accs : List Acceptor} (s : System) {t : System}
      → Reach h now should_log threads loggers accs t
      → ((k : ℕ) → (t.client k).stage ≡ quiet)
      → ((k : ℕ) → (t.client k).sent ≡ (s.client k).sent)
      → (j : ℕ) → j < loggers
      → in_hand (t.station j).logger ≡ []
      → All IsTaken (t.station j).calls
      → Interleaves
          (λ k. passed (should_log j) (stream h now k (s.client k).sent).0.0)
          (written (t.station j).calls)
  rested-Interleaves s r at_rest sent j lt empty_handed taken =
      Interleaves-same
        (λ k. ap (λ bs. passed (should_log j) (stream h now k bs).0.0) (sym (sent k)))
        (sink-Interleaves h now should_log threads loggers r j lt at_rest empty_handed taken)

  -- The server gets through its work, whatever it is in the middle of: from every state that it
  -- reaches with a thread, with a context that is not stopped and with sinks that have not thrown,
  -- it can go on, without a new connection or new bytes, to a state in which every thread polls,
  -- no logger has anything in hand, and what each sink has taken is an interleaving of the logs of
  -- the sessions: one message for each element of all the bytes that a session has been sent, as
  -- far as it passes the level of the sink, in the order of the session, and none besides.
  pub server_catches_up :
      {accs : List Acceptor} {s : System}
      → Reach h now should_log threads loggers accs s
      → 1 ≤ threads
      → s.ioc_stopped ≡ false
      → ((j : ℕ) → j < loggers → All IsTaken (s.station j).calls)
      → (n : ℕ) × (t : System) × Goes h now should_log threads loggers s n t
        × ((x : ℕ) → x < threads → t.thread x ≡ polling)
        × (t.opened ≡ s.opened)
        × ((k : ℕ) → (t.client k).sent ≡ (s.client k).sent)
        × ((j : ℕ)
            → j < loggers
            → (in_hand (t.station j).logger ≡ [])
              × Interleaves
                  (λ k. passed (should_log j) (stream h now k (s.client k).sent).0.0)
                  (written (t.station j).calls))
  server_catches_up {s} r some going taken =
      let (n, t, g, (all, open_still, opened, sent, finished)) = rests r some going taken in
      let r' = Reach-goes h now should_log threads loggers r g in
      (
        n,
        t,
        g,
        all,
        opened,
        sent,
        (λ j lt. (
          (finished j lt).0,
          rested-Interleaves s r' (all_quiet r' all) sent j lt (finished j lt).0 (finished j lt).1,
        )),
      )
