-- ===== src/Server/System/Accounts.antt =====
-- What each logger has written, against what has been pushed to it.
use mathlib.Core.List.{Sublistᴰ}
use scriptor.Prelude.{
  ℕ, ◌≡◌, refl, sym, subst, ap, ◌∙◌, Bool, List, [], ◌∷◌, ◌++◌, append_assoc, append-nil, ℤ,
  put_all, All,
}
use scriptor.Element.{Element}
use scriptor.Host.{Host}
use scriptor.Acceptor.{Acceptor}
use scriptor.Logger.{Logger, SinkCall, new_logger, step, Event, pushed, stopped, turned, run_logger}
use scriptor.Logger.Order.{written, in_hand, passed, all_pushed}
use scriptor.Logger.Calls.{IsTaken, run_logger-whole}
use scriptor.Logger.Faults.{run_logger-sublist}
use scriptor.Logger.Monitor.Refines.{run_logger-append}
use scriptor.Server.System.{
  Station, System, deliver, happen, Step, accepts, refuses, listens, has_listened, has_served,
  joins, has_joined, has_closed, receives, fails, pushes, has_pushed, rearms, works, stops, returns,
  closes, Reach, here, later,
}

-- All that has been pushed to a logger, by whichever session.
abbrev pub taken : List (ℕ × List Element) → List Element
taken [] = []
taken ((k, es) ∷ inbox) = es ++ taken inbox

taken-append :
    (inbox : List (ℕ × List Element)) (k : ℕ) (es : List Element)
    → taken (inbox ++ ((k, es) ∷ [])) ≡ taken inbox ++ es
taken-append [] k es = append-nil es
taken-append ((c, fs) ∷ inbox) k es =
    ap (λ l. fs ++ l) (taken-append inbox k es) ∙ sym (append_assoc fs (taken inbox) es)

all_pushed-append : (vs ws : List Event) → all_pushed (vs ++ ws) ≡ all_pushed vs ++ all_pushed ws
all_pushed-append [] ws = refl
all_pushed-append (pushed es ∷ vs) ws =
    ap (λ l. es ++ l) (all_pushed-append vs ws)
    ∙ sym (append_assoc es (all_pushed vs) (all_pushed ws))
all_pushed-append (stopped ∷ vs) ws = all_pushed-append vs ws
all_pushed-append (turned t ∷ vs) ws = all_pushed-append vs ws

module _ (should_log : ℕ → ℤ → Bool) where
  -- A logger of the system is a logger by itself, on the events that concern it.
  abbrev pub Runs : ℕ → Station → Type 0
  Runs j st =
      (vs : List Event) × (run_logger (should_log j) new_logger vs ≡ (st.logger, st.calls))
      × (all_pushed vs ≡ taken st.inbox)

  one_more :
      (j : ℕ) (st : Station) (v : Event) (vs : List Event)
      → run_logger (should_log j) new_logger vs ≡ (st.logger, st.calls)
      → run_logger (should_log j) new_logger (vs ++ (v ∷ []))
        ≡ ((step (should_log j) st.logger v).0, st.calls ++ (step (should_log j) st.logger v).1)
  one_more j st v vs e =
      run_logger-append (should_log j) new_logger vs (v ∷ [])
      ∙ (ap
            (λ (b : Logger × List SinkCall). (
              (run_logger (should_log j) b.0 (v ∷ [])).0,
              b.1 ++ (run_logger (should_log j) b.0 (v ∷ [])).1,
            ))
            e
          ∙ unfold run_logger in
            ap (λ cs. ((step (should_log j) st.logger v).0, st.calls ++ cs))
              (append-nil (step (should_log j) st.logger v).1))

  deliver-Runs :
      (j k : ℕ) (es : List Element) (st : Station)
      → Runs j st
      → Runs j (deliver should_log j k es st)
  deliver-Runs j k es st (vs, e, p) = (
    vs ++ (pushed es ∷ []),
    one_more j st (pushed es) vs e,
    all_pushed-append vs (pushed es ∷ [])
        ∙ (ap (λ l. l ++ (es ++ [])) p
            ∙ (ap (λ l. taken st.inbox ++ l) (append-nil es) ∙ sym (taken-append st.inbox k es))),
  )

  happen-Runs :
      (j : ℕ) (v : Event) (st : Station)
      → all_pushed (v ∷ []) ≡ []
      → Runs j st
      → Runs j (happen should_log j v st)
  happen-Runs j v st n (vs, e, p) = (
    vs ++ (v ∷ []),
    one_more j st v vs e,
    all_pushed-append vs (v ∷ [])
        ∙ (ap (λ l. all_pushed vs ++ l) n ∙ (append-nil (all_pushed vs) ∙ p)),
  )

  module _ (h : Host) (now : ℕ → ℕ → ℤ) (threads loggers : ℕ) where
    Step-Runs :
        {s t : System}
        → Step h now should_log threads loggers s t
        → ((j : ℕ) → Runs j (s.station j))
        → (j : ℕ) → Runs j (t.station j)
    Step-Runs (accepts x i handle garbage e ready a o) v = v
    Step-Runs (refuses x i ready a) v = v
    Step-Runs (listens x j lt a b) v = v
    Step-Runs (has_listened x j lt a b) v = v
    Step-Runs (receives x k bytes ready lt n) v = v
    Step-Runs (fails x k ready lt n) v = v
    Step-Runs {s} (pushes x k j es lt a b c) v =
        put_all Runs s.station j _ (λ i n. v i) (deliver-Runs j k es (s.station j) (v j))
    Step-Runs (has_pushed x k j es lt a b c) v = v
    Step-Runs (rearms x k lt a b) v = v
    Step-Runs (has_served x k lt a) v = v
    Step-Runs {s} (works j throws) v =
        put_all Runs s.station j _ (λ i n. v i)
          (happen-Runs j (turned throws) (s.station j) refl (v j))
    Step-Runs (stops p) v = v
    Step-Runs (joins x p lt a) v = v
    Step-Runs (has_joined x p e) v = v
    Step-Runs (has_closed j p e) v = v
    Step-Runs (returns x lt a b) v = v
    Step-Runs {s} (closes j p below) v =
        put_all Runs s.station j _ (λ i n. v i) (happen-Runs j stopped (s.station j) refl (v j))

    pub Reach-Runs :
        {accs : List Acceptor} {s : System}
        → Reach h now should_log threads loggers accs s
        → (j : ℕ) → Runs j (s.station j)
    Reach-Runs here j = ([], unfold run_logger in refl, refl)
    Reach-Runs (later r st) j = Step-Runs st (Reach-Runs r) j

    -- In every state that the server reaches, and wherever the sinks throw: what the sink of a
    -- logger has taken, followed by what the logger still holds, is a part of what the sessions
    -- have pushed to it, in the order of these pushes and as far as it passes the level.
    pub written_in_order :
        {accs : List Acceptor} {s : System}
        → Reach h now should_log threads loggers accs s
        → (j : ℕ)
        → Sublistᴰ
            (written (s.station j).calls ++ passed (should_log j) (in_hand (s.station j).logger))
            (passed (should_log j) (taken (s.station j).inbox))
    written_in_order {s} r j =
        let (vs, e, p) = Reach-Runs r j in
        subst
          (λ es.
            Sublistᴰ
              (written (s.station j).calls ++ passed (should_log j) (in_hand (s.station j).logger))
              (passed (should_log j) es))
          p
          (subst
            (λ (b : Logger × List SinkCall).
              Sublistᴰ (written b.1 ++ passed (should_log j) (in_hand b.0))
                (passed (should_log j) (all_pushed vs)))
            e (unfold new_logger in run_logger-sublist (should_log j) vs new_logger))

    -- Nothing is lost while a sink has not thrown: in every state that the server reaches, if
    -- each call on the sink of a logger has returned, then what the sink has taken, followed by
    -- what the logger still holds, is all that the sessions have pushed to it, in the order of
    -- these pushes and as far as it passes the level.
    pub nothing_lost :
        {accs : List Acceptor} {s : System}
        → Reach h now should_log threads loggers accs s
        → (j : ℕ) → All IsTaken (s.station j).calls
        → written (s.station j).calls ++ passed (should_log j) (in_hand (s.station j).logger)
          ≡ passed (should_log j) (taken (s.station j).inbox)
    nothing_lost {s} r j all_taken =
        let (vs, e, p) = Reach-Runs r j in
        ap (λ (b : Logger × List SinkCall). written b.1 ++ passed (should_log j) (in_hand b.0))
          (sym e)
        ∙ (unfold new_logger in
            run_logger-whole (should_log j) vs new_logger
              (subst (λ (b : Logger × List SinkCall). All IsTaken b.1) (sym e) all_taken)
            ∙ ap (passed (should_log j)) p)
