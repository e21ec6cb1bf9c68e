-- ===== src/Server/System/Written.antt =====
-- From the bytes of every session to every sink, in the running server.
use scriptor.Prelude.{
  ℕ, ◌<◌, ◌≡◌, sym, subst, ap, ◌∙◌, Bool, List, [], ◌++◌, append-nil, ℤ, All, Interleaves,
  Interleaves-same,
}
use scriptor.Host.{Host}
use scriptor.Acceptor.{Acceptor}
use scriptor.Element.{Element}
use scriptor.Logger.Order.{written, in_hand, passed}
use scriptor.Logger.Calls.{IsTaken}
use scriptor.Server.System.{quiet, System, Reach}
use scriptor.Server.System.Streams.{stream}
use scriptor.Server.System.Interleaved.{Arrived, logs_interleave}

module _ (h : Host) (now : ℕ → ℕ → ℤ) (should_log : ℕ → ℤ → Bool) (threads loggers : ℕ) where
  -- Where the logger has nothing in hand, all of the interleaving stands in the sink.
  in_sink :
      {accs : List Acceptor} {s : System}
      → Reach h now should_log threads loggers accs s
      → (j : ℕ) → j < loggers
      → in_hand (s.station j).logger ≡ []
      → All IsTaken (s.station j).calls
      → (part : ℕ → List Element) × ((k : ℕ)
          → Arrived h now should_log threads loggers s k (part k))
        × Interleaves (λ k. passed (should_log j) (part k)) (written (s.station j).calls)
  in_sink {s} r j lt empty_handed all_taken =
      let (part, arrived, woven) =
        logs_interleave h now should_log threads loggers r j lt all_taken in
      let calls = (s.station j).calls in
      (
        part,
        arrived,
        subst (Interleaves (λ k. passed (should_log j) (part k)))
            (ap (λ es. written calls ++ passed (should_log j) es) empty_handed
              ∙ append-nil (written calls))
            woven,
      )

  -- Where no callback runs, the sink has just the logs of all sessions.
  pub sink-Interleaves :
      {accs : List Acceptor} {s : System}
      → Reach h now should_log threads loggers accs s
      → (j : ℕ) → j < loggers
      → ((k : ℕ) → (s.client k).stage ≡ quiet)
      → in_hand (s.station j).logger ≡ []
      → All IsTaken (s.station j).calls
      → Interleaves
          (λ k. passed (should_log j) (stream h now k (s.client k).sent).0.0)
          (written (s.station j).calls)
  sink-Interleaves r j lt at_rest empty_handed all_taken =
      let (part, arrived, woven) = in_sink r j lt empty_handed all_taken in
      Interleaves-same (λ k. ap (passed (should_log j)) (sym ((arrived k).1 (at_rest k)))) woven
