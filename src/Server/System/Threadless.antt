-- ===== src/Server/System/Threadless.antt =====
-- A server without threads: `--threads 0`, or an unknown `hardware_concurrency`.
use scriptor.Prelude.{ℕ, ◌≡◌, refl, Bool, List, [], ℤ, put_all, arith}
use scriptor.Host.{Host}
use scriptor.Acceptor.{Acceptor}
use scriptor.Server.System.{
  System, Step, accepts, refuses, listens, has_listened, has_served, joins, has_joined, has_closed,
  receives, fails, pushes, has_pushed, rearms, works, stops, returns, closes, Reach, here, later,
}

module _ (h : Host) (now : ℕ → ℕ → ℤ) (should_log : ℕ → ℤ → Bool) (loggers : ℕ) where
  -- Nothing has come in: the accepts are those that the constructor has started.
  abbrev Untouched : List Acceptor → System → Type 0
  Untouched accs s = (s.acceptors ≡ accs) × (s.opened ≡ 0) × ((j : ℕ) → (s.station j).inbox ≡ [])

  Step-Untouched :
      (accs : List Acceptor) {s t : System}
      → Step h now should_log 0 loggers s t
      → Untouched accs s
      → Untouched accs t
  Step-Untouched accs (accepts x i handle garbage e ready a o) u = absurd (omega (arith, ready.0))
  Step-Untouched accs (refuses x i ready a) u = absurd (omega (arith, ready.0))
  Step-Untouched accs (listens x j lt a b) u = absurd (omega (arith, lt))
  Step-Untouched accs (has_listened x j lt a b) u = absurd (omega (arith, lt))
  Step-Untouched accs (receives x k bytes ready lt n) u = absurd (omega (arith, ready.0))
  Step-Untouched accs (fails x k ready lt n) u = absurd (omega (arith, ready.0))
  Step-Untouched accs (pushes x k j es lt a b c) u = absurd (omega (arith, lt))
  Step-Untouched accs (has_pushed x k j es lt a b c) u = absurd (omega (arith, lt))
  Step-Untouched accs (rearms x k lt a b) u = absurd (omega (arith, lt))
  Step-Untouched accs (has_served x k lt a) u = absurd (omega (arith, lt))
  Step-Untouched accs {s} (works j throws) (a, o, v) =
      (a, o, put_all (λ i st. st.inbox ≡ []) s.station j _ (λ i n. v i) (v j))
  Step-Untouched accs (stops p) u = u
  Step-Untouched accs (joins x p lt a) u = u
  Step-Untouched accs (has_joined x p e) u = u
  Step-Untouched accs (has_closed j p e) u = u
  Step-Untouched accs (returns x lt a b) u = absurd (omega (arith, lt))
  Step-Untouched accs {s} (closes j p below) (a, o, v) =
      (a, o, put_all (λ i st. st.inbox ≡ []) s.station j _ (λ i n. v i) (v j))

  -- With no threads the server runs and serves nobody: in every state that it reaches no session
  -- has been opened, the accepts are as the constructor has left them, and no logger has got
  -- anything.
  pub no_threads_no_service :
      {accs : List Acceptor} {s : System}
      → Reach h now should_log 0 loggers accs s
      → (s.acceptors ≡ accs) × (s.opened ≡ 0) × ((j : ℕ) → (s.station j).inbox ≡ [])
  no_threads_no_service here = (refl, refl, λ j. refl)
  no_threads_no_service {accs} (later r st) = Step-Untouched accs st (no_threads_no_service r)
