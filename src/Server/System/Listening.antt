-- ===== src/Server/System/Listening.antt =====
-- The server never stops listening.
use scriptor.Prelude.{
  ℕ, zero, suc, ◌≤◌, ◌<◌, ◌≡◌, ◌≢◌, sym, subst, ap, ◌∙◌, ◌⊎◌, inl, inr, Bool, List, [], ◌∷◌, length,
  ℤ, put, put_self, put_other, arith, ==_iff, ==_neq, ◌==◌, Bool-cases,
}
use scriptor.Host.{Host}
use scriptor.Acceptor.{Acceptor, async_accept}
use scriptor.Server.Accept.Pending.{IsAwaited}
use scriptor.Server.System.{
  Post, polling, serving, accepting, gone, System, listen_at, Step, accepts, refuses, listens,
  has_listened, has_served, joins, has_joined, has_closed, leaving, receives, fails, pushes,
  has_pushed, rearms, works, stops, returns, closes, Reach, here, later,
}
use scriptor.Server.System.Accepts.{length-listen_at}

-- A thread is about to call `async_accept` on the acceptor `i`.
abbrev pub IsDue : ℕ → (ℕ → Post) → ℕ → Type 0
IsDue threads f i = (x : ℕ) × (x < threads) × (j : ℕ) × (f x ≡ accepting j) × (j ≤ i)

-- Each acceptor has an accept under way, or a thread is about to start one.
abbrev pub Hears : ℕ → List Acceptor → (ℕ → Post) → Type 0
Hears threads accs f = (i : ℕ) → i < length accs → IsAwaited i accs ⊎ IsDue threads f i

listen_at-IsAwaited :
    (j : ℕ) (accs : List Acceptor) → j < length accs → IsAwaited j (listen_at j accs)
unfolding async_accept
listen_at-IsAwaited j [] lt = omega (arith, lt)
listen_at-IsAwaited zero (a ∷ rest) lt = omega arith
listen_at-IsAwaited (suc j) (a ∷ rest) lt = listen_at-IsAwaited j rest (omega (arith, lt))

listen_at-keeps-IsAwaited :
    (i j : ℕ) (accs : List Acceptor) → IsAwaited i accs → IsAwaited i (listen_at j accs)
unfolding async_accept
listen_at-keeps-IsAwaited i j [] a = a
listen_at-keeps-IsAwaited zero zero (b ∷ rest) a = omega (arith, a)
listen_at-keeps-IsAwaited zero (suc j) (b ∷ rest) a = a
listen_at-keeps-IsAwaited (suc i) zero (b ∷ rest) a = a
listen_at-keeps-IsAwaited (suc i) (suc j) (b ∷ rest) a = listen_at-keeps-IsAwaited i j rest a

-- Another thread goes elsewhere.
elsewhere-IsDue :
    (threads : ℕ) (f : ℕ → Post) (x : ℕ) (p : Post) (i : ℕ)
    → ((j : ℕ) → f x ≡ accepting j → j ≤ i → IsDue threads (put f x p) i)
    → IsDue threads f i
    → IsDue threads (put f x p) i
elsewhere-IsDue threads f x p i own (y, lt, j, a, le) = elim (Bool-cases (x == y)) [
  | inl e ↦ own j (ap f ((==_iff x y).0 e) ∙ a) le
  | inr e ↦ (y, lt, j, put_other f x p y (==_neq x y e) ∙ a, le)
]

moves-Hears :
    (threads : ℕ) (accs : List Acceptor) (f : ℕ → Post) (x : ℕ) (p q : Post)
    → f x ≡ q
    → ((j : ℕ) → q ≢ accepting j)
    → Hears threads accs f
    → Hears threads accs (put f x p)
moves-Hears threads accs f x p q a other v i lt = elim (v i lt) [
  | inl awaited ↦ inl awaited
  | inr due ↦ inr (elsewhere-IsDue threads f x p i (λ j b le. absurd (other j (sym a ∙ b))) due)
]

module _ (h : Host) (now : ℕ → ℕ → ℤ) (should_log : ℕ → ℤ → Bool) (threads loggers : ℕ) where
  Step-Hears :
      {s t : System}
      → Step h now should_log threads loggers s t
      → Hears threads s.acceptors s.thread
      → Hears threads t.acceptors t.thread
  Step-Hears {s} (accepts x i handle garbage e ready a o) v =
      λ k lt. inr (x, ready.0, 0, put_self s.thread x (accepting 0), omega arith)
  Step-Hears {s} (refuses x i ready a) v =
      λ k lt. inr (x, ready.0, 0, put_self s.thread x (accepting 0), omega arith)
  Step-Hears {s} (listens x j lt a b) v = λ i below. elim (Bool-cases (j == i)) [
    | inl e ↦ inl (
        subst (λ k. IsAwaited k (listen_at j s.acceptors)) ((==_iff j i).0 e)
          (listen_at-IsAwaited j s.acceptors b))
    | inr e ↦ elim (v i (subst (λ n. i < n) (length-listen_at j s.acceptors) below)) [
      | inl awaited ↦ inl (listen_at-keeps-IsAwaited i j s.acceptors awaited)
      | inr due ↦ inr (
          elsewhere-IsDue threads s.thread x (accepting (suc j)) i
            (λ k c le. (
              x,
              lt,
              suc j,
              put_self s.thread x (accepting (suc j)),
              (let same : j ≡ k = cc in omega (arith, same, le, ==_neq j i e)),
            ))
            due)
    ]
  ]
  Step-Hears {s} (has_listened x j lt a b) v = λ i below. elim (v i below) [
    | inl awaited ↦ inl awaited
    | inr due ↦ inr (
        elsewhere-IsDue threads s.thread x polling i
          (λ k c le. absurd (let same : j ≡ k = cc in omega (arith, same, le, b, below))) due)
  ]
  Step-Hears {s} (receives x k bytes ready lt m) v =
      moves-Hears threads s.acceptors s.thread x (serving k) polling ready.1 (λ j q. cc) v
  Step-Hears (fails x k ready lt m) v = v
  Step-Hears (pushes x k j es lt a b c) v = v
  Step-Hears (has_pushed x k j es lt a b c) v = v
  Step-Hears {s} (rearms x k lt a b) v =
      moves-Hears threads s.acceptors s.thread x (leaving k) (serving k) a (λ j q. cc) v
  Step-Hears {s} (has_served x k lt a) v =
      moves-Hears threads s.acceptors s.thread x polling (leaving k) a (λ j q. cc) v
  Step-Hears (works j throws) v = v
  Step-Hears (stops p) v = v
  Step-Hears (joins x p lt a) v = v
  Step-Hears (has_joined x p e) v = v
  Step-Hears (has_closed j p e) v = v
  Step-Hears {s} (returns x lt a b) v =
      moves-Hears threads s.acceptors s.thread x gone polling a (λ j q. cc) v
  Step-Hears (closes j p below) v = v

  pub Reach-Hears :
      {accs : List Acceptor} {s : System}
      → Reach h now should_log threads loggers accs s
      → ((i : ℕ) → i < length accs → IsAwaited i accs)
      → Hears threads s.acceptors s.thread
  Reach-Hears here all = λ i lt. inl (all i lt)
  Reach-Hears (later r st) all = Step-Hears st (Reach-Hears r all)
