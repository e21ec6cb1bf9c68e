-- ===== src/Server/System/Listeners.antt =====
-- How many threads listen at the same time.
use scriptor.Prelude.{
  ℕ, zero, suc, ◌+◌, ◌≤◌, ◌<◌, ◌≡◌, refl, subst, ap, ◌∙◌, Bool, List, [], ◌∷◌, length, ℤ, put,
  put_self, put_other, sum, sum_moved, sum_two, sum_none, arith,
}
use scriptor.Host.{Host}
use scriptor.Acceptor.{Acceptor, async_accept}
use scriptor.Server.Accept.{complete_at}
use scriptor.Server.Accept.Pending.{IsAwaited, total_pending, total_pending_complete}
use scriptor.Server.System.{
  Post, polling, serving, accepting, gone, System, listen_at, Step, accepts, refuses, listens,
  has_listened, has_served, joins, has_joined, has_closed, leaving, receives, fails, pushes,
  has_pushed, rearms, works, stops, returns, closes, Reach, here, later,
}

-- The accepts that a thread is still going to start on a single acceptor.
abbrev pub due : Post → ℕ
due polling = 0
due (serving k) = 0
due (accepting zero) = 1
due (accepting (suc j)) = 0
due (leaving k) = 0
due gone = 0

-- With a single acceptor: one accept is under way, or one thread is about to start it.
abbrev pub IsSingle : ℕ → List Acceptor → (ℕ → Post) → Type 0
IsSingle threads accs f =
    (length accs ≡ 1) × (total_pending accs + sum (λ x. due (f x)) threads ≡ 1)

total_pending-listen_at :
    (j : ℕ) (accs : List Acceptor)
    → j < length accs
    → (total_pending (listen_at j accs) ≡ total_pending accs + 1)
      × (length (listen_at j accs) ≡ length accs)
unfolding async_accept
total_pending-listen_at j [] lt = absurd (omega (arith, lt))
total_pending-listen_at zero (a ∷ rest) lt = (omega arith, refl)
total_pending-listen_at (suc j) (a ∷ rest) lt =
    let (total, len) = total_pending-listen_at j rest (omega (arith, lt)) in
    (omega (arith, total), ap suc len)

-- A thread goes from one place to another.
due-put :
    (threads : ℕ) (f : ℕ → Post) (x : ℕ) (p q : Post)
    → x < threads
    → f x ≡ q
    → sum (λ y. due (put f x p y)) threads + due q ≡ sum (λ y. due (f y)) threads + due p
due-put threads f x p q lt a =
    subst (λ r. sum (λ y. due (put f x p y)) threads + due r ≡ sum (λ y. due (f y)) threads + due p)
      a
      (subst
        (λ r.
          sum (λ y. due (put f x p y)) threads + due (f x) ≡ sum (λ y. due (f y)) threads + due r)
        (put_self f x p)
        (sum_moved (λ y. due (f y)) (λ y. due (put f x p y)) threads x lt
          (λ y n. ap due (put_other f x p y n))))

module _ (h : Host) (now : ℕ → ℕ → ℤ) (should_log : ℕ → ℤ → Bool) (threads loggers : ℕ) where
  completes-IsSingle :
      (s : System) (x i : ℕ)
      → x < threads
      → s.thread x ≡ polling
      → IsAwaited i s.acceptors
      → IsSingle threads s.acceptors s.thread
      → IsSingle threads (complete_at i s.acceptors) (put s.thread x (accepting 0))
  completes-IsSingle s x i lt a awaited (one, total) =
      let (fewer, len) = total_pending_complete i s.acceptors awaited in
      (
        len ∙ one,
        omega (arith, fewer, total, due-put threads s.thread x (accepting 0) polling lt a),
      )

  idles-IsSingle :
      (s : System) (x : ℕ) (p q : Post)
      → x < threads
      → s.thread x ≡ q
      → due p ≡ due q
      → IsSingle threads s.acceptors s.thread
      → IsSingle threads s.acceptors (put s.thread x p)
  idles-IsSingle s x p q lt a same (one, total) =
      (one, omega (arith, total, same, due-put threads s.thread x p q lt a))

  listens-IsSingle :
      (s : System) (x j : ℕ)
      → x < threads
      → s.thread x ≡ accepting j
      → j < length s.acceptors
      → IsSingle threads s.acceptors s.thread
      → IsSingle threads (listen_at j s.acceptors) (put s.thread x (accepting (suc j)))
  listens-IsSingle s x zero lt a b (one, total) =
      let (more, len) = total_pending-listen_at 0 s.acceptors b in
      (
        len ∙ one,
        omega (arith, more, total, due-put threads s.thread x (accepting 1) (accepting 0) lt a),
      )
  listens-IsSingle s x (suc j) lt a b (one, total) = absurd (omega (arith, b, one))

  Step-IsSingle :
      {s t : System}
      → Step h now should_log threads loggers s t
      → IsSingle threads s.acceptors s.thread
      → IsSingle threads t.acceptors t.thread
  Step-IsSingle {s} (accepts x i handle garbage e (lt, free, going) a o) v =
      completes-IsSingle s x i lt free a v
  Step-IsSingle {s} (refuses x i (lt, free, going) a) v = completes-IsSingle s x i lt free a v
  Step-IsSingle {s} (listens x j lt a b) v = listens-IsSingle s x j lt a b v
  Step-IsSingle {s} (has_listened x j lt a b) v =
      idles-IsSingle s x polling (accepting 1) lt (a ∙ ap accepting (b ∙ v.0)) refl v
  Step-IsSingle {s} (receives x k bytes (lt, free, going) n m) v =
      idles-IsSingle s x (serving k) polling lt free refl v
  Step-IsSingle (fails x k ready lt m) v = v
  Step-IsSingle (pushes x k j es lt a b c) v = v
  Step-IsSingle (has_pushed x k j es lt a b c) v = v
  Step-IsSingle {s} (rearms x k lt a b) v = idles-IsSingle s x (leaving k) (serving k) lt a refl v
  Step-IsSingle {s} (has_served x k lt a) v = idles-IsSingle s x polling (leaving k) lt a refl v
  Step-IsSingle (works j throws) v = v
  Step-IsSingle (stops p) v = v
  Step-IsSingle (joins x p lt a) v = v
  Step-IsSingle (has_joined x p e) v = v
  Step-IsSingle (has_closed j p e) v = v
  Step-IsSingle {s} (returns x lt a b) v = idles-IsSingle s x gone polling lt a refl v
  Step-IsSingle (closes j p below) v = v

  Reach-IsSingle :
      {accs : List Acceptor} {s : System}
      → Reach h now should_log threads loggers accs s
      → length accs ≡ 1
      → total_pending accs ≡ 1
      → IsSingle threads s.acceptors s.thread
  Reach-IsSingle here one total = (one, omega (arith, total, sum_none threads))
  Reach-IsSingle (later r st) one total = Step-IsSingle st (Reach-IsSingle r one total)

  -- With one acceptor and one accept under way at the start, `async_accept` is never called by two
  -- threads at a time: in every state that the server reaches, two threads that are about to call
  -- it are the same thread, and then no accept is under way.
  pub one_listener :
      {accs : List Acceptor} {s : System}
      → Reach h now should_log threads loggers accs s
      → length accs ≡ 1
      → total_pending accs ≡ 1
      → (x y : ℕ) → x < threads
      → y < threads
      → s.thread x ≡ accepting 0
      → s.thread y ≡ accepting 0
      → (x ≡ y) × (total_pending s.acceptors ≡ 0)
  one_listener {s} r one total x y lt lt' a b =
      let (_, count) = Reach-IsSingle r one total in
      let (alone, some) =
        sum_two (λ z. due (s.thread z)) threads x y lt lt' (ap due a) (ap due b)
          (omega (arith, count)) in
      (alone, omega (arith, count, some))

  -- With two accepts under way on two acceptors and two threads or more, two callbacks call
  -- `async_accept` on one acceptor at the same time: the server reaches a state in which two
  -- different threads are about to call it on the first acceptor.
  pub two_listeners :
      (accs : List Acceptor)
      → IsAwaited 0 accs
      → IsAwaited 1 accs
      → 2 ≤ threads
      → (s : System) × Reach h now should_log threads loggers accs s
        × (s.thread 0 ≡ accepting 0)
        × (s.thread 1 ≡ accepting 0)
  two_listeners [] a b le = absurd a
  two_listeners (_ ∷ []) a b le = absurd b
  two_listeners (c ∷ d ∷ accs) a b le = (
    _,
    later (later here (refuses 0 0 (omega (arith, le), refl, refl) a))
        (refuses 1 1 (omega (arith, le), refl, refl) b),
    refl,
    refl,
  )
