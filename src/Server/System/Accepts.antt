-- ===== src/Server/System/Accepts.antt =====
-- The acceptors, while callbacks of accepts run on any thread.
use scriptor.Prelude.{
  ℕ, zero, suc, ◌≤◌, ◌≡◌, refl, ap, ◌∙◌, Bool, List, [], ◌∷◌, length, ℤ, put, put_all, arith,
}
use scriptor.Host.{Host}
use scriptor.Acceptor.{Acceptor}
use scriptor.Server.Accept.{complete_at}
use scriptor.Server.System.{
  Post, polling, serving, accepting, gone, System, listen_at, Step, accepts, refuses, listens,
  has_listened, has_served, joins, has_joined, has_closed, leaving, receives, fails, pushes,
  has_pushed, rearms, works, stops, returns, closes, Reach, here, later,
}

pub length-complete_at : (i : ℕ) (accs : List Acceptor) → length (complete_at i accs) ≡ length accs
length-complete_at i [] = refl
length-complete_at zero (a ∷ rest) = refl
length-complete_at (suc i) (a ∷ rest) = ap suc (length-complete_at i rest)

pub length-listen_at : (i : ℕ) (accs : List Acceptor) → length (listen_at i accs) ≡ length accs
length-listen_at i [] = refl
length-listen_at zero (a ∷ rest) = refl
length-listen_at (suc i) (a ∷ rest) = ap suc (length-listen_at i rest)

-- The loop over the acceptors stays within them.
abbrev pub IsPlaced : ℕ → Post → Type 0
IsPlaced n polling = Unit
IsPlaced n (serving k) = Unit
IsPlaced n (accepting j) = j ≤ n
IsPlaced n (leaving k) = Unit
IsPlaced n gone = Unit

-- There are so many acceptors, and every thread is placed in accord with it.
abbrev pub Placed : ℕ → System → Type 0
Placed n s = (length s.acceptors ≡ n) × ((x : ℕ) → IsPlaced n (s.thread x))

module _ (h : Host) (now : ℕ → ℕ → ℤ) (should_log : ℕ → ℤ → Bool) (threads loggers : ℕ) where
  moves-IsPlaced :
      (n : ℕ) (f : ℕ → Post) (x : ℕ) (p : Post)
      → IsPlaced n p
      → ((y : ℕ) → IsPlaced n (f y))
      → (y : ℕ) → IsPlaced n (put f x p y)
  moves-IsPlaced n f x p new v = put_all (λ y q. IsPlaced n q) f x p (λ y d. v y) new

  Step-Placed :
      (n : ℕ) {s t : System} → Step h now should_log threads loggers s t → Placed n s → Placed n t
  Step-Placed n {s} (accepts x i handle garbage e ready a o) (len, v) =
      (length-complete_at i s.acceptors ∙ len, moves-IsPlaced n s.thread x _ (omega arith) v)
  Step-Placed n {s} (refuses x i ready a) (len, v) =
      (length-complete_at i s.acceptors ∙ len, moves-IsPlaced n s.thread x _ (omega arith) v)
  Step-Placed n {s} (listens x j lt a b) (len, v) = (
    length-listen_at j s.acceptors ∙ len,
    moves-IsPlaced n s.thread x (accepting (suc j)) (omega (arith, b, len)) v,
  )
  Step-Placed n {s} (has_listened x j lt a b) (len, v) =
      (len, moves-IsPlaced n s.thread x polling tt v)
  Step-Placed n {s} (receives x k bytes ready lt m) (len, v) =
      (len, moves-IsPlaced n s.thread x (serving k) tt v)
  Step-Placed n (fails x k ready lt m) v = v
  Step-Placed n (pushes x k j es lt a b c) v = v
  Step-Placed n (has_pushed x k j es lt a b c) v = v
  Step-Placed n {s} (rearms x k lt a b) (len, v) =
      (len, moves-IsPlaced n s.thread x (leaving k) tt v)
  Step-Placed n {s} (has_served x k lt a) (len, v) = (len, moves-IsPlaced n s.thread x polling tt v)
  Step-Placed n (works j throws) v = v
  Step-Placed n (stops p) v = v
  Step-Placed n (joins x p lt a) v = v
  Step-Placed n (has_joined x p e) v = v
  Step-Placed n (has_closed j p e) v = v
  Step-Placed n {s} (returns x lt a b) (len, v) = (len, moves-IsPlaced n s.thread x gone tt v)
  Step-Placed n (closes j p below) v = v

  pub Reach-Placed :
      {accs : List Acceptor} {s : System}
      → Reach h now should_log threads loggers accs s
      → Placed (length accs) s
  Reach-Placed here = (refl, λ x. tt)
  Reach-Placed {accs} (later r st) = Step-Placed (length accs) st (Reach-Placed r)
