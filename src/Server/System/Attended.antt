-- ===== src/Server/System/Attended.antt =====
-- A callback of a session that runs is run by a thread.
use scriptor.Prelude.{
  ℕ, suc, ◌<◌, ◌≡◌, ◌≢◌, refl, sym, ap, ◌∙◌, Bool, List, ℤ, put, put_self, put_other, put_all,
}
use scriptor.Host.{Host}
use scriptor.Acceptor.{Acceptor}
use scriptor.Server.System.{
  quiet, Client, Post, polling, serving, accepting, gone, System, new_client, receive, give_up,
  rearm, Step, accepts, refuses, listens, has_listened, has_served, joins, has_joined, has_closed,
  leaving, receives, fails, pushes, has_pushed, rearms, works, stops, returns, closes, Reach, here,
  later,
}

abbrev IsAttended : ℕ → (ℕ → Post) → ℕ → Type 0
IsAttended threads f k = (x : ℕ) × (x < threads) × (f x ≡ serving k)

abbrev pub Attended : ℕ → (ℕ → Client) → (ℕ → Post) → Type 0
Attended threads client f = (k : ℕ) → (client k).stage ≢ quiet → IsAttended threads f k

-- Another thread moves.
IsAttended-put :
    (threads : ℕ) (f : ℕ → Post) (x : ℕ) (p q : Post) (k : ℕ)
    → f x ≡ q
    → q ≢ serving k
    → IsAttended threads f k
    → IsAttended threads (put f x p) k
IsAttended-put threads f x p q k a other (y, lt, b) =
    (y, lt, put_other f x p y (λ e. other (sym a ∙ (ap f e ∙ b))) ∙ b)

-- A session changes that is quiet then, or that a thread serves.
Attended-put :
    (threads : ℕ) (client : ℕ → Client) (f : ℕ → Post) (k : ℕ) (c : Client)
    → (c.stage ≢ quiet → IsAttended threads f k)
    → ((i : ℕ) → k ≢ i → (client i).stage ≢ quiet → IsAttended threads f i)
    → Attended threads (put client k c) f
Attended-put threads client f k c own others =
    put_all (λ i (d : Client). d.stage ≢ quiet → IsAttended threads f i) client k c others own

module _ (h : Host) (now : ℕ → ℕ → ℤ) (should_log : ℕ → ℤ → Bool) (threads loggers : ℕ) where
  Step-Attended :
      {s t : System}
      → Step h now should_log threads loggers s t
      → Attended threads s.client s.thread
      → Attended threads t.client t.thread
  Step-Attended {s} (accepts x i handle garbage e ready a o) v =
      let f = put s.thread x (accepting 0) in
      Attended-put threads s.client f s.opened (new_client e) (λ ne. absurd (ne refl))
        (λ i n ne.
          IsAttended-put threads s.thread x (accepting 0) polling i ready.1 (λ q. cc) (v i ne))
  Step-Attended {s} (refuses x i ready a) v =
      λ k ne. IsAttended-put threads s.thread x (accepting 0) polling k ready.1 (λ q. cc) (v k ne)
  Step-Attended {s} (listens x j lt a b) v = λ k ne.
      IsAttended-put threads s.thread x (accepting (suc j)) (accepting j) k a (λ q. cc) (v k ne)
  Step-Attended {s} (has_listened x j lt a b) v =
      λ k ne. IsAttended-put threads s.thread x polling (accepting j) k a (λ q. cc) (v k ne)
  Step-Attended {s} (receives x k bytes ready lt n) v =
      let f = put s.thread x (serving k) in
      Attended-put threads s.client f k (receive h now k (s.client k) bytes)
        (λ ne. (x, ready.0, put_self s.thread x (serving k)))
        (λ i n ne.
          IsAttended-put threads s.thread x (serving k) polling i ready.1 (λ q. cc) (v i ne))
  Step-Attended {s} (fails x k ready lt n) v =
      Attended-put threads s.client s.thread k (give_up (s.client k)) (v k) (λ i d. v i)
  Step-Attended {s} (pushes x k j es lt a b c) v =
      Attended-put threads s.client s.thread k _ (λ ne. (x, lt, a)) (λ i d. v i)
  Step-Attended {s} (has_pushed x k j es lt a b c) v =
      Attended-put threads s.client s.thread k _ (λ ne. (x, lt, a)) (λ i d. v i)
  Step-Attended {s} (rearms x k lt a b) v =
      let f = put s.thread x (leaving k) in
      Attended-put threads s.client f k (rearm (s.client k)) (λ ne. absurd (ne refl))
        (λ i d ne.
          IsAttended-put threads s.thread x (leaving k) (serving k) i a
            (λ q. d (let r : k ≡ i = cc in r)) (v i ne))
  Step-Attended {s} (has_served x k lt a) v =
      λ i ne. IsAttended-put threads s.thread x polling (leaving k) i a (λ q. cc) (v i ne)
  Step-Attended (works j throws) v = v
  Step-Attended (stops p) v = v
  Step-Attended (joins x p lt a) v = v
  Step-Attended (has_joined x p e) v = v
  Step-Attended (has_closed j p e) v = v
  Step-Attended {s} (returns x lt a b) v =
      λ k ne. IsAttended-put threads s.thread x gone polling k a (λ q. cc) (v k ne)
  Step-Attended (closes j p below) v = v

  pub Reach-Attended :
      {accs : List Acceptor} {s : System}
      → Reach h now should_log threads loggers accs s
      → Attended threads s.client s.thread
  Reach-Attended here = λ k ne. absurd (ne refl)
  Reach-Attended (later r st) = Step-Attended st (Reach-Attended r)
