-- ===== src/Server/System/Callbacks.antt =====
-- How far the callback of a session has got in its loop over the loggers, and runs of the server.
use scriptor.Prelude.{ℕ, zero, suc, ◌≤◌, Bool, List, [], ◌∷◌, ℤ, put, put_all, arith}
use scriptor.Host.{Host}
use scriptor.Element.{Element}
use scriptor.Acceptor.{Acceptor}
use scriptor.Server.System.{
  Stage, quiet, pushing, rearming, Client, System, next_stage, Step, accepts, refuses, listens,
  has_listened, has_served, joins, has_joined, has_closed, receives, fails, pushes, has_pushed,
  rearms, works, stops, returns, closes, Reach, here, later,
}

-- The loop over the loggers stays within them.
abbrev pub IsWithin : ℕ → Stage → Type 0
IsWithin loggers quiet = Unit
IsWithin loggers (pushing j elements) = j ≤ loggers
IsWithin loggers rearming = Unit

next_stage-IsWithin : (loggers : ℕ) (es : List Element) → IsWithin loggers (next_stage es)
next_stage-IsWithin loggers [] = tt
next_stage-IsWithin loggers (e ∷ es) = omega arith

module _ (h : Host) (now : ℕ → ℕ → ℤ) (should_log : ℕ → ℤ → Bool) (threads loggers : ℕ) where
  AllWithin : (ℕ → Client) → Type 0
  AllWithin client = (k : ℕ) → IsWithin loggers (client k).stage

  put-AllWithin :
      (f : ℕ → Client) (k : ℕ) (c : Client)
      → AllWithin f
      → IsWithin loggers c.stage
      → AllWithin (put f k c)
  unfolding AllWithin
  put-AllWithin f k c v w =
      put_all (λ i (d : Client). IsWithin loggers d.stage) f k c (λ i n. v i) w

  Step-AllWithin :
      {s t : System}
      → Step h now should_log threads loggers s t
      → AllWithin s.client
      → AllWithin t.client
  unfolding AllWithin
  Step-AllWithin {s} (accepts x i handle garbage e ready a o) v =
      put-AllWithin s.client s.opened _ v tt
  Step-AllWithin (refuses x i ready a) v = v
  Step-AllWithin (listens x j lt a b) v = v
  Step-AllWithin (has_listened x j lt a b) v = v
  Step-AllWithin {s} (receives x k bytes ready lt n) v =
      put-AllWithin s.client k _ v (next_stage-IsWithin loggers _)
  Step-AllWithin {s} (fails x k ready lt n) v = put-AllWithin s.client k _ v (v k)
  Step-AllWithin {s} (pushes x k j es lt a b c) v = put-AllWithin s.client k _ v (omega (arith, c))
  Step-AllWithin {s} (has_pushed x k j es lt a b c) v = put-AllWithin s.client k _ v tt
  Step-AllWithin {s} (rearms x k lt a b) v = put-AllWithin s.client k _ v tt
  Step-AllWithin (has_served x k lt a) v = v
  Step-AllWithin (works j throws) v = v
  Step-AllWithin (stops p) v = v
  Step-AllWithin (joins x p lt a) v = v
  Step-AllWithin (has_joined x p e) v = v
  Step-AllWithin (has_closed j p e) v = v
  Step-AllWithin (returns x lt a b) v = v
  Step-AllWithin (closes j p below) v = v

  Reach-AllWithin :
      {accs : List Acceptor} {s : System}
      → Reach h now should_log threads loggers accs s
      → AllWithin s.client
  unfolding AllWithin
  Reach-AllWithin here = λ k. tt
  Reach-AllWithin (later r st) = Step-AllWithin st (Reach-AllWithin r)

  pub Reach-IsWithin :
      {accs : List Acceptor} {s : System}
      → Reach h now should_log threads loggers accs s
      → (k : ℕ) → IsWithin loggers (s.client k).stage
  Reach-IsWithin r k = unfold AllWithin in Reach-AllWithin r k

  -- A number of steps.
  pub data Goes : System → ℕ → System → Type 0 where
    stays : {s : System} → Goes s zero s
    goes :
        {s t u : System} {n : ℕ}
        → Step h now should_log threads loggers s t
        → Goes t n u
        → Goes s (suc n) u

  pub Reach-goes :
      {accs : List Acceptor} {s t : System} {n : ℕ}
      → Reach h now should_log threads loggers accs s
      → Goes s n t
      → Reach h now should_log threads loggers accs t
  Reach-goes r stays = r
  Reach-goes r (goes st g) = Reach-goes (later r st) g
