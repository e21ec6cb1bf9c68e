-- ===== src/Server/System/Unused.antt =====
-- The numbers of sessions that have not been opened.
use scriptor.Prelude.{ℕ, suc, ◌≤◌, ◌<◌, ◌≡◌, refl, subst, Bool, List, ℤ, put, put_all, arith}
use scriptor.Host.{Host}
use scriptor.Acceptor.{Acceptor}
use scriptor.Server.System.{
  Client, serving, System, nobody, new_client, Step, accepts, refuses, listens, has_served, joins,
  has_joined, has_closed, has_listened, receives, fails, pushes, has_pushed, rearms, works, stops,
  returns, closes, Reach, here, later,
}
use scriptor.Server.System.Threads.{Reach-Exclusive}
use scriptor.Server.System.Seats.{Seated, Exclusive}

-- Numbers from `opened` on belong to no session.
abbrev pub Unused : System → Type 0
Unused s = (k : ℕ) → s.opened ≤ k → s.client k ≡ nobody

Unused-put :
    (s : System) (k : ℕ) (c : Client)
    → k < s.opened
    → Unused s
    → (i : ℕ) → s.opened ≤ i
    → put s.client k c i ≡ nobody
Unused-put s k c lt u =
    put_all (λ i d. s.opened ≤ i → d ≡ nobody) s.client k c (λ i n. u i)
      (λ le. absurd (omega (arith, lt, le)))

serving-lt-opened : (s : System) (x k : ℕ) → Exclusive s → s.thread x ≡ serving k → k < s.opened
serving-lt-opened s x k v e = (subst (Seated s.opened s.client) e (v.seated x)).0

module _ (h : Host) (now : ℕ → ℕ → ℤ) (should_log : ℕ → ℤ → Bool) (threads loggers : ℕ) where
  Step-Unused :
      {s t : System} → Step h now should_log threads loggers s t → Exclusive s → Unused s → Unused t
  Step-Unused {s} (accepts x i handle garbage e ready a o) v u =
      put_all (λ k (c : Client). suc s.opened ≤ k → c ≡ nobody) s.client s.opened (new_client e)
        (λ k n le. u k (omega (arith, le))) (λ le. absurd (omega (arith, le)))
  Step-Unused (refuses x i ready a) v u = u
  Step-Unused (listens x j lt a b) v u = u
  Step-Unused (has_listened x j lt a b) v u = u
  Step-Unused {s} (receives x k bytes ready lt n) v u = Unused-put s k _ lt u
  Step-Unused {s} (fails x k ready lt n) v u = Unused-put s k _ lt u
  Step-Unused {s} (pushes x k j es lt a b c) v u = Unused-put s k _ (serving-lt-opened s x k v a) u
  Step-Unused {s} (has_pushed x k j es lt a b c) v u =
      Unused-put s k _ (serving-lt-opened s x k v a) u
  Step-Unused {s} (rearms x k lt a b) v u = Unused-put s k _ (serving-lt-opened s x k v a) u
  Step-Unused (has_served x k lt a) v u = u
  Step-Unused (works j throws) v u = u
  Step-Unused (stops p) v u = u
  Step-Unused (joins x p lt a) v u = u
  Step-Unused (has_joined x p e) v u = u
  Step-Unused (has_closed j p e) v u = u
  Step-Unused (returns x lt a b) v u = u
  Step-Unused (closes j p below) v u = u

  pub Reach-Unused :
      {accs : List Acceptor} {s : System} → Reach h now should_log threads loggers accs s → Unused s
  Reach-Unused here k le = refl
  Reach-Unused (later r st) k le =
      Step-Unused st (Reach-Exclusive h now should_log threads loggers r) (Reach-Unused r) k le
