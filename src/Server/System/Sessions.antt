-- ===== src/Server/System/Sessions.antt =====
-- What holds of each session by itself, in every state of the running server.
use scriptor.Prelude.{
  ℕ, suc, ◌-◌, ◌≤◌, ◌≡◌, refl, sym, subst, ap, ◌∙◌, Bool, List, [], ◌∷◌, ℤ, put_all, Bytes, arith,
}
use scriptor.Host.{Host}
use scriptor.Element.{Element}
use scriptor.Acceptor.{Acceptor}
use scriptor.Session.{Session, read}
use scriptor.Server.Accept.{opened, connected}
use scriptor.Server.Accept.Pending.{IsAwaited}
use scriptor.Server.Delivery.{opens}
use scriptor.Server.System.{
  Stage, quiet, pushing, rearming, Client, System, nobody, next_stage, new_client, receive, give_up,
  rearm, Step, accepts, refuses, listens, has_listened, has_served, joins, has_joined, has_closed,
  receives, fails, pushes, has_pushed, rearms, works, stops, returns, closes, Reach, here, later,
}
use scriptor.Server.System.Streams.{receive_lem, IsProcessed, receive-IsProcessed, new-IsProcessed}

-- A read is under way, or the callback of one.
abbrev pub Counted : Stage → ℕ → Type 0
Counted quiet pending = pending ≤ 1
Counted (pushing j elements) pending = pending ≡ 0
Counted rearming pending = pending ≡ 0

Counted-next_stage : (es : List Element) (n : ℕ) → n ≡ 0 → Counted (next_stage es) n
Counted-next_stage [] n h = h
Counted-next_stage (e ∷ es) n h = h

module _ (h : Host) (now : ℕ → ℕ → ℤ) where
  -- What holds of each session by itself: it has processed what it has been sent, and has one
  -- read under way at most, or the callback of one.
  pub record IsSound (k : ℕ) (c : Client) : Type 0 where
    pub processed : IsProcessed h now k c
    pub counted : Counted c.stage c.session.socket.pending

  nobody-IsSound : (k : ℕ) → IsSound k nobody
  nobody-IsSound k = record {
    processed = new-IsProcessed h now k nobody.session refl;
    counted = omega arith;
  }

  receive-IsSound :
      (k : ℕ) (c : Client) (bytes : Bytes)
      → 1 ≤ c.session.socket.pending
      → IsSound k c
      → IsSound k (receive h now k c bytes)
  receive-IsSound k c bytes under_way i = record {
    processed = receive-IsProcessed h now k c bytes i.processed;
    counted =
        subst (λ (d : Client). Counted d.stage d.session.socket.pending)
          (sym (receive_lem h now k c bytes))
          (Counted-next_stage _ _ (omega (arith, at_most_one c.stage i.counted)));
  }
    where
      at_most_one : (x : Stage) → Counted x c.session.socket.pending → c.session.socket.pending ≤ 1
      at_most_one quiet n = n
      at_most_one (pushing j es) n = omega arith
      at_most_one rearming n = omega arith

  opened-IsSound :
      (k : ℕ) (accs : List Acceptor) (i handle : ℕ) (garbage : Bytes) (e : Session)
      → IsAwaited i accs
      → opened accs (connected i handle garbage) ≡ e ∷ []
      → IsSound k (new_client e)
  unfolding opened
  opened-IsSound k accs i handle garbage e a o =
      let (d, only, (pending, processor)) = opens accs i handle garbage a in
      let same : d ≡ e = cc in
      record {
        processed =
            new-IsProcessed h now k e (ap (λ (u : Session). u.processor) (sym same) ∙ processor);
        counted = omega (arith, ap (λ (u : Session). u.socket.pending) same, pending);
      }

  give_up-IsSound : (k : ℕ) (c : Client) → IsSound k c → IsSound k (give_up c)
  give_up-IsSound k c i = record { processed = i.processed; counted = fewer c.stage i.counted }
    where
      fewer :
          (x : Stage)
          → Counted x c.session.socket.pending
          → Counted x (c.session.socket.pending - 1)
      fewer quiet n = omega arith
      fewer (pushing j es) n = omega arith
      fewer rearming n = omega arith

  -- Where a read is under way, no callback runs.
  pub reading_quiet :
      (k : ℕ) (c : Client) → IsSound k c → 1 ≤ c.session.socket.pending → c.stage ≡ quiet
  reading_quiet k c i n = at c.stage i.counted
    where
      at : (x : Stage) → Counted x c.session.socket.pending → x ≡ quiet
      at quiet m = refl
      at (pushing j es) m = absurd (omega arith)
      at rearming m = absurd (omega arith)

  -- The session whose callback goes on has no read under way.
  pub at_stage :
      (k : ℕ) (c : Client) (x : Stage)
      → c.stage ≡ x
      → IsSound k c
      → Counted x c.session.socket.pending
  at_stage k c x e i = subst (λ y. Counted y c.session.socket.pending) e i.counted

  rearm-IsSound : (k : ℕ) (c : Client) → c.stage ≡ rearming → IsSound k c → IsSound k (rearm c)
  unfolding read
  rearm-IsSound k c e i = record {
    processed = i.processed;
    counted = omega (arith, at_stage k c rearming e i);
  }

  module _ (should_log : ℕ → ℤ → Bool) (threads loggers : ℕ) where
    Step-IsSound :
        {s t : System}
        → Step h now should_log threads loggers s t
        → ((k : ℕ) → IsSound k (s.client k))
        → (k : ℕ) → IsSound k (t.client k)
    Step-IsSound {s} (accepts x i handle garbage e ready a o) v =
        put_all IsSound s.client s.opened (new_client e) (λ k n. v k)
          (opened-IsSound s.opened s.acceptors i handle garbage e a o)
    Step-IsSound (refuses x i ready a) v = v
    Step-IsSound (listens x j lt a b) v = v
    Step-IsSound (has_listened x j lt a b) v = v
    Step-IsSound {s} (receives x k bytes ready n p) v =
        put_all IsSound s.client k (receive h now k (s.client k) bytes) (λ j d. v j)
          (receive-IsSound k (s.client k) bytes p (v k))
    Step-IsSound {s} (fails x k ready n p) v =
        put_all IsSound s.client k (give_up (s.client k)) (λ j d. v j)
          (give_up-IsSound k (s.client k) (v k))
    Step-IsSound {s} (pushes x k j es lt a b c) v =
        put_all IsSound s.client k (record (s.client k) { stage = pushing (suc j) es }) (λ j d. v j)
          (record { processed = (v k).processed; counted = at_stage k (s.client k) _ b (v k) })
    Step-IsSound {s} (has_pushed x k j es lt a b c) v =
        put_all IsSound s.client k (record (s.client k) { stage = rearming }) (λ j d. v j)
          (record { processed = (v k).processed; counted = at_stage k (s.client k) _ b (v k) })
    Step-IsSound {s} (rearms x k lt a b) v =
        put_all IsSound s.client k (rearm (s.client k)) (λ j d. v j)
          (rearm-IsSound k (s.client k) b (v k))
    Step-IsSound (has_served x k lt a) v = v
    Step-IsSound (works j throws) v = v
    Step-IsSound (stops p) v = v
    Step-IsSound (joins x p lt a) v = v
    Step-IsSound (has_joined x p e) v = v
    Step-IsSound (has_closed j p e) v = v
    Step-IsSound (returns x lt a b) v = v
    Step-IsSound (closes j p below) v = v

    pub Reach-IsSound :
        {accs : List Acceptor} {s : System}
        → Reach h now should_log threads loggers accs s
        → (k : ℕ) → IsSound k (s.client k)
    Reach-IsSound here k = nobody-IsSound k
    Reach-IsSound (later r st) k = Step-IsSound st (Reach-IsSound r) k
