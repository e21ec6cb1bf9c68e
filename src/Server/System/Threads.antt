-- ===== src/Server/System/Threads.antt =====
-- Which threads run which callbacks.
use scriptor.Prelude.{
  put_self, ℕ, suc, ◌≤◌, ◌≡◌, ◌≢◌, refl, sym, subst, Bool, List, ℤ, put, put_all, Bytes, arith,
}
use scriptor.Host.{Host}
use scriptor.Acceptor.{Acceptor}
use scriptor.Server.System.{
  Stage, quiet, pushing, rearming, Client, polling, serving, accepting, gone, System, new_client,
  receive, rearm, Step, accepts, refuses, listens, has_listened, has_served, joins, has_joined,
  has_closed, leaving, receives, fails, pushes, has_pushed, rearms, works, stops, returns, closes,
  Reach, here, later,
}
use scriptor.Server.System.Sessions.{IsSound, Counted, Reach-IsSound}
use scriptor.Server.System.Seats.{
  Seated, Exclusive, next_stage-ne-quiet, Seated-put, Seated-elsewhere, Seated-opens,
  serving_seated, polling-Seated, single_less, single_more, moved,
}

module _ (h : Host) (now : ℕ → ℕ → ℤ) where
  -- A read that is under way belongs to a session whose callback does not run.
  idle_session :
      (s : System) (k : ℕ)
      → IsSound h now k (s.client k)
      → 1 ≤ (s.client k).session.socket.pending
      → Exclusive s
      → (y : ℕ) → s.thread y ≢ serving k
  idle_session s k f n v y e = busy (s.client k).stage f.counted (serving_seated s y k v e)
    where
      busy : (x : Stage) → Counted x (s.client k).session.socket.pending → x ≢ quiet → ⊥
      busy quiet c ne = ne refl
      busy (pushing j es) c ne = omega arith
      busy rearming c ne = omega arith

  receive-ne-quiet : (k : ℕ) (c : Client) (bytes : Bytes) → (receive h now k c bytes).stage ≢ quiet
  receive-ne-quiet k c bytes = next_stage-ne-quiet _

  module _ (should_log : ℕ → ℤ → Bool) (threads loggers : ℕ) where
    Step-Exclusive :
        {s t : System}
        → Step h now should_log threads loggers s t
        → ((k : ℕ) → IsSound h now k (s.client k))
        → Exclusive s
        → Exclusive t
    Step-Exclusive {s} (accepts x i handle garbage e ready a o) f v = record {
      seated =
          polling-Seated (suc s.opened) (put s.client s.opened (new_client e)) s.thread x
            (accepting 0) tt
            (λ y. Seated-opens s.opened s.client (new_client e) (s.thread y) (v.seated y));
      single = single_less s.thread x (accepting 0) (λ j q. cc) v.single;
    }
    Step-Exclusive {s} (refuses x i ready a) f v = moved s x (accepting 0) tt (λ j q. cc) v
    Step-Exclusive {s} (listens x j lt a b) f v = moved s x (accepting (suc j)) tt (λ k q. cc) v
    Step-Exclusive {s} (has_listened x j lt a b) f v = moved s x polling tt (λ k q. cc) v
    Step-Exclusive {s} (receives x k bytes ready lt n) f v = record {
      seated =
          polling-Seated s.opened (put s.client k (receive h now k (s.client k) bytes)) s.thread x
            (serving k)
            (
              lt,
              subst (λ (c : Client). c.stage ≢ quiet) (sym (put_self s.client k _))
                  (receive-ne-quiet k (s.client k) bytes),
            )
            (λ y.
              Seated-put s.opened s.client k _ (s.thread y)
                (λ b. receive-ne-quiet k (s.client k) bytes) (v.seated y));
      single = single_more s.thread x k (idle_session s k (f k) n v) v.single;
    }
    Step-Exclusive {s} (fails x k ready lt n) f v = record {
      seated = λ y. Seated-put s.opened s.client k _ (s.thread y) (λ b. b) (v.seated y);
      single = v.single;
    }
    Step-Exclusive {s} (pushes x k j es lt a b c) f v = record {
      seated = λ y. Seated-put s.opened s.client k _ (s.thread y) (λ b q. cc) (v.seated y);
      single = v.single;
    }
    Step-Exclusive {s} (has_pushed x k j es lt a b c) f v = record {
      seated = λ y. Seated-put s.opened s.client k _ (s.thread y) (λ b q. cc) (v.seated y);
      single = v.single;
    }
    Step-Exclusive {s} (rearms x k lt a b) f v = record {
      seated =
          put_all (λ y p. Seated s.opened (put s.client k (rearm (s.client k))) p) s.thread x
            (leaving k)
            (λ y n.
              Seated-elsewhere s.opened s.client k _ (s.thread y) (λ e. n (v.single x y k a e))
                (v.seated y))
            tt;
      single = single_less s.thread x (leaving k) (λ j q. cc) v.single;
    }
    Step-Exclusive {s} (has_served x k lt a) f v = moved s x polling tt (λ k q. cc) v
    Step-Exclusive (works j throws) f v = record { seated = v.seated; single = v.single }
    Step-Exclusive (stops p) f v = record { seated = v.seated; single = v.single }
    Step-Exclusive (joins x p lt a) f v = record { seated = v.seated; single = v.single }
    Step-Exclusive (has_joined x p e) f v = record { seated = v.seated; single = v.single }
    Step-Exclusive (has_closed j p e) f v = record { seated = v.seated; single = v.single }
    Step-Exclusive {s} (returns x lt a b) f v = moved s x gone tt (λ j q. cc) v
    Step-Exclusive (closes j p below) f v = record { seated = v.seated; single = v.single }

    pub Reach-Exclusive :
        {accs : List Acceptor} {s : System}
        → Reach h now should_log threads loggers accs s
        → Exclusive s
    Reach-Exclusive here = record { seated = λ x. tt; single = λ x y k a b. cc }
    Reach-Exclusive (later r st) =
        Step-Exclusive st (Reach-IsSound h now should_log threads loggers r) (Reach-Exclusive r)

    -- Of the callbacks of one session, two never run at the same time up to their calls of `read`,
    -- though any number of threads run callbacks: in every state that the server reaches, two
    -- threads in such a part of a callback of the same session are the same thread, and then the
    -- session has no read under way. Behind its call of `read` a thread may still be on its way
    -- out of a callback while another one enters the next.
    pub one_callback :
        {accs : List Acceptor} {s : System}
        → Reach h now should_log threads loggers accs s
        → (x y k : ℕ) → s.thread x ≡ serving k
        → s.thread y ≡ serving k
        → (x ≡ y) × ((s.client k).session.socket.pending ≡ 0)
    one_callback {s} r x y k a b =
        let v = Reach-Exclusive r in
        (
          v.single x y k a b,
          none_pending (s.client k).stage
              (Reach-IsSound h now should_log threads loggers r k).counted
              (serving_seated s x k v a),
        )
      where
        none_pending :
            (y : Stage)
            → Counted y (s.client k).session.socket.pending
            → y ≢ quiet
            → (s.client k).session.socket.pending ≡ 0
        none_pending quiet c ne = absurd (ne refl)
        none_pending (pushing j es) c ne = c
        none_pending rearming c ne = c
