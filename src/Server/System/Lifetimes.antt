-- ===== src/Server/System/Lifetimes.antt =====
-- Loggers outlive the callbacks that push to them.
use scriptor.Prelude.{
  ℕ, suc, ◌<◌, ◌≡◌, ◌≢◌, refl, sym, ◌∙◌, inl, inr, Bool, true, false, Bool-cases, List, ℤ, put,
  put_all, put_other, subst, ap, ◌⊎◌, ==_iff, ==_neq, ◌==◌, arith,
}
use scriptor.Host.{Host}
use scriptor.Element.{Element}
use scriptor.Acceptor.{Acceptor}
use scriptor.Logger.{new_logger, push, turned, step}
use scriptor.Logger.Join.{turn-done}
use scriptor.Server.System.{
  Station, Post, polling, serving, accepting, gone, System, deliver, happen, Step, accepts, refuses,
  listens, has_listened, has_served, joins, has_joined, has_closed, leaving, Phase, alive, joining,
  clearing, awaiting, receives, fails, pushes, has_pushed, rearms, works, stops, returns, closes,
  Reach, here, later,
}

-- The threads that the destructor has joined have left.
abbrev pub IsBehind : ℕ → (ℕ → Post) → Phase → Type 0
IsBehind threads f alive = Unit
IsBehind threads f (joining x) = (y : ℕ) → y < x → f y ≡ gone
IsBehind threads f (clearing j) = (y : ℕ) → y < threads → f y ≡ gone
IsBehind threads f (awaiting j) = (y : ℕ) → y < threads → f y ≡ gone

-- A logger that is told to stop has no thread of the context beside it; a thread that has left
-- `run` has done so because the context is stopped, and the destructor has stopped it before all
-- else.
pub record Outlives (threads : ℕ) (s : System) : Type 0 where
  pub closed : (j x : ℕ) → x < threads → (s.station j).logger.done ≡ true → s.thread x ≡ gone
  pub ended : (x : ℕ) → s.thread x ≡ gone → s.ioc_stopped ≡ true
  pub behind : IsBehind threads s.thread s.phase
  pub called : (s.phase ≡ alive) ⊎ (s.ioc_stopped ≡ true)

-- A thread that has not left moves.
moved-IsBehind :
    (threads : ℕ) (f : ℕ → Post) (y : ℕ) (p : Post) (phase : Phase)
    → f y ≢ gone
    → IsBehind threads f phase
    → IsBehind threads (put f y p) phase
moved-IsBehind threads f y p alive busy v = tt
moved-IsBehind threads f y p (joining x) busy v =
    λ z lt. put_other f y p z (λ e. busy (ap f e ∙ v z lt)) ∙ v z lt
moved-IsBehind threads f y p (clearing j) busy v =
    λ z lt. put_other f y p z (λ e. busy (ap f e ∙ v z lt)) ∙ v z lt
moved-IsBehind threads f y p (awaiting j) busy v =
    λ z lt. put_other f y p z (λ e. busy (ap f e ∙ v z lt)) ∙ v z lt

module _ (should_log : ℕ → ℤ → Bool) where
  pub deliver-done :
      (j k : ℕ) (es : List Element) (st : Station)
      → (deliver should_log j k es st).logger.done ≡ st.logger.done
  deliver-done j k es st = unfold step push in refl

  pub works-done :
      (j : ℕ) (throws : Bool) (st : Station)
      → (happen should_log j (turned throws) st).logger.done ≡ st.logger.done
  works-done j throws st = unfold step in turn-done (should_log j) st.logger throws

  closed-put :
      (threads : ℕ) (s : System) (i : ℕ) (st : Station)
      → st.logger.done ≡ (s.station i).logger.done
      → Outlives threads s
      → (j x : ℕ) → x < threads
      → (put s.station i st j).logger.done ≡ true
      → s.thread x ≡ gone
  closed-put threads s i st same v j x lt d =
      put_all (λ j (st : Station). st.logger.done ≡ true → s.thread x ≡ gone) s.station i st
        (λ j n d. v.closed j x lt d) (λ d. v.closed i x lt (sym same ∙ d)) j d

  module _ (h : Host) (now : ℕ → ℕ → ℤ) (threads loggers : ℕ) where
    -- A thread that is not `gone` moves: no logger is closed.
    moved-Outlives :
        {t : System} (s : System) (y : ℕ) (p : Post)
        → y < threads
        → s.thread y ≢ gone
        → (p ≡ gone → s.ioc_stopped ≡ true)
        → t.thread ≡ put s.thread y p
        → t.station ≡ s.station
        → t.ioc_stopped ≡ s.ioc_stopped
        → t.phase ≡ s.phase
        → Outlives threads s
        → Outlives threads t
    moved-Outlives {t} s y p lt busy new thread station flag phase v = record {
      closed = λ j x lt' d.
          absurd (
            busy (v.closed j y lt (ap (λ (f : ℕ → Station). (f j).logger.done) (sym station) ∙ d)));
      ended = λ x e.
          flag
          ∙ put_all (λ x q. q ≡ gone → s.ioc_stopped ≡ true) s.thread y p (λ x n. v.ended x) new x
              (ap (λ (f : ℕ → Post). f x) (sym thread) ∙ e);
      behind = subst (IsBehind threads t.thread) (sym phase) (
          subst (λ f. IsBehind threads f s.phase) (sym thread)
            (moved-IsBehind threads s.thread y p s.phase busy v.behind));
      called = elim v.called [ inl e ↦ inl (phase ∙ e) | inr e ↦ inr (flag ∙ e) ];
    }

    Step-Outlives :
        {s t : System}
        → Step h now should_log threads loggers s t
        → Outlives threads s
        → Outlives threads t
    Step-Outlives {s} (accepts x i handle garbage e (lt, free, going) a o) v =
        moved-Outlives s x (accepting 0) lt (λ q. cc) (λ q. cc) refl refl refl refl v
    Step-Outlives {s} (refuses x i (lt, free, going) a) v =
        moved-Outlives s x (accepting 0) lt (λ q. cc) (λ q. cc) refl refl refl refl v
    Step-Outlives {s} (listens x j lt a b) v =
        moved-Outlives s x (accepting (suc j)) lt (λ q. cc) (λ q. cc) refl refl refl refl v
    Step-Outlives {s} (has_listened x j lt a b) v =
        moved-Outlives s x polling lt (λ q. cc) (λ q. cc) refl refl refl refl v
    Step-Outlives {s} (receives x k bytes (lt, free, going) n p) v =
        moved-Outlives s x (serving k) lt (λ q. cc) (λ q. cc) refl refl refl refl v
    Step-Outlives (fails x k ready n p) v = record {
      closed = v.closed;
      ended = v.ended;
      behind = v.behind;
      called = v.called;
    }
    Step-Outlives {s} (pushes x k j es lt a b c) v = record {
      closed = closed-put threads s j _ (deliver-done j k es (s.station j)) v;
      ended = v.ended;
      behind = v.behind;
      called = v.called;
    }
    Step-Outlives (has_pushed x k j es lt a b c) v = record {
      closed = v.closed;
      ended = v.ended;
      behind = v.behind;
      called = v.called;
    }
    Step-Outlives {s} (rearms x k lt a b) v =
        moved-Outlives s x (leaving k) lt (λ q. cc) (λ q. cc) refl refl refl refl v
    Step-Outlives {s} (has_served x k lt a) v =
        moved-Outlives s x polling lt (λ q. cc) (λ q. cc) refl refl refl refl v
    Step-Outlives {s} (works j throws) v = record {
      closed = closed-put threads s j _ (works-done j throws (s.station j)) v;
      ended = v.ended;
      behind = v.behind;
      called = v.called;
    }
    Step-Outlives (stops p) v = record {
      closed = v.closed;
      ended = λ x q. refl;
      behind = λ y lt. absurd (omega (arith, lt));
      called = inr refl;
    }
    Step-Outlives {s} (joins x p lt a) v = record {
      closed = v.closed;
      ended = v.ended;
      behind = λ y lt'. elim (Bool-cases (y == x)) [
        | inl e ↦ subst (λ z. s.thread z ≡ gone) (sym ((==_iff y x).0 e)) a
        | inr e ↦ subst (IsBehind threads s.thread) p v.behind y (omega (arith, lt', ==_neq y x e))
      ];
      called = inr (v.ended x a);
    }
    Step-Outlives {s} (has_joined x p e) v = record {
      closed = v.closed;
      ended = v.ended;
      behind = λ y lt. subst (IsBehind threads s.thread) p v.behind y (omega (arith, lt, e));
      called = elim v.called [
        | inl q ↦ absurd (let c : alive ≡ joining x = sym q ∙ p in cc)
        | inr q ↦ inr q
      ];
    }
    Step-Outlives {s} (returns x lt a b) v =
        moved-Outlives s x gone lt (λ q. cc) (λ q. b) refl refl refl refl v
    Step-Outlives {s} (closes j p below) v = record {
      closed = λ i x lt d. subst (IsBehind threads s.thread) p v.behind x lt;
      ended = v.ended;
      behind = subst (IsBehind threads s.thread) p v.behind;
      called = elim v.called [
        | inl q ↦ absurd (let c : alive ≡ clearing j = sym q ∙ p in cc)
        | inr q ↦ inr q
      ];
    }
    Step-Outlives {s} (has_closed j p e) v = record {
      closed = v.closed;
      ended = v.ended;
      behind = subst (IsBehind threads s.thread) p v.behind;
      called = elim v.called [
        | inl q ↦ absurd (let c : alive ≡ awaiting j = sym q ∙ p in cc)
        | inr q ↦ inr q
      ];
    }

    pub Reach-Outlives :
        {accs : List Acceptor} {s : System}
        → Reach h now should_log threads loggers accs s
        → Outlives threads s
    Reach-Outlives here = record {
      closed = λ j x lt d. unfold new_logger in cc;
      ended = λ x q. cc;
      behind = tt;
      called = inl refl;
    }
    Reach-Outlives (later r st) = Step-Outlives st (Reach-Outlives r)

    -- The destructor does not touch a logger before every thread has left: in every state that the
    -- server reaches, while a thread has not left `m_ioc.run()`, so while any thread is in a
    -- callback of an accept or of a session, no logger has been told to stop.
    pub no_push_behind_stop :
        {accs : List Acceptor} {s : System}
        → Reach h now should_log threads loggers accs s
        → (j x : ℕ) → x < threads
        → s.thread x ≢ gone
        → (s.station j).logger.done ≡ false
    no_push_behind_stop {s} r j x lt busy = elim (Bool-cases (s.station j).logger.done) [
      | inl d ↦ absurd (busy ((Reach-Outlives r).closed j x lt d))
      | inr d ↦ d
    ]
