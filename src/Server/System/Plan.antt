-- ===== src/Server/System/Plan.antt =====
-- src/server.cpp, `Server::~Server`, in the running server: where it may stand.
use scriptor.Prelude.{
  ℕ, ◌≤◌, ◌<◌, ◌≡◌, refl, subst, ap, ◌∙◌, Bool, true, List, ℤ, put, put_self, put_all, arith,
}
use scriptor.Host.{Host}
use scriptor.Acceptor.{Acceptor}
use scriptor.Logger.{stop, step}
use scriptor.Server.System.{
  Station, Phase, alive, joining, clearing, awaiting, System, Step, accepts, refuses, listens,
  has_listened, receives, fails, pushes, has_pushed, rearms, has_served, works, stops, joins,
  has_joined, returns, closes, has_closed, Reach, here, later,
}
use scriptor.Server.System.Lifetimes.{deliver-done, works-done}

-- The destructor keeps to the threads and loggers that there are, and joins the worker only of a
-- logger that it has told to stop.
abbrev pub IsPlanned : ℕ → ℕ → (ℕ → Station) → Phase → Type 0
IsPlanned threads loggers f alive = Unit
IsPlanned threads loggers f (joining x) = x ≤ threads
IsPlanned threads loggers f (clearing j) = j ≤ loggers
IsPlanned threads loggers f (awaiting j) = (j < loggers) × ((f j).logger.done ≡ true)

module _ (h : Host) (now : ℕ → ℕ → ℤ) (should_log : ℕ → ℤ → Bool) (threads loggers : ℕ) where
  IsPlanned-put :
      (f : ℕ → Station) (i : ℕ) (st : Station) (phase : Phase)
      → st.logger.done ≡ (f i).logger.done
      → IsPlanned threads loggers f phase
      → IsPlanned threads loggers (put f i st) phase
  IsPlanned-put f i st alive same v = tt
  IsPlanned-put f i st (joining x) same v = v
  IsPlanned-put f i st (clearing j) same v = v
  IsPlanned-put f i st (awaiting j) same v = (
    v.0,
    put_all (λ k (u : Station). (f k).logger.done ≡ true → u.logger.done ≡ true) f i st (λ k n d. d)
        (λ d. same ∙ d) j v.1,
  )

  Step-IsPlanned :
      {s t : System}
      → Step h now should_log threads loggers s t
      → IsPlanned threads loggers s.station s.phase
      → IsPlanned threads loggers t.station t.phase
  Step-IsPlanned (accepts x i handle garbage e ready a o) v = v
  Step-IsPlanned (refuses x i ready a) v = v
  Step-IsPlanned (listens x j lt a b) v = v
  Step-IsPlanned (has_listened x j lt a b) v = v
  Step-IsPlanned (receives x k bytes ready lt n) v = v
  Step-IsPlanned (fails x k ready lt n) v = v
  Step-IsPlanned {s} (pushes x k j es lt a b c) v =
      IsPlanned-put s.station j _ s.phase (deliver-done should_log j k es (s.station j)) v
  Step-IsPlanned (has_pushed x k j es lt a b c) v = v
  Step-IsPlanned (rearms x k lt a b) v = v
  Step-IsPlanned (has_served x k lt a) v = v
  Step-IsPlanned {s} (works j throws) v =
      IsPlanned-put s.station j _ s.phase (works-done should_log j throws (s.station j)) v
  Step-IsPlanned (stops p) v = omega arith
  Step-IsPlanned (joins x p lt a) v = omega (arith, lt)
  Step-IsPlanned (has_joined x p e) v = omega arith
  Step-IsPlanned (returns x lt a b) v = v
  Step-IsPlanned {s} (closes j p below) v = (
    below,
    ap (λ (st : Station). st.logger.done) (put_self s.station j _) ∙ unfold step stop in refl,
  )
  Step-IsPlanned {s} (has_closed j p e) v =
      let w = subst (IsPlanned threads loggers s.station) p v in omega (arith, w.0)

  pub Reach-IsPlanned :
      {accs : List Acceptor} {s : System}
      → Reach h now should_log threads loggers accs s
      → IsPlanned threads loggers s.station s.phase
  Reach-IsPlanned here = tt
  Reach-IsPlanned (later r st) = Step-IsPlanned st (Reach-IsPlanned r)
