-- ===== src/Server/System/Advance.antt =====
-- src/server.cpp, `Server::~Server`, in the running server: what each step does to what it has
-- before it.
use scriptor.Prelude.{
  ℕ, ◌+◌, ◌-◌, ◌*◌, ◌<◌, ◌≡◌, ◌≢◌, refl, sym, subst, ap, ◌⊎◌, inl, inr, Bool, true, ltb, Bool-cases,
  ℤ, put_all, arith,
}
use scriptor.Host.{Host}
use scriptor.Logger.{push, turned, turns_left, step}
use scriptor.Logger.Join.{turn-Nears}
use scriptor.Server.System.{
  Station, Phase, alive, joining, clearing, awaiting, System, happen, Step, accepts, refuses,
  listens, has_listened, receives, fails, pushes, has_pushed, rearms, has_served, works, stops,
  joins, has_joined, returns, closes, has_closed,
}
use scriptor.Server.System.Costs.{remaining}
use scriptor.Server.System.Kinds.{own, kind, worked, Step-own}
use scriptor.Server.System.Seats.{Exclusive}
use scriptor.Server.System.Plan.{IsPlanned}

-- The steps that the destructor itself has before it.
abbrev pub rank : ℕ → ℕ → Phase → ℕ
rank threads loggers alive = 0
rank threads loggers (joining x) = (threads - x) + (2 * loggers + 2)
rank threads loggers (clearing j) = 2 * (loggers - j) + 1
rank threads loggers (awaiting j) = 2 * (loggers - j)

-- What it waits for: the steps of the threads that it joins, or the turns of the worker.
abbrev pub pending_steps : ℕ → ℕ → Phase → System → ℕ
pending_steps threads loggers alive s = 0
pending_steps threads loggers (joining x) s = remaining threads loggers s
pending_steps threads loggers (clearing j) s = 0
pending_steps threads loggers (awaiting j) s = turns_left (s.station j).logger.worker

-- The end of the destructor is nearer: it goes on itself, or what it waits for does.
abbrev pub IsNearer : ℕ → ℕ → System → System → Type 0
IsNearer threads loggers s t =
    (rank threads loggers t.phase < rank threads loggers s.phase)
    ⊎ ((t.phase ≡ s.phase)
        × (pending_steps threads loggers s.phase t < pending_steps threads loggers s.phase s))

abbrev pub Advances : ℕ → ℕ → System → System → Type 0
Advances threads loggers s t =
    IsNearer threads loggers s t
    ⊎ ((t.phase ≡ s.phase)
        × (pending_steps threads loggers s.phase t ≡ pending_steps threads loggers s.phase s))

module _ (h : Host) (now : ℕ → ℕ → ℤ) (should_log : ℕ → ℤ → Bool) (threads loggers : ℕ) where
  -- A thread of `m_ioc` takes a step.
  thread-Advances :
      (s t : System) (phase : Phase)
      → remaining threads loggers t < remaining threads loggers s
      → ((j : ℕ) → (t.station j).logger.worker ≡ (s.station j).logger.worker)
      → (pending_steps threads loggers phase t < pending_steps threads loggers phase s)
        ⊎ (pending_steps threads loggers phase t ≡ pending_steps threads loggers phase s)
  thread-Advances s t alive less same = inr refl
  thread-Advances s t (joining x) less same = inl less
  thread-Advances s t (clearing j) less same = inr refl
  thread-Advances s t (awaiting j) less same = inr (ap turns_left (same j))

  turns-Advances :
      (j : ℕ) (throws : Bool) (st : Station)
      → st.logger.done ≡ true
      → let m = (happen should_log j (turned throws) st).logger in
        (turns_left m.worker < turns_left st.logger.worker)
        ⊎ (turns_left m.worker ≡ turns_left st.logger.worker)
  unfolding step
  turns-Advances j throws st d =
      let (done, same, near) = turn-Nears (should_log j) st.logger throws d in
      elim (Bool-cases (ltb 0 (turns_left st.logger.worker))) [
        | inl some ↦
            inl (let q : 0 < turns_left st.logger.worker = ground arith in omega (arith, near, q))
        | inr none ↦
            inr (let q : turns_left st.logger.worker ≡ 0 = ground arith in omega (arith, near, q))
      ]

  -- A worker takes a turn.
  worker-Advances :
      (s : System) (j : ℕ) (throws : Bool) (phase : Phase)
      → IsPlanned threads loggers s.station phase
      → let t = worked h now should_log threads loggers s j throws in
        (pending_steps threads loggers phase t < pending_steps threads loggers phase s)
        ⊎ (pending_steps threads loggers phase t ≡ pending_steps threads loggers phase s)
  worker-Advances s j throws alive v = inr refl
  worker-Advances s j throws (joining x) v = inr (unfold remaining in refl)
  worker-Advances s j throws (clearing i) v = inr refl
  worker-Advances s j throws (awaiting i) v =
      put_all
        (λ i (u : Station).
          (s.station i).logger.done ≡ true
          → (turns_left u.logger.worker < turns_left (s.station i).logger.worker)
            ⊎ (turns_left u.logger.worker ≡ turns_left (s.station i).logger.worker))
        s.station j _ (λ k n d. inr refl) (turns-Advances j throws (s.station j)) i v.1

  still :
      (s t : System)
      → t.phase ≡ s.phase
      → (pending_steps threads loggers s.phase t < pending_steps threads loggers s.phase s)
        ⊎ (pending_steps threads loggers s.phase t ≡ pending_steps threads loggers s.phase s)
      → Advances threads loggers s t
  still s t e (inl less) = inl (inr (e, less))
  still s t e (inr same) = inr (e, same)

  works-Advances :
      (s : System) (j : ℕ) (throws : Bool)
      → IsPlanned threads loggers s.station s.phase
      → Advances threads loggers s (worked h now should_log threads loggers s j throws)
  works-Advances s j throws v = still s _ refl (worker-Advances s j throws s.phase v)

  by_thread :
      {s t : System} (st : Step h now should_log threads loggers s t)
      → kind h now should_log threads loggers st ≡ own
      → Exclusive s
      → IsPlanned threads loggers s.station s.phase
      → t.phase ≡ s.phase
      → ((j : ℕ) → (t.station j).logger.worker ≡ (s.station j).logger.worker)
      → Advances threads loggers s t
  by_thread {s} {t} st q v w phase same = elim (Step-own h now should_log threads loggers st q v) [
    | inl less ↦ still s t phase (thread-Advances s t s.phase less same)
    | inr (j, throws, e) ↦ subst (Advances threads loggers s) (sym e) (works-Advances s j throws w)
  ]

  rank-falls :
      (s t : System) (p : Phase)
      → s.phase ≡ p
      → rank threads loggers t.phase < rank threads loggers p
      → Advances threads loggers s t
  rank-falls s t p e less =
      inl (inl (subst (λ q. rank threads loggers t.phase < rank threads loggers q) (sym e) less))

  pub Step-Advances :
      {s t : System}
      → Step h now should_log threads loggers s t
      → s.phase ≢ alive
      → s.ioc_stopped ≡ true
      → Exclusive s
      → IsPlanned threads loggers s.station s.phase
      → Advances threads loggers s t
  Step-Advances (accepts x i handle garbage e ready a o) called stopped v w =
      absurd (let q = ready in cc)
  Step-Advances (refuses x i ready a) called stopped v w = absurd (let q = ready in cc)
  Step-Advances (receives x k bytes ready lt n) called stopped v w = absurd (let q = ready in cc)
  Step-Advances (fails x k ready lt n) called stopped v w = absurd (let q = ready in cc)
  Step-Advances (listens x j lt a b) called stopped v w =
      by_thread (listens x j lt a b) refl v w refl (λ i. refl)
  Step-Advances (has_listened x j lt a b) called stopped v w =
      by_thread (has_listened x j lt a b) refl v w refl (λ i. refl)
  Step-Advances {s} (pushes x k j es lt a b c) called stopped v w =
      by_thread (pushes x k j es lt a b c) refl v w refl (
        put_all (λ i (u : Station). u.logger.worker ≡ (s.station i).logger.worker) s.station j _
          (λ i n. refl) (unfold step push in refl))
  Step-Advances (has_pushed x k j es lt a b c) called stopped v w =
      by_thread (has_pushed x k j es lt a b c) refl v w refl (λ i. refl)
  Step-Advances (rearms x k lt a b) called stopped v w =
      by_thread (rearms x k lt a b) refl v w refl (λ i. refl)
  Step-Advances (has_served x k lt a) called stopped v w =
      by_thread (has_served x k lt a) refl v w refl (λ i. refl)
  Step-Advances (returns x lt a b) called stopped v w =
      by_thread (returns x lt a b) refl v w refl (λ i. refl)
  Step-Advances {s} (works j throws) called stopped v w = works-Advances s j throws w
  Step-Advances (stops p) called stopped v w = absurd (called p)
  Step-Advances {s} (joins x p lt a) called stopped v w =
      rank-falls s _ (joining x) p (omega (arith, lt))
  Step-Advances {s} (has_joined x p e) called stopped v w =
      rank-falls s _ (joining x) p (omega arith)
  Step-Advances {s} (closes j p below) called stopped v w =
      rank-falls s _ (clearing j) p (omega arith)
  Step-Advances {s} (has_closed j p e) called stopped v w =
      let below = (subst (IsPlanned threads loggers s.station) p w).0 in
      rank-falls s _ (awaiting j) p (omega (arith, below))
