-- ===== src/Server/System/Joins.antt =====
-- src/server.cpp, `Server::shutdown`: whether its joins return.
use scriptor.Prelude.{
  ℕ, ◌<◌, ◌≡◌, ◌≢◌, refl, ap, ◌⊎◌, inl, inr, Bool, true, List, ℤ, length, sym, subst, arith,
}
use scriptor.Host.{Host}
use scriptor.Acceptor.{Acceptor}
use scriptor.Server.System.{
  Post, polling, serving, accepting, gone, System, Step, accepts, refuses, listens, has_listened,
  has_served, joins, has_joined, has_closed, leaving, receives, fails, pushes, has_pushed, rearms,
  works, stops, returns, closes, Reach,
}
use scriptor.Server.System.Accepts.{IsPlaced, Reach-Placed}
use scriptor.Server.System.Seats.{serving_seated, Exclusive}
use scriptor.Server.System.Threads.{Reach-Exclusive}
use scriptor.Server.System.Callbacks.{IsWithin, Reach-IsWithin}
use scriptor.Server.System.Finishing.{serving-Finishes, leaving-Finishes, accepting-Finishes}
use scriptor.Server.System.Kinds.{own, kind, Step-own}
use scriptor.Server.System.Costs.{find_thread, remaining, place_less}

module _ (h : Host) (now : ℕ → ℕ → ℤ) (should_log : ℕ → ℤ → Bool) (threads loggers : ℕ) where
  -- A step brings the end nearer, or no thread of `m_ioc` has taken it.
  abbrev pub Nears : System → System → Type 0
  Nears s t =
      (remaining threads loggers t < remaining threads loggers s)
      ⊎ ((t.thread ≡ s.thread) × (t.client ≡ s.client))

  by_itself :
      {s t : System} (st : Step h now should_log threads loggers s t)
      → Exclusive s
      → kind h now should_log threads loggers st ≡ own
      → Nears s t
  by_itself st v e = elim (Step-own h now should_log threads loggers st e v) [
    | inl less ↦ inl less
    | inr (j, throws, same) ↦
        inr (ap (λ (t : System). t.thread) same, ap (λ (t : System). t.client) same)
  ]

  Step-Nears :
      {s t : System}
      → Step h now should_log threads loggers s t
      → Exclusive s
      → s.ioc_stopped ≡ true
      → Nears s t
  Step-Nears (accepts x i handle garbage e ready a o) v stopped = absurd (let q = ready in cc)
  Step-Nears (refuses x i ready a) v stopped = absurd (let q = ready in cc)
  Step-Nears (receives x k bytes ready lt n) v stopped = absurd (let q = ready in cc)
  Step-Nears (fails x k ready lt n) v stopped = absurd (let q = ready in cc)
  Step-Nears (listens x j lt a b) v stopped = by_itself (listens x j lt a b) v refl
  Step-Nears (has_listened x j lt a b) v stopped = by_itself (has_listened x j lt a b) v refl
  Step-Nears (pushes x k j es lt a b c) v stopped = by_itself (pushes x k j es lt a b c) v refl
  Step-Nears (has_pushed x k j es lt a b c) v stopped =
      by_itself (has_pushed x k j es lt a b c) v refl
  Step-Nears (rearms x k lt a b) v stopped = by_itself (rearms x k lt a b) v refl
  Step-Nears (has_served x k lt a) v stopped = by_itself (has_served x k lt a) v refl
  Step-Nears (returns x lt a b) v stopped = by_itself (returns x lt a b) v refl
  Step-Nears (works j throws) v stopped = inr (refl, refl)
  Step-Nears (stops p) v stopped = inr (refl, refl)
  Step-Nears (joins x p lt a) v stopped = inr (refl, refl)
  Step-Nears (has_joined x p e) v stopped = inr (refl, refl)
  Step-Nears (has_closed j p e) v stopped = inr (refl, refl)
  Step-Nears (closes j p below) v stopped = inr (refl, refl)

  -- A step that brings the end nearer.
  abbrev pub GoesOn : System → Type 0
  GoesOn s =
      (t : System) × Step h now should_log threads loggers s t
      × (remaining threads loggers t < remaining threads loggers s)

  thread-GoesOn :
      (s : System) (x : ℕ) (p : Post)
      → IsPlaced (length s.acceptors) p
      → ((k : ℕ) → IsWithin loggers (s.client k).stage)
      → Exclusive s
      → s.ioc_stopped ≡ true
      → x < threads
      → s.thread x ≡ p
      → p ≢ gone
      → GoesOn s
  thread-GoesOn s x polling placed w v stopped lt a ne = (
    _,
    returns x lt a stopped,
    place_less threads loggers s s.acceptors x gone polling lt a refl (omega arith),
  )
  thread-GoesOn s x (serving k) placed w v stopped lt a ne =
      let (t, st, less, keeps) =
        serving-Finishes h now should_log threads loggers s x k (s.client k).stage v lt a refl
          (serving_seated s x k v a) (w k) in
      (t, st, less)
  thread-GoesOn s x (accepting j) placed w v stopped lt a ne =
      let (t, st, less, keeps) =
        accepting-Finishes h now should_log threads loggers s x j lt a placed in
      (t, st, less)
  thread-GoesOn s x (leaving k) placed w v stopped lt a ne =
      let (t, st, less, keeps) = leaving-Finishes h now should_log threads loggers s x k lt a in
      (t, st, less)
  thread-GoesOn s x gone placed w v stopped lt a ne = absurd (ne refl)

  -- Nothing keeps the joins of `shutdown` from returning. In every state that the server reaches,
  -- once the context has been stopped, either each of its threads has left, or one of them can
  -- take a step after which the threads have fewer steps left than before; and every step of the
  -- server, whoever takes it, leaves them fewer steps, or changes neither the place of a thread
  -- nor a session.
  pub joins_return :
      {accs : List Acceptor} {s : System}
      → Reach h now should_log threads loggers accs s
      → s.ioc_stopped ≡ true
      → (((x : ℕ) → x < threads → s.thread x ≡ gone) ⊎ GoesOn s)
        × ((t : System) → Step h now should_log threads loggers s t → Nears s t)
  joins_return {s} r stopped =
      let v = Reach-Exclusive h now should_log threads loggers r in
      let (len, all_placed) = Reach-Placed h now should_log threads loggers r in
      let placed : (x : ℕ) → IsPlaced (length s.acceptors) (s.thread x) =
        λ x. subst (λ n. IsPlaced n (s.thread x)) (sym len) (all_placed x) in
      (
        elim (find_thread s.thread threads) [
          | inl all ↦ inl all
          | inr (x, lt, ne) ↦ inr (
              thread-GoesOn s x (s.thread x) (placed x)
                (Reach-IsWithin h now should_log threads loggers r) v stopped lt refl ne)
        ],
        λ t st. Step-Nears st v stopped,
      )
