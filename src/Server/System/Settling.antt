-- ===== src/Server/System/Settling.antt =====
-- The running server, left to itself.
use mathlib.Core.WellFounded.{Acc}
use scriptor.Prelude.{
  ℕ, zero, suc, ◌≤◌, ◌<◌, ◌≡◌, refl, sym, subst, ap, ◌∙◌, ◌⊎◌, inl, inr, Bool, Bool-cases, ltb,
  List, ◌++◌, append-nil, ℤ, put, put_self, put_other, put_all, sum, sum_less, arith,
}
use scriptor.Host.{Host}
use scriptor.Acceptor.{Acceptor}
use scriptor.Logger.{turned, step}
use scriptor.Logger.Settling.{load, turn-Settles}
use scriptor.Server.System.{Station, System, happen, Step, Reach, later}
use scriptor.Server.System.Costs.{remaining}
use scriptor.Server.System.Kinds.{own, kind, worked, Step-own}
use scriptor.Server.System.Threads.{Reach-Exclusive}

module _ (h : Host) (now : ℕ → ℕ → ℤ) (should_log : ℕ → ℤ → Bool) (threads loggers : ℕ) where
  abbrev station_load : Station → ℕ
  station_load st = load st.logger.worker st.logger.elements

  -- The work of all workers.
  abbrev work : System → ℕ
  work s = sum (λ j. station_load (s.station j)) loggers

  -- No thread, no session and no logger has changed.
  abbrev pub Same : System → System → Type 0
  Same s t =
      (t.thread ≡ s.thread)
      × (t.client ≡ s.client)
      × ((j : ℕ) → j < loggers → t.station j ≡ s.station j)

  -- A thread or a worker takes a step by itself that changes something.
  abbrev pub Acts : System → System → Type 0
  Acts t s =
      (st : Step h now should_log threads loggers s t) × (kind h now should_log threads loggers st
        ≡ own)
      × (Same s t → ⊥)

  worked-Settles :
      (s : System) (j : ℕ) (throws : Bool)
      → (work (worked h now should_log threads loggers s j throws) < work s)
        ⊎ Same s (worked h now should_log threads loggers s j throws)
  unfolding step
  worked-Settles s j throws =
      let st = s.station j in
      let new = happen should_log j (turned throws) st in
      elim (turn-Settles (should_log j) st.logger throws) [
        | inl less ↦ elim (Bool-cases (ltb j loggers)) [
          | inl lt ↦ inl (
              sum_less (λ i. station_load (s.station i)) (λ i. station_load (put s.station j new i))
                loggers j (ground arith) (λ i n. ap station_load (put_other s.station j new i n))
                (subst (λ (u : Station). station_load u < station_load st)
                  (sym (put_self s.station j new)) less))
          | inr ge ↦
              inr (
                refl,
                refl,
                (λ i below. put_other s.station j new i (λ e. ground (arith, below, e))),
              )
        ]
        | inr (same, none) ↦ inr (
          refl,
          refl,
          (λ i below.
              put_all (λ i (u : Station). u ≡ s.station i) s.station j new (λ k n. refl)
                (λ d. record st {
                  logger = same d;
                  calls = (ap (λ cs. st.calls ++ cs) none ∙ append-nil st.calls) d;
                })
                i),
        )
      ]

  behind :
      {accs : List Acceptor} {s : System}
      → Reach h now should_log threads loggers accs s
      → ((t : System)
          → Reach h now should_log threads loggers accs t
          → remaining threads loggers t < remaining threads loggers s
          → Acc Acts t)
      → ((t : System)
          → Reach h now should_log threads loggers accs t
          → remaining threads loggers t ≡ remaining threads loggers s
          → work t < work s
          → Acc Acts t)
      → Acc Acts s
  behind {accs} {s} r fewer less = Acc.intro s (λ t (st, q, differs).
      elim (Step-own h now should_log threads loggers st q
        (Reach-Exclusive h now should_log threads loggers r)) [
          | inl near ↦ fewer t (later r st) near
          | inr (j, throws, e) ↦ elim (worked-Settles s j throws) [
            | inl light ↦
                less t (later r st) (ap (remaining threads loggers) e ∙ unfold remaining in refl)
                  (subst (λ u. work u < work s) (sym e) light)
            | inr same ↦ absurd (differs (subst (Same s) (sym e) same))
          ]
        ])

  settle_workers :
      (m n : ℕ) {accs : List Acceptor} {s : System}
      → ((t : System)
          → Reach h now should_log threads loggers accs t
          → remaining threads loggers t < m
          → Acc Acts t)
      → Reach h now should_log threads loggers accs s
      → remaining threads loggers s ≤ m
      → work s ≤ n
      → Acc Acts s
  settle_workers m zero ih r le le' =
      behind r (λ t r' near. ih t r' (omega (arith, near, le)))
        (λ t r' same light. absurd (omega (arith, light, le')))
  settle_workers m (suc n) ih r le le' =
      behind r (λ t r' near. ih t r' (omega (arith, near, le)))
        (λ t r' same light.
          settle_workers m n ih r' (omega (arith, same, le)) (omega (arith, light, le')))

  settle :
      (m : ℕ) {accs : List Acceptor} {s : System}
      → Reach h now should_log threads loggers accs s
      → remaining threads loggers s < m
      → Acc Acts s
  settle zero r lt = absurd (omega (arith, lt))
  settle (suc m) {accs} {s} r lt =
      settle_workers m (work s) (λ t r' near. settle m r' near) r (omega (arith, lt)) (omega arith)

  -- The server comes to rest when it is left to itself: from every state that it reaches, each
  -- sequence of steps that its threads and its workers take by themselves, in any order and with
  -- sinks that throw or not, is finite, if each step changes a thread, a session or a logger. So
  -- only asio, by completing accepts and reads, and the destructor can keep it going.
  pub server_settles :
      {accs : List Acceptor} {s : System}
      → Reach h now should_log threads loggers accs s
      → Acc Acts s
  server_settles {s = s} r = settle (suc (remaining threads loggers s)) r (omega arith)
