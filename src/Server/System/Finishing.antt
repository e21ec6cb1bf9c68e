-- ===== src/Server/System/Finishing.antt =====
-- How a thread that is in a callback goes on.
use scriptor.Prelude.{
  ℕ, suc, ◌≤◌, ◌<◌, ◌≡◌, ◌≢◌, refl, inl, inr, Bool, List, ℤ, ltb, Bool-cases, length, append-nil,
  put, put_all, arith,
}
use scriptor.Host.{Host}
use scriptor.Element.{Element}
use scriptor.Logger.{step}
use scriptor.Server.System.{
  Stage, quiet, pushing, rearming, Client, Station, polling, serving, accepting, System, listen_at,
  deliver, Step, listens, has_listened, has_served, leaving, pushes, has_pushed, rearms,
}
use scriptor.Server.System.Accepts.{length-listen_at}
use scriptor.Server.System.Seats.{Exclusive}
use scriptor.Server.System.Callbacks.{IsWithin}
use scriptor.Server.System.Costs.{remaining, stage_less, rearms_less, place_less}

put_sent :
    (f : ℕ → Client) (k : ℕ) (c : Client)
    → c.sent ≡ (f k).sent
    → (i : ℕ) → (put f k c i).sent ≡ (f i).sent
put_sent f k c same = put_all (λ i (d : Client). d.sent ≡ (f i).sent) f k c (λ i n. refl) same

module _ (h : Host) (now : ℕ → ℕ → ℤ) (should_log : ℕ → ℤ → Bool) (threads loggers : ℕ) where
  -- No session has been opened, no bytes have come, nothing has been written, and the context goes
  -- on or not, as before.
  abbrev pub Keeps : System → System → Type 0
  Keeps s t =
      (t.ioc_stopped ≡ s.ioc_stopped)
      × (t.opened ≡ s.opened)
      × ((k : ℕ) → (t.client k).sent ≡ (s.client k).sent)
      × ((j : ℕ) → (t.station j).calls ≡ (s.station j).calls)

  deliver-calls :
      (g : ℕ → Station) (j k : ℕ) (es : List Element) (i : ℕ)
      → (put g j (deliver should_log j k es (g j)) i).calls ≡ (g i).calls
  deliver-calls g j k es =
      put_all (λ i (st : Station). st.calls ≡ (g i).calls) g j _ (λ i n. refl)
        (unfold step in append-nil (g j).calls)

  -- A step of a callback, which brings the threads nearer to their end.
  abbrev pub Finishes : System → Type 0
  Finishes s =
      (t : System) × Step h now should_log threads loggers s t
      × (remaining threads loggers t < remaining threads loggers s)
      × Keeps s t

  pub serving-Finishes :
      (s : System) (x k : ℕ) (y : Stage)
      → Exclusive s
      → x < threads
      → s.thread x ≡ serving k
      → (s.client k).stage ≡ y
      → y ≢ quiet
      → IsWithin loggers y
      → Finishes s
  serving-Finishes s x k quiet v lt a b ne w = absurd (ne refl)
  serving-Finishes s x k rearming v lt a b ne w = (
    _,
    rearms x k lt a b,
    rearms_less threads loggers s x k v lt a b,
    (refl, refl, put_sent s.client k _ refl, λ i. refl),
  )
  serving-Finishes s x k (pushing j es) v lt a b ne w = elim (Bool-cases (ltb j loggers)) [
    | inl q ↦
        let below : j < loggers = ground arith in
        (
          _,
          pushes x k j es lt a b below,
          stage_less threads loggers s x k _ _ _ v lt a b (omega (arith, below)),
          (refl, refl, put_sent s.client k _ refl, deliver-calls s.station j k es),
        )
    | inr q ↦
        let all : j ≡ loggers = ground arith in
        (
          _,
          has_pushed x k j es lt a b all,
          stage_less threads loggers s x k _ _ _ v lt a b (omega arith),
          (refl, refl, put_sent s.client k _ refl, λ i. refl),
        )
  ]

  pub accepting-Finishes :
      (s : System) (x j : ℕ)
      → x < threads
      → s.thread x ≡ accepting j
      → j ≤ length s.acceptors
      → Finishes s
  accepting-Finishes s x j lt a le = elim (Bool-cases (ltb j (length s.acceptors))) [
    | inl q ↦
        let below : j < length s.acceptors = ground arith in
        (
          _,
          listens x j lt a below,
          place_less threads loggers s (listen_at j s.acceptors) x (accepting (suc j)) _ lt a
              (length-listen_at j s.acceptors) (omega (arith, below)),
          (refl, refl, λ k. refl, λ i. refl),
        )
    | inr q ↦
        let all : j ≡ length s.acceptors = ground arith in
        (
          _,
          has_listened x j lt a all,
          place_less threads loggers s s.acceptors x polling _ lt a refl (omega (arith, all)),
          (refl, refl, λ k. refl, λ i. refl),
        )
  ]

  pub leaving-Finishes : (s : System) (x k : ℕ) → x < threads → s.thread x ≡ leaving k → Finishes s
  leaving-Finishes s x k lt a = (
    _,
    has_served x k lt a,
    place_less threads loggers s s.acceptors x polling _ lt a refl (omega arith),
    (refl, refl, λ k. refl, λ i. refl),
  )
