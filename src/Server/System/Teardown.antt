-- ===== src/Server/System/Teardown.antt =====
-- src/server.cpp, `m_loggers.clear()`, in the running server: the loggers are destroyed one after
-- the other.
use scriptor.Prelude.{
  ℕ, zero, suc, ◌+◌, ◌≤◌, ◌<◌, ◌≡◌, ◌≢◌, refl, sym, subst, ap, ◌∙◌, Bool, ◌++◌, append_assoc,
  append-nil, ℤ, put, put_self, put_other, arith, ==_iff, ==_neq, ◌==◌, Bool-cases, inl, inr,
}
use scriptor.Host.{Host}
use scriptor.Logger.{exited, turned, stopped, step, stop, turn, turns_left, join, destroy_logger}
use scriptor.Server.System.{
  Station, clearing, awaiting, has_closed, System, happen, Step, works, closes,
}
use scriptor.Server.System.Callbacks.{Goes, stays, goes}

module _ (should_log : ℕ → ℤ → Bool) where
  -- The logger behind some turns of its worker.
  abbrev joined : ℕ → ℕ → (ℕ → Bool) → ℕ → Station → Station
  joined j fuel throws i st =
      let (l, more) = join (should_log j) fuel throws i st.logger in
      record st { logger = l; calls = st.calls ++ more }

  -- The logger behind its destructor.
  abbrev pub destroyed : ℕ → (ℕ → Bool) → Station → Station
  destroyed j throws st =
      let (l, more) = destroy_logger (should_log j) throws st.logger in
      record st { logger = l; calls = st.calls ++ more }

  joined-zero : (j : ℕ) (throws : ℕ → Bool) (i : ℕ) (st : Station) → joined j 0 throws i st ≡ st
  unfolding join
  joined-zero j throws i st = ap (λ cs. record st { calls = cs }) (append-nil st.calls)

  joined-suc :
      (j fuel : ℕ) (throws : ℕ → Bool) (i : ℕ) (st : Station)
      → joined j fuel throws (i + 1) (happen should_log j (turned (throws i)) st)
        ≡ joined j (suc fuel) throws i st
  unfolding join step
  joined-suc j fuel throws i st =
      let (m, cs) = turn (should_log j) st.logger (throws i) in
      let (n, ds) = join (should_log j) fuel throws (i + 1) m in
      ap (λ calls. record st { logger = n; calls = calls }) (append_assoc st.calls cs ds)

  destroyed_lem :
      (j : ℕ) (throws : ℕ → Bool) (st : Station)
      → joined j (turns_left st.logger.worker) throws 0 (happen should_log j stopped st)
        ≡ destroyed j throws st
  unfolding destroy_logger step stop
  destroyed_lem j throws st =
      let (n, ds) = join (should_log j) (turns_left st.logger.worker) throws 0 (stop st.logger) in
      ap (λ calls. record st { logger = n; calls = calls ++ ds }) (append-nil st.calls)

  module _ (h : Host) (now : ℕ → ℕ → ℤ) (threads loggers : ℕ) where
    -- Steps that only change the logger `j`, to this.
    abbrev pub Turns : System → ℕ → ℕ → Station → Type 0
    Turns s n j st =
        (f : ℕ → Station) × Goes h now should_log threads loggers s n (record s { station = f })
        × (f j ≡ st)
        × ((i : ℕ) → j ≢ i → f i ≡ s.station i)

    -- A step that changes the logger `j`, and the others.
    pub then-Turns :
        (s : System) (n j : ℕ) (st new : Station)
        → Step h now should_log threads loggers s (record s { station = put s.station j st })
        → Turns (record s { station = put s.station j st }) n j new
        → Turns s (suc n) j new
    then-Turns s n j st new first (f, g, same, others) =
        (f, goes first g, same, λ i d. others i d ∙ put_other s.station j st i d)

    join-Turns :
        (fuel : ℕ) (throws : ℕ → Bool) (i j : ℕ) (s : System)
        → Turns s fuel j (joined j fuel throws i (s.station j))
    join-Turns zero throws i j s =
        (s.station, stays, sym (joined-zero j throws i (s.station j)), λ k d. refl)
    join-Turns (suc fuel) throws i j s =
        let st = happen should_log j (turned (throws i)) (s.station j) in
        then-Turns s fuel j st (joined j (suc fuel) throws i (s.station j)) (works j (throws i)) (
          subst (Turns (record s { station = put s.station j st }) fuel j)
            (ap (joined j fuel throws (i + 1)) (put_self s.station j st)
              ∙ joined-suc j fuel throws i (s.station j))
            (join-Turns fuel throws (i + 1) j (record s { station = put s.station j st })))

    pub goes-append :
        {s t u : System} {m n : ℕ}
        → Goes h now should_log threads loggers s m t
        → Goes h now should_log threads loggers t n u
        → (k : ℕ) × Goes h now should_log threads loggers s k u
    goes-append stays g = (_, g)
    goes-append (goes st f) g = let (k, rest) = goes-append f g in (suc k, goes st rest)

    -- If each logger can go on by itself to where `P` holds of it, the first `m` loggers can.
    pub each_logger {κ} :
        (P : ℕ → Station → Type κ) (s : System)
        → ((j : ℕ) (f : ℕ → Station)
            → f j ≡ s.station j
            → (n : ℕ) × (st : Station) × Turns (record s { station = f }) n j st × P j st)
        → (m : ℕ)
        → (n : ℕ) × (f : ℕ → Station) × Goes h now should_log threads loggers s n
            (record s { station = f })
          × (((j : ℕ) → j < m → P j (f j)) × ((j : ℕ) → m ≤ j → f j ≡ s.station j))
    each_logger P s each zero =
        (0, s.station, stays, ((λ j lt. absurd (omega (arith, lt))), λ j le. refl))
    each_logger P s each (suc m) =
        let (n, f, g, (below, above)) = each_logger P s each m in
        let (n', st, (f', g', new, others), holds) = each m f (above m (omega arith)) in
        let (k, whole) = goes-append g g' in
        (
          k,
          f',
          whole,
          (
            (λ j lt. elim (Bool-cases (m == j)) [
              | inl e ↦ subst (λ i. P i (f' i)) ((==_iff m j).0 e) (subst (P m) (sym new) holds)
              | inr e ↦
                  subst (P j) (sym (others j (==_neq m j e)))
                    (below j (omega (arith, lt, ==_neq m j e)))
            ]),
            (λ j le. others j (λ e. omega (arith, e, le)) ∙ above j (omega (arith, le))),
          ),
        )

    -- The destructor of a logger: the store to `m_done`, and turns of the worker until it has left.
    destroy-Goes :
        (throws : ℕ → Bool) (j : ℕ) (s : System)
        → j < loggers
        → (destroyed j throws (s.station j)).logger.worker ≡ exited
        → (n : ℕ) × (f : ℕ → Station) × Goes h now should_log threads loggers
            (record s { phase = clearing j })
            n
            (record s { station = f; phase = clearing (suc j) })
          × (f j ≡ destroyed j throws (s.station j))
          × ((i : ℕ) → j ≢ i → f i ≡ s.station i)
    destroy-Goes throws j s below exits =
        let st = happen should_log j stopped (s.station j) in
        let fuel = turns_left (s.station j).logger.worker in
        let told = record s { station = put s.station j st; phase = awaiting j } in
        let (f, g, same, others) = join-Turns fuel throws 0 j told in
        let ends : f j ≡ destroyed j throws (s.station j) =
          same
          ∙ (ap (joined j fuel throws 0) (put_self s.station j st)
              ∙ destroyed_lem j throws (s.station j)) in
        let (n, whole) =
          goes-append (goes (closes j refl below) g)
            (goes (has_closed j refl (ap (λ (u : Station). u.logger.worker) ends ∙ exits)) stays) in
        (n, f, whole, ends, λ i d. others i d ∙ put_other s.station j st i d)

    -- The first `m` loggers are destroyed, and the others are as before.
    abbrev pub TornDown : (ℕ → ℕ → Bool) → System → ℕ → (ℕ → Station) → Type 0
    TornDown throws s m f =
        ((j : ℕ) → j < m → f j ≡ destroyed j (throws j) (s.station j))
        × ((j : ℕ) → m ≤ j → f j ≡ s.station j)

    -- `m_loggers.clear()` as a run of the server, where no sink throws in a last flush.
    pub destroy_goes :
        (throws : ℕ → ℕ → Bool) (s : System) (m : ℕ)
        → m ≤ loggers
        → ((j : ℕ) → j < m → (destroyed j (throws j) (s.station j)).logger.worker ≡ exited)
        → (n : ℕ) × (f : ℕ → Station) × Goes h now should_log threads loggers
            (record s { phase = clearing 0 })
            n
            (record s { station = f; phase = clearing m })
          × TornDown throws s m f
    destroy_goes throws s zero le exits =
        (0, s.station, stays, ((λ j lt. absurd (omega (arith, lt))), λ j le. refl))
    destroy_goes throws s (suc m) le exits =
        let (n, f, g, (below, above)) =
          destroy_goes throws s m (omega (arith, le)) (λ j lt. exits j (omega (arith, lt))) in
        let at : f m ≡ s.station m = above m (omega arith) in
        let (n', f', g', new, others) =
          destroy-Goes (throws m) m (record s { station = f }) (omega (arith, le))
            (ap (λ st. (destroyed m (throws m) st).logger.worker) at ∙ exits m (omega arith)) in
        let (k, whole) = goes-append g g' in
        (
          k,
          f',
          whole,
          (
            (λ j lt. elim (Bool-cases (m == j)) [
              | inl e ↦
                  subst (λ i. f' i ≡ destroyed i (throws i) (s.station i)) ((==_iff m j).0 e)
                    (new ∙ ap (destroyed m (throws m)) at)
              | inr e ↦ others j (==_neq m j e) ∙ below j (omega (arith, lt, ==_neq m j e))
            ]),
            (λ j le. others j (λ e. omega (arith, e, le)) ∙ above j (omega (arith, le))),
          ),
        )
