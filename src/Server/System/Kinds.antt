-- ===== src/Server/System/Kinds.antt =====
-- Who takes a step of the running server.
use scriptor.Prelude.{ℕ, suc, ◌<◌, ◌≡◌, refl, ◌⊎◌, inl, inr, Bool, ℤ, put, arith}
use scriptor.Host.{Host}
use scriptor.Logger.{turned}
use scriptor.Server.System.{
  polling, accepting, gone, System, listen_at, happen, Step, accepts, refuses, listens,
  has_listened, has_served, joins, has_joined, has_closed, receives, fails, pushes, has_pushed,
  rearms, works, stops, returns, closes,
}
use scriptor.Server.System.Accepts.{length-listen_at}
use scriptor.Server.System.Seats.{Exclusive}
use scriptor.Server.System.Costs.{remaining, stage_less, rearms_less, place_less}

-- asio, which completes an accept or a read; a thread or a worker by itself; the destructor.
pub data Kind : Type 0 where
  from_asio own from_destructor : Kind

module _ (h : Host) (now : ℕ → ℕ → ℤ) (should_log : ℕ → ℤ → Bool) (threads loggers : ℕ) where
  abbrev pub kind : {s t : System} → Step h now should_log threads loggers s t → Kind
  kind (accepts x i handle garbage e ready a o) = from_asio
  kind (refuses x i ready a) = from_asio
  kind (listens x j lt a b) = own
  kind (has_listened x j lt a b) = own
  kind (receives x k bytes ready lt n) = from_asio
  kind (fails x k ready lt n) = from_asio
  kind (pushes x k j es lt a b c) = own
  kind (has_pushed x k j es lt a b c) = own
  kind (rearms x k lt a b) = own
  kind (has_served x k lt a) = own
  kind (works j throws) = own
  kind (stops p) = from_destructor
  kind (joins x p lt a) = from_destructor
  kind (has_joined x p e) = from_destructor
  kind (has_closed j p e) = from_destructor
  kind (returns x lt a b) = own
  kind (closes j p below) = from_destructor

  abbrev pub worked : System → ℕ → Bool → System
  worked s j throws = record s {
    station = put s.station j (happen should_log j (turned throws) (s.station j));
  }

  -- A thread by itself comes nearer to its end; otherwise it is a worker.
  pub Step-own :
      {s t : System} (st : Step h now should_log threads loggers s t)
      → kind st ≡ own
      → Exclusive s
      → (remaining threads loggers t < remaining threads loggers s)
        ⊎ ((j : ℕ) × (throws : Bool) × (t ≡ worked s j throws))
  Step-own (accepts x i handle garbage e ready a o) q v = cc
  Step-own (refuses x i ready a) q v = cc
  Step-own {s} (listens x j lt a b) q v = inl (
      place_less threads loggers s (listen_at j s.acceptors) x (accepting (suc j)) _ lt a
        (length-listen_at j s.acceptors) (omega (arith, b)))
  Step-own {s} (has_listened x j lt a b) q v =
      inl (place_less threads loggers s s.acceptors x polling _ lt a refl (omega (arith, b)))
  Step-own (receives x k bytes ready lt n) q v = cc
  Step-own (fails x k ready lt n) q v = cc
  Step-own {s} (pushes x k j es lt a b c) q v =
      inl (stage_less threads loggers s x k _ _ _ v lt a b (omega (arith, c)))
  Step-own {s} (has_pushed x k j es lt a b c) q v =
      inl (stage_less threads loggers s x k _ _ _ v lt a b (omega arith))
  Step-own {s} (rearms x k lt a b) q v = inl (rearms_less threads loggers s x k v lt a b)
  Step-own {s} (has_served x k lt a) q v =
      inl (place_less threads loggers s s.acceptors x polling _ lt a refl (omega arith))
  Step-own (works j throws) q v = inr (j, throws, refl)
  Step-own (stops p) q v = cc
  Step-own (joins x p lt a) q v = cc
  Step-own (has_joined x p e) q v = cc
  Step-own (has_closed j p e) q v = cc
  Step-own {s} (returns x lt a b) q v =
      inl (place_less threads loggers s s.acceptors x gone polling lt a refl (omega arith))
  Step-own (closes j p below) q v = cc
