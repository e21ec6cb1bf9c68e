-- ===== src/Server/System/Alone.antt =====
-- The callback of an accept as its thread runs it.
use scriptor.Prelude.{
  ℕ, zero, suc, ◌+◌, ◌<◌, ◌≡◌, ◌≢◌, refl, sym, subst, ap, ◌∙◌, Bool, List, [], ◌∷◌, map, length, ℤ,
  put, put_self, put_other, arith,
}
use scriptor.Host.{Host}
use scriptor.Acceptor.{Acceptor, async_accept}
use scriptor.Session.{Session}
use scriptor.Server.Accept.{
  Arrival, refused, connected, place, complete_at, opened, accept, on_accept,
}
use scriptor.Server.Accept.Pending.{IsAwaited}
use scriptor.Server.Delivery.{opens}
use scriptor.Server.System.{
  Client, polling, accepting, System, listen_at, new_client, IsReady, Step, accepts, refuses,
  listens, has_listened,
}
use scriptor.Server.System.Accepts.{length-complete_at, length-listen_at}
use scriptor.Server.System.Callbacks.{Goes, stays, goes}

-- Rounds of the loop of `accept`, from the place `j` on.
abbrev listen_from : ℕ → ℕ → List Acceptor → List Acceptor
listen_from j zero accs = accs
listen_from j (suc m) accs = listen_from (suc j) m (listen_at j accs)

listen_from-cons :
    (m j : ℕ) (a : Acceptor) (rest : List Acceptor)
    → listen_from (suc j) m (a ∷ rest) ≡ a ∷ listen_from j m rest
listen_from-cons zero j a rest = refl
listen_from-cons (suc m) j a rest = listen_from-cons m (suc j) a (listen_at j rest)

listen_from-map : (accs : List Acceptor) → listen_from 0 (length accs) accs ≡ map async_accept accs
listen_from-map [] = refl
listen_from-map (a ∷ rest) =
    listen_from-cons (length rest) 0 (async_accept a) rest
    ∙ ap (λ accs. async_accept a ∷ accs) (listen_from-map rest)

module _ (h : Host) (now : ℕ → ℕ → ℤ) (should_log : ℕ → ℤ → Bool) (threads loggers : ℕ) where
  -- After so many steps the thread `x` polls again and no other has moved.
  abbrev pub Returns : ℕ → System → ℕ → System → Type 0
  Returns x s n t =
      Goes h now should_log threads loggers s n t
      × (t.thread x ≡ polling)
      × ((y : ℕ) → x ≢ y → t.thread y ≡ s.thread y)

  loop :
      (m j x : ℕ) (s : System)
      → j + m ≡ length s.acceptors
      → x < threads
      → s.thread x ≡ accepting j
      → (t : System) × Returns x s (suc m) t
        × (t.acceptors ≡ listen_from j m s.acceptors)
        × (t.opened ≡ s.opened)
        × (t.client ≡ s.client)
        × (t.station ≡ s.station)
  loop zero j x s e lt a = (
    _,
    (
      goes (has_listened x j lt a (omega (arith, e))) stays,
      put_self s.thread x polling,
      put_other s.thread x polling,
    ),
    refl,
    refl,
    refl,
    refl,
  )
  loop (suc m) j x s e lt a =
      let p = accepting (suc j) in
      let s' = record s { acceptors = listen_at j s.acceptors; thread = put s.thread x p } in
      let (t, (g, b, others), listened, same, sessions, stations) =
        loop m (suc j) x s' (omega (arith, e, length-listen_at j s.acceptors)) lt
          (put_self s.thread x p) in
      (
        t,
        (
          goes (listens x j lt a (omega (arith, e))) g,
          b,
          (λ y n. others y n ∙ put_other s.thread x p y n),
        ),
        listened,
        same,
        sessions,
        stations,
      )

  -- The sessions are those of before, and the new one if there is one.
  abbrev pub Opens : System → System → List Session → Type 0
  Opens s t [] = (t.opened ≡ s.opened) × (t.client ≡ s.client)
  Opens s t (e ∷ []) = (t.opened ≡ suc s.opened) × (t.client ≡ put s.client s.opened (new_client e))
  Opens s t (e ∷ f ∷ es) = ⊥

  -- The state behind the first step of the callback.
  abbrev arrived : System → ℕ → ℕ → ℕ → (ℕ → Client) → System
  arrived s x i opened client = record s {
    acceptors = complete_at i s.acceptors;
    opened = opened;
    client = client;
    thread = put s.thread x (accepting 0);
  }

  behind_arrival :
      (s : System) (x i o : ℕ) (c : ℕ → Client)
      → x < threads
      → Step h now should_log threads loggers s (arrived s x i o c)
      → (u : System) × Returns x s (suc (suc (length s.acceptors))) u
        × (u.acceptors ≡ map async_accept (complete_at i s.acceptors))
        × (u.opened ≡ o)
        × (u.client ≡ c)
        × (u.station ≡ s.station)
  behind_arrival s x i o c lt st =
      let accs = complete_at i s.acceptors in
      let (u, (g, b, others), listened, same, sessions, stations) =
        loop (length accs) 0 x (arrived s x i o c) (omega arith) lt
          (put_self s.thread x (accepting 0)) in
      (
        u,
        (
          subst (λ n. Goes h now should_log threads loggers s (suc (suc n)) u)
              (length-complete_at i s.acceptors) (goes st g),
          b,
          (λ y n. others y n ∙ put_other s.thread x (accepting 0) y n),
        ),
        listened ∙ listen_from-map accs,
        same,
        sessions,
        stations,
      )

  -- The callback of an accept that is run to its end without a step of another thread does what
  -- it does as one step: where a thread is ready and an accept is under way, it can come back to
  -- polling by two steps more than there are acceptors; then the acceptors are those behind
  -- `on_accept`, the sessions are those of before and the one that `on_accept` opens, and no other
  -- thread and no logger has changed.
  pub accept_alone :
      (s : System) (x : ℕ) (v : Arrival)
      → IsReady threads s x
      → IsAwaited (place v) s.acceptors
      → let f = on_accept (record { acceptors = s.acceptors; sessions = [] }) v in
        (t : System) × Returns x s (suc (suc (length s.acceptors))) t
        × (t.acceptors ≡ f.acceptors)
        × Opens s t f.sessions
        × (t.station ≡ s.station)
  unfolding on_accept accept opened
  accept_alone s x (refused i) ready awaited =
      let (t, r, listened, same, sessions, stations) =
        behind_arrival s x i s.opened s.client ready.0 (refuses x i ready awaited) in
      (t, r, listened, (same, sessions), stations)
  accept_alone s x (connected i handle garbage) ready awaited =
      let (e, only, _) = opens s.acceptors i handle garbage awaited in
      let (t, r, listened, same, sessions, stations) =
        behind_arrival s x i (suc s.opened) (put s.client s.opened (new_client e)) ready.0
          (accepts x i handle garbage e ready awaited only) in
      (t, r, listened, subst (Opens s t) (sym only) (same, sessions), stations)
