-- ===== src/Server/Accept/Pending.antt =====
-- How many accepts are under way.
use scriptor.Prelude.{
  ℕ, zero, suc, ◌+◌, ◌*◌, ◌≤◌, ◌≡◌, refl, ap, ◌∙◌, List, [], ◌∷◌, map, length, All, arith,
}
use scriptor.Acceptor.{Acceptor, async_accept, complete}
use scriptor.Server.Accept.{Front, accept, Arrival, place, complete_at, on_accept, run_accepts}

abbrev pub total_pending : List Acceptor → ℕ
total_pending [] = 0
total_pending (a ∷ rest) = a.pending + total_pending rest

-- asio calls back for an accept that is under way.
abbrev pub IsAwaited : ℕ → List Acceptor → Type 0
IsAwaited i [] = ⊥
IsAwaited zero (a ∷ rest) = 1 ≤ a.pending
IsAwaited (suc i) (a ∷ rest) = IsAwaited i rest

-- The arrivals come one after the other, each for an accept under way at that time.
abbrev pub AreAwaited : Front → List Arrival → Type 0
AreAwaited f [] = Unit
AreAwaited f (v ∷ vs) = IsAwaited (place v) f.acceptors × AreAwaited (on_accept f v) vs

pub total_pending-accept :
    (rest : List Acceptor)
    → total_pending (map async_accept rest) ≡ total_pending rest + length rest
unfolding async_accept
total_pending-accept [] = refl
total_pending-accept (a ∷ rest) = omega (arith, total_pending-accept rest)

pub total_pending_complete :
    (i : ℕ) (accs : List Acceptor)
    → IsAwaited i accs
    → (total_pending (complete_at i accs) + 1 ≡ total_pending accs)
      × (length (complete_at i accs) ≡ length accs)
unfolding complete
total_pending_complete i [] h = absurd h
total_pending_complete zero (a ∷ rest) h = (omega arith, refl)
total_pending_complete (suc i) (a ∷ rest) h =
    let (sum, len) = total_pending_complete i rest h in (omega arith, ap suc len)

pub length-accept : (rest : List Acceptor) → length (map async_accept rest) ≡ length rest
length-accept [] = refl
length-accept (a ∷ rest) = ap suc (length-accept rest)

on_accept-total :
    (f : Front) (v : Arrival)
    → IsAwaited (place v) f.acceptors
    → (total_pending (on_accept f v).acceptors + 1 ≡ total_pending f.acceptors + length f.acceptors)
      × (length (on_accept f v).acceptors ≡ length f.acceptors)
unfolding on_accept accept
on_accept-total f v h =
    let (sum, len) = total_pending_complete (place v) f.acceptors h in
    (
      omega (arith, total_pending-accept (complete_at (place v) f.acceptors)),
      length-accept (complete_at (place v) f.acceptors) ∙ len,
    )

-- Over a sequence of callbacks, each for an accept under way: each takes one accept off and starts
-- one on every acceptor. So with one acceptor the number of accepts under way stays as it is, and
-- with two it grows by one with every connection and every failed accept.
pub run_accepts-total :
    (vs : List Arrival) (f : Front)
    → AreAwaited f vs
    → total_pending (run_accepts f vs).acceptors + length vs
      ≡ total_pending f.acceptors + length vs * length f.acceptors
unfolding run_accepts
run_accepts-total [] f h = omega arith
run_accepts-total (v ∷ vs) f h =
    let (sum, len) = on_accept-total f v h.0 in
    let rest = run_accepts-total vs (on_accept f v) h.1 in
    omega (arith, ap (λ n. length vs * n) len)

All-waiting : (rest : List Acceptor) → All (λ a. 1 ≤ a.pending) (map async_accept rest)
unfolding async_accept
All-waiting [] = tt
All-waiting (a ∷ rest) = (omega arith, All-waiting rest)

-- The server never stops listening: behind every callback, also of a failed accept, each acceptor
-- has an accept under way.
on_accept_listens : (f : Front) (v : Arrival) → All (λ a. 1 ≤ a.pending) (on_accept f v).acceptors
unfolding on_accept accept
on_accept_listens f v = All-waiting (complete_at (place v) f.acceptors)
