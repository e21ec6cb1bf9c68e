-- ===== src/Server/Threads/Safety.antt =====
-- No way out of the constructor or the destructor leaves a producer thread behind.
use scriptor.Prelude.{
  length, length-append, ◌<◌, ◌⊎◌, inl, inr, arith, ℕ, zero, suc, ◌+◌, ◌≡◌, refl, sym, ap, ◌∙◌,
  true, List, [], ◌∷◌, ◌++◌, map, append_assoc, append-nil, replicate, All,
}
use scriptor.Server.Threads.{
  Thread, joinable, joined, Start, started, no_thread, no_room, Producers, join_if_joinable,
  shutdown, Ended, runs, threw, start_threads,
}

-- A thread that may be destroyed: destroying one that is joinable ends the process.
abbrev pub IsJoined : Thread → Type 0
IsJoined t = t ≡ joined

All-append : (xs ys : List Thread) → All IsJoined xs → All IsJoined ys → All IsJoined (xs ++ ys)
All-append [] ys hx hy = hy
All-append (x ∷ xs) ys hx hy = (hx.0, All-append xs ys hx.1 hy)

All-IsJoined : (ts : List Thread) → All IsJoined (map join_if_joinable ts)
unfolding join_if_joinable
All-IsJoined [] = tt
All-IsJoined (joinable ∷ ts) = (refl, All-IsJoined ts)
All-IsJoined (joined ∷ ts) = (refl, All-IsJoined ts)

map-joined : (ts : List Thread) → All IsJoined ts → map join_if_joinable ts ≡ ts
unfolding join_if_joinable
map-joined [] h = refl
map-joined (t ∷ ts) h = rw (h.0, map-joined ts h.1)

-- `shutdown` stops the context and leaves no thread joinable, and calling it again changes
-- nothing.
pub shutdown_once :
    (p : Producers)
    → ((shutdown p).ioc_stopped ≡ true)
      × All IsJoined (shutdown p).threads
      × (shutdown (shutdown p) ≡ shutdown p)
unfolding shutdown
shutdown_once p = (
  refl,
  All-IsJoined p.threads,
  ap (λ ts. record { ioc_stopped = true; threads = ts })
      (map-joined (map join_if_joinable p.threads) (All-IsJoined p.threads)),
)

length-joined : (ts : List Thread) → length (map join_if_joinable ts) ≡ length ts
length-joined [] = refl
length-joined (t ∷ ts) = ap suc (length-joined ts)

-- How the loop may end from round `i` on, with `n` threads to start: all these are started and run,
-- with the context as it was; or so many have been started, the next round throws, the context is
-- stopped, and there are as many joined threads as have been started, in the vector or beside it.
abbrev pub EndsSafely : ℕ → (ℕ → Start) → ℕ → Producers → Ended → Type 0
EndsSafely n starts i p (runs q) =
    (q.threads ≡ p.threads ++ replicate n joinable)
    × (q.ioc_stopped ≡ p.ioc_stopped)
    × ((m : ℕ) → m < n → starts (i + m) ≡ started)
EndsSafely n starts i p (threw what q loose) =
    (q.ioc_stopped ≡ true)
    × All IsJoined (q.threads ++ loose)
    × (k : ℕ) × (k < n)
    × ((m : ℕ) → m < k → starts (i + m) ≡ started)
    × (((starts (i + k) ≡ no_thread what) × (length (q.threads ++ loose) ≡ length p.threads + k))
        ⊎ ((starts (i + k) ≡ no_room what)
            × (length (q.threads ++ loose) ≡ length p.threads + k + 1)))

-- A round that starts a thread, and then the others.
more_started :
    (n : ℕ) (starts : ℕ → Start) (i : ℕ)
    → starts i ≡ started
    → ((m : ℕ) → m < n → starts ((i + 1) + m) ≡ started)
    → (m : ℕ) → m < suc n
    → starts (i + m) ≡ started
more_started n starts i first rest zero lt = ap starts (omega arith) ∙ first
more_started n starts i first rest (suc m) lt =
    ap starts (let e : i + suc m ≡ (i + 1) + m = omega arith in e) ∙ rest m (omega (arith, lt))

EndsSafely-suc :
    (n : ℕ) (starts : ℕ → Start) (i : ℕ) (p : Producers) (r : Ended)
    → starts i ≡ started
    → EndsSafely n starts (i + 1) (record p { threads = p.threads ++ (joinable ∷ []) }) r
    → EndsSafely (suc n) starts i p r
EndsSafely-suc n starts i p (runs q) first (a, b, c) = (
  a ∙ append_assoc p.threads (joinable ∷ []) (replicate n joinable),
  b,
  more_started n starts i first c,
)
EndsSafely-suc n starts i p (threw what q loose) first (a, b, k, lt, c, d) =
    let e : (i + 1) + k ≡ i + suc k = omega arith in
    let one = length-append p.threads (joinable ∷ []) in
    (
      a,
      b,
      suc k,
      omega (arith, lt),
      more_started k starts i first c,
      elim d [
        | inl (q, l) ↦ inl (ap starts (sym e) ∙ q, omega (arith, l, one))
        | inr (q, l) ↦ inr (ap starts (sym e) ∙ q, omega (arith, l, one))
      ],
    )

-- Whatever goes wrong in whichever round: the start of the producers ends with all the threads
-- that were asked for running, where no round throws; or, in the first round that throws, it
-- throws what that does, with the context stopped and every thread joined that was started
-- before, and the one that was started and could not be stored.
pub start_threads-EndsSafely :
    (n : ℕ) (starts : ℕ → Start) (i : ℕ) (p : Producers)
    → EndsSafely n starts i p (start_threads n starts i p)
unfolding start_threads
start_threads-EndsSafely zero starts i p =
    (sym (append-nil p.threads), refl, λ m lt. absurd (omega (arith, lt)))
start_threads-EndsSafely (suc n) starts i p = ended (starts i) refl (
    start_threads-EndsSafely n starts (i + 1) (record p { threads = p.threads ++ (joinable ∷ []) }))
  where
    more : Producers
    more = record p { threads = p.threads ++ (joinable ∷ []) }

    first : (s : Start) → starts i ≡ s → starts (i + 0) ≡ s
    first s e = ap starts (omega arith) ∙ e

    ended :
        (s : Start)
        → starts i ≡ s
        → EndsSafely n starts (i + 1) more (start_threads n starts (i + 1) more)
        → EndsSafely (suc n) starts i p (elim s [
          | started ↦ start_threads n starts (i + 1) more
          | no_thread what ↦ threw what (shutdown p) []
          | no_room what ↦ threw what (shutdown p) (joined ∷ [])
        ])
    ended started e rest = EndsSafely-suc n starts i p _ e rest
    ended (no_thread what) e rest =
        unfold shutdown in
        (
          refl,
          All-append _ [] (All-IsJoined p.threads) tt,
          0,
          omega arith,
          (λ m lt. absurd (omega (arith, lt))),
          inl (
            first (no_thread what) e,
            omega
                (arith, length-append (map join_if_joinable p.threads) [], length-joined p.threads),
          ),
        )
    ended (no_room what) e rest =
        unfold shutdown in
        (
          refl,
          All-append _ (joined ∷ []) (All-IsJoined p.threads) (refl, tt),
          0,
          omega arith,
          (λ m lt. absurd (omega (arith, lt))),
          inr (
            first (no_room what) e,
            omega (
              arith,
              length-append (map join_if_joinable p.threads) (joined ∷ []),
              length-joined p.threads,
            ),
          ),
        )
