-- ===== src/Server/Crowd/Order.antt =====
-- What each logger gets from each client.
use scriptor.Prelude.{
  ℕ, zero, suc, ◌+◌, ◌<◌, ◌≤◌, ◌≡◌, refl, sym, ap, ap₂, ◌∙◌, Bool, false, Option, none, some, List,
  [], ◌∷◌, ◌++◌, concat, append_assoc, append-nil, ℤ, keep, keep-append, ◌==◌, ==_iff, ==_neq,
  Bool-cases, inl, inr, ◌≢◌, if_true, if_false, if◌then◌else◌, All, arith,
}
use scriptor.Element.{Element}
use scriptor.Logger.{Logger, SinkCall, Event, pushed, turned, step, run_logger}
use scriptor.Logger.Order.{IsQuiet, in_hand, written, passed, all_pushed, run_logger-order}
use scriptor.Server.Crowd.{
  Action, by_client, by_worker, rounds_from, client_actions, step_at, run_crowd,
}

abbrev pub at_logger : ℕ → Action → Bool
at_logger j (by_client k i elements) = i == j
at_logger j (by_worker i throws) = i == j

abbrev pub of_client : ℕ → Action → Bool
of_client k (by_client c i elements) = c == k
of_client k (by_worker i throws) = false

-- The event that an action is for its logger.
abbrev pub event : Action → Event
event (by_client k i elements) = pushed elements
event (by_worker i throws) = turned throws

abbrev pub events_at : ℕ → List Action → List Event
events_at j [] = []
events_at j (a ∷ actions) =
    let rest = events_at j actions in if at_logger j a then event a ∷ rest else rest

-- The batches that are pushed, in order.
abbrev pub batches : List Action → List (List Element)
batches [] = []
batches (by_client k i elements ∷ actions) = elements ∷ batches actions
batches (by_worker i throws ∷ actions) = batches actions

abbrev pub nth {ℓ} : {A : Type ℓ} → ℕ → List A → Option A
nth j [] = none
nth zero (x ∷ xs) = some x
nth (suc j) (x ∷ xs) = nth j xs

keep_comm {ℓ} :
    {A : Type ℓ} (p q : A → Bool) (xs : List A) → keep p (keep q xs) ≡ keep q (keep p xs)
keep_comm p q [] = refl
keep_comm p q (x ∷ xs) = ground (arith, keep_comm p q xs)

batches-append : (xs ys : List Action) → batches (xs ++ ys) ≡ batches xs ++ batches ys
batches-append [] ys = refl
batches-append (by_client k i es ∷ xs) ys = ap (λ l. es ∷ l) (batches-append xs ys)
batches-append (by_worker i t ∷ xs) ys = batches-append xs ys

rounds_behind :
    (n k i j : ℕ) (es : List Element) → j < i → keep (at_logger j) (rounds_from n k i es) ≡ []
rounds_behind zero k i j es h = refl
rounds_behind (suc n) k i j es h =
    ground (arith, ==_iff i j, rounds_behind n k (suc i) j es (omega (arith, h)))

rounds_once :
    (n k i j : ℕ) (es : List Element)
    → i ≤ j
    → j < i + n
    → keep (at_logger j) (rounds_from n k i es) ≡ by_client k j es ∷ []
rounds_once zero k i j es a b = absurd (omega (arith, a, b))
rounds_once (suc n) k i j es a b = elim (Bool-cases (i == j)) [
  | inl e ↦
      rw (e, rounds_behind n k (suc i) j es (let q : i ≡ j = (==_iff i j).0 e in omega (arith, q)))
        (let q : i ≡ j = (==_iff i j).0 e in ap (λ x. by_client k x es ∷ []) q)
  | inr e ↦ rw e (rounds_once n k (suc i) j es (omega (arith, a, ==_neq i j e)) (omega (arith, b)))
]

client-batches :
    (n k j : ℕ) (ess : List (List Element))
    → j < n
    → batches (keep (at_logger j) (client_actions n k ess)) ≡ ess
client-batches n k j [] h = refl
client-batches n k j (es ∷ ess) h =
    ap batches (keep-append (at_logger j) (rounds_from n k 0 es) (client_actions n k ess))
    ∙ (batches-append (keep (at_logger j) (rounds_from n k 0 es))
          (keep (at_logger j) (client_actions n k ess))
        ∙ ap₂ ◌++◌ (ap batches (rounds_once n k 0 j es (omega arith) (omega (arith, h))))
            (client-batches n k j ess h))

all_pushed-events_at :
    (j : ℕ) (actions : List Action)
    → all_pushed (events_at j actions) ≡ concat (batches (keep (at_logger j) actions))
all_pushed-events_at j [] = refl
all_pushed-events_at j (by_client k i es ∷ actions) = ground (arith, all_pushed-events_at j actions)
all_pushed-events_at j (by_worker i t ∷ actions) = ground (arith, all_pushed-events_at j actions)

module _ (should_log : ℕ → ℤ → Bool) where
  -- What events make of the logger at `j`, with the calls on its sink so far.
  abbrev grown : ℕ → List Event → Logger × List SinkCall → Logger × List SinkCall
  grown j vs (l, calls) = let (m, more) = run_logger (should_log j) l vs in (m, calls ++ more)

  abbrev stepped : ℕ → Event → Logger × List SinkCall → Logger × List SinkCall
  stepped j v (l, calls) = let (m, more) = step (should_log j) l v in (m, calls ++ more)

  grown-cons :
      (j : ℕ) (v : Event) (vs : List Event) (r : Logger × List SinkCall)
      → grown j vs (stepped j v r) ≡ grown j (v ∷ vs) r
  unfolding run_logger
  grown-cons j v vs (l, calls) =
      let (m, more) = step (should_log j) l v in
      ap (λ cs. ((run_logger (should_log j) m vs).0, cs))
        (append_assoc calls more (run_logger (should_log j) m vs).1)

  nth-step_at :
      (i j : ℕ) (v : Event) (ls : List (Logger × List SinkCall)) (r : Logger × List SinkCall)
      → nth j ls ≡ some r
      → nth j (step_at should_log i j v ls) ≡ some (stepped (i + j) v r)
  nth-step_at i j v [] r h = cc
  nth-step_at i zero v (q ∷ ls) r h =
      ap (λ k. some (stepped k v q)) (let e : i ≡ i + 0 = omega arith in e) ∙ ap some_step h
    where
      some_step : Option (Logger × List SinkCall) → Option (Logger × List SinkCall)
      some_step none = none
      some_step (some x) = some (stepped (i + 0) v x)
  nth-step_at i (suc j) v (q ∷ ls) r h =
      nth-step_at (suc i) j v ls r h
      ∙ ap (λ k. some (stepped k v r)) (let e : suc i + j ≡ i + suc j = omega arith in e)

  nth_elsewhere :
      (i j p : ℕ) (v : Event) (ls : List (Logger × List SinkCall))
      → p ≢ j
      → nth j (step_at should_log i p v ls) ≡ nth j ls
  nth_elsewhere i j p v [] h = refl
  nth_elsewhere i zero zero v (r ∷ ls) h = absurd (h refl)
  nth_elsewhere i zero (suc p) v (r ∷ ls) h = refl
  nth_elsewhere i (suc j) zero v (r ∷ ls) h = refl
  nth_elsewhere i (suc j) (suc p) v (r ∷ ls) h = nth_elsewhere (suc i) j p v ls (λ e. h (ap suc e))

  abbrev Follows : ℕ → List Action → Type 0
  Follows j actions =
      (ls : List (Logger × List SinkCall)) (r : Logger × List SinkCall)
      → nth j ls ≡ some r
      → nth j (run_crowd should_log actions ls) ≡ some (grown j (events_at j actions) r)

  Follows-cons :
      (j p : ℕ) (v : Event) (actions : List Action)
      → Follows j actions
      → (ls : List (Logger × List SinkCall)) (r : Logger × List SinkCall) → nth j ls ≡ some r
      → nth j (run_crowd should_log actions (step_at should_log 0 p v ls))
        ≡ some (grown j (if p == j then v ∷ events_at j actions else events_at j actions) r)
  Follows-cons j p v actions rest ls r h = elim (Bool-cases (p == j)) [
    | inl e ↦
        let q : p ≡ j = (==_iff p j).0 e in
        rest (step_at should_log 0 p v ls) (stepped j v r) (
          ap (λ k. nth j (step_at should_log 0 k v ls)) q
          ∙ (nth-step_at 0 j v ls r h
              ∙ ap (λ k. some (stepped k v r)) (let z : 0 + j ≡ j = omega arith in z)))
        ∙ (ap some (grown-cons j v (events_at j actions) r)
            ∙ ap (λ vs. some (grown j vs r)) (sym (if_true (p == j) _ _ e)))
    | inr e ↦
        rest (step_at should_log 0 p v ls) r (nth_elsewhere 0 j p v ls (==_neq p j e) ∙ h)
        ∙ ap (λ vs. some (grown j vs r)) (sym (if_false (p == j) _ _ e))
  ]

  nth-run_crowd : (actions : List Action) (j : ℕ) → Follows j actions
  unfolding run_crowd
  nth-run_crowd [] j ls (l, calls) h =
      h ∙ unfold run_logger in ap (λ cs. some (l, cs)) (sym (append-nil calls))
  nth-run_crowd (by_client k i es ∷ actions) j ls r h =
      Follows-cons j i (pushed es) actions (nth-run_crowd actions j) ls r h
  nth-run_crowd (by_worker i t ∷ actions) j ls r h =
      Follows-cons j i (turned t) actions (nth-run_crowd actions j) ls r h

  -- Many clients at once: their threads push to one logger after the other, and between any two
  -- pushes other clients push and workers take turns, in any order. If the actions of the client
  -- `k` are its batches, each pushed to the `n` loggers in turn, and the sink of the logger at
  -- `j` does not throw, then this logger gets the batches of the client in order and each once;
  -- and what its sink has taken, followed by what it still holds, is what it held and all that
  -- was pushed to it, as far as it passes the level of the sink.
  run_crowd-order :
      (actions : List Action) (ls : List (Logger × List SinkCall)) (n k j : ℕ)
      (ess : List (List Element)) (l : Logger)
      → nth j ls ≡ some (l, [])
      → j < n
      → keep (of_client k) actions ≡ client_actions n k ess
      → All IsQuiet (events_at j actions)
      → (r : Logger × List SinkCall) × (nth j (run_crowd should_log actions ls) ≡ some r)
        × (written r.1 ++ passed (should_log j) (in_hand r.0)
            ≡ passed (should_log j) (in_hand l ++ concat (batches (keep (at_logger j) actions))))
        × (batches (keep (of_client k) (keep (at_logger j) actions)) ≡ ess)
  run_crowd-order actions ls n k j ess l h below clients quiet = (
    run_logger (should_log j) l (events_at j actions),
    nth-run_crowd actions j ls (l, []) h,
    run_logger-order (should_log j) (events_at j actions) l quiet
        ∙ ap (λ es. passed (should_log j) (in_hand l ++ es)) (all_pushed-events_at j actions),
    ap batches (keep_comm (of_client k) (at_logger j) actions ∙ ap (keep (at_logger j)) clients)
        ∙ client-batches n k j ess below,
  )
