-- ===== src/Logger/Turns.antt =====
-- Turns of the worker on its own, while the sink does not throw, and the states they lead to.
use scriptor.Prelude.{
  ℕ, zero, suc, ◌+◌, ◌≤◌, ◌≡◌, refl, ap, ◌∙◌, Bool, true, false, List, [], ◌∷◌, ◌++◌, ℤ, length,
  replicate, if_cases, All, arith,
}
use scriptor.Element.{Element}
use scriptor.Logger.{
  SinkCall, Worker, waiting, logging, exited, terminated, Logger, leave, take_batch, log_one,
  end_batch, worker_turn, turn, Event, turned, step, run_logger,
}
use scriptor.Logger.Order.{batch, all_pushed, IsQuiet}

-- Turns in which the sink does not throw.
abbrev pub turns : ℕ → List Event
turns n = replicate n (turned false)

pub turns-IsQuiet : (n : ℕ) → All IsQuiet (turns n)
turns-IsQuiet zero = tt
turns-IsQuiet (suc n) = (refl, turns-IsQuiet n)

pub all_pushed-turns : (n : ℕ) → all_pushed (turns n) ≡ []
all_pushed-turns zero = refl
all_pushed-turns (suc n) = all_pushed-turns n

-- The thread is in its loop.
abbrev pub IsRunning : Worker → Type 0
IsRunning waiting = Unit
IsRunning (logging es count) = Unit
IsRunning exited = ⊥
IsRunning terminated = ⊥

clash : {b : Bool} → b ≡ true → b ≡ false → ⊥
clash p q = cc

-- The turns until the worker waits.
abbrev pub rounds : Worker → ℕ
rounds waiting = 0
rounds (logging es count) = suc (length es)
rounds exited = 0
rounds terminated = 0

pub turns-add : (m n : ℕ) → turns m ++ turns n ≡ turns (m + n)
turns-add zero n = ap turns (omega arith)
turns-add (suc m) n =
    ap (λ vs. turned false ∷ vs) (turns-add m n)
    ∙ ap turns (let e : suc (m + n) ≡ suc m + n = omega arith in e)

pub rounds-le : (w : Worker) → rounds w ≤ length (batch w) + 1
rounds-le waiting = omega arith
rounds-le (logging es count) = omega arith
rounds-le exited = omega arith
rounds-le terminated = omega arith

pub turns-suc : (n : ℕ) → turns n ++ turns 1 ≡ turns (suc n)
turns-suc zero = refl
turns-suc (suc n) = ap (λ vs. turned false ∷ vs) (turns-suc n)

module _ (should_log : ℤ → Bool) where
  abbrev pub state : Logger → List Event → Logger
  state l vs = (run_logger should_log l vs).0

  pub state-append : (l : Logger) (vs ws : List Event) → state l (vs ++ ws) ≡ state (state l vs) ws
  unfolding run_logger
  state-append l [] ws = refl
  state-append l (v ∷ vs) ws = state-append (step should_log l v).0 vs ws

  turn_state :
      (l : Logger) (vs : List Event)
      → state l (turned false ∷ vs) ≡ state (worker_turn should_log l.worker l false).0 vs
  unfolding run_logger step turn
  turn_state l vs = refl

  turn_logging :
      (e : Element) (es : List Element) (count : ℕ) (l : Logger)
      → (n : ℕ) × ((worker_turn should_log (logging (e ∷ es) count) l false).0
          ≡ record l { worker = logging es n })
  unfolding worker_turn log_one
  turn_logging e es count l =
      if_cases
        (λ (r : Logger × List SinkCall). (n : ℕ) × (r.0 ≡ record l { worker = logging es n }))
        (should_log e.level) (λ t. (count + 1, refl)) (λ t. (count, refl))

  -- A batch is over after one turn for each element and one for the flush.
  pub batch_ends :
      (es : List Element) (count : ℕ) (l : Logger)
      → l.worker ≡ logging es count
      → state l (turns (suc (length es))) ≡ record l { worker = waiting }
  batch_ends [] count l w =
      turn_state l []
      ∙ (ap (λ w. state (worker_turn should_log w l false).0 []) w
          ∙ unfold run_logger worker_turn end_batch in refl)
  batch_ends (e ∷ es) count l w =
      let rest = turns (suc (length es)) in
      let (n, logged) = turn_logging e es count l in
      turn_state l rest
      ∙ (ap (λ w. state (worker_turn should_log w l false).0 rest) w
          ∙ (ap (λ m. state m rest) logged
              ∙ batch_ends es n (record l { worker = logging es n }) refl))

  pub batch_over :
      (w : Worker) (l : Logger)
      → l.worker ≡ w
      → IsRunning w
      → state l (turns (rounds w)) ≡ record l { worker = waiting }
  batch_over waiting l e r = unfold run_logger in ap (λ w. record l { worker = w }) e
  batch_over (logging es count) l e r = batch_ends es count l e
  batch_over exited l e r = absurd r
  batch_over terminated l e r = absurd r

  pub leaves :
      (l : Logger)
      → l.worker ≡ waiting
      → l.done ≡ true
      → state l (turns 1) ≡ record l { worker = exited }
  leaves l w d =
      turn_state l []
      ∙ (ap (λ w. state (worker_turn should_log w l false).0 []) w
          ∙ unfold run_logger worker_turn leave in
            if_cases (λ (r : Logger × List SinkCall). r.0 ≡ record l { worker = exited }) l.done
              (λ t. refl) (λ f. absurd (clash d f)))

  pub takes :
      (l : Logger) (e : Element) (es : List Element)
      → l.worker ≡ waiting
      → l.done ≡ false
      → l.elements ≡ e ∷ es
      → state l (turns 1) ≡ record l { worker = logging (e ∷ es) 0; elements = [] }
  takes l e es w d q =
      turn_state l []
      ∙ (ap (λ w. state (worker_turn should_log w l false).0 []) w
          ∙ unfold run_logger worker_turn take_batch in
            if_cases
              (λ (r : Logger × List SinkCall).
                r.0 ≡ record l { worker = logging (e ∷ es) 0; elements = [] })
              l.done (λ t. absurd (clash t d)) (λ f. ap (λ xs. (take_batch l xs).0) q))
