-- ===== src/Logger/Calls.antt =====
-- What a logger does while no call on its sink has thrown.
use scriptor.Prelude.{
  ◌≡◌, refl, sym, subst, ap, ◌∙◌, Bool, true, false, List, [], ◌∷◌, ◌++◌, map, ℤ, All, arith,
  Bool-cases, inl, inr, if_false, if◌then◌else◌,
}
use scriptor.Logger.{
  SinkCall, log, flush, Worker, waiting, logging, exited, terminated, Logger, leave, take_batch,
  log_one, end_batch, worker_turn, turn, Event, pushed, stopped, turned, step, run_logger,
}
use scriptor.Logger.Order.{written, passed, in_hand, all_pushed, IsQuiet, run_logger-order}

-- The call has returned.
abbrev pub IsTaken : SinkCall → Type 0
IsTaken (log m throws) = throws ≡ false
IsTaken (flush throws) = throws ≡ false

All-append {ℓ κ} :
    {A : Type ℓ} (P : A → Type κ) (xs ys : List A) → All P (xs ++ ys) → All P xs × All P ys
All-append P [] ys a = (tt, a)
All-append P (x ∷ xs) ys a = let (b, c) = All-append P xs ys a.1 in ((a.0, b), c)

-- The event with a sink that does not throw.
abbrev quieten : Event → Event
quieten (pushed es) = pushed es
quieten stopped = stopped
quieten (turned throws) = turned false

quieten-IsQuiet : (vs : List Event) → All IsQuiet (map quieten vs)
quieten-IsQuiet [] = tt
quieten-IsQuiet (pushed es ∷ vs) = (tt, quieten-IsQuiet vs)
quieten-IsQuiet (stopped ∷ vs) = (tt, quieten-IsQuiet vs)
quieten-IsQuiet (turned t ∷ vs) = (refl, quieten-IsQuiet vs)

all_pushed-quieten : (vs : List Event) → all_pushed (map quieten vs) ≡ all_pushed vs
all_pushed-quieten [] = refl
all_pushed-quieten (pushed es ∷ vs) = ap (λ l. es ++ l) (all_pushed-quieten vs)
all_pushed-quieten (stopped ∷ vs) = all_pushed-quieten vs
all_pushed-quieten (turned t ∷ vs) = all_pushed-quieten vs

module _ (should_log : ℤ → Bool) where
  worker_turn_quiet :
      (w : Worker) (l : Logger) (throws : Bool)
      → All IsTaken (worker_turn should_log w l throws).1
      → worker_turn should_log w l throws ≡ worker_turn should_log w l false
  unfolding worker_turn leave log_one end_batch
  worker_turn_quiet w l false taken = refl
  worker_turn_quiet waiting l true taken = elim (Bool-cases l.done) [
    | inl d ↦
        (let q =
            subst (λ b. All IsTaken (if b then leave l true else take_batch l l.elements).1) d
              taken in
          absurd (let r : true ≡ false = q.0 in cc))
    | inr d ↦ if_false l.done _ _ d ∙ sym (if_false l.done _ _ d)
  ]
  worker_turn_quiet (logging [] count) l true taken = ground arith
  worker_turn_quiet (logging (e ∷ es) count) l true taken = ground arith
  worker_turn_quiet exited l true taken = refl
  worker_turn_quiet terminated l true taken = refl

  step-quieten :
      (l : Logger) (v : Event)
      → All IsTaken (step should_log l v).1
      → step should_log l v ≡ step should_log l (quieten v)
  unfolding step turn
  step-quieten l (pushed es) taken = refl
  step-quieten l stopped taken = refl
  step-quieten l (turned throws) taken = worker_turn_quiet l.worker l throws taken

  run_logger-quieten :
      (vs : List Event) (l : Logger)
      → All IsTaken (run_logger should_log l vs).1
      → run_logger should_log l vs ≡ run_logger should_log l (map quieten vs)
  unfolding run_logger
  run_logger-quieten [] l taken = refl
  run_logger-quieten (v ∷ vs) l taken =
      let (first, rest) = All-append IsTaken (step should_log l v).1 _ taken in
      let (m, cs) = step should_log l v in
      ap (λ (r : Logger × List SinkCall). (r.0, cs ++ r.1)) (run_logger-quieten vs m rest)
      ∙ ap
          (λ (b : Logger × List SinkCall).
            let r = run_logger should_log b.0 (map quieten vs) in (r.0, b.1 ++ r.1))
          (step-quieten l v first)

  -- Nothing is lost while the sink has not thrown, whatever it may do later.
  pub run_logger-whole :
      (vs : List Event) (l : Logger)
      → All IsTaken (run_logger should_log l vs).1
      → written (run_logger should_log l vs).1
          ++ passed should_log (in_hand (run_logger should_log l vs).0)
        ≡ passed should_log (in_hand l ++ all_pushed vs)
  run_logger-whole vs l taken =
      ap (λ (r : Logger × List SinkCall). written r.1 ++ passed should_log (in_hand r.0))
        (run_logger-quieten vs l taken)
      ∙ (run_logger-order should_log (map quieten vs) l (quieten-IsQuiet vs)
          ∙ ap (λ es. passed should_log (in_hand l ++ es)) (all_pushed-quieten vs))
