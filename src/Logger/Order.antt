-- ===== src/Logger/Order.antt =====
-- What a logger writes, against what was pushed, while the sink does not throw.
use scriptor.Prelude.{
  ℕ, ◌≡◌, refl, sym, ap, ◌∙◌, Bool, true, false, List, [], ◌∷◌, ◌++◌, map, append-nil, append_assoc,
  ℤ, keep, keep-append, if_cases, All, arith,
}
use mathlib.Core.List.{map-append}
use scriptor.Element.{Element}
use scriptor.Logger.{
  LogMsg, log_msg, SinkCall, log, flush, Worker, waiting, logging, exited, terminated, Logger, push,
  stop, leave, take_batch, log_one, end_batch, worker_turn, turn, Event, pushed, stopped, turned,
  step, run_logger,
}

-- The messages that the sink has taken.
abbrev pub written : List SinkCall → List LogMsg
written [] = []
written (log m true ∷ cs) = written cs
written (log m false ∷ cs) = m ∷ written cs
written (flush t ∷ cs) = written cs

pub written-append : (cs ds : List SinkCall) → written (cs ++ ds) ≡ written cs ++ written ds
written-append [] ds = refl
written-append (log m true ∷ cs) ds = written-append cs ds
written-append (log m false ∷ cs) ds = ap (λ l. m ∷ l) (written-append cs ds)
written-append (flush t ∷ cs) ds = written-append cs ds

-- The rest of the batch in the worker's hands.
abbrev pub batch : Worker → List Element
batch waiting = []
batch (logging es count) = es
batch exited = []
batch terminated = []

-- What has been pushed and is not dealt with, oldest first.
abbrev pub in_hand : Logger → List Element
in_hand l = batch l.worker ++ l.elements

abbrev pub all_pushed : List Event → List Element
all_pushed [] = []
all_pushed (pushed es ∷ vs) = es ++ all_pushed vs
all_pushed (stopped ∷ vs) = all_pushed vs
all_pushed (turned t ∷ vs) = all_pushed vs

pub all_pushed-cons :
    (v : Event) (vs : List Event) → all_pushed (v ∷ []) ++ all_pushed vs ≡ all_pushed (v ∷ vs)
all_pushed-cons (pushed es) vs = ap (λ l. l ++ all_pushed vs) (append-nil es)
all_pushed-cons stopped vs = refl
all_pushed-cons (turned t) vs = refl

-- No call on the sink throws.
abbrev pub IsQuiet : Event → Type 0
IsQuiet (pushed es) = Unit
IsQuiet stopped = Unit
IsQuiet (turned throws) = throws ≡ false

module _ (should_log : ℤ → Bool) where
  -- The messages that the sink's level lets through.
  abbrev pub passed : List Element → List LogMsg
  passed es = map log_msg (keep (λ e. should_log e.level) es)

  pub passed-append : (es fs : List Element) → passed (es ++ fs) ≡ passed es ++ passed fs
  passed-append es fs =
      ap (map log_msg) (keep-append (λ e. should_log e.level) es fs)
      ∙ map-append log_msg (keep (λ e. should_log e.level) es) (keep (λ e. should_log e.level) fs)

  take_batch-in_hand :
      (l : Logger) (es : List Element)
      → l.worker ≡ waiting
      → l.elements ≡ es
      → (in_hand (take_batch l es).0 ≡ es) × ((take_batch l es).1 ≡ [])
  unfolding take_batch
  take_batch-in_hand l [] w e = (ground arith, refl)
  take_batch-in_hand l (x ∷ es) w e = (append-nil (x ∷ es), refl)

  -- What was in hand before is written, or still in hand, in order.
  abbrev pub Accounts : Logger → Logger × List SinkCall → Type 0
  Accounts l r = written r.1 ++ passed (in_hand r.0) ≡ passed (in_hand l)

  leave-Accounts : (l : Logger) → l.worker ≡ waiting → Accounts l (leave l false)
  unfolding leave
  leave-Accounts l w = ground arith

  pub take_batch-Accounts : (l : Logger) → l.worker ≡ waiting → Accounts l (take_batch l l.elements)
  take_batch-Accounts l w =
      let (same, silent) = take_batch-in_hand l l.elements w refl in
      rw (silent, same) (ground arith)

  log_one-Accounts :
      (l : Logger) (e : Element) (es : List Element) (count : ℕ)
      → l.worker ≡ logging (e ∷ es) count
      → Accounts l (log_one should_log l e es count false)
  unfolding log_one
  log_one-Accounts l e es count w = ground arith

  end_batch-Accounts :
      (l : Logger) (count : ℕ)
      → l.worker ≡ logging [] count
      → Accounts l (end_batch should_log l count false)
  unfolding end_batch
  end_batch-Accounts l count w = ground arith

  pub worker_turn-Accounts :
      (w : Worker) (l : Logger) → l.worker ≡ w → Accounts l (worker_turn should_log w l false)
  unfolding worker_turn
  worker_turn-Accounts waiting l e =
      if_cases (Accounts l) l.done (λ d. leave-Accounts l e) (λ d. take_batch-Accounts l e)
  worker_turn-Accounts (logging [] count) l e = end_batch-Accounts l count e
  worker_turn-Accounts (logging (x ∷ es) count) l e = log_one-Accounts l x es count e
  worker_turn-Accounts exited l e = refl
  worker_turn-Accounts terminated l e = refl

  turn-Accounts : (l : Logger) → Accounts l (turn should_log l false)
  unfolding turn
  turn-Accounts l = worker_turn-Accounts l.worker l refl

  step-Accounts :
      (l : Logger) (v : Event)
      → IsQuiet v
      → written (step should_log l v).1 ++ passed (in_hand (step should_log l v).0)
        ≡ passed (in_hand l ++ all_pushed (v ∷ []))
  step-Accounts l (pushed es) q = unfold step push in ap passed (simp (append_assoc, append-nil))
  step-Accounts l stopped q = unfold step stop in ap passed (sym (append-nil (in_hand l)))
  step-Accounts l (turned t) q = unfold step in rw (q, append-nil) (turn-Accounts l)

  -- However producers, the destructor and the worker interleave: while the sink does not throw,
  -- what it has taken, followed by what the worker and the queue still hold, is what was pushed,
  -- without the elements below the sink's level. Nothing is lost, made up, doubled or reordered.
  pub run_logger-order :
      (vs : List Event) (l : Logger)
      → All IsQuiet vs
      → written (run_logger should_log l vs).1 ++ passed (in_hand (run_logger should_log l vs).0)
        ≡ passed (in_hand l ++ all_pushed vs)
  unfolding run_logger
  run_logger-order [] l q = ap passed (sym (append-nil (in_hand l)))
  run_logger-order (v ∷ vs) l q =
      let (m, cs) = step should_log l v in
      let r = run_logger should_log m vs in
      ap (λ ms. ms ++ passed (in_hand r.0)) (written-append cs r.1)
      ∙ (append_assoc (written cs) (written r.1) (passed (in_hand r.0))
          ∙ (ap (λ ms. written cs ++ ms)
                (run_logger-order vs m q.1 ∙ passed-append (in_hand m) (all_pushed vs))
              ∙ (sym (append_assoc (written cs) (passed (in_hand m)) (passed (all_pushed vs)))
                  ∙ (ap (λ ms. ms ++ passed (all_pushed vs)) (step-Accounts l v q.0)
                      ∙ (sym (passed-append (in_hand l ++ all_pushed (v ∷ [])) (all_pushed vs))
                          ∙ ap passed (
                              append_assoc (in_hand l) (all_pushed (v ∷ [])) (all_pushed vs)
                              ∙ ap (λ es. in_hand l ++ es) (all_pushed-cons v vs)))))))
