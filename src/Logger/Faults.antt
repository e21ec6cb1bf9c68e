-- ===== src/Logger/Faults.antt =====
-- Exceptions of the sink: what they cost, and where they are caught.
use mathlib.Core.List.{Sublistᴰ}
use mathlib.Core.List.Sublistᴰ
use scriptor.Prelude.{
  ◌≡◌, refl, sym, subst, ap, ◌∙◌, ◌⊎◌, ◌↔◌, Bool, true, false, List, [], ◌∷◌, ◌++◌, append_assoc,
  append-nil, ℤ, ltb, if_cases, arith,
}
use scriptor.Logger.{
  SinkCall, Worker, waiting, logging, exited, terminated, Logger, push, stop, leave, take_batch,
  log_one, end_batch, worker_turn, turn, Event, pushed, stopped, turned, step, run_logger,
}
use scriptor.Logger.Order.{
  written, written-append, batch, in_hand, all_pushed, all_pushed-cons, passed, passed-append,
  take_batch-Accounts, worker_turn-Accounts,
}

module _ {ℓ} {A : Type ℓ} where
  sublist_of_eq : {xs ys : List A} → xs ≡ ys → Sublistᴰ xs ys
  sublist_of_eq {xs} e = subst (Sublistᴰ xs) e (Sublistᴰ.refl xs)

  sublist-drop : (xs ys : List A) → Sublistᴰ ys (xs ++ ys)
  sublist-drop [] ys = Sublistᴰ.refl ys
  sublist-drop (x ∷ xs) ys = Sublistᴰ.cons (sublist-drop xs ys)

  sublist-trans :
      {ys zs : List A} → Sublistᴰ ys zs → {xs : List A} → Sublistᴰ xs ys → Sublistᴰ xs zs
  sublist-trans Sublistᴰ.slnil p = p
  sublist-trans (Sublistᴰ.cons q) p = Sublistᴰ.cons (sublist-trans q p)
  sublist-trans (Sublistᴰ.cons-cons e q) (Sublistᴰ.cons p) = Sublistᴰ.cons (sublist-trans q p)
  sublist-trans (Sublistᴰ.cons-cons e q) (Sublistᴰ.cons-cons f p) =
      Sublistᴰ.cons-cons (f ∙ e) (sublist-trans q p)

  pub sublist-append_left :
      (xs : List A) {ys zs : List A} → Sublistᴰ ys zs → Sublistᴰ (xs ++ ys) (xs ++ zs)
  sublist-append_left [] p = p
  sublist-append_left (x ∷ xs) p = Sublistᴰ.cons-cons refl (sublist-append_left xs p)

  sublist-append_right :
      {xs ys : List A} (zs : List A) → Sublistᴰ xs ys → Sublistᴰ (xs ++ zs) (ys ++ zs)
  sublist-append_right zs Sublistᴰ.slnil = Sublistᴰ.refl zs
  sublist-append_right zs (Sublistᴰ.cons p) = Sublistᴰ.cons (sublist-append_right zs p)
  sublist-append_right zs (Sublistᴰ.cons-cons e p) =
      Sublistᴰ.cons-cons e (sublist-append_right zs p)

module _ (should_log : ℤ → Bool) where
  -- What is written or still in hand was in hand before, in this order.
  abbrev Loses : Logger → Logger × List SinkCall → Type 0
  Loses l r =
      Sublistᴰ (written r.1 ++ passed should_log (in_hand r.0)) (passed should_log (in_hand l))

  in_queue : (l : Logger) → Sublistᴰ (passed should_log l.elements) (passed should_log (in_hand l))
  in_queue l =
      subst (Sublistᴰ _) (sym (passed-append should_log (batch l.worker) l.elements))
        (sublist-drop (passed should_log (batch l.worker)) (passed should_log l.elements))

  -- A call that throws costs at most the batch.
  abandoned : (w : Worker) (l : Logger) → l.worker ≡ w → Loses l (worker_turn should_log w l true)
  unfolding worker_turn leave log_one end_batch
  abandoned waiting l e =
      if_cases (Loses l) l.done (λ d. in_queue l)
        (λ d. sublist_of_eq (take_batch-Accounts should_log l e))
  abandoned (logging [] count) l e =
      if_cases (λ cs. Loses l (record l { worker = waiting }, cs)) (ltb 0 count) (λ p. in_queue l)
        (λ p. in_queue l)
  abandoned (logging (x ∷ es) count) l e =
      if_cases (Loses l) (should_log x.level) (λ p. in_queue l) (λ p. sublist_of_eq (ground arith))
  abandoned exited l e = Sublistᴰ.refl _
  abandoned terminated l e = Sublistᴰ.refl _

  step-Loses :
      (l : Logger) (v : Event)
      → Sublistᴰ
          (written (step should_log l v).1 ++ passed should_log (in_hand (step should_log l v).0))
          (passed should_log (in_hand l ++ all_pushed (v ∷ [])))
  step-Loses l (pushed es) =
      sublist_of_eq (unfold step push in ap (passed should_log) (simp (append_assoc, append-nil)))
  step-Loses l stopped =
      sublist_of_eq (unfold step stop in ap (passed should_log) (sym (append-nil (in_hand l))))
  step-Loses l (turned true) = unfold step turn in rw append-nil (abandoned l.worker l refl)
  step-Loses l (turned false) =
      unfold step turn in
      rw append-nil (sublist_of_eq (worker_turn-Accounts should_log l.worker l refl))

  -- Whatever the sink throws, and however pushes, turns and the stop interleave: what it has
  -- taken, followed by what is still in hand, is a part of what was pushed and passes its level,
  -- in the order of the pushes. Nothing is written twice, out of order or made up.
  pub run_logger-sublist :
      (vs : List Event) (l : Logger)
      → Sublistᴰ
          (written (run_logger should_log l vs).1
            ++ passed should_log (in_hand (run_logger should_log l vs).0))
          (passed should_log (in_hand l ++ all_pushed vs))
  unfolding run_logger
  run_logger-sublist [] l = sublist_of_eq (ap (passed should_log) (sym (append-nil (in_hand l))))
  run_logger-sublist (v ∷ vs) l =
      let (m, cs) = step should_log l v in
      let r = run_logger should_log m vs in
      let before = passed should_log (in_hand l ++ all_pushed (v ∷ [])) in
      let later = passed should_log (all_pushed vs) in
      let whole : before ++ later ≡ passed should_log (in_hand l ++ all_pushed (v ∷ vs)) =
        sym (passed-append should_log (in_hand l ++ all_pushed (v ∷ [])) (all_pushed vs))
        ∙ ap (passed should_log) (
            append_assoc (in_hand l) (all_pushed (v ∷ [])) (all_pushed vs)
            ∙ ap (λ es. in_hand l ++ es) (all_pushed-cons v vs)) in
      let split : written (cs ++ r.1) ++ passed should_log (in_hand r.0)
          ≡ written cs ++ (written r.1 ++ passed should_log (in_hand r.0)) =
        ap (λ ms. ms ++ passed should_log (in_hand r.0)) (written-append cs r.1)
        ∙ append_assoc (written cs) (written r.1) (passed should_log (in_hand r.0)) in
      let join : written cs ++ passed should_log (in_hand m ++ all_pushed vs)
          ≡ (written cs ++ passed should_log (in_hand m)) ++ later =
        ap (λ ms. written cs ++ ms) (passed-append should_log (in_hand m) (all_pushed vs))
        ∙ sym (append_assoc (written cs) (passed should_log (in_hand m)) later) in
      sublist-trans (sublist_of_eq whole) (
        sublist-trans (sublist-append_right later (step-Loses l v)) (
          sublist-trans (sublist_of_eq join) (
            sublist-trans (sublist-append_left (written cs) (run_logger-sublist vs m))
              (sublist_of_eq split))))

  worker_terminates :
      (w : Worker) (l : Logger) (throws : Bool)
      → l.worker ≡ w
      → ((worker_turn should_log w l throws).0.worker ≡ terminated)
        ↔ ((w ≡ terminated) ⊎ ((w ≡ waiting) × (l.done ≡ true) × (throws ≡ true)))
  unfolding worker_turn leave take_batch log_one end_batch
  worker_terminates waiting l throws e = ground arith
  worker_terminates (logging [] count) l throws e = ground arith
  worker_terminates (logging (x ∷ es) count) l throws e = ground arith
  worker_terminates exited l throws e = ground arith
  worker_terminates terminated l throws e = ground arith

  worker_exits :
      (w : Worker) (l : Logger) (throws : Bool)
      → l.worker ≡ w
      → ((worker_turn should_log w l throws).0.worker ≡ exited)
        ↔ ((w ≡ exited) ⊎ ((w ≡ waiting) × (l.done ≡ true) × (throws ≡ false)))
  unfolding worker_turn leave take_batch log_one end_batch
  worker_exits waiting l throws e = ground arith
  worker_exits (logging [] count) l throws e = ground arith
  worker_exits (logging (x ∷ es) count) l throws e = ground arith
  worker_exits exited l throws e = ground arith
  worker_exits terminated l throws e = ground arith

  -- Behind a turn the worker thread is dead of an exception exactly if it was before, or if the
  -- sink throws in the flush after the stop; and it has left its loop exactly if it had before, or
  -- if that flush returns. So every other exception is caught, and the worker goes on.
  pub turn_terminates :
      (l : Logger) (throws : Bool)
      → (((turn should_log l throws).0.worker ≡ terminated)
          ↔ ((l.worker ≡ terminated) ⊎ ((l.worker ≡ waiting) × (l.done ≡ true) × (throws ≡ true))))
        × (((turn should_log l throws).0.worker ≡ exited)
            ↔ ((l.worker ≡ exited) ⊎ ((l.worker ≡ waiting) × (l.done ≡ true) × (throws ≡ false))))
  unfolding turn
  turn_terminates l throws =
      (worker_terminates l.worker l throws refl, worker_exits l.worker l throws refl)
