-- ===== src/Logger/Monitor/Rest.antt =====
-- The threads of a logger come to rest when nobody asks for more.
use scriptor.Prelude.{
  ℕ, ◌+◌, ◌*◌, ◌≤◌, ◌<◌, ◌≡◌, ◌≢◌, refl, ap, ◌⊎◌, inr, Bool, List, [], ◌∷◌, length, length-append,
  ℤ, arith,
}
use scriptor.Element.{Element}
use scriptor.Logger.{SinkCall, Event}
use scriptor.Logger.Monitor.{
  Holder, free, push_inserts, push_notifies, push_unlocks, stop_stores, stop_unlocks, work_tests,
  work_swaps, work_flushes, Thread, locking, holding, sleeping, writing, left, thrown, Destructor,
  uncalled, storing, notifying, joining, finished, Monitor, start, notify, Move, inserts, notifies,
  unlocks, stores, stop_releases, stop_notifies, joins, locks, sleeps, finds_done, finds_elements,
  breaks, dies, swaps, skips, logs, log_throws, ends_silent, ends, Run,
}
use scriptor.Logger.Monitor.Wakeup.{Inv, start-Inv, Run-Inv}
use scriptor.Logger.Monitor.Deadlock.{IsAtRest, CanMove, no_deadlock}

-- What is left to do for the thread that holds the lock, with the wakeup that it may cause.
abbrev holder_effort : Holder → ℕ
holder_effort free = 0
holder_effort (push_inserts es) = 8 * length es + 7
holder_effort push_notifies = 6
holder_effort push_unlocks = 1
holder_effort stop_stores = 2
holder_effort stop_unlocks = 1
holder_effort work_tests = 2
holder_effort work_swaps = 1
holder_effort work_flushes = 1

abbrev thread_effort : Thread → ℕ
thread_effort locking = 4
thread_effort holding = 1
thread_effort sleeping = 0
thread_effort (writing es count) = length es + 6
thread_effort left = 0
thread_effort thrown = 0

abbrev destructor_effort : Destructor → ℕ
destructor_effort uncalled = 0
destructor_effort storing = 6
destructor_effort notifying = 6
destructor_effort joining = 1
destructor_effort finished = 0

-- A bound on the steps of all threads that have begun.
abbrev pub effort : Monitor → ℕ
effort s =
    holder_effort s.holder
    + thread_effort s.thread
    + destructor_effort s.destructor
    + 8 * length s.elements

notify-effort : (x : Thread) → thread_effort (notify x) ≤ thread_effort x + 4
notify-effort locking = omega arith
notify-effort holding = omega arith
notify-effort sleeping = omega arith
notify-effort (writing es count) = omega arith
notify-effort left = omega arith
notify-effort thrown = omega arith

some_elements : (es : List Element) → es ≢ [] → 1 ≤ length es
some_elements [] n = absurd (n refl)
some_elements (e ∷ es) n = omega arith

module _ (should_log : ℤ → Bool) where
  Move-effort :
      {s t : Monitor} {vs : List Event} {cs : List SinkCall}
      → Move should_log s vs cs t
      → Inv s
      → effort t < effort s
  Move-effort {s} (inserts es h) v = omega (arith, ap holder_effort h, length-append s.elements es)
  Move-effort {s} (notifies h) v = omega (arith, ap holder_effort h, notify-effort s.thread)
  Move-effort (unlocks h) v = omega (arith, ap holder_effort h)
  Move-effort (stores h) v = omega (arith, ap holder_effort h)
  Move-effort (stop_releases h) v =
      omega (arith, ap holder_effort h, ap destructor_effort (v.stored (inr h)))
  Move-effort {s} (stop_notifies d) v =
      omega (arith, ap destructor_effort d, notify-effort s.thread)
  Move-effort (joins d l) v = omega (arith, ap destructor_effort d)
  Move-effort (locks h w) v = omega (arith, ap holder_effort h, ap thread_effort w)
  Move-effort (sleeps h d e) v = omega (arith, ap holder_effort h)
  Move-effort (finds_done h d) v = omega (arith, ap holder_effort h)
  Move-effort (finds_elements h d e) v = omega (arith, ap holder_effort h)
  Move-effort (breaks h w) v = omega (arith, ap holder_effort h, ap thread_effort w)
  Move-effort (dies h w) v = omega (arith, ap holder_effort h, ap thread_effort w)
  Move-effort {s} (swaps h) v =
      let (w, _, n) = v.found h in
      omega (arith, ap holder_effort h, ap thread_effort w, some_elements s.elements n)
  Move-effort (skips e es n w p) v = omega (arith, ap thread_effort w)
  Move-effort (logs e es n w p) v = omega (arith, ap thread_effort w)
  Move-effort (log_throws e es n w p) v = omega (arith, ap thread_effort w)
  Move-effort (ends_silent w) v = omega (arith, ap thread_effort w)
  Move-effort (ends n t w) v = omega (arith, ap thread_effort w)

  -- The threads of a logger come to rest: in every state that a logger reaches, a thread that has
  -- begun can take a step, or the sink has thrown out of the worker, or everything is done: the
  -- worker sleeps on an empty queue and no destructor has been called, or it has left and the
  -- destructor has returned. And every such step, whichever thread takes it and whatever the sink
  -- does, leaves less to do, so that only so many follow when nobody begins to push or to
  -- destroy the logger and the worker is not woken for no reason.
  pub comes_to_rest :
      {s : Monitor} {vs : List Event} {cs : List SinkCall}
      → Run should_log start vs cs s
      → ((s.thread ≡ thrown) ⊎ (IsAtRest s ⊎ CanMove should_log s))
        × ((t : Monitor) (ws : List Event) (ds : List SinkCall)
            → Move should_log s ws ds t
            → effort t < effort s)
  comes_to_rest r =
      (no_deadlock should_log r, λ t ws ds m. Move-effort m (Run-Inv should_log start-Inv r))
