-- ===== src/Logger/Monitor/Wakeup.antt =====
-- No wakeup is lost: the worker never sleeps on work that nobody is about to tell it of.
use scriptor.Prelude.{◌≡◌, ◌≢◌, ◌⊎◌, Bool, true, false, List, [], ℤ, arith}
use scriptor.Logger.{SinkCall, Event}
use scriptor.Logger.Monitor.{
  push_notifies, stop_stores, stop_unlocks, work_tests, work_swaps, work_flushes, holding, sleeping,
  left, thrown, uncalled, storing, notifying, joining, finished, Monitor, start, Begin, push_locks,
  stop_locks, wakes, Move, inserts, notifies, unlocks, stores, stop_releases, stop_notifies, joins,
  locks, sleeps, finds_done, finds_elements, breaks, dies, swaps, skips, logs, log_throws,
  ends_silent, ends, Run, here, begun, moved,
}

-- Some thread is between the store or the insertion and its `notify_one`.
abbrev pub IsTold : Monitor → Type 0
IsTold s = (s.holder ≡ push_notifies) ⊎ ((s.holder ≡ stop_unlocks) ⊎ (s.destructor ≡ notifying))

-- The worker holds the lock where the mutex says so; what it has found of the queue and of
-- `m_done` stays true while it holds it; `m_done` is set by the destructor only; and while the
-- worker sleeps there is nothing to do, or a notification is under way.
pub record Inv (s : Monitor) : Type 0 where
  pub tested : s.holder ≡ work_tests → s.thread ≡ holding
  pub found : s.holder ≡ work_swaps → (s.thread ≡ holding) × (s.done ≡ false) × (s.elements ≢ [])
  pub told :
      s.holder ≡ work_flushes → (s.done ≡ true) × ((s.thread ≡ holding) ⊎ (s.thread ≡ thrown))
  pub holds :
      s.thread ≡ holding
      → (s.holder ≡ work_tests) ⊎ ((s.holder ≡ work_swaps) ⊎ (s.holder ≡ work_flushes))
  pub stored : (s.holder ≡ stop_stores) ⊎ (s.holder ≡ stop_unlocks) → s.destructor ≡ storing
  pub set : s.holder ≡ stop_unlocks → s.done ≡ true
  pub fresh : s.destructor ≡ uncalled → s.done ≡ false
  pub called :
      (s.destructor ≡ notifying) ⊎ ((s.destructor ≡ joining) ⊎ (s.destructor ≡ finished))
      → s.done ≡ true
  pub gone : s.thread ≡ left → s.done ≡ true
  pub storing_holds : s.destructor ≡ storing → (s.holder ≡ stop_stores) ⊎ (s.holder ≡ stop_unlocks)
  pub idle : s.thread ≡ sleeping → ((s.done ≡ false) × (s.elements ≡ [])) ⊎ IsTold s

pub start-Inv : Inv start
start-Inv = ground arith

Begin-Inv : {s t : Monitor} → Begin s t → Inv s → Inv t
Begin-Inv (push_locks es f) v = ground arith
Begin-Inv (stop_locks f d) v = ground arith
Begin-Inv (wakes w) v = ground arith

module _ (should_log : ℤ → Bool) where
  Move-Inv :
      {s t : Monitor} {vs : List Event} {cs : List SinkCall}
      → Move should_log s vs cs t
      → Inv s
      → Inv t
  Move-Inv (inserts es h) v = ground arith
  Move-Inv (notifies h) v = ground arith
  Move-Inv (unlocks h) v = ground arith
  Move-Inv (stores h) v = ground arith
  Move-Inv (stop_releases h) v = ground arith
  Move-Inv (stop_notifies d) v = ground arith
  Move-Inv (joins d l) v = ground arith
  Move-Inv (locks h w) v = ground arith
  Move-Inv (sleeps h d e) v = ground arith
  Move-Inv (finds_done h d) v = ground arith
  Move-Inv (finds_elements h d e) v = ground arith
  Move-Inv (breaks h w) v = ground arith
  Move-Inv (dies h w) v = ground arith
  Move-Inv (swaps h) v = ground arith
  Move-Inv (skips e es n w p) v = ground arith
  Move-Inv (logs e es n w p) v = ground arith
  Move-Inv (log_throws e es n w p) v = ground arith
  Move-Inv (ends_silent w) v = ground arith
  Move-Inv (ends n t w) v = ground arith

  pub Run-Inv :
      {s t : Monitor} {vs : List Event} {cs : List SinkCall}
      → Inv s
      → Run should_log s vs cs t
      → Inv t
  Run-Inv v here = v
  Run-Inv v (begun r b) = Begin-Inv b (Run-Inv v r)
  Run-Inv v (moved r m p q) = Move-Inv m (Run-Inv v r)

  -- No wakeup is lost, at the grain of locks, stores, notifications and unlocks, with any number
  -- of threads that push and with spurious wakeups: in every state that a logger reaches, if the
  -- worker sleeps then the queue is empty and the destructor has stored nothing, or a thread that
  -- has stored or inserted is about to notify.
  pub no_lost_wakeup :
      {s : Monitor} {vs : List Event} {cs : List SinkCall}
      → Run should_log start vs cs s
      → s.thread ≡ sleeping
      → ((s.done ≡ false) × (s.elements ≡ [])) ⊎ IsTold s
  no_lost_wakeup r w = (Run-Inv start-Inv r).idle w
