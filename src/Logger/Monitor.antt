-- ===== src/Logger/Monitor.antt =====
-- src/logger.cpp, at the grain of `m_mutex` and `m_cv`: each lock, test, store, notification and
-- unlock is a step of its own. Threads that push come and go; one thread may run the destructor.
-- `std::condition_variable` may wake the worker for no reason.
pub mod Wakeup
pub mod Refines
pub mod Deadlock
pub mod Rest
use scriptor.Prelude.{
  ℕ, zero, suc, ◌+◌, ◌<◌, ◌≡◌, ◌≢◌, Bool, true, false, List, [], ◌∷◌, ◌++◌, ℤ, if◌then◌else◌,
}
use scriptor.Element.{Element}
use scriptor.Logger.{SinkCall, log, flush, log_msg, Event, pushed, stopped, turned}

-- Who holds `m_mutex`, and what it does next: a thread in `push` inserts, notifies, unlocks; the
-- destructor stores and unlocks; the worker tests the predicate, swaps the queue out, or flushes
-- in front of the `break`.
pub data Holder : Type 0 where
  free : Holder
  push_inserts : List Element → Holder
  push_notifies push_unlocks : Holder
  stop_stores stop_unlocks : Holder
  work_tests work_swaps work_flushes : Holder

-- The worker: it wants the lock, has it, is blocked in `wait`, writes the rest of a batch with the
-- count of what it has logged of it, has left the loop, or has thrown out of it.
pub data Thread : Type 0 where
  locking holding sleeping : Thread
  writing : List Element → ℕ → Thread
  left thrown : Thread

-- The destructor: not called, between lock and unlock, before `notify_one`, in `join`, behind it.
pub data Destructor : Type 0 where
  uncalled storing notifying joining finished : Destructor

pub record Monitor : Type 0 where
  pub holder : Holder
  pub done : Bool
  pub elements : List Element
  pub thread : Thread
  pub destructor : Destructor

abbrev pub start : Monitor
start = record {
  holder = free;
  done = false;
  elements = [];
  thread = locking;
  destructor = uncalled;
}

-- `notify_one`. Only the worker waits.
abbrev pub notify : Thread → Thread
notify sleeping = locking
notify locking = locking
notify holding = holding
notify (writing es count) = writing es count
notify left = left
notify thrown = thrown

-- What threads from outside begin, and the wakeups for no reason.
pub data Begin (s : Monitor) : Monitor → Type 0 where
  push_locks :
      (es : List Element) → s.holder ≡ free → Begin s (record s { holder = push_inserts es })
  stop_locks :
      s.holder ≡ free
      → s.destructor ≡ uncalled
      → Begin s (record s { holder = stop_stores; destructor = storing })
  wakes : s.thread ≡ sleeping → Begin s (record s { thread = locking })

module _ (should_log : ℤ → Bool) where
  -- What a thread does that has begun, with the event of the logger that it is, if it is one, and
  -- the calls on the sink. The choice whether the sink throws is open.
  pub data Move (s : Monitor) : List Event → List SinkCall → Monitor → Type 0 where
    inserts :
        (es : List Element)
        → s.holder ≡ push_inserts es
        → Move s
            (pushed es ∷ [])
            []
            (record s { holder = push_notifies; elements = s.elements ++ es })
    notifies :
        s.holder ≡ push_notifies
        → Move s [] [] (record s { holder = push_unlocks; thread = notify s.thread })
    unlocks : s.holder ≡ push_unlocks → Move s [] [] (record s { holder = free })
    stores :
        s.holder ≡ stop_stores
        → Move s (stopped ∷ []) [] (record s { holder = stop_unlocks; done = true })
    stop_releases :
        s.holder ≡ stop_unlocks → Move s [] [] (record s { holder = free; destructor = notifying })
    stop_notifies :
        s.destructor ≡ notifying
        → Move s [] [] (record s { destructor = joining; thread = notify s.thread })
    joins :
        s.destructor ≡ joining → s.thread ≡ left → Move s [] [] (record s { destructor = finished })
    locks :
        s.holder ≡ free
        → s.thread ≡ locking
        → Move s [] [] (record s { holder = work_tests; thread = holding })
    -- the predicate of `wait` is false
    sleeps :
        s.holder ≡ work_tests
        → s.done ≡ false
        → s.elements ≡ []
        → Move s [] [] (record s { holder = free; thread = sleeping })
    -- the predicate is true, and then `if (m_done)`
    finds_done :
        s.holder ≡ work_tests → s.done ≡ true → Move s [] [] (record s { holder = work_flushes })
    finds_elements :
        s.holder ≡ work_tests
        → s.done ≡ false
        → s.elements ≢ []
        → Move s [] [] (record s { holder = work_swaps })
    breaks :
        s.holder ≡ work_flushes
        → s.thread ≡ holding
        → Move s (turned false ∷ []) (flush false ∷ []) (record s { holder = free; thread = left })
    dies :
        s.holder ≡ work_flushes
        → s.thread ≡ holding
        → Move s (turned true ∷ []) (flush true ∷ []) (record s { thread = thrown })
    swaps :
        s.holder ≡ work_swaps
        → Move s
            (turned false ∷ [])
            []
            (record s { holder = free; elements = []; thread = writing s.elements 0 })
    skips :
        (e : Element) (es : List Element) (count : ℕ)
        → s.thread ≡ writing (e ∷ es) count
        → should_log e.level ≡ false
        → Move s (turned false ∷ []) [] (record s { thread = writing es count })
    logs :
        (e : Element) (es : List Element) (count : ℕ)
        → s.thread ≡ writing (e ∷ es) count
        → should_log e.level ≡ true
        → Move s
            (turned false ∷ [])
            (log (log_msg e) false ∷ [])
            (record s { thread = writing es (count + 1) })
    log_throws :
        (e : Element) (es : List Element) (count : ℕ)
        → s.thread ≡ writing (e ∷ es) count
        → should_log e.level ≡ true
        → Move s (turned true ∷ []) (log (log_msg e) true ∷ []) (record s { thread = locking })
    ends_silent :
        s.thread ≡ writing [] 0 → Move s (turned false ∷ []) [] (record s { thread = locking })
    ends :
        (count : ℕ) (throws : Bool)
        → s.thread ≡ writing [] (suc count)
        → Move s (turned throws ∷ []) (flush throws ∷ []) (record s { thread = locking })

  -- Any number of steps, with all events and calls in order.
  pub data Run (s : Monitor) : List Event → List SinkCall → Monitor → Type 0 where
    here : Run s [] [] s
    begun :
        {t u : Monitor} {vs : List Event} {cs : List SinkCall}
        → Run s vs cs t
        → Begin t u
        → Run s vs cs u
    moved :
        {t u : Monitor} {vs ws xs : List Event} {cs ds bs : List SinkCall}
        → Run s vs cs t
        → Move t ws ds u
        → xs ≡ vs ++ ws
        → bs ≡ cs ++ ds
        → Run s xs bs u
