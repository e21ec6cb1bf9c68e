-- ===== src/Logger.antt =====
-- src/logger.h and src/logger.cpp: a queue of elements and the worker thread that writes them to a
-- sink. What the worker does between two calls on the sink is one turn; producers, the destructor
-- and the worker take turns in any order. `m_mutex` makes each push, the store to `m_done` and the
-- look at the queue one step; the queue itself is not shared while the worker writes.
pub mod Order
pub mod Flush
pub mod Turns
pub mod Progress
pub mod Faults
pub mod Join
pub mod Calls
pub mod Running
pub mod Settling
pub mod Monitor
use scriptor.Prelude.{
  ℕ, zero, suc, ◌+◌, Bool, true, false, List, [], ◌∷◌, ◌++◌, length, ℤ, is_empty, ltb,
  if◌then◌else◌, Bytes,
}
use scriptor.Element.{Element}

-- `spdlog::details::log_msg`, with an empty source location and an empty logger name.
pub record LogMsg : Type 0 where
  pub time : ℤ
  pub level : ℤ
  pub payload : Bytes

abbrev pub log_msg : Element → LogMsg
log_msg e = record { time = e.time; level = e.level; payload = e.message }

-- A call on the sink, and whether it threw.
pub data SinkCall : Type 0 where
  log : LogMsg → Bool → SinkCall
  flush : Bool → SinkCall

-- Where the worker stands: at the head of its loop, before the rest of a batch with the count of
-- what it has logged of it, behind the `break`, or in `std::terminate`.
pub data Worker : Type 0 where
  waiting : Worker
  logging : List Element → ℕ → Worker
  exited : Worker
  terminated : Worker

pub record Logger : Type 0 where
  pub done : Bool
  pub elements : List Element
  pub worker : Worker

-- `Logger::Logger`
unfoldable pub new_logger : Logger
new_logger = record { done = false; elements = []; worker = waiting }

-- Both overloads of `Logger::push`.
unfoldable pub push : Logger → List Element → Logger
push l elements = record l { elements = l.elements ++ elements }

-- `Logger::~Logger` up to the join, which waits for the worker.
unfoldable pub stop : Logger → Logger
stop l = record l { done = true }

-- `if (m_done) { m_sink->flush(); break; }`, outside of the `try`: an exception leaves the thread.
pub leave : Logger → Bool → Logger × List SinkCall
leave l throws = (record l { worker = if throws then terminated else exited }, flush throws ∷ [])

-- The wait on `m_cv`, and `std::swap(elements, m_elements)`.
pub take_batch : Logger → List Element → Logger × List SinkCall
take_batch l [] = (l, [])
take_batch l (e ∷ es) = (record l { elements = []; worker = logging (e ∷ es) 0 }, [])

-- The turns that a worker takes at most until it has left, once it is told to stop.
abbrev pub turns_left : Worker → ℕ
turns_left waiting = 1
turns_left (logging es count) = length es + 2
turns_left exited = 0
turns_left terminated = 0

-- What happens to a logger.
pub data Event : Type 0 where
  pushed : List Element → Event
  stopped : Event
  turned : Bool → Event

module _ (should_log : ℤ → Bool) where
  -- A round of the `for` loop. Whatever `log` throws is caught behind the loop.
  pub log_one : Logger → Element → List Element → ℕ → Bool → Logger × List SinkCall
  log_one l e es count throws =
      if should_log e.level
      then (
        record l { worker = if throws then waiting else logging es (count + 1) },
        log (log_msg e) throws ∷ [],
      )
      else (record l { worker = logging es count }, [])

  -- `if (count > 0) { m_sink->flush(); }`, also inside the `try`.
  pub end_batch : Logger → ℕ → Bool → Logger × List SinkCall
  end_batch l count throws =
      (record l { worker = waiting }, if ltb 0 count then flush throws ∷ [] else [])

  pub worker_turn : Worker → Logger → Bool → Logger × List SinkCall
  worker_turn waiting l throws = if l.done then leave l throws else take_batch l l.elements
  worker_turn (logging [] count) l throws = end_batch l count throws
  worker_turn (logging (e ∷ es) count) l throws = log_one l e es count throws
  worker_turn exited l throws = (l, [])
  worker_turn terminated l throws = (l, [])

  -- One turn of `Logger::worker`: the new state, and the calls on the sink. The flag says whether
  -- the sink throws, if it is called.
  unfoldable pub turn : Logger → Bool → Logger × List SinkCall
  unfolding worker_turn leave take_batch log_one end_batch
  turn l throws = worker_turn l.worker l throws

  unfoldable pub step : Logger → Event → Logger × List SinkCall
  step l (pushed elements) = (push l elements, [])
  step l stopped = (stop l, [])
  step l (turned throws) = turn l throws

  unfoldable pub run_logger : Logger → List Event → Logger × List SinkCall
  run_logger l [] = (l, [])
  run_logger l (v ∷ vs) = let (m, cs) = step l v in let (n, ds) = run_logger m vs in (n, cs ++ ds)

  -- `m_thread.join()`: turns of the worker, `fuel` of them; `throws` says in which the sink
  -- throws. A worker that has left its loop does nothing more.
  unfoldable pub join : ℕ → (ℕ → Bool) → ℕ → Logger → Logger × List SinkCall
  join zero throws i l = (l, [])
  join (suc fuel) throws i l =
      let (m, cs) = turn l (throws i) in let (n, ds) = join fuel throws (i + 1) m in (n, cs ++ ds)

  -- `Logger::~Logger`, with as many turns as the worker needs.
  unfoldable pub destroy_logger : (ℕ → Bool) → Logger → Logger × List SinkCall
  destroy_logger throws l = join (turns_left l.worker) throws 0 (stop l)
