-- ===== src/Server/Crowd.antt =====
-- src/server.cpp, the lambda that a session pushes with, run by several threads: each round of
-- its loop over `m_loggers` is a step of its own, between which other clients push and workers
-- take turns.
pub mod Order
use scriptor.Prelude.{ℕ, zero, suc, Bool, List, [], ◌∷◌, ◌++◌, ℤ}
use scriptor.Element.{Element}
use scriptor.Logger.{Logger, SinkCall, Event, pushed, turned, step}

-- A client's thread pushes elements to the logger at a place; or the worker of the logger at a
-- place takes a turn, in which the sink throws or not.
pub data Action : Type 0 where
  by_client : ℕ → ℕ → List Element → Action
  by_worker : ℕ → Bool → Action

-- The pushes of one batch, from the logger at `j` on, for `n` loggers.
abbrev pub rounds_from : ℕ → ℕ → ℕ → List Element → List Action
rounds_from zero k j elements = []
rounds_from (suc n) k j elements = by_client k j elements ∷ rounds_from n k (suc j) elements

-- All the pushes of the client `k`, batch after batch.
abbrev pub client_actions : ℕ → ℕ → List (List Element) → List Action
client_actions n k [] = []
client_actions n k (es ∷ ess) = rounds_from n k 0 es ++ client_actions n k ess

module _ (should_log : ℕ → ℤ → Bool) where
  -- One event for the logger at `j`, with the calls on its sink so far; `i` is the place of the
  -- first logger of the list.
  abbrev pub step_at : ℕ → ℕ → Event → List (Logger × List SinkCall) → List (Logger × List SinkCall)
  step_at i j v [] = []
  step_at i zero v ((l, calls) ∷ ls) =
      let (m, more) = step (should_log i) l v in (m, calls ++ more) ∷ ls
  step_at i (suc j) v (r ∷ ls) = r ∷ step_at (suc i) j v ls

  abbrev pub act : Action → List (Logger × List SinkCall) → List (Logger × List SinkCall)
  act (by_client k j elements) = step_at 0 j (pushed elements)
  act (by_worker j throws) = step_at 0 j (turned throws)

  unfoldable pub run_crowd :
      List Action → List (Logger × List SinkCall) → List (Logger × List SinkCall)
  run_crowd [] ls = ls
  run_crowd (a ∷ actions) ls = run_crowd actions (act a ls)
