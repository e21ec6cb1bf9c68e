-- ===== src/Tests/Running.antt =====
-- The threads of a server, through a few steps.
use mathlib.Core.List.{Sublistᴰ}
use mathlib.Core.WellFounded.{Acc}
use scriptor.Prelude.{
  put, Interleaves, All, zero, suc, ◌<◌, ℕ, ◌+◌, ◌≡◌, ◌≢◌, refl, ◌⊎◌, Bool, true, false, List, [],
  ◌∷◌, ◌++◌, ℤ, pos, codes, arith,
}
use scriptor.Element.{
  Element, find_string, find_time, check_level, find_level, find_message, from_json,
}
use scriptor.Processor.{first_frame, find_byte, find_one, find_all, decode, process}
use scriptor.Socket.{unix}
use scriptor.Acceptor.{Acceptor, complete, wrap}
use scriptor.Session.{read, new_session, fill}
use scriptor.Logger.{step, turn, push, new_logger, exited}
use scriptor.Logger.Order.{written, in_hand, passed}
use scriptor.Server.Accept.{accept, opened, open_session, on_accept}
use scriptor.Server.System.{
  Step, stops, has_pushed, rearms, gone, System, quiet, accepts, listens, has_listened, receives,
  pushes, works, Reach, here, later, polling, give_up, serving, clearing, has_served,
}
use scriptor.Logger.Calls.{IsTaken}
use scriptor.Server.System.Callbacks.{Goes, goes, stays}
use scriptor.Server.System.Settling.{Acts, server_settles}
use scriptor.Server.System.Farewell.{clean_shutdown}
use scriptor.Server.System.Over.{failed_read_ends}
use scriptor.Server.System.CatchUp.{server_catches_up}
use scriptor.Server.System.Streams.{stream}
use scriptor.Server.System.Joins.{Nears, GoesOn, joins_return}
use scriptor.Server.System.Threads.{one_callback}
use scriptor.Server.System.Lifetimes.{no_push_behind_stop}
use scriptor.Server.System.Gets.{got}
use scriptor.Server.System.Interleaved.{Arrived, logs_interleave}
use scriptor.Server.System.Order.{got_in_order}
use scriptor.Server.System.Accounts.{taken, written_in_order}
use scriptor.Tests.Sample.{host}

abbrev pub now : ℕ → ℕ → ℤ
now k calls = pos (1000 + calls)

abbrev pub levels : ℕ → ℤ → Bool
levels j level = true

abbrev listening : List Acceptor
listening = record { protocol = unix; pending = 1 } ∷ []

-- A client connects, the server listens again, the client sends `{}`, and the element is pushed to
-- the first of two loggers.
abbrev half_pushed : (s : System) × Reach host now levels 1 2 listening s
unfolding accept opened open_session on_accept complete wrap new_session read process find_all
    find_one decode first_frame find_byte from_json find_time find_level find_message find_string
    check_level fill
half_pushed = (
  _,
  later
      (later
        (later
          (later (later here (accepts 0 0 9 [] _ (omega arith, refl, refl) (omega arith) refl))
            (listens 0 0 (omega arith) refl (omega arith)))
          (has_listened 0 1 (omega arith) refl refl))
        (receives 0 0 (codes "{}") (omega arith, refl, refl) (omega arith) (omega arith)))
      (pushes 0 0 0 _ (omega arith) refl refl (omega arith)),
)

one_callback_example : (◌≡◌ {A = ℕ} 0 0) × ((half_pushed.0.client 0).session.socket.pending ≡ 0)
unfolding accept opened open_session on_accept complete wrap new_session read process find_all
    find_one decode first_frame find_byte from_json find_time find_level find_message find_string
    check_level fill
one_callback_example = one_callback host now levels 1 2 half_pushed.1 0 0 0 refl refl

got_in_order_example :
    (rest : List Element) × (got 0 (half_pushed.0.station 1).inbox ++ rest
      ≡ (stream host now 0 (half_pushed.0.client 0).sent).0.0)
    × ((rest ≡ []) ⊎ ((half_pushed.0.client 0).stage ≢ quiet))
got_in_order_example = got_in_order host now levels 1 2 half_pushed.1 0 1 (omega arith)

written_in_order_example :
    Sublistᴰ
      (written (half_pushed.0.station 0).calls
        ++ passed (levels 0) (in_hand (half_pushed.0.station 0).logger))
      (passed (levels 0) (taken (half_pushed.0.station 0).inbox))
written_in_order_example = written_in_order levels host now 1 2 half_pushed.1 0

no_push_behind_stop_example : (half_pushed.0.station 1).logger.done ≡ false
unfolding accept opened open_session on_accept complete wrap new_session read process find_all
    find_one decode first_frame find_byte from_json find_time find_level find_message find_string
    check_level fill
no_push_behind_stop_example =
    no_push_behind_stop levels host now 1 2 half_pushed.1 1 0 (omega arith) (λ q. cc)

server_settles_example : Acc (Acts host now levels 1 2) half_pushed.0
server_settles_example = server_settles host now levels 1 2 half_pushed.1

nothing_thrown : (j : ℕ) → j < 2 → All IsTaken (half_pushed.0.station j).calls
unfolding accept opened open_session on_accept complete wrap new_session read process find_all
    find_one decode first_frame find_byte from_json find_time find_level find_message find_string
    check_level fill step turn push new_logger
nothing_thrown zero lt = tt
nothing_thrown (suc zero) lt = tt
nothing_thrown (suc (suc j)) lt = absurd (omega (arith, lt))

clean_shutdown_example :
    (n : ℕ) × (t : System) × Goes host now levels 1 2 half_pushed.0 n t
    × (t.phase ≡ clearing 2)
    × ((x : ℕ) → x < 1 → t.thread x ≡ gone)
    × ((k : ℕ) → (t.client k).sent ≡ (half_pushed.0.client k).sent)
    × ((j : ℕ)
        → j < 2
        → ((t.station j).logger.worker ≡ exited)
          × Interleaves
              (λ k. passed (levels j) (stream host now k (half_pushed.0.client k).sent).0.0)
              (written (t.station j).calls))
unfolding accept opened open_session on_accept complete wrap new_session read process find_all
    find_one decode first_frame find_byte from_json find_time find_level find_message find_string
    check_level fill
clean_shutdown_example =
    clean_shutdown host now levels 1 2 half_pushed.1 (omega arith) refl nothing_thrown

server_catches_up_example :
    (n : ℕ) × (t : System) × Goes host now levels 1 2 half_pushed.0 n t
    × ((x : ℕ) → x < 1 → t.thread x ≡ polling)
    × (t.opened ≡ half_pushed.0.opened)
    × ((k : ℕ) → (t.client k).sent ≡ (half_pushed.0.client k).sent)
    × ((j : ℕ)
        → j < 2
        → (in_hand (t.station j).logger ≡ [])
          × Interleaves
              (λ k. passed (levels j) (stream host now k (half_pushed.0.client k).sent).0.0)
              (written (t.station j).calls))
unfolding accept opened open_session on_accept complete wrap new_session read process find_all
    find_one decode first_frame find_byte from_json find_time find_level find_message find_string
    check_level fill
server_catches_up_example =
    server_catches_up host now levels 1 2 half_pushed.1 (omega arith) refl nothing_thrown

abbrev stopped_halfway : (s : System) × Reach host now levels 1 2 listening s
unfolding accept opened open_session on_accept complete wrap new_session read process find_all
    find_one decode first_frame find_byte from_json find_time find_level find_message find_string
    check_level fill
stopped_halfway = (_, later half_pushed.1 (stops refl))

joins_return_example :
    (((x : ℕ) → x < 1 → stopped_halfway.0.thread x ≡ gone)
      ⊎ GoesOn host now levels 1 2 stopped_halfway.0)
    × ((t : System)
        → Step host now levels 1 2 stopped_halfway.0 t
        → Nears host now levels 1 2 stopped_halfway.0 t)
unfolding stopped_halfway
joins_return_example = joins_return host now levels 1 2 stopped_halfway.1 refl

-- The worker of the first logger takes the batch and logs it.
abbrev logged : (s : System) × Reach host now levels 1 2 listening s
logged = (_, later (later half_pushed.1 (works 0 false)) (works 0 false))

logs_interleave_example :
    (part : ℕ → List Element) × ((k : ℕ) → Arrived host now levels 1 2 logged.0 k (part k))
    × Interleaves
        (λ k. passed (levels 0) (part k))
        (written (logged.0.station 0).calls
          ++ passed (levels 0) (in_hand (logged.0.station 0).logger))
unfolding accept opened open_session on_accept complete wrap new_session read process find_all
    find_one decode first_frame find_byte from_json find_time find_level find_message find_string
    check_level fill step turn push new_logger
logs_interleave_example = logs_interleave host now levels 1 2 logged.1 0 (omega arith) (refl, tt)

-- The callback has ended, and the worker of the first logger has written the element.
abbrev all_written : (s : System) × Reach host now levels 1 2 listening s
unfolding accept opened open_session on_accept complete wrap new_session read process find_all
    find_one decode first_frame find_byte from_json find_time find_level find_message find_string
    check_level fill
all_written = (
  _,
  later
      (later
        (later
          (later
            (later (later logged.1 (works 0 false))
              (pushes 0 0 1 _ (omega arith) refl refl (omega arith)))
            (has_pushed 0 0 2 _ (omega arith) refl refl refl))
          (rearms 0 0 (omega arith) refl refl))
        (has_served 0 0 (omega arith) refl))
      (works 0 false),
)

-- The read of the client fails then, and the worker of the second logger takes the batch.
abbrev broken_off : System
broken_off = record all_written.0 {
  client = put all_written.0.client 0 (give_up (all_written.0.client 0));
}

abbrev behind_failure : (t : System) × Goes host now levels 1 2 broken_off 1 t
behind_failure = (_, goes (works 1 false) stays)

failed_read_ends_example :
    ((y : ℕ) → behind_failure.0.thread y ≢ serving 0)
    × ((behind_failure.0.client 0).session.socket.pending ≡ 0)
    × ((j : ℕ)
        → j < 2
        → got 0 (behind_failure.0.station j).inbox
          ≡ (stream host now 0 (all_written.0.client 0).sent).0.0)
unfolding accept opened open_session on_accept complete wrap new_session read process find_all
    find_one decode first_frame find_byte from_json find_time find_level find_message find_string
    check_level fill step turn push new_logger
failed_read_ends_example =
    failed_read_ends host now levels 1 2 all_written.1 0 0 (omega arith, refl, refl) (omega arith)
      (omega arith) behind_failure.1
