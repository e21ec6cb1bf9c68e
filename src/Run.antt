-- ===== src/Run.antt =====
-- src/scriptor.h, src/scriptor.cpp and src/main.cpp: the program from the command line to its
-- exit code. popl and the file system enter by their answers.
pub mod Command
pub mod Exit
pub mod Given
pub mod Refusal
use scriptor.Prelude.{
  ℕ, zero, suc, ◌+◌, Bool, true, false, Option, none, some, List, [], ◌∷◌, ◌++◌, ℤ, pos, eqb_int,
  leb, if◌then◌else◌, Bytes, codes, Result, ok, err, ◌>>=◌,
}
use scriptor.Host.{Host}
use scriptor.Options.{Site, Options, default_options}
use scriptor.Run.Command.{OptionSpec, Assignment, option_specs, assign_all, count_help}
use scriptor.Server.Threads.{Start}
use scriptor.Server.{Server, new_server}

-- What the handlers of `run` tell apart.
pub data Exception : Type 0 where
  invalid_option : Bytes → Exception
  standard : Bytes → Exception
  unknown : Exception

-- popl, and `std::filesystem::exists` and `remove`. `op.parse` makes assignments through the
-- pointers that the options are bound to, one after the other, and may then throw.
pub record Shell (h : Host) : Type 0 where
  pub parse : List OptionSpec → List Bytes → List (Assignment h) × Option Exception
  pub exists : Bytes → Result Bool
  pub remove : Bytes → Result Bool

-- What `op.parse` leaves: the options, how often help was asked for, and the exception.
pub record Parsed (h : Host) : Type 0 where
  pub options : Options h
  pub helps : ℕ
  pub thrown : Option Exception

-- What a run does to the outside, in order.
pub data Effect : Type 0 where
  help_printed : Effect
  error_printed : Bytes → Effect
  file_removed : Bytes → Effect
  server_started : Server → Effect
  server_destroyed : Server → Effect

-- A run has returned its exit code, or it is in the loop still.
pub data Outcome : Type 0 where
  exited : ℕ → Outcome
  running : Outcome

abbrev pub Report : Type 0
Report = Outcome × List Effect

-- `stop`, called by the signal handler: the new value of `g_signal`.
unfoldable pub stop : ℤ → ℤ → ℤ
stop signal g = signal

arrive : Option ℤ → ℤ → ℤ
arrive none g = g
arrive (some signal) g = stop signal g

-- `while (g_signal == 0)`: whether the loop ends within the looks that are given, each behind a
-- signal that may have arrived since the last.
unfoldable pub wait : ℤ → List (Option ℤ) → Bool
unfolding arrive stop
wait g [] = false
wait g (v ∷ vs) =
    let g' = arrive v g in let later = wait g' vs in if eqb_int g' (pos 0) then later else true

abbrev fatal : Bytes → Report
fatal what = (exited 1, error_printed (codes "Fatal Error: " ++ what) ∷ [])

-- The handlers.
unfoldable pub on_exception : ℕ → Exception → Report
on_exception helps (invalid_option what) =
    if leb 1 helps then (exited 0, help_printed ∷ []) else fatal what
on_exception helps (standard what) = fatal what
on_exception helps unknown = fatal (codes "Unknown")

abbrev pub after : List Effect → Report → Report
after effects (outcome, later) = (outcome, effects ++ later)

-- The server until it is destroyed at the end of its scope.
unfoldable pub serve : Result Server → List (Option ℤ) → Report
serve (err what) looks = on_exception 0 (standard what)
serve (ok s) looks =
    if wait (pos 0) looks
    then (exited 0, server_started s ∷ server_destroyed s ∷ [])
    else (running, server_started s ∷ [])

module _ (h : Host) (site : Site h) (shell : Shell h) where
  removed : Bool → Bytes → Result (List Effect)
  removed false file = ok []
  removed true file = do done ← shell.remove file; ok (if done then file_removed file ∷ [] else [])

  -- `if (std::filesystem::exists(opt.socket_file)) ...`
  unfoldable pub clear_socket : Bytes → Result (List Effect)
  unfolding removed
  clear_socket file = do found ← shell.exists file; removed found file

  pub start_server : Options h → (ℕ → Start) → List (Option ℤ) → Result (List Effect) → Report
  start_server opt starts looks (err what) = on_exception 0 (standard what)
  start_server opt starts looks (ok effects) =
      after effects (serve (new_server h site opt starts) looks)

  -- What follows `op.parse`, by the exception that it throws.
  pub behind_parse : Option Exception → Parsed h → (ℕ → Start) → List (Option ℤ) → Report
  unfolding start_server
  behind_parse (some e) p starts looks = on_exception p.helps e
  behind_parse none p starts looks =
      if leb 1 p.helps
      then (exited 0, help_printed ∷ [])
      else start_server p.options starts looks (clear_socket p.options.socket_file)

  -- The options of `run` behind `op.parse`.
  unfoldable pub parse_options : List Bytes → Parsed h
  parse_options argv =
      let (given, thrown) = shell.parse option_specs argv in
      record {
        options = assign_all h given (default_options h site);
        helps = count_help h given;
        thrown = thrown;
      }

  -- `run`, which sets `g_signal` to 0 first. Where help was not asked for, `on_exception` treats
  -- an exception from below `op.parse` as `run` does; none of these is an `invalid_option`.
  unfoldable pub run : List Bytes → (ℕ → Start) → List (Option ℤ) → Report
  unfolding behind_parse
  run argv starts looks = let p = parse_options argv in behind_parse p.thrown p starts looks

  -- `main`, with the handlers set before `run`.
  unfoldable pub main : List Bytes → (ℕ → Start) → List (Option ℤ) → Report
  main argv starts looks = run argv starts looks
