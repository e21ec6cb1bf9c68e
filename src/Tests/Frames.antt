-- ===== src/Tests/Frames.antt =====
-- The processor and a session on a short byte stream.
use scriptor.Prelude.{
  ◌≡◌, refl, none, some, List, [], ◌∷◌, ◌++◌, map, concat, replicate, pos, Bytes, codes, All, err,
}
use scriptor.Element.{find_string, find_time, check_level, find_level, find_message, from_json}
use scriptor.Socket.{new_socket, unix, failed, completed}
use scriptor.Processor.{first_frame, Processor, decode, find_byte, find_one, find_all, process}
use scriptor.Processor.Stream.{wire, AreCuts, decode_cuts, process-append, process-wire}
use scriptor.Processor.Elements.{InRange, process-InRange}
use scriptor.Session.{Session, new_session, read, run_session}
use scriptor.Session.Stream.{outcome, run_session_life}
use scriptor.Tests.Sample.{host, host-OrdersLevels}

abbrev empty : Processor
empty = record { current = [] }

abbrev split_log : Processor
split_log = record { current = codes "x{l:2," }

first_frame_run :
    (first_frame (codes "ab{c}d}") ≡ some (codes "{c}", codes "d}"))
    × (first_frame (codes "}ab{c") ≡ none)
unfolding first_frame find_byte
first_frame_run = (refl, refl)

process_run : process host split_log (codes "m:hi}{}{l") 0 ≡ (
  (
    record { time = pos 1000; level = pos 2; message = codes "[] [:] [::] hi" }
        ∷ record { time = pos 1001; level = pos 0; message = codes "[] [:] [::] " }
        ∷ [],
    record { current = codes "{l" },
  ),
  2,
)
unfolding process find_all find_one decode first_frame find_byte from_json find_time find_level
    find_message find_string check_level
process_run = refl

process-append_example :
    let ((es, q), calls') = process host split_log (codes "m:hi}{") 0 in
    let ((fs, r), calls'') = process host q (codes "}{l") calls' in
    process host split_log (codes "m:hi}{" ++ codes "}{l") 0 ≡ ((es ++ fs, r), calls'')
process-append_example = process-append host split_log (codes "m:hi}{") (codes "}{l") 0

abbrev two_cuts : List (Bytes × Bytes)
two_cuts = (codes "x", codes "l:2,m:hi") ∷ ([], []) ∷ []

two_cuts-AreCuts : AreCuts two_cuts
two_cuts-AreCuts = (
  ((refl, tt), (refl, (refl, (refl, (refl, (refl, (refl, (refl, (refl, tt))))))))),
  ((tt, tt), tt),
)

pub no_frame : first_frame (codes "{l") ≡ none
unfolding first_frame find_byte
no_frame = refl

process-wire_example : process host empty (wire two_cuts ++ codes "{l") 0 ≡ (
  ((decode_cuts host two_cuts 0).0, record { current = codes "{l" }),
  (decode_cuts host two_cuts 0).1,
)
process-wire_example = process-wire host two_cuts (codes "{l") 0 two_cuts-AreCuts no_frame

process-InRange_example : All (InRange host) (process host split_log (codes "m:hi}{}{l") 0).0.0
process-InRange_example = process-InRange host host-OrdersLevels split_log (codes "m:hi}{}{l") 0

rejected : from_json host (codes "{bad}") 7 ≡ (err (codes "parse error"), 7)
unfolding from_json
rejected = refl

abbrev pub client : Session
client = record {
  socket = record { protocol = unix; handle = 4; pending = 1 };
  buffer = replicate 1024 0;
  processor = record { current = [] };
}

client_run : client ≡ read (new_session (new_socket unix 4) (replicate 1024 0))
unfolding read new_session
client_run = refl

pub nothing : first_frame [] ≡ none
unfolding first_frame find_byte
nothing = refl

abbrev pub pieces : List Bytes
pieces = codes "{l:2,m" ∷ codes ":hi}{" ∷ codes "}{l" ∷ []

run_session_life_example :
    let r =
      run_session host client (map completed pieces ++ (failed ∷ completed (codes "}") ∷ [])) 0 in
    (outcome host r ≡ process host empty (concat pieces) 0) × (r.0.1.socket.pending ≡ 0)
run_session_life_example =
    run_session_life host pieces client (completed (codes "}") ∷ []) 0 refl nothing
