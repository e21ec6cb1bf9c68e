-- ===== src/Lib.antt =====
-- scriptor is a logging server: clients connect over a unix or tcp socket and send JSON texts;
-- each text becomes an element, and every logger writes it to its sink.
--
-- The program's parts and how they interact:
--   - `main` sets the signal handlers and calls `run`, which reads the options, removes a stale
--     socket file and keeps a `Server` alive until a signal arrives.
--   - The constructor of `Server` makes acceptors and loggers from the options, asks each acceptor
--     for a connection, and starts the threads that run asio.
--   - For each connection a `Session` reads up to 1024 bytes at a time. Its `Processor` cuts the
--     bytes into frames, from a `{` to the next `}`, and `Element::from_json` reads each frame.
--   - The elements of one read are pushed to every `Logger`. A logger has a queue and a thread of
--     its own that swaps the queue out and writes the batch to a spdlog sink.
--   - The destructor of `Server` stops asio, joins the producers and then destroys the loggers.
--
-- Where the code is modelled:
--   Element.antt       src/element.h, src/element.cpp: `Element`, `from_json` with its lambda and
--                      blocks as functions, `operator==`. Element/Number.antt: `std::to_string` of
--                      integers and `std::stoi`, as the code uses them.
--   Processor.antt     src/session.h, src/session.cpp: `Processor`. `process` is `operator()`,
--                      `find_one` the lambda, `find_all` the loop around it.
--   Session.antt       src/session.h, src/session.cpp: `Session`. `read` asks for bytes, `on_read`
--                      is the callback, `run_session` a sequence of completions.
--   Socket.antt        src/socket.h, src/socket.cpp.
--   Acceptor.antt      src/acceptor.h, src/acceptor.cpp.
--   Logger.antt        src/logger.h, src/logger.cpp. `push`, `stop` (the store to `m_done`) and
--                      `turn` (the worker up to its next call on the sink) are steps of one
--                      system; a list of events is an interleaving of producers, destructor and
--                      worker. `destroy_logger` is the whole destructor, the join included.
--                      Logger/Monitor.antt has the same threads at the grain of `m_mutex` and
--                      `m_cv`: `Begin` and `Move` are the steps.
--   Options.antt       src/server.h: `Options`.
--   Server.antt        src/server.h, src/server.cpp: constructor and destructor. Server/Setup.antt:
--                      acceptors and sinks. Server/Threads.antt: the threads, `shutdown`.
--                      Server/Accept.antt: `accept` and its callback. Server/Dispatch.antt: the
--                      lambda that a session pushes with. Server/Crowd.antt: the rounds of its
--                      loop, taken by several threads in any order. Server/System.antt: the running
--                      server, with `Step` for what any of its threads may do next;
--                      its state is in Server/System/Parts.antt.
--   Run.antt           src/scriptor.h, src/scriptor.cpp, src/main.cpp: `stop`, `run`, `main`.
--                      Run/Command.antt: the options and the members that they are bound to.
--   Host.antt          what scriptor calls and does not implement: nlohmann/json, fmt, the
--                      enumerators of spdlog, floating point and the clock.
--   Prelude.antt       what the other modules share; Tests.antt: runs on concrete inputs.
-- The modules below these hold the proofs, each named for what it proves.
--
-- Server/Delivery.antt follows the bytes of a client through all of these parts.
--
-- State and effects. Functions that read the clock take the count of the readings so far and
-- return the new one. An exception is the `err` of a `Result`, with the text of `what()`. A call on
-- a sink is a value that says whether it threw; the worker's turns take a flag that decides it.
-- asio enters by the order and the kind of its callbacks, which are arguments; sockets and
-- acceptors count the operations that are under way. In the running server `sent` of a client,
-- `inbox` and `calls` of a station record what has happened and decide nothing; a session reads
-- its own row of a table of clock readings, so that the order of its readings does not depend on
-- the others. A push to one logger is one step there, as the logger holds its mutex. The
-- callback of an accept is one step up to the new session and one for each acceptor that it listens
-- on again; that of a read is one step up to the push, one for each logger, one for its call of
-- `read` and one for its return. `Phase` says where `Server::~Server` stands: it stops the context,
-- joins the threads one by one, and for each logger stores to `m_done` and joins the worker. asio
-- may report any number of bytes as read.
--
-- Fuel. `find_all` gets one round more than the buffer has bytes: a round that goes on takes at
-- least two bytes out, so the loop ends by its own test, as Processor/Drain.antt shows.
-- `decimal_rounds` gets one round more than the number, and each round divides it by ten. `join`
-- takes `turns_left` turns, after which the worker has left, as Logger/Join.antt shows.
--
-- What is not modelled, and why. src/popl.hpp is a copy of another project's library; `Shell` in
-- Run.antt takes the assignments that it makes, and the exception, as parameters. src/aio.h only
-- includes asio. The JSON parser, the formatting, the sinks, the sockets and the file system are
-- libraries: `Host`, `Site` and `Shell` name what the code relies on. Failing allocations are left
-- out; of the threads, those of the producers may fail to start, and that of a logger is assumed to
-- start. Within one push the element list is added in one step, since the mutex is held. The
-- clients, the unit tests and the build files are not part of the server.
pub mod Prelude
pub mod Host
pub mod Element
pub mod Processor
pub mod Socket
pub mod Session
pub mod Logger
pub mod Options
pub mod Acceptor
pub mod Server
pub mod Run
mod Tests
