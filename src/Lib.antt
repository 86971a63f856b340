-- ===== src/Lib.antt =====
-- A verification library for goesl, a client of FreeSWITCH's event socket.
--
-- A Connection (connection.go) dials a server, answers its request for the password, and then does two
-- things at once: HandleEvents reads one event after another and hands each to a channel or a handler,
-- while callers send commands and wait on a channel for the reply. With automatic redial, a connection
-- that is lost is closed and dialed again, with the waits of a redial strategy. event.go, fslog.go,
-- ev_name and ev_header say what is in an event; option.go what a connection is configured with.
--
-- The files, and what of the program they model:
-- - Base, Text: lists, Go's integers, a result that may be a panic, and as much of Go's strings,
--   strconv, net/url as the program calls. Strings and slices of bytes are lists of bytes (`Bytes`).
-- - Mime: net/textproto's ReadMIMEHeader, as connection.go and event.go call it. Mime/Frame prints a
--   block of headers the way a server does.
-- - Redo: redo.go. `next_redo_wait` is NextRedoWait on the slice `redo_waited`.
-- - Options: option.go. An option is a constructor of `Opt`, and `apply_one` is the function that the
--   source keeps in it; `new_options` is newOptions.
-- - Fslog: the levels of fslog.go. EvName: ev_name/ename.go and the tables and functions of
--   ev_name/eventname_enumer.go. EvHeader: ev_header/ev_header.go.
-- - Errors: the errors that the program makes and tells apart, and connLost of connection.go.
-- - Event: event.go; `get_text_body`, `parse_text_body` and `err_or_res` are GetTextBody, parseTextBody
--   and ErrOrRes. Event/Fields has the accessors, and Event2Fslog of fslog.go.
-- - Recv: recvEvent of connection.go, on the bytes that a connection still gives and the error behind
--   them. Recv/Frames has the frames that a server prints.
-- - Command: command.go.
-- - Conn: the state of a Connection, write and Close of connection.go. Conn/Dial: dialTimes, auth, reset
--   and Dial. Conn/Send: Send, SendBytes and the commands made of them. Conn/Loop: HandleEvents, one
--   turn of its loop after the other. Conn/Loop/Closing: a turn whose read Close cuts.
--   Conn/Loop/Callback: eventCallback. Conn/Loop/Session: HandleEvents, the callback goroutines, Close
--   and the callers, a step of one of them at a time. Its children are about its runs: Pipe and Order
--   (the events), Invariant with Typing (the channels), Silence and Ending (the end of
--   HandleEvents), Deadlock, Serving, Service and Draining (a server that prints plain events), Greeting
--   (the start, up to the loop of eventCallback), and Departing, Kept and Shutdown (what follows a Close).
-- - Log: the levels of logger.go, the internal logger of default_logger.go, and what Dial sets of it.
-- - FsCli: examples/fs_cli/main.go: SofiaStatus and the text that OnFslog prints. FsCli/Shell: send and
--   messageSend, on a list of typed lines. FsCli/Main: the options of main, how it ends, and OnConnect.
-- - EventGenerator: examples/event_generator/main.go: what its server writes and when it reads, the options
--   of its client, and OnConnect. EventGenerator/Frames has its texts as frames.
-- - Tests: runs of all this on concrete inputs.
--
-- A method is a function from the connection to an outcome: a panic, or a result and the connection
-- after it. What comes from outside is given beforehand: the outcomes of the dials, and for each socket
-- its bytes, the error that ends them, and the errors of its deadline calls and writes. What goes outside
-- is listed in order in the field `log`: dials, waits, writes, the calls of handlers. The choice that a
-- select makes between a context and two channels is an argument of the methods that wait.
--
-- Bounds: an int has 64 bits, and conversions keep its wrap-around. Decimal prints are made with fuel for
-- twenty digits, enough below 2 ^ 64. A make of more than 2 ^ 48 bytes panics, as on a platform whose
-- addresses have 48 bits. The loop of dialTimes is a recursion on the outcomes of the dials
-- that are given; where they are used up while it would go on, its result says so. ToLower and EqualFold
-- are modelled on ASCII; on other letters they are not claimed to be Go's. ReadMIMEHeader is that of Go
-- 1.19, without its limit on the number of headers.
--
-- In a session a step ends where the code waits for another goroutine: on a channel, or for the callback
-- goroutines at the end of HandleEvents. A turn of the loop is one step with the redials in it, and so is
-- Close, which comes between two turns or during the read of one (`cuts`); what the code does between two
-- waits is not taken apart. The context of a callback goroutine is done when its canceler is called, which
-- is kept for the newest of them.
--
-- Not modelled: what the methods of a connection log, and the formatting of messages; the passing of
-- time, other than the waits between dials; memory; handlers that call the connection back; what would
-- follow a Fatalf that ends the process; of the examples, the flags, files, signals and listeners, and
-- the handlers that only print. An OnConnect that sends a command is a caller of its own in a session:
-- the step of the callback goroutine that calls it does not wait for it.
pub mod Base
pub mod Command
pub mod Conn
pub mod Errors
pub mod EvHeader
pub mod EvName
pub mod Event
pub mod EventGenerator
pub mod FsCli
pub mod Fslog
pub mod Log
pub mod Mime
pub mod Options
pub mod Recv
pub mod Redo
pub mod Tests
pub mod Text
