-- ===== src/Lib.antt =====
-- Models of the Python tools of uart2llm (scripts/*.py): the acceptance runner, which drives the
-- gateway with a controlled fixture and judges the run, the check of a real board, the follower
-- of an agent harness, the redaction of the hardware reports, the observer of the OpenCode
-- check, the bounded capture of a serial port, and the allow list of the source export.
--
--   Prelude              numbers, lists, integers, sorting and tests that all share
--   Python               exceptions, methods that change an object, dict, float, JSON values, text, loops
--   Redaction            sanitize of scripts/hardware_check_support.py and of scripts/hardware-check.py
--   Acceptance           scripts/acceptance.py, in these parts:
--     Pattern            PATTERN, PatternBody, pattern_hash
--     Multipart          MultipartBody
--     Endpoint           Endpoint.__init__, open, close, abort; exchange is the try/finally around a request;
--                        Threads: the steps of open, close and abort as they interleave
--     Transfer           Endpoint.json (json_request), upload_work, download_work
--     Stream             stream_work
--     Jobs               jobs_work
--     Measurements       Measurements.__init__, record; Sample: sample; Report: distribution, report
--     Runner             main: prepare (the checks before the run), worker_round and run (the rounds of the
--                        workers), passed; Works: what the workers do and what record gets of it
--     Samples            the concrete gateway, digest and arithmetic of the tests
--   HardwareCheck        scripts/hardware-check.py, in these parts:
--     Judge              what the checks read off the answers of the gateway
--     Bench              request, check, wait_ready, and the record Lab of what is outside
--     Configuration      configuration with its actions, and restore
--     Maintenance        maintenance with its actions
--     Soak               soak with load, tasks_snapshot, export_crash
--     Run                main: the tests of the options, the phases, the finally, the report
--     Quiet, Carries     which cases an action records
--     Plan               the cases of each phase as a plan; Follows, Phases, Remembers and Verdict compare
--                        main to it
--     Wait, Rounds       how wait_ready ends, and how the load of the soak ends
--   HarnessCheck         scripts/harness-check.py, in these parts:
--     Values, Tools      code, text_blocks, markers; the entries of tools
--     Follow             the state of Follow, and the frames of the assistant's message
--     Briefs, Events     what event reads off its data, and its branches
--     Records            event, consume
--     Review             what interaction is asked
--     Session            Follow with the harness behind it: interaction, receive, wait_turn, open
--     Runner             safe_error, and prompt, enqueue, command, cleanup of Runner
--     Frames, Progress   which actions count frames, and how the waits end
--     Approvals          the approved plans; Questions, Reviewers: the requests that record a review
--   OpenCode/Observer    the admission of requests in Observer of scripts/opencode-check.py (do_POST, reject)
--   OpenCode/Forward     the reading of the forwarded response in do_POST; ErrorBody: what is kept of an error
--   OpenCode/Reports     error_metadata, request_diagnostics, summarize_events
--   HarnessConfigure     main of scripts/harness-configure.py
--   CaptureSerial        the loop of main in scripts/capture-serial.py
--   SourceManifest       source_files of scripts/source_manifest.py
--
-- A worker of Runner opens a connection of Endpoint, sends what Multipart or Stream has built,
-- reads the reply with the loops of Stream and Transfer, and hands the outcome to Measurements;
-- at the end Report makes the report that passed judges. Exceptions are values of Python.Error;
-- a method that changes its object and may raise is a function of Python.Exec, so that what was
-- changed before an exception stays changed.
--
-- In HardwareCheck every action works on a Bench, the state of the outside with the parts of the
-- report that the script reads or changes: main runs the phases, each through check, and hands
-- what they left to the finally part and the report. In HarnessCheck an event works on a Follow
-- alone, and a Session is a Follow with the state of the harness, on which receive hands a frame
-- to consume or to interaction.
--
-- The gateway, the JSON text format, UTF-8 decoding and SHA-256 are parameters (World, Lab,
-- Remote, TextTools, Reader, Sha); of SHA-256 only the documented rule on repeated updates is
-- assumed, by the record Streams. A response body is the bytes that arrive and the exception, if
-- any, that a read past them raises. A float is its 64-bit pattern, and its arithmetic is a
-- parameter without laws, except where a theorem names the order that it needs. The lower case
-- of characters outside ASCII is a parameter of Redaction.
--
-- Loops that the source leaves open run on fuel, each with a theorem that the fuel is enough:
-- pattern_hash and the download get one or two rounds more than the file has bytes, the stream
-- 65538 rounds, as every round reads at least one byte of at most 65536. wait_ready gets 71
-- rounds, as each that goes on pauses for half a second of its 35; the load of the soak gets a
-- round for each second and one more; a wait of the follower gets 100002 rounds and one for each
-- millisecond up to the deadline, as a receive counts one of 100000 frames or waits. Time is in
-- milliseconds. Of a clock a theorem assumes no more than that it does not turn back and that a
-- pause takes its time (Clock, Steady). Other loops are structural.
--
-- The threads of the runner are a list of rounds, one worker's loop body each, in any order. A
-- round is one step of that list, which stands at the place where the round records its work in
-- the shared Measurements, under their lock; what it reads off the clock and the stop flag is in
-- its Tick. A worker's connection is open from its open to its close, and other threads act
-- meanwhile: Endpoint/Threads has each change of the set of connections as a step of its own,
-- for the workers and for abort, which closes the connections that it found without the lock. A
-- message that interpolates a number is modelled by its fixed text. The index of the 95th
-- percentile is computed in whole numbers, which gives the same index for the 1024 samples at
-- most that a deque holds.
--
-- `except Exception` lets an interrupt and an exit pass (is_exception of Python.Error): in main
-- of scripts/hardware-check.py these go on after the finally part, which writes the report all
-- the same. The length of a frame of the follower is that of the received text, in characters.
--
-- The observer's handler reads and changes its state under a lock, so that one request's
-- admission is one step, and so is the end of a forwarded request; the clock is read once in a
-- step. What os.walk finds is a tree of folders, and a path is the list of its parts.
--
-- Not modelled: the headers of the observer's response, the start of the daemon and of the
-- harness, Runner.create and inspect_children, the scenarios of scripts/harness-check.py,
-- sockets, TLS, argument parsing, the check of the URL, the threads' start and join, the
-- telemetry thread's loop around sample, and the file that the report is written to, the
-- shutdown of a socket in abort; the programs outside scripts/ and the scripts not listed above.
pub mod Prelude
pub mod Python
pub mod Acceptance
pub mod HardwareCheck
pub mod OpenCode
pub mod CaptureSerial
pub mod Redaction
pub mod SourceManifest
pub mod HarnessCheck
pub mod HarnessConfigure
