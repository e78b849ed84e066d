-- ===== src/Lib.antt =====
-- The packet analyzer: a capture thread reads frames from a raw socket, copies each into a packet and
-- puts it on a bounded queue; worker threads take packets off, parse their headers and record what
-- they find in process-wide metrics; `main` repeats this for several measurement runs, takes medians
-- and compares them with a stored baseline, which decides the exit code.
--
-- Paths are from the repository's root. A C `unsigned` type is a native number with its wrap-around
-- written out, an `int` that can be negative is an integer, and a pointer that may be null is an
-- `Option`. A result `none` at the outside stands for undefined behaviour: an access outside of an
-- allocation or through a null pointer.
--
--   `Prelude`: conditions as Booleans, lists as arrays with checked reads, writes and copies
--     (`memcpy`), words and integers.
--   `Floating`: the C `double` as an interface of operations with the laws of IEEE 754 that the
--     theorems ask for; `Floating.Whole` is an instance in whole numbers for concrete runs.
--   `Buffer`: src/buffer.c. `Buffer.CircularBuffer` is `circular_buffer_t`; `write`, `read`,
--     `create`, `reset` and `get_available` are the functions `buffer_*`, with a call's outcome as a
--     status. The abstract view, in `Buffer.Window`, is the list of bytes stored.
--   `Packet`: src/packet.c and include/packet.h. `create` and `parse` are `packet_create` and
--     `packet_parse`, the latter cut at its nesting: `parse_raw`, `parse_link`, `parse_network`,
--     `parse_transport` and `extract_payload`. `Mallocs` says which allocations succeed.
--     `Packet.Print` is `packet_print`, as messages to the logger, and `packet_free`.
--   `Parser`: src/parser.c, its counters and `validate_ipv4_checksum`. The folding loop runs on fuel
--     3, which is enough for any 32-bit sum. `Parser.Log` is what the functions send to the logger.
--   `Metrics`: src/metrics.c and include/metrics.h. `Metrics.Counters` and `Metrics.Latency` have the
--     recording functions, each an atomic operation or a compare-exchange loop, whose interference is a
--     list of attempts; `Metrics.History` is any sequence of calls; `Metrics.Snapshot` has
--     `metrics_snapshot` and `metrics_percentile_ns`; `Metrics.Metadata` has `metrics_set_metadata`;
--     `Metrics.Json` is the text that `metrics_snapshot_json` writes, one `Line` for each `fprintf`,
--     and `Metrics.Report` the text of the two reports on the terminal.
--     A number is printed by a loop on fuel 19, which is enough for the 20 digits of 64 bits.
--   `ThreadPool`: src/thread_pool.c and include/thread_pool.h. `ThreadPool.Queue` has the pool and its
--     linked list in a heap, `ThreadPool.Worker` what a worker records, `ThreadPool.System` the threads
--     as interleaved steps, with the condition variable: a worker that finds the queue empty sleeps until
--     a signal, a broadcast or a wake-up without one. `ThreadPool.Creation` is a creation that may fail,
--     and `ThreadPool.Destroy` is `thread_pool_destroy`, interleaved with the threads: its section under
--     the lock, the joins, and the release, whose loop runs on the queue's size as fuel. The `int` that
--     counts packets is its 32 bits.
--   `Regression`: src/regression.c and include/regression.h. `Regression.Json` has the helpers
--     `json_extract_*` on C strings, `Regression.ReadFile` the reading of a file, `Regression.Load` is
--     `regression_load_baseline` on its text, with `strtod` a parameter, `Regression.Compare` is
--     `regression_compare`, `Regression.Compatible` is `regression_validate_metadata` and
--     `Regression.Report` the text of `regression_print_report`; `Regression.Reload` reads what
--     `Metrics.Json` has written, and `Regression.SavedRun` compares it with the same run.
--   `Logger`: src/logger.c. Each function appends to the actions on the program's streams;
--     `Logger.Hexdump` is `logger_hexdump`, whose loop runs on the number of bytes as fuel.
--   `Main`: src/main.c. `Main.Options` is the loop over the command line, `Main.Capture` the capture
--     loop of one run, `Main.Median` has the comparison functions and medians, `Main.Runs` the storage
--     of the runs, `Main.Decision` the exit code, `Main.Setup` what is acquired for the runs and
--     released on the ways out of the set-up, `Main.Lifecycle` this with the options' strings, the
--     logger and the end of `main`, `Main.Traffic` the process of the traffic generator,
--     `Main.RunFiles` the names of the files of single runs,
--     `Main.Printing` the times of the periodic reports,
--     `Main.Enqueued` the queue as the capture loop meets it, and
--     `Main.Pipeline` the capture loop over what the socket delivers.
--   `Socket`: src/socket_handler.c. `Socket.Config` has the functions that set the socket up and
--     release it, for Linux and for macOS, over what the system calls return; `Socket.Receive` is
--     `socket_receive_packet`, with the walk over the BPF buffer; `Socket.Filter` is the program that
--     `--icmp` attaches, over an interface for the kernel's machine. A call that has to read again
--     takes the next of a list of results.
--
-- The parts meet in `main`: it sets up the socket and the pool (`Main.Setup`), each round of the
-- capture loop (`Main.Capture`) receives a frame, makes a packet of it and offers it to the queue
-- (`ThreadPool.System`), a worker parses it (`Packet.parse`) and records it in the metrics, and after
-- the runs the medians are compared with the loaded baseline.
--
-- Not modelled: the usage text, the messages of `main` and of the pool to the logger, and the table
-- that `main` prints of the comparison, which change no state.
pub mod Prelude
pub mod Floating
pub mod Buffer
pub mod Packet
pub mod Parser
pub mod Metrics
pub mod Regression
pub mod ThreadPool
pub mod Main
pub mod Socket
pub mod Logger
