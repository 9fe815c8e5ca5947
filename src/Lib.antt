-- ===== src/Lib.antt =====
-- go-hydra: the Hydra bidirectional file transfer protocol.
--
-- A session runs batches over one transport. A batch is three state machines in one event loop: the
-- transmitter, the receiver and the device channel. They share the link's negotiated state, write
-- frames with the writer, and are driven by the packets that the reader finds in the byte stream,
-- by timers, and by what the application's handlers answer.
--
-- Files:
--   Constants: constants.go. Crc: crc.go, with a bitwise description, bounds, the residue and error
--     detection in Crc/.
--   Encoding, Encoding/Asc, Encoding/Uue: encoding.go. Format: what is used of Go's fmt and strings.
--   Packet, Packet/Init, Packet/Device: packet.go. FileInfo: fileinfo.go. Caps: caps.go.
--     Their round trips, and the bounds on their lengths, are in child modules.
--   Config: the configuration, offers and errors of hydra.go. Filename: SanitizeFilename of
--     hydra.go and txWireName of tx.go. BlockSize: blocksize.go.
--   Writer: writer.go. Reader: reader.go and readerLoop of session.go. Reader/Bounds: the reader under
--     any bytes, Reader/Fuel: its loop. Wire/: writer and reader together, byte by byte: Frame on idle readers and frame bodies, Bin, Hex, Asc and Uue on the four formats, Cancel on
--     the cancel sequence, Corrupt on changed bytes.
--   Batch: the state of a batch (session.go) and the environment. Batch/Send: tx.go. Batch/Receive:
--     rx.go. Batch/Device: dev.go. Batch/Loop: dispatch, sync, timers, drain, pump, run and teardown
--     of session.go. Batch/Induction: what each step keeps holds of every run. Batch/Phases,
--     Batch/Offers, Batch/Arrivals, Batch/Storage: invariants of a run, each with the operations of
--     the sending and the receiving side in a file of their own. Batch/Completion: whole runs.
--     Batch/Negotiation: the windows seen from both ends. Batch/Silence: a batch that hears nothing.
--     Batch/Delivery: device datagrams that come again. Batch/Transfer: the blocks of a file from a
--     sender's log into a receiver's file, streamed or under a window, and the end of the file.
--     Batch/Storage/Placing: one DATA packet against the receive file. Batch/Frames: the frames of a
--     run against what a frame can carry, and read at the other end. Batch/Deadline: the wait of the
--     event loop against its timers. Batch/Defaults: noSend and noRecv. Batch/Logging: logPkt and
--     trace. Batch/Sample: a whole batch as data.
--   Session/Inbox: the reader's queue, its signal and the drain, of session.go. Session/State: the
--     session's fields, the steps of Run, Abort and Close, SendDevice and a step of readerLoop.
--     Session/Drain: the drain of the queues against the drain of a batch, and what it leaves queued.
--     Session/Wakeup: the
--     reader and the event loop, interleaved. Session/Teardown: any number of calls that end a
--     session, interleaved. Session/Life: runs one behind the other. Session/Device: SendDevice.
--   Base: lists, Boolean tests, integers, bit operations. Runs modules hold tests and examples.
--
-- Correspondence. A Go name in camel case is the same name in snake case here (txFinfoAck is
-- tx_finfo_ack); the packet handlers of rx.go are rx_on_init, rx_on_finfo, rx_on_data and rx_on_eof.
-- A Go function with early returns may be several definitions, the parts behind each return. Errors
-- are values: Option for a parse, Ran for a step of a batch, which keeps the state that the teardown
-- runs on. Machine words are natural numbers with the wrap written out; signed offsets are integers.
--
-- The environment. `Batch.log` lists what a batch has done to the outside, newest first, and an
-- Environment is functions of that log: the transport's answer to a write, the bytes of a source, a
-- seek, the answer of AcceptFile, a write to the receive file. Every deterministic transport, file
-- and handler is such a function. What arrives from outside, packets, device requests, the time, a
-- read error or an abort, is a list of passes of the event loop; theorems hold for every list.
--
-- The session. Run is begin_run up to its batch, the run of the batch, and conclude. Abort, Close and
-- the end of a failed Run are lists of actions (perform), each of which is atomic in Go by a
-- sync.Once, an atomic or a channel; Session/Teardown lets any number of goroutines interleave them.
-- An inbox is a list with a flag for the token in its channel; Session/Wakeup has one step for each
-- access of the reader and of the event loop to either.
--
-- Fuel. `run_loop` recurses on the list of passes, one for each turn of Go's loop, and where the list
-- ends the loop still waits. `reader_loop` has fuel for the number of packets; Reader/Fuel shows that
-- the number of bytes is enough, and the theorem on streams that the number of packets is. All else
-- is structural recursion.
--
-- Not modelled: the bounded waits of courtesyCancel and Close, whose outcome is a matter of time; how
-- a log record or a line of the trace is printed, and when one is made, on which no state depends; the
-- delays that magic bytes of a prefix ask for, which the program skips; the mutex and the buffer of
-- the writer, whose calls are atomic here; letters and spaces beyond ASCII in ToUpper, TrimSpace and
-- Sscanf.
pub mod Base
pub mod Constants
pub mod Crc
pub mod Format
pub mod Caps
pub mod FileInfo
pub mod Config
pub mod Encoding
pub mod Packet
pub mod BlockSize
pub mod Writer
pub mod Reader
pub mod Wire
pub mod Filename
pub mod Batch
pub mod Session
