-- ===== src/Lib.antt =====
-- connaxis, a non-blocking network engine in Go: a model of its event loop and data path, and proofs
-- about them.
--
-- The program. Event loops (eventloop/) poll sockets and drive connections (connection/). A
-- connection reads into a ring buffer (ringbuffer/), hands complete packets to a protocol handler
-- (websocket/, evhandler/), and queues the handler's output in a write queue
-- (connection/writequeue.go), which is flushed by writev. All of these take their byte slices from
-- one size-classed allocator (pool/). A TLS connection (connection/tlsconn.go) puts two ring buffers
-- between crypto/tls and the socket. Timers live in a time wheel (timer/timewheel.go).
--
-- The files. A byte is a number and a slice the list of its bytes; state is passed explicitly; a
-- function that can panic returns an Option whose none is the panic.
--   Prelude      shared names, tests, lists, Go's slices and `copy`, bit facts, indices reduced by a size
--   Alloc        what pool.GAlloctor promises its clients, as an interface with laws
--   Pool         pool/pool.go: BytesAlloctor (Setup, initialize, Get, Put). allocorMap is a function
--                from sizes; each sync.Pool is a list of buffers, and which of them a Get takes, or
--                whether it makes a new one, is read from a schedule. Pool.Valid fills Alloc.
--   Ring         ringbuffer/ringbuffer.go: Read, Forward, Has, Free, Truncate, Peek2; Ring.Grow has
--                the methods that allocate: Write, PeekWrite, resize, AlignBytes, Update, Reset. The
--                names are the source's in snake case; put_bytes and copy_out are the copies that
--                the source writes inline, ensure the space check, write_alloc and peek_alloc the
--                lines that give a new ring its buffer.
--   TlsBuffer    connection/tlsconn.go: tlsBufferConn.Read and Write after the handshake (tls_read,
--                tls_write), readCiphertext, and the ciphertext part of ATLSConn.FlushN
--                (flush_round); TlsBuffer.Traffic runs any history of these calls.
--   Tuning       tuning/tuning.go: the knobs, and in Tuning.Presets the profiles and ApplyName
--   WriteQueue   connection/writequeue.go: enqueue (with coalesce and compact_tail for the part that
--                puts bytes into the last buffer), peek, consume, clear; WriteQueue.Flush is
--                connection/flush.go with the writev system call as a parameter;
--                WriteQueue.History is any sequence of enqueues and flushes.
--   Websocket    websocket/: Frame is the header codec of frame.go (calcHeaderSize, parseFrame,
--                calcPktSize, writeHeader, buildFrame), Close its close and pong frames, Utf8
--                scanUTF8Prefix with the part of unicode/utf8 that it uses, Client the message state
--                and buffer of wsclient.go, Cipher the masking of cipher.go, Process processFrame in
--                the stages that the source writes one after the other. compress/flate and the
--                user's handler are parameters of Process.
--   Kernel       the read and write system calls on a plain socket, as an interface with laws
--   Loop         eventloop/loopConn.go with connection/base.go and connection/conn.go, for plain
--                connections. State has Base, the protocol's handler and LoopConn; Send has Write,
--                FlushN, updateWriteFd, drainWrite, emitOutput, processSend and closeConn; Packets
--                the loop over the packets of one read and Read the rest of processRead; Conns
--                connByFD and storeConn of loopAccept.go, postAccept, attachClient and AddClient;
--                Cmd has AddCmd and consumeCmd, Turn processCmd, onIdle and shutdown, Run Stat and
--                what Run does with an event. Touch is the part of closeConn and processRead about
--                idle connections; Touch.Order and Turn.Idle read the list of idle connections as entries
--                in order. Packets.Cause and Read.Cause name the places
--                of a run where a connection is closed, or the handler asks for it. Wakeup is
--                the flag `triggered` between goroutines that send commands and the loop that takes
--                them, as a step relation in which each channel operation, each atomic operation and
--                each trigger of the poller is a step.
--   FdTable      eventloop/fdtable.go: the table from descriptors to connections, which are numbers that
--                stand for their objects
--   TimeWheel    timer/timewheel.go: OnTimeOut, AddTimer, DelTimer, DelTimerByID, RefreshTimer; a
--                container is the list of its timers, Signed has Go's truncating division.
--
-- Bounds. Indices and sizes are natural numbers: the ring's two indices grow by each byte and do not
-- wrap below 2^63, the size classes (1 << i) * 1024 not below rank 53. Lengths and steps are not
-- negative. A frame's announced length is a 64-bit number, and its sum with the header's size wraps as
-- an int does; the count of bytes that a flush sends wraps at 2^32, the position of the time wheel as
-- an int32. Loops recur on the list or on the rounds left; the loop of consume has fuel one above the
-- number of items, the UTF-8 loops one unit for each byte, buildClose two calls. drainWrite has one unit
-- more than bytes wait, the loop over packets one more than bytes are there, processRead one more than
-- its read budget, since each of their rounds but the last takes a byte; a loop over a channel has one
-- more than the channel holds. The counts of a loop wrap as an int32 does, the counts of a connection as a uint32. Times and
-- limits of idle connections are natural numbers, and an idle limit or interval of zero is none.
--
-- The loop. A connection's object is its Base; the maps and sets of a loop are association lists and
-- lists of descriptors; the list of idle connections holds connection numbers. What a loop asks of the
-- outside is written down in its `log`, the newest first: the calls of the handler and of the poller.
-- The protocol's handler is a record of functions on a state of its own; it acts through its results and
-- does not call the connection.
--
-- Not modelled. The locks (internal.Fakelock does nothing), logging, and the byte counters of
-- connections other than those of Write and the flush. crypto/tls, the kernel (what read and write
-- return is an argument or a parameter), and the time. The capacity of the write queue's array. The
-- contents of the read buffer that the connections of a loop share, other than what the last read put
-- there: it is known by its length. The loop with TLS connections, the sockets that loopAccept.go
-- opens, the listeners, the dialer, kTLS, the HTTP adapters, the WebSocket handshake and the TLS
-- handshake are later work.
pub mod Prelude
pub mod Alloc
pub mod Pool
pub mod Ring
pub mod TlsBuffer
pub mod Tuning
pub mod WriteQueue
pub mod Websocket
pub mod TimeWheel
pub mod FdTable
pub mod Kernel
pub mod Loop
