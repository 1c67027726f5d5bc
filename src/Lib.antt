-- ===== src/Lib.antt =====
-- SolidSyslog, an RFC 5424 logger for embedded devices: the core of the library as a model, and
-- what makes it correct.
--
-- An application logs through Log: the message is formatted (Core/Source/SolidSyslogFormatter.c)
-- into a scratch and written to a buffer (the ring of Core/Source/SolidSyslogCircularBuffer.c). A
-- task calls Service (Core/Source/SolidSyslog.c) again and again: a pass takes the records out of
-- the buffer, reports the library's own events that are pending
-- (Core/Source/SolidSyslogPendingEvents.c), offers each record to the store and what the store does
-- not take to the sender, and sends one record from the store. A store keeps each record with a
-- header, a trailer and a flag (Core/Source/SolidSyslogRecordStore.c). A discard policy says what
-- is lost when the buffer or the store is full, and may halt the logger. A sender puts a record
-- into a stream with its length in front, or into a datagram, where a UDP sender cuts it to the
-- payload of the path (Core/Source/SolidSyslogUdpPayload.c); a third kind of sender switches
-- between others. Stored records may carry a checksum (Core/Source/SolidSyslogCrc16.c), and every
-- object lives in a static pool (Core/Source/SolidSyslogPoolAllocator.c).
--
-- Which file models which part, with functions named as the code names them, in this spelling:
-- `SolidSyslog_DealWithHeldRecord` is `deal_with_held_record`.
--   Base: what the parts share: lists measured by native numbers, Boolean tests, byte arrays with
--     `memcpy` (Base/Memory), bitwise operations (Base/Bits).
--   CircularBuffer: the ring, its reads and writes, and the discard policies. CircularBuffer/Layout
--     relates a ring to the queue of records that it holds; Read, Append, Evict, Policy and Write
--     show what each operation does to that queue, Trace and Reports what a sequence of them does.
--   Utf8: the byte classes of Core/Source/SolidSyslogUtf8.h. Utf8/Scalar is UTF-8 itself, written
--     apart from the code: scalar values, their encodings and well-formed texts. Utf8/Cut and
--     Utf8/Boundary say where a text that is cut short has to end.
--   Formatter: all the writers. Formatter/Codepoint is the validation of UTF-8 with its soundness and
--     completeness, Emit what every write does, Bounded and Faithful the bounded string, Escape
--     (with a reader of PARAM-VALUE) the escaped string, Decimal and FixedWidth the numbers, Ascii
--     the restricted string, Trim and Truncated the cut of a text that was too long.
--   UdpPayload: the limits of a payload, and the cut of a record (UdpPayload/Trim).
--   PendingEvents: the slots in which events wait to be reported.
--   PoolAllocator: the slots of a static pool.
--   Crc16: the checksum and the security policy over it
--     (Core/Source/SolidSyslogCrc16Policy.c).
--   SetUp: Initialise, the Install functions, Cleanup and Log of Core/Source/SolidSyslog.c.
--   RecordStore: the records of a block of the store, Core/Source/SolidSyslogRecordStore.c. Scan is
--     the scans over a block. Contents says what a device is that keeps its blocks, Spans and Shows
--     what stands in a buffer, Extent which bytes are a record, Marked which records are finished
--     with. Fits says where a record that was read whole ends, Remembered what is remembered of it,
--     Bounds is about what is read, Unsent about the search for the first record that was not sent,
--     Assembled, ReadBack, RoundTrip and Appended about a record that is appended and read.
--     Crc16Records shows that the CRC-16 policy is what these assume of a policy.
--   BlockSequence: the blocks of the store, a run in a circle of numbers,
--     Core/Source/SolidSyslogBlockSequence.c. Resume is how it opens. Distance is the circle and the
--     search for the next block, Sound what holds of a sequence, Advances how a block is left, Sized
--     and Room which sizes it can know, Rotates a rotation, Found and Opened the run that Open finds,
--     Trace any operations behind it.
--   BlockStore: the store over these two, Core/Source/SolidSyslogBlockStore.c. Live is what holds of a
--     store between operations and how writes keep it, Steps and Trace that reads, marks and any
--     sequence of operations do, Resumed and Started what Initialise leaves. Failures is about the
--     calls of the device that fail, Trusted, with Reads and Start, about the freeze behind them. Leaves,
--     Rounds, Ends, Sized, Settled and Loops are about its loops, Drained, Answers, Noted and RoundTrip
--     about a record that is written, read and marked.
--   Senders: the health of a sender (Core/Source/SolidSyslogSenderHealth.c) and of the opens of a
--     stream (Senders/OpenHealth, Core/Source/SolidSyslogStreamOpenHealth.c). Senders/Stream is
--     Core/Source/SolidSyslogStreamSender.c: Frame is the prefix of a message, Link how the stream is
--     used, Peer a receiver written apart from the sender, Arrival and Trace what reaches it.
--     Senders/Datagram is Core/Source/SolidSyslogUdpSender.c: Log says what a log of calls tells,
--     Connect, Keeps and Contract that it stays right, Payload and Outcome what becomes of a record.
--     Senders/Switching is Core/Source/SolidSyslogSwitchingSender.c, with the same two parts.
--   Service: Service and what it calls there. Service/Protocol is a machine that says where the
--     one record of the slot stands and which calls may be made then. Offer, Deal, Report and Whole
--     show that a pass follows it; Account and Halts draw from it that no record is lost without
--     account and that a halt ends the pass; Ends is about the loop of the drain.
--
-- State is a record that an operation takes and returns. `size_t` has 32 bits, `uint16_t` and
-- `uint32_t` wrap where the code can reach their bounds. What is behind a vtable or a callback is a
-- port: a function over a state of the world (Service, Senders, RecordStore, BlockSequence,
-- BlockStore) or an event that the operation logs (locks, reports, cleanups). Theorems of three
-- parts assume something of a port: Service/Ends has a read that takes a record out of the buffer, and
-- nothing that the drain calls adds one; BlockStore/Loops a device that gives no size above a bound
-- (HasBound); and RecordStore has a device that gives the bytes it holds
-- and appends behind them (IsDevice, AppendsBehind), and a policy that seals in place and opens
-- what it sealed (SealsInPlace, OpensItsOwn), to which BlockStore/RoundTrip adds callbacks that
-- leave the blocks alone (LeavesBlocks).
--
-- Loops: the code's loops over an array are structural recursion. The others run on fuel. The
-- ring's eviction takes one round more than there are records (CircularBuffer/Evict); BoundedString
-- a round for each byte allowed, EscapedString one more (Formatter/Bounded and Formatter/Escape
-- show that more changes nothing, Formatter/Ends says so of both); CountDigits ten, as a `uint32_t`
-- has no more digits; AcquireFirstFree a round for each slot; the scans of a block a round more
-- than it has bytes (RecordStore/Unsent); the search for the next block a round for each number
-- (BlockSequence/Distance); the resume of a store a round for each number (BlockStore/Rounds); a read
-- of the store any number, of which a round for each byte that a block may have, times the number of
-- blocks, is enough (BlockStore/Loops); the drain of the buffer any number above the number of records
-- in it (Service/Ends).
--
-- Not modelled: the message formatter with timestamps and structured data, the file device, the TLS
-- fingerprint and the scratch, each of which is a port where the modelled code calls it; memory
-- ordering between contexts, as a mutex or the config lock is only a logged call; the Null objects,
-- the error names and the static pools, which are tables and glue; and everything under Platform,
-- which calls operating systems and network stacks.
pub mod Base
pub mod CircularBuffer
pub mod Utf8
pub mod Formatter
pub mod UdpPayload
pub mod PendingEvents
pub mod PoolAllocator
pub mod Crc16
pub mod SetUp
pub mod RecordStore
pub mod BlockSequence
pub mod BlockStore
pub mod Senders
pub mod Service
