-- ===== src/Lib.antt =====
-- KVStash: a key-value block cache daemon with a binary protocol (internal/protocol), a connection layer
-- that limits what a client may have in flight (internal/transport), sessions that answer its frames
-- (internal/server), an eviction policy that picks victims per tenant (internal/eviction), a memory tier
-- whose blocks carry references, leases and pins (internal/store/dram), byte quotas per tenant and tier
-- (internal/tenant), and a spill volume of segment files with its index (internal/store).
--
-- A frame's header and body are parsed by the codecs of Protocol; its payload bytes are booked on the
-- ledger of Transport.Credit until they are granted back. A GET takes a reference and a read lease
-- on a block (Dram). Under pressure the store asks the policy for victims (Eviction), checks each one
-- against its leases, pins and references, and may write it to a segment file (Nvme).
--
-- A session (Server) turns frames into calls of the store and responses; an upload is staged in it from
-- BEGIN to COMMIT, and a GET is packed into frames that hold references until they are written.
--
-- The files:
--   Prelude, Outcome, Bytes
--     Shared: tests and lists over the native numbers; results that are a value, an error or a panic;
--     byte slices, with little-endian words, where an access out of range is a panic.
--   Protocol.Crc, Protocol.Header
--     internal/protocol/crc.go and header.go: HeaderCRC, ParseHeader (parse_header) and MarshalTo
--     (marshal_to).
--   Protocol.Ops, Protocol.Body, Protocol.Limits, Protocol.Hello, Protocol.PutBody
--     internal/protocol/ops.go and batch.go: AppendX and DecodeX of each body are append_x and decode_x,
--     NegotiateLimits is negotiate_limits. Protocol.Bodies and Protocol.Safety
--     have what holds of several of them.
--   Transport.Credit
--     internal/transport/credit.go: CreditWindow with SetWindow, Consume, Account, Grant, TakeGrant.
--   Eviction.Ghost, Eviction.Fifo
--     internal/eviction/ghost.go and s3fifo.go: the ghost ring, and one tenant's domain with Admit, Touch,
--     Remove, Victims and Usage. Ghost.Window, Ghost.Members, Ghost.Queue and Ghost.Resize see the ring as
--     a bounded queue; Fifo.Accounting, Fifo.Frequencies, Fifo.Victims and Fifo.Conservation have the
--     lemmas that Fifo.Reachable puts together over sequences of calls; Fifo.Yields has Victims as its iterations,
--     between which other calls run.
--   Dram.Allocator, Dram.Arena
--     internal/store/dram/offsetalloc.go, as the interface that the tier relies on, and arena.go: the bytes of
--     the region and the bounds check of Bytes.
--   Dram.Store
--     internal/store/dram/store.go, evict.go and demotion.go: the tier with its blocks shared by address. Reads
--     has GetRef, Get and RefForDemotion; Puts has Put as its parts; Removals has Delete, evictOne and
--     CompleteDemotion; Verbs has TouchLease, PinOp, CanStore and CanStoreNS; Passes has evictOnce with its
--     sweeps and rounds (evict_once). World has the steps of concurrent
--     calls, with a ledger of the references that they hold. Ledger, Lookups, Space, Filling and Safe keep the
--     books of references and extents; Readers and Answers say what callers can rely on.
--   Dram.Index
--     internal/store/dram/index.go: the sharded index with Get, Put, Delete, DeleteIf, WithShardLock and
--     ExistsPrefix; Refinement sees the shards as one map.
--   Dram.BlockRef, Dram.Lifecycle
--     internal/store/dram/blockref.go and lifecycle.go: Acquire and Release; leases, TTLs, Pin, Unpin and
--     canDelete.
--   Tenant.Quota
--     internal/tenant/quota.go: Charge, Refund, Seed, Transfer and the readers Usage, Limit, WouldExceed and
--     OverRatio, reloadNS.
--   Assoc, Shards
--     A Go map with number keys; Assoc.Unique has what holds while no key stands twice, and
--     Shards what a table sharded by a hash looks up and counts.
--   Server.Store, Server.Session
--     internal/server/server.go and session.go: the store and the hash that a session takes as given, the
--     session's state, consume, writeRespFlags and respondStatus.
--   Server.PutStream
--     internal/server/putstream.go: putBegin, putChunk, putCommit, putAbort, tombstoneLive, and sweepStreams
--     of session.go. Bounds, Handled, Begin, Commit, Steps and Sweep have the lemmas on the session's
--     counters; Sums, Upload and Delivery follow the bytes of an upload.
--   Server.BatchGet
--     internal/server/handlers.go: handleBatchGet, as the packing of blocks into frames.
--   Server.Handlers
--     internal/server/handlers.go and session.go: the other handlers, and HandleFrame as handle_frame.
--   Nvme.Index
--     internal/store/nvmeindex.go: get, putThen and deleteIf; Refinement sees the shards as one map.
--   Nvme.Segment
--     internal/store/nvme/segment.go: appendRecord, encodeEntries, encodeTrailer and their parsers.
-- The children named RoundTrip, Hits, Evictions, Always, Copies, Keeps, Packing, References, Queued, Answers, Frames, Replies, Refinement, Prefix, Served,
-- Parsing, Layout, Ledger, Strikes, Lawful, Refcount, Leases, Pins, Records, Entries, Trailers, Safety and
-- Quota.Limits hold proofs, and each Witnesses runs the theorems at concrete inputs.
--
-- Conventions. A byte is a number below 256, a word of k bytes a number below 256 ^ k. Addition on
-- uint64 wraps (% 2 ^ 64) where the sum can reach the bound; int is 64 bits wide. Byte counters of the
-- policy and of the pins, and times, are unbounded numbers: the first are sums of sizes of resident
-- blocks, the second nanoseconds of this era. Slices do not extend to their capacity. A method that
-- holds its mutex, and an atomic update or compare-and-swap loop, is one step; Victims, which gives its lock up on the
-- way, is modelled both as one step and, in Fifo.Yields, as its iterations. Builds are release builds:
-- a failed assertion does what the code behind it does.
--
-- In the memory tier the steps of a call are those on the index, the allocator and the counts of references. What
-- follows such a step without a lock is one with it: in take_ref the lease, the access time, the hit counter and
-- the policy's touch with the reference that was taken, in put_publish the counters, the time to live and the policy's
-- admission with the entry of the index, in put_charge the return of the extent with a charge that is refused, in
-- retire_evicted and retire_deleted the counters and the refund with the release. The copy into a new
-- extent is one with its allocation, and a last release is one with the return of the extent, since no other call has
-- either in its hands. A pass of the evictor runs with no other call beside it, and each eviction in it reads a clock
-- of its own, which is a parameter. ExistsPrefix walks an index that stays as it is, where the code locks a shard for each key.
-- An aborted connection's report frame is no response, and is not among them.
--
-- Fuel. The capacity ladder of the ghost ring runs on its target as fuel, since each round doubles a
-- positive number. The loop of Victims runs on the code's own budget of 6N + 8 visits, which
-- ends the code's loop as well. The round over namespaces above their quota runs on the bytes that are needed, since
-- a round that frees none is its last. The outer loop of a GET runs on the number of its keys, since each frame takes one.
--
-- hash/crc32 and encoding/binary are Go's standard library: the Castagnoli CRC is written out bit by bit,
-- the words byte by byte. The xxh3 hash is a parameter: a running digest whose sum is the hash of all that was
-- written to it. Not modelled: sockets, files, memory maps and other I/O; metrics, logs and
-- configuration; the copy-on-write map of policy domains and the sharding of their tables; the inside of the
-- offset allocator, a port of another project, whose laws are hypotheses; the goroutine of the evictor
-- with its ticker; the tiers above the memory tier and the Go client; the order in which a Go map is walked, the clock and
-- the shares that a pass computes in floating point, which are parameters; the code in other languages. A session sees its store through an interface.
pub mod Assoc
pub mod Bytes
pub mod Dram
pub mod Eviction
pub mod Nvme
pub mod Outcome
pub mod Prelude
pub mod Protocol
pub mod Server
pub mod Shards
pub mod Tenant
pub mod Transport
