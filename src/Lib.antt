-- ===== src/Lib.antt =====
-- Verification of REtcd, an etcd server for Kubernetes that keeps its state in Redis.
--
-- The program has two packages. The store (store/) turns each write into one Lua script, which
-- Redis runs atomically: it takes the next revision, writes the key's blob, keeps the key index and
-- the lease sets, and appends an event to a stream; the store then hands the same event to a sink.
-- The server (server/) answers etcd's gRPC calls from the store, and its watch dispatcher is the
-- sink: it puts the events back into the order of their revisions, and fans them out to the watches.
-- A watch first reads the past from the stream, and then receives from its channel.
--
--   Bytes, Decimal   byte strings and their order; commonPrefix of server/types.go; decimal text
--                    (Lua's tostring and Go's strconv.ParseInt)
--   Redis            the Redis commands, a parameter: a record of operations with their documented
--                    laws; Redis/Memory is an instance
--   Store/Blob       enc64 and dec64 of store/write.lua and store/txn.lua, decodeKV of store/redis.go
--   Store/Lex        prefixLexRange and lexSuccessor of store/redis.go
--   Store/Event      Event, makeEvent and parseStreamEvent of store/redis.go
--   Store/Script     store/write.lua and store/txn.lua
--   Store/Client     Put, Delete, Get, Range, Txn, CurrentRevision, RawRevision and emit of
--                    store/redis.go, as functions of a world that holds the database, what becomes
--                    of the calls to come, and the events that the sink heard
--   Store/Mvcc       the specification: a multi-version store with a history of events
--   Store/Stream     ReadEvents and BlockReadEvents of store/redis.go
--   Store/Open       NewRedisStoreDB and migrateKeyIndex of store/redis.go
--   Store/Lease      store/lease.go
--   Store/Keyspace   what each command does to the keys that the program uses
--   Store/Refine     when a database stands for a state of the specification
--   Server/Match     matchesWatch of server/watch.go and the filter of range requests
--   Server/Messages  the fields of etcd's messages that are read or filled in
--   Server/Shown     what clients are to see of a version; with Watch/Told, what they are to be told of an
--                    event, the specification that the results are stated with
--   Server/Kv        server/kv.go, kv_put.go, kv_range.go, kv_delete.go, kv_txn.go, compact.go, and
--                    Status of server/maintenance.go
--   Server/Lease     server/lease.go
--   Server/Dispatcher  server/dispatcher.go; each method runs under its mutex, so it is a function
--                    of the state, and an interleaving of writers is a sequence of arrivals
--   Server/Watch     catchUp, collectEvents, eventToProto and the loop of tailWatch of
--                    server/watch.go; reads, failures and Sends are explicit sequences of turns;
--                    Watch/Stored is catchUp on the store's own reads, in as many rounds as
--                    the stream has entries and one more
--   Server/Session   Watch of server/watch.go: a client's stream, its watches and their cancel
--                    functions
--   Server/Context   cancelOnParent and cancelCtxImpl of server/watch.go
--   Server/Inflight  UnaryMetricsInterceptor of server/metrics.go; the atomic operations of concurrent
--                    requests are an explicit sequence
--   Server/Delivery  the store's writes, the sink and the dispatcher together, as NewWatchServer of
--                    server/watch.go connects them
--   Tests            runs on concrete inputs
--
-- Time. A Redis string may expire: its value holds the milliseconds that it has left, and `elapse` lets
-- time pass between two operations. Within one operation no time passes.
--
-- Bounds. Revisions, versions and lease numbers are natural numbers. The conversions to and from
-- int64 are the identity below 2^63, which the theorems assume of the counter. Lua's numbers are
-- doubles and its tostring prints fourteen digits, so the scripts are modelled for numbers below
-- 10^14. Revisions of events that are not positive are read as 0, which every reader refuses.
-- Fuel. The loop of ingest has at most as many rounds as pending entries, the binary search at most
-- as many as checkpoints, and the decimal printer at most as many as the number is large; the
-- definitions start with that much fuel, and the theorems about them have no hypothesis on it. The
-- catch-up on the store takes its number of rounds as an argument; one more than the stream's entries
-- is enough.
--
-- Not modelled: Ping and PoolStats of store/redis.go, the other metrics, the main program, and the load
-- tests. Of a call that fails, only that it failed and with which wrapping is kept, not the text.
pub mod Prelude
pub mod Bytes
pub mod Decimal
pub mod Redis
pub mod Store
pub mod Server
pub mod Tests
