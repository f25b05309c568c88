-- ===== src/Lib.antt =====
-- Verification of consul-timeline, the service that turns what Consul reports into a timeline of
-- events.
--
-- The program. The watcher (watch/watch.go, watch/compare.go) polls Consul, compares each new state
-- of a service or a node with the last one, and emits events (timeline/event.go) and the records of
-- instances, with columns derived from metadata (timeline/derive.go). `RunWriter`
-- (storage/writer.go) batches both into a storage: the ring buffer of
-- storage/memory/storage.go, or a database. The server answers queries (storage/storage.go) from the
-- storage, and the hub of server/stream.go fans new events out to stream clients.
--
-- The files.
--   Common              numbers, lists, texts, decimal numerals, sorting and association lists
--   Timeline/Status     timeline/event.go: Status, Kind, String, ParseStatus, StatusFromConsul
--   Timeline/Event      timeline/event.go: Event, OldStatus, NewStatus, Instance
--   Timeline/Derive     timeline/derive.go: Derive.Apply, first, SplitList
--   Storage/Query       storage/storage.go: Filter, Query, Cursor, Page, Validate
--   Storage/Cursor      storage/storage.go: Cursor.String, ParseCursor
--   Storage/Match       storage/storage.go: Match, matchOne, MatchName
--   Storage/Fields      storage/fields.go
--   Storage/FieldCases, Storage/Agreement    filters, validation and field values together
--   Storage/Memory      storage/memory/storage.go: StoreEvents, UpsertInstances, Events, Since,
--                       Instance; its children Ring, Order, Paging, Walk and
--                       Instances hold the proofs
--   Storage/Writer      storage/writer.go: RunWriter, persist; proofs in Conserve and Persist
--   Storage/Backend     storage/storage.go: the interfaces Writer, Reader and Maintainer
--   Storage/Histogram   storage/memory/storage.go: Histogram; children Width, Slots, Counts
--                       and Bounds
--   Storage/Facets      storage/memory/storage.go: Facets, Suggest, Datacenters; its child Ranks says
--                       what a facet lists
--   Storage/Mysql/Where storage/mysql/query.go: escapeLike, clampLimit, bounds, filterSQL, buildWhere;
--                       in its children Marks the placeholders, Shape what the text depends on, Like
--                       the patterns, Meaning, Values and Rows what a filter selects
--   Storage/Mysql/Tags  storage/mysql/: tagsJSON, parseTags
--   Storage/Mysql/Read  storage/mysql/query.go: Events, Since
--   Storage/Mysql/Write storage/mysql/storage.go: StoreEvents, UpsertInstances; Chunks says what an
--                       error leaves, Rollup what is counted
--   Storage/Mysql/Maintain   storage/mysql/storage.go: Maintain; children Names, Latest, Planned,
--                       Create, Drop and Batches
--   Storage/Mysql/Histogram, Storage/Mysql/Lists   storage/mysql/query.go: Histogram, Facets, Suggest,
--                       Datacenters
--   Storage/Metrics     storage/metrics.go: the wrapper that counts what is stored
--   Storage/Distributed storage/distributed.go: lockLoop and the gated writes, step by step; child
--                       Inner. The wait in Stop and the reads, which are those of the inner storage,
--                       are left out
--   Consul              consul/types.go
--   Consul/Client       consul/consul.go: watchServers, rpc
--   Watch/Health        watch/compare.go: instanceStatus, nodeStatus, aggregate, serviceChecks
--   Watch/Compare       watch/compare.go: compareChecks, compareNode
--   Watch/Fingerprint   watch/compare.go: fingerprint, writeMap
--   Watch/Service       watch/compare.go: compareService, announce, indexInstances
--   Watch/Readiness     watch/watch.go: readiness
--   Watch/Loop          watch/watch.go: watchService, watchNode, nextIndex; child Reports
--   Watch/Sync          watch/watch.go: syncServices, syncNodes; child Starts
--   Watch/Lists         watch/watch.go: watchServices, watchNodes
--   Server/Api          server/api.go: parseFilter, the filters of parseQuery, the values of
--                       handleSuggest, handleEvents, handleInstance
--   Server/Request      server/api.go: parseTime, parseQuery, handleMeta, handleHistogram,
--                       handleFacets, handleSuggest; its child Valid says what they ask for
--   Server/Stream       server/stream.go: handleStream before its loop, with the replay
--   Server/Hub          server/stream.go: Hub, its clients, the read loop of handleStream
--   Tests               the theorems at concrete inputs
--
-- The correspondence. A struct is a record, a slice a list, a map an association list. A method
-- that changes its receiver takes the state and returns it. What holds a mutex is one step, and
-- what reads a shared flag and then acts is two; the calls of several goroutines are a list of steps
-- in any order. A string is the list of its bytes.
-- A time is the natural number of nanoseconds since Go's zero time. Integers of 64 bits that only
-- count (ids, lengths, healthy instances) are natural numbers without a bound; the hash of a
-- registration is computed modulo 2^64, `strconv.Atoi` refuses what does not fit in 64 bits, and
-- the durations of a histogram saturate and overflow as they do in 64 bits. The order in which Go
-- visits a map is a parameter (`RangeOrder`), of which only what the language promises is known. An
-- SQL statement is its text and its arguments. The database, its driver, its collations, the JSON encoder,
-- base64 and the layouts of times are parameters, with what their documentation promises (CollationLaws,
-- JsonLaws, DriverLaws, Deletes, Base64Laws, ReadsBack). `strings.ToLower` and the constants of
-- Consul's client library are parameters.
--
-- Bounds and fuel. The loop of `persist` runs on fuel 3, which is enough since the third attempt is
-- the last. The binary search takes the length of its range as fuel. The client that walks through
-- pages reads at most as many pages as its fuel, and needs one more than there are matching events.
-- The loops over chunks take the number of elements as fuel, and every chunk holds one at least.
--
-- Not modelled: Instance of the MySQL backend, its connection and its schema; HTTP and the calls of
-- Consul (I/O); latencies, gauges and logging (no behaviour of their own); the wiring of the program,
-- the load generator, and the user interface. Of the parts that are modelled: the JSON of the answers
-- and the bytes of the frames of a stream.
pub mod Common
pub mod Timeline
pub mod Storage
pub mod Consul
pub mod Watch
pub mod Server
pub mod Tests
