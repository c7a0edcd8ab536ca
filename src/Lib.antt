-- ===== src/Lib.antt =====
-- Cloudreve, a file server with a web front end, a WebDAV service and storage on disks and clouds.
--
-- The parts. A request passes the routes and the middleware to a service or to the WebDAV handler.
-- Those work on a file system (pkg/filesystem) over the tables of models and a storage driver. An
-- upload to a cloud goes in chunks (pkg/filesystem/chunk), each of which is tried again after an
-- error as often as a backoff allows. The sessions of uploads and much else live in a cache
-- (pkg/cache). The WebDAV handler reads the If header of a request (pkg/webdav/if.go) and has a
-- lock system (pkg/webdav/lock.go) that takes the conditions of that header. A balancer
-- (pkg/balancer) chooses the node of a cluster that takes a download.
--
-- Webdav/Path: slashClean and walkToRoot of pkg/webdav/lock.go and file.go, on byte strings. The
-- walk takes as much fuel as the name has bytes, and each of its rounds drops a byte.
--
-- Webdav/Lock: the methods of memLS, Create, Refresh, Unlock and Confirm with its release function,
-- as functions from a state to an outcome and a state, where `none` is a panic. A call holds the
-- mutex for all its body, so that a run is a sequence of calls. A memLSNode lives under a number,
-- which is the pointer; byName and byToken are maps to such numbers, and byExpiry is the set of the
-- nodes that wait, from which the one that expires first is taken: how container/heap lays out its
-- array is not modelled, and byExpiryIndex is kept as whether it is at least 0. Names are cleaned
-- as the code does. The counter of tokens is a uint64 and stays below 2^64 in the runs considered.
-- The rounds of collectExpiredNodes are as many as the queue is long. State, Create and Methods
-- hold the definitions, the other modules the proofs: Members, Counts and Drops have the lemmas on
-- lists, on counts and on dropped references, Consistent the invariant, and each later one an
-- operation.
--
-- Webdav/If: lex, parseCondition, parseList, parseNoTagLists, parseTaggedLists and parseIfHeader,
-- on byte strings. The loops run on fuel, one more than the bytes that are left. strings.TrimSpace
-- is an argument.
--
-- Webdav/Timeout: parseTimeout of pkg/webdav/lock.go, where a duration is a number of nanoseconds
-- and -1 is for ever. strings.TrimSpace is an argument here too.
--
-- Webdav/Props: props, propnames, allprop and patch of pkg/webdav/prop.go with the live properties,
-- whose entries stand in one of the orders of the Go map. The formats of times, hexadecimal numbers
-- and media types are functions of an environment.
--
-- Webdav/Handler: ServeHTTP of pkg/webdav/webdav.go and the handler of every method, with
-- moveFiles, copyFiles and walkFS of file.go and the readers and writers of xml.go. Request has the
-- data and the operations of the file system, a record over a state of any type, in which Recycle
-- is an operation as well; Bodies has readPropfind and readProppatch after the decoding, Replies
-- what is written, Files the functions of file.go, Resources, Transfers and Listing the handlers,
-- and Serve the switch on the method. What is below a folder is a finite tree, which walkFS goes
-- through by recursion, so that no fuel is needed. The functions of net/url, path, strings and of
-- the decoder of XML are a record; the client is asked after each element in XML whether it takes
-- it, so that what is written is what the code has tried to write. A user has a lock system, which
-- the handlers that get it leave alone. Walks, Propstats and Listed prove what PROPFIND lists,
-- Statuses, Changes and Unchanged the answers of each method and which of their statuses leave the
-- files alone, Deletes, Puts, Copies, Accepted and Locks what their names say, the last of the
-- durations that LOCK takes and announces.
--
-- Cluster: NodePool of pkg/cluster/pool.go with the nodes of slave.go. The maps of nodes and of
-- features are association lists, a callback on the status of a node is a call, and whether
-- url.Parse takes the address of a slave is an argument, since Init panics if not. A method that
-- changes the pool frees the mutex before buildIndexMap takes it again, which are one step here.
-- Ping has the loop of StartPingLoop as rounds, from either status of the node, as Init may start
-- it a second time.
--
-- Auth: HMACAuth of pkg/auth/hmac.go, and in Auth/Requests SignRequest, CheckRequest and
-- getSignContent of auth.go. HMAC with base64, the canonical form of the name of a header and the
-- JSON that is signed are parameters; range over a header takes the names in an order of its own
-- each time; times are signed numbers of seconds.
--
-- Tasks: AsyncPool of pkg/task/pool.go and GeneralWorker of worker.go. The channel of workers is
-- the number of its values, and each submitted job has a goroutine at a phase of Submit; an event
-- is a step of one of them, and a run is a list of events, in any order. A step that would wait on
-- the channel cannot be taken. Balanced, Progress and Marked are about all runs.
--
-- Chunk: ChunkGroup of pkg/filesystem/chunk/chunk.go, without Process, and ConstantBackoff of
-- chunk/backoff/backoff.go, without the sleep. Conversions between uint64, int and int64 wrap
-- around as they do in Go.
--
-- Cache: MemoStore of pkg/cache/memo.go. Its map is a function of the key, and the clock an
-- argument, a signed number as `Unix` gives it.
--
-- Balancer: RoundRobin of pkg/balancer/roundrobin.go. The counter wraps around at 2^64, and an
-- index out of range would be a panic.
--
-- Names: the checks of pkg/filesystem/validator.go, and HookValidateFile of hooks.go, which makes
-- them one after the other. The extension of a name is an argument.
--
-- Quota: the storage that a user has used, of models/user.go. An operation gives the user in memory
-- and the statement that the database is sent; the database is a parameter.
--
-- Slices: the helpers on slices of pkg/util/common.go.
--
-- Prelude: Booleans and their tests, lists, maps as association lists, signed numbers with the
-- conversions of Go's integers, byte strings with their order and sort.Strings, and decimal
-- numbers.
--
-- Not modelled: the file system and its other hooks, which the WebDAV handlers call, the storage
-- drivers, the models, the services, the jobs of tasks, the calls between nodes, offline downloads
-- and the other parts; what the database, the network and third-party packages do; internal/xml,
-- which is a copy of the package encoding/xml.
pub mod Prelude
pub mod Webdav
pub mod Auth
pub mod Balancer
pub mod Cache
pub mod Chunk
pub mod Cluster
pub mod Names
pub mod Quota
pub mod Slices
pub mod Tasks
