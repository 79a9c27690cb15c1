-- ===== src/Lib.antt =====
-- Verification library of reflector.go, the blob server of LBRY.
--
-- The program. A blob is a byte string that is named by the hex text of its SHA-384 digest. The
-- stores (store/) all serve one interface, `BlobStore`, and are stacked on each other: a cache before
-- an origin, a database beside the blobs, one call at a time for each hash. Clients upload blobs by
-- the reflector protocol (reflector/server.go) and download them by the peer protocol
-- (server/peer/server.go) or over HTTP; both servers call a stack of stores.
--
-- The parts.
--   Order     the order of Go strings, and sort.Strings; Split: strings.Split and strconv.Atoi
--   Prelude   tests on native numbers, lists, texts (lists of bytes), maps, Go's signed integers
--   Errors    Go's pairs of a value and an error as `Result`
--   Shared    shared/shared.go: traces
--   Store     store/store.go: the interface `BlobStore`, and the contract of a store: `Spec` is the
--             map that a store stands for, `Implements` what `Has`, `Get`, `Put` and `PutSD` do to it
--             and `Deletes` what `Delete` does. In its folder: Mem (store/memory.go), Noop
--             (store/noop.go), SingleFlight (store/singleflight.go), Caching (store/caching.go),
--             Ittt (store/ittt.go), Gcache (store/gcache.go), DbBacked (store/dbbacked.go), Disk
--             (store/disk.go, over the files of Disk/Directory), Http (store/http.go), S3
--             (store/s3.go), CloudFront (store/cloudfront_ro.go and store/cloudfront_rw.go)
--   Db        db/db.go: the tables and the statements as functions on rows (Tables), retries (Exec),
--             AddBlob and the inserts (Insert), HasBlob and HasBlobs (Lookup), AddSDBlob and
--             MissingBlobsForKnownStream (Streams), Delete, Block and the counts (Manage), the
--             queries by range (Ranges)
--   LiteDb    lite_db/db.go: the local cache database, on the tables of Db
--   Http      what both ends of HTTP share, server/http/routes.go (Server), and an HttpStore before an
--             HTTP server (Contract)
--   Http3     server/http3: the handlers, the client and the store
--   Reflector reflector/server.go: BlobHash (Hash) and handleConn with all that it calls (Server);
--             reflector/client.go (Client); reflector/uploader.go: the work on a file (Uploader), and its loop and workers as
--             steps in any order (Uploader/Run); reflector/blocklist.go (Blocklist)
--   Peer      server/peer/server.go: readNextMessage (Message), handleCompositeRequest and
--             handleAvailabilityRequest (Server), handleConnection (Connection);
--             server/peer/client.go (Client), server/peer/store.go (Store), and the client before a
--             connection of the server (Conversation)
--   Streams   GetStream of server/peer/client.go and server/http3/client.go
--   Cluster   cluster/cluster.go: the interval of a node
--   Prism     prism/prism.go: AnnounceRange
--   Commands  cmd/reflector.go: diskCacheParams and doClean; the stack of stores that reflectorCmd serves
--             from (Stacks)
--   Publish   publish/publish.go, with coinChooser and baseTx (Coins), publish/mimetypes.go (Mime)
--   Wallet    wallet/network.go: request and listen of a Node, as steps in any order (Node)
--   Tests     the theorems at concrete inputs, and runs of the code
-- A method of a Go type is a function of the same name in snake case, in the module of its type;
-- what it may change is passed through as a state.
--
-- Bounds and fuel. `read_loop` takes one chunk a round and runs on more fuel than there are bytes;
-- `batch_loop` takes a hash a round at least and runs on as many rounds as there are hashes;
-- `serve_loop` reads from the connection each round and runs on as many rounds as the connection has
-- runs of bytes, the handshake's included; `connection_loop` takes a byte a round at least and runs on
-- more fuel than there are bytes. Blob sizes are Go's `int`, so they may be negative; numbers
-- are else natural numbers, since none of them gets near 2^63.
--
-- Parameters. Code of other modules is an argument of what calls it: `singleflight.Group`, the cache of
-- gcache, `json.Unmarshal`, SHA-384, `stream.MaxBlobSize`. The database server's answers (success, a
-- lock timeout, another error) and those of the file system are an input of the model, and so are the
-- runs of bytes that a connection yields and the errors of its writes. How much of a blob the writer
-- of directio has written before its `Flush` is a parameter, and so is the splitting of a range by the
-- dht library. So are the JSON of traces and how each
-- HTTP exchange fares, and the calls of the AWS library, of lbrycrd and of the btcd libraries. A mutex
-- makes each call of a store one step.
--
-- Not modelled: times, logs and metrics; the walk over the files of a disk store; starting and stopping
-- the services; the wallet's connection and calls; updater and the other commands.
pub mod Prelude
pub mod Order
pub mod Split
pub mod Errors
pub mod Shared
pub mod Store
pub mod Db
pub mod LiteDb
pub mod Http
pub mod Http3
pub mod Reflector
pub mod Peer
pub mod Cluster
pub mod Prism
pub mod Commands
pub mod Tests
pub mod Streams
pub mod Publish
pub mod Wallet
