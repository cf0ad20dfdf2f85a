-- ===== src/Lib.antt =====
-- Verification of the system design implementations: a job queue over Postgres with its HTTP
-- server and Go SDK (jobq), four rate limiters (rate_limiter), a consistent hash ring
-- (consistent_hashing), the suggestions of a search box (search_autocomplete), a chat server
-- (chat_system), a URL shortener (url_shortener) and a concurrent search for files
-- (concurrent_file_searcher).
--
-- JobQ models jobq. Workers use the SDK (jobq/src/sdk/go), which talks to the handlers
-- (jobq/src/internal/httpapi), which check requests with the validator and call the store
-- (jobq/src/internal/storage), while the reaper (jobq/src/internal/leaser) returns jobs whose
-- lease is over.
--   JobQ.Job, JobQ.Table: a row of the table `jobs`, and UPDATE and SELECT on a list of rows.
--   JobQ.Store.Claim, Finish, Lease, Admin: the methods of the store (storage/job.go, stats.go) and
--     the reaper: claim_pending_job is ClaimPendingJob, mark_complete is MarkComplete, and so on.
--   JobQ.Statement: the SQL statements that the methods send, and histories of them.
--   JobQ.Config, JobQ.Backoff, JobQ.Validator: internal/config, internal/scheduler,
--     internal/validator.
--   JobQ.Http.Requests, Handlers: httpapi/types.go and the handlers.
--   JobQ.Sdk.Client, Worker: client.go and worker.go; Contract and Life put them over the server.
--   JobQ.Proofs: rows (Effects, Rows), claims (Claiming), histories of statements and of calls
--     (Histories, Validity, Calls) and lease tokens (Fencing).
-- RateLimiter.TokenBucket, LeakingBucket, FixedWindow and SlidingWindow model the main.go of the
-- directories of rate_limiter with these names; each has its Laws.
-- ConsistentHashing.Hasher models consistent_hashing/internal/data/elements.go over IntMap and
-- Ring; Order tells the place of a key without the order of the list, Placement, Upkeep and
-- Removal follow keys through additions and removals of servers; Distribution is Visualize up to
-- the chart.
-- SearchAutocomplete models search_autocomplete/internal/trie and the seeder. Trie is trie.go,
-- whose Laws tell the map that the trie is; Suggest is DFS of suggest.go, with what it finds in
-- Soundness; TopK is topK of suggest.go and Merge is mergeTopK of cache.go, both over the
-- interface Heap of container/heap, which Heap.Selection implements; Cache is the rest of cache.go
-- (traverse is TraverseAndBuild) and Suggest of suggest.go. Ranking says what the best k of some
-- completions are. Cache.Kept is the invariant of the caches, Cache.Laws keeps it, Cache.Answers
-- and Cache.Parallel follow a trie from its lines to the answers of Suggest. Seeder is
-- cmd/seeder/main.go: the index of a bucket (build_prefix_index is buildPrefixIndex) and its merge
-- into the collection; Seeder.Seeding follows all buckets; Scan is Scan of the same file, which
-- cuts a bucket into smaller ones, and Splitting is processBucket, which scans the large ones again
-- and draws the recursion with Graph (graph_builder.go). Tiers is internal/store: answer is Suggest
-- over memory, Redis and MongoDB, init is Init; Api is HandleSuggest of cmd/api/main.go, which
-- calls it. PrefixIndex is prefix_index.go, index.go (load is Load) and walkForIndex of trie.go.
-- Text is what the parsers use of strings and strconv; Files is ParseLine, BuildTrie from a file
-- and writeOut. Aol is cmd/preprocess_aol/main.go, whose output BuildTrie reads (Aol.Pipeline
-- follows a log to the trie), and Ngrams is cmd/preprocess_ngrams/main.go.
-- FileSearcher models concurrent_file_searcher/cmd/api/main.go: turn is a step of searchDir in one
-- goroutine, closer and main_loop those of main; Invariant, Steps, Runs, Progress and
-- Ends follow any order of such steps.
-- Chat models chat_system/cmd/api/main.go and internals/data/chat.go. The goroutine of a
-- connection (Lines: message_of is the body of handleConn) sends events to the one event loop
-- (Events: handle is a round of EventHandler, on_join is CMD_JOIN, and so on), which keeps the
-- rooms and locations (Rooms), starts workers (Broadcast) and sends to the channels of clients; a
-- worker hands slow clients back to be kicked. Events.Invariant, Keeping, Workers, Rounds and
-- Runs follow orderly events, Absent those of clients that are gone.
-- UrlShortener models url_shortener/main.go: Normalize is normalizeURL, Server the two handlers
-- over the table of codes.
-- Prelude holds what all of them share: tests, lists, texts, integers with the wrap-around of an
-- int64, and maps with text keys. The modules named Examples hold the tests.
--
-- The model. A uuid is a number, a time is in nanoseconds, a payload is its code points. One SQL
-- statement is atomic; a method that sends two takes a Session, which says whether each fails and
-- what other sessions do between them, and `alone` is the one without faults and without others. A
-- history is a list of statements, of any sessions in any order. Row locks of a claim are a
-- parameter. Values of the row's integer columns are natural numbers, request fields and settings
-- are integers. What stands outside the repository is a parameter: the environment and
-- strconv.Atoi, rand.Int64N, json.Valid, uuid, the clock, MD5 and the names that fmt.Sprintf
-- makes, container/heap, sort.Slice, filepath.Join, net/url, the tables of unicode and the codes
-- of snowflake and base62. Amounts of the limiters are exact multiples of a thousand-millionth
-- where the source has float64, whose rounding is left out. Text files are valid UTF-8. A line that
-- bufio.Scanner cannot hold is what the source makes of it: a panic, or the error of processFile,
-- which an argument gives. What MongoDB does with a batch is an argument too. Loops
-- are recursions on lists or numbers; fuel is only in the printing of numbers, which takes one more
-- than the number, in draining a heap, which takes its length, and in processBucket, for which one
-- more than the runes of the longest phrase is shown to be enough. Go ranges over maps in any
-- order; the models take the order of a list. A send of the event loop to a channel is an effect
-- that waits until the channel has room, and one to a nil channel waits for ever; a worker's kicks
-- are taken when the loop goes on (worker), and make it wait when it does not (unheard_worker). The
-- two statements of a shortening are two steps, between which other requests may come.
--
-- Not modelled: writing a response that fails, routing and middleware, Worker.Run with its
-- goroutines, the drawing of charts; of search_autocomplete the opening of files and of databases,
-- the WaitGroup and the channels of the seeder (each index is taken to reach the merge worker),
-- gzip, the memory estimate and the score of a phrase, which is computed in float64; of chat_system
-- the accepting of connections, the writers of the clients and the order in which goroutines get
-- their events through; and the program dependency_injection_in_golang.
pub mod Prelude
pub mod JobQ
pub mod RateLimiter
pub mod ConsistentHashing
pub mod SearchAutocomplete
pub mod Chat
pub mod UrlShortener
pub mod FileSearcher
