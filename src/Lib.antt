-- ===== src/Lib.antt =====
-- Models of the interchange relay and of its gateway.
--
-- The relay lets two parties pair and then exchange sealed messages through it. A requester posts its
-- half of a pair, the owner approves it, and from then on each side may PUT messages that the other
-- side lists with GET and evicts with an ack. All state is in three tables; the handlers and the
-- sweeper reach it only through the operations of internal/storage. The gateway in front of the other
-- services matches a path to a route, verifies the bearer token and hands on the verified identity.
--
--   Base      Boolean tests, lists and texts. A Go string or byte slice is a list of bytes.
--   Platform  instants (nanoseconds in ℕ) with the int64 saturation of time.Duration, tsInWindow of
--             internal/mailbox/mailbox.go, and the parameters that stand for the Go library.
--   Formats   pathIDRegex, uuidv7Regex (mailbox.go) and uuidRegex (internal/pairflow/pairflow.go).
--   Base64    base64.RawURLEncoding, and decodeB64URL of mailbox.go, pairflow.go and crypto.go.
--   Storage   internal/storage/storage.go and sqlite.go: rows, tables, every operation. Children:
--             Paging (the cursor walk), Drain (list and delete, round after round), Keys (histories of
--             writes), Requests (the life of a request), Arrival (tables with the same messages
--             in another order), Schema (OpenSQLite, CreateSchema and splitStatements, with Script and
--             Settled).
--   Handlers  replies, and chains of checks that return early.
--   Crypto    EdVerifier.Identify of internal/crypto/crypto.go, with its child Identity.
--   Envelopes, Mailbox  internal/mailbox/mailbox.go: OuterEnvelope, validEnvelopeSchema, directionFrom,
--             readDirectionFor, canonicalJSON; dispatch, put, get, ack. Children of Mailbox: Checks,
--             Put, Inbox, Ack, Writes (what a request does to the tables), Arrival and Exchange
--             (the order in which messages come in).
--   Halves    the half of a pair in pairflow.go: parseHalf, canonicalBytesV1 and V2, verifySelfSig,
--             computePathID, halfToWire. Children: Signing, PathId.
--   Submissions, Decisions, Pairflow  the handlers of pairflow.go: createRequest, getRequestStatus and
--             listPending; approve and deny; dispatchPublic and dispatchOwner. Children of Pairflow:
--             Create, Approve with Claims, Repeat (approve sent again), Race (a decision between its
--             two writes), Duplicate (approve for a pair that is there), Opening (on to the
--             mailbox), Public and Writes (what the listeners may change).
--   Sweep     Once and Run of internal/sweep/sweep.go, with its child Retention.
--   Gateway   New, serve, match, isPublic, injectIdentity and bearer of internal/gateway/gateway.go.
--             Children: Headers, Routing.
--   Edge      internal/edge/edge.go: identities as gRPC metadata. Its child: Carried.
--   Entry     the handlers of cmd/interchange-gateway/main.go. Children: Settings (the environment,
--             with RoundTrip), Metadata (the annotator of newGRPCMux), Spoofing, Lanes and Composite
--             (what the handlers let through), Wiring (the gateway that main assembles; Handed,
--             Admission and Bypass say what reaches a pillar), Startup (main up to the listener, with
--             DialPillar of edge.go; Edges and Up say when it comes up).
--   RateLimit internal/middleware/middleware.go. Children: Tables (its size) and Solo (one client).
--   Relay     cmd/interchange/main.go with the handlers of internal/landing and internal/discovery:
--             both listeners, the rate limit, the sweeper. Children: History (sequences of turns),
--             Advertised (the endpoints of the discovery document) and Launch (main from the flags to
--             the listeners).
--   Discovery the limits of internal/discovery/discovery.go and the examples of example_values.go and
--             examples.go. Children: Document (New of discovery.go), Vector (example_aead.go; its
--             Receiver and Unsealing read the vector back), Block (buildExamples), and Limits, Examples,
--             Outer and Block.Taken, which hold them against the pair flow, the mailbox and the verifier.
--   Tests     one small deployment on which the theorems are tried.
--
-- A handler is a function from its environment, the request and the tables to a reply and the tables
-- after it. The environment holds the readings of the clock in the order in which the handler takes
-- them, the parameters, and for each storage operation whether the driver fails in it. A failing
-- operation changes nothing, which is what SQLite promises for one statement. In approve the
-- environment also says what other requests do to the tables between its calls. JSON decoding,
-- digests, ed25519 verification, time.Parse, url.Parse and query parsing are parameters; where a
-- theorem relies on one of them, a hypothesis says so.
--
-- No loop runs on fuel. The page size (50), the batch size of an ack (100) and the body limits are
-- those of the code, and the cursor walk and the drained inbox take the number of rounds as a number
-- of their own, with as many as the pages need. The token bucket, gRPC metadata and the token verifier
-- are third-party code: parameters, with their documented laws as hypotheses.
--
-- A turn of the relay is a whole request, sweep or eviction; what other requests do in the middle of
-- an approval stands in its environment, and Relay.History asks of it only that it runs storage
-- operations. The rate limit is the one table besides the three of the database.
--
-- Not modelled: the parsing of flags, signals, and the shutdown of both commands, middleware.Recover,
-- the text of the landing page and the notes of the discovery document, cmd/db-inspect and
-- internal/version; response headers and logging.
pub mod Base
pub mod Platform
pub mod Storage
pub mod Formats
pub mod Base64
pub mod Handlers
pub mod Crypto
pub mod Envelopes
pub mod Mailbox
pub mod Halves
pub mod Submissions
pub mod Decisions
pub mod Pairflow
pub mod Sweep
pub mod Gateway
pub mod Edge
pub mod Entry
pub mod RateLimit
pub mod Relay
pub mod Discovery
pub mod Tests
