-- ===== src/Lib.antt =====
-- Concrnt: the policy language, document verification, content ids and the commit of documents.
--
-- A document is a JSON text that its author signs. A server that is sent one verifies its proof
-- (verify.go), checks its size, owners and age, and runs the operation of its kind in a transaction
-- (internal/usecase/record/commit.go). Whether an action on a resource is permitted is decided by a
-- stack of policies (policy/), which the policy service builds from the documents' declarations
-- behind the server's global policy (internal/service/policy.go). Documents are named by content
-- ids (cdid/cdid.go) and cc URIs (utils.go); what leaves the server for anyone to read is cut to
-- the references flagged public (types.go). Realtime sessions subscribe to prefixes
-- (internal/usecase/subscription/subscription.go). What a commit leaves to other servers goes
-- through a job queue (internal/infra/jobqueue/redis.go); readers merge timelines of several
-- servers (chunkline/); people join a server by invitation (internal/usecase/residence, jwt/).
--
-- Files:
--   Prelude, Prelude/*      tests, lists, text, dictionaries, outcomes and integers they all share
--   Policy/Conclusion       policy/types.go: Conclusion, Or, ParseConclusion; /Merge: many at once
--   Policy/Value, /Reflect  the values of type `any`; policy/utils.go: toAny and its helpers
--   Policy/Operators        policy/operators.go: the registered operators; /Laws: what they satisfy
--   Policy/Eval             policy/functions.go: Eval; /Sugar: the constant beside the arguments
--   Policy/Pattern          policy/functions.go: the regular expression that a statement's key
--                           becomes; /Language: the texts that a key stands for, /Quoting: the
--                           expression accepts just these
--   Policy/Evaluate         policy/functions.go: EvaluatePolicy, EvaluateStack; /Emits, /Stack
--   PolicyService           internal/service/policy.go: resolvePolicyStack, Eval, ConcrntCall;
--                           /Scope: relative keys, /Fallback: unresolved entries, /Decision
--   Uri                     utils.go: CCURI, ParseCCURI, identifiers; /RoundTrip
--   Cdid, Cdid/Base32       cdid/cdid.go and its encoding; /RoundTrip, Ids and Order
--   Document                types.go: Document, Proof, SignedDocument, DeriveAcked; /Public:
--                           PublicView, MarkAllPublic, StripInternalFlags; /Flags
--   Crypto, Verify          crypto.go: VerifySignature; verify.go: Verify, VerifyWithProofTypes;
--                           Verify/Basics, /Author, /Subkey
--   Commit                  internal/usecase/record/commit.go: Commit up to the choice of the
--                           operation, rejectAliasOwners; /Guards; /Transaction: the rest of
--                           Commit as the calls that it makes; /Phases
--   Record                  internal/usecase/record: what the operations of a commit share
--   Record/Entities         entity.go: saveEntity, GetEntity, getEntityWithReference; /Lookup
--   Record/Read             read.go, policy.go: who may read a document; /Anonymous: events
--   Record/Query            query.go, replication.go: pages of documents; /Pages
--   Record/Create           record.go: createRecord; /Admitted: what a record has passed, /Listed
--   Record/Associate        association.go: createAssociation; /Stored
--   Record/Acknowledge      ack.go: processAck; /Sides: which side writes what
--   Record/Target           delete.go: parseRangeDeleteTarget
--   Record/Remove           delete.go: deleteRecord; /Choose: its targets, /Sweep: the references
--                           to them, /Signal: the deliveries, /Permission: what it may write
--   Record/Deliver          deliver.go: deliveries and their execution
--   JobQueue                internal/infra/jobqueue/redis.go; /Backoff, /Ledger: what the
--                           commands leave, /Fate: a job from its first message to its last,
--                           /Settled: how it ends, /Moves: jobs that return to the stream
--   Chunkline               chunkline/client.go, chunkline/types.go; /Merge: what it answers;
--                           /Gateway: internal/infra/gateway/chunkline_gateway.go, the manifests,
--                           /Resolved: their sizes, /Unbroken: a merge does not panic
--   Jwt                     jwt/functions.go: Parse, Validate; /Valid
--   Residence               internal/usecase/residence/residence.go, impl/tags/tag.go; /Admission
--   Subscription            internal/usecase/subscription/subscription.go; /Prefixes: samePrefixSet,
--                           /Sessions: the open sessions
--   Tests, Tests/*          the theorems at concrete inputs
--
-- A function with an error result is an `Outcome`: a value, an error or a panic. Of an error only
-- the case is kept, not its text. A Go string is a text in UTF-8, whose length counts bytes; where
-- a library hashes it, the codes of its characters stand for its bytes, which they are if it is
-- ASCII. A Go map is an association list; an instant is an integer of nanoseconds. An operation
-- that writes returns the list of its writes, in order, and goes on by what each of them answers.
--
-- `verify` recurses on the depth that is left, which the code bounds by maxVerifyDepth = 4, so no
-- fuel is added. GetEntity calls itself for an alias; two calls of that branch are enough, since an
-- alias leads to a CCID (Record/Entities/Lookup). The merge of timelines runs for the 1000 rounds
-- of `itrlimit`, and `sort.Search` for as many rounds as there are items, which is enough since
-- each shrinks the interval. Every other loop is structural recursion.
--
-- Parameters stand for code outside the repository and for lookups: `Codec` for encoding/json,
-- `UrlPackage` for net/url, `CryptoPackage` for keccak, ecrecover and bech32, the resolver of
-- documents, the fetch of a policy, the client's named call, and in `Context` the clock, the commit
-- log, the entities and the blocked users, and in `Env` the repository as it stood before the
-- transaction, what its writes answer, the policy service, DNS and the client. The commit that a
-- lookup of an entity makes of another document is a parameter too, though it is Commit itself: the
-- recursion from Commit through GetEntity into Commit is not followed, and nothing is said of its
-- depth. `heap.Pop` takes the order of the heap. Redis answers a command of the job queue or fails;
-- what the commands leave is told by a ledger. The laws assumed of them are `KeepsAuthor`, writing
-- a document with another kind keeps its author; `IsPlain`, net/url finds the parts of a printed
-- URI that holds no escapes; `IsRoundTrip`, encoding/json reads the jobs that it wrote; and
-- `IsApart`, no other message or retry in the queue is one of the job that is followed.
--
-- Not modelled: tracing and logging, the HTTP handlers, the database and its queries, the loops of
-- the job queue and the websocket workers, the HTTP client, the commands and the legacy client,
-- which move data between the parts above and services; the document that an operation of a commit
-- answers with, and the re-check of an entity in the background, which changes nothing that its
-- caller sees.
pub mod Prelude
pub mod Policy
pub mod Uri
pub mod PolicyService
pub mod Cdid
pub mod Document
pub mod Crypto
pub mod Verify
pub mod Commit
pub mod Subscription
pub mod Record
pub mod JobQueue
pub mod Chunkline
pub mod Jwt
pub mod Residence
mod Tests
