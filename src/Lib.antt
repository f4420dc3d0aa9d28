-- ===== src/Lib.antt =====
-- Verification of go-ricochet, a store-and-forward mail server on libp2p.
--
-- A message enters through a submission protocol, is judged by the transfer agent (internal/mta),
-- delivered by the delivery agent (internal/mda) to a mailbox of one of four types
-- (internal/mda/mailboxes), and kept in PostgreSQL (internal/storage/postgres, schema.sql). Readers
-- fetch pages, acknowledge, or claim. The files:
--
-- Base: shared types and lemmas. A Go string or []byte is the list of its bytes (Text); an int that
--   may be negative is a ℤ, any other a ℕ.
-- Wire: pkg/wire, the message and its flags. Peer IDs are compared by their encoded text.
-- Store: internal/storage/postgres/postgres.go over the tables of schema.sql. Rows has the tables
--   as lists in order of insertion, Messages the message operations, Mailboxes the mailbox and
--   maintenance operations, Access the ACLs and cursors. Each operation is one transaction; NOW() is
--   an argument. Failures of the connection, last_access_at, created_at of a mailbox, the id and
--   granted_at of an ACL row, and the overflow of INTEGER columns are not modelled. The expiry sweep
--   keeps its 200 batches of 5000.
-- Store/Invariant, Store/Retrieval, Store/Claims, Store/Ownership, Store/Capacity: its theorems.
-- Frame: internal/protocol/frame/frame.go, with the JSON encodings as a parameter (Codec). RoundTrip
--   and Response have the round trips, Wrap the 32-bit addition of the response decoder.
-- Mailboxes: internal/mda/mailboxes. Page has fetchPage and trimToBytes, the parent the guards, the
--   store and the read of the four types. A peer ID is the text of its canonical encoding; peer.Decode
--   and the length of a message's JSON are parameters (Library). A starting sequence number is a
--   natural number: a negative one selects what 0 selects.
-- Delivery: internal/mda/delivery.go and claim.go over Store and Mailboxes. The LRU cache of loaded
--   mailboxes is an interface (Cache) with the laws the code relies on: an addition may evict any
--   entry. SmallCache is a cache of one entry. Address has the folder paths of
--   internal/core/mailbox.go; Settings the defaults, the expiry clamp with its 64-bit duration, and the
--   settings of internal/protocol/mma/handler.go; Coherence the agreement of cache and
--   tables. A call is one step, but for the creation of a mailbox in Quota, whose check and insertion
--   are two, as the source says that other creations may come between them. A mailbox that a call
--   finds and another deletes before the first one loads it, so that it is made again unchecked, is
--   left out there.
-- Router: internal/mta/router.go over Delivery, and the peer set of internal/trust/trust.go. The
--   request limiter is a parameter.
-- Presence: the heartbeat of internal/presence: its pages (service.go) and the tracker's assembly of
--   them (tracker.go). Counting has the sets of page numbers, Pages the slices, Online both together.
-- Readers: pkg/wire/visibility.go, internal/storage/postgres/store_access.go, and access.go and
--   authz.go of internal/protocol/wire. The operation of access.go is written over an interface
--   (AccessStore) that the documents fill.
-- Documents: the document operations of internal/storage/postgres/postgres.go and the options of
--   internal/storage/storage.go. Listing has the reads, Patch the merge patch; Writes, Run,
--   Conditional, Prune and History are about what a write leaves, Merge compares the patch with
--   RFC 7396. A transaction is one function, and a refused one leaves the tables as they were;
--   SHA-256, encoding/json and the order of texts are parameters (DocLibrary).
-- Directory: the directory listings of internal/storage/postgres/postgres.go.
-- Sda: internal/protocol/sda/handler.go with internal/protocol/wire/fields.go. The parent has the
--   requests, answers and checks; Reads, Writes, Batch and Entries the handlers, Serve the validation
--   and the routes. The bytes of a request are read three times, by common validation, by the
--   operation router and by the handler, and the reads are parameters that need not agree (Decoders);
--   headers are an association list. An answer leaves the wording of an error out. OwnerOnly has who
--   may change a document, Hidden and Silent who learns what of one, over the lists of Unseen, and
--   SameWrite the agreement of the two ways to write. SmallServer is the server of the tests.
-- Feeds: internal/storage/postgres/feeds.go. Log has the abstract append-only logs and the relation of
--   the tables to them, Refinement the proof for every write.
-- Status: internal/protocol/wire/status.go. Redacted has what a client sees of an
--   error that the table does not name: the message of a refused path, filter or content may show it.
-- Admission: internal/admission/controller.go as a step relation: each request stands between two
--   accesses of the shared state (Phase), a step is an arrival, a turn or a timeout or cancellation of
--   one request. Invariant relates the channels, counters and entries to the requests, Bounds and
--   Drains draw the conclusions.
--
-- Bounds: the loops are structural; the expiry sweep has the 200 batches of the code, and the loop of
-- the response decoder as many rounds as the metadata counts messages. A 32-bit length in a frame and
-- the 64-bit duration of a retention are written with their wrap-around; other integers are not
-- bounded.
-- Not modelled: collections, and the handlers of the feed and collection protocols; moderation and the
-- capacity gate; the request handlers but for the mailbox settings and the document protocol;
-- notifications, metrics, logs, configuration, transports and the client library; and failures of the
-- database connection. Time is an argument, and the LRU cache, the limiters, peer.Decode, JSON and the
-- tests of unicode text are parameters.
mod Base
pub mod Wire
pub mod Documents
pub mod Directory
pub mod Sda
pub mod Status
pub mod Feeds
pub mod Admission
pub mod Readers
pub mod Presence
pub mod Router
pub mod Delivery
pub mod Frame
pub mod Mailboxes
pub mod Store
