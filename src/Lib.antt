-- ===== src/Lib.antt =====
-- TeaElephantMemory: a server that keeps a user's teas, their tags, the QR codes on the tins and what
-- was drunk when, and that picks a tea of the day. The program is written in Go; its parts are
-- modelled here as functions on explicit states, and the theorems are about these functions.
--
-- The parts and how they meet. A request reaches a GraphQL resolver, which calls a manager
-- (internal/managers); a manager calls the storage adapter (pkg/pg/db.go), which turns domain types
-- (common) into rows and back and runs the statements of the query layer (pkg/pgstore/queries.go)
-- over the tables of db/schema.sql. A manager also puts events on queues, whose loops hand them to
-- collections of subscribers (common/subscribers). The tea of the day is the best of the user's
-- collection by the scores of an AI, the last consumptions (internal/consumption) and the
-- expiration dates (internal/scoring).
--
-- Which file models which part:
--   Prelude          Boolean tests, integers, byte strings, Go maps, a stable sort, and lemmas.
--   Clock            what the program uses of package time: an instant is the signed number of
--                    nanoseconds since the epoch, unbounded, and Sub saturates at 64 bits.
--   Scoring          internal/scoring/scoring.go, whole. The loops of SelectBest and of
--                    SelectBestWithLogging are select_loop and logging_loop; a callback is an
--                    optional list of log entries that grows.
--   Subscribers      common/subscribers/generic_subscriber.go, whole. Push, SendAll and CleanDone run
--                    one at a time, as under the mutex. A channel is open or closed and its
--                    receiver takes messages or does not, so a call answers, panics or waits.
--   Domain           common: the domain types, and BeverageType with its strings.
--   Store            pkg/pgstore/queries.go: one function per statement, over a record of the tables
--                    (Db). A statement meets the constraints of db/schema.sql (primary keys, unique
--                    indexes, foreign keys with RESTRICT and CASCADE, checks), and fails with no
--                    effect where the list of coming faults says that the connection does.
--   Adapter          pkg/pg/db.go: one function per method; Error holds the wrapped causes.
--   Consumption      internal/consumption/store.go and pg_store.go: both stores.
--   Models           pkg/api/v2/models: the models of teas, tags, QR records and collections, and the
--                    conversions of teas.
--   Managers         internal/managers/collection, qr and notification, and tea and tag with their loops:
--                    a method that puts an event on a full queue (queue_size and chan_size, the
--                    capacities of 100 in the code) waits, with its change stored; a round of the
--                    loop is one step. A queue of the tag manager with its subscribers is a Topic.
--                    The modules Subscribers are the typed copies of the subscriber collection.
--   Auth             internal/auth/auth.go: the sign-in, the validation of users' and administrators'
--                    tokens (SignIn, Admin, Sessions), and what the context of a request holds.
--   Keys             common/key_value/key_builder: the keys of the former key-value storage, as bytes, and
--                    the parser of consumption keys.
--   TeaOfTheDayCache pkg/api/v2/graphql/teaoftheday_cache.go: Set, and Get as its two critical sections.
--   Graphql          pkg/api/v2/graphql/errors.go and schema.resolvers.go: the errors that clients get,
--                    the mutations with their guards, the queries, and the tea of the day.
--   Alerter          internal/expiration/alerter.go: Run, over a sender that accepts an alert or refuses it.
-- A module below a part holds its proofs and is named for what they are about; Tests modules hold
-- instances of the theorems at concrete data, and test runs.
--
-- Conventions. A function name is the Go name in lower case with underscores; Update, Delete and
-- Record are update_record, delete_record and record_consumption or record_row. An identifier
-- (uuid.UUID) is a natural number, the nil identifier 0. What a method draws or reads from outside,
-- a new identifier or the current time, is an argument. A string is the list of its bytes. Integers
-- of the program are ℤ; the scores stay within the bounds that are proved, and a temperature is
-- clamped to 32 bits where the program does so. sort.Slice and ORDER BY leave ties in any order,
-- here in the order of the list; theorems on what they answer speak of a permutation.
--
-- Loops are structural recursion on the list that the program ranges over, so no fuel is needed.
--
-- What is taken as a parameter: of PostgreSQL its lower(), LIKE, collation, and the instant that a
-- timestamptz column keeps (the record Postgres); of package uuid the text of an identifier; the
-- calendar of the place (the record Location); what Auth calls of the packages jwt, apple, pem, x509,
-- uuid and os (the record Libraries); and what the tea of the day calls of the adviser, the weather
-- client and the store of consumptions (the record Services).
--
-- Simplified. One instant stands for every reading of the clock in a call: so in Validate, which reads it
-- in the parser and after it, and in a run of the expiration alerter, which reads it for each record. A
-- method that waits on a full queue stays so in the model: that its send ends once the loop has made
-- room is not a step. A statement is not refused for a NUL byte, for text that is no UTF-8, or for a key
-- too long for an index.
--
-- What is not modelled. Contexts and cancelled calls, but for the subscribers' done contexts; logs,
-- but for the scoring callback; concurrent transactions, since each statement is one step; of the
-- resolvers the sign-in, the recommendation, Me, the fields of a user and the subscriptions; the
-- encoder of the former key-value storage; the weekly loop of the expiration alerter; and the parts
-- that only call other services or packages: the adviser, the description generator, the weather
-- client, the push sender, the printing of QR codes, the server and the commands. The code that sqlc
-- and gqlgen generate is not modelled either.
pub mod Prelude
pub mod Clock
pub mod Scoring
pub mod Subscribers
pub mod Domain
pub mod Store
pub mod Adapter
pub mod Consumption
pub mod Models
pub mod Managers
pub mod Keys
pub mod TeaOfTheDayCache
pub mod Alerter
pub mod Auth
pub mod Graphql
