-- ===== src/Lib.antt =====
-- A model of Spurline, a Nostr relay with automatic observation receipts, and its correctness.
--
-- The program. A relay process (src/spurline/main.py) reads JSON arrays from WebSockets. An EVENT is
-- validated (events.py), saved by the event store (store.py, behind storage.py) and broadcast to the
-- subscriptions whose filters it matches (filters.py). A REQ normalises its filters, stores them as a
-- subscription and answers with the stored events. A CLOSE ends a subscription. With witnessing on, a
-- save goes through automatic_witness.py, which queues a job with an event of kind 1415 or 1416 in the
-- same transaction, and later issues a signed receipt (receipts.py) for it. config.py reads the
-- settings, identity.py binds a data directory to one service key, service.py keeps the evidence of an
-- operator's commissioning, checked by commissioning.py, witness.py keeps the operator's authorization
-- of the witness, and clock_monitor.py writes the file that the witness clock checks.
--
-- The files, and the code that each is about:
--   Prelude     shared helpers: tests, lists, Python's int, str and dict, raised errors
--   Json        the values of json.loads, and json.dumps in Json/Dumps
--   Events      events.py: `validate_event`, `event_id`, `StoredEvent`, and the rest
--   Filters     filters.py: `normalize_filters`, `validate_filter_bounds`, `matches_filter`
--   Store       store.py: the tables and `EventStore.save`, `witness_rows`, `witness_update`, as
--               actions on a connection; Store/Query has `EventStore.query`
--   Storage     storage.py: the interface, and `SQLiteStorage` over Store
--   Relay       main.py: `RelayService` and the loop of the endpoint, as functions on the connections
--               and the store that give the messages sent and the exception that escapes
--   Receipts    receipts.py: `signed_event_digest`, `receipt_tags`, `verify_receipt`, and
--               `canonical_json` of commissioning.py
--   Clock       `WitnessClock` of automatic_witness.py
--   Monitor     clock_monitor.py: `collect`
--   Witness     `AutomaticWitness` of automatic_witness.py: `accept`, `issue`, `status`; Witness/Worker
--               has a pass of `run`
--   Settings    config.py
--   Identity    identity.py: `bind_service_identity`
--   Commissioning  commissioning.py: the request, the attestation and the descriptor, in a child module
--               each, with the checks; Commissioning/Interface gives them to Service
--   Service     service.py: `ServiceCommissioning`, over an interface for commissioning.py
--   Authorization  witness.py: the checks of a request (Request) and its answer (Grant), the chain of
--               authorizations and revocations (History), the view (Views), and the methods of
--               `WitnessAuthorization` (Operations) on the rows of its three tables
-- Under each, child modules hold the proofs and a module Tests holds runs and examples.
--
-- Choices. A text is the list of its code points. A Python int is an integer, and a bool keeps its
-- value and counts as 0 or 1 in comparisons. A float is given by its print, which is also what `==`
-- compares (Json/Equal). SHA-256, coincurve, stroma's keys, signing and loading, int(), json.loads,
-- repr() and the UTF-8 decoder are parameters. A message of a socket is what json.loads makes of it: a
-- value, a JSONDecodeError, or another exception. Every SQLite statement may fail, by a list of faults
-- that the connection carries, and a transaction puts the database back when its body raises. A text
-- with a lone surrogate cannot be bound to a statement: `save` and `query` raise UnicodeEncodeError. A
-- column of JSON is given by the value that was written. The microseconds of the two clocks are numbers. Numbers are printed by
-- a recursion with one more round than the number, and each round divides by ten.
--
-- Relay takes the witness as an optional function, and the theorems about the states that a relay
-- reaches (Sound, Reach, Authentic, Publish) are about a relay without one, on the SQLite storage;
-- `accept` of the witness has its theorems in Witness.
--
-- Not modelled: the failure of a send on a socket; the interleaving of two handlers at an `await`
-- inside of a handler; the indices and the migration of the database; failures of SQLite in
-- Authorization, whose view is still an input of Witness; operator_signing.py; the HTTP routes, cli.py
-- and homepage.py, which format values.
pub mod Prelude
pub mod Json
pub mod Events
pub mod Filters
pub mod Store
pub mod Storage
pub mod Relay
pub mod Receipts
pub mod Clock
pub mod Commissioning
pub mod Monitor
pub mod Witness
pub mod Settings
pub mod Identity
pub mod Service
pub mod Authorization
