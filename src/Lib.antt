-- ===== src/Lib.antt =====
-- Energy Flex Trust Platform: the coordination service, its audit log and its outbox.
--
-- The program registers flexible assets, takes offers and reservations on them, issues dispatches
-- through a transactional outbox, records meter readings and settles what was delivered. Every change
-- appends to a hash-chained audit log in the same transaction. A worker claims outbox messages, calls
-- a publisher outside the transaction and records the answer.
--
-- The files and what they model (paths from the root of the repository):
--   Domain      src/energy_flex_trust/domain.py, errors.py
--   Models      src/energy_flex_trust/models.py: a record for each table, the database of all tables;
--               Models/Table has session.get and writes to a row, Models/Keyed keyed tables,
--               Models/Width the widths of the columns
--   Session     the SQLAlchemy session: state, exceptions, commit and rollback (begin), and
--               session.add with widths, primary keys and unique constraints; Session/Rules,
--               Session/Stored and Session/Outcome have the proof rules of the actions
--   Platform    what comes from outside of src/: UUIDs, the clock, SHA-256, json.dumps, pydantic's
--               texts, the numbering of audit events
--   Datetime, Decimal, Json   values of Python that the program computes with
--   Schemas     src/energy_flex_trust/schemas.py: the commands and their validation; Schemas/Read the
--               response models
--   Ports       src/energy_flex_trust/ports.py
--   Audit       src/energy_flex_trust/audit.py; Audit/Chain and Audit/Tamper about verify_chain
--   Service     src/energy_flex_trust/service.py: CoordinationService, an operation or two a file
--   Outbox      src/energy_flex_trust/outbox.py: the payload, the queue and OutboxWorker
--   Redrive     src/energy_flex_trust/redrive.py
--   Checkpoints src/energy_flex_trust/checkpoints.py
--   Auth        src/energy_flex_trust/auth.py
--   Openadr     src/energy_flex_trust/openadr.py
--   Config      src/energy_flex_trust/config.py
--   Startup     src/energy_flex_trust/database.py, worker.py and recovery_cli.py
--   Api         src/energy_flex_trust/api.py
--   Migrations  migrations/versions, and the tables that models.py declares
--   Drill       scripts/recovery_drill.py
--   Privileges  scripts/verify_db_privileges.py
--   Advisories  scripts/verify_advisory_exceptions.py
--   Trail       the audit log under every operation
--   Linkage     the states of messages, dispatches, reservations and settlements under every operation
--   System      sequences of calls of all of these on one database, as a step relation
--   Guarantees  the operations one by one: success, failure, retry, roles, the worker
--               and how its runs end, codec, rounding
--   Tests       the theorems at concrete inputs
--
-- An operation is a function from the world (the database, how many UUIDs and clock readings were
-- taken) to a result or an exception and the world after it. A method that opens a transaction is
-- two definitions: the transaction's body (register, offer, reserve, issue, settle, claim, finalize,
-- note_failure, redrive) and the method with the role check and begin around it. Transactions run one
-- after the other, so row locks and skip_locked have no effect; between the transactions of a worker
-- anything may happen. The loop of run_once recurs on its limit, so it needs no fuel; the rounding to
-- the decimal context recurs on the scale, the number of digits that it can drop.
--
-- A value that is too wide for its column raises DataError on a database that enforces widths, as
-- PostgreSQL does and SQLite, the default, does not; Platform has this as a parameter.
--
-- A request of the web service is a route with its arguments; FastAPI parses it and runs the handler.
-- A migration is a list of operations on a schema, each of which the database may refuse.
--
-- Not modelled: dashboard.py, a user interface; migrations/env.py; scripts/generate_sbom.py; the
-- search of names in the source by verify_advisory_exceptions.py; the parsing of command lines and
-- what the commands print; foreign keys, as the service looks every referenced row up first. Decimals are not negative and have no positive exponent. A clock reading
-- is a number of microseconds.
pub mod Prelude
pub mod Domain
pub mod Datetime
pub mod Decimal
pub mod Json
pub mod Platform
pub mod Models
pub mod Session
pub mod Audit
pub mod Auth
pub mod Checkpoints
pub mod Config
pub mod Api
pub mod Migrations
pub mod Drill
pub mod Privileges
pub mod Advisories
pub mod Ports
pub mod Startup
pub mod Openadr
pub mod Schemas
pub mod Outbox
pub mod Redrive
pub mod Service
pub mod Trail
pub mod Linkage
pub mod System
pub mod Guarantees
pub mod Tests
