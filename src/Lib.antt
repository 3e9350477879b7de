-- ===== src/Lib.antt =====
-- A model of dbwarden, a migration tool for SQL databases, and the theorems about it.
--
-- dbwarden compares the models of a program with a stored schema state, writes the difference into
-- numbered migration files with a typed plan beside each, and applies the pending files in the order
-- of their dependencies while it holds a lock. The development follows these parts:
--
-- State models dbwarden/engine/generation_state.py. State.Json has the nested dicts (a dict is the
-- list of its fields sorted by key), State.Changes has `state_changes` and `apply_changes`,
-- State.Pending has `effective_state`, which replays the plans of pending files over a baseline and
-- tests their checksums, and `check_deferred_conflicts`. The checksum of a state, the reader of
-- trusted plans and the test for superseded files are parameters (`Surroundings`). `state_changes`
-- recurses on the depth of its states as fuel, which is enough since a nested dict is less deep.
--
-- Version models dbwarden/engine/version.py: `resolve_migration_order`, whose loop runs at most twice
-- as many passes as there are pending migrations, as in the code; `validate_dependencies`, with the search
-- for cycles in Version.Search and the other checks in Version.Validate; the listings of files
-- (Version.Files, Version.Repeatables), from the sorted entries of the directory; the names of migration
-- files with the pattern that reads them back (Version.Names); and the next number (Version.Next). The
-- search is on fuel, the number of pending migrations, which is enough since every call visits one more
-- (Version.Unseen).
--
-- Lock models dbwarden/lock. Lock.State has the states of a run, its transitions and the health verdict of
-- dbwarden/lock/state.py, Lock.Recovery the inspection and the recovery policy of
-- dbwarden/lock/__init__.py, Lock.Heartbeat the loop of dbwarden/lock/heartbeat.py, and Lock.Lease the
-- ClickHouse lease of dbwarden/lock/clickhouse.py over the statements of dbwarden/lock/table.py: the
-- rows of one namespace and the clock readings as arguments. The insertion of `acquire` reads a table of
-- its own, as INSERT … WHERE NOT EXISTS is not atomic on ClickHouse; the mutations (ALTER TABLE UPDATE)
-- are applied row by row at any later time; and the runs of several processes are a step relation of
-- insertions, mutations and merges (Lock.Lease.Exclusion).
--
-- Severity models dbwarden/engine/safety. Severity.Levels and Severity.Operations have the levels, the
-- tables and branches that classify an operation, and the flags and the severity of a file, of
-- dbwarden/engine/safety/classifiers.py and plans.py; Severity.Scope has the severity ceiling of
-- dbwarden/engine/safety/scope.py. Severity.Plans and Severity.Sealing have `bind_plan` and the keys of
-- plans.py, Severity.Trust and Severity.Categories `read_trusted_plan`, over the JSON documents of
-- Severity.Documents. The classifiers of the backends, `str.upper`, the HMAC, the files and the checks of
-- a data bundle are parameters.
--
-- Partition models `partition_operations` of dbwarden/engine/safety/partition.py: the dependencies
-- between operations (Partition.Dependencies), the checks of the order and the split of the operations
-- at a severity (Partition.Split). What `_type_references` finds in an operation is a field of it; the
-- parser of view definitions is a parameter. The loop that defers operations has as many rounds as
-- there are operations, which is enough since each round but the last defers one more
-- (Partition.Closure).
--
-- Ordering models dbwarden/engine/core/ordering.py (Ordering.Anchors, Ordering.Handlers) and
-- statement_order.py (Ordering.Values, Ordering.Statements): the anchors of a handler, the statement
-- order they give, the assembly of the statements of a migration, and the order of the handlers. The
-- values of `StatementOrder` are shifted by 5. The loop of `order_handlers` has as many rounds as
-- there are handlers, which is enough since each round places one (Ordering.HandlerOrder).
--
-- Sql models dbwarden/sql.py and dbwarden/engine/file_parser.py: the loop of `split_sql_statements` with
-- its three variables and the character it looks ahead (Sql.Split), and the loop that reads the lines
-- of a section of a migration file (Sql.Files), both by recursion on the text. Sql.Tokens describes
-- literals and comments independently of the loop, Sql.Blocks the content of a file.
--
-- Execution models `run_migration` of dbwarden/repositories/migrations_repo.py (Execution.Run) and
-- `get_db_connection` of dbwarden/connection/connection.py: the calls it makes of the connection, in order
-- (Execution.Calls). Which calls raise is a parameter; a call that raises has no effect.
-- Execution.Durable says what each call does to a database with transactions, the rollback and the
-- commit of `engine.begin()` included. In the branch of a data plan, `load_data_plan` and
-- `execute_migration_bundle` of dbwarden/data/integration.py are parameters. The texts of the statements
-- that record a version are left out.
--
-- Naming models `_pluralize` and `_truncate` of dbwarden/engine/migration_name.py.
--
-- Common has the tests, lists, texts (lists of code points), exceptions and the sorting that the
-- parts share.
--
-- Not modelled: the readers of model metadata and of database catalogues, the SQL that handlers
-- write, data operations, snapshots, the merge of branches, configuration, the command line, and the
-- locks that a database server holds itself. Most of it reads a database, a file or a third-party
-- library. Of the parts above, the header of a migration file, `compare_versions` and the groups of a
-- partition are left out.
pub mod Common
pub mod State
pub mod Version
pub mod Lock
pub mod Severity
pub mod Ordering
pub mod Naming
pub mod Partition
pub mod Sql
pub mod Execution
