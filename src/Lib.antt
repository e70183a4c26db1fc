-- ===== src/Lib.antt =====
-- The migration engine of godj: the planner of migrations, their execution in transactions, and the
-- schema states that they lead to; and its object mapper: queries and writes on models, and the SQL that
-- the SQLite backend makes of them.
--
-- A project is a list of migrations, each with the migrations that it depends on and its operations.
-- The planner turns them into a graph, checks it, and plans steps from the applied migrations to a list
-- of targets. The executor runs a plan, one transaction for each step, and computes all project states
-- before the first transaction. A project state is one normalized schema for each app. The reconstructor
-- gives the state that a part of the history leads to.
--
-- A manager of a model type checks lookups and changes against the metadata of a generated descriptor and
-- turns them into plans of the package query, which a backend runs. The SQLite backend compiles a plan to
-- one statement with its arguments.
--
-- Which module models which file:
--   Base: what the modules share: Boolean tests, finite sets and maps as lists, byte strings, sorting,
--     results with errors.
--   Ir: schema/ir/types.go; Ir/Normalize and Ir/Identifiers: schema/ir/normalize.go.
--   Migrations/Keys: migration keys of migrations/planner.go and their order in
--     migrations/planner_graph.go.
--   Migrations/Errors, Migrations/Definitions: the error values and the types of
--     migrations/executor.go, migrations/planner.go and migrations/operation.go.
--   Migrations/Graph: migrations/planner_graph.go, with the constructor newPlannerGraph in Graph/Build
--     and firstCycleComponent in Graph/Cycles.
--   Migrations/Planner: migrations/planner.go.
--   Migrations/State: migrations/state.go. Migrations/Operations: migrations/operation.go.
--   Migrations/Executor: migrations/executor.go. Migrations/Executor/Plans: migrations/execution.go.
--   Migrations/Reconstructor: migrations/reconstructor.go.
--   Migrations/History: migrations/history.go.
--   Query: the package query. Sqlite/Identifiers and Sqlite/Compiler: db/sqlite/compiler.go;
--     Sqlite/Writes: db/sqlite/write.go, without the execution; Sqlite/Ddl: db/sqlite/migration_sql.go.
--     Sqlite/Tokens and Sqlite/Like say how a statement and a LIKE pattern are read, and
--     Sqlite/Statements which tokens a plan stands for.
--   Orm: what the parts share, of orm/write.go, orm/manager.go, orm/mutation.go and orm/descriptor.go.
--     Orm/Save: orm/save.go; Orm/Writes: orm/write.go and orm/mutation.go; Orm/Dynamic: orm/dynamic.go;
--     Orm/Fields: orm/field.go and orm/change.go; Orm/QuerySets with its child Terminals, and
--     Orm/Evaluations: orm/manager.go. Orm/Rows and Orm/Tables say what a row and a table hold.
-- A function has the name of the Go function with underscores; an exported function and a method have no
-- prefix. The other child modules hold the lemmas, and those named Examples concrete runs.
--
-- How the code is read. A Go string is a list of bytes. A map is an association list, and a set of keys
-- is a list; where the program iterates over a map in no fixed order, the list has one order, and the
-- theorems hold for every list. Values are copied, so Clone only fills in what it fills in. A function
-- that returns an error has the type Outcome, whose third value, stuck, stands for fuel that has run out
-- or a panic. The database, the context and the reader of the history are not part of the code: they are
-- functions of all events so far (Environment), or a given answer. The Unicode tables of the Go library
-- are a parameter (Unicode). A descriptor, a mutation that an input builds, and the backend of a manager
-- are parameters; the backend has a state of its own, and a function that calls it passes the state on. A
-- pointer to a model is the model, which the function returns. The goroutines that share an evaluation
-- state take steps in any order.
--
-- Fuel. The loops of planForward and planBackward run on the number of candidates, of which each round
-- removes one. The collection of candidates and the search for cycles run on the number of nodes, since
-- each level of their recursion enters a node that was not entered before.
--
-- A migration's execution is a trace of events (Migrations/Executor/Transactions). What a transaction
-- leaves in a database that has answered a call with an error is the database's own matter: the trace
-- tells which calls were made and what they answered.
--
-- Not modelled: a panic of the code that scans a row for All, after which the evaluation would stay
-- marked as running; the text of error messages and the information field of validation errors, the JSON form
-- and hash of a schema, the execution of statements and transactions through database/sql, code
-- generation, and the conformance tools.
mod Base
pub mod Ir
pub mod Migrations
pub mod Query
pub mod Sqlite
pub mod Orm
