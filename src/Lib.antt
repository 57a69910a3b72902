-- ===== src/Lib.antt =====
-- Verification of zoa, a runtime in Go for functions that call language models: what it stores in
-- SQLite, how its tasks run and are canceled, which settings and keys they use, and what its tools
-- cut their output to.
--
-- The parts and how they interact. Messages for an agent come in through the gateway
-- (hub/util/gateway), which queues them in a table. A pump, a task that the runtime (runtime) spawns
-- again and again, claims one message after the other under a lease, has it processed, and writes the
-- reply to the outbox in the transaction that closes the message; internal/reliable drives one such
-- job. Clients poll the outbox. Conversations are trees of messages in a database of their own
-- (conversation/db), with named refs that a runner leases while it appends.
--
-- Which file models what:
-- - Base: the shared names. Base/Lists has the SELECT, UPDATE and COUNT of the statements on a table,
--   which is the list of its rows. Base/Text has Go strings, as lists of code points or bytes.
--   Base/Stamp has the texts that time.RFC3339Nano writes, as the seconds and the bytes of the
--   fraction, and how SQLite compares them. Base/Sql has database/sql: a statement takes the next
--   entry of a list of faults and fails with it or has its effect; a transaction whose body or commit
--   fails restores the tables (runtime/task_context.go: SqlExec, SqlQuery, SqlTx). Base/Sql/Laws and
--   Base/Sql/Outcomes have the rules for proofs about them.
-- - Gateway/Tables, Inbound, Outbox, Complete: hub/util/gateway/state.go, one definition per function,
--   with the function's name (claimDueInboundID is claim_due_inbound_id). Gateway/Retry,
--   Gateway/Polling and Gateway/Pump: the retry policy, the polling and the pump of
--   hub/util/gateway/functions.go. Gateway/Invariant, Claiming, Closing, Due and Gateway/History
--   hold the proofs; Gateway/History/Step has the calls that a history is made of.
-- - Gateway/Inputs: hub/helpers.go, and what recv and processChatMessage read out of their inputs.
--   Gateway/Recv: gateway.recv; what the spawned pump and others do before it counts is an argument.
--   Gateway/Slash: the slash commands, on texts of bytes.
-- - Credentials: internal/keys/keys.go (Keys) and internal/agentloop/model (Models); Models fills in the
--   record that the chat's settings take.
-- - Reliable: internal/reliable/job_completer.go, over any state and any callbacks.
-- - Conversation/Tables, Nodes, Refs, Leased: conversation/db (schema.go, node.go, ref.go, lease.go,
--   leased_ref.go). Conversation/Tree is about the nodes, Conversation/Effects and Moves say what each
--   operation does, Conversation/History is about sequences of calls, Conversation/Exclusion and Cas
--   about leases and about the comparison of hashes. Conversation/Standing is about the chain at a
--   ref while others use the database.
-- - Conversation/Executor, with Calls and Loop: Run, runLoop and finish of conversation/executor.go, the
--   types of internal/agentloop/llm/types.go and the tools' registry. Each helper is what follows one
--   call in the body of runLoop and gets the rest of the turns as a function. Transcript says what a
--   run may add; Grows, Turns and Talk have the proof.
-- - Runtime/Tasks: spawning, cancellation and the steps of runTask in runtime/task_manager.go. What a
--   goroutine does under the manager's lock is one step; a list of calls is an interleaving.
-- - Runtime/Pumps: registerPump, runPumpLoop, stopAllPumps and Close of runtime/task_manager.go. A step
--   is what one goroutine does; a runner has started, or waits for the one that it replaces.
-- - Runtime/Log: runtime/log.go, the table of the tasks. Runtime/Log/Schema is its Init, with the
--   migration; Runtime/Log/Sequence is MaxTaskSequence, and Runtime/Log/Fresh the ids of new tasks.
-- - Runtime/Registry: runtime/registry.go. Runtime/Startup: Init of runtime/task_manager.go.
-- - Tools: internal/agentloop/tools. Truncate, Head, Tail, Suffix and Lines are truncate.go; Bytes has
--   what the tools ask of bytes; Args is types.go; Paths is path.go; Files has the calls on files, Edit
--   is edit.go and write.go, Read is read.go; Buffers and Commands are bash.go, grep.go and find.go. A
--   text is there the list of its bytes.
--
-- State and time. A definition that changes state takes it and returns it. Clock readings are
-- arguments, in nanoseconds; where the source reads the clock twice in a row for one statement, one
-- argument stands for both. Numbers are natural; where the source's number can be negative it is an
-- integer, and its sign is looked at where the source does.
--
-- Bounds and fuel. claimDueInbound tries three times, as in the source. The pump's loop counts down
-- from the limit. The executor's loop counts down from the turns that are allowed. LoadChain's recursive query takes as many steps as there are nodes: a step leads
-- from a node to an older one. Cancel's loop has one round for each live task and one more: a task
-- enters the queue through its one parent, when that is visited for the first time.
--
-- Parameters. What an executor meets is the record World: the model, the tools, the clock and the
-- calls of others on the database, among them those that renew its lease, each as a function of the
-- turn and the place in it. encoding/json is a record of functions; processInboundMessage, which runs a chat or
-- answers a slash command, is a function from the message to a reply or an error; SHA-256 is a
-- function on texts. The configuration of a pump is a type with a comparison. strconv.Unquote and
-- strconv.Quote are functions on texts. What is relied on of SHA-256 and of the encoding of a message
-- is the record Hashing of Conversation/Tree/Sound; what the task log relies on of encoding/json is
-- the record Restores of Runtime/Log/Stored.
--
-- Not modelled: the HTTP clients of the language models, Slack and the terminal, the command line,
-- logging and traces, which are I/O; what the programs print that the tools of bash.go, grep.go and
-- find.go start, and where these programs are found; the grace period of an executor's Stop; ls.go;
-- what a write that fails leaves in a file. Of the gateway, the requests of the trace commands and
-- the tools, the lease and the executor of a chat; of the runtime, the inputs, outputs and
-- conversations of tasks and the waiting of Wait are left out; so are the limits of the machine's
-- integers, which ids and attempt counts do not reach.
pub mod Base
pub mod Conversation
pub mod Credentials
pub mod Gateway
pub mod Reliable
pub mod Runtime
pub mod Tools
