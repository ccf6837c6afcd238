-- ===== src/Lib.antt =====
-- A model of the deterministic core of EAG, a governed engineering agent: the ledger of governed
-- executions, the approvals of commands, the ledger of replay claims, the sessions, the graph of
-- tasks, and the workers and the scheduler that hands tasks to them.
--
-- GovernedExecution models src/eag/governed_execution. State has the states, stop reasons and
-- the matrix of legal transitions (enums.py, models.py); Budget the limits and counters
-- (ExecutionBudget); Reason and Failure the test of stop reasons and the ValueErrors with their
-- messages; Ledger the evidence, the records, the context and the validation of its history
-- (GovernedExecutionContext.__post_init__ and _validate_history); Machine the state machine
-- (state_machine.py), whose transition charges a budget, appends a record and publishes events;
-- Authority the authority for one mutation (authority.py). A context is made by make_context
-- alone, which stands for the constructor; the clock's reading is the argument `now`, and an
-- event bus is the function that tells which events' handlers return. The metadata of a reference
-- of evidence, which the validation compares, is a number that is the same exactly for mappings
-- that are equal; the context's own metadata is neither read nor compared and is left out.
--
-- GovernedExecution/Replanning models replanning.py: the tests of its input, the policy that
-- decides whether an execution may go into a second iteration, and the test that nothing stale
-- is used in it.
--
-- Approval models src/eag/approval: Models (models.py, errors.py, events.py), Store (store.py)
-- is the contract of a store as a record of operations with laws, Store/Memory the store in
-- memory, Manager the manager (manager.py) over any store, and Coordinator (coordinator.py). A
-- call of the manager takes its state and returns it with the answer, since the code changes the
-- store before some of its exceptions; Manager/Answers has the table of what a call does to one
-- request, by its status, and Manager/Lifecycle the histories of calls. The type of commands and
-- its equality, the readings of the clock and the identifiers are parameters. What the handlers of
-- the event bus raise over an event is a field of the manager.
--
-- Replay models src/eag/governed_session/ledger.py: Digest its tests of texts, Record the record
-- with its payload, Disk what it uses of the operating system, of json and of hashlib, as
-- parameters with their documented behaviour, and Ledger the claims and reads. The lock of the
-- root makes calls follow each other; whether the root and the lock can be had is an argument of
-- a call.
--
-- Session models src/eag/session: Models (state.py, failures.py, timeline.py), Metrics
-- (metrics.py), Record (the record ExecutionSession of models.py with its tests), State and Runtime
-- (runtime.py), whose calls take their readings of the clock as an argument. The handlers of the
-- event bus are taken to return.
--
-- Graph models src/eag/task_graph. Links has the maps that the graph's constructor fills, Starts
-- the nodes that may start, Search its search for cycles (_check_cycles with its nested dfs),
-- TaskGraph the constructor, add_node, add_edge, roots, leaves and ready, and
-- TaskGraph/Topological its topological_sort. Each dfs takes fuel for the depth of its calls; it
-- calls itself for unvisited nodes only, so the number of nodes is enough. An edge carries the
-- identity of its object, since the search for duplicates compares objects.
--
-- Workers models src/eag/workers: Health (health.py), Registry (registry.py), Manager
-- (manager.py), Matcher (matcher.py), Delegation (delegation.py) and Runtime (runtime.py). A
-- dictionary that is only read and written by key is a function; the registry, whose order
-- counts, is a list of pairs. The manager makes an instance of a worker when it is first asked
-- for, so its operations return the manager. What a worker does with a task is a parameter of
-- execute: the result that it returns, or the message of the exception that it raises. What the
-- handlers of the event bus do is a field of the runtime: they may raise over any event. Scores
-- are whole numbers.
--
-- Scheduler models src/eag/scheduler: Queue (queue.py) is the queue of ready tasks in the order
-- of their priorities, Dispatcher (dispatcher.py) finds and assigns a worker for a task of the
-- graph.
--
-- Execution models src/eag/execution_graph: Graph and Artifacts (graph.py), Batch (executor.py),
-- Runtime (runtime.py) and Messaging (messaging.py). The loop over the batches takes fuel for
-- its rounds; one round more than there are nodes is enough, since each round settles one. What
-- the workers do is a function of the runtime, the worker and the task.
--
-- Kernel models src/eag/plugins/manager.py (Plugins with one plugin, Plugins/All with all of them)
-- and src/eag/kernel/kernel.py (Lifecycle). System has the states, the policies and the events,
-- and as a parameter the calls that leave the two classes: each handler of an event and each
-- plugin's load and unload may raise, and may answer otherwise the next time.
--
-- Prelude has what the parts share: results with do blocks, native lists and tests, a stable
-- sort, sets of identifiers, the text functions, and integers.
--
-- Not modelled: the scheduler's loop, the gates over the ledger of replay claims, the audit and
-- promotion stores, the event bus, the built-in plugins, the planner and the review, which
-- are left to an extension of this library; and what reads or writes files, runs processes, or
-- talks to a language model.
pub mod Prelude
pub mod GovernedExecution
pub mod Graph
pub mod Workers
pub mod Scheduler
pub mod Execution
pub mod Approval
pub mod Kernel
pub mod Replay
pub mod Session
