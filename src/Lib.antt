-- ===== src/Lib.antt =====
-- A model of the commerce analyst agent: its approval-gated operations, the stores around them, the
-- retail graph that drives the model and its tools, and the context that it is given, with the
-- theorems that make them correct.
--
-- An analyst proposes a command on investigation tasks, seller risks or alert rules; an approver who is
-- not the requester decides, and an approval issues a grant that is signed with HMAC and expires after
-- ten minutes; the approver executes the proposal once with that grant. `Operations` models this
-- workflow over its in-memory store. A trace records what an attempt does, a private store keeps the
-- model's turns, and an evaluation store follows the attempts of an experiment. A retail run goes round
-- a graph of nodes: it builds a context within a token limit, calls the model, runs the tools that the
-- model asks for, and deletes the private turns of its attempt at its end; after an exception it starts
-- again from the last checkpoint. An investigation is the other form of a run: the model plans steps,
-- each step is answered by a query that may be repaired, and a report or a stop ends it.
--
-- Files and sources (paths from the repository's root):
--   Operations/Contracts, Commands, Errors  src/commerce_agent/operations/contracts.py, commands.py,
--     errors.py: records of the same names and their validators as Boolean tests
--   Operations/Canonical  _canonical.py: `canonical_value`, `canonical_command`
--   Operations/Approval  _approval.py: `issue_grant`, `verify_grant`, the key ring
--   Operations/References  _store.py: the reference validator and the stored records
--   Operations/State, Preview, Proposals, Decisions, Execution  _memory.py: `InMemoryOperationStore`
--     as a record of dicts and `preview_command`, `create_or_get_proposal`, `decide_once`,
--     `execute_once`, `apply_command` on it
--   Operations/Workflow  workflow.py: `propose`, `decide`, `execute`
--   Operations/Execution/Tasks, Cases, Versions, Atomicity, Targets, Conflicts  what an execution
--     does
--   Operations/Invariant  what every reachable store satisfies
--   Operations/Backtest  _backtest.py: `run` and its registry
--   Evaluation  src/commerce_agent/evaluation/_memory.py and contracts.py
--   Trace  src/commerce_agent/trace/_memory.py, module.py and contracts.py
--   Turns  src/commerce_agent/model/_turn_store.py
--   Retry  src/commerce_agent/model/_retry.py
--   Model  src/commerce_agent/model/contracts.py
--   Context  src/commerce_agent/context_builder/contracts.py
--   Context/Checks, Trimming, Builder  context_builder/builder.py: `_validate_request`, the loops of
--     `build`, and `build`
--   Context/Dropping, Compressing, Keeping, Assembly, Promises  what `build` keeps and returns
--   Orchestration  src/commerce_agent/orchestration/contracts.py
--   Orchestration/Retail  retail_graph.py: the state, the limits and the dependencies
--   Orchestration/Retail/Nodes  the nodes, `_prepare_context` to `_finalize`, as `run_prepare_context`
--     to `run_finalize`, and `_outcome`
--   Orchestration/Retail/Graph  the edges of `__init__` and `run`, and _checkpoint.py
--   Orchestration/Retail/Progress, Limits, Retries, Cleanup, Resuming  what runs do
--   Orchestration/Day4  `_run_day4`: its state, and the contracts of sql_reasoning and query_engine
--     that it exchanges
--   Orchestration/Day4/Ends, Queries, Reports, Runs  `_finish_day4` and the saves, the loop over the
--     steps, the loop of the report, and the whole run
--   Orchestration/Day4/Budget, Ending, Sound, Chains, Candidates, Rounds, Loops, Reporting,
--     Submitting, Keeping, Opening, Outcomes  what the loops and the run do
--   RunErrors  the exceptions of these parts
--   Prelude  equality, dicts, lists, results; Tests  runs on concrete inputs
--
-- A method takes the store and returns its result or error beside the store that it leaves. The locks
-- make each method of a store one step; a call of the workflow is one step too, though the source may
-- switch tasks between its reads and its write. Hashing, HMAC, base64, JSON text, uuid5 and the text of
-- values are the fields of `Ports`, and nothing is assumed of them but what a theorem's hypothesis says.
-- Readings of clocks, nonces and uuid4 are arguments. A UUID is a number; an instant is a number of
-- microseconds; a ratio is a number of millionths. The retail graph is run on fuel, one unit a node:
-- six nodes a model call and nine are enough, since every round of six counts one model call. The two
-- loops of an investigation run on fuel too, one unit a round: two units a model call and two are
-- enough, since a round that makes no call executes what the call before it has asked for. Every other
-- loop of the modelled code runs over a list, and its model is structural. The one approximation is in
-- `Backtest.evaluate`, which rounds a quotient once where the source rounds it to 28 digits first; the
-- two agree for denominators below 10^21. A zero ratio with a minus sign is taken as 0.
--
-- The graph's library runs a node, merges the updates it returns, keeps a snapshot and follows an edge;
-- `ainvoke` is that run over the nodes and edges of the source. A state holds the values whose JSON text
-- the source stores. The model gateway, the tools and the turn store act on a world `W`, a parameter, as
-- fields of `RetailGraph`; the registry, the token estimator, the canonical JSON and the audit hashes
-- are fields of `BuilderPorts`. A list's index that is the last of its identity is written as a later
-- element's lack of that identity. The checkpoint of an investigation is the cell `saved` of
-- `Kept` beside the world: a write that succeeds replaces it, a write that raises leaves it. The hook
-- that interrupts an investigation for tests is empty.
--
-- Not modelled: the PostgreSQL adapters, the BIRD tracks, the tool adapters, the query engine, the SQL
-- reasoner, the model gateway, the seller reference registry, the HTTP interface, and
-- the length and pattern limits of single fields.
pub mod Prelude
pub mod Operations
pub mod Evaluation
pub mod Trace
pub mod Turns
pub mod Retry
pub mod RunErrors
pub mod Model
pub mod Context
pub mod Orchestration
pub mod Tests
