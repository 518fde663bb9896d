-- ===== src/Lib.antt =====
-- Gestalt, a network of agents around one orchestrator, in the package gestalt/.
--
-- A cycle starts with a request (gestalt/graph.py). The orchestrator plans a route of specialist
-- agents from the objective and the statistics, and the graph visits the orchestrator and the next
-- specialist in turn until the route is empty; then the orchestrator writes the summary of the
-- cycle. Each visit is one `run` of an agent (gestalt/base_agent.py): it reads the blackboard, calls
-- the agent's own logic, stores what that gives and returns a new graph state. Agents signal one
-- another through an event bus, which asks for an approval that the orchestrator issued.
--
-- Prelude     lists, texts, integers and sorting, shared by all; nothing of the program.
-- Python      the language: exceptions as values (Exec), dictionaries, values of any type, floats.
-- Stats       gestalt/stats.py. Levels and Model are its types, Policy the methods of GestaltStats,
--             Snapshot the methods that read floats, Summary `summary`; Tiers, Optimizer and Bounds
--             hold theorems.
-- Protocol    gestalt/protocol.py. Enums, Models and Reports are its types, Validation the
--             constraints that pydantic checks when a model is built, with Constraints for the models
--             of the specialists.
-- Config      gestalt/config.py: the settings models; Environment reads the file and the variables, Load
--             builds the settings; Loading holds theorems.
-- Events      gestalt/events/bus.py. Memory and Redis are the two buses, Interface the choice
--             between them; Permission, History and Listing hold theorems.
-- Blackboard  gestalt/blackboard.py: the tables and the queries; Lifecycle is how it
--             is opened and closed; Query and Latest hold theorems.
-- Tools       gestalt/tools/base.py (Base), gestalt/tools/registry.py and `execute_tool` of
--             gestalt/base_agent.py (Registry), over any state that tools may reach. Fields reads a
--             payload as pydantic does, Outputs and Outside are the data and the services of the
--             tools, and Implementations the modules of gestalt/tools/implementations: Memory,
--             Metrics, Http, Sandbox, Kubernetes, with `_register_tools` of gestalt/main.py in
--             Catalog. The other modules hold theorems.
-- Runtime     gestalt/utils/time.py, gestalt/utils/ids.py and the container of
--             gestalt/utils/runtime.py.
-- Gateway     gestalt/utils/model_gateway.py.
-- BaseAgent   gestalt/base_agent.py. Artifacts, Context, Outputs, Turn and Services are the methods,
--             Make builds commands and memories; Clock, Failure, Update, Behaves, Carried,
--             ServicesRun and Run hold theorems.
-- Orchestrator gestalt/orchestrator.py. Values, Reasoning, Agents, Cohesion and Turn are the methods
--             and what they use; Score, Distinct, Order, Setup, Steps, Routed, Routing, Finish,
--             Success and Unsent hold theorems.
-- Graph       gestalt/graph.py. Specialist is what the graph asks of an agent, an interface; Plan and
--             Cycle are the steps of a cycle, Ends and Rounds its end, Expiry its approvals,
--             Response the whole of `run_cycle`, Carried what holds of the world throughout.
-- Agents      gestalt/agents: Monitor (with Telemetry), Analyzer, PlannerExecutor, Optimizer,
--             Knowledge, SecurityAudit (with AuditRules), and Prompts, their system prompts.
--             Plain, Auditing, Monitoring, Specialists, Findings, Report and Verdict hold theorems.
-- App         gestalt/main.py. Start is the start and the end of the program, Token the admin token,
--             Handlers the endpoints, Jobs the scheduler, Dsn a helper of gestalt/utils/runtime.py;
--             Cycle assembles the program. Access, Starting, Plans, Visits and
--             Confinement hold theorems.
-- Retry       gestalt/utils/retry.py, which no other module uses.
-- Examples    the theorems at concrete inputs; Doubles is the arithmetic of IEEE doubles, bit by bit,
--             which meets the laws of floats.
--
-- State. A method that writes to its object is an action from the object to a result and the object
-- afterwards, and an exception is a result that keeps what was written before it. `World` holds the
-- blackboard, the bus, the calls that left the program (HTTP requests and shells, `outside`), and
-- counts of the readings of the clock and of the UUIDs that were drawn;
-- `Session` adds the approvals of the graph state, which the orchestrator writes in place while its
-- caller holds the same list.
--
-- Numbers. Integers of the program are ℤ where they can be negative and ℕ where pydantic bounds them
-- below; Python's do not overflow. A float is its bit pattern and its arithmetic a parameter
-- (FloatOps), with the laws that a theorem needs as a hypothesis (FloatLaws), which
-- hold of IEEE doubles (Examples/Doubles): they speak of an integer part only where there is one. A time is a number of
-- microseconds.
--
-- Parameters. `Host` is what comes from outside: the clock, the floats, the equality and the texts
-- of values, and LiteLLM's completion. `Outside` is what the tools use: the coercions of pydantic
-- (Coercions), the answers of the HTTP client and of the shell to the n-th call that goes out, and
-- `Path.resolve`. `Sources` is what the settings are loaded from. `RedisServer` is what the Redis
-- client returns, `DatabaseServer` what SQLAlchemy and the driver of Neo4j do when they are opened. The
-- Neo4j store is a list of relations. SQLAlchemy's tables are lists of rows in the order of insertion,
-- where a taken key fails the commit; the bounds that a database sets on a column are left out. A column
-- of JSON is the value that was written; a stats report is checked again when its JSON is read, and an
-- infinity or a NaN, which JSON has as null, is refused then.
--
-- Loops. `visit` of Graph recurs on the number of nodes that it may still run, as LangGraph does with
-- its recursion limit of 25, and raises LangGraph's error at 0; `retrying` of Retry recurs on the
-- attempts that are left; every other loop is over a list.
--
-- The message of a KeyError is the name in quotes, as of a name that `repr` shows as it is.
--
-- Not modelled: the validation of the single fields of the settings, the routing of FastAPI
-- and the clockwork of APScheduler, the waits of the retries, logging and telemetry. LangGraph's
-- checkpoints and its own validation of states between two nodes are left out. The blocked terms of the
-- sandbox are a Python set, whose order decides only which term an error names; here they are in the
-- order of the source.
pub mod Prelude
pub mod Python
pub mod Stats
pub mod Protocol
pub mod Agents
pub mod Config
pub mod Events
pub mod Blackboard
pub mod Tools
pub mod Runtime
pub mod Retry
pub mod Gateway
pub mod BaseAgent
pub mod Orchestrator
pub mod Graph
pub mod App
pub mod Examples
