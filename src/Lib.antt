-- ===== src/Lib.antt =====
-- A model of the agent orchestration system (src/agent_orchestrator): a supervisor plans a task,
-- specialists work on the subtasks in parallel batches, a reviewer judges the result, and humans
-- approve, correct or take over where the graph escalates to them.
--
-- Common holds the shared helpers: Boolean tests on native numbers, lists measured by them,
-- texts, Python's dict as an association list in insertion order, and SQL's clauses on rows.
-- Schemas is schemas.py, Config is config.py, Memory.Models is memory/models.py.
-- Graph is graph/. Graph.State is state.py: the state dictionary as a record, an update as a
--   record of optional writes, and the reducers. Graph.World holds what the graph asks of the
--   outside, as fields of a record: agents, memories, the clock, the human's decision. A superstep
--   is given the answers it gets; a call that raises is `none`. Graph.Nodes has a module per group
--   of nodes of build.py, each node a function from the state to its update and its calls of the
--   working memory. Graph.Routing has the routers and edges, and Graph.Run the supersteps: one
--   node, or a batch whose branches run on the states that were sent and are merged in order.
--   `Reach` are the runs that some answers lead to, and the invariants are by induction on it.
--   Graph.Run.Ends has an invocation: supersteps up to the next interruption, on fuel.
-- Tools.Registry is tools/registry.py: the registry as a record that `invoke` takes and returns.
-- Tools.Files is a file system with links, and Tools.Builtin is tools/builtin.py over it: a tool is
--   a function from the file system to an answer or exception and the file system after it. The
--   subprocess, the database, the name service and the web are parameters.
-- HumanLoop is human_loop/: the approval queue over a Redis server and a JSON codec, which are
--   records of operations with the laws that the queue relies on.
-- Agents.Base is agents/base.py, and Supervisor, Reviewer and Clarifier are the agents that call a
--   model once. Agents.Specialists is agents/specialists.py: one attempt at a subtask as a loop over
--   at most four turns, with the model, langchain's check of arguments and the clock as parameters.
-- Memory.Working is memory/working.py: hashes of a Redis server that is a parameter.
-- Memory.LongTerm is memory/long_term.py: the collection as a dict, the search and the floating
--   point factors of a memory's score as parameters. Memory.Extractor is memory/extractor.py.
-- Tracing is tracing/: prices, the tables of the store as lists of rows, the queries of the
--   dashboards, the recorder, and the replay over an engine that is a parameter.
-- Runner is run.py: the loop that submits an interruption to the queue, waits, and resumes the
--   graph, which is a parameter, with the decision. Runner.Terminal is the same loop where the
--   decision is typed, and Runner.Traced is `run_traced_task` of tracing/recorder.py, which joins
--   the loop to the trace store. Runner.Compiled gives the loops the modelled graph: the invocations
--   of Graph.Run.Ends, each with the answers it gets and the decision that it is resumed with.
-- Api is api.py: the endpoints on approvals, memories, traces and checkpoints.
-- Worker is tasks.py: an attempt with a registry and an agent that are built for it.
-- Examples applies the theorems to small concrete runs.
--
-- Confidences and scores are natural numbers of millionths, times are natural numbers of the
-- clock's unit. Loops are structural recursion; `while` loops that wait run over the list of what
-- they see. Two loops run on fuel: an invocation of the graph, and the prompts on a terminal, whose
-- fuel is one more than the number of lines, each prompt taking one at least.
--
-- Not modelled: the engine's checkpoint stores and the OpenTelemetry export, which are third-party
-- code that the program only constructs; `build_app`, the arguments of the command line and the
-- wiring of Celery; the printing of values as JSON; the user interface and the demonstration.
-- Threads that share an agent or the registry's log are not modelled either: a batch's branches run
-- one by one.
pub mod Common
pub mod Schemas
pub mod Config
pub mod Memory
pub mod Graph
pub mod Tools
pub mod HumanLoop
pub mod Examples
pub mod Agents
pub mod Tracing
pub mod Runner
pub mod Api
pub mod Worker
