-- ===== src/Lib.antt =====
-- A verification library for langgraph-agents, a fleet of language-model agents behind one inbox.
--
-- A task enters by `/inbox`, waits in a Postgres table, is claimed by a worker and run through the
-- fleet graph: the triager picks a specialist, a rejection goes to the supervisor, an action that
-- needs approval goes to the errand-runner, which pauses for a person's verdict and then makes one
-- request to the MCP gateway; the reporter ends every run. Each agent asks one factory for its
-- model, and the factory decides between the two local services and Claude.
--
-- The files, and the code that they model:
--   Base           lists, options, text as a list of character codes, finite maps
--   State          src/agents/state.py
--   Context        the structlog context variables, and the fields of src/agents/settings.py read
--   Router         src/agents/router.py (`score_route`, `estimate_input_tokens`)
--   Observability  the cost and provenance accumulators of src/agents/observability.py, and its
--                  `LangGraphMetricsCallback` (Observability.Callback)
--   Redaction      src/agents/redaction.py (`assert_emission_allowed`)
--   Llm            src/agents/llm.py (`llm`, `_build_ollama`, `_build_claude`)
--   Queue          src/agents/queue/store.py (`TaskQueue`), its tables, and the task envelope
--                  src/agents/queue/worker.py (Queue.Worker: `_handle_one` and the loop of `run`)
--                  src/agents/queue/approval_post.py (Queue.ApprovalPost) and migrate.py (Queue.Migrate)
--   Inbox          src/agents/api/inbox.py (`post_inbox`)
--   Idempotency    src/agents/idempotency.py (`DedupStore`)
--   Auth           src/agents/api/auth.py (the middleware in front of `/inbox` and `/admin/*`)
--   Approval       src/agents/api/approval.py (`post_approval`)
--   Admin          src/agents/api/admin.py (`approve`, `deny`, `cancel`, `timeout-tier`, `GET /cost`)
--                  Admin.Tasks: `GET /tasks?status=`, `GET /tasks/{id}`, `/dlq`, `/paused-threads`
--                  Admin.Listing: `GET /tasks`, `GET /agents`; Admin.Costs: `GET /costs/today`
--                  Admin.Smoke: `/smoke/start-approval` and src/agents/graphs/smoke.py
--   PausedThreads  src/agents/paused_threads.py (`sweep_paused_threads`, the startup log)
--   Memory         src/agents/memory_store.py (`MCPMemoryStore`) with its tables, entities and
--                  observations; Memory.Search is `_asearch`, `_alist_namespaces` and `abatch`
--   Todos          src/agents/api/todos.py
--   Health         src/agents/health.py (`service_healthy`)
--   Mcp            src/agents/tools/mcp.py (`ALLOWLISTS`, `MCPGatewayClient.call`)
--   ErrandRunner   src/agents/nodes/errand_runner.py (the node and `_verify_approval_token`)
--   Operators      the six operator nodes of src/agents/nodes (the handoff of a finding)
--   Chat           src/agents/api/chat_completions.py (`chat_completions`, `list_models`)
--   Personas       src/agents/personas.py (`load_persona`), whose result the chat takes
--   ToolCatalogue  src/agents/tools/mcp_langchain.py (`build_mcp_tools_for_agent`); its callers'
--                  interleavings are ToolCatalogue.Discovery
--   Evidence       src/agents/nodes/_evidence.py (`gather_evidence`)
--   Reporter       src/agents/nodes/reporter.py (`reporter_node`)
--   Researcher     src/agents/nodes/researcher.py (`_extract_search_terms`, `_STOPWORDS`)
--   Fleet          src/agents/graphs/fleet.py, src/agents/nodes/triager.py and supervisor.py
--
-- How the state corresponds: the process's dicts are the record `Accumulators`, a table is the list
-- of its rows, the graph's state is `FleetState`, and the resume values that `interrupt()` returns
-- are a list of verdicts that may run out, which is a pause. A method of the queue is one SQL
-- transaction, so that several workers are any sequence of these operations (Queue.Store.Steps).
-- Text is a list of character codes, money a number of a fixed unit, a time a number of seconds, a
-- day its ordinal.
--
-- Parameters: HMAC-SHA256 is a function from a key and a message to a hex digest; the gateway's
-- answer, the compiled graph as the worker, `/approval` and `/admin` see it, the Redis client, the
-- JSON codec, the embedding service and the pattern matching of the memory store, the checkpointer
-- that a sweep or a listing walks, the personas, the file system's answers to the smoke run, the
-- answers of the health probe, and the decisions of the language models are arguments.
--
-- Fuel: a run of the graph takes LangGraph's bound on the number of steps as fuel, and running out
-- of it is the error that LangGraph raises (`recursion_limit`). No other definition has fuel.
--
-- Not modelled: the worker's sleeps and notifications, the dump of asyncio tasks of `/admin`, the
-- approval graph, which no route starts, the prompts and the output parsing of the specialists, the
-- writers to Obsidian, Zulip and Pushover, metrics export, the command line client, the
-- sentences of the errand-runner's output, which are constructors with their arguments, a caller of
-- the tool catalogue that is cancelled while it holds the lock, and the error of a second dead-letter
-- row under one id, which ids that are fresh do not meet. Words, blanks and cases are those of ASCII.
pub mod Base
pub mod State
pub mod Context
pub mod Router
pub mod Observability
pub mod Redaction
pub mod Llm
pub mod Operators
pub mod PausedThreads
pub mod Evidence
pub mod Researcher
pub mod ToolCatalogue
pub mod Chat
pub mod Personas
pub mod Reporter
pub mod Queue
pub mod Approval
pub mod Admin
pub mod Auth
pub mod Todos
pub mod Mcp
pub mod Memory
pub mod ErrandRunner
pub mod Fleet
pub mod Health
pub mod Idempotency
pub mod Inbox
