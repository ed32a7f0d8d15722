-- ===== src/Lib.antt =====
-- The Python backend: its agent runtime (one execution plans with a language model, runs the tools
-- that the plan asks for, may reflect on their results, and answers, while a client reads its events),
-- the platform that runs the tools, the retrieval over documents, the chat turns that are kept in the
-- database, and the rate limiter in front.
--
-- The program's parts, all under backend-python/app/ai/agent unless said otherwise, and the files that
-- model them:
--
--   models, exceptions.py        Agent/Models (plan, config, context, request, response, events,
--                                ai/tools/schemas.py), Agent/Exn
--   models/state.py, state       Agent/State: the state record and the operations of the state manager;
--                                State/Lifecycle (which changes of status are accepted), State/Budget
--   scratchpad                   Agent/Scratchpad (entries and messages), Scratchpad/Store, Scratchpad/Messages
--   models/events.py, streaming  Agent/Publisher: event factories with their checks, the publishers
--   retry, app/core/retry.py     Agent/Retry; Retry/Attempts (how often, and with which pauses)
--   executor/result_aggregator   Agent/Results; Results/Names
--   executor/dependency_resolver Agent/Resolver: Kahn's algorithm by levels; Resolver/Sets, Rounds,
--                                Distinct, Unique, Fuel, Ends, Order
--   executor/tool_runner.py      Agent/Runner; Runner/Bracket (the events of one tool run)
--   executor/llm_step.py,        Agent/Answer: streaming, and precomputed text as tokens;
--     finalizer.py               Answer/Tokens, Answer/Words
--   planner                      Agent/Planner; Planner/Allowed (which tools are offered)
--   reflection                   Agent/Reflection, Reflection/Parse; Reflection/Rules
--   executor/agent_executor.py   Agent/Executor: run is cut into prepare, cycle, act, settle,
--                                stop_at_limit, report and cleanup; Executor/Counters and Rounds (the
--                                cycle counter), Executor/Outcome (the events at the end);
--                                Executor/Single (execute_plan, execute_step), Single/Left
--   runtime/default_agent.py     Agent/Default: run and stream; Default/Events, Cleanup, Rounds and
--                                Duplicate on whole executions
--
--   The other parts, under backend-python/app:
--
--   ai/tools                     Tools/Schema; Tools/Validator, with Validator/Conforms (which arguments
--                                conform) and Exact; Tools/Registry; Tools/Executor, with
--                                Executor/Guarded and Answers; Tools/Echo, Tools/WebSearch
--   ai/documents/chunkers        Documents/Segments, Pages and Chunker; Chunker/Pieces and Whole
--   ai/rag                       Documents/Context, with Context/Longest; Documents/Prompt;
--                                Documents/Ask (retriever and service), with Ask/Grounded
--   services/chat_service.py,    Chat/Store (the tables, db/chat.py), with Store/Sequence; Chat/Errors;
--     max_tokens, usage_service, Chat/Turn; Chat/Summary (the summaries), with Summary/Same;
--     quota_service, db/chat.py  Chat/Admission (the guards of all turns); Chat/Complete (complete_chat), with
--                                Complete/Appended, Rows, Replay, Resent, Gapless and InTurn; Chat/Stream
--                                (prepare_stream, stream_chat), with Stream/Frames, Rows, Tells and
--                                InTurn; Chat/Usage, with Usage/Capped; Chat/Sessions, with
--                                Sessions/Owned
--   services/tool_chat_service   Chat/ToolCalls (its data), Chat/ToolLoop (_run_tool_loop, over Tools/Executor),
--                                with ToolLoop/Dialogue, Asked and Guests; Chat/ToolChat (complete_chat), with ToolChat/InTurn
--   middleware/rate_limit.py     Limits/Window, with Window/Log (the specification), Refines and Waiting;
--                                Limits/Requests, with Requests/Separate (whose bucket)
--
-- How they interact. The executor creates the scratchpad of its execution id, asks the planner for a
-- plan in each cycle, gives a plan's tool steps to the runner (which orders them by the resolver and
-- retries each call), records the results in the scratchpad, may ask the reflection engine, and lets the
-- finalizer answer. Every part publishes events; the runtime reads them from the queue.
--
-- How it is modelled. A coroutine is an action (Agent/World): a function from the world to a result and
-- the next world, where the world is what an execution shares and changes: the scratchpad store, the
-- publisher, the number of calls made to the outside and the pauses slept. An exception is a value of
-- Exn, and what was written before a raise stays written. The files named Kept prove what each part
-- leaves alone, with the rules of World/Keeps; World/Triples and World/Ensures have the rules for what
-- holds after an action that returns or raises, World/Streamed for what stands in the queue.
--
-- The other parts pass their state on explicitly: the registry and the limiter's buckets are
-- dictionaries in insertion order, and a handler, a search client, a model or a vector store is a function that
-- takes a world of any type and leaves one. The tool platform meets the agent runtime in its results:
-- Executor/Answers shows which of them the retry policy tries again.
--
-- What is not under the source tree, or only called, is a parameter, the record Env of Agent/Env: the
-- provider's three calls, the tool executor, random hex digits and draws, the rendering of the two
-- prompt templates, the text of a tool's data. Each call to the outside has a number, so that two calls
-- with the same arguments may differ. A provider's stream is the list of the attempts to read it, each
-- with the time since it began.
--
-- Bounds and fuel. Delays are whole milliseconds, counters are unbounded as in Python. The executor's
-- loop has max_iterations passes; Executor/Rounds shows that this is enough, since each pass begins one
-- more cycle. The resolver's levels run on fuel, two more than there are steps, and Resolver/Ends
-- shows that this is enough. The chunker's loop runs on fuel too, one pass more than the text has
-- characters, and Chunker/Whole shows that it ends with a result. The tool loop counts its passes down, as the
-- source's range does.
--
-- Not modelled: the branches for parallel tools (the runner is the one with parallel_tools_enabled off),
-- cancellation at a point that the environment does not choose, log lines, the free-form metadata of entries and responses, fields that no modelled code reads
-- (temperature, provider, caller). Lower-casing is Python's on ASCII.
-- The final answer reads the scratchpad from the store by its id, where the source holds the object, so
-- executions of one id at the same time are not covered. A chat's database is what one
-- request sees of it, without transactions, and it answers; after an IntegrityError it cannot be used any
-- more, which matters in streams. A client that closes its connection while a frame is sent, the ids of
-- responses and the log are left out, and so are chats without persistence. The rest of the backend (the
-- unified chat service, providers, document parsers, embeddings, routers) is not modelled.
pub mod Prelude
pub mod Json
pub mod Agent
pub mod Limits
pub mod Tools
pub mod Documents
pub mod Chat
