-- ===== src/Lib.antt =====
-- spillover is a proxy between a coding client and a model's API. It keeps a conversation within a
-- ceiling of tokens: turns of the middle leave the request and go to an archive, a search over the
-- archive gives a block of long-term memory that is put back, and turns that the client dropped by
-- a compaction of its own are found again. This library models the parts of src/spillover that decide
-- which turns move, where they are kept and what is found again.
--
-- Parts and files:
--   Eviction          src/spillover/eviction/selector.py. `select_for_eviction` with its two passes
--                     as the loop `drain`; Eviction/Passes has the turns that each pass may move,
--                     Eviction/Chosen and Eviction/Contract the policy and that the code follows it.
--   Tokenizer         src/spillover/eviction/tokenizer.py.
--   Json, Runtime     values of `json.loads`, messages and requests; the parts of Python's library
--                     that the code calls, as the records of parameters `Codec` and `Floats`.
--   Storage           src/spillover/storage/schema.sql: the rows and their keys. Storage/Graphs is
--                     kuzu.py, the open connections to the graphs.
--   Facet             src/spillover/facet: the worker (worker.py) with the choice of a type
--                     (classifier.py) and the test for open tasks (tasks.py). Facet/Extract is
--                     entities.py and decisions.py, Facet/Links the graph of
--                     storage/kuzu_schema.cypher with the worker's statements on it.
--   Lifecycle         The memory of a project through all calls that write to it, in any order, as
--                     a step relation: archiving, marking, what was seen, the worker, the decay
--                     and `purge`. Lifecycle/Rules has the rules that an invariant has to satisfy.
--   Decay             src/spillover/decay/scheduler.py: the importance that fades.
--   Plan              src/spillover/budget: plan.py and profile.py.
--   Cli               src/spillover/cli.py: the commands that write settings, `purge` and `stats`.
--   Config            src/spillover/config.py.
--   Eval              src/spillover/eval: dataset.py and recall_at_k.py.
--   Archive           src/spillover/archive/writer.py: `_hash_turn` is `hash_turn`. A message that the
--                     trimming archives has its role and content stored, and no other key.
--   CounterCompact    src/spillover/counter_compact: Detection is detection.py, what was seen and what
--                     is gone; Usage is usage_rewrite.py, Events sse_rewrite.py, Intercept
--                     intercept.py, EnvVars env_vars.py with the environment that the commands of
--                     src/spillover/wrappers build.
--   Proxy             src/spillover/proxy/app.py: RuntimeEnv is the loop over runtime.env, Budget
--                     the sizes (`_ltm_budget_for` too), Forward `_evict_inbound_to_ceiling`.
--   Adapters          src/spillover/adapters: the record `Adapter` is what the proxy asks of one;
--                     Adapters/Anthropic and Adapters/OpenAi are the two classes, with the
--                     readers of responses in their Responses and the loops that both have in
--                     Adapters/Stream.
--   Proxy/Rescue      `_detect_and_rescue` and `_enqueue_facets` of app.py, Proxy/Respond
--                     `_maybe_evict`; their common loop and UPDATE are Archive/Several.
--   Proxy/Retry       src/spillover/proxy/retry.py: attempts, waits and how they end.
--   Retriever         src/spillover/retriever: Retriever/Budget is budget.py, Retriever/Fusion
--                     fusion.py, Retriever/Render render.py, Retriever/Lexical lexical.py,
--                     Retriever/Walks graph.py and causal.py, and Retriever/Answers what their
--                     queries answer over the graph of Facet/Links.
--   Proxy/Middleware  src/spillover/proxy/middleware.py, Proxy/Fallback fallback.py.
--   Proxy/Retrieve    `_retrieve_ltm_block` of app.py. Proxy/Prepare has the steps of
--                     `_handle_request` before the forwarding, Proxy/Unary its answers that are no
--                     streams, Proxy/Streamed those that are, and Proxy/Handler the whole; Proxy/App is
--                     the two routes behind the middleware, and Proxy/Placement `_inject_ltm`,
--                     which only the tests call.
--   Prelude, Text     numbers, tests, lists and texts that the parts share. Tests has fixtures and
--                     examples.
--
-- The trim before forwarding counts tokens with Tokenizer, takes its ceiling from the environment and
-- from runtime.env, and stores each turn with Archive before the turn leaves the request. The
-- detection reads and writes the table `seen_turns` of the same database; the rescue archives what it
-- finds. After a response the selector chooses among the turns of the parsed request, and those are
-- archived and marked as evicted. An adapter is an argument of `maybe_evict`. The ids of archived
-- turns go through the queue to the worker, which gives them their vectors and links them in the graph;
-- the retrieval for a later request reads both.
--
-- How the code is modelled:
--   - State is passed on: a function that writes to the database takes a `Db` and returns one. The
--     environment is a function from names to values, and the request is the record `Payload`.
--   - An exception is `none`. Where the code catches it, the model goes on as the handler does.
--   - Clock, ids of `uuid4` and the writes of other connections between two statements are
--     arguments. Times are milliseconds. Only `archive_raw` by itself lets other connections write
--     between its statements; where the proxy calls it, none does.
--   - JSON printing and reading, digests and floats are parameters, since their code is not here.
--     A theorem that rests on a law of them has it as a hypothesis. The selector's weights are
--     quotients of whole numbers and are compared by cross multiplication; floats give the same
--     order below 2^26 tokens.
--   - Rows that SQL may return in any order among equals come in the order of the table.
--   - All loops run over lists or, in Proxy/Retry, over the attempts that are left: none needs fuel.
--   - Bytes are texts; decoding is an argument of the adapters. The request is printed with its keys
--     in the order of `json_of_payload`.
--   - What the upstream answers to the n-th request of a kind is a function of its body, where
--     `none` is an exception; a stream is the list of its chunks. A response is what the client
--     gets, and `failed` says that its stream ends by an exception.
--   - A name without a value, as `pre_forward_tokens_freed` is in passive mode, is `none`.
--
-- Not modelled: the SQL, vector, text and graph engines beyond the statements of the source, a failure
-- of theirs between two statements of one call, HTTP, the regular expressions of the extractors, the
-- embedding model, the processes that the command line and the wrappers start, metrics, logs, dumps for
-- debugging, printed reports and the benchmarks, which run a live proxy. A stream that the upstream
-- breaks off or the client leaves is not modelled. The steps of Lifecycle are whole calls: two calls on
-- one database do not interleave there.
pub mod Adapters
pub mod Archive
pub mod Cli
pub mod Config
pub mod CounterCompact
pub mod Decay
pub mod Eval
pub mod Eviction
pub mod Facet
pub mod Json
pub mod Lifecycle
pub mod Plan
pub mod Prelude
pub mod Proxy
pub mod Retriever
pub mod Runtime
pub mod Storage
pub mod Tests
pub mod Text
pub mod Tokenizer
