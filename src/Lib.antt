-- ===== src/Lib.antt =====
-- toolsy: a runtime for the tools that a language model calls.
--
-- A registry (registry.go) holds tools by name. A call goes through its gate (requirements, authorizer,
-- policy, environment, validator), runs the tool, and hands each chunk that the tool emits, once it
-- passed the wire contract (chunk_normalize.go), to the consumer's `yield`; a summary counts what was
-- taken. All views of a registry share a runtime state, which counts the running calls. A session
-- (session.go) puts a budget of steps and a run policy before a registry, and RunCall (outcome.go) puts a
-- call's chunks together. A batch (ExecuteBatchStream) runs many calls over one `yield`. Middlewares wrap a
-- tool; an async tool (async.go) answers at once and runs in the background. Beside them stand the
-- truncation of a chat history, the check of read-only SQL, the output of sandboxed processes, and tools
-- that reach outside: a client of MCP servers (mcp), HTTP requests (toolkits/httptool) and code in a
-- sandbox (exectool).
--
-- The files, and the code that they model:
--   Prelude: the names that all files share, tests on numbers, lists that native numbers measure.
--   Errors: errors.go and the error constructors of policy.go and control.go. An error is a sentinel, a
--     text, a wrapper or a *ToolError; `is` and `as_tool_error` are errors.Is and AsToolError.
--   Chunk: toolsy.go (Chunk), envelope.go, control.go; Chunk/Wire: tool_error_wire.go and NewErrorChunkFromErr
--     of middleware_error_formatter.go; Chunk/Prepare: chunk_normalize.go; Chunk/Control: YieldControl.
--   Tool: tools, inputs, requirements, contexts. The run of a tool is a `Script`: it emits a chunk and goes
--     on by what `yield` returns, starts background work, and ends with an error or nil, or panics. The
--     Execute of a tool is any function to scripts; Tool/Run runs a script against a consumer with a state.
--   Policy: policy.go, requirements.go (hasRequirements), and the two checks of registry.go.
--   Registry: registry.go, Build, GetTool, Has, Subset, the runtime state; Registry/Execute:
--     executeWithSummary and what it calls, one function for each; Registry/Iteration: ExecuteIter.
--   Snapshot: state_codec.go; Snapshot/State and Snapshot/Decode: state_api.go, the state of a session and its
--     snapshots; Snapshot/Checkpoint: session_binding.go, ImportSnapshot and NewSession.
--   CallParser: callparser.go, the normalized parts; CallParser/Calls: the one call that is extracted.
--   TextProcessor: textprocessor/truncate.go, with runes as the bytes that encode them; TextProcessor/Reading:
--     its limited reads. Bytes: the trimming of texts.
--   Views: registry_view.go, View, the snapshot and RestoreView.
--   Batch: batchYieldGate, handleBatchToolError, runBatchStreamWorker and the end of ExecuteBatchStream.
--   Session: session.go, runpolicy.go, ValidateRunEnvSession of state_api.go; Session/Outcome: outcome.go.
--   Middleware: middleware_budget.go, WithErrorFormatter, WithRecovery; Middleware/Truncate:
--     middleware_truncation.go; Middleware/Idempotent: middleware_idempotency.go.
--   Async: async.go. Manifests: manifest_set.go. History: history/semantic_truncation.go.
--   Sql: internal/sqlutil/readonly.go. Sandbox: internal/sandboxfs, the buffers and the result of a run;
--     Sandbox/Workspace: NormalizeRelativePath of workspace.go; Sandbox/Files: its CanonicalizeFiles.
--   Mcp: mcp/content.go, mcp/policy.go; Mcp/Call: the call of a tool in mcp/client.go, whose request, server
--     and loop are steps of one relation; Mcp/Cursor: mcp/iterators.go.
--   Http: toolkits/httptool, hosts.go and the host policy of transport.go; Http/Address: IsBlockedIP, url.go,
--     security.go and the checks of client.go; Http/Dial: SafeDialTransport; Http/Request: doGET, doPOST and
--     MapToolkitReadError of read_helpers.go.
--   Exec: exectool/tool.go, the tool that runs code in a sandbox.
--   Samples and the Tests of a part: a small host at which the definitions are run.
-- The other children of a part hold its proofs and are named for what they prove.
--
-- State is passed on explicitly. A consumer is a function from its state and a chunk to its new state and
-- its error, so that every theorem about a call holds of any consumer; `ctx.Err()` at the n-th chunk is a
-- function of n. A batch is a relation of steps at its gate, between any two of which a call may abort the
-- batch or suspend it and the context may end; a worker is a function made of the same steps, whose
-- parameter is what the others do between two of its own. The redirects that a server answers are followed as the
-- HTTP client follows them, each one after the check of client.go.
--
-- Numbers and fuel: the counter of a session wraps at 2 ^ 64 and is compared as a signed word. The other
-- counters (chunks, bytes, running calls) are unbounded, which is what they are below 2 ^ 63. The SQL
-- scanner runs on fuel, one more than the length of the query, since each step takes a byte; that the
-- verdict never runs out of it is a result below. The decimal digits of an index run on fuel, one more than
-- the index, which has fewer digits. The pagination of a server runs on the count of pages, which suffices
-- where the pages come to an end. A request is followed for at most nine redirects, since the check
-- refuses the tenth. All other loops go over a list.
--
-- Parameters: the JSON encoding and decoding, MIME parsing and the wording of messages for the model (a
-- Codec), the text of a summary (a Host), what a host's tools, policies, authorizers, validators,
-- budgets, inspectors, counters and summarizers do; the hashes and the sorting of a view (a Digests);
-- the parse of URLs, the resolver and the server of a request, the URL that a redirect leads to, the
-- upper case of a query, and the transport of MCP.
--
-- Not modelled: durations and timers, deep copies (values need none), logging and tracing, the typed
-- adapters over reflection, JSON schemas, the transports and the handshake of MCP, the adapters to processes
-- and services, the toolkits but for HTTP, and the code generator.
pub mod Prelude
pub mod Errors
pub mod History
pub mod Sql
pub mod Chunk
pub mod Tool
pub mod Policy
pub mod Registry
pub mod Session
pub mod Batch
pub mod Bytes
pub mod Middleware
pub mod Async
pub mod Manifests
pub mod Sandbox
pub mod Views
pub mod Snapshot
pub mod TextProcessor
pub mod CallParser
pub mod Mcp
pub mod Http
pub mod Exec
pub mod Samples
