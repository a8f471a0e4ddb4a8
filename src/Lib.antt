-- ===== src/Lib.antt =====
-- nockguard is a firewall between MCP agents and the servers whose tools they call: a proxy that
-- checks each tool call against a policy, limits the rate of the calls, and writes each decision to
-- a signed audit trail. This library models the program's own logic and proves what it promises.
--
-- The files and the code that they model:
--   Base and its children: lists, texts, maps, signed integers and results, shared by all files.
--   Glob: Go's path.Match, which the policy engine calls for each pattern with a wildcard.
--   Policy: internal/policy/policy.go. Types has the structs, Patterns matchPattern, validateGlob and
--     isGlobPatternDisjoint, Evaluate the questions of the proxy (Evaluate, Check, RequiresApproval,
--     InjectRulesFor, DeniesMethod, FailModeVerdict, tool pins), Load the checks of loadFrom.
--     Verdicts, Loaded and Injection prove.
--   RateLimit: internal/ratelimit/ratelimit.go. Limiter has Allow and prune, History the limiter that
--     forgets nothing, Bounds the two limits.
--   Audit: internal/audit/audit.go. Event has the row, Validate validateAuditEvent and validateV2Event,
--     Chain the hash chain with verifyHMACStream, verifyEd25519Stream and checkHighWaterMark, Writer
--     Auditor.record with checkpointCount and updateHighWaterMark. Tamper and Recorded prove.
--     Completeness is AssessRuns of internal/audit/completeness.go; Assessed and Limited prove.
--   Pool: internal/pool/router.go and internal/pool/budget.go. Router has the state and its methods,
--     Budget RouteWithBudget and what it calls; Routing and Downgrade prove. It
--     is a program of its own beside the proxy.
--
--   Proxy: internal/proxy. Gate models the gate of internal/proxy/stdio.go: State has the proxy with
--     appendAuditWithApprovalActor, Decide decideCanonical and the stages of decideToolCall, Cleared
--     what a forwarded call has passed. Ranges, Cards and Queue are the audit queue of the same file
--     (markAuditSequenceResolvedLocked, pruneCardHistoryLocked, resolveAudit, drainAudits), of which
--     Spaced, Rows, Frontier, Flushed, Written, Grown and Order prove. Catalog and Pins are
--     internal/proxy/tool_catalog.go, with Listing; Inject is internal/proxy/inject.go, with Injected; Json has the decoded values,
--     Calls canonicalToolCall and internal/extract/extract.go. Actions has the pending card of an action
--     with observeAction and updateCardState, Pending the waiting requests; Lifecycle,
--     Observing and Settled prove.
--     Listed is filterToolListResponse of the same file, of which Shown proves. Relay is the loop around
--     the gate with paired actions: State has the proxy between two lines and audit, Refuse, Send and
--     Line one line of agentToUpstream, Response one line of upstreamToAgent with validToolResponseID of
--     internal/proxy/required_audit.go; Kept, Answered, Sent, Outcomes, Exact, Delivered, Withheld,
--     Keeping and Failed prove, on Gate/Judged (each decision forwards or rejects) and Gate/AtOnce (the
--     rows it writes).
--   Gateway: internal/gateway/gateway.go: Sessions has the table of sessions, acquire and the ways a
--     request gives its session back, of which Owners and Exclusive prove; Requests has the checks of
--     ServeHTTP before acquire, of which Entered proves.
--   Trust: internal/trust/trust.go, the score that outcomes move and that scales the limiter's calls.
--     Range proves.
--
-- How the parts meet: the proxy loads a policy (Policy.Load). Its gate (Proxy.Gate.Decide) asks the
-- policy about each call (Policy.Evaluate), compares the tool's advertised definition with its pin
-- (Proxy.Catalog, Proxy.Pins), asks the limiter (RateLimit.Limiter) and a human, injects credentials
-- (Proxy.Inject), and queues rows (Proxy.Queue). The audit writer appends them (Audit.Writer) to a
-- trail that anybody verifies later (Audit.Chain) and whose runs are assessed (Audit.Completeness) by
-- the observations that the proxy writes of each action (Proxy.Actions).
--
-- Conventions. A text is the list of its code points, a Go map an association list, an error a value
-- of a data type with one constructor for each message. A method on a pointer returns the new record.
-- Go visits a map in no fixed order: the model visits it in the order of the association list, which
-- decides only which of several errors is returned. Every loop is a structural recursion, but for two
-- on fuel: the digits of a number, with one more than the number, and the flush of the audit queue,
-- with as many rounds as sequences are resolved, since each round consumes one. Times are nanoseconds of the clock, given with each call.
--
-- In the audit trail the two signing modes are one record, Scheme, whose functions stand for crypto/hmac,
-- crypto/ed25519 and json.Marshal; what is relied on of them is
-- IsSigning, that what is signed verifies, and IsBinding, that a signature verifies for one row after one predecessor (the ideal of a signature that nobody forges). A
-- line carries its decoded row and a Boolean for the checks on its raw JSON. What the operating
-- system does during a write is an argument of the writer.
--
-- Readings and money of the pool and scores of trust are float64: a type parameter with its comparisons
-- and sums, of which IsHeadroomOrder states what holds but for NaN, and IsUnitRange what holds of 0, 1
-- and the baseline.
--
-- In the proxy the error of required audit is a function of the rows that the writer was called with; an
-- auditor never unsets it. A message is its decoded JSON, a JSON object its members with one value for each key.
-- The encoder, the approver, the validator, the secrets and the clock are fields of World, the decoders,
-- the writers' failures and the error of required audit fields of Setting. A line of either side is one
-- step of the relay, as the lock on the input line and the locks of its parts make it for the agent's
-- side; Faithful says that the canonical bytes of a message carry its ID, which the decoders ensure.
-- A mutex
-- makes an operation of the queue or the catalog one step, so that an interleaving of requests is a
-- list of operations.
--
-- Not modelled: the transports, the rest of the gateway, the approvers, exports and reports; the
-- proxy's goroutines and the closing of a run, which call the functions modelled here; the proxy without
-- paired actions, which has no IDs to hold; the YAML and JSON decoders, time.ParseDuration (a parameter), input and output, and the commands.
pub mod Base
pub mod Glob
pub mod Policy
pub mod RateLimit
pub mod Audit
pub mod Pool
pub mod Proxy
pub mod Trust
pub mod Gateway
