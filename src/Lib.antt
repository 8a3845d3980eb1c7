-- ===== src/Lib.antt =====
-- go-saas-api: a chat service with agents, several model providers and paid plans.
--
-- The parts that are modelled, and the code they follow:
--
-- - Flows.Question (internal/agent/flows/api_integration.go): `EnforceSingleQuestion` and
--   `StripFlowStateBlock`, over the bytes of a content.
-- - Agent.Sanitizer (internal/agent/runtime/agent_loop.go): `flowStateSanitizer`, which keeps the
--   state block that the model appends from the client, and the loop of `agentLoop` over the
--   chunks of one answer. It calls Flows.Question while the flow is collecting. Sanitizer/Stream and
--   Sanitizer/Raw hold its proofs.
-- - Llm.Chat and Llm.Pricing (pkg/llm/client.go, tokens.go, pricing.go): messages, chunks, estimates
--   and prices.
-- - Agent.Loop (internal/agent/runtime/agent_loop.go): `agentLoop`. Loop has its state, Round and
--   Tools one pass up to the calls of tools, Turn the answer without calls, the passes and the
--   end; it calls Agent.Sanitizer, Agent.Quality (internal/agent/quality/gate.go) and
--   Flows.State. Closed, Passes and Ending carry a predicate through the loop; Bounds, Ended,
--   Billed and Reread use them.
-- - Agent.Dispatcher (runtime/dispatcher.go): the messages to a model from the rows. Agent.Store
--   (internal/agent/store/postgres.go, runtime/session.go): conversations and messages.
--   Agent.Orchestrator (runtime/orchestrator.go): `Chat` up to the start of the loop; Owner and
--   History are about it. Agent.Http (internal/agent/handler): the endpoints of conversations, and
--   Http/Foreign who is served.
-- - Flows.Registry (internal/agent/flows): the five flows and their detection, Registry/Best what is
--   found.
-- - Llm.MultiClient (pkg/llm/multiclient.go): `MultiClient`, which chooses a provider for a request,
--   falls back to the next and disables one that fails three times in a row. Order and Runs are
--   about the fallback order, Routing and Fallback about the choice, Breaker about the failures.
-- - Flows.State (internal/agent/flows/api_integration.go): the state that a conversation keeps in its
--   metadata. Update has UpdateState and AddRealDeliverables, Prompt BuildMessages, Turns the end of
--   a turn in agentLoop, Stored the way through the database. Missing, Delivered, Kept and Asked are
--   about what a turn changes and keeps.
-- - Provider (internal/provider/model_sync.go, store.go): the sync of the models that a provider lists
--   with the table; Provider.Sync is about models that are switched off, Provider.Missing about
--   those that are no longer listed.
-- - Billing (internal/billing/domain.go): plans, subscriptions, the world of the operations and the
--   monad they run in. Billing.Store (repository_pg.go) has the SQL statements as functions of the
--   tables, Billing.Service (service.go) the operations that call them and Stripe, Billing.Http
--   (handler.go) the endpoints that call the service. Billing.Keeps carries an invariant through
--   the monad; Service/Pending and Service/Lifecycle follow a subscription from its checkout,
--   Service/Webhook is about webhooks that fail, Http/Guard about requests that are turned away.
-- - Billing.Usage (repository_pg.go, internal/agent/usage/tracker.go): the log of requests and the
--   daily rollup; Usage/Rollup and Usage/Recorded compare them, Usage/Http
--   (usage_handler.go) has the endpoints.
-- - ApiKey (internal/apikey): the table of keys (store.go), the service (service.go) and when a key
--   is active (model.go); ApiKey.Http is handler.go. ApiKey/Revoked and Runs follow a revoked key,
--   ApiKey/Issued a new one.
-- - Middleware (internal/platform/middleware/jwt.go, apikey.go; pkg/jwt/jwt.go): where a request's
--   token is looked for, and who it lets through; it calls ApiKey. Middleware/Access is about that.
-- - RateLimit (internal/platform/ratelimit/ratelimiter.go, internal/platform/middleware/ratelimit.go):
--   the sliding window over a sorted set in Redis and the middlewares that ask it. Redis is a
--   parameter; RateLimit/Window says what it documents, RateLimit/History compares the limiter with
--   one that remembers every request, RateLimit/Bound counts what it lets through.
-- - WebSocket (internal/agent/websocket/manager.go): the loop of the manager that registers clients
--   and closes their channels.
-- - Auth (internal/auth): accounts and their tokens. Auth.Users (store.go) has the statements on
--   the table of users, Auth.Tokens (redis.go, password_reset.go, oauth_state.go) the keys in
--   Redis and what Redis documents, Auth.Service (service.go) registration, login, refresh and
--   the reset of a password, Auth.OAuth (oauth.go) the sign-in with Google and GitHub, Auth.Http,
--   Auth.Handler and Auth.OAuthHandler (handler.go, admin_handler.go, oauth_handler.go) the
--   endpoints. Auth.Requests plays any sequence of requests. Users/View is about the statements
--   on the table, Users/Sound and Users/Rows about what the schema promises of it, Service/Keys,
--   Service/Spent, OAuth/States and Requests/Keeps, Requests/Played about what the operations
--   leave in Redis, Service/Healthy and Service/SignIn about their results where nothing fails;
--   Revoked, Sessions, Answers and OAuth/Once have the results.
-- - Common.Effect: methods that change a state and may fail, for Auth and Agent; Effect/Triple
--   says what holds behind them.
-- - Common: Boolean tests, lists, bytes, association lists and integers that all parts share.
-- - Examples: the theorems at concrete data.
--
-- State is passed explicitly. A method that may fail returns its result and the world that it
-- leaves. A call of the database fails where a schedule of faults says so, and otherwise does what
-- its statement says; the constraints of the tables are those of migrations/000_rebuild_clean.sql.
-- Stripe, Redis, bcrypt, the signing of a JWT, the mail server, the OAuth providers, uuid.Parse,
-- the binding of request bodies and the model clients are parameters, as their code is not in the
-- repository. Times, and the new UUIDs that one operation makes, are arguments.
--
-- Numbers: counters are unbounded naturals, weights and amounts are integers, a cost is of an
-- abstract type with an addition. Nothing runs on fuel but the sort of the providers, whose rounds
-- are as many as there are providers: each settles one place; the loop of the agent has the ten passes
-- of the code.
-- A Go map is an association list, and where the code ranges over a map the order of the list
-- stands for the order that was taken.
--
-- Not modelled: locks and goroutines (an operation runs alone), text of log messages, the
-- classification of a message, the loop of the website agent, user preferences, the
-- pumps and the chat of a WebSocket client, the tools, and the wiring of the services.
mod Common
pub mod Flows
pub mod Agent
pub mod Llm
pub mod Billing
pub mod ApiKey
pub mod Middleware
pub mod RateLimit
pub mod Auth
pub mod Provider
pub mod WebSocket
mod Examples
