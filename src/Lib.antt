-- ===== src/Lib.antt =====
-- Verification of CoolProof, a service in which heat analyses, interventions and portfolios of a city
-- are planned by governed agent runs that a manager approves.
--
-- Parts and files, with paths from the repository's root:
--   * Db/Models, Db/Evidence: the tables of app/db/models.py and app/db/phase3_models.py as records.
--     Db/Query is what `select` returns, Db/Session the session: its tables as queries see them, and
--     what commits made durable. Closing a session loses the rest.
--   * Json: the values of a `dict[str, object]`, with Python's dict operations. Failure: the exceptions
--     as values. Platform: Python's `str`, `UUID`, `casefold`, … and the database's text order, which
--     are parameters; IsFaithful states what the proofs use of them. Audit: app/services/audit.py.
--   * Auth/Claims is app/core/auth.py with the settings of app/core/config.py; Auth/Tenancy is
--     app/api/deps.py. `jwt.decode` is a parameter.
--   * Agents/Grounding is app/agents/grounding.py: the references of a request, the rows and safe facts
--     that a run may see. Agents/Providers is app/agents/providers.py, over a parameter for HTTP,
--     with the tool calls and streams in Agents/Providers/Calls, whose lines Agents/Providers/Events
--     describes. Agents/Evaluation is app/agents/evaluation.py.
--   * Agents/Runtime is app/agents/runtime.py: State and Nodes are the graph of four nodes, Events the
--     numbered events, Execution the run with its checkpoints, Approval the gate. Agents/Api is
--     app/api/agents.py, and Agents/System the requests as steps on a session.
--   * Heat/Request, Heat/Activity, Heat/Service, Heat/Poll and Heat/Exposure are app/services/heat.py,
--     Heat/Steps its submissions and polls as steps, Heat/Client app/integrations/fortyguard/client.py,
--     Heat/Worker the two files of app/workers, and Heat/Api app/api/heat.py.
--   * Projects is app/api/projects.py, and Interventions app/api/interventions.py with the eligibility
--     test of app/services/interventions.py; Interventions/Listing is the
--     eligibility endpoint and the listing of evidence.
--   * Portfolio is app/optimization/portfolio.py: Optimize the program and its result, Feasible what a
--     portfolio promises, Request and Api app/api/optimization.py. Floats is Python's float arithmetic,
--     a parameter, and Solver is OR-Tools'.
--   * Verification is app/services/verification.py, Verification/Reports app/services/reports.py, over a
--     parameter for S3, and Verification/Api and Verification/ReportApi app/api/verification.py.
--   * Documents is app/retrieval/documents.py: the extraction of chunks, Documents/Key the object key,
--     Embedding the local embedding and Finalize the ingestion; Documents/Api is app/api/documents.py and
--     Documents/Steps its requests as steps. Retrieval is app/retrieval/hybrid.py with the search endpoint.
--   * Http is app/core/middleware.py: the request's id and the guard on size and rate; Http/Errors is
--     app/core/errors.py with the handlers and the stack of app/main.py, Http/Window the rate limit, and
--     Http/Unhandled the exceptions that only the last handler answers.
--   * Tests holds concrete runs; Tests/Solver is a solver that tries all assignments.
--
-- How they interact: an API handler gets the tenant from Auth, changes the session through the runtime
-- or the heat service, and answers. A stateful function takes and returns the session; one that may
-- raise returns a Result with the session that it leaves. A provider's or an HTTP client's answers are
-- arguments, so theorems hold for all of them. An operation takes the time at which it runs; a URL of S3
-- is signed at that time.
--
-- Bounds: the retry loop of Heat/Client recurs on the tries that `range(max_attempts)` has left; the
-- theorems on it say how it ends, for every number of tries. The slices of Documents recur on the
-- number of words, which Documents/Words proves to be enough. No other function needs fuel.
--
-- Not modelled: telemetry, CORS, process loops, the endpoints for health, metrics and sessions, and
-- PostgreSQL's own ranking and vector column. A float is its bit pattern. A UUID is a number. The
-- jitter of the waits and the time that a worker sleeps are not part of the state.
pub mod Base
pub mod Json
pub mod Db
pub mod Failure
pub mod Platform
pub mod Audit
pub mod Auth
pub mod Agents
pub mod Heat
pub mod Http
pub mod Projects
pub mod Interventions
pub mod Floats
pub mod Portfolio
pub mod Documents
pub mod Retrieval
pub mod Verification
pub mod Tests
