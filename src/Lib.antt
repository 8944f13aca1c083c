-- ===== src/Lib.antt =====
-- Employed: the core of the job board's backend (Python, backend/app), as functions on rows and
-- tables.
--
-- The program is a web service over a relational database. Its services are functions that read and
-- write rows inside the transaction of a request; a worker runs tasks beside it. The models follow
-- that shape: a table is a list of rows or an association list by primary key, a function that
-- writes takes the tables and returns those it leaves, an exception is a value (`Outcome`), and a
-- SAVEPOINT that fails returns the tables it began with. UUIDs are numbers, also where the source
-- writes them as text into JSON; timestamps and durations are numbers of seconds; ids that the
-- database assigns, and its answers to a flush, are arguments.
--
-- Base has what all share: tests on native numbers, equality as an interface, lists, dictionaries,
-- text as code points (strip and lower at ASCII), results, integers. Json has documents. Enums is
-- backend/app/models/enums.py. Models has the columns of the rows that the services use, from the
-- other files of backend/app/models, and their unique constraints.
--
--   Rbac: backend/app/services/rbac.py
--     The permission catalog, the bundles of roles, the decision, and the dependency
--     `require_permission`. It reads the table that Memberships writes.
--   Memberships: backend/app/services/memberships.py
--     Invite, accept, suspend, link by domain; a step relation on the table.
--   Companies: backend/app/services/companies.py
--     Slugs, the creation with the owner's membership in one SAVEPOINT, and the two proofs of
--     control of a domain, with the retried write. Companies.Ownership asks Rbac about the owner.
--   Trust: backend/app/services/trust.py
--     Badges, derived and reconciled; called by Companies and Verification.
--   Verification: backend/app/services/verification.py
--     The state machine of verified entities, which writes to Audit.
--   Audit: backend/app/services/audit.py and backend/app/models/audit_log.py
--   Webhooks: backend/app/services/webhooks.py
--     Registration and fan-out. Webhooks.Delivery is the worker's `deliver_webhook` of
--     backend/app/workers/tasks.py, with its backoff.
--   Applications: backend/app/services/applications.py
--     Writes its row, an entry of Audit and an event of Webhooks.
--   Payments: backend/app/payments/settlement.py
--     With `settle_simulated_intent` of backend/app/workers/tasks.py and the requests of
--     backend/app/routers/payments.py: Payments.Adapter and Payments.Initiate open a payment,
--     with what the provider's adapter writes on the row, answers or raises as a parameter;
--     Payments.Adapter also has the table of markets of backend/app/services/market.py.
--   Callbacks: backend/app/webhooks/mobile_money.py
--     The callback of a provider, its fields read: the signature and the time stamp, then the
--     duplicate check of Replay and the outcome on Payments.
--   Replay: backend/app/webhooks/replay_cache.py
--   Revocation: backend/app/auth/revocation.py
--     Both take the answers of Redis as arguments.
--   RateLimit: backend/app/middleware/rate_limit.py
--     The sliding window, the counter in Redis, and the address of the client.
--   Jobs: `expire_old_jobs` of backend/app/workers/tasks.py
--   Listings: backend/app/routers/jobs.py
--     Who may post, and posting. Listings.Editing: edit, close, remove. Listings.Reading: one job.
--     Listings.Search and Listings.Pages: the search in SQL and in Python, pages and counts, with
--     the database as a record of operations and laws. Listings.Admin: the moderation of
--     backend/app/routers/admin.py, which sends events of Webhooks. Listings.Moderation has the
--     requests that write jobs as a data type, and runs of them.
--   Publication: backend/app/routers/verification.py
--     The moderators' routes, with the guard of Rbac, the state machine of Verification and the
--     entries of Audit.
--   Admins: the roles and the search of users of backend/app/routers/admin.py
--     How Python compares the text of a path with a key is a parameter, since the key's type is the
--     database's.
--   Tokens: backend/app/auth/jwt.py
--     Claims, makers and readers; the library that signs is a record of operations and laws.
--   Lockout: `FailedLoginTracker` of backend/app/routers/auth.py and the calls of it
--   SignIn: backend/app/routers/auth.py, with `get_current_user` of
--     backend/app/auth/dependencies.py
--     Accounts, registration and login; SignIn.Session, SignIn.Recovery and SignIn.Oauth have the
--     other routes. They use Tokens, Revocation and Lockout.
--   Tests: rows, and each result at them.
--
-- Parameters stand for code outside the repository: slugify, the DNS resolver, UUID parsing, JSON
-- encoding, HMAC-SHA256, the HTTP client, the lookup of a host in the trusted networks, the
-- cleaning of HTML, the hashing of passwords, the tokens' library, the database's LIKE, lower and
-- ORDER BY. In the search, `str.lower` is a parameter too, which agrees with the database's on ASCII
-- texts; rows of one time may come in another order in each query.
-- Loops are recursion on their list or on their number of attempts: ten thousand suffixes of a
-- slug, three writes of a domain. The digits of a suffix n are computed on fuel n + 1, which is
-- enough, since every step divides by ten.
--
-- Not modelled: the routes of companies, memberships and applications, since they wrap the
-- services; the reading of a callback's payload, the Stripe webhook, the calls of the providers by
-- the adapters, profiles and resumes, reports; reCAPTCHA, cookies, mail,
-- rendering, configuration, schemas and logging, which are I/O or glue; the client under frontend/;
-- locks, since each call is one step.
pub mod Base
pub mod Enums
pub mod Audit
pub mod Json
pub mod Models
pub mod Rbac
pub mod Memberships
pub mod Trust
pub mod Verification
pub mod Webhooks
pub mod Applications
pub mod Companies
pub mod Payments
pub mod RateLimit
pub mod Replay
pub mod Callbacks
pub mod Revocation
pub mod Jobs
pub mod Listings
pub mod Admins
pub mod Publication
pub mod Tokens
pub mod Lockout
pub mod SignIn
mod Tests
