-- ===== src/Lib.antt =====
-- A verification library for the FastAPI backend template: its accounts, sessions, permissions,
-- items and roles, its idempotent requests and its error envelope.
--
-- A request goes through the middlewares of app/core/http, then the dependencies of app/api/deps.py
-- find out who calls, and a service of app/services does the work over the repositories of
-- app/repositories, in the one transaction that get_session of app/db/session.py commits or rolls
-- back. The model follows that path:
--   * Prelude: names of the libraries, Boolean tests, lists, and tables as lists of rows with SELECT,
--     UPDATE and DELETE. Errors: app/core/error_codes.py and app/core/exceptions.py.
--   * Exec: calls that read and write a state and may raise, with get_session; Exec.Keeps: rules for
--     the invariants of such calls.
--   * Models: the mapped classes of app/models as records, and Db, the tables with their sequences.
--   * Repositories: app/repositories, one file for each repository. An INSERT or UPDATE that breaks a
--     unique constraint raises, as the database does. Repositories.Unique holds the lemmas on rows
--     that a constraint keeps apart.
--   * Authorization: app/core/authorization.py. Security: the claims of app/core/security.py. Audit:
--     app/core/audit/context.py, app/core/audit/events.py and the insert of the trail, with Audit.Diff for
--     app/core/audit/policy.py and app/core/audit/diff.py, and Audit.Collecting and Audit.Listeners for
--     app/core/audit/listeners.py. Deps: get_actor and the guards of app/api/deps.py.
--   * Services: UserService, RoleService, ItemService, PreferencesService, AuthService, PasswordReset,
--     EmailVerification, SingleUseTokens, RequestLogService, AuditLogService and IdempotencyService,
--     each for the file of app/services of that name, with the schemas of app/schemas that it takes.
--     Their modules are named for what they prove, and the Tests module of each runs it on a small
--     database.
--   * Repositories.Cursor: app/repositories/cursor.py and cursor_slice of app/schemas/pagination.py.
--   * Hooks: app/db/transactional_hooks.py. Storage: app/core/storage/backend.py, with Storage.Reference
--     for what a store promises and Storage.Local for app/core/storage/local.py.
--     Services.AttachmentService is over any store that keeps the promises, and its module Requests
--     settles a transaction together with the hooks and the clean-up that they start.
--   * Features: app/core/features.py. Routes: app/api/v1, a file for each of its route modules;
--     Calls is the table of the private routes with what each asks for.
--   * Jobs: the drain of a table in batches, and the expiry of tokens, in app/jobs/maintenance.py.
--   * Http: app/core/http/errors.py, app/core/http/idempotency.py, app/core/http/body_limit.py,
--     app/core/http/concurrency.py, and in Http.IdempotencyStore app/api/idempotency_store.py, whose
--     caller Http.IdempotencyStore.Callers compares with that of Deps.
--
-- A function of the source keeps its name, without a leading underscore. What it reads of its
-- surroundings is an argument: the clock, each time that it is read, fresh random texts, and the audit
-- context. For a registration and for the claim of an idempotency key, what other transactions commit
-- while the call awaits is an argument too, a function on the database (`meanwhile`); a rollback of
-- the claim leaves it. Everywhere else a call runs with no commit of others in between, also where it
-- awaits the check or the hash of a password (authenticate, change_password, deactivate and the
-- confirmation of a reset).
--
-- Taken as parameters, with the contract that the code relies on: the password hash (a password
-- verifies against its own hash), PyJWT with its key (a text decodes to the payload that it encodes,
-- until it expires), SHA-256, Python's str and int of an account's id (int inverts str), the
-- rendering of responses by Starlette, the decoding of bytes, the text of a cursor (it decodes to what
-- it encodes), str.strip and str.lower of an address, which characters are printable or white space,
-- which writes the operating system refuses, what SQLAlchemy knows of the state and the history of an
-- object, and the length of a JSON text.
-- The witnesses put concrete functions in their places.
--
-- Times are natural numbers of microseconds, and those in tokens whole seconds. Only the drain
-- runs on fuel, one round more than the table has rows, for which its termination is proved; every
-- other loop that is modelled goes over a list. Identifiers are natural numbers; the width of a
-- column is not modelled, nor is the order of concurrent statements finer than the points named
-- above. A save writes the row as the request read and changed it, where the UPDATE names the
-- changed columns. Lower case is that of ASCII.
--
-- Not modelled: settings, logs, the texts of mails, the scheduler and rate limits, most of which
-- are declarations for the framework or input and output. Symbolic links in the storage root are
-- not resolved, and the clean-up tasks of a request run before the next one.
pub mod Prelude
pub mod Deps
pub mod Errors
pub mod Exec
pub mod Jobs
pub mod Models
pub mod Audit
pub mod Authorization
pub mod Repositories
pub mod Security
pub mod Services
pub mod Http
pub mod Hooks
pub mod Storage
pub mod Features
pub mod Routes
