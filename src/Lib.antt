-- ===== src/Lib.antt =====
-- The access control and the accounts of the PostgreSQL template application: who may change whose roles and
-- permissions, who is let in with which password, and what each request writes.
--
-- The code stands in skills/fastapi-templates-xtn/assets/postgresql-rbac/app/. `RbacService` (services/access.py)
-- runs each of its eight mutations as one transaction. It locks the row of `rbac_state`, the users and the
-- roles, loads the authority of the actor and of the affected users (repositories/access.py), asks the policy
-- (core/security/policy.py), writes the tables (models/access.py) and adds an audit event (core/audit.py).
--
-- Errors       core/errors.py: the exception `RbacError` and its constructors. `Outcome` is a computation that
--              may raise it, or the `ValueError` or `KeyError` of a library call.
-- Domain       core/security/domain.py: permission and role keys, the built-in roles (Domain.Keys), grants,
--              snapshots and the context of a request (Domain.Snapshot).
-- Policy       core/security/policy.py: the decisions. `Policy.Rules` and `Policy.Roles` state the rules
--              without the order of the tests.
-- Audit        core/audit.py: the validators and the sanitizer. Regular expressions, Unicode normalization,
--              `json.dumps` and `str` of a UUID are the fields of `Python`, a parameter of all that uses them.
-- Models       models/access.py: the rows of the tables, the database as a record of tables, and the check
--              constraints with the unique keys (Models.Constraints).
-- Repository   repositories/access.py: the queries as functions of the tables. Repository.Grants has the
--              authority of users, Repository.Visible the pages and views that an administrator sees.
-- Service      services/access.py and the projections that it builds. Base has the shared checks and the
--              writes of one row, Locking the reads and guards before a change, Audited the transaction with
--              its event, Users, UserRoles, Roles and RolePermissions the mutations: `apply_` functions are
--              what a mutation writes after its decision. Success says what a returned mutation has passed,
--              Effects in which ways the tables change, Commands and History put requests in sequence,
--              Invariants, Epoch, Versions, Log, Sessions and Holding have what follows from them.
-- Passwords    core/security/passwords.py: the policy, and the manager in Passwords.Hashing. Unicode tables and
--              argon2 are the records `Unicode` and `Argon2`. Strength and Acceptance describe what is accepted,
--              RoundTrip what a verification has compared.
-- Redis        db/redis.py as the commands that the rate limits call, with their documented laws (`IsRedis`).
-- RateLimit    core/security/rate_limit.py: the scripts and the parsing of their replies, the keys and checks in
--              Checks, the abstract counter in Windows, series of checks in Admissions. Defense is
--              core/security/abuse_defense.py with core/security/policies.py, the quotas of each business.
-- Accounts     models/account_security.py, with what the account services share. Provisioning is
--              services/provisioning.py and core/security/identity.py; Credentials, Login, Changes, Resets and
--              Registration are services/authentication.py, with services/abuse_flow.py in Login. Their child
--              modules say what holds once an operation has returned; Rows has the shared steps.
-- Requests     dependencies/authentication.py: the permission check of a route, with the event of a denial.
-- Tests        a small installation, and each theorem applied to it.
--
-- A UUID is a number, and a mutation that reads the clock or draws a UUID takes it as an argument. A set is a
-- list read through membership. An exception leaves no database behind, as `session.begin()` rolls back. The
-- mutations are atomic and run one after another, since each starts by locking the one row of `rbac_state`;
-- a login, a change or a reset of a password has several transactions, and what other requests do between
-- two of them is a function on the tables, an argument of the operation. Salts are arguments, too. The event of
-- a refused route may fail to be stored. Nothing here needs fuel: the loops run over
-- finite lists. `_require_role_operation` is the data type `RoleOperation`. Texts are ordered by code points.
--
-- Not modelled: captcha, tokens, the principal and the context of a request, the HTTP layer with the
-- validation of request bodies, the bound on concurrent password hashes, the 64-bit bound of a Redis
-- counter, other indexes, foreign keys and migrations, logging, and the release scripts.
pub mod Prelude
pub mod Errors
pub mod Domain
pub mod Passwords
pub mod Policy
pub mod Audit
pub mod Models
pub mod Redis
pub mod RateLimit
pub mod Requests
pub mod Repository
pub mod Service
pub mod Accounts
pub mod Tests
