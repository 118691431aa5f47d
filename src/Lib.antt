-- ===== src/Lib.antt =====
-- Arborist, the authorization service of this repository: resources, roles and policies in PostgreSQL,
-- and the questions who may do what, asked by path, by tag, or for everything at once.
--
-- The parts, and where they are modelled (paths from the root of the repository):
-- - Core: the path functions of internal/authz/core/utils.go, over bytes, with what they use of Go's
--   `strings`, `regexp` and `net/url` (Core/Strings). A path such as /programs/a-b is stored as a label
--   path of PostgreSQL's extension `ltree`, by FormatPathForDb, and shown by FormatDbPath.
-- - Store: the tables of migrations/*/up.sql as lists of rows (Store/Schema). The extension `ltree` is
--   an interface of the operators that the queries name (Store/Ltree), with the laws that its
--   documentation gives; Tests/Labels has an instance. Store/Rows has the statements on one table,
--   Store/Lookup the subqueries by name and the policy queries, Store/Principal the users, clients and
--   groups of internal/authz/store/principal, Store/Policy the operations of
--   internal/authz/store/policy/policy.go, Store/Role those of role.go beside it, Store/Resource those
--   of internal/authz/store/resource/resource.go with the triggers of the table `resource`, and
--   Store/Protection those of internal/authz/protection. A tree of resources that a request sends is a
--   pair of mutual data types, and the operations on it recurse on it.
-- - Engine: the queries of internal/authz/engine. Engine/Grants has the parts that the queries share,
--   Engine/Authorize the checks of one request (authorizeUser, AuthorizeUserExact, authorizeAnonymous,
--   authorizeClient), Engine/Mapping the auth mappings, Engine/Resources the lists of resources and the
--   reading of a GET request. Engine/Spec says by the rows that exist what the queries mean.
-- - Epoch: internal/authz/epoch, the transactions and the counters of changed grants that a commit
--   passes on to Redis.
-- - Ownership: internal/ownership. Ownership/Templates finds the template and the target of a resource,
--   Ownership/Bindings writes and removes the generated policies and their bindings, Ownership/Service
--   has the controls and the operations of service.go, each in a transaction of Epoch. What comes from
--   outside the repository is the record Ownership.Outside: regexp.MatchString, ORDER BY name on the
--   templates, and the tag that a new resource draws.
-- - Access: internal/access/access.go, the roles granted to a user directly on a resource.
-- - Handlers: what handlers of internal/httpapi decide and with which status: POST /auth/request and
--   the auth proxy (Handlers/Auth), the mappings and lists of resources (Handlers/Listings), the
--   changes of ownership and access (Handlers/Ownership), and the reading of a token's claims
--   (Handlers/Token). Decoding and validating a token are parameters there, and a request is its
--   decoded body.
-- - Tests: runs on a small database, and the theorems at concrete data.
--
-- How the code corresponds: a SELECT is a function on the rows, a statement that writes gives the new
-- database, and an operation gives its outcome beside the database, where an error is its HTTP status
-- code. The result `none` of an authorization check is a Go error. The UNIQUE constraints and the
-- primary keys are tested where rows are inserted, and deletions take along the rows that ON DELETE
-- CASCADE names. The time is a number, an argument of the queries that test `expires_at`. Every loop
-- is recursion on a list or a text, so that nothing needs fuel.
--
-- The deferred trigger resource_has_parent_check is part of what decides whether a transaction commits,
-- which is an argument of `transactify`.
--
-- Not modelled: JSON decoding, log lines and the texts of messages, the SQL text itself, the order of
-- rows, double rows where a set of ids is all that counts, the columns created_at and provenance, the
-- text form in which the queries for roles return permissions, letters and white space outside ASCII,
-- failures of the connection to the database inside a transaction, the listings of
-- internal/ownership/read.go, and the HTTP handlers of users, groups, clients, policies, roles and
-- resources.
pub mod Base
pub mod Core
pub mod Store
pub mod Engine
pub mod Epoch
pub mod Ownership
pub mod Access
pub mod Handlers
pub mod Tests
