-- ===== src/Lib.antt =====
-- A model of idpforge, an identity provider: a server in Go with a console in TypeScript. A request
-- of the console (Console) meets the routes of the server and their guards (Router), which ask who
-- it is from (Clients, Auth) and what that user or client may do (Permission, Rbac); sessions,
-- counters and resolved permissions are kept in one cache (Cache).
--
-- Modules and the code they follow (paths from the repository's root):
--   Base            tests on numbers, lists and texts that the rest shares. A text is the list of
--                   its code units.
--   Permission      internal/rbac/models.go (Permission.matches, Resolved.Has),
--                   internal/apiclient/models.go (Client.HasScope), web/lib/permissions.ts
--                   (hasPermission) and the guards of a route, requireOwnScopes in
--                   internal/httpserver/actor.go and requirePermission in permission.go.
--   Cache           internal/cache/memory.go, with its reaper as steps between the calls.
--   Rbac            internal/rbac/resolve.go over the tables of internal/db/migrations;
--                   Rbac.Admin adds the writes of internal/rbac/admin.go and the cached Resolve,
--                   Rbac.History puts them in any order.
--   Router          internal/httpserver/router.go as a table (Router.Table), and the running of a
--                   chain of handlers (Router.Serve). The web framework is a parameter
--                   (Router.Fiber) with the laws of its documentation.
--   Console         web/lib/api.ts: the request of every method of `api`, and the reading of a
--                   response against errorHandler in internal/httpserver/server.go
--                   (Console.Response); Console.Nav is the navigation of
--                   web/components/AppShell.tsx, Console.Realtime is web/lib/ws.ts, Console.Base64 and
--                   Console.SecurityKey are web/lib/webauthn.ts.
--   Users           internal/users/repository.go, on the list of the rows.
--   Auth            internal/httpserver/session.go and auth_handlers.go: sessions, the lockout of an
--                   account, login and logout.
--   Clients         internal/apiclient/repository.go, internal/netutil/ipmatch.go and the checks of
--                   a key: authenticateAny and requireAPIClient.
--   Accounts        internal/httpserver/users_handlers.go and me_handlers.go, and
--                   internal/users/policy.go; Accounts.Me has handleMe with web/lib/useMe.ts.
--   Pages           the pages of web/app and web/components/ui.tsx. A page is the state of its hooks
--                   with the function `update` of its handlers; a request and its answer are two
--                   steps, and a step returns the calls that it sends. Its `view` lists the texts
--                   and widgets that it shows (Pages.View), without layout and style. Under
--                   web/app/(app): Dashboard is page.tsx, UserList users/page.tsx, UserDetail
--                   users/detail/page.tsx, RoleList roles/page.tsx, RoleDetail
--                   roles/detail/page.tsx, Devices iot/page.tsx, ApiClients api-clients/page.tsx,
--                   Account account/page.tsx, Usage usage/page.tsx, Settings settings/page.tsx, Audit
--                   audit/page.tsx. Shell is web/components/AppShell.tsx, SignIn the pages login and
--                   change-password, Time web/lib/time.ts, Folders the grouping of the API
--                   clients and the devices, Csv splitCSV, Data the answers that
--                   web/lib/api.ts declares. Served puts the events that the pages offer against
--                   the routes of the server; Opening does so for the calls that pages send as
--                   they open, by a table of its own of the permissions of each page, and Entries
--                   for those behind the entries of the navigation. Audit.Live puts the live
--                   entries against the log, read as internal/audit/query.go reads it.
--   Iot             internal/iot/repository.go, and internal/httpserver/iot_handlers.go with
--                   device_auth.go (Iot.Handlers): readers and doors, and the check-in they report.
--   Audit           internal/audit/writer.go: the queue of the audit log, its loop as steps between
--                   the calls.
--   Lease           internal/leaderlease/leaderlease.go: the statements of several processes, one by
--                   one. Whether the driver counts the rows that an UPDATE finds or those that it
--                   changes is an argument; a time is what the column keeps of it.
--   Oidc            internal/auth/oidc/provider.go and clients.go: authorization codes, refresh tokens
--                   and the three grants; a signed token is the text that a parameter makes of its
--                   claims.
--
-- State is passed explicitly: a World or a Store holds the rows, the cache and the audit log, and
-- a handler returns the next one with its answer. Times are arguments, in nanoseconds but for
-- Pages.Time. IDs, random keys, bcrypt, SHA-256, one-time codes and the captcha are arguments with
-- the laws that a theorem needs of them. So are, in the console, the formats and the sorting of the
-- browser's locale, toLowerCase, Number, and whether the storage can be written.
--
-- Bounds: the depth guard of expandAncestorGroups is the fuel of Rbac.climb; a theorem that needs
-- every ancestor says that the links end within it (WithinDepth). The fuel of Clients.digits is the
-- number that it prints, plus one.
--
-- Not modelled: SQL text and drivers, JSON encoding, HTTP framing, logging, metrics, and errors
-- of the database itself; of the console, charts and the ceremony of a security key in the
-- browser; of the server, the origin check, the web socket hub, the update check, the enrolment
-- of second factors, images, and the queries that list rows for a page but for the audit log.
-- The counter of the cache is not bounded by int64.

pub mod Base
pub mod Permission
pub mod Cache
pub mod Rbac
pub mod Router
pub mod Console
pub mod Users
pub mod Auth
pub mod Clients
pub mod Accounts
pub mod Pages
pub mod Iot
pub mod Audit
pub mod Lease
pub mod Oidc
