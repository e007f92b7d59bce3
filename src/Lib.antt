-- ===== src/Lib.antt =====
-- vsn-voice-ai: the API's device link, identity, organizations and workspaces, and the web back end.
--
-- A signed-in user links a desktop to an organization by an exchange. `issue` stores a record with
-- the SHA-256 digest of a random token and returns the token; the desktop gives it to `consume`,
-- which turns the record from issued to consumed once, for the same subject, organization and device,
-- before the record expires. `revoke` ends an exchange early; `inspect` and `listLinked` report. The
-- controller checks the request's input, resolves the principal and the membership, authorizes
-- `device.link` in the organization of the path, calls the service, and maps its errors to statuses.
-- The service works over a record store: an in-memory map, or a Postgres store, in production behind a
-- boundary that turns every error into one.
--
-- The workspace's endpoints answer the entry of a workspace, the list of workspaces and the team, read
-- and write profiles, notification preferences and an organization's name, and let a manager suspend
-- or reactivate an ordinary member. They share one membership resolver, whose services are Postgres
-- repositories behind an error boundary, or rejecting ones where no database is configured. The web
-- front end's server logs a user in with the identity provider, keeps the access token in a sealed
-- cookie and passes allowed requests on to the API with it.
--
-- Files, with the sources under services/api/src where no other directory is named:
--   Prelude          names and lemmas on lists, options and tests that all parts share
--   Js               the language: strings (Text, with Split and Trimmed), maps (Map), numbers
--                    (Number), dates (Date), URLs (Url), values of type unknown (Value), hexadecimal
--                    buffers (Hex), sets of seen texts (Distinct), results and asynchronous methods as
--                    state passing (Result, Exec), with what calls do not change (Exec/Reads) and the
--                    inversion of calls that return (Exec/Inversion)
--   Config           config/runtime-config.ts and postgres-runtime-config.ts
--   Identity         identity/authenticated-principal.ts (Principal), trusted-principal-resolver.ts
--                    (Trusted),
--                    oidc-bearer-token-resolver.ts (Oidc for tokens, Oidc/Jwks for key sets),
--                    runtime-trusted-principal-resolver.ts (Runtime)
--   Organizations    organizations/organization-membership.ts (Membership), tenant-authorization.ts
--                    (Authorization: authorize_tenant_access is authorizeTenantAccess),
--                    postgres-organization-membership-resolver.ts with
--                    organization-membership-directory.ts (Postgres)
--   DesktopLink      device-link
--     Record         the record and the store's interface, from desktop-link-record.ts
--     Memory         InMemoryDesktopLinkRecordStore; Calls and Race are about sequences of store calls
--                    of concurrent requests, Machine about each exchange as a state machine on them,
--                    Latest, Coverage, Sorting and Inventory about listLatestConsumed
--     Checks         the types and checks of desktop-link.service.ts
--     Service        its DesktopLinkService, one function per method
--     Postgres       postgres-desktop-link-record-store.ts; Rows and Returned are about its rows
--     Runtime        runtime-desktop-link-record-store.ts
--     Controller     desktop-link.controller.ts, a handle_ function per handler; its regular
--                    expressions are in Patterns
--   Workspace        workspace: Settings has what the three kinds of settings share; Profile,
--                    Preferences and OrganizationProfile are each a repository, its Postgres
--                    implementation and its controller, with their rows and bodies in Stored and
--                    what a request saved in Saved; Team is the team's listing, TeamStatus a
--                    member's status, Entry the bootstrap and the directory; Runtime is
--                    organizations/runtime-organization-membership-resolver.ts with
--                    runtime-workspace-team-repository.ts
--   Web              apps/web: Proxy is lib/api-proxy.ts; Session is lib/web-session.ts (Configured for
--                    its settings, Cookies, Sealing, Messages for requests, responses and their values,
--                    Login for beginLogin and completeLogin, Requests for what requests of a session
--                    need); Routes is the handlers app/**/route.ts
--   the Tests modules  runs and witnesses on small data
--
-- State and effects. A store's method is a function of the store's state to a result and the next
-- state (Exec); a thrown error is a result. The in-memory store is the list of its map's entries, in
-- insertion order. `consume` waits twice for the store: consume_check is what it does before the
-- second wait and consume_commit the rest; what other requests do is a list of store calls in between.
-- A clock's reading, the random record id and the random token are arguments, read where the source
-- reads them.
--
-- Parameters. Dates.to_iso and Dates.parse stand for the language's date formatting and parsing, with
-- the documented fact that a printed date parses to its instant. UriEncoding.encode stands for
-- encodeURIComponent, with the fact that it leaves unreserved characters alone. Sealing stands for
-- JSON, base64url and AES-256-GCM of the session's cookies, with the facts that JSON keeps an object of
-- texts and safe integers, that base64url decodes what it encodes and uses its own alphabet, and that
-- the cipher opens what it sealed and keeps its length. SHA-256, the locale's string order, the
-- controllers' membership resolver, the database client, JSON.parse and the decoding of a base64url
-- segment as JSON, node:crypto's keys and signatures, the URL parser, URLSearchParams and `fetch` are
-- functions without hypotheses. The round trips through a database take the hypothesis IsTable, what the
-- two statements of its table do: the upsert returns the one row of the values that it was given, and
-- the select of that key returns this row after it.
--
-- Representation. A string is the list of its UTF-16 code units. An instant is counted in milliseconds
-- from the earliest date of the language, so it is a natural number; to_iso_string throws past the
-- last date. A number of a request is an integer, a value between two integers, an infinity or NaN.
-- The reason of a denial is a constructor for each message; frozen copies, `schema_version` and
-- `linked`, constants of each answer, are left out. Recursion is structural throughout; only the
-- decimal digits of n are written on fuel, n + 1 rounds, where each round divides n by ten. The sort
-- is an insertion sort with the source's comparator: the language's sort is stable, and where the
-- times of linking are not dates its order is left to the implementation.
-- Times of the web session are natural numbers of milliseconds since 1970.
--
-- Not modelled: the text of the SQL statements, the pg pool, the wiring of NestJS and Fastify, the
-- health endpoint, the front end with its clients and panel states, the desktop programs and the
-- gateway.
pub mod Config
pub mod DesktopLink
pub mod Identity
pub mod Js
pub mod Organizations
pub mod Prelude
pub mod Web
pub mod Workspace
