-- ===== src/Lib.antt =====
-- OpenTroop's TypeScript clients: the offline data core of the mobile app (apps/mobile/src/data) with
-- the providers around it, and the query layer of the web app (apps/web/src/hooks).
--
-- The app keeps one SQLite file for each tenant. Its tables are a mirror of eight server streams, a
-- cursor for each stream, an outbox of commands that the user gave while offline, and a `meta` table.
-- A sync drains the outbox to the server and then pulls the streams; reads show the mirror with the
-- effects of the pending commands on top.
--
-- * Db, Db.Rows, Db.Transaction: the tables as a record (a table is a list of rows, in no order that
--   a definition relies on but for `ORDER BY`), and `runInTransaction` of apps/mobile/src/data/db.ts.
-- * Schema, Schema.Migration: apps/mobile/src/data/schema.ts, on a file in which each table may be
--   missing.
-- * Mirror (Pages, Elsewhere, Sweep, Responses): apps/mobile/src/data/mirror.ts.
-- * Commands (Queue, Enqueue, Local): the queue of apps/mobile/src/data/commands.ts; Commands.Drain (Steps,
--   Order, Removal, Accounts, Keeps, Lost): `drainQueue` of the same file, and `errorDetail` of
--   apps/mobile/src/lib/http.ts.
-- * Overlay (Events, Indexing, Participants): apps/mobile/src/data/overlay.ts.
-- * Pull (Boundary, Keeps, Refused, Streams, Rounds, Refetch, Epochs): apps/mobile/src/data/pull.ts. The loop of
--   `pullEntity` runs on fuel, one for each request; Boundary reads a run off the server's answers, with
--   refusals and faults; Streams has how much fuel is enough, for a server that keeps its promise
--   (`IsStream`): while it serves a cursor (`Serves`, which fails for one below its watermark), a finite
--   list of rows stands behind it, a pull from it succeeds, and what the pull reaches is served too.
-- * Engine (Schedule, CatchUp, Stuck): apps/mobile/src/data/engine.ts.
-- * PhotoUpload (Traces): apps/mobile/src/lib/photo-upload.ts, on its own: it uses no database.
-- * TenantFiles (Handle): apps/mobile/src/data/expo-db.ts, the files and the one open handle.
-- * Reads (Events, Family): apps/mobile/src/hooks/use-mirror.ts, on an open database.
-- * Inbox (Join, Marking): apps/mobile/src/lib/inbox.ts and apps/mobile/src/hooks/use-inbox.ts.
-- * Household (Closure): apps/web/src/lib/household.ts, of the web application.
-- * Session (Wipe, Race): apps/mobile/src/lib/tenant-context.tsx, local-wipe.ts and identity-gate.tsx:
--   which tenant is selected, which are known, and what sign-out deletes, on the files of TenantFiles.
--   An `Access` says which reads, writes and deletions the device grants while something happens.
-- * SyncProvider (Invariant, Reachable, Isolation, Switching): apps/mobile/src/lib/sync-context.tsx as a
--   step relation; the syncs in flight are a list of promises, each of which may write anything through
--   the handle it holds.
-- * Web (QueryClient): what the hooks of apps/web/src/hooks hand to React Query, and the query client as a record
--   (`QueryClient`) of its operations and what its documentation says of them. Web.QueryKeys:
--   apps/web/src/lib/query-keys.ts. Web.Groups, Web.Events, Web.EventParts, Web.Roles, Web.Members,
--   Web.Advancement, Web.Messages, Web.Account, Web.Reports, Web.Platform: the hooks, `useGroups` as
--   `use_groups`, with the active tenant and the variables of `mutate` as arguments. Web.Hooks lists the
--   tenant's hooks as two data types; Web.Scoping, Web.Sharing, Web.Reach, Web.Refetch and
--   Web.Memberships are proofs about all of them. Web.Groups.Roster (Agreement): the selectors of
--   use-groups.ts. Web.Uploads (Settling, Fitting): the upload of use-event-photos.ts and
--   apps/web/src/lib/image-processing.ts. Web.Draft (Editing): use-rsvp-draft.ts. Web.Api (Headers):
--   apps/web/src/lib/api.ts. Web.Tenant (Resolving): apps/web/src/lib/tenant-context.tsx.
--   Web.Import (Polling): apps/web/src/app/tenant/(dashboard)/import/page.tsx. Web.Calendar (Days):
--   `eventsByDay` of apps/web/src/lib/calendar.ts, on numbered days.
-- * MobileHooks (Calendar, Advancing): the online hooks of apps/mobile/src/hooks and
--   apps/mobile/src/lib/api.ts, and the calendar link of use-calendar.ts.
-- * Preferences (Cycling): apps/mobile/src/hooks/use-notification-preferences.ts.
-- * Advancement (Dates, Screen): apps/mobile/src/lib/advancement.ts, and what the sheets of
--   apps/mobile/app/(tabs)/advancement.tsx accept and send; Screen confirms them through MobileHooks.
-- * Doc (Spread, Decimal): JSON values and objects, `{ ...a, ...b }`, and natural numbers as text.
-- * Prelude (Tests, Lists, Maps, Sorting): names and lemmas that the parts share. Examples: concrete runs.
--
-- An operation on the database is a function on `Db`; one that may throw returns a `Result` with the
-- database as the throw left it, and `transaction` puts the saved one back. The server is a client
-- `Request → W → Reply B × W` on a state `W` of any type; a reply says what the request came to
-- (`none` is a transport error) and which local operations ran while it was awaited, since the app
-- goes on while a request is under way. Identifiers and times are arguments. A column of JSON text is
-- the document: what `JSON.stringify` writes is what `JSON.parse` reads back.
--
-- Not modelled: SQLite itself beyond the statements that the code uses, numbers that are not natural
-- (a number in a document is a natural one), and React with its rendering. A row of a page that
-- lacks a field which its table wants throws (`none` among the rows of a page). In a page without
-- `next_since_id` the id is taken as null, and a response whose id is not a string as one without an id.
pub mod Prelude
pub mod Doc
pub mod Db
pub mod Schema
pub mod Mirror
pub mod Commands
pub mod Pull
pub mod Engine
pub mod Overlay
pub mod PhotoUpload
pub mod Household
pub mod Inbox
pub mod Reads
pub mod TenantFiles
pub mod Session
pub mod SyncProvider
pub mod Web
pub mod MobileHooks
pub mod Preferences
pub mod Advancement
mod Examples
