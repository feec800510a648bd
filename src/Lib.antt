-- ===== src/Lib.antt =====
-- rekam keeps memories, short texts that link to each other, in one SQLite file for each person or
-- team, and serves them to people and agents. A call comes in over HTTP or MCP; internal/engine
-- finds the identity, the file and the scope of the caller, checks what the scope allows, and calls
-- internal/db, which reads and writes the tables of the file.
--
-- The parts and their files:
--   Prelude       lists, texts and tests that all parts share
--   Scope         internal/db/scope.go: Scope, its predicates, the SQL fragments and LIKE
--   Links         internal/db/links.go: parseLinks, splitRel, normalizeLink
--   Store         internal/db/memory.go: the tables, Get, Tombstone, titleConflict; tokens.go
--   Store/Edges   syncEdges, deletedTargets
--   Store/Write   Insert, Update, Delete, RebuildEdges, RevisionAt; Keeps, Burned and History have
--                 what holds of every sequence of writes
--   Store/Read    List, Scope, Tombstones, Catalog, Search, Revisions, TitleTaxonomy
--   Store/Health  InboundLinkCount, Backlinks, EdgeHealth
--   Store/Words   sanitizeFTSQuery, ftsOrQuery
--   Store/Suggest internal/db/suggest.go: SuggestLinks
--   Review        internal/db/srs.go: the deck, Grade, DueReviews
--   Graph         internal/db/graph.go: Graph, includedNodes
--   Members       internal/db/members.go: roles, PutMember, EffectiveMember
--   Team          internal/engine/engine.go: SetMember, RemoveMember and their guards
--   Engine        internal/engine/engine.go: WriteMemory, UpdateMemory, RestoreRevision, DeleteMemory,
--                 GetMemory, redactLinkResolution
--   Registry      internal/db/registry.go: the tables of registry.sqlite, identities and their keys
--   Registry/Directory  the teams and the index of their members; TeamsOwnedBy of entitlements.go
--   Registry/Grants     MintDelegatedGrant, ResolveGrant, MintGrant, RevokeGrant, ListGrants
--   Registry/Tickets    codes, consent tickets, sessions, invitations; oauth_clients.go
--   Registry/Passwords  internal/db/users.go: HashPassword, verifyPassword
--   Registry/Users      internal/db/users.go: sign-up, login, confirmation, reset
--   Registry/Events     histories: lists of calls of the registry's operations
--   Auth          internal/engine/engine.go: session tokens, resolveBearer, resolveTenant,
--                 BearerForTeam; internal/mcp/server.go: teamBoundKey
--   Workspaces    internal/engine/engine.go: MintGrantByID, MintGrant, MyTeams
--   OAuth         internal/api/oauth_handlers.go: the handlers of /authorize, /token and /register
--   Invites       internal/engine/engine.go: InviteMember, AcceptInvite, CreateTeam, RenameTeam,
--                 DeleteTeam, AdminDeleteTeam
--   RateLimit     internal/api/ratelimit.go: the token buckets
--   Redirect      internal/api/redirect_uri.go: redirectURIAllowed
--   UpdateCheck   internal/updatecheck/updatecheck.go: parse, compareVersions, Compare
--   Entitlements  internal/db/entitlements.go
--   Template      internal/db/taxonomy_template.go
--   Examples      runs and instances on small inputs
--
-- How the state and the operations correspond. A table is the list of its rows, a column that may be
-- NULL an Option, and a statement the function that it computes: WHERE is `select`, a single row the
-- first that fits, ORDER BY a stable sort, and rows that a query leaves in any order keep the order
-- of the table. An operation takes the state and returns a result with the new state; a transaction
-- that fails returns an error and so leaves the state as it was. The clock, the ids that uuid.New
-- makes, the identity, the scope and the size of the file are arguments. Primary and foreign keys
-- are checks that fail the operation. Failures of the disk, the driver and the encoding are left out.
--
-- Bounds. A text is the list of its bytes; blanks, letters and cases are those of ASCII, while the
-- program's own functions know Unicode. Times are whole seconds, and those of the rate limiter whole
-- ticks, of which a token has as many units as a window, so that its fractions are exact. The ease
-- of a card and the ranks of a search are in hundredths where the program has floating point.
-- Numbers do not overflow; the version numbers of the update check keep the range of an int. There
-- is no fuel: every loop is a structural recursion, the search of the graph over its depth, which is
-- 4 at most. What FTS5 matches and how it ranks, url.Parse and net.ParseIP are parameters, and so are
-- the hash of a key, the HMAC of a session token, the challenge of a verifier, PBKDF2 and base64,
-- with the laws of each where a theorem needs one. Random ids, keys, tokens and salts are arguments.
--
-- A node is the registry, the rosters of the files by their path, and the write leases. A call that
-- writes the registry and a file is one step; what is left when the second write fails is not
-- modelled, nor the sweep of expired rows before an insertion that fails. A list in a column of JSON
-- is the list.
--
-- Not modelled: opening and migrating files, the blobs of files.go, replication and the pool of open
-- files, the wrappers of internal/engine/users.go with their mail, the HTTP and MCP handlers other
-- than those above, and the command line. They are access to disks and networks around the parts
-- above.
pub mod Prelude
pub mod Scope
pub mod Links
pub mod Store
pub mod Review
pub mod Graph
pub mod Members
pub mod Team
pub mod Registry
pub mod Auth
pub mod Workspaces
pub mod OAuth
pub mod Invites
pub mod Engine
pub mod RateLimit
pub mod UpdateCheck
pub mod Redirect
pub mod Entitlements
pub mod Template
pub mod Examples
