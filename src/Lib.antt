-- ===== src/Lib.antt =====
-- gotifacts: a host of static sites behind one HTTP server. This library models the parts of the
-- server that decide which site a request means, who may change it, what its registry records, and
-- what its files are.
--
-- The parts, and how they interact:
--   * internal/router names a site by a path (group and slug), which is also a host name and a
--     directory. A request is dispatched on its host, to the portal and the API of a configured
--     domain or to the server of sites, which reads the site from the host with ParseHost.
--   * internal/keys defines the capabilities that an API key grants, as text in the registry.
--   * internal/auth gives a request a principal, and decides from its grants whether it may act
--     on a site, whose group and slug are compared as directories with the target of each grant.
--   * internal/archive unpacks the archive that is published as the content of a site into a
--     directory, from which internal/ingest moves it to the site's own. It keeps the content that
--     is replaced as a version, moves what is deleted to a quarantine, and brings either back.
--   * internal/sitefs joins, walks and tests the published files for the tools that read them.
--   * internal/store keeps the registry of sites, one row for each group and slug, with a trash
--     from which a site is restored or purged, the API keys, and the clients, codes and tokens of
--     the OAuth server.
--   * internal/mcpserver lets a program act for a user: it registers as a client, the user consents
--     on a screen of the portal, and the code it gets is exchanged for tokens, which carry grants
--     like an API key. Its tools then publish, change and read sites with those grants.
--
-- The files:
--   * Prelude and its children: lists, Boolean tests and results, shared by all parts.
--   * Text and its children: Go strings as lists of bytes, with the functions of `strings` that
--     the source uses. Hosts, labels and targets are read as ASCII: case folding and the trimming
--     of space treat the bytes of ASCII as Go does, and leave other bytes alone.
--   * Router: internal/router/sitepath.go and handler.go. Router.Label is LabelPattern,
--     Router.SitePath the type SitePath with Validate and NewSitePath, Router.Host the functions
--     normalizeHost, hostLabels, ParseHost, IsBaseHost, MatchDomain and Dispatch.ServeHTTP.
--   * Keys: internal/keys/keys.go, the functions on capabilities.
--   * Auth: internal/auth/auth.go and middleware.go. Principals, grants and Principal.Can, and in
--     Auth.Planes how a request gets its principal on the management plane, with IsAdminUser and
--     TrustsAddr of internal/config/config.go; the addresses of net/netip are a parameter.
--     Auth.Spelling is about Can on a group and slug that NewSitePath has still to clean.
--   * Store: internal/store/sites.go. Store.Site has the rows and the statements on them,
--     Store.Sites each method of Store on the table of sites, as a function from the table and the
--     time to the table and a result. Store.Sites.Lifecycle states what the methods are to do to
--     the one row of their key; the files beside it prove it.
--     Store.ApiKeys has the tables of keys and grants of internal/store/keys.go, and Auth.KeyPlane
--     the principal of a key, with the hash of tokens as a parameter.
--   * Archive: internal/archive/archive.go. The entries that the readers of tar and zip give are
--     data, and so is what an extraction does to the files (Effect). Archive.Paths is about
--     cleanRel, Archive.SafeJoin about safeJoin, Archive.Prefix about singleRootPrefix, and
--     Archive.Confinement and Archive.Bounds about the two extractions; Archive.Writing has
--     WriteSingleIndex and WriteTarGz.
--   * Files: the calls of `os` that the publisher makes, on a disk that is a list of paths with a
--     directory or the bytes of a file. Files.Frames says which paths they leave alone.
--   * Ingest: internal/ingest/ingest.go and versions.go. Each operation of Publisher is a function
--     from the disk and the table of sites to both and a result. Ingest.Publish has Publish and
--     BackfillSizes, Ingest.Versions swap, the versions and the two rollbacks, Ingest.Trash the
--     quarantine; Ingest.Changes makes the operations values, and Ingest.Isolation is about all of
--     them; Ingest.Swapping and Ingest.Live are about the way of a payload to the site, and
--     Ingest.Recovery about the quarantine. The favicon of a content, the texts of a time, and the
--     name of a staging directory are parameters.
--   * SiteFs: internal/sitefs/sitefs.go, with the sniffer of `net/http` and the parser of `mime` as
--     parameters. Text.Utf8 has the functions of `unicode/utf8`.
--   * Store.OAuth: internal/store/oauth.go, the tables as lists of rows.
--   * Mcp: internal/mcpserver/oauth.go and consent.go, with verifyToken of mcpserver.go. Mcp.Service
--     is the state that the handlers change, Mcp.Limiter the rateLimiter, Mcp.Registration
--     handleRegister, Mcp.Authorization checkAuthRequest, Mcp.Consent the handlers of the consent
--     screen with parseConsentGrants, and Mcp.Token the token endpoint. Each handler is a function
--     from the state and the time to the state and a reply. The bytes of the random source are a
--     list in the state, each draw a text or a failure. The hash of keys, the digest of PKCE, the
--     code of csrfToken and the parser and printer of URLs are parameters.
--     Mcp.Reading is internal/mcpserver/read.go: authorizeRead, listSites, listFiles and
--     resolveReadPath, with readChunk in Mcp.Reading.Chunk and searchFile in Mcp.Reading.Search.
--     Mcp.Tools is the tools of mcpserver.go that change sites, with buildBundle in
--     Mcp.Tools.Bundle and confirmPurge in Mcp.Tools.Confirmation.
--
-- Bounds: the label pattern is a regular expression, modelled as a test of bytes. One definition
-- has fuel, Ingest.prune_up: a directory above has fewer names, so that as many rounds as the first
-- one has names are enough; all other loops run over a list or a number that the source counts.
-- Sizes, byte limits and row ids stay below 2 ^ 63 - 1 and are natural numbers; times are
-- nanoseconds on the clock of the registry, and are compared as numbers.
--
-- Not modelled: the handlers of the HTTP API, the server of sites, the filters of ListSites and the
-- choice of a favicon; symbolic links, modes and times of files, and failures of the disk other than
-- a missing, misplaced or taken path; SQLite and statements that fail for another reason than a row
-- that is missing or taken, cryptography, randomness, logging, the command line and the web front
-- end, which are libraries or only input and output. An effect of an extraction stands for one call
-- that makes a directory with those above it, or a file with those above it, and which calls the
-- disk refuses is a parameter on their paths rather than the state of the disk. How a grant's
-- target and the group of a call are spelled is as the code compares them, byte for byte.
pub mod Prelude
pub mod Text
pub mod Router
pub mod Keys
pub mod Auth
pub mod Store
pub mod Archive
pub mod Mcp
pub mod Files
pub mod Ingest
pub mod SiteFs
