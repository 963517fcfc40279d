-- ===== src/Lib.antt =====
-- the-redirector: an HTTP redirect service. A configuration (YAML files) lists rules; the router turns
-- them into lookup structures and answers, for each request, which rule serves it; the server keeps the
-- configurations it has run in a version store, and what was done to it in an audit log. A middleware
-- guards its management interface, a limiter bounds the requests, and a collector counts them. A syncer,
-- a service of its own, merges the rules of several sources and has its targets reload.
--
-- Files and the code they model (paths from the repository's root):
--   Base          numbers, texts as lists of bytes, maps as association lists, results, a stable sort,
--                 and the circular buffer that both stores of internal/versioning use
--   Config        internal/config/config.go: the types; Config/Load is Load, ParseBytes and
--                 LoadDirectory, Config/Defaults is applyDefaults, Config/Validate is Validate,
--                 Config/Glob is globToRegex
--   Router        internal/router/router.go: New, Match, IsAllowedHost and what they call; the children
--                 hold the proofs: the keys of exact rules, what New builds, what Match answers, the
--                 sort, and the host allowlist
--   Config/ShortForm  internal/config/shortform.go: ParseShortForm, ParseCSVLine, ToRule, generateRuleID
--                 and the loop of LoadCSVFile
--   Auth          internal/auth: permissions, API keys and the middleware
--   RateLimit     internal/ratelimit/ratelimit.go: the limiter
--   Stats         internal/stats/stats.go: the collector
--   Server        internal/server/server.go: Server/Redirect is handleRedirect, Server/Management is
--                 handleManagement and requirePermission, Server/Running is New, ReloadConfig and the
--                 handlers that change or show the state (Server/Running/Handlers), over the life of a
--                 server (Server/Running/Life) and for two reloads at once (Server/Running/Overlap)
--   Syncer        internal/syncer/syncer.go: Syncer/Merge is fetchAndMerge, Syncer/Push is doPush,
--                 pushToTarget and pushConfig, Syncer/Service is New, Sync and GetStatus, and
--                 Syncer/Webhook is ServeHTTP with its two validations
--   Lint          internal/lint/lint.go: the checks of one rule and of two; Lint/Cycles is the graph of
--                 redirects and findCycles
--   Versioning    internal/versioning: Versioning/Store is Store of version.go, Versioning/Changes is
--                 calculateChanges, Versioning/Audit is audit.go
--   Tests         the model at concrete inputs
--
-- A Go function is a function of the same name in snake case, with the state it changes as an argument
-- and a result. A loop is recursion on its list, or on the number of rounds it has left. Fuel is
-- used twice: the loop of globToRegex has the length of the pattern, which is enough, since each
-- round takes at least one byte of it, and findCycles has a depth of as many calls as there are rules,
-- which is enough, since each call colors one more rule.
--
-- From outside come, as arguments: package regexp (Engine), the file system, the environment and the
-- YAML decoder (Files), the clock, floating numbers, the order of a range over a map, the digest of a
-- configuration (Versioning/Changes.Outside), a token bucket (RateLimit.Outside), package net, the
-- authenticator of JSON web tokens (Auth.Network), strconv.Atoi and the regular expression of short-form
-- rules (Config/ShortForm.Parsers), and, for the server, json.Unmarshal of a rollback's body
-- (Server/Running.Environment). To the syncer come the answers of its sources, the responses of its
-- targets and the HMAC of a webhook's body, and to the linter url.Parse and the fixed expression that
-- finds nested quantifiers; cycleKey is an argument of findCycles, whose results hold for any key. What
-- fasthttp makes of a status that is none of a redirect's is a function (Server/Redirect.status_of).
-- net.SplitHostPort is written out from its documentation. White space and letter case are those of
-- ASCII. The sort of the rules is the stable insertion sort:
-- sort.SliceStable gives its result whenever the comparison is a strict weak order, and for any
-- comparison on lists of up to 20 rules. sort.Slice, which the syncer uses, need not be stable and is an
-- argument (Base/Sort.SortSlice), which keeps the elements and puts them in order.
--
-- A handler is one step, but for two: ReloadConfig is a swap and a record (Server/Running/Overlap), and
-- handleRollback reads the store at Get and works on the server at Rollback (handle_rollback_from). What
-- handleRollback does from Rollback on is one step.
--
-- Not modelled: the debug endpoints and the profiles of the management interface, the writing of JSON,
-- JSON web tokens, GetSummary of the collector, the loaders with includes, the linter's cycle keys,
-- self-loops of prefixes, sample tracing and lint of several sources, the providers of remote
-- configurations, metrics, tracing, logging, the file watcher, and the command line tools.
pub mod Auth
pub mod Base
pub mod Config
pub mod Lint
pub mod RateLimit
pub mod Router
pub mod Server
pub mod Stats
pub mod Syncer
pub mod Tests
pub mod Versioning
