-- ===== src/Server/Management.antt =====
-- internal/server/server.go: handleManagement and requirePermission, behind the authentication that New
-- puts before them. What an endpoint's own handler does is in Running, where it changes the state; the
-- others only write out what they read.
pub mod Admission
use the_redirector.Base.{
  Bool, true, false, not, Option, none, some, Bytes, lit, ◌=s◌, has_prefix, if◌then◌else◌,
}
use the_redirector.Auth.{
  Permission, Principal, has_permission, Request, Network, Middleware, Reply, handled, wrap,
}

pub data Endpoint : Type 0 where
  get_health get_ready get_metrics get_config get_rules : Endpoint
  get_stats get_stats_live get_stats_rule stats_enabling stats_disabling stats_resetting : Endpoint
  reloading get_versions get_current_version rolling_back get_audit : Endpoint
  pprof_index pprof_cmdline pprof_profile pprof_symbol pprof_trace pprof_handler : Endpoint
  debug_vars debug_config debug_rules debug_runtime : Endpoint

-- The switch over the path; `none` is its default.
pub route : Bytes → Option Endpoint
route path =
    if path =s lit "/health"
    then some get_health
    else if path =s lit "/ready"
    then some get_ready
    else if path =s lit "/metrics"
    then some get_metrics
    else if path =s lit "/api/v1/config"
    then some get_config
    else if path =s lit "/api/v1/rules"
    then some get_rules
    else if path =s lit "/stats"
    then some get_stats
    else if has_prefix path (lit "/stats/live")
    then some get_stats_live
    else if has_prefix path (lit "/stats/rule/")
    then some get_stats_rule
    else if path =s lit "/stats/enable"
    then some stats_enabling
    else if path =s lit "/stats/disable"
    then some stats_disabling
    else if path =s lit "/stats/reset"
    then some stats_resetting
    else if path =s lit "/api/v1/reload"
    then some reloading
    else if path =s lit "/api/v1/versions"
    then some get_versions
    else if path =s lit "/api/v1/versions/current"
    then some get_current_version
    else if path =s lit "/api/v1/rollback"
    then some rolling_back
    else if path =s lit "/api/v1/audit"
    then some get_audit
    else if path =s lit "/debug/pprof/"
    then some pprof_index
    else if path =s lit "/debug/pprof/cmdline"
    then some pprof_cmdline
    else if path =s lit "/debug/pprof/profile"
    then some pprof_profile
    else if path =s lit "/debug/pprof/symbol"
    then some pprof_symbol
    else if path =s lit "/debug/pprof/trace"
    then some pprof_trace
    else if has_prefix path (lit "/debug/pprof/")
    then some pprof_handler
    else if path =s lit "/debug/vars"
    then some debug_vars
    else if path =s lit "/debug/config"
    then some debug_config
    else if path =s lit "/debug/rules"
    then some debug_rules
    else if path =s lit "/debug/runtime"
    then some debug_runtime
    else none

-- The permission that an endpoint's case asks for.
abbrev pub guard_of : Endpoint → Option Permission
guard_of get_health = none
guard_of get_ready = none
guard_of get_metrics = none
guard_of get_config = some (lit "read")
guard_of get_rules = some (lit "read")
guard_of get_stats = some (lit "stats:read")
guard_of get_stats_live = some (lit "stats:read")
guard_of get_stats_rule = some (lit "stats:read")
guard_of stats_enabling = some (lit "stats:write")
guard_of stats_disabling = some (lit "stats:write")
guard_of stats_resetting = some (lit "stats:write")
guard_of reloading = some (lit "reload")
guard_of get_versions = some (lit "read")
guard_of get_current_version = some (lit "read")
guard_of rolling_back = some (lit "write")
guard_of get_audit = some (lit "read")
guard_of pprof_index = some (lit "admin")
guard_of pprof_cmdline = some (lit "admin")
guard_of pprof_profile = some (lit "admin")
guard_of pprof_symbol = some (lit "admin")
guard_of pprof_trace = some (lit "admin")
guard_of pprof_handler = some (lit "admin")
guard_of debug_vars = some (lit "admin")
guard_of debug_config = some (lit "admin")
guard_of debug_rules = some (lit "admin")
guard_of debug_runtime = some (lit "admin")

-- What the management handler does with a request: it runs an endpoint's handler, or sends 404, 401 or
-- 403 itself.
pub data Served : Type 0 where
  endpoint : Endpoint → Served
  unknown_path authentication_required : Served
  permission_denied : Permission → Served

module _ {I N : Type 0} where
  -- authMiddleware != nil && authMiddleware.IsEnabled()
  abbrev pub is_on : Option (Middleware I N) → Bool
  is_on none = false
  is_on (some m) = m.config.enabled

  -- requirePermission; `none` is true, and otherwise what was sent.
  pub refusal : Option (Middleware I N) → Request I → Permission → Option Served
  refusal mw r perm = if not (is_on mw) then none else elim r.principal [
    | none ↦ some authentication_required
    | some p ↦ if not (has_permission p perm) then some (permission_denied perm) else none
  ]

  guarded : Option (Middleware I N) → Request I → Endpoint → Option Permission → Served
  unfolding refusal
  guarded mw r e none = endpoint e
  guarded mw r e (some perm) = elim (refusal mw r perm) [ none ↦ endpoint e | some sent ↦ sent ]

  -- handleManagement
  unfoldable pub handle_management : Option (Middleware I N) → Bytes → Request I → Served
  unfolding guarded
  handle_management mw path r = elim (route path) [
    | none ↦ unknown_path
    | some e ↦ guarded mw r e (guard_of e)
  ]

  -- The handler that New gives to the management server.
  unfoldable pub serve : Network I N → Option (Middleware I N) → Bytes → Request I → Reply Served
  serve network none path r = handled (handle_management none path r)
  serve network (some m) path r =
      if m.config.enabled
      then wrap network m (λ r'. handled (handle_management (some m) path r')) r
      else handled (handle_management (some m) path r)
