-- ===== src/Server/Running/Handlers.antt =====
-- internal/server/server.go: the handlers of the management interface. Each returns its reply and
-- the server behind it; those that only show something leave the server as it is.
use the_redirector.Base.{
  ℕ, Bool, not, Option, none, some, List, map, Bytes, lit, length, ℤ, pos, ltb_ℤ, pos_part,
  is_empty, if◌then◌else◌, trim_prefix,
}
use the_redirector.Config.Load.{LoadError}
use the_redirector.Router as Routes
use the_redirector.Stats.{
  RequestRecord, RuleCounters, get_recent_requests, get_rule_stats, enable, disable, reset,
}
use the_redirector.Auth.{Principal}
use the_redirector.Versioning.Changes.{ConfigChanges}
use the_redirector.Versioning.Store.{ConfigVersion, Store, list, current, get, rollback}
use the_redirector.Versioning.Audit.{AuditEvent, recent, log_config_change}
use the_redirector.Server.Management.{
  Endpoint, get_health, get_ready, get_metrics, get_config, get_rules, get_stats, get_stats_live,
  get_stats_rule, stats_enabling, stats_disabling, stats_resetting, reloading, get_versions,
  get_current_version, rolling_back, get_audit, pprof_index, pprof_cmdline, pprof_profile,
  pprof_symbol, pprof_trace, pprof_handler, debug_vars, debug_config, debug_rules, debug_runtime,
}
use the_redirector.Server.Running.{Environment, Server, reload_config}

-- What a request carries for the handlers: the method, the path, the body, the query argument limit,
-- the principal and the text of the address.
pub record Call : Type 0 where
  pub is_post : Bool
  pub path : Bytes
  pub body : Bytes
  pub limit : Bytes
  pub principal : Option Principal
  pub remote_ip : Bytes

-- versionInfo
pub record VersionInfo : Type 0 where
  pub version : ℕ
  pub hash : Bytes
  pub loaded_at : ℕ
  pub source : Bytes
  pub rules_count : ℕ
  pub changes : Option ConfigChanges

-- What a body shows.
pub data Body (D : Type 0) : Type 0 where
  status error : Bytes → Body D
  config_summary : Bytes → ℕ → Body D
  rules_count : ℕ → Body D
  reload_failed : LoadError → Body D
  reloaded : ℕ → Body D
  version_missing : ℤ → Body D
  rolled_back_to : ℤ → ℕ → ℕ → Body D
  versions : List VersionInfo → Body D
  version_shown : VersionInfo → Body D
  events : List (AuditEvent D) → Body D
  requests : List RequestRecord → Body D
  rule_shown : RuleCounters → Body D

-- The status and the body.
abbrev pub HttpReply : Type 0 → Type 0
HttpReply D = ℕ × Body D

module _ {R F : Type 0} where
  version_info : ConfigVersion R F → VersionInfo
  version_info v = record {
    version = v.version;
    hash = v.hash;
    loaded_at = v.loaded_at;
    source = v.source;
    rules_count = v.rules_count;
    changes = v.changes;
  }

actor_of : Option Principal → Bytes
actor_of none = lit "anonymous"
actor_of (some p) = p.id

-- The limit that the query sets, or 100.
limit_of : (Bytes → Option ℤ) → Bytes → ℤ
limit_of atoi text =
    if is_empty text
    then pos 100
    else elim (atoi text) [ none ↦ pos 100 | some n ↦ if ltb_ℤ (pos 0) n then n else pos 100 ]

module _ {R F I N B D H : Type 0} where
  unfoldable pub handle_health : Server R F I N B D H → HttpReply D × Server R F I N B D H
  handle_health s = ((200, status (lit "healthy")), s)

  unfoldable pub handle_ready : Server R F I N B D H → HttpReply D × Server R F I N B D H
  handle_ready s = ((200, status (lit "ready")), s)

  unfoldable pub handle_config : Server R F I N B D H → HttpReply D × Server R F I N B D H
  handle_config s = ((200, config_summary s.cfg.version (length s.cfg.rules)), s)

  unfoldable pub handle_rules : Server R F I N B D H → HttpReply D × Server R F I N B D H
  handle_rules s = ((200, rules_count (length s.cfg.rules)), s)

  unfoldable pub handle_versions : Server R F I N B D H → HttpReply D × Server R F I N B D H
  unfolding version_info
  handle_versions s = ((200, versions (map version_info (list s.version_store))), s)

  unfoldable pub handle_current_version : Server R F I N B D H → HttpReply D × Server R F I N B D H
  unfolding version_info
  handle_current_version s = elim (current s.version_store) [
    | none ↦ ((404, error (lit "no version available")), s)
    | some v ↦ ((200, version_shown (version_info v)), s)
  ]

  unfoldable pub handle_stats_rule :
      Server R F I N B D H → Call → HttpReply D × Server R F I N B D H
  handle_stats_rule s call =
      let id = trim_prefix call.path (lit "/stats/rule/") in
      if is_empty id
      then ((400, error (lit "rule ID required")), s)
      else elim (get_rule_stats s.stats id) [
        | none ↦ ((404, error (lit "rule not found")), s)
        | some c ↦ ((200, rule_shown c), s)
      ]

  unfoldable pub handle_stats_enable : Server R F I N B D H → HttpReply D × Server R F I N B D H
  handle_stats_enable s = ((200, status (lit "enabled")), record s { stats = enable s.stats })

  unfoldable pub handle_stats_disable : Server R F I N B D H → HttpReply D × Server R F I N B D H
  handle_stats_disable s = ((200, status (lit "disabled")), record s { stats = disable s.stats })

  unfoldable pub handle_stats_reset : Server R F I N B D H → ℕ → HttpReply D × Server R F I N B D H
  handle_stats_reset s now = ((200, status (lit "reset")), record s { stats = reset now s.stats })

module _ {R F I N B D H : Type 0} (env : Environment R F I N B) where
  unfoldable pub handle_stats_live :
      Server R F I N B D H → Call → HttpReply D × Server R F I N B D H
  unfolding limit_of
  handle_stats_live s call =
      ((200, requests (get_recent_requests s.stats (limit_of env.atoi call.limit))), s)

  unfoldable pub handle_audit : Server R F I N B D H → Call → HttpReply D × Server R F I N B D H
  unfolding limit_of
  handle_audit s call =
      ((200, events (recent s.audit_log (pos_part (limit_of env.atoi call.limit)))), s)

  -- The reply to a reload.
  unfoldable pub reload_reply :
      Option LoadError × Server R F I N B D H → HttpReply D × Server R F I N B D H
  reload_reply (some e, s) = ((500, reload_failed e), s)
  reload_reply (none, s) = ((200, reloaded (length s.cfg.rules)), s)

  -- handleReload
  unfoldable pub handle_reload :
      Server R F I N B D H → ℕ → Call → HttpReply D × Server R F I N B D H
  unfolding reload_reply
  handle_reload s now call =
      if not call.is_post
      then ((405, error (lit "method not allowed, use POST")), s)
      else if is_empty s.config_path
      then ((503, error (lit "config path not set")), s)
      else reload_reply (reload_config env s now s.config_path)

  -- The configuration of the version that the store rolled back to is put in use, and the rollback
  -- logged.
  unfoldable pub use_version :
      Server R F I N B D H → ℕ → Call → ConfigVersion R F → Store R F → Server R F I N B D H
  unfolding actor_of
  use_version s now call v store = record s {
    cfg = v.config;
    router = Routes.new v.config.rules;
    version_store = store;
    audit_log =
        (log_config_change s.audit_log now (lit "config_rollback") v (actor_of call.principal)
          call.remote_ip).1;
  }

  unfoldable pub rollback_reply :
      Server R F I N B D H
      → ℕ
      → Call
      → ℤ
      → Option (ConfigVersion R F) × Store R F
      → HttpReply D × Server R F I N B D H
  unfolding use_version
  rollback_reply s now call target (none, store) =
      ((500, error (lit "rollback failed")), record s { version_store = store })
  rollback_reply s now call target (some v, store) =
      ((200, rolled_back_to target v.version v.rules_count), use_version s now call v store)

  -- Get and Rollback take the lock of the store one after the other: `seen` is the store that Get
  -- reads, and `s` the server at Rollback.
  unfoldable pub rollback_to :
      Store R F → Server R F I N B D H → ℕ → Call → ℤ → HttpReply D × Server R F I N B D H
  unfolding rollback_reply
  rollback_to seen s now call target =
      if ltb_ℤ target (pos 1)
      then ((400, error (lit "version must be >= 1")), s)
      else elim (get seen (pos_part target)) [
        | none ↦ ((404, version_missing target), s)
        | some v ↦
            rollback_reply s now call target
              (rollback env.versions s.version_store now (pos_part target))
      ]

  -- handleRollback, where other requests may change the server between Get and Rollback
  unfoldable pub handle_rollback_from :
      Store R F → Server R F I N B D H → ℕ → Call → HttpReply D × Server R F I N B D H
  unfolding rollback_to
  handle_rollback_from seen s now call =
      if not call.is_post
      then ((405, error (lit "method not allowed, use POST")), s)
      else elim (env.parse_version call.body) [
        | none ↦ ((400, error (lit "invalid request body")), s)
        | some target ↦ rollback_to seen s now call target
      ]

  -- handleRollback, with nothing in between
  unfoldable pub handle_rollback :
      Server R F I N B D H → ℕ → Call → HttpReply D × Server R F I N B D H
  unfolding handle_rollback_from
  handle_rollback s now call = handle_rollback_from s.version_store s now call

  unfoldable pub shown :
      HttpReply D × Server R F I N B D H → Option (HttpReply D) × Server R F I N B D H
  shown (reply, s) = (some reply, s)

  -- The handler of an endpoint; the reply is `none` where the endpoint shows what is not modelled:
  -- metrics, the summary of the statistics, profiles and what the debug endpoints read of the process.
  unfoldable pub handle_endpoint :
      Server R F I N B D H → ℕ → Endpoint → Call → Option (HttpReply D) × Server R F I N B D H
  unfolding shown
  handle_endpoint s now get_health call = shown (handle_health s)
  handle_endpoint s now get_ready call = shown (handle_ready s)
  handle_endpoint s now get_metrics call = (none, s)
  handle_endpoint s now get_config call = shown (handle_config s)
  handle_endpoint s now get_rules call = shown (handle_rules s)
  handle_endpoint s now get_stats call = (none, s)
  handle_endpoint s now get_stats_live call = shown (handle_stats_live s call)
  handle_endpoint s now get_stats_rule call = shown (handle_stats_rule s call)
  handle_endpoint s now stats_enabling call = shown (handle_stats_enable s)
  handle_endpoint s now stats_disabling call = shown (handle_stats_disable s)
  handle_endpoint s now stats_resetting call = shown (handle_stats_reset s now)
  handle_endpoint s now reloading call = shown (handle_reload s now call)
  handle_endpoint s now get_versions call = shown (handle_versions s)
  handle_endpoint s now get_current_version call = shown (handle_current_version s)
  handle_endpoint s now rolling_back call = shown (handle_rollback s now call)
  handle_endpoint s now get_audit call = shown (handle_audit s call)
  handle_endpoint s now pprof_index call = (none, s)
  handle_endpoint s now pprof_cmdline call = (none, s)
  handle_endpoint s now pprof_profile call = (none, s)
  handle_endpoint s now pprof_symbol call = (none, s)
  handle_endpoint s now pprof_trace call = (none, s)
  handle_endpoint s now pprof_handler call = (none, s)
  handle_endpoint s now debug_vars call = (none, s)
  handle_endpoint s now debug_config call = (none, s)
  handle_endpoint s now debug_rules call = (none, s)
  handle_endpoint s now debug_runtime call = (none, s)
