-- ===== src/Server/Running/Life.antt =====
-- The life of a server (internal/server/server.go): the requests that it serves one after the other,
-- and what holds of the configuration in use behind any of them.
use the_redirector.Base.{
  ℕ, ◌≡◌, refl, sym, subst, inl, inr, Option, none, some, List, [], ◌∷◌, Bytes, Dict, ℤ, ok,
  Option-cases, arith,
}
use the_redirector.Config as Configuration
use the_redirector.Router as Routes
use the_redirector.Stats.{Collector}
use the_redirector.Versioning.Store.{ConfigVersion, current}
use the_redirector.Versioning.Store.Laws.{readers_refine}
use the_redirector.Server.Redirect.{Incoming, Answer, handle_redirect, record_answer}
use the_redirector.Server.Management.{
  Endpoint, get_health, get_ready, get_metrics, get_config, get_rules, get_stats, get_stats_live,
  get_stats_rule, stats_enabling, stats_disabling, stats_resetting, reloading, get_versions,
  get_current_version, rolling_back, get_audit, pprof_index, pprof_cmdline, pprof_profile,
  pprof_symbol, pprof_trace, pprof_handler, debug_vars, debug_config, debug_rules, debug_runtime,
}
use the_redirector.Server.Running.{Environment, Server, new_server}
use the_redirector.Server.Running.Handlers.{
  Call, HttpReply, handle_endpoint, handle_reload, handle_rollback, handle_stats_rule,
  handle_current_version, shown, handle_health, handle_ready, handle_config, handle_rules,
  handle_stats_live, handle_stats_enable, handle_stats_disable, handle_stats_reset, handle_versions,
  handle_audit,
}
use the_redirector.Server.Running.Laws.{
  IsServer, new_server-IsServer, handle_reload-IsServer, handle_rollback-IsServer,
}

-- A request: to the management server, at a time, with its endpoint, or to the redirect server, with
-- its start and latency.
pub data Event : Type 0 where
  managed : ℕ → Endpoint → Call → Event
  incoming : Incoming → ℕ → ℕ → Event

module _ {R F I N B D H : Type 0} (env : Environment R F I N B)
    (range_headers : Dict Bytes → Dict Bytes) (sent : ℤ → ℤ) where
  record_served : Server R F I N B D H → Incoming → ℕ → ℕ → Option Answer → Server R F I N B D H
  record_served s r start latency none = s
  record_served s r start latency (some answer) = record s {
    stats = record_answer env.engine env.floats sent s.router r answer start latency s.stats;
  }

  -- One request, and the server behind it.
  unfoldable pub step : Server R F I N B D H → Event → Server R F I N B D H
  unfolding record_served
  step s (managed now e call) = (handle_endpoint env s now e call).1
  step s (incoming r start latency) =
      record_served s r start latency (handle_redirect env.engine range_headers s.router r)

  unfoldable pub run : Server R F I N B D H → List Event → Server R F I N B D H
  run s [] = s
  run s (event ∷ events) = run (step s event) events

module _ {R F I N B D H : Type 0} where
  -- The statistics take no part in it.
  with_stats-IsServer :
      (s : Server R F I N B D H) (stats : Collector F)
      → IsServer s
      → IsServer (record s { stats = stats })
  with_stats-IsServer s stats w = record {
    newest = w.newest;
    older = w.older;
    stored = w.stored;
    in_use = w.in_use;
    routes = w.routes;
  }

  server-handle_stats_rule :
      (s : Server R F I N B D H) (call : Call) → (handle_stats_rule s call).1 ≡ s
  unfolding handle_stats_rule
  server-handle_stats_rule s call = ground arith

  server-handle_current_version : (s : Server R F I N B D H) → (handle_current_version s).1 ≡ s
  unfolding handle_current_version
  server-handle_current_version s = ground arith

module _ {R F I N B D H : Type 0} (env : Environment R F I N B) where
  server-shown : (r : HttpReply D × Server R F I N B D H) → (shown env r).1 ≡ r.1
  unfolding shown
  server-shown (reply, s) = refl

  shown-IsServer :
      (r : HttpReply D × Server R F I N B D H) → IsServer r.1 → IsServer (shown env r).1
  shown-IsServer r w = subst IsServer (sym (server-shown r)) w

  handle_endpoint-IsServer :
      (s : Server R F I N B D H) (now : ℕ) (e : Endpoint) (call : Call)
      → IsServer s
      → IsServer (handle_endpoint env s now e call).1
  unfolding handle_endpoint shown handle_health handle_ready handle_config handle_rules
      handle_stats_live handle_stats_enable handle_stats_disable handle_stats_reset handle_versions
      handle_audit
  handle_endpoint-IsServer s now get_health call w = w
  handle_endpoint-IsServer s now get_ready call w = w
  handle_endpoint-IsServer s now get_metrics call w = w
  handle_endpoint-IsServer s now get_config call w = w
  handle_endpoint-IsServer s now get_rules call w = w
  handle_endpoint-IsServer s now get_stats call w = w
  handle_endpoint-IsServer s now get_stats_live call w = w
  handle_endpoint-IsServer s now get_stats_rule call w =
      shown-IsServer (handle_stats_rule s call)
        (subst IsServer (sym (server-handle_stats_rule s call)) w)
  handle_endpoint-IsServer s now stats_enabling call w = (with_stats-IsServer s _ w)
  handle_endpoint-IsServer s now stats_disabling call w = (with_stats-IsServer s _ w)
  handle_endpoint-IsServer s now stats_resetting call w = (with_stats-IsServer s _ w)
  handle_endpoint-IsServer s now reloading call w =
      shown-IsServer (handle_reload env s now call) (handle_reload-IsServer env s now call w)
  handle_endpoint-IsServer s now get_versions call w = w
  handle_endpoint-IsServer s now get_current_version call w =
      shown-IsServer (handle_current_version s)
        (subst IsServer (sym (server-handle_current_version s)) w)
  handle_endpoint-IsServer s now rolling_back call w =
      shown-IsServer (handle_rollback env s now call) (handle_rollback-IsServer env s now call w)
  handle_endpoint-IsServer s now get_audit call w = w
  handle_endpoint-IsServer s now pprof_index call w = w
  handle_endpoint-IsServer s now pprof_cmdline call w = w
  handle_endpoint-IsServer s now pprof_profile call w = w
  handle_endpoint-IsServer s now pprof_symbol call w = w
  handle_endpoint-IsServer s now pprof_trace call w = w
  handle_endpoint-IsServer s now pprof_handler call w = w
  handle_endpoint-IsServer s now debug_vars call w = w
  handle_endpoint-IsServer s now debug_config call w = w
  handle_endpoint-IsServer s now debug_rules call w = w
  handle_endpoint-IsServer s now debug_runtime call w = w

module _ {R F I N B D H : Type 0} (env : Environment R F I N B)
    (range_headers : Dict Bytes → Dict Bytes) (sent : ℤ → ℤ) where
  step-IsServer :
      (s : Server R F I N B D H) (event : Event)
      → IsServer s
      → IsServer (step env range_headers sent s event)
  unfolding step record_served
  step-IsServer s (managed now e call) w = handle_endpoint-IsServer env s now e call w
  step-IsServer s (incoming r start latency) w =
      elim (Option-cases (handle_redirect env.engine range_headers s.router r)) [
        | inl panic ↦ rw panic w
        | inr (answer, e) ↦ rw e (with_stats-IsServer s _ w)
      ]

  run-IsServer :
      (s : Server R F I N B D H) (events : List Event)
      → IsServer s
      → IsServer (run env range_headers sent s events)
  unfolding run
  run-IsServer s [] w = w
  run-IsServer s (event ∷ events) w =
      run-IsServer (step env range_headers sent s event) events (step-IsServer s event w)

  -- A server that New made, behind any requests to its two servers, one after the other: the router is
  -- that of the rules of the configuration in use, and the current version of the store holds this
  -- configuration.
  pub run-in_use :
      (counter : H) (now : ℕ) (cfg : Configuration.Config R F) (path : Bytes)
      (s : Server R F I N B D H) (events : List Event)
      → new_server env counter now cfg path ≡ ok s
      → let s' = run env range_headers sent s events in
        (s'.router ≡ Routes.new s'.cfg.rules)
        × ((v : ConfigVersion R F) × (current s'.version_store ≡ some v) × (v.config ≡ s'.cfg))
  run-in_use counter now cfg path s events made =
      let w = run-IsServer s events (new_server-IsServer env counter now cfg path s made) in
      let readers = readers_refine _ _ w.stored in (w.routes, (w.newest, readers.1, w.in_use))
