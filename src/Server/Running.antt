-- ===== src/Server/Running.antt =====
-- internal/server/server.go: New, ReloadConfig and the handlers of the management interface that
-- change or show the server's state. What other packages and libraries do comes in through an
-- Environment. Metrics, tracing, the listening servers and the writing of JSON are left out: a reply
-- is its status and what its body shows. A call of an operation reads the clock once.
pub mod Handlers
pub mod Laws
pub mod Life
pub mod Rollback
pub mod Overlap
use the_redirector.Base.{
  ℕ, Bool, true, false, ◌&&◌, Option, none, some, List, [], ◌∷◌, map, Bytes, lit, length, ℤ, pos,
  ltb_ℤ, if◌then◌else◌, Result, ok, err, ◌>>=◌,
}
use the_redirector.Config.{
  Engine, StatsConfig, ApiKeyConfig, AuthConfig, PathLimitConfig, RateLimitConfig,
}
use the_redirector.Config as Configuration
use the_redirector.Config.Load.{Files, LoadError, load_directory}
use the_redirector.Router as Routes
use the_redirector.Stats as Statistics
use the_redirector.Auth as Access
use the_redirector.RateLimit as Limits
use the_redirector.Versioning.Changes.{Outside}
use the_redirector.Versioning.Store.{ConfigVersion, Store, new_store, add}
use the_redirector.Versioning.Audit.{AuditLog, new_audit_log, log_config_change}

-- R is the type of compiled patterns, F of floating numbers, I of addresses, N of networks and B of
-- token buckets.
pub record Environment (R F I N B : Type 0) : Type 0 where
  pub engine : Engine R
  pub files : Files R F
  pub versions : Outside F
  pub floats : Statistics.Floats F
  pub limits : Limits.Outside F I N B
  pub network : Access.Network I N
  -- json.Unmarshal into a struct with a field version of type int
  pub parse_version : Bytes → Option ℤ
  -- strconv.Atoi
  pub atoi : Bytes → Option ℤ

-- D is the type of the details of events, H of their handlers.
pub record Server (R F I N B D H : Type 0) : Type 0 where
  pub cfg : Configuration.Config R F
  pub config_path : Bytes
  pub router : Routes.Router R
  pub stats : Statistics.Collector F
  pub auth_middleware : Option (Access.Middleware I N)
  pub version_store : Store R F
  pub audit_log : AuditLog D H
  pub rate_limiter : Option (Limits.Limiter F N B H)

module _ {F : Type 0} where
  -- The configuration of the collector: the defaults, and what is set.
  stats_config : Statistics.Floats F → (F → Bool) → Option (StatsConfig F) → Statistics.Config F
  stats_config floats positive none = record {
    enabled = false;
    buffer_size = pos 1000;
    sampling_rate = floats.one;
  }
  stats_config floats positive (some c) = record {
    enabled = c.enabled;
    buffer_size = if ltb_ℤ (pos 0) c.buffer_size then c.buffer_size else pos 1000;
    sampling_rate = if positive c.sampling_rate then c.sampling_rate else floats.one;
  }

  path_limit : PathLimitConfig F → Limits.PathLimit F
  path_limit p = record { path = p.path; rps = p.rps; burst = p.burst }

  -- The configuration of the limiter; the intervals of the cleanup are not set.
  rate_limit_config : RateLimitConfig F → Limits.Config F
  unfolding path_limit
  rate_limit_config c = record {
    enabled = c.enabled;
    global_rps = c.global_rps;
    global_burst = c.global_burst;
    per_ip_rps = c.per_ip_rps;
    per_ip_burst = c.per_ip_burst;
    path_limits = map path_limit c.path_limits;
    cleanup_interval = 0;
    ip_ttl = 0;
    trust_proxy = c.trust_proxy;
    exempt_ips = c.exempt_ips;
  }

api_key_entry : ApiKeyConfig → Access.ApiKeyEntry
api_key_entry k = record { name = k.name; key = k.key; permissions = k.permissions }

jwt_config : Configuration.JwtConfig → Access.JwtConfig
jwt_config j = record {
  enabled = j.enabled;
  secret = j.secret;
  public_key = j.public_key;
  issuer = j.issuer;
  audience = j.audience;
}

auth_config : AuthConfig → Access.Config
unfolding api_key_entry jwt_config
auth_config c = record {
  enabled = c.enabled;
  api_keys = map api_key_entry c.api_keys;
  jwt = elim c.jwt [ none ↦ none | some j ↦ some (jwt_config j) ];
  allow_ips = c.allow_ips;
}

module _ {R F I N B D H : Type 0} where
  -- The part of ReloadConfig under the lock.
  unfoldable pub swap_config :
      Server R F I N B D H → Configuration.Config R F → Server R F I N B D H
  swap_config s cfg = record s { cfg = cfg; router = Routes.new cfg.rules }

module _ {R F I N B : Type 0} (env : Environment R F I N B) where
  pub new_auth : Option AuthConfig → Result Access.AuthError (Option (Access.Middleware I N))
  unfolding auth_config
  new_auth none = ok none
  new_auth (some c) = do m ← Access.new_middleware env.network (auth_config c); ok (some m)

module _ {R F I N B H : Type 0} (env : Environment R F I N B) where
  -- The handler that is told of a limited request counts it.
  new_limiter : H → Option (RateLimitConfig F) → Option (Limits.Limiter F N B H)
  unfolding rate_limit_config
  new_limiter counter none = none
  new_limiter counter (some c) =
      if c.enabled
      then some
          (Limits.set_on_limited env.limits (Limits.new env.limits (rate_limit_config c)) counter)
      else none

module _ {R F I N B D H : Type 0} (env : Environment R F I N B) where
  -- The configuration is recorded as a version, and the version as an event of a type, with its actor
  -- and source.
  unfoldable pub record_config :
      Server R F I N B D H
      → ℕ
      → Configuration.Config R F
      → Bytes
      → Bytes
      → Bytes
      → Server R F I N B D H
  record_config s now cfg path type source =
      let (v, store) = add env.versions s.version_store now cfg path in
      record s {
        version_store = store;
        audit_log = (log_config_change s.audit_log now type v (lit "system") source).1;
      }

  -- New
  unfoldable pub new_server :
      H → ℕ → Configuration.Config R F → Bytes → Result Access.AuthError (Server R F I N B D H)
  unfolding stats_config new_auth new_limiter record_config
  new_server counter now cfg path = do
    auth ← new_auth env cfg.auth
    ok (
        record_config
          (record {
            cfg = cfg;
            config_path = path;
            router = Routes.new cfg.rules;
            stats =
                Statistics.new_collector env.floats now
                  (stats_config env.floats env.limits.positive cfg.stats);
            auth_middleware = auth;
            version_store = new_store (pos 10);
            audit_log = new_audit_log (pos 1000);
            rate_limiter = new_limiter env counter cfg.rate_limit;
          })
          now cfg path (lit "config_loaded") (lit "startup"))

  -- The part of ReloadConfig behind it.
  unfoldable pub record_reload :
      Server R F I N B D H → ℕ → Configuration.Config R F → Bytes → Server R F I N B D H
  unfolding record_config
  record_reload s now cfg path = record_config s now cfg path (lit "config_reloaded") (lit "reload")

  unfoldable pub reload_with :
      Server R F I N B D H
      → ℕ
      → Bytes
      → Result LoadError (Configuration.Config R F)
      → Option LoadError × Server R F I N B D H
  reload_with s now path (err e) = (some e, s)
  reload_with s now path (ok cfg) = (none, record_reload (swap_config s cfg) now cfg path)

  -- ReloadConfig: the error, if there is one, and the server behind it.
  unfoldable pub reload_config :
      Server R F I N B D H → ℕ → Bytes → Option LoadError × Server R F I N B D H
  unfolding reload_with
  reload_config s now path = reload_with s now path (load_directory env.engine env.files path)
