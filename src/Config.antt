-- ===== src/Config.antt =====
-- internal/config/config.go: the configuration of the redirector. The types of the file, and the
-- methods that read one response or rule. Loading, defaults and validation are in the children.
-- A regular expression is a value of a type `R` that the Go library implements.
pub mod Defaults
pub mod Glob
pub mod Load
pub mod ShortForm
pub mod Validate
use the_redirector.Base.{
  ℕ, Bool, ◌&&◌, not, Option, List, Bytes, is_empty, Dict, ℤ, ltb_ℤ, pos, if◌then◌else◌,
}

-- The operations of package regexp that the program uses.
pub record Engine (R : Type 0) : Type 0 where
  -- regexp.Compile; `none` is its error
  pub compile : Bytes → Option R
  -- FindStringSubmatch: the match and its groups
  pub find_submatch : R → Bytes → Option (List Bytes)
  -- ReplaceAllString(src, repl)
  pub replace_all : R → Bytes → Bytes → Bytes

-- MatchType is a string, so a configuration can hold any other text.
pub data MatchType : Type 0 where
  exact prefix regex glob : MatchType
  -- ""
  unset : MatchType
  other : Bytes → MatchType

pub record Match : Type 0 where
  pub type : MatchType
  pub path : Bytes
  pub pattern : Bytes
  pub host : Bytes
  pub conditions : Dict Bytes

pub record Response : Type 0 where
  pub status : ℤ
  pub location : Bytes
  pub to : Bytes
  pub body : Bytes
  pub preserve_path : Bool
  pub preserve_query : Option Bool
  pub headers : Dict Bytes

pub record Rule (R : Type 0) : Type 0 where
  pub id : Bytes
  pub match : Match
  pub redirect : Response
  pub priority : ℤ
  pub compiled_regex : Option R

-- (*Response).GetLocation
unfoldable pub get_location : Response → Bytes
get_location r = if not (is_empty r.location) then r.location else r.to

-- (*Response).IsRedirect
unfoldable pub is_redirect : Response → Bool
is_redirect r = not (ltb_ℤ r.status (pos 300)) && ltb_ℤ r.status (pos 400)

pub record ServerConfig : Type 0 where
  pub port : ℤ
  pub management_port : ℤ
  pub read_timeout : Bytes
  pub write_timeout : Bytes
  pub idle_timeout : Bytes
  pub max_connections : ℤ

pub record DefaultConfig : Type 0 where
  pub status_code : ℤ
  pub preserve_query : Bool
  pub headers : Dict Bytes

-- A float64 enters as a value of a type `F`; the model never computes with it.
pub record StatsConfig (F : Type 0) : Type 0 where
  pub enabled : Bool
  pub buffer_size : ℤ
  pub sampling_rate : F

pub record ApiKeyConfig : Type 0 where
  pub name : Bytes
  pub key : Bytes
  pub permissions : List Bytes

pub record JwtConfig : Type 0 where
  pub enabled : Bool
  pub secret : Bytes
  pub public_key : Bytes
  pub issuer : Bytes
  pub audience : Bytes

pub record AuthConfig : Type 0 where
  pub enabled : Bool
  pub api_keys : List ApiKeyConfig
  pub jwt : Option JwtConfig
  pub allow_ips : List Bytes

pub record TracingConfig (F : Type 0) : Type 0 where
  pub enabled : Bool
  pub endpoint : Bytes
  pub service_name : Bytes
  pub environment : Bytes
  pub sampling_rate : F
  pub insecure : Bool

pub record PathLimitConfig (F : Type 0) : Type 0 where
  pub path : Bytes
  pub rps : F
  pub burst : ℤ

pub record RateLimitConfig (F : Type 0) : Type 0 where
  pub enabled : Bool
  pub global_rps : F
  pub global_burst : ℤ
  pub per_ip_rps : F
  pub per_ip_burst : ℤ
  pub path_limits : List (PathLimitConfig F)
  pub trust_proxy : Bool
  pub exempt_ips : List Bytes

pub record Config (R F : Type 0) : Type 0 where
  pub version : Bytes
  pub server : ServerConfig
  pub defaults : DefaultConfig
  pub stats : Option (StatsConfig F)
  pub auth : Option AuthConfig
  pub tracing : Option (TracingConfig F)
  pub rate_limit : Option (RateLimitConfig F)
  pub rules : List (Rule R)
