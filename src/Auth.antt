-- ===== src/Auth.antt =====
-- internal/auth: permissions (auth.go), API keys (apikey.go) and the middleware (middleware.go).
-- What a request carries for them is a record; a handler is a function from requests to replies.
-- The check of JSON web tokens (jwt.go) enters through the interface Authenticator, as in the
-- middleware.
pub mod Permissions
pub mod Access
use the_redirector.Base.{
  ℕ, Bool, true, false, ◌&&◌, ◌||◌, not, Option, none, some, List, [], ◌∷◌, ◌++◌, Bytes, lit,
  is_empty, ◌=s◌, Dict, lookup, insert, contains_byte, cut_byte, trim_space, to_lower,
  if◌then◌else◌, Result, ok, err, ◌>>=◌,
}

pub data AuthError : Type 0 where
  unauthorized invalid_token token_expired missing_auth invalid_api_key permission_denied :
      AuthError
  other : Bytes → AuthError

abbrev pub Permission : Type 0
Permission = Bytes

pub record Principal : Type 0 where
  pub id : Bytes
  pub type : Bytes
  pub permissions : List Permission

pub record ApiKeyEntry : Type 0 where
  pub name : Bytes
  pub key : Bytes
  pub permissions : List Permission

pub record JwtConfig : Type 0 where
  pub enabled : Bool
  pub secret : Bytes
  pub public_key : Bytes
  pub issuer : Bytes
  pub audience : Bytes

pub record Config : Type 0 where
  pub enabled : Bool
  pub api_keys : List ApiKeyEntry
  pub jwt : Option JwtConfig
  pub allow_ips : List Bytes

-- One granted permission covers the wanted one.
pub covers : Permission → Permission → Bool
covers granted perm =
    granted =s lit "admin"
    || granted =s perm
    || (granted =s lit "write" && (perm =s lit "read" || perm =s lit "reload"))
    || (granted =s lit "stats:write" && perm =s lit "stats:read")

pub any_covers : List Permission → Permission → Bool
unfolding covers
any_covers [] perm = false
any_covers (granted ∷ rest) perm = if covers granted perm then true else any_covers rest perm

-- (*Principal).HasPermission
unfoldable pub has_permission : Principal → Permission → Bool
unfolding any_covers
has_permission p perm = any_covers p.permissions perm

-- The parts of a request that the package reads: the headers Authorization and X-API-Key, the query
-- argument api_key, the address of the client and the value "principal".
pub record Request (I : Type 0) : Type 0 where
  pub authorization : Bytes
  pub x_api_key : Bytes
  pub api_key_arg : Bytes
  pub remote_ip : I
  pub principal : Option Principal

-- The text behind the scheme of the header Authorization, if it has this scheme.
scheme_value : Bytes → Bytes → Option Bytes
scheme_value authorization scheme = elim (cut_byte authorization 32) [
  | none ↦ none
  | some (before, behind) ↦
      if to_lower before =s to_lower scheme then some (trim_space behind) else none
]

-- NewAPIKeyAuthenticator: a later entry replaces one with its key.
pub new_api_keys : Dict ApiKeyEntry → List ApiKeyEntry → Dict ApiKeyEntry
new_api_keys keys [] = keys
new_api_keys keys (entry ∷ rest) = new_api_keys (insert keys entry.key entry) rest

principal_of : ApiKeyEntry → Principal
principal_of entry = record {
  id = entry.name;
  type = lit "apikey";
  permissions = entry.permissions;
}

entry_for : Dict ApiKeyEntry → Bytes → Result AuthError Principal
unfolding principal_of
entry_for keys key = elim (lookup keys key) [
  | none ↦ err invalid_api_key
  | some entry ↦ ok (principal_of entry)
]

module _ {I : Type 0} where
  -- ExtractBearerToken
  unfoldable pub extract_bearer_token : Request I → Bytes
  unfolding scheme_value
  extract_bearer_token r = elim (scheme_value r.authorization (lit "Bearer")) [
    | none ↦ []
    | some token ↦ token
  ]

  -- ExtractAPIKey
  unfoldable pub extract_api_key : Request I → Bytes
  unfolding scheme_value
  extract_api_key r =
      if not (is_empty r.x_api_key)
      then r.x_api_key
      else elim (scheme_value r.authorization (lit "ApiKey")) [
        | some key ↦ key
        | none ↦ r.api_key_arg
      ]

  -- (*APIKeyAuthenticator).Authenticate: the keys of the map differ, so one of them at most is the
  -- key.
  unfoldable pub authenticate_key : Dict ApiKeyEntry → Request I → Result AuthError Principal
  unfolding entry_for
  authenticate_key keys r =
      let key = extract_api_key r in if is_empty key then err missing_auth else entry_for keys key

-- The interface Authenticator.
pub record Authenticator (I : Type 0) : Type 0 where
  pub name : Bytes
  pub authenticate : Request I → Result AuthError Principal

-- What the package takes from package net, and NewJWTAuthenticator.
pub record Network (I N : Type 0) : Type 0 where
  pub parse_cidr : Bytes → Option N
  pub parse_ip : Bytes → Option I
  -- To4() != nil
  pub is_v4 : I → Bool
  -- The net of an address with a mask of so many ones of so many bits.
  pub masked : I → ℕ → ℕ → N
  pub contains : N → I → Bool
  pub new_jwt : JwtConfig → Result AuthError (Authenticator I)

pub record Middleware (I N : Type 0) : Type 0 where
  pub config : Config
  pub authenticators : List (Authenticator I)
  pub allowed_ips : List N

pub data Reply (A : Type 0) : Type 0 where
  handled : A → Reply A
  -- 401, with the schemes of WWW-Authenticate
  send_unauthorized : AuthError → List Bytes → Reply A
  -- 403
  send_forbidden : Permission → Reply A

module _ {I N : Type 0} (network : Network I N) where
  single_ip : I → N
  single_ip ip = if network.is_v4 ip then network.masked ip 32 32 else network.masked ip 128 128

  add_net : Option N → List N → List N
  add_net none nets = nets
  add_net (some net) nets = nets ++ net ∷ []

  net_of : Bytes → Option N
  unfolding single_ip
  net_of text =
      if contains_byte text b'/'
      then network.parse_cidr text
      else elim (network.parse_ip text) [ none ↦ none | some ip ↦ some (single_ip ip) ]

  -- The loop over the allowed addresses; what does not parse is left out.
  pub parse_allowed : List N → List Bytes → List N
  unfolding net_of add_net
  parse_allowed nets [] = nets
  parse_allowed nets (text ∷ texts) = parse_allowed (add_net (net_of text) nets) texts

  key_authenticators : List ApiKeyEntry → List (Authenticator I)
  key_authenticators [] = []
  key_authenticators (e ∷ es) =
      record { name = lit "apikey"; authenticate = authenticate_key (new_api_keys [] (e ∷ es)) }
      ∷ []

  jwt_authenticators : Option JwtConfig → Result AuthError (List (Authenticator I))
  jwt_authenticators none = ok []
  jwt_authenticators (some jwt) =
      if jwt.enabled then (network.new_jwt jwt >>= λ a. ok (a ∷ [])) else ok []

  -- NewMiddleware
  unfoldable pub new_middleware : Config → Result AuthError (Middleware I N)
  unfolding parse_allowed key_authenticators jwt_authenticators
  new_middleware config =
      if not config.enabled
      then ok (record { config = config; authenticators = []; allowed_ips = [] })
      else jwt_authenticators config.jwt >>= λ jwts. ok (record {
        config = config;
        authenticators = key_authenticators config.api_keys ++ jwts;
        allowed_ips = parse_allowed [] config.allow_ips;
      })

  -- isIPAllowed
  unfoldable pub is_ip_allowed : List N → I → Bool
  is_ip_allowed [] ip = false
  is_ip_allowed (net ∷ nets) ip = if network.contains net ip then true else is_ip_allowed nets ip

-- The error that is kept behind one authenticator: a missing credential does not replace another.
abbrev pub keep_error : Option AuthError → AuthError → Option AuthError
keep_error last missing_auth = last
keep_error last e = some e

abbrev pub final_error : Option AuthError → AuthError
final_error none = missing_auth
final_error (some e) = e

scheme_of : Bytes → List Bytes
scheme_of name =
    if name =s lit "apikey"
    then lit "ApiKey realm=\"management\"" ∷ []
    else if name =s lit "jwt"
    then lit "Bearer realm=\"management\"" ∷ []
    else []

module _ {I : Type 0} where
  -- The loop of authenticate, with lastErr.
  unfoldable pub try_authenticators :
      List (Authenticator I) → Request I → Option AuthError → Result AuthError Principal
  try_authenticators [] r last = err (final_error last)
  try_authenticators (a ∷ rest) r last = elim (a.authenticate r) [
    | ok p ↦ ok p
    | err e ↦ try_authenticators rest r (keep_error last e)
  ]

  -- The schemes that sendUnauthorized names.
  schemes : List (Authenticator I) → List Bytes
  unfolding scheme_of
  schemes [] = []
  schemes (a ∷ rest) = scheme_of a.name ++ schemes rest

module _ {I N : Type 0} (m : Middleware I N) where
  -- authenticate
  unfoldable pub authenticate : Request I → Result AuthError Principal
  authenticate r = try_authenticators m.authenticators r none

  unfoldable pub reject : {A : Type 0} → AuthError → Reply A
  unfolding schemes
  reject e = send_unauthorized e (schemes m.authenticators)

module _ {I N : Type 0} (network : Network I N) (m : Middleware I N) where
  abbrev pub bypasses : Request I → Bool
  bypasses r = not m.config.enabled || is_ip_allowed network m.allowed_ips r.remote_ip

  module _ {A : Type 0} where
    -- Wrap
    unfoldable pub wrap : (Request I → Reply A) → Request I → Reply A
    unfolding reject
    wrap handler r = if bypasses r then handler r else elim (authenticate m r) [
      | err e ↦ reject m e
      | ok p ↦ handler (record r { principal = some p })
    ]

    with_permission : (Request I → Reply A) → Permission → Request I → Principal → Reply A
    with_permission handler perm r p =
        if not (has_permission p perm) then send_forbidden perm else handler r

    -- RequirePermission
    unfoldable pub require_permission : (Request I → Reply A) → Permission → Request I → Reply A
    unfolding reject with_permission
    require_permission handler perm r = if bypasses r then handler r else elim r.principal [
      | some p ↦ with_permission handler perm r p
      | none ↦ elim (authenticate m r) [
        | err e ↦ reject m e
        | ok p ↦ with_permission handler perm r p
      ]
    ]
