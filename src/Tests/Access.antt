-- ===== src/Tests/Access.antt =====
-- The permissions and the middleware at concrete requests.
use the_redirector.Base.{ℕ, ◌≡◌, ◌↔◌, true, false, none, some, [], ◌∷◌, lit, err}
use the_redirector.Auth.{
  Principal, Request, Network, Middleware, handled, ApiKeyEntry, new_api_keys, authenticate_key,
  wrap, require_permission, missing_auth,
}
use the_redirector.Auth.Access.{Reaches, wrap-require_permission}

abbrev writer : Principal
writer = record { id = lit "w"; type = lit "apikey"; permissions = lit "write" ∷ [] }

abbrev network : Network ℕ ℕ
network = record {
  parse_cidr = λ text. none;
  parse_ip = λ text. some 1;
  is_v4 = λ ip. true;
  masked = λ ip ones bits. ip;
  contains = λ net ip. false;
  new_jwt = λ cfg. err missing_auth;
}

abbrev entry : ApiKeyEntry
entry = record { name = lit "w"; key = lit "k"; permissions = lit "write" ∷ [] }

abbrev guarded : Middleware ℕ ℕ
guarded = record {
  config = record { enabled = true; api_keys = entry ∷ []; jwt = none; allow_ips = [] };
  authenticators =
      record { name = lit "apikey"; authenticate = authenticate_key (new_api_keys [] (entry ∷ [])) }
      ∷ [];
  allowed_ips = [];
}

abbrev with_key : Request ℕ
with_key = record {
  authorization = [];
  x_api_key = lit "k";
  api_key_arg = [];
  remote_ip = 7;
  principal = none;
}

wrap_example :
    (wrap network guarded (require_permission network guarded handled (lit "reload")) with_key
      ≡ handled (record with_key { principal = some writer }))
    ↔ Reaches network guarded (lit "reload") with_key (record with_key { principal = some writer })
wrap_example =
    wrap-require_permission network guarded (lit "reload") with_key
      (record with_key { principal = some writer })
