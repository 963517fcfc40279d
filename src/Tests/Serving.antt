-- ===== src/Tests/Serving.antt =====
-- The server at concrete requests.
use the_redirector.Base.{
  ℕ, ◌≡◌, ◌↔◌, refl, true, false, none, some, [], ◌∷◌, ◌++◌, Bytes, lit, pos, ok, err, List, ltb,
  lookup, has_prefix, Dict,
}
use the_redirector.Config.{Config, Rule, prefix, get_location, is_redirect}
use the_redirector.Base.Sort.{sort_stable}
use the_redirector.Router as Routes
use the_redirector.Stats.{Floats}
use the_redirector.RateLimit as Limits
use the_redirector.Auth.{
  Request, Network, Middleware, handled, ApiKeyEntry, new_api_keys, authenticate_key, missing_auth,
}
use the_redirector.Versioning.Store.{ConfigVersion, current, get, add, new_store}
use the_redirector.Base.Ring.{put}
use the_redirector.Server.Redirect.{Incoming, Answer, redirected, destination, handle_redirect}
use the_redirector.Server.Redirect.Answers.{IsAnswer, handle_redirect_lem}
use the_redirector.Server.Management.{route, endpoint, reloading, rolling_back, serve}
use the_redirector.Server.Management.Admission.{Admits, serve_iff}
use the_redirector.Server.Running.{Environment, Server, new_server, swap_config, record_reload}
use the_redirector.Server.Running.Handlers.{
  Call, rolled_back_to, handle_rollback, handle_rollback_from,
}
use the_redirector.Server.Running.Laws.{IsServer, new_server-IsServer}
use the_redirector.Server.Running.Life.{managed, incoming, run, run-in_use}
use the_redirector.Server.Running.Overlap.{swap_config-record_reload}
use the_redirector.Server.Running.Rollback.{
  RollbackOutcome, handle_rollback_found, handle_rollback_from-RollbackOutcome,
}
use the_redirector.Tests.Samples.{text_engine, rule_of, sample_config, sample_files, sample_outside}

abbrev moved : Rule Bytes
moved =
    let r = rule_of (lit "p") prefix [] (lit "/old") [] (pos 0) in
    record r {
      redirect = record {
        status = pos 301;
        location = lit "/new";
        to = [];
        body = [];
        preserve_path = true;
        preserve_query = some true;
        headers = [];
      };
    }

abbrev rules : List (Rule Bytes)
rules = moved ∷ []

abbrev asked : Incoming
asked = record { path = lit "/old/x"; host = lit "h"; query = lit "y=2"; client_ip = lit "i" }

abbrev same_headers : Dict Bytes → Dict Bytes
same_headers h = h

handle_redirect_lem_example :
    (a : Answer) × (handle_redirect text_engine same_headers (Routes.new rules) asked ≡ some a)
    × IsAnswer text_engine same_headers (Routes.new rules) asked a
handle_redirect_lem_example = handle_redirect_lem text_engine same_headers rules asked

handle_redirect_test :
    handle_redirect text_engine same_headers (Routes.new rules) asked
    ≡ some (
        redirected
          (get_location moved.redirect ++ lit "/x?y=2")
          (pos 301)
          ((lit "X-Redirected-By", lit "the-redirector") ∷ (lit "X-Rule-ID", lit "p") ∷ []))
unfolding handle_redirect Routes.is_allowed_host Routes.new sort_stable Routes.match
    Routes.match_exact lookup Routes.match_prefix has_prefix is_redirect destination get_location
handle_redirect_test = refl

abbrev limits : Limits.Outside ℕ Bytes ℕ ℕ
limits = record {
  new_bucket = λ rps burst. 5;
  take_token = λ tokens now. (ltb 0 tokens, tokens);
  positive = λ rps. ltb 0 rps;
  parse_cidr = λ text. none;
  parse_ip = λ text. some text;
  is_v4 = λ ip. true;
  masked = λ ip ones bits. ones;
  contains = λ net ip. false;
  ip_text = λ ip. ip;
  range_keys = λ ks. ks;
}

abbrev network : Network Bytes ℕ
network = record {
  parse_cidr = λ text. none;
  parse_ip = λ text. some text;
  is_v4 = λ ip. true;
  masked = λ ip ones bits. ones;
  contains = λ net ip. false;
  new_jwt = λ cfg. err missing_auth;
}

abbrev floats : Floats ℕ
floats = record { one = 1; out_of_range = λ x. false; below_one = λ x. ltb x 1; interval = λ x. 2 }

-- Every body names version 1.
abbrev env : Environment Bytes ℕ Bytes ℕ ℕ
env = record {
  engine = text_engine;
  files = sample_files;
  versions = sample_outside;
  floats = floats;
  limits = limits;
  network = network;
  parse_version = λ body. some (pos 1);
  atoi = λ text. none;
}

abbrev keyed : Middleware Bytes ℕ
keyed = record {
  config = record { enabled = true; api_keys = key_entry ∷ []; jwt = none; allow_ips = [] };
  authenticators =
      record {
        name = lit "apikey";
        authenticate = authenticate_key (new_api_keys [] (key_entry ∷ []));
      }
      ∷ [];
  allowed_ips = [];
}
  where
    key_entry : ApiKeyEntry
    key_entry = record { name = lit "w"; key = lit "k"; permissions = lit "write" ∷ [] }

abbrev with_key : Request Bytes
with_key = record {
  authorization = [];
  x_api_key = lit "k";
  api_key_arg = [];
  remote_ip = lit "i";
  principal = none;
}

serve_iff_example :
    (serve network (some keyed) (lit "/api/v1/reload") with_key ≡ handled (endpoint reloading)) ↔ (
      (route (lit "/api/v1/reload") ≡ some reloading)
      × Admits network keyed with_key (some (lit "reload")))
serve_iff_example = serve_iff network keyed refl (lit "/api/v1/reload") with_key reloading refl

abbrev open_config : Config Bytes ℕ
open_config = record sample_config { auth = none }

abbrev Sample : Type 0
Sample = Server Bytes ℕ Bytes ℕ ℕ ℕ ℕ

started : (s : Sample) × (new_server env 0 5 open_config (lit "d") ≡ ok s)
unfolding new_server
started = (_, refl)

started-IsServer : IsServer started.0
started-IsServer = new_server-IsServer env 0 5 open_config (lit "d") started.0 started.1

abbrev posted : Call
posted = record {
  is_post = true;
  path = lit "/api/v1/rollback";
  body = [];
  limit = [];
  principal = none;
  remote_ip = lit "i";
}

run-in_use_example :
    let s =
      run env same_headers
        (λ n. n)
        started.0
        (managed 6 reloading posted ∷ incoming asked 7 8 ∷ managed 9 rolling_back posted ∷ []) in
    (s.router ≡ Routes.new s.cfg.rules)
    × ((v : ConfigVersion Bytes ℕ) × (current s.version_store ≡ some v) × (v.config ≡ s.cfg))
run-in_use_example =
    run-in_use env same_headers (λ n. n) 0 5 open_config (lit "d") started.0
      (managed 6 reloading posted ∷ incoming asked 7 8 ∷ managed 9 rolling_back posted ∷ [])
      started.1

swap_config-record_reload_example :
    let swapped = swap_config (swap_config started.0 sample_config) open_config in
    let in_order =
      record_reload env
        (record_reload env swapped 6 sample_config (lit "d"))
        7
        open_config
        (lit "d") in
    let crossed =
      record_reload env
        (record_reload env swapped 6 open_config (lit "d"))
        7
        sample_config
        (lit "d") in
    (in_order.cfg ≡ open_config)
    × (crossed.cfg ≡ open_config)
    × ((v : ConfigVersion Bytes ℕ) × (current in_order.version_store ≡ some v)
        × (v.config ≡ open_config))
    × ((v : ConfigVersion Bytes ℕ) × (current crossed.version_store ≡ some v)
        × (v.config ≡ sample_config))
swap_config-record_reload_example =
    swap_config-record_reload env started.0 6 7 sample_config open_config (lit "d") started-IsServer

kept : (v : ConfigVersion Bytes ℕ) × (get started.0.version_store 1 ≡ some v)
unfolding started get add put new_store
kept = (_, refl)

handle_rollback_found_example :
    let (reply, s) = handle_rollback env started.0 6 posted in
    (reply ≡ (200, rolled_back_to (pos 1) started.0.version_store.next_version kept.0.rules_count))
    × (s.cfg ≡ kept.0.config)
    × (s.router ≡ Routes.new kept.0.config.rules)
    × ((u : ConfigVersion Bytes ℕ) × (current s.version_store ≡ some u)
        × (u.config ≡ kept.0.config)
        × (u.version ≡ started.0.version_store.next_version))
handle_rollback_found_example =
    handle_rollback_found env started.0 6 posted (pos 1) kept.0 started-IsServer refl refl refl
      kept.1

handle_rollback_from-RollbackOutcome_example :
    let (reply, s) = handle_rollback_from env started.0.version_store started.0 6 posted in
    RollbackOutcome env started.0.version_store started.0 posted reply s
handle_rollback_from-RollbackOutcome_example =
    handle_rollback_from-RollbackOutcome env started.0.version_store started.0 6 posted
