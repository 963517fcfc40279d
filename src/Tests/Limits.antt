-- ===== src/Tests/Limits.antt =====
-- The limiter and the collector at concrete requests.
use the_redirector.Base.{
  ℕ, ◌≡◌, true, false, none, some, List, [], ◌∷◌, Bytes, lit, lookup, ltb, pos, ◌-◌,
}
use the_redirector.RateLimit.{Outside, Limiter, Request, get_client_ip, allow}
use the_redirector.RateLimit.Isolation.{allow-ip_limiters}
use the_redirector.Stats
use the_redirector.Stats.{RequestRecord, Collector, Floats, new_collector}
use the_redirector.Stats.Counts.{
  Op, recording, enabling, disabling, run, counted, hits_of, run-hits,
}

-- A bucket is the number of its tokens.
abbrev outside : Outside ℕ Bytes ℕ ℕ
outside = record {
  new_bucket = λ rps burst. 5;
  take_token = λ tokens now. (ltb 0 tokens, tokens - 1);
  positive = λ rps. ltb 0 rps;
  parse_cidr = λ text. none;
  parse_ip = λ text. some text;
  is_v4 = λ ip. true;
  masked = λ ip ones bits. ones;
  contains = λ net ip. false;
  ip_text = λ ip. ip;
  range_keys = λ ks. ks;
}

abbrev limiter : Limiter ℕ ℕ ℕ ℕ
limiter = record {
  cfg = record {
    enabled = true;
    global_rps = 1;
    global_burst = pos 2;
    per_ip_rps = 1;
    per_ip_burst = pos 2;
    path_limits = [];
    cleanup_interval = 0;
    ip_ttl = 9;
    trust_proxy = false;
    exempt_ips = [];
  };
  global_limiter = some 3;
  ip_limiters = (lit "j0", record { bucket = 2; last_access = 1 }) ∷ [];
  path_limiters = (lit "/p", 4) ∷ (lit "/q", 4) ∷ [];
  exempt_nets = [];
  on_limited = some 8;
}

abbrev request : Request Bytes
request = record { path = lit "/p"; forwarded_for = []; real_ip = []; remote_ip = lit "j" }

allow-ip_limiters_example :
    lookup (allow outside limiter 5 request).1.ip_limiters (lit "j0")
    ≡ lookup limiter.ip_limiters (lit "j0")
unfolding get_client_ip
allow-ip_limiters_example = allow-ip_limiters outside limiter 5 request (lit "j0") (λ e. cc)

abbrev floats : Floats ℕ
floats = record { one = 1; out_of_range = λ x. false; below_one = λ x. ltb x 1; interval = λ x. 2 }

abbrev hit : RequestRecord
hit = record {
  timestamp = 4;
  path = lit "/p";
  host = [];
  status = pos 404;
  rule_id = lit "r";
  destination = [];
  latency_us = 700;
  client_ip = [];
}

abbrev stats_config : Stats.Config ℕ
stats_config = record { enabled = true; buffer_size = pos 2; sampling_rate = 1 }

abbrev ops : List Op
ops = recording hit ∷ disabling ∷ recording hit ∷ enabling ∷ recording hit ∷ []

run-hits_example :
    let c = new_collector floats 1 stats_config in
    hits_of (run floats c ops) (lit "r") ≡ counted (lit "r") c.enabled (hits_of c (lit "r")) ops
run-hits_example = run-hits floats (new_collector floats 1 stats_config) ops (lit "r") (λ e. cc)
