-- ===== src/Tests/Samples.antt =====
-- Rules, configurations and stand-ins for the Go libraries, for the tests.
use the_redirector.Base.{
  ℕ, true, false, none, some, [], ◌∷◌, Bytes, lit, ◌=s◌, ℤ, pos, if◌then◌else◌,
}
use the_redirector.Config.{Engine, MatchType, exact, Rule, Config}
use the_redirector.Config.Load.{Files, zero_config}
use the_redirector.Versioning.Changes.{Outside}

-- Patterns that match the text that they are.
abbrev pub text_engine : Engine Bytes
text_engine = record {
  compile = λ text. some text;
  find_submatch = λ x path. if x =s path then some (path ∷ []) else none;
  replace_all = λ x src repl. if x =s src then repl else src;
}

abbrev pub rule_of : Bytes → MatchType → Bytes → Bytes → Bytes → ℤ → Rule Bytes
rule_of id type host path pattern priority = record {
  id = id;
  match = record { type = type; path = path; pattern = pattern; host = host; conditions = [] };
  redirect = record {
    status = pos 301;
    location = lit "/new";
    to = [];
    body = [];
    preserve_path = false;
    preserve_query = some true;
    headers = [];
  };
  priority = priority;
  compiled_regex = some pattern;
}

abbrev pub sample_config : Config Bytes ℕ
sample_config = record zero_config {
  auth = some (record { enabled = true; api_keys = []; jwt = none; allow_ips = [] });
  rules = rule_of (lit "r") exact (lit "a") (lit "/x") [] (pos 0) ∷ [];
}

-- A directory "d" with one file; every file holds the sample.
abbrev pub sample_files : Files Bytes ℕ
sample_files = record {
  stat = λ path. some (path =s lit "d");
  walk = λ path. some (lit "d/b.yaml" ∷ []);
  read_file = λ path. some path;
  expand_env = λ text. text;
  unmarshal = λ text. some sample_config;
}

abbrev pub sample_outside : Outside ℕ
sample_outside = record {
  float_eq = λ a b. true;
  range_keys = λ ks. ks;
  digest = λ version n server. version;
}
