-- ===== src/Tests/Loads.antt =====
-- Defaults, validation and loading at concrete configurations.
use the_redirector.Base.{
  ◌++◌, ℕ, ◌≡◌, refl, ◌↔◌, none, [], ◌∷◌, Bytes, lit, map, pos, ok, insert, has_key, lookup,
  has_suffix, has_prefix, ◌=s◌,
}
use the_redirector.Base.Sort.{sort_stable}
use the_redirector.Config.{exact, Config, is_redirect, get_location}
use the_redirector.Config.Defaults.{apply_defaults}
use the_redirector.Config.Glob.{glob_to_regex}
use the_redirector.Config.Glob.Tokens.{IsRead, glob_to_regex-IsRead}
use the_redirector.Config.Validate.{validate}
use the_redirector.Config.Validate.Laws.{RulesAreValid, AreCompiled, compiled, validate_iff}
use the_redirector.Config.Load.{zero_config, load_directory}
use the_redirector.Config.Load.Laws.{load_directory-drops_security, load_directory-AreReady}
use the_redirector.Tests.Samples.{text_engine, rule_of, sample_config, sample_files}

abbrev ready_config : Config Bytes ℕ
ready_config = record zero_config {
  server = record sample_config.server { port = pos 8080; management_port = pos 8081 };
  defaults = record sample_config.defaults { status_code = pos 301 };
  rules = rule_of (lit "r") exact (lit "a") (lit "/x") [] (pos 0) ∷ [];
}

validate_iff_example : (validate text_engine ready_config ≡ ok ready_config) ↔ (
    RulesAreValid text_engine ready_config.rules
    × (ready_config
        ≡ record ready_config { rules = map (compiled text_engine) ready_config.rules }))
validate_iff_example = validate_iff text_engine ready_config ready_config

loads : load_directory text_engine sample_files (lit "d") ≡ ok ready_config
unfolding load_directory validate apply_defaults has_suffix has_prefix sort_stable has_key insert
    lookup ◌=s◌ is_redirect get_location
loads = refl

load_directory-drops_security_example :
    (ready_config.auth ≡ none) × (ready_config.rate_limit ≡ none) × (ready_config.tracing ≡ none)
unfolding ◌=s◌
load_directory-drops_security_example =
    load_directory-drops_security text_engine sample_files (lit "d") ready_config refl loads

load_directory-AreReady_example :
    RulesAreValid text_engine ready_config.rules × AreCompiled text_engine ready_config.rules
load_directory-AreReady_example =
    load_directory-AreReady text_engine sample_files (lit "d") ready_config loads

glob_to_regex-IsRead_example :
    (body : Bytes) × (glob_to_regex (lit "/a.b/**/*") ≡ lit "^" ++ (body ++ lit "$"))
    × IsRead (lit "/a.b/**/*") body
glob_to_regex-IsRead_example = glob_to_regex-IsRead (lit "/a.b/**/*")

glob_test : glob_to_regex (lit "/a.b/**/c?") ≡ lit "^/a\\.b/.*c[^/]$"
unfolding glob_to_regex
glob_test = refl
