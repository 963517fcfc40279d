-- ===== src/Config/Validate.antt =====
-- internal/config/config.go: Validate.
-- `validate` returns the configuration with its patterns compiled, or the first error. (The source
-- also leaves the patterns compiled so far in a configuration that it refuses; its callers drop it.)
pub mod Laws
use the_redirector.Base.{
  ℕ, zero, suc, ◌+◌, Bool, true, not, ◌&&◌, ◌||◌, Option, none, some, List, [], ◌∷◌, ◌++◌, Bytes,
  lit, is_empty, Dict, has_key, insert, format_nat, ℤ, pos, ltb_ℤ, eqb_ℤ, if◌then◌else◌, Result, ok,
  err, ◌>>=◌, ◌>>◌, fail_if,
}
use the_redirector.Config.{
  Engine, MatchType, exact, prefix, regex, glob, unset, other, Match, Response, Rule, get_location,
  is_redirect, ServerConfig, DefaultConfig, Config,
}
use the_redirector.Config.Glob.{glob_to_regex}

pub data ValidateError : Type 0 where
  no_rules : ValidateError
  duplicate_id : Bytes → ValidateError
  invalid_status : Bytes → ℤ → ValidateError
  missing_destination : Bytes → ℤ → ValidateError
  path_required : Bytes → MatchType → ValidateError
  pattern_required : Bytes → MatchType → ValidateError
  invalid_pattern : Bytes → MatchType → ValidateError
  unknown_match_type : Bytes → MatchType → ValidateError

module _ {R : Type 0} (engine : Engine R) where
  compile_rule : Rule R → Bytes → Result ValidateError (Rule R)
  compile_rule r text = elim (engine.compile text) [
    | none ↦ err (invalid_pattern r.id r.match.type)
    | some x ↦ ok (record r { compiled_regex = some x })
  ]

  -- The switch on the match type.
  validate_match : MatchType → Rule R → Result ValidateError (Rule R)
  unfolding compile_rule
  validate_match exact r = do fail_if (is_empty r.match.path) (path_required r.id exact); ok r
  validate_match prefix r = do fail_if (is_empty r.match.path) (path_required r.id prefix); ok r
  validate_match regex r = do
    fail_if (is_empty r.match.pattern) (pattern_required r.id regex)
    compile_rule r r.match.pattern
  validate_match glob r = do
    fail_if (is_empty r.match.pattern) (pattern_required r.id glob)
    compile_rule r (glob_to_regex r.match.pattern)
  validate_match t r = err (unknown_match_type r.id t)

  -- What the loop checks of a rule behind the check of its id.
  pub validate_rule : Rule R → Result ValidateError (Rule R)
  unfolding validate_match
  validate_rule r = do
    fail_if (ltb_ℤ r.redirect.status (pos 100) || not (ltb_ℤ r.redirect.status (pos 600)))
        (invalid_status r.id r.redirect.status)
    fail_if (is_redirect r.redirect && is_empty (get_location r.redirect))
        (missing_destination r.id r.redirect.status)
    validate_match r.match.type r

  pub validate_rules : Dict Bool → List (Rule R) → Result ValidateError (List (Rule R))
  validate_rules seen [] = ok []
  validate_rules seen (r ∷ rs) = do
    fail_if (has_key seen r.id) (duplicate_id r.id)
    r' ← validate_rule r
    rs' ← validate_rules (insert seen r.id true) rs
    ok (r' ∷ rs')

  validate_list : List (Rule R) → Result ValidateError (List (Rule R))
  unfolding validate_rules
  validate_list [] = err no_rules
  validate_list (r ∷ rs) = validate_rules [] (r ∷ rs)

  -- (*Config).Validate
  unfoldable pub validate : {F : Type 0} → Config R F → Result ValidateError (Config R F)
  unfolding validate_list validate_rule
  validate c = do checked ← validate_list c.rules; ok (record c { rules = checked })
