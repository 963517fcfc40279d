-- ===== src/Config/ShortForm/Laws.antt =====
-- What a line gives: the status that is parsed, and a rule that Validate accepts.
use the_redirector.Base.{
  ◌≡◌, ◌≢◌, inl, inr, Bool, true, false, ◌||◌, Option, none, some, List, [], ◌∷◌, Bytes, lit, ℤ,
  pos, ◌≤ℤ◌, ◌<ℤ◌, if◌then◌else◌, Result, ok, err, arith, Bool-cases, split_byte, trim_space,
  to_lower, ◌=s◌, subst,
}
use the_redirector.Config.{Engine, get_location}
use the_redirector.Config.Glob.{glob_to_regex}
use the_redirector.Config.Validate.Laws.{MatchIsValid, RuleIsValid}
use the_redirector.Config.ShortForm.{
  ShortFormRule, Parsers, LineError, line_rule, split_host, is_skipped, match_by, rule_with,
  with_status, set_option, set_options, csv_fields, parse_csv_line, to_rule,
}

-- A status that Validate accepts.
abbrev pub HasStatus : ShortFormRule → Type 0
HasStatus r = (pos 100 ≤ℤ r.status) × (r.status <ℤ pos 600)

split_host-HasStatus : (r : ShortFormRule) → HasStatus r → HasStatus (split_host r)
unfolding split_host
split_host-HasStatus r h = ground (arith, h)

with_status-HasStatus :
    (o : Option ℤ) (r : ShortFormRule) → HasStatus r → HasStatus (with_status o r)
unfolding with_status
with_status-HasStatus none r h = h
with_status-HasStatus (some n) r h = ground (arith, h)

module _ (parsers : Parsers) where
  set_option-HasStatus :
      (r : ShortFormRule) (text : Bytes) → HasStatus r → HasStatus (set_option parsers r text)
  unfolding set_option
  set_option-HasStatus r text h =
      let opt = trim_space (to_lower text) in
      pick (opt =s lit "preserve_path" || opt =s lit "preservepath")
        (opt =s lit "preserve_query" || opt =s lit "preservequery") opt
    where
      pick :
          (by_path by_query : Bool) (opt : Bytes)
          → let set : ShortFormRule =
              if by_path
              then record r { preserve_path = true }
              else if by_query
              then record r { preserve_query = true }
              else with_status (parsers.atoi opt) r in
            HasStatus set
      pick true by_query opt = h
      pick false true opt = h
      pick false false opt = with_status-HasStatus (parsers.atoi opt) r h

  set_options-HasStatus :
      (r : ShortFormRule) (texts : List Bytes)
      → HasStatus r
      → HasStatus (set_options parsers r texts)
  unfolding set_options
  set_options-HasStatus r [] h = h
  set_options-HasStatus r (text ∷ texts) h =
      set_options-HasStatus (set_option parsers r text) texts (set_option-HasStatus r text h)

  csv_fields-HasStatus :
      (line : Bytes) (fields : List Bytes) {r : ShortFormRule}
      → csv_fields parsers line fields ≡ ok (some r)
      → HasStatus r
  unfolding csv_fields
  csv_fields-HasStatus line [] h = absurd (err_ne_ok h)
    where
      err_ne_ok :
          {e : LineError} {r : ShortFormRule}
          → ◌≡◌ {A = Result LineError (Option ShortFormRule)} (err e) (ok (some r))
          → ⊥
      err_ne_ok h = cc
  csv_fields-HasStatus line (f ∷ []) h = absurd (err_ne_ok h)
    where
      err_ne_ok :
          {e : LineError} {r : ShortFormRule}
          → ◌≡◌ {A = Result LineError (Option ShortFormRule)} (err e) (ok (some r))
          → ⊥
      err_ne_ok h = cc
  csv_fields-HasStatus line (source ∷ destination ∷ options) h = subst HasStatus (same h) (
      set_options-HasStatus (split_host (line_rule source destination)) options
        (split_host-HasStatus (line_rule source destination) (omega arith, omega arith)))
    where
      same :
          {x y : ShortFormRule}
          → ◌≡◌ {A = Result LineError (Option ShortFormRule)} (ok (some x)) (ok (some y))
          → x ≡ y
      same h = cc

  -- A rule that is parsed from a CSV line has a status in 100..599, whatever its options are.
  pub parse_csv_line-HasStatus :
      (text : Bytes) {r : ShortFormRule} → parse_csv_line parsers text ≡ ok (some r) → HasStatus r
  unfolding parse_csv_line
  parse_csv_line-HasStatus text h = elim (Bool-cases (is_skipped (trim_space text))) [
    | inl skip ↦ absurd (nothing (rw skip at h))
    | inr line ↦
        csv_fields-HasStatus (trim_space text) (split_byte (trim_space text) b',') (rw line at h)
  ]
    where
      nothing :
          {r : ShortFormRule}
          → ◌≡◌ {A = Result LineError (Option ShortFormRule)} (ok none) (ok (some r))
          → ⊥
      nothing h = cc

module _ {R : Type 0} (engine : Engine R) where
  match_by-MatchIsValid :
      (is_glob is_regex is_prefix : Bool) (s : ShortFormRule) (id : Bytes)
      → s.source ≢ []
      → ((x : R) × (engine.compile s.source ≡ some x))
      → ((x : R) × (engine.compile (glob_to_regex s.source) ≡ some x))
      → MatchIsValid engine
          (match_by is_glob is_regex is_prefix s.source s.host).type
          (rule_with (match_by is_glob is_regex is_prefix s.source s.host) s id)
  unfolding match_by
  match_by-MatchIsValid true _ _ s id ne plain translated = (ne, translated)
  match_by-MatchIsValid false true _ s id ne plain translated = (ne, plain)
  match_by-MatchIsValid false false true s id ne plain translated = ne
  match_by-MatchIsValid false false false s id ne plain translated = ne

  -- A line with a source, a destination and a status in 100..599 becomes a rule that Validate
  -- accepts, if the source compiles as a regular expression and as a glob.
  pub to_rule-RuleIsValid :
      (s : ShortFormRule) (id : Bytes)
      → s.source ≢ []
      → s.destination ≢ []
      → HasStatus s
      → ((x : R) × (engine.compile s.source ≡ some x))
      → ((x : R) × (engine.compile (glob_to_regex s.source) ≡ some x))
      → RuleIsValid engine (to_rule s id)
  unfolding to_rule get_location
  to_rule-RuleIsValid s id ne to status plain translated = record {
    status_low = status.0;
    status_high = status.1;
    destination = λ _. to;
    matching = match_by-MatchIsValid _ _ _ s id ne plain translated;
  }
