-- ===== src/Config/ShortForm.antt =====
-- internal/config/shortform.go: rules in one line, in the form "source -> destination [options]"
-- and as CSV. The regular expression of the first form and strconv.Atoi enter as functions.
pub mod Laws
use the_redirector.Base.{
  ℕ, ◌+◌, Bool, true, false, ◌&&◌, ◌||◌, not, Option, none, some, List, [], ◌∷◌, ◌++◌, length,
  Bytes, lit, is_empty, has_prefix, has_suffix, trim_prefix, contains_byte, cut_byte, trim_space,
  to_lower, split_byte, replace_byte, format_nat, ◌=s◌, ltb, ℤ, pos, ltb_ℤ, if◌then◌else◌, Result,
  ok, err, ◌>>=◌,
}
use the_redirector.Config.{exact, prefix, regex, glob, Match, Response, Rule, Config}

pub record ShortFormRule : Type 0 where
  pub source : Bytes
  pub destination : Bytes
  pub status : ℤ
  pub preserve_path : Bool
  pub preserve_query : Bool
  pub host : Bytes

pub record Parsers : Type 0 where
  -- shortFormRegex.FindStringSubmatch: the three groups
  pub short_form : Bytes → Option (Bytes × Bytes × Bytes)
  -- strconv.Atoi; `none` is its error
  pub atoi : Bytes → Option ℤ

pub data LineError : Type 0 where
  invalid_short_form : Bytes → LineError
  too_few_fields : Bytes → LineError
  at_line : ℕ → LineError → LineError

-- A rule with the status that a line has by default.
abbrev line_rule : Bytes → Bytes → ShortFormRule
line_rule source destination = record {
  source = trim_space source;
  destination = trim_space destination;
  status = pos 301;
  preserve_path = false;
  preserve_query = false;
  host = [];
}

-- A source of the form host:path is split.
split_host : ShortFormRule → ShortFormRule
split_host r = elim (cut_byte r.source b':') [
  | none ↦ r
  | some (before, behind) ↦
      if not (is_empty before)
        && not (has_prefix r.source (lit "/"))
        && not (contains_byte before b'/')
      then record r { host = before; source = behind }
      else r
]

abbrev is_status : ℤ → Bool
is_status n = not (ltb_ℤ n (pos 100)) && ltb_ℤ n (pos 600)

with_status : Option ℤ → ShortFormRule → ShortFormRule
with_status none r = r
with_status (some n) r = if is_status n then record r { status = n } else r

abbrev is_skipped : Bytes → Bool
is_skipped line = is_empty line || has_prefix line (lit "#")

module _ (parsers : Parsers) where
  -- The switch on one option.
  pub set_option : ShortFormRule → Bytes → ShortFormRule
  unfolding with_status
  set_option r text =
      let opt = trim_space (to_lower text) in
      if opt =s lit "preserve_path" || opt =s lit "preservepath"
      then record r { preserve_path = true }
      else if opt =s lit "preserve_query" || opt =s lit "preservequery"
      then record r { preserve_query = true }
      else with_status (parsers.atoi opt) r

  pub set_options : ShortFormRule → List Bytes → ShortFormRule
  unfolding set_option
  set_options r [] = r
  set_options r (text ∷ texts) = set_options (set_option r text) texts

  -- The fields of a CSV line.
  csv_fields : Bytes → List Bytes → Result LineError (Option ShortFormRule)
  unfolding set_options split_host
  csv_fields line (source ∷ destination ∷ options) =
      ok (some (set_options (split_host (line_rule source destination)) options))
  csv_fields line _ = err (too_few_fields line)

  -- ParseCSVLine: `none` is a line without a rule.
  unfoldable pub parse_csv_line : Bytes → Result LineError (Option ShortFormRule)
  unfolding csv_fields
  parse_csv_line text =
      let line = trim_space text in
      if is_skipped line then ok none else csv_fields line (split_byte line b',')

  short_form_of : Bytes → Option (Bytes × Bytes × Bytes) → Result LineError (Option ShortFormRule)
  unfolding set_options split_host
  short_form_of line none = err (invalid_short_form line)
  short_form_of line (some (source, destination, options)) =
      let rule = split_host (line_rule source destination) in
      ok
        (some (if not (is_empty options) then set_options rule (split_byte options b',') else rule))

  -- ParseShortForm
  unfoldable pub parse_short_form : Bytes → Result LineError (Option ShortFormRule)
  unfolding short_form_of
  parse_short_form text =
      let line = trim_space text in
      if is_skipped line then ok none else short_form_of line (parsers.short_form line)

-- The match of ToRule, by whether the source looks like a glob, a regular expression or a prefix.
pub match_by : Bool → Bool → Bool → Bytes → Bytes → Match
match_by true _ _ source host = record {
  type = glob;
  path = [];
  pattern = source;
  host = host;
  conditions = [];
}
match_by false true _ source host = record {
  type = regex;
  path = [];
  pattern = source;
  host = host;
  conditions = [];
}
match_by false false true source host = record {
  type = prefix;
  path = source;
  pattern = [];
  host = host;
  conditions = [];
}
match_by false false false source host = record {
  type = exact;
  path = source;
  pattern = [];
  host = host;
  conditions = [];
}

abbrev pub rule_with : {R : Type 0} → Match → ShortFormRule → Bytes → Rule R
rule_with m s id = record {
  id = id;
  match = m;
  redirect = record {
    status = s.status;
    location = [];
    to = s.destination;
    body = [];
    preserve_path = s.preserve_path;
    preserve_query = some s.preserve_query;
    headers = [];
  };
  priority = pos 0;
  compiled_regex = none;
}

-- (*ShortFormRule).ToRule
unfoldable pub to_rule : {R : Type 0} → ShortFormRule → Bytes → Rule R
unfolding match_by
to_rule s id =
    rule_with
      (match_by (contains_byte s.source b'*')
        (has_prefix s.source (lit "^") || contains_byte s.source b'(')
        (has_suffix s.source (lit "/") && ltb 1 (length s.source)) s.source s.host)
      s id

-- generateRuleID
unfoldable pub generate_rule_id : Bytes → ℕ → Bytes
generate_rule_id source line =
    let id0 = replace_byte (trim_prefix source (lit "/")) b'/' (lit "-") in
    let id1 = replace_byte (replace_byte id0 b'*' (lit "x")) b'^' [] in
    let id = replace_byte (replace_byte (replace_byte id1 b'$' []) b'(' []) b')' [] in
    if is_empty id then lit "rule-" ++ format_nat line else id

wrap_line : {A : Type 0} → ℕ → Result LineError A → Result LineError A
wrap_line line (ok a) = ok a
wrap_line line (err e) = err (at_line line e)

module _ {R : Type 0} (parsers : Parsers) where
  with_rule : Option ShortFormRule → ℕ → List (Rule R) → List (Rule R)
  with_rule none line rules = rules
  with_rule (some s) line rules = rules ++ to_rule s (generate_rule_id s.source line) ∷ []

  -- The loop of LoadCSVFile over the lines, behind so many.
  pub load_lines : ℕ → List (Rule R) → List Bytes → Result LineError (List (Rule R))
  unfolding with_rule wrap_line
  load_lines n rules [] = ok rules
  load_lines n rules (text ∷ texts) = wrap_line (n + 1) (parse_csv_line parsers text) >>= λ found.
      load_lines (n + 1) (with_rule found (n + 1) rules) texts
