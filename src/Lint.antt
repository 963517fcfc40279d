-- ===== src/Lint.antt =====
-- internal/lint/lint.go: the linter's types, and the checks that look at one rule or at two. The texts
-- of issues are kept as their parts; files and lines, which no check sets, are left out.
pub mod Cycles
use the_redirector.Base.{
  ℕ, zero, suc, ◌+◌, Bool, true, false, ◌&&◌, ◌||◌, not, Option, none, some, is_some, List, [], ◌∷◌,
  ◌++◌, any, Bytes, lit, is_empty, ◌=s◌, has_prefix, has_suffix, strip_prefix, reverse, Dict,
  lookup, insert, length, ltb, leb, ◌==◌, ℤ, pos, ltb_ℤ, eqb_ℤ, if◌then◌else◌,
}
use the_redirector.Base.Sort.{sort_stable}
use the_redirector.Config.{
  Engine, MatchType, exact, prefix, regex, glob, unset, other, Match, Rule, Config,
}

pub data Severity : Type 0 where
  severity_error severity_warning severity_info : Severity

pub data Message : Type 0 where
  duplicate_id : Bytes → ℕ → Message
  may_overlap : Bytes → Bytes → Message
  greedy_glob greedy_regex greedy_prefix : Message
  multiple_stars nested_quantifiers not_anchored crosses_segments : Message
  very_long : ℕ → Message
  may_be_unreachable : Bytes → Bytes → Message
  no_status : ℕ → Message
  circular_redirect : List Bytes → Message
  self_loop : Bytes → Bytes → Message

pub record Issue : Type 0 where
  pub severity : Severity
  pub rule_id : Bytes
  pub message : Message

abbrev pub severity_order : Severity → ℕ
severity_order severity_error = 0
severity_order severity_warning = 1
severity_order severity_info = 2

-- strings.TrimSuffix
unfoldable pub trim_suffix : Bytes → Bytes → Bytes
trim_suffix s suffix = elim (strip_prefix (reverse s) (reverse suffix)) [
  | none ↦ s
  | some t ↦ reverse t
]

-- strings.Contains
unfoldable pub contains : Bytes → Bytes → Bool
contains [] t = is_empty t
contains (c ∷ s) t = let rest = contains s t in if has_prefix (c ∷ s) t then true else rest

-- strings.Count of ".*", behind a dot or not
count_stars : Bool → Bytes → ℕ
count_stars dot [] = 0
count_stars dot (c ∷ s) =
    let rest = count_stars (c == b'.') s in if dot && (c == b'*') then suc rest else rest

-- Of the rules with an index, that of the first rule with each id; a later one is an issue.
unfoldable pub duplicates : {R : Type 0} → Dict ℕ → ℕ → List (Rule R) → List Issue
duplicates seen i [] = []
duplicates seen i (rule ∷ rules) = elim (lookup seen rule.id) [
  | some first ↦
      record { severity = severity_error; rule_id = rule.id; message = duplicate_id rule.id first }
      ∷ duplicates seen (i + 1) rules
  | none ↦ duplicates (insert seen rule.id i) (i + 1) rules
]

-- checkDuplicateIDs
unfoldable pub check_duplicate_ids : {R : Type 0} → List (Rule R) → List Issue
unfolding duplicates
check_duplicate_ids rules = duplicates [] 0 rules

abbrev pub is_exact : MatchType → Bool
is_exact exact = true
is_exact _ = false

abbrev pub is_glob : MatchType → Bool
is_glob glob = true
is_glob _ = false

-- The cases of detectOverlap for prefixes.
overlap_paths : MatchType → MatchType → Bytes → Bytes → Bool
overlap_paths prefix prefix p q = has_prefix p q || has_prefix q p
overlap_paths prefix exact p q = has_prefix q p
overlap_paths exact prefix p q = has_prefix p q
overlap_paths _ _ p q = false

abbrev issue_if : Bool → Severity → Bytes → Message → List Issue
issue_if test severity id message =
    if test then record { severity = severity; rule_id = id; message = message } ∷ [] else []

-- The checks of one pattern; `nested` is the regular expression of nested quantifiers.
slow_at : (Bytes → Bool) → MatchType → Bytes → Bytes → List Issue
unfolding count_stars
slow_at nested regex id pattern =
    issue_if (leb 2 (count_stars false pattern)) severity_warning id multiple_stars
    ++ issue_if (nested pattern) severity_error id nested_quantifiers
    ++ issue_if (not (has_prefix pattern (lit "^")) && not (has_prefix pattern (lit "/")))
        severity_info id not_anchored
    ++ (if contains pattern (lit "[^/]*")
        then []
        else issue_if (contains pattern (lit ".*") && not (contains pattern (lit "[^/]")))
            severity_info id crosses_segments
          ++ issue_if (ltb 100 (length pattern)) severity_info id (very_long (length pattern)))
slow_at nested _ id pattern = []

module _ {R : Type 0} where
  -- The last two cases of detectOverlap.
  catches : Rule R → Bool
  catches r = is_glob r.match.type && contains r.match.pattern (lit "**")

  -- detectOverlap: whether it returns a text.
  unfoldable pub detect_overlap : Rule R → Rule R → Bool
  unfolding catches overlap_paths
  detect_overlap r1 r2 =
      if is_exact r1.match.type && is_exact r2.match.type
      then r1.match.path =s r2.match.path
      else overlap_paths r1.match.type r2.match.type r1.match.path r2.match.path
        || catches r1
        || catches r2

  overlaps_with : Rule R → List (Rule R) → List Issue
  overlaps_with r1 [] = []
  overlaps_with r1 (r2 ∷ rest) =
      let more = overlaps_with r1 rest in
      if detect_overlap r1 r2 && eqb_ℤ r1.priority r2.priority
      then record {
        severity = severity_warning;
        rule_id = r1.id;
        message = may_overlap r1.id r2.id;
      }
        ∷ more
      else more

  -- checkOverlappingPatterns
  unfoldable pub check_overlapping_patterns : List (Rule R) → List Issue
  unfolding overlaps_with
  check_overlapping_patterns [] = []
  check_overlapping_patterns (r ∷ rest) = overlaps_with r rest ++ check_overlapping_patterns rest

  greedy_at : MatchType → Rule R → List Issue
  greedy_at glob rule =
      if (rule.match.pattern =s lit "/**" || rule.match.pattern =s lit "/*")
        && not (ltb_ℤ rule.priority (pos 0))
      then record { severity = severity_warning; rule_id = rule.id; message = greedy_glob } ∷ []
      else []
  greedy_at regex rule =
      if has_prefix rule.match.pattern (lit ".*") || rule.match.pattern =s lit ".*"
      then record { severity = severity_warning; rule_id = rule.id; message = greedy_regex } ∷ []
      else []
  greedy_at prefix rule =
      if rule.match.path =s lit "/" && not (ltb_ℤ rule.priority (pos 0))
      then record { severity = severity_warning; rule_id = rule.id; message = greedy_prefix } ∷ []
      else []
  greedy_at _ rule = []

  -- checkGreedyPatterns
  unfoldable pub check_greedy_patterns : List (Rule R) → List Issue
  unfolding greedy_at
  check_greedy_patterns [] = []
  check_greedy_patterns (rule ∷ rules) =
      greedy_at rule.match.type rule ++ check_greedy_patterns rules

  -- checkRegexPerformance
  unfoldable pub check_regex_performance : (Bytes → Bool) → List (Rule R) → List Issue
  unfolding slow_at
  check_regex_performance nested [] = []
  check_regex_performance nested (rule ∷ rules) =
      slow_at nested rule.match.type rule.id rule.match.pattern
      ++ check_regex_performance nested rules

  count_no_status : List (Rule R) → ℕ
  count_no_status [] = 0
  count_no_status (rule ∷ rules) =
      let n = count_no_status rules in if eqb_ℤ rule.redirect.status (pos 0) then suc n else n

  -- checkMissingDefaults
  unfoldable pub check_missing_defaults : ℤ → List (Rule R) → List Issue
  unfolding count_no_status
  check_missing_defaults status rules =
      let n = count_no_status rules in
      issue_if (ltb 0 n && eqb_ℤ status (pos 0)) severity_info [] (no_status n)

module _ {R : Type 0} (engine : Engine R) where
  -- re.MatchString(path)
  abbrev pub match_string : R → Bytes → Bool
  match_string x path = is_some (engine.find_submatch x path)

  would_match_as : MatchType → Rule R → Bytes → Bool
  would_match_as prefix rule path = has_prefix path rule.match.path
  would_match_as glob rule path =
      has_suffix rule.match.pattern (lit "/**")
      && has_prefix path (trim_suffix rule.match.pattern (lit "/**"))
  would_match_as regex rule path = elim rule.compiled_regex [
    | none ↦ false
    | some x ↦ match_string x path
  ]
  would_match_as _ rule path = false

  -- wouldMatch
  unfoldable pub would_match : Rule R → Bytes → Bool
  unfolding would_match_as
  would_match rule path = would_match_as rule.match.type rule path

  shadowed_by : Rule R → List (Rule R) → List Issue
  unfolding would_match
  shadowed_by rule [] = []
  shadowed_by rule (later ∷ rest) =
      let more = shadowed_by rule rest in
      if is_exact later.match.type && would_match rule later.match.path
      then record {
        severity = severity_warning;
        rule_id = later.id;
        message = may_be_unreachable later.id rule.id;
      }
        ∷ more
      else more

  unreachable_in : List (Rule R) → List Issue
  unfolding shadowed_by
  unreachable_in [] = []
  unreachable_in (rule ∷ rest) =
      let more = unreachable_in rest in
      if is_exact rule.match.type then more else shadowed_by rule rest ++ more

  -- checkUnreachableRules
  unfoldable pub check_unreachable_rules : List (Rule R) → List Issue
  unfolding unreachable_in
  check_unreachable_rules rules =
      unreachable_in (sort_stable (λ (a b : Rule R). ltb_ℤ b.priority a.priority) rules)

-- Errors, Warnings and HasErrors of a result
unfoldable pub with_severity : ℕ → List Issue → List Issue
with_severity n [] = []
with_severity n (issue ∷ issues) =
    let rest = with_severity n issues in
    if severity_order issue.severity == n then issue ∷ rest else rest

unfoldable pub has_errors : List Issue → Bool
has_errors [] = false
has_errors (issue ∷ issues) = if severity_order issue.severity == 0 then true else has_errors issues
