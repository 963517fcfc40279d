-- ===== src/Router.antt =====
-- internal/router/router.go: the router that a rule list becomes, and the lookup of a request.
-- A map is an association list, a *config.Rule the rule itself (no rule changes behind a router),
-- and a lookup that fails is `none`. `split_host_port` is net.SplitHostPort, without the port.
pub mod Host
pub mod Keys
pub mod Categories
pub mod Matching
pub mod Order
use the_redirector.Base.{
  ℕ, zero, suc, Bool, true, false, ◌&&◌, ◌||◌, not, Option, none, some, List, [], ◌∷◌, ◌++◌, ◌+◌,
  Bytes, lit, is_empty, Dict, lookup, insert, has_key, length, ltb, ltb_ℤ, eqb_ℤ, if◌then◌else◌,
  ◌==◌, ◌=s◌, has_prefix, contains_byte, cut_byte, cut_last_byte,
}
use the_redirector.Base.Sort.{sort_stable}
use the_redirector.Config.{Engine, MatchType, exact, prefix, regex, glob, unset, other, Rule}

pub record Router (R : Type 0) : Type 0 where
  pub exact_matches : Dict (Rule R)
  pub prefix_matches : List (Rule R)
  pub regex_matches : List (Rule R)
  pub allowed_hosts : Dict (Unit {0})
  pub allow_any_host : Bool

abbrev pub is_prefix : MatchType → Bool
is_prefix prefix = true
is_prefix _ = false

-- buildMatchKey
unfoldable pub build_match_key : Bytes → Bytes → Bytes
build_match_key host path = if is_empty host then path else host ++ (lit ":" ++ path)

module _ {R : Type 0} where
  -- The test of the sort: higher priority first, then longer prefixes.
  unfoldable pub rule_less : Rule R → Rule R → Bool
  rule_less a b =
      if not (eqb_ℤ a.priority b.priority)
      then ltb_ℤ b.priority a.priority
      else is_prefix a.match.type
        && is_prefix b.match.type
        && ltb (length b.match.path) (length a.match.path)

  -- The switch on the match type, for one rule.
  abbrev pub add_as : MatchType → Rule R → Router R → Router R
  add_as exact rule r = record r {
    exact_matches = insert r.exact_matches (build_match_key rule.match.host rule.match.path) rule;
  }
  add_as prefix rule r = record r { prefix_matches = r.prefix_matches ++ rule ∷ [] }
  add_as regex rule r = record r { regex_matches = r.regex_matches ++ rule ∷ [] }
  add_as glob rule r = record r { regex_matches = r.regex_matches ++ rule ∷ [] }
  add_as unset rule r = r
  add_as (other t) rule r = r

  pub categorize : Router R → List (Rule R) → Router R
  categorize r [] = r
  categorize r (rule ∷ rules) = categorize (add_as rule.match.type rule r) rules

  abbrev pub add_host : Rule R → Router R → Router R
  add_host rule r =
      if is_empty rule.match.host
      then record r { allow_any_host = true }
      else record r { allowed_hosts = insert r.allowed_hosts rule.match.host tt }

  pub build_hosts : Router R → List (Rule R) → Router R
  build_hosts r [] = r
  build_hosts r (rule ∷ rules) = build_hosts (add_host rule r) rules

  abbrev pub empty_router : Router R
  empty_router = record {
    exact_matches = [];
    prefix_matches = [];
    regex_matches = [];
    allowed_hosts = [];
    allow_any_host = false;
  }

  abbrev pub sorted : List (Rule R) → List (Rule R)
  sorted rules = sort_stable rule_less rules

  -- New: its error is always nil.
  unfoldable pub new : List (Rule R) → Router R
  unfolding categorize build_hosts rule_less
  new rules = build_hosts (categorize empty_router (sorted rules)) (sorted rules)

-- The checks of net.SplitHostPort behind the one of the last colon: `before` and `behind` are the
-- text on its two sides.
split_bracketed : Bytes → Bytes → Bytes → Option Bytes
split_bracketed host_port before behind = elim (cut_byte host_port 93) [
  | none ↦ none
  | some (inside, after) ↦ elim inside [
    | [] ↦ none
    | open_bracket ∷ host ↦
        if is_empty after
        then none
        else if not (length before == length host + 2)
        then none
        else if contains_byte host 91 || contains_byte behind 91
        then none
        else if contains_byte after 93
        then none
        else some host
  ]
]

split_plain : Bytes → Bytes → Option Bytes
split_plain before host_port =
    if contains_byte before 58
    then none
    else if contains_byte host_port 91
    then none
    else if contains_byte host_port 93
    then none
    else some before

-- The host of net.SplitHostPort; `none` is its error.
pub split_host_port : Bytes → Option Bytes
unfolding split_bracketed split_plain
split_host_port host_port = elim (cut_last_byte host_port 58) [
  | none ↦ none
  | some (before, behind) ↦
      if has_prefix host_port (lit "[")
      then split_bracketed host_port before behind
      else split_plain before host_port
]

-- stripPort
unfoldable pub strip_port : Bytes → Bytes
unfolding split_host_port
strip_port host = elim (split_host_port host) [ none ↦ host | some h ↦ h ]

module _ {R : Type 0} where
  -- (*Router).IsAllowedHost
  unfoldable pub is_allowed_host : Router R → Bytes → Bool
  is_allowed_host r host =
      if r.allow_any_host then true else has_key r.allowed_hosts (strip_port host)

  -- matchExact
  unfoldable pub match_exact : Router R → Bytes → Bytes → Option (Rule R)
  match_exact r host path =
      let by_path = lookup r.exact_matches (build_match_key [] path) in
      if not (is_empty host)
      then (elim (lookup r.exact_matches (build_match_key host path)) [
        | some rule ↦ some rule
        | none ↦ by_path
      ])
      else by_path

  -- The test `rule.Match.Host != "" && rule.Match.Host != host`, negated.
  abbrev pub host_fits : Rule R → Bytes → Bool
  host_fits rule host = not (not (is_empty rule.match.host) && not (rule.match.host =s host))

  -- The loop of matchPrefix
  unfoldable pub match_prefix : List (Rule R) → Bytes → Bytes → Option (Rule R)
  match_prefix [] host path = none
  match_prefix (rule ∷ rules) host path =
      if host_fits rule host && has_prefix path rule.match.path
      then some rule
      else match_prefix rules host path

-- The captured groups, without the full match.
abbrev pub captures_of : List Bytes → List Bytes
captures_of [] = []
captures_of (full ∷ groups) = groups

module _ {R : Type 0} (engine : Engine R) where
  -- What FindStringSubmatch says of the rule's pattern: `none` where the pattern is nil or misses.
  abbrev pub rule_captures : Rule R → Bytes → Option (List Bytes)
  rule_captures rule path = elim rule.compiled_regex [
    | none ↦ none
    | some x ↦ engine.find_submatch x path
  ]

  -- The loop of matchRegex
  unfoldable pub match_regex : List (Rule R) → Bytes → Bytes → Option (Rule R × List Bytes)
  match_regex [] host path = none
  match_regex (rule ∷ rules) host path =
      if host_fits rule host
      then (elim (rule_captures rule path) [
        | some groups ↦ some (rule, captures_of groups)
        | none ↦ match_regex rules host path
      ])
      else match_regex rules host path

  -- (*Router).Match
  unfoldable pub match : Router R → Bytes → Bytes → Option (Rule R × List Bytes)
  match r host path = elim (match_exact r host path) [
    | some rule ↦ some (rule, [])
    | none ↦ elim (match_prefix r.prefix_matches host path) [
      | some rule ↦ some (rule, [])
      | none ↦ match_regex r.regex_matches host path
    ]
  ]
