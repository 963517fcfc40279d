-- ===== src/Lint/Cycles.antt =====
-- internal/lint/lint.go: the graph of redirects and its cycles. The colors and the cycles that the
-- closure of findCycles captures are a state; the depth of the search is bounded by a number that
-- starts as the number of rules, and `none` is a search that reaches the bound. The indices in a list
-- of neighbours are those of rules.
pub mod Search
pub mod Graph
pub mod Coloring
pub mod Depth
pub mod Complete
use the_redirector.Base.{
  ℕ, zero, suc, ◌+◌, Bool, true, false, ◌&&◌, ◌||◌, not, Option, none, some, is_some, List, [], ◌∷◌,
  ◌++◌, Bytes, lit, is_empty, ◌=s◌, has_prefix, has_suffix, Dict, has_key, insert, length,
  replicate, get_elem?, set, ltb, ◌==◌, if◌then◌else◌,
}
use the_redirector.Config.{
  Engine, MatchType, exact, prefix, regex, glob, Rule, Config, get_location, is_redirect,
}
use the_redirector.Lint.{
  trim_suffix, match_string, Issue, severity_error, circular_redirect, self_loop,
}

-- url.Parse: the host's name and the path
abbrev pub UrlParser : Type 0
UrlParser = Bytes → Option (Bytes × Bytes)

-- globMatchesPath
unfoldable pub glob_matches_path : Bytes → Bytes → Bool
glob_matches_path pattern path =
    if pattern =s lit "/**" || pattern =s lit "/*"
    then true
    else if has_suffix pattern (lit "/**")
    then has_prefix path (trim_suffix pattern (lit "/**"))
    else has_suffix pattern (lit "/*")
      && has_prefix path (trim_suffix pattern (lit "/*") ++ lit "/")

-- extractDestinationPath; `none` is an empty text.
unfoldable pub extract_destination_path : UrlParser → Dict Bool → Bytes → Option Bytes
extract_destination_path parse hosts dest =
    if has_prefix dest (lit "/") then some dest else elim (parse dest) [
      | none ↦ none
      | some (host, path) ↦
          if has_key hosts host then some (if is_empty path then lit "/" else path) else none
    ]

module _ {R : Type 0} where
  -- collectLocalHosts
  unfoldable pub collect_local_hosts : List (Rule R) → Dict Bool
  collect_local_hosts [] = []
  collect_local_hosts (rule ∷ rules) =
      let hosts = collect_local_hosts rules in
      if is_empty rule.match.host then hosts else insert hosts rule.match.host true

  -- The rules that redirect.
  unfoldable pub redirect_rules : List (Rule R) → List (Rule R)
  redirect_rules [] = []
  redirect_rules (rule ∷ rules) =
      let rest = redirect_rules rules in if is_redirect rule.redirect then rule ∷ rest else rest

module _ {R : Type 0} (engine : Engine R) where
  pattern_matches : Option R → Bytes → Bytes → Bool
  pattern_matches (some x) pattern path = match_string engine x path
  pattern_matches none pattern path = elim (engine.compile pattern) [
    | none ↦ false
    | some x ↦ match_string engine x path
  ]

  matches_as : MatchType → Rule R → Bytes → Bool
  unfolding pattern_matches
  matches_as exact rule path = path =s rule.match.path
  matches_as prefix rule path = has_prefix path rule.match.path
  matches_as regex rule path = pattern_matches rule.compiled_regex rule.match.pattern path
  matches_as glob rule path = glob_matches_path rule.match.pattern path
  matches_as _ rule path = false

  -- pathMatchesRule
  unfoldable pub path_matches_rule : Bytes → Rule R → Bool
  unfolding matches_as
  path_matches_rule path rule = matches_as rule.match.type rule path

  -- The inner loop of buildRedirectGraph, from index `j` on.
  unfoldable pub targets_from : ℕ → Bytes → ℕ → List (Rule R) → List ℕ
  targets_from i path j [] = []
  targets_from i path j (target ∷ rest) =
      let more = targets_from i path (j + 1) rest in
      if not (i == j) && path_matches_rule path target then j ∷ more else more

  -- adj[i] of buildRedirectGraph, with the path of a destination.
  unfoldable pub neighbours : (Bytes → Option Bytes) → List (Rule R) → ℕ → List ℕ
  neighbours local rules i = elim (get_elem? rules i) [
    | none ↦ []
    | some rule ↦ elim (local (get_location rule.redirect)) [
      | none ↦ []
      | some path ↦ targets_from i path 0 rules
    ]
  ]

pub data Color : Type 0 where
  white gray black : Color

pub record Found : Type 0 where
  pub color : List Color
  pub cycles : List (List ℕ)
  pub seen : Dict Bool

abbrev pub color_of : Found → ℕ → Color
color_of s u = elim (get_elem? s.color u) [ none ↦ black | some c ↦ c ]

-- extractCycle; `none` is nil.
unfoldable pub extract_cycle : List ℕ → ℕ → Option (List ℕ)
extract_cycle [] start = none
extract_cycle (node ∷ nodes) start =
    let rest = extract_cycle nodes start in
    if node == start then some (node ∷ nodes ++ start ∷ []) else rest

-- The cycle is kept, unless one with its key was seen.
unfoldable pub keep_cycle : (List ℕ → Bytes) → Option (List ℕ) → Found → Found
keep_cycle key none s = s
keep_cycle key (some cycle) s =
    if has_key s.seen (key cycle)
    then s
    else record s { seen = insert s.seen (key cycle) true; cycles = s.cycles ++ cycle ∷ [] }

abbrev pub cycles_of : Option Found → Option (List (List ℕ))
cycles_of o = elim o [ none ↦ none | some s ↦ some s.cycles ]

module _ (adj : ℕ → List ℕ) (key : List ℕ → Bytes) where
  -- The loop over the neighbours; `search` is dfs.
  unfoldable pub visit :
      (ℕ → List ℕ → Found → Option Found) → List ℕ → List ℕ → Found → Option Found
  visit search [] stack s = some s
  visit search (v ∷ vs) stack s = elim (color_of s v) [
    | gray ↦ visit search vs stack (keep_cycle key (extract_cycle stack v) s)
    | white ↦ elim (search v stack s) [ none ↦ none | some s' ↦ visit search vs stack s' ]
    | black ↦ visit search vs stack s
  ]

  unfoldable pub blacken : ℕ → Option Found → Option Found
  blacken u none = none
  blacken u (some s) = some (record s { color = set s.color u black })

  -- dfs
  unfoldable pub dfs : ℕ → ℕ → List ℕ → Found → Option Found
  unfolding blacken
  dfs zero u stack s = none
  dfs (suc depth) u stack s =
      blacken u
        (visit (dfs depth) (adj u) (stack ++ u ∷ []) (record s { color = set s.color u gray }))

  -- The loop over the roots, of which so many are left.
  unfoldable pub search_from : ℕ → ℕ → ℕ → Found → Option Found
  search_from depth i zero s = some s
  search_from depth i (suc left) s = elim (color_of s i) [
    | white ↦ elim (dfs depth i [] s) [ none ↦ none | some s' ↦ search_from depth (i + 1) left s' ]
    | gray ↦ search_from depth (i + 1) left s
    | black ↦ search_from depth (i + 1) left s
  ]

  -- findCycles, of so many rules
  unfoldable pub find_cycles : ℕ → Option (List (List ℕ))
  find_cycles n =
      cycles_of (search_from n 0 n (record { color = replicate n white; cycles = []; seen = [] }))
