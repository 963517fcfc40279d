-- ===== src/Tests/Linting.antt =====
-- The linter at two rules that redirect to each other.
use the_redirector.Base.{
  ℕ, ◌≡◌, ◌↔◌, refl, Option, none, some, List, [], ◌∷◌, Memᴰ, All, Bytes, lit, pos, has_prefix,
  has_key, lookup, insert, ◌=s◌,
}
use the_redirector.Config.{exact, Rule, get_location}
use the_redirector.Lint.{check_duplicate_ids}
use the_redirector.Lint.Cycles.{
  extract_destination_path, collect_local_hosts, path_matches_rule, targets_from, neighbours,
  find_cycles, search_from, dfs, visit, keep_cycle, extract_cycle,
}
use the_redirector.Lint.Cycles.Search.{IsCycle, find_cycles-AreCycles}
use the_redirector.Lint.Cycles.Graph.{IsRedirect, neighbours_iff}
use the_redirector.Lint.Cycles.Complete.{find_cycles-neighbours_iff}
use the_redirector.Tests.Samples.{text_engine, rule_of}

abbrev moving : Bytes → Bytes → Bytes → Rule Bytes
moving id path location =
    let rule = rule_of id exact (lit "a") path [] (pos 0) in
    record rule { redirect = record rule.redirect { location = location } }

-- A loop of two rules.
abbrev looping : List (Rule Bytes)
looping = moving (lit "r") (lit "/x") (lit "/y") ∷ moving (lit "s") (lit "/y") (lit "/x") ∷ []

abbrev local_path : Bytes → Option Bytes
local_path = extract_destination_path (λ dest. none) (collect_local_hosts looping)

abbrev edges : ℕ → List ℕ
edges = neighbours text_engine local_path looping

edges_test : (edges 0 ≡ 1 ∷ []) × (edges 1 ≡ 0 ∷ [])
unfolding neighbours extract_destination_path has_prefix get_location targets_from path_matches_rule
    ◌=s◌
edges_test = (refl, refl)

cycle_found_test : find_cycles edges (λ cycle. cycle) 2 ≡ some ((0 ∷ 1 ∷ 0 ∷ []) ∷ [])
unfolding find_cycles search_from dfs visit neighbours extract_destination_path has_prefix
    get_location targets_from path_matches_rule ◌=s◌ keep_cycle extract_cycle has_key
cycle_found_test = refl

distinct_ids_test : check_duplicate_ids looping ≡ []
unfolding check_duplicate_ids lookup insert ◌=s◌
distinct_ids_test = refl

find_cycles-AreCycles_example :
    (cs : List (List ℕ)) × (find_cycles edges (λ cycle. cycle) 2 ≡ some cs)
    × All (IsCycle edges (λ cycle. cycle)) cs
find_cycles-AreCycles_example = find_cycles-AreCycles edges (λ cycle. cycle) 2

neighbours_iff_example : Memᴰ 1 (edges 0) ↔ IsRedirect text_engine local_path looping 0 1
neighbours_iff_example = neighbours_iff text_engine local_path looping 0 1

-- The second rule leads out of the list.
abbrev straight : List (Rule Bytes)
straight = moving (lit "r") (lit "/x") (lit "/y") ∷ moving (lit "s") (lit "/y") (lit "/z") ∷ []

find_cycles-neighbours_iff_example :
    (find_cycles (neighbours text_engine local_path straight) (λ cycle. cycle) 2 ≡ some [])
    ↔ ((c : List ℕ) → ¬ IsCycle (neighbours text_engine local_path straight) (λ cycle. cycle) c)
find_cycles-neighbours_iff_example =
    find_cycles-neighbours_iff text_engine local_path (λ cycle. cycle) straight
