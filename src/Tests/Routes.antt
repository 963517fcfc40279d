-- ===== src/Tests/Routes.antt =====
-- The router at concrete rules and requests.
use the_redirector.Base.{
  ◌≡◌, refl, ◌↔◌, Bool, true, false, ◌&&◌, none, some, List, [], ◌∷◌, ◌++◌, Bytes, lit, All, lookup,
  find, insert, ◌=s◌, has_prefix, ℤ, pos, eqb_ℤ, arith, ◌≤ℤ◌,
}
use the_redirector.Config.{exact, prefix, regex, Rule}
use the_redirector.Base.Sort.{sort_stable}
use the_redirector.Router.{
  new, match, match_exact, match_regex, match_prefix, is_allowed_host, build_match_key, is_prefix,
}
use the_redirector.Router.Keys.{NoSlash}
use the_redirector.Router.Categories.{has_exact_key}
use the_redirector.Router.Host.{IsBare, match-is_allowed_host, ported_host-unmatched}
use the_redirector.Router.Matching.{IsPlain, IsAnswer, Serves, match-IsAnswer, match-none_iff}
use the_redirector.Router.Order.{
  ComesFirst, prefix_hits, match_prefix-longest, exact-lowest_priority, spaced-first,
}
use the_redirector.Tests.Samples.{text_engine, rule_of}

abbrev exact_rule : Rule Bytes
exact_rule = rule_of (lit "e") exact (lit "a") (lit "/x") [] (pos 0)

abbrev short_rule : Rule Bytes
short_rule = rule_of (lit "s") prefix (lit "a") (lit "/p") [] (pos 0)

abbrev long_rule : Rule Bytes
long_rule = rule_of (lit "l") prefix (lit "a") (lit "/p/q") [] (pos 0)

abbrev high_rule : Rule Bytes
high_rule = rule_of (lit "h") exact (lit "a") (lit "/x") [] (pos 9)

abbrev pattern_rule : Rule Bytes
pattern_rule = rule_of (lit "g") regex (lit "a") [] (lit "/z") (pos 0)

abbrev site : List (Rule Bytes)
site = short_rule ∷ long_rule ∷ exact_rule ∷ pattern_rule ∷ []

exact_rule-IsPlain : IsPlain exact_rule
exact_rule-IsPlain = record { host = (ground arith, tt); path = λ _. refl }

short_rule-IsPlain : IsPlain short_rule
short_rule-IsPlain = record { host = (ground arith, tt); path = λ _. refl }

long_rule-IsPlain : IsPlain long_rule
long_rule-IsPlain = record { host = (ground arith, tt); path = λ _. refl }

pattern_rule-IsPlain : IsPlain pattern_rule
pattern_rule-IsPlain = record { host = (ground arith, tt); path = λ e. absurd (cc) }

site-IsPlain : All IsPlain site
site-IsPlain =
    (short_rule-IsPlain, (long_rule-IsPlain, (exact_rule-IsPlain, (pattern_rule-IsPlain, tt))))

a_NoSlash : NoSlash (lit "a")
a_NoSlash = (ground arith, tt)

a_IsBare : IsBare (lit "a")
a_IsBare = ((ground arith, ground arith, ground arith), tt)

port_IsBare : IsBare (lit "8")
port_IsBare = ((ground arith, ground arith, ground arith), tt)

long_match : match text_engine (new site) (lit "a") (lit "/p/q/r") ≡ some (long_rule, [])
unfolding match match_exact lookup sort_stable new insert ◌=s◌ build_match_key match_prefix
    has_prefix match_regex
long_match = refl

pattern_match : match text_engine (new site) (lit "a") (lit "/z") ≡ some (pattern_rule, [])
unfolding match match_exact lookup sort_stable new insert ◌=s◌ build_match_key match_prefix
    has_prefix match_regex
pattern_match = refl

match-IsAnswer_example : IsAnswer text_engine site (lit "a") (lit "/z") pattern_rule []
match-IsAnswer_example =
    match-IsAnswer text_engine site (lit "a") (lit "/z") site-IsPlain a_NoSlash refl pattern_match

match-none_iff_example :
    (match text_engine (new site) (lit "a") (lit "/none") ≡ none)
    ↔ All
        (λ r.
          (caps : List Bytes) → ¬ Serves text_engine r.match.type r (lit "a") (lit "/none") caps)
        site
match-none_iff_example =
    match-none_iff text_engine site (lit "a") (lit "/none") site-IsPlain a_NoSlash refl

match-is_allowed_host_example : is_allowed_host (new site) (lit "a") ≡ true
match-is_allowed_host_example =
    match-is_allowed_host site text_engine (lit "a") (lit "/z") site-IsPlain a_IsBare a_NoSlash refl
      pattern_match

ported_host-unmatched_example :
    (is_allowed_host (new site) (lit "a" ++ (lit ":" ++ lit "8")) ≡ true)
    × (match text_engine (new site) (lit "a" ++ (lit ":" ++ lit "8")) (lit "/x") ≡ none)
ported_host-unmatched_example =
    ported_host-unmatched site text_engine (lit "a") (lit "8") (lit "/x") (λ e. cc)
      (refl, (refl, (refl, (refl, tt)))) (λ e. cc) a_IsBare port_IsBare site-IsPlain
      (ground arith, (ground arith, (ground arith, tt))) refl

abbrev ported_rule : Rule Bytes
ported_rule = rule_of (lit "o") exact (lit "b:8") (lit "/x") [] (pos 0)

b_IsBare : IsBare (lit "b")
b_IsBare = ((ground arith, ground arith, ground arith), tt)

abbrev prefix_site : List (Rule Bytes)
prefix_site = short_rule ∷ long_rule ∷ high_rule ∷ []

abbrev prefix_at_zero : ℤ → Bool
prefix_at_zero p = eqb_ℤ p (pos 0)

prefix_site-match :
    match_prefix (new prefix_site).prefix_matches (lit "a") (lit "/p/q/r") ≡ some long_rule
unfolding match match_exact lookup sort_stable new insert ◌=s◌ build_match_key match_prefix
    has_prefix match_regex
prefix_site-match = refl

match_prefix-longest_example :
    All
      (λ s.
        is_prefix s.match.type ≡ true
        → prefix_hits (lit "a") (lit "/p/q/r") s ≡ true
        → ComesFirst long_rule s)
      prefix_site
match_prefix-longest_example =
    match_prefix-longest prefix_at_zero prefix_site (refl, (refl, (refl, tt))) (lit "a")
      (lit "/p/q/r") prefix_site-match

exact_lookup :
    lookup (new (exact_rule ∷ high_rule ∷ [])).exact_matches (lit "a:/x") ≡ some exact_rule
unfolding match match_exact lookup sort_stable new insert ◌=s◌ build_match_key match_prefix
    has_prefix match_regex
exact_lookup = refl

exact-lowest_priority_example :
    All
      (λ s. has_exact_key (lit "a:/x") s ≡ true → exact_rule.priority ≤ℤ s.priority)
      (exact_rule ∷ high_rule ∷ [])
exact-lowest_priority_example =
    exact-lowest_priority (λ _. false) (exact_rule ∷ high_rule ∷ []) (refl, (refl, tt)) (lit "a:/x")
      exact_lookup

hits_short : prefix_hits (lit "a") (lit "/p/q/r") short_rule ≡ true
unfolding ◌=s◌ has_prefix
hits_short = refl

hits_long : prefix_hits (lit "a") (lit "/p/q/r") long_rule ≡ true
unfolding ◌=s◌ has_prefix
hits_long = refl

spaced-first_example :
    match_prefix
      (new (short_rule ∷ exact_rule ∷ long_rule ∷ [])).prefix_matches
      (lit "a")
      (lit "/p/q/r")
    ≡ find
        (λ r. is_prefix r.match.type && prefix_hits (lit "a") (lit "/p/q/r") r)
        (short_rule ∷ exact_rule ∷ long_rule ∷ [])
spaced-first_example =
    spaced-first (short_rule ∷ exact_rule ∷ long_rule ∷ []) (lit "a") (lit "/p/q/r") (omega arith)
      (refl, refl, (refl, refl, tt))
