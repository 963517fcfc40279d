-- ===== src/Router/Categories.antt =====
-- What New puts into the parts of a router (internal/router/router.go).
use the_redirector.Base.{
  ◌≡◌, refl, sym, ◌∙◌, Bool, true, false, ◌&&◌, ◌||◌, not, any, ap, Option, none, some, List, [],
  ◌∷◌, ◌++◌, append_assoc, append-nil, Bytes, lookup, lookup-insert, is_empty, ◌=s◌, has_key,
  if◌then◌else◌, arith,
}
use the_redirector.Config.{MatchType, exact, prefix, regex, glob, unset, other, Rule}
use the_redirector.Router.{
  Router, is_prefix, build_match_key, add_as, categorize, add_host, build_hosts, empty_router,
  sorted, new,
}

abbrev pub is_exact : MatchType → Bool
is_exact exact = true
is_exact _ = false

abbrev pub is_pattern : MatchType → Bool
is_pattern regex = true
is_pattern glob = true
is_pattern _ = false

module _ {R : Type 0} where
  abbrev pub only_if : Bool → Rule R → List (Rule R)
  only_if b r = if b then r ∷ [] else []

  -- The rules of a list with a match type that passes the test, in their order.
  unfoldable pub of_type : (MatchType → Bool) → List (Rule R) → List (Rule R)
  of_type p [] = []
  of_type p (r ∷ rs) = only_if (p r.match.type) r ++ of_type p rs

  abbrev pub key_of : Rule R → Bytes
  key_of r = build_match_key r.match.host r.match.path

  abbrev pub has_exact_key : Bytes → Rule R → Bool
  has_exact_key key r = is_exact r.match.type && (key_of r =s key)

  -- The last exact rule of the list with the key, or what was found before.
  unfoldable pub last_exact : Option (Rule R) → Bytes → List (Rule R) → Option (Rule R)
  last_exact found key [] = found
  last_exact found key (r ∷ rs) = last_exact (if has_exact_key key r then some r else found) key rs

  add_as-prefix :
      (m : MatchType) (r : Rule R) (t : Router R)
      → (add_as m r t).prefix_matches ≡ t.prefix_matches ++ only_if (is_prefix m) r
  add_as-prefix exact r t = sym (append-nil _)
  add_as-prefix prefix r t = refl
  add_as-prefix regex r t = sym (append-nil _)
  add_as-prefix glob r t = sym (append-nil _)
  add_as-prefix unset r t = sym (append-nil _)
  add_as-prefix (other _) r t = sym (append-nil _)

  add_as-pattern :
      (m : MatchType) (r : Rule R) (t : Router R)
      → (add_as m r t).regex_matches ≡ t.regex_matches ++ only_if (is_pattern m) r
  add_as-pattern exact r t = sym (append-nil _)
  add_as-pattern prefix r t = sym (append-nil _)
  add_as-pattern regex r t = refl
  add_as-pattern glob r t = refl
  add_as-pattern unset r t = sym (append-nil _)
  add_as-pattern (other _) r t = sym (append-nil _)

  add_as-exact :
      (m : MatchType) (r : Rule R) (t : Router R) (key : Bytes)
      → lookup (add_as m r t).exact_matches key
        ≡ (if is_exact m && (key_of r =s key) then some r else lookup t.exact_matches key)
  add_as-exact exact r t key = lookup-insert t.exact_matches (key_of r) key r
  add_as-exact prefix r t key = refl
  add_as-exact regex r t key = refl
  add_as-exact glob r t key = refl
  add_as-exact unset r t key = refl
  add_as-exact (other _) r t key = refl

  add_as-hosts :
      (m : MatchType) (r : Rule R) (t : Router R)
      → ((add_as m r t).allow_any_host ≡ t.allow_any_host)
        × ((add_as m r t).allowed_hosts ≡ t.allowed_hosts)
  add_as-hosts exact r t = (refl, refl)
  add_as-hosts prefix r t = (refl, refl)
  add_as-hosts regex r t = (refl, refl)
  add_as-hosts glob r t = (refl, refl)
  add_as-hosts unset r t = (refl, refl)
  add_as-hosts (other _) r t = (refl, refl)

  categorize-prefix :
      (t : Router R) (rules : List (Rule R))
      → (categorize t rules).prefix_matches ≡ t.prefix_matches ++ of_type is_prefix rules
  unfolding categorize of_type
  categorize-prefix t [] = sym (append-nil _)
  categorize-prefix t (r ∷ rs) =
      categorize-prefix (add_as r.match.type r t) rs
      ∙ ap (λ l. l ++ of_type is_prefix rs) (add_as-prefix r.match.type r t)
      ∙ append_assoc t.prefix_matches (only_if (is_prefix r.match.type) r) (of_type is_prefix rs)

  categorize-pattern :
      (t : Router R) (rules : List (Rule R))
      → (categorize t rules).regex_matches ≡ t.regex_matches ++ of_type is_pattern rules
  unfolding categorize of_type
  categorize-pattern t [] = sym (append-nil _)
  categorize-pattern t (r ∷ rs) =
      categorize-pattern (add_as r.match.type r t) rs
      ∙ ap (λ l. l ++ of_type is_pattern rs) (add_as-pattern r.match.type r t)
      ∙ append_assoc t.regex_matches (only_if (is_pattern r.match.type) r) (of_type is_pattern rs)

  categorize-exact :
      (t : Router R) (rules : List (Rule R)) (key : Bytes)
      → lookup (categorize t rules).exact_matches key
        ≡ last_exact (lookup t.exact_matches key) key rules
  unfolding categorize last_exact
  categorize-exact t [] key = refl
  categorize-exact t (r ∷ rs) key =
      categorize-exact (add_as r.match.type r t) rs key
      ∙ ap (λ o. last_exact o key rs) (add_as-exact r.match.type r t key)

  -- The loop over the match types leaves the hosts alone.
  categorize-hosts :
      (t : Router R) (rules : List (Rule R))
      → ((categorize t rules).allow_any_host ≡ t.allow_any_host)
        × ((categorize t rules).allowed_hosts ≡ t.allowed_hosts)
  unfolding categorize
  categorize-hosts t [] = (refl, refl)
  categorize-hosts t (r ∷ rs) =
      let (any_host, hosts) = categorize-hosts (add_as r.match.type r t) rs in
      let (any_host', hosts') = add_as-hosts r.match.type r t in
      (any_host ∙ any_host', hosts ∙ hosts')

  -- The host loop leaves the rules alone.
  build_hosts-rules :
      (t : Router R) (rules : List (Rule R))
      → ((build_hosts t rules).exact_matches ≡ t.exact_matches)
        × ((build_hosts t rules).prefix_matches ≡ t.prefix_matches)
        × ((build_hosts t rules).regex_matches ≡ t.regex_matches)
  unfolding build_hosts
  build_hosts-rules t [] = (refl, refl, refl)
  build_hosts-rules t (r ∷ rs) = ground (arith, build_hosts-rules (add_host r t) rs)

  build_hosts-any :
      (t : Router R) (rules : List (Rule R))
      → (build_hosts t rules).allow_any_host
        ≡ (t.allow_any_host || any (λ r. is_empty r.match.host) rules)
  unfolding build_hosts
  build_hosts-any t [] = ground arith
  build_hosts-any t (r ∷ rs) = ground (arith, build_hosts-any (add_host r t) rs)

  abbrev pub names_host : Bytes → Rule R → Bool
  names_host host r = not (is_empty r.match.host) && (r.match.host =s host)

  build_hosts-hosts :
      (t : Router R) (rules : List (Rule R)) (host : Bytes)
      → has_key (build_hosts t rules).allowed_hosts host
        ≡ (has_key t.allowed_hosts host || any (names_host host) rules)
  unfolding build_hosts has_key
  build_hosts-hosts t [] host = ground arith
  build_hosts-hosts t (r ∷ rs) host = ground (
    arith,
    build_hosts-hosts (add_host r t) rs host,
    lookup-insert t.allowed_hosts r.match.host host tt,
  )

  module _ (rules : List (Rule R)) where
    -- The parts of the router of a rule list, read off the sorted list.
    pub new-prefix : (new rules).prefix_matches ≡ of_type is_prefix (sorted rules)
    unfolding new
    new-prefix =
        (build_hosts-rules (categorize empty_router (sorted rules)) (sorted rules)).1
        ∙ categorize-prefix empty_router (sorted rules)

    pub new-pattern : (new rules).regex_matches ≡ of_type is_pattern (sorted rules)
    unfolding new
    new-pattern =
        (build_hosts-rules (categorize empty_router (sorted rules)) (sorted rules)).2
        ∙ categorize-pattern empty_router (sorted rules)

    pub new-exact :
        (key : Bytes) → lookup (new rules).exact_matches key ≡ last_exact none key (sorted rules)
    unfolding new lookup
    new-exact key =
        ap (λ m. lookup m key)
          (build_hosts-rules (categorize empty_router (sorted rules)) (sorted rules)).0
        ∙ categorize-exact empty_router (sorted rules) key

    pub new-any_host : (new rules).allow_any_host ≡ any (λ r. is_empty r.match.host) (sorted rules)
    unfolding new
    new-any_host =
        build_hosts-any (categorize empty_router (sorted rules)) (sorted rules)
        ∙ ap (λ b. b || any (λ r. is_empty r.match.host) (sorted rules))
            (categorize-hosts empty_router (sorted rules)).0

    pub new-hosts :
        (host : Bytes)
        → has_key (new rules).allowed_hosts host ≡ any (names_host host) (sorted rules)
    unfolding new has_key lookup
    new-hosts host =
        build_hosts-hosts (categorize empty_router (sorted rules)) (sorted rules) host
        ∙ ap (λ m. has_key m host || any (names_host host) (sorted rules))
            (categorize-hosts empty_router (sorted rules)).1
