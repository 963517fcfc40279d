-- ===== src/Server/Redirect/Answers.antt =====
-- What handleRedirect (internal/server/server.go) answers, on every branch.
use mathlib.Core.List.{reverse-append, reverse-reverse}
use the_redirector.Base.{
  ◌≡◌, ◌≢◌, ◌⊎◌, refl, sym, ap, ◌∙◌, inl, inr, Bool, true, false, ◌&&◌, Option, none, some, List,
  [], ◌∷◌, ◌++◌, reverse, Bytes, lit, Dict, ◌==◌, ==_iff, arith, Bool-cases, Option-cases,
  false≢true, ℕ,
}
use the_redirector.Config.{Engine, Rule, get_location, is_redirect}
use the_redirector.Router.{Router, is_prefix, new, match, is_allowed_host}
use the_redirector.Server.Redirect.{
  Incoming, Answer, misdirected, not_found, replied, redirected, ends_query, with_query,
  with_suffix, with_captures, finish, destination, answer_of, answer_found, redirect_to,
  handle_redirect,
}
use the_redirector.Server.Redirect.Laws.{match-IsSliceable, slice_from-append}

-- The query behind a destination: nothing is added, or the query behind a question mark, or only the
-- query, where the destination is empty or ends with a question mark.
pub data Queried (preserve : Option Bool) (query d target : Bytes) : Type 0 where
  unasked : preserve ≢ some true → target ≡ d → Queried preserve query d target
  no_query : query ≡ [] → target ≡ d → Queried preserve query d target
  begun :
      preserve ≡ some true
      → query ≢ []
      → d ≢ []
      → ((b : Bytes) → d ≢ b ++ lit "?")
      → target ≡ d ++ (lit "?" ++ query)
      → Queried preserve query d target
  added :
      preserve ≡ some true
      → query ≢ []
      → (d ≡ []) ⊎ ((b : Bytes) × (d ≡ b ++ lit "?"))
      → target ≡ d ++ query
      → Queried preserve query d target

reverse-cons : (c : ℕ) (r : Bytes) → reverse (c ∷ r) ≡ reverse r ++ c ∷ []
reverse-cons c r = reverse-append (c ∷ []) r

ends_query-true : (s : Bytes) → ends_query s ≡ true → (b : Bytes) × (s ≡ b ++ lit "?")
ends_query-true s h = go (reverse s) refl h
  where
    go :
        (r : Bytes)
        → reverse s ≡ r
        → elim r [ [] ↦ false | c ∷ rest ↦ c == b'?' ] ≡ true
        → (b : Bytes) × (s ≡ b ++ lit "?")
    go [] e k = absurd (ground (arith, k))
    go (c ∷ r) e k = (
      reverse r,
      sym (reverse-reverse s)
          ∙ ap reverse e
          ∙ reverse-cons c r
          ∙ ap (λ x. reverse r ++ x ∷ []) ((==_iff c b'?').0 k),
    )

ends_query-append : (b : Bytes) → ends_query (b ++ lit "?") ≡ true
ends_query-append b = ap last_mark (reverse-append b (lit "?"))
  where
    last_mark : Bytes → Bool
    last_mark r = elim r [ [] ↦ false | c ∷ rest ↦ c == b'?' ]

with_query-Queried :
    (preserve : Option Bool) (query d : Bytes)
    → Queried preserve query d (with_query preserve query d)
unfolding with_query
with_query-Queried none query d = unasked (λ e. cc) refl
with_query-Queried (some false) query d = unasked (λ e. cc) refl
with_query-Queried (some true) [] d = no_query refl refl
with_query-Queried (some true) (q ∷ query) [] = added refl (λ e. cc) (inl refl) refl
with_query-Queried (some true) (q ∷ query) (c ∷ d) = elim (Bool-cases (ends_query (c ∷ d))) [
  | inl ends ↦
      rw (ends, with_query) (added refl (λ e. cc) (inr (ends_query-true (c ∷ d) ends)) refl)
  | inr open_end ↦
      rw (open_end, with_query)
        (begun refl (λ e. cc) (λ e. cc)
          (λ b e. false≢true (sym open_end ∙ ap ends_query e ∙ ends_query-append b)) refl)
]

module _ {R : Type 0} (engine : Engine R) where
  -- The location, into which the captures are put for a rule with a pattern and groups.
  pub data Captured (rule : Rule R) (caps : List Bytes) (path d : Bytes) : Type 0 where
    no_pattern :
        rule.compiled_regex ≡ none → d ≡ get_location rule.redirect → Captured rule caps path d
    no_groups : caps ≡ [] → d ≡ get_location rule.redirect → Captured rule caps path d
    put_in :
        (x : R) (group : Bytes) (groups : List Bytes)
        → rule.compiled_regex ≡ some x
        → caps ≡ group ∷ groups
        → d ≡ engine.replace_all x path (get_location rule.redirect)
        → Captured rule caps path d

  -- What follows the prefix in the path is added, for a prefix rule that preserves the path.
  pub data Suffixed (rule : Rule R) (path d d' : Bytes) : Type 0 where
    whole :
        (rule.redirect.preserve_path && is_prefix rule.match.type) ≡ false
        → d' ≡ d
        → Suffixed rule path d d'
    behind :
        rule.redirect.preserve_path ≡ true
        → is_prefix rule.match.type ≡ true
        → (rest : Bytes) → path ≡ rule.match.path ++ rest
        → d' ≡ d ++ rest
        → Suffixed rule path d d'

module _ {R : Type 0} (engine : Engine R) (range_headers : Dict Bytes → Dict Bytes) where
  -- The four answers, each with when it comes.
  pub data IsAnswer (router : Router R) (r : Incoming) (a : Answer) : Type 0 where
    turned_away : is_allowed_host router r.host ≡ false → a ≡ misdirected → IsAnswer router r a
    unmatched :
        is_allowed_host router r.host ≡ true
        → match engine router r.host r.path ≡ none
        → a ≡ not_found
        → IsAnswer router r a
    replying :
        (rule : Rule R) (caps : List Bytes)
        → is_allowed_host router r.host ≡ true
        → match engine router r.host r.path ≡ some (rule, caps)
        → is_redirect rule.redirect ≡ false
        → a
          ≡ replied rule.redirect.status rule.redirect.body (
              range_headers rule.redirect.headers
              ++ (lit "X-Matched-By", lit "the-redirector") ∷ (lit "X-Rule-ID", rule.id) ∷ [])
        → IsAnswer router r a
    redirecting :
        (rule : Rule R) (caps : List Bytes) (base longer target : Bytes)
        → is_allowed_host router r.host ≡ true
        → match engine router r.host r.path ≡ some (rule, caps)
        → is_redirect rule.redirect ≡ true
        → Captured engine rule caps r.path base
        → Suffixed engine rule r.path base longer
        → Queried rule.redirect.preserve_query r.query longer target
        → a
          ≡ redirected target rule.redirect.status (
              range_headers rule.redirect.headers
              ++ (lit "X-Redirected-By", lit "the-redirector") ∷ (lit "X-Rule-ID", rule.id) ∷ [])
        → IsAnswer router r a

  with_captures-Captured :
      (rule : Rule R) (caps : List Bytes) (path : Bytes)
      → Captured engine rule caps path (
          with_captures engine range_headers rule.compiled_regex caps path
            (get_location rule.redirect))
  unfolding with_captures
  with_captures-Captured rule caps path = elim (Option-cases rule.compiled_regex) [
    | inl bare ↦
        no_pattern bare (
          ap (λ o. with_captures engine range_headers o caps path (get_location rule.redirect))
            bare)
    | inr (x, compiled) ↦ by_groups x compiled caps
  ]
    where
      by_groups :
          (x : R)
          → rule.compiled_regex ≡ some x
          → (caps : List Bytes)
          → Captured engine rule caps path (
              with_captures engine range_headers rule.compiled_regex caps path
                (get_location rule.redirect))
      by_groups x compiled [] = no_groups refl (
          ap (λ o. with_captures engine range_headers o [] path (get_location rule.redirect))
            compiled)
      by_groups x compiled (g ∷ gs) = put_in x g gs compiled refl (
          ap (λ o. with_captures engine range_headers o (g ∷ gs) path (get_location rule.redirect))
            compiled)

  with_suffix-Suffixed :
      (rule : Rule R) (path d : Bytes)
      → (is_prefix rule.match.type ≡ true → (rest : Bytes) × (path ≡ rule.match.path ++ rest))
      → (d' : Bytes) × (with_suffix rule path d ≡ some d') × Suffixed engine rule path d d'
  unfolding with_suffix
  with_suffix-Suffixed rule path d h =
      elim (Bool-cases (rule.redirect.preserve_path && is_prefix rule.match.type)) [
        | inr kept ↦ (d, rw (kept, with_suffix) refl, whole kept refl)
        | inl asked ↦
            let typed : is_prefix rule.match.type ≡ true = ground (arith, asked) in
            let keep : rule.redirect.preserve_path ≡ true = ground (arith, asked) in
            let (rest, e) = h typed in
            (
              d ++ rest,
              rw (keep, typed, e, slice_from-append rule.match.path rest) refl,
              behind keep typed rest e refl,
            )
      ]

  answer_found-IsAnswer :
      (rules : List (Rule R)) (r : Incoming) (o : Option (Rule R × List Bytes))
      → is_allowed_host (new rules) r.host ≡ true
      → match engine (new rules) r.host r.path ≡ o
      → (a : Answer) × (answer_found engine range_headers o r ≡ some a) × IsAnswer (new rules) r a
  unfolding answer_found answer_of destination finish redirect_to
  answer_found-IsAnswer rules r none open_host e = (not_found, refl, unmatched open_host e refl)
  answer_found-IsAnswer rules r (some (rule, caps)) open_host e =
      let base =
        with_captures engine range_headers rule.compiled_regex caps r.path
          (get_location rule.redirect) in
      let (longer, same, suffixed) =
        with_suffix-Suffixed rule r.path base
          (λ typed. (match-IsSliceable engine rules r.host r.path e typed).1) in
      elim (Bool-cases (is_redirect rule.redirect)) [
        | inr replies ↦ (_, rw replies refl, replying rule caps open_host e replies refl)
        | inl redirects ↦ (
          _,
          rw (redirects, same) refl,
          redirecting rule caps base longer (with_query rule.redirect.preserve_query r.query longer)
              open_host e redirects (with_captures-Captured rule caps r.path) suffixed
              (with_query-Queried rule.redirect.preserve_query r.query longer) refl,
        )
      ]

  -- handleRedirect answers every request, on any rules. It is misdirected if its host is not allowed,
  -- and not found if no rule matches. A rule that does not redirect gives its status and body. One
  -- that redirects gives its status and a target: the location, with the captures put in if it has a
  -- pattern and groups matched; then, for a prefix rule that preserves the path, what follows the
  -- prefix in the path; then, if the query is preserved and not empty, the query, behind a question
  -- mark unless the target is empty or ends with one. Both have the rule's headers and the server's.
  pub handle_redirect_lem :
      (rules : List (Rule R)) (r : Incoming)
      → (a : Answer) × (handle_redirect engine range_headers (new rules) r ≡ some a)
        × IsAnswer (new rules) r a
  unfolding handle_redirect
  handle_redirect_lem rules r = elim (Bool-cases (is_allowed_host (new rules) r.host)) [
    | inr closed ↦ (misdirected, rw closed refl, turned_away closed refl)
    | inl open_host ↦
        let (a, e, answers) =
          answer_found-IsAnswer rules r (match engine (new rules) r.host r.path) open_host refl in
        (a, rw open_host e, answers)
  ]
