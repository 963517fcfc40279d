-- ===== src/Server/Redirect/Laws.antt =====
-- handleRedirect (internal/server/server.go) on a router that New has built.
use the_redirector.Base.{
  ◌≡◌, refl, sym, subst, ◌∙◌, ◌↔◌, inl, inr, true, false, Option, none, some, List, [], ◌∷◌, ◌++◌,
  Bytes, Dict, length, Bool-cases, Option-cases, false≢true,
}
use the_redirector.Config.{
  Engine, MatchType, exact, prefix, regex, glob, unset, other, Rule, is_redirect,
}
use the_redirector.Router.{
  Router, is_prefix, new, match, match_exact, match_prefix, is_allowed_host,
}
use the_redirector.Router.Matching.{
  match_prefix_sound, match_regex_sound, mem-of_type, match_exact-is_exact,
}
use the_redirector.Router.Categories.{is_exact, is_pattern, of_type, new-pattern}
use the_redirector.Router.{sorted}
use the_redirector.Server.Redirect.{
  Incoming, misdirected, not_found, slice_from, destination, answer_of, answer_found, redirect_to,
  handle_redirect,
}

not_prefix_of_exact : (m : MatchType) → is_exact m ≡ true → is_prefix m ≡ false
not_prefix_of_exact exact h = refl
not_prefix_of_exact prefix h = absurd (false≢true h)
not_prefix_of_exact regex h = refl
not_prefix_of_exact glob h = refl
not_prefix_of_exact unset h = refl
not_prefix_of_exact (other t) h = refl

not_prefix_of_pattern : (m : MatchType) → is_pattern m ≡ true → is_prefix m ≡ false
not_prefix_of_pattern exact h = refl
not_prefix_of_pattern prefix h = absurd (false≢true h)
not_prefix_of_pattern regex h = refl
not_prefix_of_pattern glob h = refl
not_prefix_of_pattern unset h = refl
not_prefix_of_pattern (other t) h = refl

pub slice_from-append : (p s : Bytes) → slice_from (p ++ s) (length p) ≡ some s
unfolding slice_from
slice_from-append [] s = refl
slice_from-append (c ∷ p) s = slice_from-append p s

module _ {R : Type 0} (engine : Engine R) (rules : List (Rule R)) (host path : Bytes) where
  -- What the path slice of a rule that was found needs.
  abbrev pub IsSliceable : Rule R → List Bytes → Type 0
  IsSliceable r caps =
      is_prefix r.match.type ≡ true → (caps ≡ []) × ((rest : Bytes) × (path ≡ r.match.path ++ rest))

  pair_eq :
      {r s : Rule R} {c d : List Bytes}
      → ◌≡◌ {A = Option (Rule R × List Bytes)} (some (r, c)) (some (s, d))
      → (r ≡ s) × (c ≡ d)
  pair_eq e = (cc, cc)

  move :
      {r s : Rule R} {c d : List Bytes}
      → ◌≡◌ {A = Option (Rule R × List Bytes)} (some (r, c)) (some (s, d))
      → IsSliceable r c
      → IsSliceable s d
  move {s = s} {c = c} e h =
      subst (IsSliceable s) (pair_eq e).1 (subst (λ x. IsSliceable x c) (pair_eq e).0 h)

  pub match-IsSliceable :
      {r : Rule R} {caps : List Bytes}
      → match engine (new rules) host path ≡ some (r, caps)
      → IsSliceable r caps
  unfolding match
  match-IsSliceable {r} {caps} h = elim (Option-cases (match_exact (new rules) host path)) [
    | inr (s, found) ↦ move (rw (found, match) at h) (λ typed. absurd (
        false≢true (
          sym (not_prefix_of_exact s.match.type (match_exact-is_exact rules host path found))
          ∙ typed)))
    | inl e0 ↦ elim (Option-cases (match_prefix (new rules).prefix_matches host path)) [
      | inr (s, found) ↦
          move (rw (e0, found, match) at h)
            (λ _. (refl, (match_prefix_sound (new rules).prefix_matches host path found).1.1))
      | inl e1 ↦
          let (m, _) =
            match_regex_sound engine (of_type is_pattern (sorted rules)) host path
              (rw (new-pattern rules) at (rw (e0, e1, match) at h)) in
          let (_, typed) = mem-of_type is_pattern (sorted rules) m in
          λ t. absurd (false≢true (sym (not_prefix_of_pattern r.match.type typed) ∙ t))
    ]
  ]

module _ {R : Type 0} (engine : Engine R) (range_headers : Dict Bytes → Dict Bytes) where
  answer_of-refusals :
      (rule : Rule R) (caps : List Bytes) (path query : Bytes)
      → ¬ (answer_of engine range_headers rule caps path query ≡ some misdirected)
        × ¬ (answer_of engine range_headers rule caps path query ≡ some not_found)
  unfolding answer_of redirect_to
  answer_of-refusals rule caps path query = elim (Bool-cases (is_redirect rule.redirect)) [
    | inr replies ↦ rw replies ((λ e. cc), λ e. cc)
    | inl redirects ↦ elim (Option-cases (destination engine range_headers rule caps path query)) [
      | inl panics ↦ rw (redirects, panics) ((λ e. cc), λ e. cc)
      | inr (t, found) ↦ rw (redirects, found) ((λ e. cc), λ e. cc)
    ]
  ]

  -- The answer is 421 exactly where the allowlist turns the host away, and 404 exactly where the host
  -- is allowed and Match has no rule.
  pub handle_redirect-refusals :
      (router : Router R) (r : Incoming)
      → ((handle_redirect engine range_headers router r ≡ some misdirected)
          ↔ (is_allowed_host router r.host ≡ false))
        × ((handle_redirect engine range_headers router r ≡ some not_found)
            ↔ ((is_allowed_host router r.host ≡ true) × (match engine router r.host r.path ≡ none)))
  unfolding handle_redirect answer_found
  handle_redirect-refusals router r = elim (Bool-cases (is_allowed_host router r.host)) [
    | inr closed ↦ rw closed (((λ _. refl), λ _. refl), ((λ e. cc), λ h. absurd (false≢true h.0)))
    | inl open_host ↦ elim (Option-cases (match engine router r.host r.path)) [
      | inl missed ↦
          rw (open_host, missed)
            (((λ e. cc), λ e. absurd (false≢true (sym e))), ((λ _. (refl, refl)), λ _. refl))
      | inr ((rule, caps), found) ↦
          let (a, b) = answer_of-refusals rule caps r.path r.query in
          rw (open_host, found)
            (
              ((λ e. absurd (a e)), λ e. absurd (false≢true (sym e))),
              ((λ e. absurd (b e)), λ h. cc),
            )
    ]
  ]
