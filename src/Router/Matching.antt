-- ===== src/Router/Matching.antt =====
-- What Match returns (internal/router/router.go), against the meaning of a rule.
mod Loops
mod Exact
pub use Exact.{IsPlain, match_exact-is_exact}
pub use Loops.{
  HostFits, PrefixMatches, match_prefix_sound, mem-of_type, All-of_type, match_regex_sound,
}
use the_redirector.Base.{
  ◌≡◌, refl, sym, subst, ◌≢◌, ◌↔◌, ◌⊎◌, inl, inr, Bool, true, false, ◌&&◌, Option, none, some, List,
  [], ◌∷◌, ◌++◌, Memᴰ, ℕ, ◌≤◌, Bytes, All, All-get, All-mem, All-map, is_empty, lookup,
  Option-cases, arith, ◌∙◌, ap, false≢true, All-both,
}
use the_redirector.Base.Sort.{sort_stable-perm, perm-memᴰ, All-perm}
use the_redirector.Config.{Engine, MatchType, exact, prefix, regex, glob, unset, other, Rule}
use the_redirector.Router.{
  Router, is_prefix, rule_less, sorted, new, match_exact, match_prefix, captures_of, rule_captures,
  match_regex, match,
}
use the_redirector.Router.Keys.{NoSlash, StartsSlash}
use the_redirector.Router.Categories.{is_exact, is_pattern, of_type, new-prefix, new-pattern}
use Loops.{PatternMatches, match_prefix_complete, match_regex_complete}
use Exact.{ExactMatches, match_exact_sound, match_exact_complete}

none-ne-some : {A : Type 0} {a : A} → none ≡ some a → ⊥
none-ne-some e = cc

module _ {R : Type 0} (engine : Engine R) where
  -- What a rule of each type asks of a request, and the groups that it captures. A type that Validate
  -- refuses serves nothing.
  abbrev pub Serves : MatchType → Rule R → Bytes → Bytes → List Bytes → Type 0
  Serves exact r host path caps = ExactMatches r host path × (caps ≡ [])
  Serves prefix r host path caps = PrefixMatches r host path × (caps ≡ [])
  Serves regex r host path caps =
      (groups : List Bytes) × PatternMatches engine r host path groups × (caps ≡ captures_of groups)
  Serves glob r host path caps =
      (groups : List Bytes) × PatternMatches engine r host path groups × (caps ≡ captures_of groups)
  Serves unset r host path caps = ⊥
  Serves (other t) r host path caps = ⊥

  pub host_of_Serves :
      (m : MatchType) (r : Rule R) (host path : Bytes) (caps : List Bytes)
      → Serves m r host path caps
      → HostFits r host
  host_of_Serves exact r host path caps h = h.0.0
  host_of_Serves prefix r host path caps h = h.0.0
  host_of_Serves regex r host path caps h = h.1.0
  host_of_Serves glob r host path caps h = h.1.0
  host_of_Serves unset r host path caps h = absurd h
  host_of_Serves (other t) r host path caps h = absurd h

  -- The order in which Match asks the types.
  abbrev pub stage : MatchType → ℕ
  stage exact = 0
  stage prefix = 1
  stage regex = 2
  stage glob = 2
  stage unset = 3
  stage (other t) = 3

  exact-Serves :
      (m : MatchType) (r : Rule R) {host path : Bytes}
      → m ≡ exact
      → ExactMatches r host path
      → Serves m r host path [] × (stage m ≡ 0)
  exact-Serves m r e h = rw e ((h, refl), refl)

  prefix-Serves :
      (m : MatchType) (r : Rule R) {host path : Bytes}
      → is_prefix m ≡ true
      → PrefixMatches r host path
      → Serves m r host path [] × (stage m ≡ 1)
  prefix-Serves prefix r e h = ((h, refl), refl)
  prefix-Serves exact r e h = absurd (false≢true e)
  prefix-Serves regex r e h = absurd (false≢true e)
  prefix-Serves glob r e h = absurd (false≢true e)
  prefix-Serves unset r e h = absurd (false≢true e)
  prefix-Serves (other t) r e h = absurd (false≢true e)

  pattern-Serves :
      (m : MatchType) (r : Rule R) {host : Bytes} (path : Bytes) {caps groups : List Bytes}
      → is_pattern m ≡ true
      → PatternMatches engine r host path groups
      → caps ≡ captures_of groups
      → Serves m r host path caps × (stage m ≡ 2)
  pattern-Serves regex r path {groups} e h c = ((groups, h, c), refl)
  pattern-Serves glob r path {groups} e h c = ((groups, h, c), refl)
  pattern-Serves exact r path e h c = absurd (false≢true e)
  pattern-Serves prefix r path e h c = absurd (false≢true e)
  pattern-Serves unset r path e h c = absurd (false≢true e)
  pattern-Serves (other t) r path e h c = absurd (false≢true e)

  -- No rule of an earlier stage serves the request.
  abbrev NoneBelow : ℕ → List (Rule R) → Bytes → Bytes → Type 0
  NoneBelow n rules host path =
      All (λ r. (caps : List Bytes) → Serves r.match.type r host path caps → n ≤ stage r.match.type)
        rules

  module _ (r : Rule R) (host path : Bytes) where
    not_exact :
        (m : MatchType)
        → ¬ ((m ≡ exact) × ExactMatches r host path)
        → (caps : List Bytes) → Serves m r host path caps
        → 1 ≤ stage m
    not_exact exact exacts caps h = absurd (exacts (refl, h.0))
    not_exact prefix exacts caps h = omega arith
    not_exact regex exacts caps h = omega arith
    not_exact glob exacts caps h = omega arith
    not_exact unset exacts caps h = absurd h
    not_exact (other t) exacts caps h = absurd h

    not_prefix :
        (m : MatchType)
        → ¬ ((m ≡ exact) × ExactMatches r host path)
        → (is_prefix m ≡ true → ¬ PrefixMatches r host path)
        → (caps : List Bytes) → Serves m r host path caps
        → 2 ≤ stage m
    not_prefix exact exacts prefixes caps h = absurd (exacts (refl, h.0))
    not_prefix prefix exacts prefixes caps h = absurd (prefixes refl h.0)
    not_prefix regex exacts prefixes caps h = omega arith
    not_prefix glob exacts prefixes caps h = omega arith
    not_prefix unset exacts prefixes caps h = absurd h
    not_prefix (other t) exacts prefixes caps h = absurd h

    not_pattern :
        (m : MatchType)
        → ¬ ((m ≡ exact) × ExactMatches r host path)
        → (is_prefix m ≡ true → ¬ PrefixMatches r host path)
        → (is_pattern m ≡ true
            → ¬ ((groups : List Bytes) × PatternMatches engine r host path groups))
        → (caps : List Bytes) → ¬ Serves m r host path caps
    not_pattern exact exacts prefixes patterns caps h = exacts (refl, h.0)
    not_pattern prefix exacts prefixes patterns caps h = prefixes refl h.0
    not_pattern regex exacts prefixes patterns caps h = patterns refl (h.0, h.1)
    not_pattern glob exacts prefixes patterns caps h = patterns refl (h.0, h.1)
    not_pattern unset exacts prefixes patterns caps h = h
    not_pattern (other t) exacts prefixes patterns caps h = h

  module _ (rules : List (Rule R)) (host path : Bytes) where
    prefixes_miss :
        match_prefix (new rules).prefix_matches host path ≡ none
        → All (λ r. is_prefix r.match.type ≡ true → ¬ PrefixMatches r host path) rules
    prefixes_miss e = All-perm _ (sort_stable-perm rule_less rules) (
        All-of_type (λ r. ¬ PrefixMatches r host path) is_prefix (sorted rules)
          (match_prefix_complete (of_type is_prefix (sorted rules)) host path
            (rw (new-prefix rules) at e)))

    patterns_miss :
        match_regex engine (new rules).regex_matches host path ≡ none
        → All
            (λ r.
              is_pattern r.match.type ≡ true
              → ¬ ((groups : List Bytes) × PatternMatches engine r host path groups))
            rules
    patterns_miss e = All-perm _ (sort_stable-perm rule_less rules) (
        All-of_type _ is_pattern (sorted rules) (
          match_regex_complete engine (of_type is_pattern (sorted rules)) host path
            (rw (new-pattern rules) at e)))

    -- A rule that Match returns is one of the list that serves the request, with the groups that its
    -- pattern captures, and no rule of an earlier stage serves it.
    abbrev pub IsAnswer : Rule R → List Bytes → Type 0
    IsAnswer r caps =
        Memᴰ r rules
        × Serves r.match.type r host path caps
        × NoneBelow (stage r.match.type) rules host path

    module _ (plain : All IsPlain rules) (no_slash : NoSlash host) (slash : StartsSlash path) where
      exact-IsAnswer : {r : Rule R} → match_exact (new rules) host path ≡ some r → IsAnswer r []
      exact-IsAnswer {r} e =
          let (m, typed, fits) = match_exact_sound rules host path plain no_slash slash e in
          let (serves, staged) = exact-Serves r.match.type r typed fits in
          (m, serves, All-mem _ rules (λ s _ caps _. rw staged (omega arith)))

      prefix-IsAnswer :
          {r : Rule R}
          → match_exact (new rules) host path ≡ none
          → match_prefix (new rules).prefix_matches host path ≡ some r
          → IsAnswer r []
      prefix-IsAnswer {r} e0 e =
          let (m, fits) =
            match_prefix_sound (of_type is_prefix (sorted rules)) host path
              (rw (new-prefix rules) at e) in
          let (m', typed) = mem-of_type is_prefix (sorted rules) m in
          let (serves, staged) = prefix-Serves r.match.type r typed fits in
          (
            perm-memᴰ (sort_stable-perm rule_less rules) m',
            serves,
            All-map rules
                (λ s miss caps h. rw staged (not_exact s host path s.match.type miss caps h))
                (match_exact_complete rules host path e0),
          )

      pattern-IsAnswer :
          {r : Rule R} {caps : List Bytes}
          → match_exact (new rules) host path ≡ none
          → match_prefix (new rules).prefix_matches host path ≡ none
          → match_regex engine (new rules).regex_matches host path ≡ some (r, caps)
          → IsAnswer r caps
      pattern-IsAnswer {r} e0 e1 e =
          let (m, (groups, fits, captured)) =
            match_regex_sound engine (of_type is_pattern (sorted rules)) host path
              (rw (new-pattern rules) at e) in
          let (m', typed) = mem-of_type is_pattern (sorted rules) m in
          let (serves, staged) = pattern-Serves r.match.type r path typed fits captured in
          (
            perm-memᴰ (sort_stable-perm rule_less rules) m',
            serves,
            All-map rules
                (λ s miss caps h.
                  rw staged (not_prefix s host path s.match.type miss.0 miss.1 caps h))
                (All-both _ _ rules (match_exact_complete rules host path e0) (prefixes_miss e1)),
          )

      -- With exact rules that are plain, and a request whose host has no slash and whose path begins
      -- with one: the rule that Match returns is one of the rules, it serves the request as its type
      -- says, with the captured groups, and no rule of an earlier stage (exact, then prefix, then
      -- regex or glob) serves it.
      pub match-IsAnswer :
          {r : Rule R} {caps : List Bytes}
          → match engine (new rules) host path ≡ some (r, caps)
          → IsAnswer r caps
      unfolding match
      match-IsAnswer {r} {caps} h = elim (Option-cases (match_exact (new rules) host path)) [
        | inr (s, found) ↦ exact_found (rw (found, match) at h) found
        | inl e0 ↦ elim (Option-cases (match_prefix (new rules).prefix_matches host path)) [
          | inr (s, found) ↦ prefix_found (rw (e0, found, match) at h) e0 found
          | inl e1 ↦ pattern-IsAnswer e0 e1 (rw (e0, e1, match) at h)
        ]
      ]
        where
          exact_found :
              {s : Rule R}
              → ◌≡◌ {A = Option (Rule R × List Bytes)} (some (s, [])) (some (r, caps))
              → match_exact (new rules) host path ≡ some s
              → IsAnswer r caps
          exact_found {s} e found =
              let same : s ≡ r = cc in
              let empty : [] ≡ caps = cc in
              subst (λ c. IsAnswer r c) empty (exact-IsAnswer (found ∙ ap some same))

          prefix_found :
              {s : Rule R}
              → ◌≡◌ {A = Option (Rule R × List Bytes)} (some (s, [])) (some (r, caps))
              → match_exact (new rules) host path ≡ none
              → match_prefix (new rules).prefix_matches host path ≡ some s
              → IsAnswer r caps
          prefix_found {s} e e0 found =
              let same : s ≡ r = cc in
              let empty : [] ≡ caps = cc in
              subst (λ c. IsAnswer r c) empty (prefix-IsAnswer e0 (found ∙ ap some same))

      -- With exact rules that are plain, and a request whose host has no slash and whose path begins
      -- with one: Match returns no rule exactly when no rule serves the request.
      pub match-none_iff :
          (match engine (new rules) host path ≡ none)
          ↔ All (λ r. (caps : List Bytes) → ¬ Serves r.match.type r host path caps) rules
      unfolding match
      match-none_iff = (
        λ h. elim (Option-cases (match_exact (new rules) host path)) [
          | inr (s, found) ↦ absurd (none-ne-some (sym (rw (found, match) at h)))
          | inl e0 ↦ elim (Option-cases (match_prefix (new rules).prefix_matches host path)) [
            | inr (s, found) ↦ absurd (none-ne-some (sym (rw (e0, found, match) at h)))
            | inl e1 ↦
                All-map rules
                  (λ s miss caps.
                    not_pattern s host path s.match.type miss.0 miss.1.0 miss.1.1 caps)
                  (All-both _ _ rules (match_exact_complete rules host path e0) (
                    All-both _ _ rules (prefixes_miss e1)
                      (patterns_miss (rw (e0, e1, match) at h))))
          ]
        ],
        λ h. elim (Option-cases (match engine (new rules) host path)) [
          | inl missed ↦ missed
          | inr ((r, caps), found) ↦
              let (m, serves, _) = match-IsAnswer found in
              absurd (All-get _ r rules h m caps serves)
        ],
      )
