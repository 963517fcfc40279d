-- ===== src/Router/Matching/Exact.antt =====
-- The exact lookup of a router that New has built (matchExact of internal/router/router.go).
use the_redirector.Base.{
  Option, ◌≡◌, refl, sym, inl, inr, true, false, none, some, List, [], ◌∷◌, Memᴰ, Bytes, All,
  All-get, All-map, lookup, Option-cases, arith, =s_iff, =s_refl, false≢true, ◌∙◌, All-both,
}
use the_redirector.Base.Sort.{sort_stable-perm, perm-memᴰ, All-perm}
use the_redirector.Config.{MatchType, exact, prefix, regex, glob, unset, other, Rule}
use the_redirector.Router.{build_match_key, rule_less, sorted, new, match_exact}
use the_redirector.Router.Keys.{NoSlash, StartsSlash, build_match_key_injective}
use the_redirector.Router.Categories.{is_exact, key_of, has_exact_key, new-exact}
use the_redirector.Router.Matching.Loops.{HostFits, last_exact_sound, last_exact_complete}

is_exact-eq : (m : MatchType) → is_exact m ≡ true → m ≡ exact
is_exact-eq exact h = refl
is_exact-eq prefix h = cc
is_exact-eq regex h = cc
is_exact-eq glob h = cc
is_exact-eq unset h = cc
is_exact-eq (other t) h = cc

module _ {R : Type 0} where
  -- The lookup of one key.
  exact_at_sound :
      (rules : List (Rule R)) (key : Bytes) {r : Rule R}
      → lookup (new rules).exact_matches key ≡ some r
      → Memᴰ r rules × (has_exact_key key r ≡ true)
  exact_at_sound rules key e =
      elim (last_exact_sound none key (sorted rules) (rw (new-exact rules key) at e)) [
        | inl h ↦ absurd (ground arith)
        | inr (m, k) ↦ (perm-memᴰ (sort_stable-perm rule_less rules) m, k)
      ]

  exact_at_complete :
      (rules : List (Rule R)) (key : Bytes)
      → lookup (new rules).exact_matches key ≡ none
      → All (λ r. has_exact_key key r ≡ false) rules
  exact_at_complete rules key e =
      All-perm _ (sort_stable-perm rule_less rules)
        (last_exact_complete none key (sorted rules) (rw (new-exact rules key) at e)).1

  exact_at-is_exact :
      (rules : List (Rule R)) (key : Bytes) {r : Rule R}
      → lookup (new rules).exact_matches key ≡ some r
      → is_exact r.match.type ≡ true
  exact_at-is_exact rules key e = ground (arith, (exact_at_sound rules key e).1)

  by_path_sound :
      (rules : List (Rule R)) (path : Bytes) (o : Option (Rule R)) {r : Rule R}
      → ((s : Rule R) → o ≡ some s → is_exact s.match.type ≡ true)
      → (elim o [
        | some rule ↦ some rule
        | none ↦ lookup (new rules).exact_matches (build_match_key [] path)
      ])
        ≡ some r
      → is_exact r.match.type ≡ true
  by_path_sound rules path (some s) typed e = typed _ e
  by_path_sound rules path none {r} typed e = exact_at-is_exact rules (build_match_key [] path) e

  -- A rule that the exact stage returns is an exact rule.
  pub match_exact-is_exact :
      (rules : List (Rule R)) (host path : Bytes) {r : Rule R}
      → match_exact (new rules) host path ≡ some r
      → is_exact r.match.type ≡ true
  unfolding match_exact
  match_exact-is_exact rules [] path e = exact_at-is_exact rules (build_match_key [] path) e
  match_exact-is_exact rules (c ∷ host) path e =
      by_path_sound rules path (lookup (new rules).exact_matches (build_match_key (c ∷ host) path))
        (λ s found. exact_at-is_exact rules (build_match_key (c ∷ host) path) found) e

  -- What keeps the keys of the exact rules apart.
  pub record IsPlain (r : Rule R) : Type 0 where
    pub host : NoSlash r.match.host
    pub path : r.match.type ≡ exact → StartsSlash r.match.path

  abbrev pub ExactMatches : Rule R → Bytes → Bytes → Type 0
  ExactMatches r host path = HostFits r host × (r.match.path ≡ path)

  exact_found :
      (rules : List (Rule R)) (h path : Bytes) {r : Rule R}
      → All IsPlain rules
      → NoSlash h
      → StartsSlash path
      → lookup (new rules).exact_matches (build_match_key h path) ≡ some r
      → Memᴰ r rules × (r.match.type ≡ exact) × (r.match.host ≡ h) × (r.match.path ≡ path)
  exact_found rules h path {r} plain nh sp e =
      let (m, k) = exact_at_sound rules (build_match_key h path) e in
      let typed = is_exact-eq r.match.type (ground arith) in
      let own = All-get IsPlain r rules plain m in
      let key = (=s_iff (key_of r) (build_match_key h path)).0 (ground arith) in
      let (hosts, paths) =
        build_match_key_injective r.match.host h r.match.path path own.host nh (own.path typed) sp
          key in
      (m, typed, hosts, paths)

  pub match_exact_sound :
      (rules : List (Rule R)) (host path : Bytes) {r : Rule R}
      → All IsPlain rules
      → NoSlash host
      → StartsSlash path
      → match_exact (new rules) host path ≡ some r
      → Memᴰ r rules × (r.match.type ≡ exact) × ExactMatches r host path
  unfolding match_exact
  match_exact_sound rules [] path plain nh sp h =
      let (m, typed, hosts, paths) = exact_found rules [] path plain tt sp h in
      (m, typed, (inl hosts, paths))
  match_exact_sound rules (c ∷ s) path plain nh sp h =
      elim (Option-cases (lookup (new rules).exact_matches (build_match_key (c ∷ s) path))) [
        | inr (r, found) ↦
            let (m, typed, hosts, paths) =
              exact_found rules (c ∷ s) path plain nh sp (ground arith) in
            (m, typed, (inr hosts, paths))
        | inl missed ↦
            let (m, typed, hosts, paths) = exact_found rules [] path plain tt sp (rw missed at h) in
            (m, typed, (inl hosts, paths))
      ]

  no_exact :
      (rules : List (Rule R)) (h path : Bytes)
      → lookup (new rules).exact_matches (build_match_key h path) ≡ none
      → All (λ r. ¬ ((r.match.type ≡ exact) × (r.match.host ≡ h) × (r.match.path ≡ path))) rules
  no_exact rules h path e =
      All-map rules (λ r miss p. refute r miss p)
        (exact_at_complete rules (build_match_key h path) e)
    where
      refute :
          (r : Rule R)
          → has_exact_key (build_match_key h path) r ≡ false
          → (r.match.type ≡ exact) × (r.match.host ≡ h) × (r.match.path ≡ path)
          → ⊥
      refute r miss p = false≢true (sym miss ∙ rw (p.0, p.1, p.2, =s_refl (build_match_key h path)))

  pub match_exact_complete :
      (rules : List (Rule R)) (host path : Bytes)
      → match_exact (new rules) host path ≡ none
      → All (λ r. ¬ ((r.match.type ≡ exact) × ExactMatches r host path)) rules
  unfolding match_exact
  match_exact_complete rules [] path h =
      All-map rules
        (λ r no p. elim p.1.0 [ inl e ↦ no (p.0, e, p.1.1) | inr e ↦ no (p.0, e, p.1.1) ])
        (no_exact rules [] path h)
  match_exact_complete rules (c ∷ s) path h =
      elim (Option-cases (lookup (new rules).exact_matches (build_match_key (c ∷ s) path))) [
        | inr (r, found) ↦ absurd (ground arith)
        | inl missed ↦
            All-map rules
              (λ r no p. elim p.1.0 [ inl e ↦ no.0 (p.0, e, p.1.1) | inr e ↦ no.1 (p.0, e, p.1.1) ])
              (All-both _ _ rules (no_exact rules [] path (rw missed at h))
                (no_exact rules (c ∷ s) path missed))
      ]
