-- ===== src/Router/Order.antt =====
-- The order in which New sorts the rules (internal/router/router.go), and what it means for Match.
use the_redirector.Base.{
  ◌≡◌, refl, sym, subst, ◌⊎◌, inl, inr, Bool, true, false, ◌&&◌, Option, none, some, List, [], ◌∷◌,
  Memᴰ, ◌≤◌, Bytes, All, All-get, All-map, length, Bool-cases, arith, ◌∙◌, ap, false≢true,
  has_prefix, ℤ, ◌<ℤ◌, ◌≤ℤ◌, eqb_ℤ, eq_of_eqb_ℤ, if◌then◌else◌, lookup, find,
}
use the_redirector.Base.Sort.{
  sort_stable-perm, All-perm, IsSorted, IsOrder, sort_stable-IsSorted, IsStepwise,
  sort_stable-IsStepwise,
}
use the_redirector.Config.{MatchType, Rule}
use the_redirector.Router.{is_prefix, rule_less, sorted, new, match_prefix, host_fits}
use the_redirector.Router.Matching.{match_prefix_sound, mem-of_type, All-of_type}
use the_redirector.Router.Categories.{of_type, has_exact_key, last_exact, new-prefix, new-exact}

module _ {R : Type 0} where
  -- Among the rules of one priority all are prefix rules, or none is.
  abbrev pub IsUniform : (ℤ → Bool) → Rule R → Type 0
  IsUniform kind r = is_prefix r.match.type ≡ kind r.priority

  same_kind :
      (kind : ℤ → Bool) (a b : Rule R)
      → IsUniform kind a
      → IsUniform kind b
      → eqb_ℤ a.priority b.priority ≡ true
      → is_prefix a.match.type ≡ is_prefix b.match.type
  same_kind kind a b ua ub e = ua ∙ ap kind (eq_of_eqb_ℤ a.priority b.priority e) ∙ sym ub

  rule_less-asymmetric : (a b : Rule R) → rule_less a b ≡ true → rule_less b a ≡ false
  unfolding rule_less
  rule_less-asymmetric a b h = ground arith

  rule_less-transitive :
      (kind : ℤ → Bool) (a b c : Rule R)
      → IsUniform kind a
      → IsUniform kind b
      → IsUniform kind c
      → rule_less a b ≡ false
      → rule_less b c ≡ false
      → rule_less a c ≡ false
  unfolding rule_less
  rule_less-transitive kind a b c ua ub uc h k =
      ground (arith, same_kind kind a b ua ub, same_kind kind b c ub uc)

  rule_less-IsOrder : (kind : ℤ → Bool) → IsOrder rule_less (IsUniform kind)
  rule_less-IsOrder kind = record {
    asymmetric = λ a b _ _ h. rule_less-asymmetric a b h;
    transitive = rule_less-transitive kind;
  }

  rule_less_irreflexive : (r : Rule R) → rule_less r r ≡ false
  unfolding rule_less
  rule_less_irreflexive r = ground arith

  All-keep :
      (P : Rule R → Type 0) (p : MatchType → Bool) (rs : List (Rule R))
      → All P rs
      → All P (of_type p rs)
  unfolding of_type
  All-keep P p [] h = tt
  All-keep P p (r ∷ rs) h = elim (Bool-cases (p r.match.type)) [
    | inl pass ↦ rw pass (h.0, All-keep P p rs h.1)
    | inr fail ↦ rw fail (All-keep P p rs h.1)
  ]

  IsSorted-of_type :
      (p : MatchType → Bool) (rs : List (Rule R))
      → IsSorted rule_less rs
      → IsSorted rule_less (of_type p rs)
  unfolding of_type
  IsSorted-of_type p [] h = tt
  IsSorted-of_type p (r ∷ rs) h = elim (Bool-cases (p r.match.type)) [
    | inl pass ↦ rw pass (All-keep _ p rs h.0, IsSorted-of_type p rs h.1)
    | inr fail ↦ rw fail (IsSorted-of_type p rs h.1)
  ]

  abbrev pub prefix_hits : Bytes → Bytes → Rule R → Bool
  prefix_hits host path r = host_fits r host && has_prefix path r.match.path

  -- The first rule of a sorted list that fits comes before all that fit.
  match_prefix-first :
      (rs : List (Rule R)) (host path : Bytes) {r : Rule R}
      → IsSorted rule_less rs
      → match_prefix rs host path ≡ some r
      → All (λ s. prefix_hits host path s ≡ true → rule_less s r ≡ false) rs
  unfolding match_prefix
  match_prefix-first [] host path h e = tt
  match_prefix-first (s ∷ rs) host path {r} h e = elim (Bool-cases (prefix_hits host path s)) [
    | inl hit ↦
        let same : s ≡ r = ground arith in
        subst (λ x. All (λ y. prefix_hits host path y ≡ true → rule_less y x ≡ false) (s ∷ rs)) same
          (((λ _. rule_less_irreflexive s), All-map rs (λ y before _. before) h.0))
    | inr miss ↦ (
      (λ hit. absurd (false≢true (sym miss ∙ hit))),
      match_prefix-first rs host path h.1 (rw miss at e),
    )
  ]

  last_exact-last :
      (found : Option (Rule R)) (key : Bytes) (rs : List (Rule R)) {r : Rule R}
      → IsSorted rule_less rs
      → last_exact found key rs ≡ some r
      → ((found ≡ some r) × All (λ s. has_exact_key key s ≡ false) rs)
        ⊎ (Memᴰ r rs × All (λ s. has_exact_key key s ≡ true → rule_less r s ≡ false) rs)
  unfolding last_exact
  last_exact-last found key [] h e = inl (e, tt)
  last_exact-last found key (s ∷ rs) {r} h e =
      elim (last_exact-last (if has_exact_key key s then some s else found) key rs h.1 e) [
        | inr (m, later) ↦
            inr (Memᴰ.tail m, ((λ _. All-get (λ y. rule_less y s ≡ false) r rs h.0 m), later))
        | inl (at, missed) ↦ elim (Bool-cases (has_exact_key key s)) [
          | inr miss ↦ inl (rw miss at at, (miss, missed))
          | inl hit ↦
              let same : s ≡ r = ground arith in
              inr (
                Memᴰ.head (sym same),
                subst (λ x. All (λ y. has_exact_key key y ≡ true → rule_less x y ≡ false) (s ∷ rs))
                    same
                    (
                      (λ _. rule_less_irreflexive s),
                      All-map rs (λ y miss hit'. absurd (false≢true (sym miss ∙ hit'))) missed,
                    ),
              )
        ]
      ]

  -- What the order says of two rules that stand in it.
  abbrev pub ComesFirst : Rule R → Rule R → Type 0
  ComesFirst r s =
      (s.priority <ℤ r.priority)
      ⊎ ((s.priority ≡ r.priority) × (length s.match.path ≤ length r.match.path))

  ComesFirst-of_prefix :
      (r s : Rule R)
      → is_prefix r.match.type ≡ true
      → is_prefix s.match.type ≡ true
      → rule_less s r ≡ false
      → ComesFirst r s
  unfolding rule_less
  ComesFirst-of_prefix r s pr ps h = elim (Bool-cases (eqb_ℤ s.priority r.priority)) [
    | inl same ↦ inr (eq_of_eqb_ℤ s.priority r.priority same, ground arith)
    | inr differ ↦ inl (ground arith)
  ]

  le_of_not_less : (r s : Rule R) → rule_less r s ≡ false → r.priority ≤ℤ s.priority
  unfolding rule_less
  le_of_not_less r s h = ground arith

  module _ (kind : ℤ → Bool) (rules : List (Rule R)) (uniform : All (IsUniform kind) rules) where
    sorted-IsSorted : IsSorted rule_less (sorted rules)
    sorted-IsSorted = sort_stable-IsSorted rule_less (rule_less-IsOrder kind) rules uniform

    -- Where the rules of one priority are all prefix rules or all not: the rule that the prefix stage
    -- returns has the highest priority among the prefix rules that fit, and among those of that
    -- priority the longest path.
    pub match_prefix-longest :
        (host path : Bytes) {r : Rule R}
        → match_prefix (new rules).prefix_matches host path ≡ some r
        → All
            (λ s. is_prefix s.match.type ≡ true → prefix_hits host path s ≡ true → ComesFirst r s)
            rules
    match_prefix-longest host path {r} e =
        let e' = rw (new-prefix rules) at e in
        let (m, _) = match_prefix_sound (of_type is_prefix (sorted rules)) host path e' in
        let (_, typed) = mem-of_type is_prefix (sorted rules) m in
        let firsts =
          match_prefix-first (of_type is_prefix (sorted rules)) host path
            (IsSorted-of_type is_prefix (sorted rules) sorted-IsSorted) e' in
        All-perm _ (sort_stable-perm rule_less rules) (
          All-map (sorted rules)
            (λ s before ps hit. ComesFirst-of_prefix r s typed ps (before ps hit))
            (All-of_type _ is_prefix (sorted rules) firsts))

    -- Where the rules of one priority are all prefix rules or all not: of the exact rules with one
    -- key the router keeps one of the lowest priority.
    pub exact-lowest_priority :
        (key : Bytes) {r : Rule R}
        → lookup (new rules).exact_matches key ≡ some r
        → All (λ s. has_exact_key key s ≡ true → r.priority ≤ℤ s.priority) rules
    exact-lowest_priority key {r} e =
        elim (last_exact-last none key (sorted rules) sorted-IsSorted
          (rw (new-exact rules key) at e)) [
            | inl h ↦ absurd (ground arith)
            | inr (m, later) ↦
                All-perm _ (sort_stable-perm rule_less rules)
                  (All-map (sorted rules) (λ s before hit. le_of_not_less r s (before hit)) later)
          ]

  less_of_equal :
      (a b : Rule R)
      → a.priority ≡ b.priority
      → (is_prefix a.match.type && is_prefix b.match.type) ≡ false
      → rule_less a b ≡ false
  unfolding rule_less
  less_of_equal a b e k = ground arith

  -- Neighbours have one priority and are not both prefix rules.
  abbrev pub IsSpaced : List (Rule R) → Type 0
  IsSpaced [] = Unit
  IsSpaced (a ∷ []) = Unit
  IsSpaced (a ∷ b ∷ l) =
      (a.priority ≡ b.priority)
      × ((is_prefix b.match.type && is_prefix a.match.type) ≡ false)
      × IsSpaced (b ∷ l)

  IsStepwise-IsSpaced : (l : List (Rule R)) → IsSpaced l → IsStepwise rule_less l
  IsStepwise-IsSpaced [] h = tt
  IsStepwise-IsSpaced (a ∷ []) h = tt
  IsStepwise-IsSpaced (a ∷ b ∷ l) (same, apart, h) =
      (less_of_equal b a (sym same) apart, IsStepwise-IsSpaced (b ∷ l) h)

  match_prefix-of_type :
      (l : List (Rule R)) (host path : Bytes)
      → match_prefix (of_type is_prefix l) host path
        ≡ find (λ r. is_prefix r.match.type && prefix_hits host path r) l
  unfolding match_prefix of_type
  match_prefix-of_type [] host path = refl
  match_prefix-of_type (r ∷ l) host path = elim (Bool-cases (is_prefix r.match.type)) [
    | inr other ↦ rw other (match_prefix-of_type l host path)
    | inl typed ↦ elim (Bool-cases (prefix_hits host path r)) [
      | inl hit ↦ rw (typed, hit) refl
      | inr miss ↦ rw (typed, miss) (match_prefix-of_type l host path)
    ]
  ]

  -- In a list of at most 20 rules, all of one priority, no two neighbours of which are prefix rules:
  -- the prefix stage returns the first prefix rule of the list that fits the request, whatever the
  -- lengths of the paths are.
  pub spaced-first :
      (rules : List (Rule R)) (host path : Bytes)
      → length rules ≤ 20
      → IsSpaced rules
      → match_prefix (new rules).prefix_matches host path
        ≡ find (λ r. is_prefix r.match.type && prefix_hits host path r) rules
  spaced-first rules host path few spaced =
      ap (λ l. match_prefix l host path) (new-prefix rules)
      ∙ ap (λ l. match_prefix (of_type is_prefix l) host path)
          (sort_stable-IsStepwise rule_less rules (IsStepwise-IsSpaced rules spaced))
      ∙ match_prefix-of_type rules host path
