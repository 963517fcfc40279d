-- ===== src/Lint/Cycles/Graph.antt =====
-- The graph of redirects (buildRedirectGraph, internal/lint/lint.go) against what its edges mean.
use the_redirector.Base.{
  ℕ, zero, suc, ◌+◌, ◌≡◌, ◌≢◌, ◌↔◌, ◌⊎◌, refl, sym, ap, ◌∙◌, inl, inr, Bool, true, ◌&&◌, not,
  Option, none, some, List, [], ◌∷◌, Memᴰ, Bytes, get_elem?, ◌==◌, ==_iff, arith, Bool-cases,
  Option-cases, some_injective,
}
use the_redirector.Config.{Engine, Rule, get_location}
use the_redirector.Lint.Cycles.{path_matches_rule, targets_from, neighbours}

module _ {R : Type 0} (engine : Engine R) where
  -- Rule `v`, counted from `j`, is another rule than `i` and matches the path.
  pub record IsTarget (rules : List (Rule R)) (i : ℕ) (path : Bytes) (j v : ℕ) : Type 0 where
    pub offset : ℕ
    pub index : v ≡ j + offset
    pub target : Rule R
    pub stands : get_elem? rules offset ≡ some target
    pub other : i ≢ v
    pub accepts : path_matches_rule engine path target ≡ true

  IsTarget-later :
      (rule : Rule R) (rules : List (Rule R)) (i : ℕ) (path : Bytes) (j v : ℕ)
      → IsTarget rules i path (j + 1) v
      → IsTarget (rule ∷ rules) i path j v
  IsTarget-later rule rules i path j v t = record {
    offset = suc t.offset;
    index = omega (arith, t.index);
    target = t.target;
    stands = t.stands;
    other = t.other;
    accepts = t.accepts;
  }

  and_cases : (i j : ℕ) (b : Bool) → (not (i == j) && b) ≡ true → (i ≢ j) × (b ≡ true)
  and_cases i j b h = ((λ same. absurd (ground (arith, h, same))), ground (arith, h))

  differ_test : (i j : ℕ) → i ≢ j → (not (i == j) && true) ≡ true
  differ_test i j differ = elim (Bool-cases (i == j)) [
    | inl same ↦ absurd (differ ((==_iff i j).0 same))
    | inr apart ↦ rw apart refl
  ]

  targets_from-IsTarget :
      (rules : List (Rule R)) (i : ℕ) (path : Bytes) (j v : ℕ)
      → Memᴰ v (targets_from engine i path j rules)
      → IsTarget rules i path j v
  unfolding targets_from
  targets_from-IsTarget [] i path j v m = elim m [ ]
  targets_from-IsTarget (rule ∷ rules) i path j v m =
      elim (Bool-cases (not (i == j) && path_matches_rule engine path rule)) [
        | inl edge ↦
            from (targets_from-IsTarget rules i path (j + 1) v) (and_cases i j _ edge)
              (rw edge at m)
        | inr gap ↦
            IsTarget-later rule rules i path j v
              (targets_from-IsTarget rules i path (j + 1) v (rw gap at m))
      ]
    where
      from :
          (Memᴰ v (targets_from engine i path (j + 1) rules) → IsTarget rules i path (j + 1) v)
          → (i ≢ j) × (path_matches_rule engine path rule ≡ true)
          → Memᴰ v (j ∷ targets_from engine i path (j + 1) rules)
          → IsTarget (rule ∷ rules) i path j v
      from later e (Memᴰ.head h) = record {
        offset = 0;
        index = omega (arith, h);
        target = rule;
        stands = refl;
        other = λ same. e.0 (same ∙ h);
        accepts = e.1;
      }
      from later e (Memᴰ.tail n) = IsTarget-later rule rules i path j v (later n)

  IsTarget-targets_from :
      (rules : List (Rule R)) (i : ℕ) (path : Bytes) (j v k : ℕ) (target : Rule R)
      → v ≡ j + k
      → get_elem? rules k ≡ some target
      → i ≢ v
      → path_matches_rule engine path target ≡ true
      → Memᴰ v (targets_from engine i path j rules)
  unfolding targets_from
  IsTarget-targets_from [] i path j v k target at h other accepts = absurd (ground arith)
  IsTarget-targets_from (rule ∷ rules) i path j v zero target at h other accepts =
      let here : v ≡ j = omega (arith, at) in
      let edge : (not (i == j) && path_matches_rule engine path rule) ≡ true =
        rw (some_injective h, accepts) (differ_test i j (λ same. other (same ∙ sym here))) in
      rw edge (Memᴰ.head here)
  IsTarget-targets_from (rule ∷ rules) i path j v (suc k) target at h other accepts =
      let found =
        IsTarget-targets_from rules i path (j + 1) v k target (omega (arith, at)) h other accepts in
      elim (Bool-cases (not (i == j) && path_matches_rule engine path rule)) [
        | inl edge ↦ rw edge (Memᴰ.tail found)
        | inr gap ↦ rw gap found
      ]

  -- Rule `i` redirects to a path that the other rule `v` matches.
  pub record IsRedirect (local : Bytes → Option Bytes) (rules : List (Rule R)) (i v : ℕ)
      : Type 0 where
    pub rule : Rule R
    pub path : Bytes
    pub target : Rule R
    pub from : get_elem? rules i ≡ some rule
    pub leads : local (get_location rule.redirect) ≡ some path
    pub to : get_elem? rules v ≡ some target
    pub other : i ≢ v
    pub accepts : path_matches_rule engine path target ≡ true

  -- A rule is among the neighbours of another exactly when the other redirects to a path of this
  -- service that the rule matches, and they are two rules.
  pub neighbours_iff :
      (local : Bytes → Option Bytes) (rules : List (Rule R)) (i v : ℕ)
      → Memᴰ v (neighbours engine local rules i) ↔ IsRedirect local rules i v
  unfolding neighbours
  neighbours_iff local rules i v = (there (Option-cases (get_elem? rules i)), back)
    where
      offset_index : {path : Bytes} (t : IsTarget rules i path 0 v) → v ≡ t.offset
      offset_index t = omega (arith, t.index)

      along :
          (rule : Rule R) (path : Bytes)
          → get_elem? rules i ≡ some rule
          → local (get_location rule.redirect) ≡ some path
          → IsTarget rules i path 0 v
          → IsRedirect local rules i v
      along rule path at leads t = record {
        rule = rule;
        path = path;
        target = t.target;
        from = at;
        leads = leads;
        to = ap (get_elem? rules) (offset_index t) ∙ t.stands;
        other = t.other;
        accepts = t.accepts;
      }

      inside :
          (rule : Rule R)
          → get_elem? rules i ≡ some rule
          → Memᴰ v (neighbours engine local rules i)
          → IsRedirect local rules i v
      inside rule at m = elim (Option-cases (local (get_location rule.redirect))) [
        | inl outside ↦ elim (rw (at, outside, neighbours) at m) [ ]
        | inr (path, leads) ↦
            along rule path at leads
              (targets_from-IsTarget rules i path 0 v (rw (at, leads, neighbours) at m))
      ]

      there :
          (get_elem? rules i ≡ none) ⊎ ((rule : Rule R) × (get_elem? rules i ≡ some rule))
          → Memᴰ v (neighbours engine local rules i)
          → IsRedirect local rules i v
      there (inl missing) m = elim (rw (missing, neighbours) at m) [ ]
      there (inr (rule, at)) m = inside rule at m

      back : IsRedirect local rules i v → Memᴰ v (neighbours engine local rules i)
      back r =
          rw (r.from, r.leads, neighbours)
            (IsTarget-targets_from rules i r.path 0 v v r.target (omega arith) r.to r.other
              r.accepts)
