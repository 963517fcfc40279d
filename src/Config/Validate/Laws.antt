-- ===== src/Config/Validate/Laws.antt =====
-- What `validate` accepts, and what a validated configuration guarantees to the router.
use the_redirector.Base.{
  ◌≡◌, refl, ◌≢◌, ◌↔◌, inl, inr, Bool, true, false, Option, some, List, [], ◌∷◌, All, Bytes, Dict,
  has_key, insert, pos, ◌<ℤ◌, ◌≤ℤ◌, ok, arith, Option-cases, =s_iff, lookup-insert, map, >>=-eq-ok,
  fail_if,
}
use the_redirector.Config.{
  Engine, MatchType, exact, prefix, regex, glob, unset, other, Rule, get_location, is_redirect,
  Config,
}
use the_redirector.Config.Glob.{glob_to_regex}
use the_redirector.Config.Validate.{
  compile_rule, validate_match, validate_rule, validate_rules, validate_list, validate,
}

module _ {R : Type 0} (engine : Engine R) where
  -- What the match of a rule must hold, by its type.
  abbrev pub MatchIsValid : MatchType → Rule R → Type 0
  MatchIsValid exact r = r.match.path ≢ []
  MatchIsValid prefix r = r.match.path ≢ []
  MatchIsValid regex r =
      (r.match.pattern ≢ []) × ((x : R) × (engine.compile r.match.pattern ≡ some x))
  MatchIsValid glob r =
      (r.match.pattern ≢ []) × ((x : R) × (engine.compile (glob_to_regex r.match.pattern) ≡ some x))
  MatchIsValid unset r = ⊥
  MatchIsValid (other t) r = ⊥

  -- The pattern that the router finds in the rule.
  abbrev pub expected_regex : MatchType → Rule R → Option R
  expected_regex regex r = engine.compile r.match.pattern
  expected_regex glob r = engine.compile (glob_to_regex r.match.pattern)
  expected_regex _ r = r.compiled_regex

  abbrev pub compiled : Rule R → Rule R
  compiled r = record r { compiled_regex = expected_regex r.match.type r }

  pub record RuleIsValid (r : Rule R) : Type 0 where
    pub status_low : pos 100 ≤ℤ r.redirect.status
    pub status_high : r.redirect.status <ℤ pos 600
    pub destination : is_redirect r.redirect ≡ true → get_location r.redirect ≢ []
    pub matching : MatchIsValid r.match.type r

  compile_rule_sound :
      (r r' : Rule R) (text : Bytes)
      → compile_rule engine r text ≡ ok r'
      → (x : R) × (engine.compile text ≡ some x) × (r' ≡ record r { compiled_regex = some x })
  unfolding compile_rule
  compile_rule_sound r r' text h = elim (Option-cases (engine.compile text)) [
    | inl missed ↦ absurd (ground arith)
    | inr (x, found) ↦ (x, found, ground arith)
  ]

  validate_match_sound :
      (t : MatchType) (r r' : Rule R)
      → validate_match engine t r ≡ ok r'
      → MatchIsValid t r × (r' ≡ record r { compiled_regex = expected_regex t r })
  unfolding validate_match
  validate_match_sound exact r r' h = ground arith
  validate_match_sound prefix r r' h = ground arith
  validate_match_sound regex r r' h =
      let (x, found, same) = compile_rule_sound r r' r.match.pattern (ground arith) in
      ((ground arith, (x, found)), ground arith)
  validate_match_sound glob r r' h =
      let (x, found, same) =
        compile_rule_sound r r' (glob_to_regex r.match.pattern) (ground arith) in
      ((ground arith, (x, found)), ground arith)
  validate_match_sound unset r r' h = cc
  validate_match_sound (other t) r r' h = cc

  validate_match_complete :
      (t : MatchType) (r : Rule R)
      → MatchIsValid t r
      → validate_match engine t r ≡ ok (record r { compiled_regex = expected_regex t r })
  unfolding validate_match
  validate_match_complete exact r h = ground arith
  validate_match_complete prefix r h = ground arith
  validate_match_complete regex r h = ground arith
  validate_match_complete glob r h = ground arith
  validate_match_complete unset r h = absurd h
  validate_match_complete (other t) r h = absurd h

  validate_rule_sound :
      (r r' : Rule R) → validate_rule engine r ≡ ok r' → RuleIsValid r × (r' ≡ compiled r)
  unfolding validate_rule
  validate_rule_sound r r' h =
      let (matching, same) = validate_match_sound r.match.type r r' (ground arith) in
      (
        record {
          status_low = ground arith;
          status_high = ground arith;
          destination = ground arith;
          matching = matching;
        },
        same,
      )

  validate_rule_complete : (r : Rule R) → RuleIsValid r → validate_rule engine r ≡ ok (compiled r)
  unfolding validate_rule
  validate_rule_complete r v = ground (arith, validate_match_complete r.match.type r v.matching)

  -- No id is in the list, and no two rules have one id.
  abbrev pub IsFresh : Dict Bool → List (Rule R) → Type 0
  IsFresh seen [] = Unit
  IsFresh seen (r ∷ rs) = (has_key seen r.id ≡ false) × IsFresh (insert seen r.id true) rs

  validate_rules_sound :
      (seen : Dict Bool) (rs rs' : List (Rule R))
      → validate_rules engine seen rs ≡ ok rs'
      → IsFresh seen rs × All RuleIsValid rs × (rs' ≡ map compiled rs)
  unfolding validate_rules
  validate_rules_sound seen [] rs' h = (tt, tt, ground arith)
  validate_rules_sound seen (r ∷ rs) rs' h =
      let (_, new, h1) = >>=-eq-ok (fail_if (has_key seen r.id) _) _ h in
      let (r1, e1, h2) = >>=-eq-ok (validate_rule engine r) _ h1 in
      let (rs1, e2, h3) = >>=-eq-ok (validate_rules engine _ rs) _ h2 in
      let (valid, same) = validate_rule_sound r r1 e1 in
      let (fresh, valids, sames) = validate_rules_sound (insert seen r.id true) rs rs1 e2 in
      ((ground arith, fresh), (valid, valids), ground arith)

  validate_rules_complete :
      (seen : Dict Bool) (rs : List (Rule R))
      → IsFresh seen rs
      → All RuleIsValid rs
      → validate_rules engine seen rs ≡ ok (map compiled rs)
  unfolding validate_rules
  validate_rules_complete seen [] f h = refl
  validate_rules_complete seen (r ∷ rs) f h = ground (
    arith,
    validate_rule_complete r h.0,
    validate_rules_complete (insert seen r.id true) rs f.1 h.1,
  )

  -- No two rules have one id.
  abbrev pub DistinctIds : List (Rule R) → Type 0
  DistinctIds [] = Unit
  DistinctIds (r ∷ rs) = All (λ s. r.id ≢ s.id) rs × DistinctIds rs

  abbrev Unseen : Dict Bool → List (Rule R) → Type 0
  Unseen seen = All (λ r. has_key seen r.id ≡ false)

  Unseen-insert :
      (seen : Dict Bool) (r : Rule R) (rs : List (Rule R))
      → Unseen (insert seen r.id true) rs ↔ (Unseen seen rs × All (λ s. r.id ≢ s.id) rs)
  unfolding has_key
  Unseen-insert seen r [] = (λ _. (tt, tt), λ _. tt)
  Unseen-insert seen r (s ∷ rs) =
      ground (arith, Unseen-insert seen r rs, lookup-insert seen r.id s.id true, =s_iff r.id s.id)

  DistinctIds-of_IsFresh :
      (seen : Dict Bool) (rs : List (Rule R)) → IsFresh seen rs → Unseen seen rs × DistinctIds rs
  DistinctIds-of_IsFresh seen [] f = (tt, tt)
  DistinctIds-of_IsFresh seen (r ∷ rs) f =
      let (unseen, distinct) = DistinctIds-of_IsFresh (insert seen r.id true) rs f.1 in
      let (older, apart) = (Unseen-insert seen r rs).0 unseen in ((f.0, older), (apart, distinct))

  IsFresh-of_DistinctIds :
      (seen : Dict Bool) (rs : List (Rule R)) → Unseen seen rs → DistinctIds rs → IsFresh seen rs
  IsFresh-of_DistinctIds seen [] u d = tt
  IsFresh-of_DistinctIds seen (r ∷ rs) u d = (
    u.0,
    IsFresh-of_DistinctIds (insert seen r.id true) rs ((Unseen-insert seen r rs).1 (u.1, d.0)) d.1,
  )

  Unseen-nil : (rs : List (Rule R)) → Unseen [] rs
  unfolding has_key
  Unseen-nil [] = tt
  Unseen-nil (r ∷ rs) = (refl, Unseen-nil rs)

  pub record RulesAreValid (rs : List (Rule R)) : Type 0 where
    pub some_rule : rs ≢ []
    pub distinct_ids : DistinctIds rs
    pub valid_rules : All RuleIsValid rs

  -- The router finds in every rule the pattern that its match asks for.
  abbrev pub AreCompiled : List (Rule R) → Type 0
  AreCompiled = All (λ r. r.compiled_regex ≡ expected_regex r.match.type r)

  MatchIsValid-compiled :
      (t : MatchType) (r : Rule R) (x : Option R)
      → MatchIsValid t r
      → MatchIsValid t (record r { compiled_regex = x })
  MatchIsValid-compiled exact r x h = h
  MatchIsValid-compiled prefix r x h = h
  MatchIsValid-compiled regex r x h = h
  MatchIsValid-compiled glob r x h = h
  MatchIsValid-compiled unset r x h = h
  MatchIsValid-compiled (other t) r x h = h

  expected_regex-compiled :
      (t : MatchType) (r : Rule R)
      → expected_regex t r ≡ expected_regex t (record r { compiled_regex = expected_regex t r })
  expected_regex-compiled exact r = refl
  expected_regex-compiled prefix r = refl
  expected_regex-compiled regex r = refl
  expected_regex-compiled glob r = refl
  expected_regex-compiled unset r = refl
  expected_regex-compiled (other t) r = refl

  RuleIsValid-compiled : (r : Rule R) → RuleIsValid r → RuleIsValid (compiled r)
  RuleIsValid-compiled r v = record {
    status_low = v.status_low;
    status_high = v.status_high;
    destination = v.destination;
    matching = MatchIsValid-compiled r.match.type r _ v.matching;
  }

  valid_rules-compiled :
      (rs : List (Rule R))
      → All RuleIsValid rs
      → All RuleIsValid (map compiled rs) × AreCompiled (map compiled rs)
  valid_rules-compiled [] h = (tt, tt)
  valid_rules-compiled (r ∷ rs) h =
      let (valids, done) = valid_rules-compiled rs h.1 in
      ((RuleIsValid-compiled r h.0, valids), (expected_regex-compiled r.match.type r, done))

  ids-compiled :
      (id : Bytes) (rs : List (Rule R))
      → All (λ s. id ≢ s.id) rs
      → All (λ s. id ≢ s.id) (map compiled rs)
  ids-compiled id [] h = tt
  ids-compiled id (r ∷ rs) h = (h.0, ids-compiled id rs h.1)

  DistinctIds-compiled : (rs : List (Rule R)) → DistinctIds rs → DistinctIds (map compiled rs)
  DistinctIds-compiled [] h = tt
  DistinctIds-compiled (r ∷ rs) h = (ids-compiled r.id rs h.0, DistinctIds-compiled rs h.1)

  map-ne-nil : (rs : List (Rule R)) → rs ≢ [] → map compiled rs ≢ []
  map-ne-nil [] h = absurd (h refl)
  map-ne-nil (r ∷ rs) h = cc

  pub RulesAreValid-compiled :
      (rs : List (Rule R))
      → RulesAreValid rs
      → RulesAreValid (map compiled rs) × AreCompiled (map compiled rs)
  RulesAreValid-compiled rs v =
      let (valids, done) = valid_rules-compiled rs v.valid_rules in
      (
        record {
          some_rule = map-ne-nil rs v.some_rule;
          distinct_ids = DistinctIds-compiled rs v.distinct_ids;
          valid_rules = valids;
        },
        done,
      )

  validate_list_sound :
      (rs rs' : List (Rule R))
      → validate_list engine rs ≡ ok rs'
      → RulesAreValid rs × (rs' ≡ map compiled rs)
  unfolding validate_list
  validate_list_sound [] rs' h = cc
  validate_list_sound (r ∷ rs) rs' h =
      let (fresh, valids, same) = validate_rules_sound [] (r ∷ rs) rs' h in
      (
        record {
          some_rule = λ e. cc;
          distinct_ids = (DistinctIds-of_IsFresh [] (r ∷ rs) fresh).1;
          valid_rules = valids;
        },
        same,
      )

  validate_list_complete :
      (rs : List (Rule R)) → RulesAreValid rs → validate_list engine rs ≡ ok (map compiled rs)
  unfolding validate_list
  validate_list_complete [] v = absurd (v.some_rule refl)
  validate_list_complete (r ∷ rs) v =
      validate_rules_complete [] (r ∷ rs)
        (IsFresh-of_DistinctIds [] (r ∷ rs) (Unseen-nil (r ∷ rs)) v.distinct_ids) v.valid_rules

  -- A configuration is accepted exactly when it has a rule, no two rules share an id, and every rule
  -- has a status in 100..599, a destination if it redirects, and the path or the pattern that its
  -- match type needs, where a pattern (of a glob: its translation) compiles. What is returned is the
  -- configuration with these compiled patterns, and nothing else is changed.
  pub validate_iff :
      {F : Type 0} (c c' : Config R F)
      → (validate engine c ≡ ok c')
        ↔ (RulesAreValid c.rules × (c' ≡ record c { rules = map compiled c.rules }))
  unfolding validate
  validate_iff c c' = (
    λ h.
        let (rs, e, same) = >>=-eq-ok (validate_list engine c.rules) _ h in
        let (valid, mapped) = validate_list_sound c.rules rs e in (valid, ground arith),
    λ h. ground (arith, validate_list_complete c.rules h.0),
  )
