-- ===== src/Syncer/Merge/Laws.antt =====
-- The rules that a merge results in (fetchAndMerge of internal/syncer/syncer.go), against a reference:
-- of all rules that the sources offer, for each key the first, or the last.
use the_redirector.Base.{
  ◌≡◌, refl, sym, ap, ◌∙◌, List, [], ◌∷◌, ◌++◌, Bytes, if◌then◌else◌, Bool-cases, inl, inr,
}
use the_redirector.Config.{Rule, Config}
use the_redirector.Syncer.Merge.{
  SourceConfig, prefixed, is_allowed, Merging, merge_rule, merge_rules, copy_settings,
  merge_sources,
}
use the_redirector.Syncer.Merge.Loop.{Tracks, Keeps, merge_allowed_lem}

module _ {R : Type 0} where
  -- The rule with its prefix, if the source may define it.
  unfoldable pub allowed_rule : SourceConfig → Rule R → List (Rule R)
  allowed_rule source r =
      if is_allowed source (prefixed source r) then prefixed source r ∷ [] else []

  -- The rules that a source may define, with their prefixes.
  unfoldable pub allowed_rules : SourceConfig → List (Rule R) → List (Rule R)
  allowed_rules source [] = []
  allowed_rules source (r ∷ rs) = allowed_rule source r ++ allowed_rules source rs

  unfoldable pub fold :
      (List (Rule R) → Rule R → List (Rule R)) → List (Rule R) → List (Rule R) → List (Rule R)
  fold add acc [] = acc
  fold add acc (x ∷ xs) = fold add (add acc x) xs

  fold-append :
      (add : List (Rule R) → Rule R → List (Rule R)) (acc xs ys : List (Rule R))
      → fold add acc (xs ++ ys) ≡ fold add (fold add acc xs) ys
  unfolding fold
  fold-append add acc [] ys = refl
  fold-append add acc (x ∷ xs) ys = fold-append add (add acc x) xs ys

  merge_rule_lem :
      {res : Bytes} {add : List (Rule R) → Rule R → List (Rule R)} (source : SourceConfig)
      (m : Merging R) (r : Rule R)
      → Keeps res add
      → Tracks m
      → ((merge_rule res source m r).rules ≡ fold add m.rules (allowed_rule source r))
        × Tracks (merge_rule res source m r)
  unfolding merge_rule allowed_rule fold
  merge_rule_lem source m r keeps w = elim (Bool-cases (is_allowed source (prefixed source r))) [
    | inl may ↦
        rw (may, merge_rule, allowed_rule) (merge_allowed_lem source (prefixed source r) m keeps w)
    | inr bars ↦ rw (bars, merge_rule, allowed_rule) (refl, w)
  ]

  merge_rules_lem :
      {res : Bytes} {add : List (Rule R) → Rule R → List (Rule R)} (source : SourceConfig)
      (m : Merging R) (rs : List (Rule R))
      → Keeps res add
      → Tracks m
      → ((merge_rules res source m rs).rules ≡ fold add m.rules (allowed_rules source rs))
        × Tracks (merge_rules res source m rs)
  unfolding merge_rules allowed_rules fold
  merge_rules_lem source m [] keeps w = (refl, w)
  merge_rules_lem {res} {add} source m (r ∷ rs) keeps w =
      let (e, w') = merge_rule_lem source m r keeps w in
      let (e', w'') = merge_rules_lem source (merge_rule res source m r) rs keeps w' in
      (
        e'
            ∙ ap (λ l. fold add l (allowed_rules source rs)) e
            ∙ sym (fold-append add m.rules (allowed_rule source r) (allowed_rules source rs)),
        w'',
      )

module _ {R F : Type 0} where
  -- The rules that the sources offer, in the order of the sources.
  unfoldable pub offered : List (SourceConfig × Config R F) → List (Rule R)
  offered [] = []
  offered ((source, c) ∷ rest) = allowed_rules source c.rules ++ offered rest

  copy_settings-Tracks :
      (m : Merging R) (c : Config R F)
      → Tracks m
      → ((copy_settings m c).rules ≡ m.rules) × Tracks (copy_settings m c)
  unfolding copy_settings
  copy_settings-Tracks m c w = (refl, w)

  pub merge_sources_lem :
      {res : Bytes} {add : List (Rule R) → Rule R → List (Rule R)} (m : Merging R)
      (sources : List (SourceConfig × Config R F))
      → Keeps res add
      → Tracks m
      → (merge_sources res m sources).rules ≡ fold add m.rules (offered sources)
  unfolding merge_sources offered fold
  merge_sources_lem m [] keeps w = refl
  merge_sources_lem {res} {add} m ((source, c) ∷ rest) keeps w =
      let (same, w1) = copy_settings-Tracks m c w in
      let (e, w2) = merge_rules_lem source (copy_settings m c) c.rules keeps w1 in
      merge_sources_lem (merge_rules res source (copy_settings m c) c.rules) rest keeps w2
      ∙ ap (λ l. fold add l (offered rest))
          (e ∙ ap (λ l. fold add l (allowed_rules source c.rules)) same)
      ∙ sym (fold-append add m.rules (allowed_rules source c.rules) (offered rest))
