-- ===== src/Syncer/Merge/Outcome.antt =====
-- What fetchAndMerge of internal/syncer/syncer.go results in, for each resolution of conflicts.
use mathlib.Core.List.{Permᴰ}
use the_redirector.Base.{
  All, All-map, ltb_ℤ, ◌≤ℤ◌, ℕ, ◌≡◌, refl, sym, ap, ◌∙◌, subst, Bool, true, false, ◌&&◌, ◌||◌,
  lookup, List, [], ◌∷◌, Bytes, lit, map, length, ◌=s◌, if◌then◌else◌, ltb, arith, Bool-cases, inl,
  inr, Result, ok, err, ok_injective, Result-cases,
}
use the_redirector.Base.Sort.{SortSlice, IsOrder, IsSorted}
use the_redirector.Config.{Engine, Rule, Config}
use the_redirector.Config.Validate.{validate}
use the_redirector.Config.Validate.Laws.{compiled, validate_iff}
use the_redirector.Syncer.Merge.{
  SourceConfig, MergeConfig, MergeError, Merging, Fetch, merge_fetched, by_priorities, with_config,
  key_of, fetch_and_merge, start, finish_merge, checked, merged_config, reported,
}
use the_redirector.Syncer.Merge.Loop.{keeps_first, keeps_last, keeps_first_error, has}
use the_redirector.Syncer.Merge.Laws.{offered, merge_sources_lem}
use the_redirector.Syncer.Merge.Reference.{
  keep_first, keep_last, IsKeyed, fold-keep_first, fold-keep_last, keep_first-IsKeyed,
  keep_last-IsKeyed,
}

module _ {R : Type 0} where
  -- The three resolutions, with the reference for each.
  pub data Resolves : Bytes → (List (Rule R) → List (Rule R)) → Type 0 where
    resolves_error : Resolves (lit "error") keep_first
    resolves_first : Resolves (lit "first") keep_first
    resolves_priority : Resolves (lit "priority") keep_last

  Resolves-IsKeyed :
      {res : Bytes} {keep : List (Rule R) → List (Rule R)} (xs : List (Rule R))
      → Resolves res keep
      → IsKeyed (keep xs)
  Resolves-IsKeyed xs resolves_error = keep_first-IsKeyed xs
  Resolves-IsKeyed xs resolves_first = keep_first-IsKeyed xs
  Resolves-IsKeyed xs resolves_priority = keep_last-IsKeyed xs

  IsKeyed-compiled :
      (engine : Engine R) (xs : List (Rule R)) → IsKeyed xs → IsKeyed (map (compiled engine) xs)
  IsKeyed-compiled engine [] h = tt
  IsKeyed-compiled engine (x ∷ xs) h = (same (key_of x) xs ∙ h.0, IsKeyed-compiled engine xs h.1)
    where
      same : (k : Bytes) (ys : List (Rule R)) → has k (map (compiled engine) ys) ≡ has k ys
      same k [] = refl
      same k (y ∷ ys) = ap (λ b. key_of y =s k || b) (same k ys)

module _ {R F : Type 0} where
  -- The sources stand by rising priorities.
  abbrev pub ByPriority : List (SourceConfig × Config R F) → Type 0
  ByPriority [] = Unit
  ByPriority (a ∷ l) = All (λ b. a.0.priority ≤ℤ b.0.priority) l × ByPriority l

  abbrev by_priority : SourceConfig × Config R F → SourceConfig × Config R F → Bool
  by_priority a b = ltb_ℤ a.0.priority b.0.priority

  by_priority-IsOrder : IsOrder by_priority (λ a. Unit {0})
  by_priority-IsOrder = record {
    asymmetric = λ a b _ _ h. ground arith;
    transitive = λ a b c _ _ _ h k. ground arith;
  }

  ByPriority-IsSorted :
      (l : List (SourceConfig × Config R F)) → IsSorted by_priority l → ByPriority l
  ByPriority-IsSorted [] h = tt
  ByPriority-IsSorted (a ∷ l) h =
      (All-map l (λ b later. ground (arith, later)) h.0, ByPriority-IsSorted l h.1)

  -- All rules that a merge is offered, in its order.
  abbrev pub offers : SortSlice (SourceConfig × Config R F) → List (Fetch R F) → List (Rule R)
  offers sorting fetched = offered (by_priorities sorting (with_config fetched))

  pub merge_fetched_lem :
      {res : Bytes} {keep : List (Rule R) → List (Rule R)}
      (sorting : SortSlice (SourceConfig × Config R F)) (now : ℕ)
      (fetched arrived : List (Fetch R F))
      → Resolves res keep
      → (merge_fetched sorting res now fetched arrived).rules ≡ keep (offers sorting fetched)
  unfolding merge_fetched start lookup
  merge_fetched_lem sorting now fetched arrived resolves_error =
      merge_sources_lem _ _ keeps_first_error (λ k. refl) ∙ fold-keep_first (offers sorting fetched)
  merge_fetched_lem sorting now fetched arrived resolves_first =
      merge_sources_lem _ _ keeps_first (λ k. refl) ∙ fold-keep_first (offers sorting fetched)
  merge_fetched_lem sorting now fetched arrived resolves_priority =
      merge_sources_lem _ _ keeps_last (λ k. refl) ∙ fold-keep_last (offers sorting fetched)

  module _ (engine : Engine R) (cfg : MergeConfig) where
    checked_rules :
        (a c : Config R F)
        → checked engine cfg a ≡ ok c
        → c.rules ≡ (if cfg.validate_before_push then map (compiled engine) a.rules else a.rules)
    unfolding checked
    checked_rules a c h = elim (Bool-cases cfg.validate_before_push) [
      | inr off ↦
          rw off (sym (ap (λ (x : Config R F). x.rules) (ok_injective (rw (off, checked) at h))))
      | inl on ↦ elim (Result-cases (validate engine a)) [
        | inl (e, bad) ↦ absurd (ground (arith, rw (on, bad, checked) at h))
        | inr (b, good) ↦ rw on (
            ap (λ (x : Config R F). x.rules) (sym (ok_injective (rw (on, good, checked) at h)))
            ∙ ap (λ (x : Config R F). x.rules) ((validate_iff engine a b).0 good).1)
      ]
    ]

    pub reported_result :
        (now : ℕ) (m : Merging R) (r : Result MergeError (Config R F))
        → (reported engine cfg now m r).0 ≡ r
    unfolding reported
    reported_result now m (ok c) = refl
    reported_result now m (err e) = refl

    finish_rules :
        (now : ℕ) (m : Merging R) (c : Config R F)
        → (finish_merge engine cfg now m).0 ≡ ok c
        → c.rules ≡ (if cfg.validate_before_push then map (compiled engine) m.rules else m.rules)
    unfolding finish_merge merged_config
    finish_rules now m c h =
        elim (Bool-cases (cfg.conflict_resolution =s lit "error" && ltb 0 (length m.conflicts))) [
          | inl conflicts ↦ absurd (ground (arith, rw (conflicts, finish_merge) at h))
          | inr clear ↦ checked_rules (merged_config m) c (
              sym (reported_result now m (checked engine cfg (merged_config m)))
              ∙ rw (clear, finish_merge) at h)
        ]

    -- Under each of the three resolutions, for a merge that succeeds: some order of the sources that
    -- returned a configuration, by rising priorities, is such that the result has the rules that the
    -- reference keeps of all that the sources offer in this order (with the patterns compiled, where
    -- the merge validates): for error and first the first rule of each key, and for priority the
    -- last; no two of them have one key.
    pub fetch_and_merge-rules :
        {keep : List (Rule R) → List (Rule R)} (sorting : SortSlice (SourceConfig × Config R F))
        (now : ℕ) (fetched arrived : List (Fetch R F)) (c : Config R F)
        → Resolves cfg.conflict_resolution keep
        → (fetch_and_merge engine cfg sorting now fetched arrived).0 ≡ ok c
        → (sources : List (SourceConfig × Config R F)) × Permᴰ sources (with_config fetched)
          × ByPriority sources
          × (c.rules ≡ (
              if cfg.validate_before_push
              then map (compiled engine) (keep (offered sources))
              else keep (offered sources)))
          × IsKeyed c.rules
    unfolding fetch_and_merge by_priorities
    fetch_and_merge-rules sorting now [] arrived c resolves h = absurd (ground arith)
    fetch_and_merge-rules {keep} sorting now (f ∷ fs) arrived c resolves h =
        let kept = merge_fetched_lem sorting now (f ∷ fs) arrived resolves in
        let same =
          finish_rules now (merge_fetched sorting cfg.conflict_resolution now (f ∷ fs) arrived) c h
          ∙ ap (λ l. if cfg.validate_before_push then map (compiled engine) l else l) kept in
        (
          by_priorities sorting (with_config (f ∷ fs)),
          sorting.keeps by_priority (with_config (f ∷ fs)),
          ByPriority-IsSorted _
              (sorting.orders by_priority (with_config (f ∷ fs)) by_priority-IsOrder),
          same,
          subst IsKeyed (sym same) (either cfg.validate_before_push),
        )
      where
        either :
            (b : Bool)
            → IsKeyed (
                if b
                then map (compiled engine) (keep (offers sorting (f ∷ fs)))
                else keep (offers sorting (f ∷ fs)))
        either true = IsKeyed-compiled engine _ (Resolves-IsKeyed _ resolves)
        either false = Resolves-IsKeyed _ resolves
