-- ===== src/Syncer/Merge/Conflicts.antt =====
-- When a merge fails (fetchAndMerge of internal/syncer/syncer.go, under the resolution "error").
use the_redirector.Base.{
  ℕ, suc, ◌+◌, ◌≤◌, ◌<◌, ◌≡◌, ◌≢◌, ◌↔◌, ◌⊎◌, inl, inr, refl, sym, ap, ◌∙◌, subst, true, List, [],
  ◌∷◌, Bytes, lit, length, length-append, ◌=s◌, lookup, ltb, arith, Bool-cases, Option-cases, err,
  Result-cases,
}
use the_redirector.Config.Validate.{validate}
use the_redirector.Base.Sort.{SortSlice}
use the_redirector.Config.{Engine, Rule, Config}
use the_redirector.Syncer.Merge.{
  SourceConfig, MergeConfig, merge_failed, Merging, Fetch, accept_rule, resolve, report_conflict,
  merge_allowed, merge_rule, merge_rules, copy_settings, merge_sources, merge_fetched, prefixed,
  is_allowed, by_priorities, with_config, start, key_of, remove_rule_by_path, fetch_and_merge,
  finish_merge, checked, merged_config,
}
use the_redirector.Syncer.Merge.Loop.{has}
use the_redirector.Syncer.Merge.Laws.{offered, allowed_rule, allowed_rules}
use the_redirector.Syncer.Merge.Reference.{keep_first, IsKeyed, keep_first_all}
use the_redirector.Syncer.Merge.Outcome.{offers, resolves_error, merge_fetched_lem, reported_result}

module _ {R : Type 0} where
  -- The rules and the conflicts of the state.
  pub tally : Merging R → ℕ
  tally m = length m.rules + length m.conflicts

  tally-accept_rule :
      (source : SourceConfig) (x : Rule R) (m : Merging R)
      → tally (accept_rule source x m) ≡ suc (tally m)
  unfolding tally accept_rule
  tally-accept_rule source x m = omega (arith, length-append m.rules (x ∷ []))

  tally-resolve :
      (s : Bytes) (source : SourceConfig) (x : Rule R) (m : Merging R)
      → tally (resolve (lit "error") s source x m) ≡ suc (tally m)
  unfolding tally resolve report_conflict ◌=s◌
  tally-resolve s source x m = omega (arith, length-append m.conflicts (_ ∷ []))

  tally-merge_allowed :
      (source : SourceConfig) (x : Rule R) (m : Merging R)
      → tally (merge_allowed (lit "error") source x m) ≡ suc (tally m)
  unfolding merge_allowed
  tally-merge_allowed source x m = elim (Option-cases (lookup m.path_to_source (key_of x))) [
    | inl missed ↦ rw (missed, merge_allowed) (tally-accept_rule source x m)
    | inr (s, found) ↦ rw (found, merge_allowed) (tally-resolve s source x m)
  ]

  tally-merge_rule :
      (source : SourceConfig) (m : Merging R) (r : Rule R)
      → tally (merge_rule (lit "error") source m r) ≡ tally m + length (allowed_rule source r)
  unfolding merge_rule allowed_rule tally
  tally-merge_rule source m r = elim (Bool-cases (is_allowed source (prefixed source r))) [
    | inl may ↦
        rw (may, merge_rule, allowed_rule)
          (omega (arith, tally-merge_allowed source (prefixed source r) m))
    | inr bars ↦ rw (bars, merge_rule, allowed_rule) (omega arith)
  ]

  tally-merge_rules :
      (source : SourceConfig) (m : Merging R) (rs : List (Rule R))
      → tally (merge_rules (lit "error") source m rs) ≡ tally m + length (allowed_rules source rs)
  unfolding merge_rules allowed_rules
  tally-merge_rules source m [] = omega arith
  tally-merge_rules source m (r ∷ rs) = omega (
    arith,
    tally-merge_rules source (merge_rule (lit "error") source m r) rs,
    tally-merge_rule source m r,
    length-append (allowed_rule source r) (allowed_rules source rs),
  )

  length-remove : (k : Bytes) (l : List (Rule R)) → length (remove_rule_by_path l k) ≤ length l
  unfolding remove_rule_by_path
  length-remove k [] = ground arith
  length-remove k (y ∷ l) = ground (arith, length-remove k l)

  length-remove_known :
      (k : Bytes) (l : List (Rule R)) → has k l ≡ true → length (remove_rule_by_path l k) < length l
  unfolding remove_rule_by_path
  length-remove_known k [] h = absurd (ground arith)
  length-remove_known k (y ∷ l) h = elim (Bool-cases (key_of y =s k)) [
    | inl same ↦ rw same (omega (arith, length-remove k l))
    | inr differ ↦ rw differ (omega (arith, length-remove_known k l (rw differ at h)))
  ]

  -- Where a key comes twice, fewer rules are kept.
  keep_first-length :
      (xs : List (Rule R)) → IsKeyed xs ⊎ ((length (keep_first xs) < length xs) × (IsKeyed xs → ⊥))
  unfolding keep_first
  keep_first-length [] = inl tt
  keep_first-length (x ∷ xs) = elim (keep_first-length xs) [
    | inr (fewer, twice) ↦
        inr (omega (arith, length-remove (key_of x) (keep_first xs), fewer), λ keyed. twice keyed.1)
    | inl keyed ↦ elim (Bool-cases (has (key_of x) xs)) [
      | inr single ↦ inl (single, keyed)
      | inl again ↦ inr (
        rw (keep_first_all xs keyed) (omega (arith, length-remove_known (key_of x) xs again)),
        λ k. absurd (ground (arith, k.0, again)),
      )
    ]
  ]

module _ {R F : Type 0} where
  tally-copy_settings : (m : Merging R) (c : Config R F) → tally (copy_settings m c) ≡ tally m
  unfolding tally copy_settings
  tally-copy_settings m c = refl

  tally-merge_sources :
      (m : Merging R) (sources : List (SourceConfig × Config R F))
      → tally (merge_sources (lit "error") m sources) ≡ tally m + length (offered sources)
  unfolding merge_sources offered
  tally-merge_sources m [] = omega arith
  tally-merge_sources m ((source, c) ∷ rest) =
      let behind = merge_rules (lit "error") source (copy_settings m c) c.rules in
      omega (
        arith,
        tally-merge_sources behind rest,
        tally-merge_rules source (copy_settings m c) c.rules,
        tally-copy_settings m c,
        length-append (allowed_rules source c.rules) (offered rest),
      )

  -- There are as many conflicts as offered rules that are not kept.
  conflicts_lem :
      (sorting : SortSlice (SourceConfig × Config R F)) (now : ℕ)
      (fetched arrived : List (Fetch R F))
      → let m = merge_fetched sorting (lit "error") now fetched arrived in
        length (keep_first (offers sorting fetched)) + length m.conflicts
        ≡ length (offers sorting fetched)
  unfolding merge_fetched start tally
  conflicts_lem sorting now fetched arrived =
      let rules = merge_fetched_lem sorting now fetched arrived resolves_error in
      omega (
        arith,
        ap length rules,
        tally-merge_sources (start now arrived) (by_priorities sorting (with_config fetched)),
      )

  module _ (engine : Engine R) (cfg : MergeConfig) where
    checked-merge_failed : (c : Config R F) (n : ℕ) → checked engine cfg c ≢ err (merge_failed n)
    unfolding checked
    checked-merge_failed c n h = elim (Bool-cases cfg.validate_before_push) [
      | inr off ↦ ground (arith, rw (off, checked) at h)
      | inl on ↦ elim (Result-cases (validate engine c)) [
        | inl (e, bad) ↦ ground (arith, rw (on, bad, checked) at h)
        | inr (b, good) ↦ ground (arith, rw (on, good, checked) at h)
      ]
    ]

    finish_merge-conflicts :
        (now : ℕ) (m : Merging R)
        → cfg.conflict_resolution ≡ lit "error"
        → ((n : ℕ) × ((finish_merge {F = F} engine cfg now m).0 ≡ err (merge_failed n)))
          ↔ (0 < length m.conflicts)
    unfolding finish_merge ◌=s◌
    finish_merge-conflicts now m e = elim (Bool-cases (ltb 0 (length m.conflicts))) [
      | inl some_conflict ↦
          rw (e, some_conflict, finish_merge)
            ((λ h. ground (arith, some_conflict)), λ h. (length m.conflicts, refl))
      | inr clear ↦
          rw (e, clear, finish_merge)
            (
              (λ h. absurd (
                  checked-merge_failed (merged_config {F = F} m) h.0 (
                    sym (
                      reported_result engine cfg now m
                        (checked engine cfg (merged_config {F = F} m)))
                    ∙ h.1))),
              λ h. absurd (ground (arith, clear)),
            )
    ]

    -- Under the resolution "error", a merge of some sources fails for its conflicts exactly when two
    -- of the rules that they offer have one key.
    pub fetch_and_merge-conflicts :
        (sorting : SortSlice (SourceConfig × Config R F)) (now : ℕ)
        (fetched arrived : List (Fetch R F))
        → cfg.conflict_resolution ≡ lit "error"
        → fetched ≢ []
        → ((n : ℕ) × ((fetch_and_merge engine cfg sorting now fetched arrived).0
              ≡ err (merge_failed n)))
          ↔ (IsKeyed (offers sorting fetched) → ⊥)
    unfolding fetch_and_merge
    fetch_and_merge-conflicts sorting now [] arrived e some_source = absurd (some_source refl)
    fetch_and_merge-conflicts sorting now (f ∷ fs) arrived e some_source =
        let count =
          subst
            (λ res.
              length (keep_first (offers sorting (f ∷ fs)))
                + length (merge_fetched sorting res now (f ∷ fs) arrived).conflicts
              ≡ length (offers sorting (f ∷ fs)))
            (sym e) (conflicts_lem sorting now (f ∷ fs) arrived) in
        let fails =
          finish_merge-conflicts now
            (merge_fetched sorting cfg.conflict_resolution now (f ∷ fs) arrived) e in
        elim (keep_first-length (offers sorting (f ∷ fs))) [
          | inl keyed ↦ (
            λ h. absurd (
                omega (
                  arith,
                  fails.0 h,
                  count,
                  ap length (keep_first_all (offers sorting (f ∷ fs)) keyed),
                )),
            λ twice. absurd (twice keyed),
          )
          | inr (fewer, twice) ↦ ((λ h. twice), λ h. fails.1 (omega (arith, fewer, count)))
        ]
