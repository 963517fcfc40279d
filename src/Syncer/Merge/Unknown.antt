-- ===== src/Syncer/Merge/Unknown.antt =====
-- A resolution that is none of the three (fetchAndMerge of internal/syncer/syncer.go).
use the_redirector.Base.{
  ℕ, ◌≡◌, refl, sym, ap, ◌∙◌, false, List, [], ◌∷◌, ◌++◌, append-nil, append_assoc, Bytes, lit,
  ◌=s◌, lookup, inl, inr, Bool-cases, Option-cases,
}
use the_redirector.Base.Sort.{SortSlice}
use the_redirector.Config.{Rule, Config}
use the_redirector.Syncer.Merge.{
  SourceConfig, Merging, Fetch, accept_rule, resolve, merge_allowed, merge_rule, merge_rules,
  copy_settings, merge_sources, merge_fetched, prefixed, is_allowed, key_of, start, by_priorities,
  with_config, warn,
}
use the_redirector.Syncer.Merge.Laws.{offered, allowed_rule, allowed_rules}
use the_redirector.Syncer.Merge.Outcome.{offers}

-- Fetch and merge know no such resolution.
pub record IsUnknown (res : Bytes) : Type 0 where
  pub not_error : (res =s lit "error") ≡ false
  pub not_priority : (res =s lit "priority") ≡ false
  pub not_first : (res =s lit "first") ≡ false

module _ {R : Type 0} {res : Bytes} (unknown : IsUnknown res) where
  unknown-merge_allowed :
      (source : SourceConfig) (x : Rule R) (m : Merging R)
      → (merge_allowed res source x m).rules ≡ m.rules ++ x ∷ []
  unfolding merge_allowed resolve accept_rule
  unknown-merge_allowed source x m = elim (Option-cases (lookup m.path_to_source (key_of x))) [
    | inl missed ↦ rw (missed, merge_allowed) refl
    | inr (s, found) ↦
        rw
          (
            found, merge_allowed, resolve, unknown.not_error, unknown.not_priority,
            unknown.not_first,
          )
          refl
  ]

  unknown-merge_rule :
      (source : SourceConfig) (m : Merging R) (r : Rule R)
      → (merge_rule res source m r).rules ≡ m.rules ++ allowed_rule source r
  unfolding merge_rule allowed_rule warn
  unknown-merge_rule source m r = elim (Bool-cases (is_allowed source (prefixed source r))) [
    | inl may ↦
        rw (may, merge_rule, allowed_rule) (unknown-merge_allowed source (prefixed source r) m)
    | inr bars ↦ rw (bars, merge_rule, allowed_rule) (sym (append-nil m.rules))
  ]

  unknown-merge_rules :
      (source : SourceConfig) (m : Merging R) (rs : List (Rule R))
      → (merge_rules res source m rs).rules ≡ m.rules ++ allowed_rules source rs
  unfolding merge_rules allowed_rules
  unknown-merge_rules source m [] = sym (append-nil m.rules)
  unknown-merge_rules source m (r ∷ rs) =
      unknown-merge_rules source (merge_rule res source m r) rs
      ∙ ap (λ l. l ++ allowed_rules source rs) (unknown-merge_rule source m r)
      ∙ append_assoc m.rules (allowed_rule source r) (allowed_rules source rs)

  unknown-merge_sources :
      {F : Type 0} (m : Merging R) (sources : List (SourceConfig × Config R F))
      → (merge_sources res m sources).rules ≡ m.rules ++ offered sources
  unfolding merge_sources offered copy_settings
  unknown-merge_sources m [] = sym (append-nil m.rules)
  unknown-merge_sources m ((source, c) ∷ rest) =
      unknown-merge_sources (merge_rules res source (copy_settings m c) c.rules) rest
      ∙ ap (λ l. l ++ offered rest) (unknown-merge_rules source (copy_settings m c) c.rules)
      ∙ append_assoc m.rules (allowed_rules source c.rules) (offered rest)

  -- Under a resolution that is none of the three, every offered rule is merged, also where two have
  -- one key.
  pub merge_fetched-unknown :
      {F : Type 0} (sorting : SortSlice (SourceConfig × Config R F)) (now : ℕ)
      (fetched arrived : List (Fetch R F))
      → (merge_fetched sorting res now fetched arrived).rules ≡ offers sorting fetched
  unfolding merge_fetched start
  merge_fetched-unknown sorting now fetched arrived =
      unknown-merge_sources (start now arrived) (by_priorities sorting (with_config fetched))
