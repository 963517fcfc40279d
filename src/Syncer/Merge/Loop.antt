-- ===== src/Syncer/Merge/Loop.antt =====
-- What the loop of fetchAndMerge does to the list of rules (internal/syncer/syncer.go): one rule after
-- the other is put into a list without a second rule of its key.
use the_redirector.Base.{
  ◌≡◌, refl, sym, ap, ◌∙◌, inl, inr, Bool, true, false, not, ◌&&◌, ◌||◌, none, some, List, [], ◌∷◌,
  ◌++◌, Bytes, lit, is_some, ◌=s◌, =s_iff, Dict, lookup, insert, lookup-insert, any, if◌then◌else◌,
  arith, Option-cases,
}
use the_redirector.Config.{Rule}
use the_redirector.Syncer.Merge.{
  SourceConfig, key_of, remove_rule_by_path, Merging, accept_rule, resolve, merge_allowed,
  report_conflict,
}

module _ {R : Type 0} where
  -- A rule of the list has the key.
  abbrev pub has : Bytes → List (Rule R) → Bool
  has k rules = any (λ r. key_of r =s k) rules

  pub has-append :
      (k : Bytes) (xs : List (Rule R)) (x : Rule R)
      → has k (xs ++ x ∷ []) ≡ (has k xs || key_of x =s k)
  has-append k [] x = ground arith
  has-append k (y ∷ xs) x = ground (arith, has-append k xs x)

  pub has-remove :
      (k j : Bytes) (xs : List (Rule R))
      → has k (remove_rule_by_path xs j) ≡ (has k xs && not (j =s k))
  unfolding remove_rule_by_path
  has-remove k j [] = refl
  has-remove k j (y ∷ xs) =
      ground (arith, has-remove k j xs, =s_iff (key_of y) j, =s_iff (key_of y) k, =s_iff j k)

  pub remove_absent :
      (xs : List (Rule R)) (j : Bytes) → has j xs ≡ false → remove_rule_by_path xs j ≡ xs
  unfolding remove_rule_by_path
  remove_absent [] j h = refl
  remove_absent (y ∷ xs) j h = ground (arith, remove_absent xs j)

  -- The list without the rule where it has one of its key, or with it in place of that.
  unfoldable pub add_first : List (Rule R) → Rule R → List (Rule R)
  add_first acc x = if has (key_of x) acc then acc else acc ++ x ∷ []

  unfoldable pub add_last : List (Rule R) → Rule R → List (Rule R)
  add_last acc x = remove_rule_by_path acc (key_of x) ++ x ∷ []

  -- The map of the sources has the keys of the merged rules.
  abbrev pub Tracks : Merging R → Type 0
  Tracks m = (k : Bytes) → is_some (lookup m.path_to_source k) ≡ has k m.rules

  tracked_insert :
      (pts : Dict Bytes) (rules : List (Rule R)) (x : Rule R) (name : Bytes)
      → ((k : Bytes) → (is_some (lookup pts k) || key_of x =s k) ≡ has k rules)
      → (k : Bytes) → is_some (lookup (insert pts (key_of x) name) k) ≡ has k rules
  tracked_insert pts rules x name h k =
      ap is_some (lookup-insert pts (key_of x) k name) ∙ shape ∙ h k
    where
      shape :
          is_some (if key_of x =s k then some name else lookup pts k)
          ≡ (is_some (lookup pts k) || key_of x =s k)
      shape = ground arith

  -- Whether the first rule of a key or the last is kept, by the resolution.
  pub data Keeps : Bytes → (List (Rule R) → Rule R → List (Rule R)) → Type 0 where
    keeps_first_error : Keeps (lit "error") add_first
    keeps_first : Keeps (lit "first") add_first
    keeps_last : Keeps (lit "priority") add_last

  module _ (source : SourceConfig) (x : Rule R) (m : Merging R) (w : Tracks m) where
    fresh-has : lookup m.path_to_source (key_of x) ≡ none → has (key_of x) m.rules ≡ false
    fresh-has missed = sym (w (key_of x)) ∙ ap is_some missed

    known-has :
        {s : Bytes} → lookup m.path_to_source (key_of x) ≡ some s → has (key_of x) m.rules ≡ true
    known-has found = sym (w (key_of x)) ∙ ap is_some found

    merge_fresh :
        (res : Bytes)
        → lookup m.path_to_source (key_of x) ≡ none
        → merge_allowed res source x m ≡ accept_rule source x m
    unfolding merge_allowed
    merge_fresh res missed = rw (missed, merge_allowed)

    merge_known :
        (res : Bytes) {s : Bytes}
        → lookup m.path_to_source (key_of x) ≡ some s
        → merge_allowed res source x m ≡ resolve res s source x m
    unfolding merge_allowed
    merge_known res found = rw (found, merge_allowed)

    accept_rule-Tracks :
        ((accept_rule source x m).rules ≡ m.rules ++ x ∷ []) × Tracks (accept_rule source x m)
    unfolding accept_rule
    accept_rule-Tracks = (
      refl,
      tracked_insert m.path_to_source (m.rules ++ x ∷ []) x source.name
          (λ k. ap (λ b. b || key_of x =s k) (w k) ∙ sym (has-append k m.rules x)),
    )

    resolve_error :
        (s : Bytes)
        → ((resolve (lit "error") s source x m).rules ≡ m.rules)
          × Tracks (resolve (lit "error") s source x m)
    unfolding resolve report_conflict ◌=s◌
    resolve_error s = (refl, w)

    resolve_first :
        (s : Bytes)
        → ((resolve (lit "first") s source x m).rules ≡ m.rules)
          × Tracks (resolve (lit "first") s source x m)
    unfolding resolve report_conflict ◌=s◌
    resolve_first s = (refl, w)

    resolve_priority :
        (s : Bytes)
        → ((resolve (lit "priority") s source x m).rules
            ≡ remove_rule_by_path m.rules (key_of x) ++ x ∷ [])
          × Tracks (resolve (lit "priority") s source x m)
    unfolding resolve report_conflict accept_rule ◌=s◌
    resolve_priority s = (
      refl,
      tracked_insert m.path_to_source (remove_rule_by_path m.rules (key_of x) ++ x ∷ []) x
          source.name
          (λ k.
            ap (λ b. b || key_of x =s k) (w k)
            ∙ shape k
            ∙ ap (λ b. b || key_of x =s k) (sym (has-remove k (key_of x) m.rules))
            ∙ sym (has-append k _ x)),
    )
      where
        shape :
            (k : Bytes)
            → (has k m.rules || key_of x =s k)
              ≡ ((has k m.rules && not (key_of x =s k)) || key_of x =s k)
        shape k = ground arith

  -- One allowed rule.
  pub merge_allowed_lem :
      {res : Bytes} {add : List (Rule R) → Rule R → List (Rule R)} (source : SourceConfig)
      (x : Rule R) (m : Merging R)
      → Keeps res add
      → Tracks m
      → ((merge_allowed res source x m).rules ≡ add m.rules x)
        × Tracks (merge_allowed res source x m)
  unfolding add_first add_last
  merge_allowed_lem {res} source x m keeps w =
      elim (Option-cases (lookup m.path_to_source (key_of x))) [
        | inl missed ↦
            rw (merge_fresh source x m w res missed) (
              fresh_case keeps (fresh-has source x m w missed),
              (accept_rule-Tracks source x m w).1,
            )
        | inr (s, found) ↦
            rw (merge_known source x m w res found)
              (known_case keeps s (known-has source x m w found))
      ]
    where
      fresh_case :
          {res : Bytes} {add : List (Rule R) → Rule R → List (Rule R)}
          → Keeps res add
          → has (key_of x) m.rules ≡ false
          → (accept_rule source x m).rules ≡ add m.rules x
      fresh_case keeps_first_error none_has = (accept_rule-Tracks source x m w).0 ∙ rw none_has refl
      fresh_case keeps_first none_has = (accept_rule-Tracks source x m w).0 ∙ rw none_has refl
      fresh_case keeps_last none_has =
          (accept_rule-Tracks source x m w).0
          ∙ ap (λ l. l ++ x ∷ []) (sym (remove_absent m.rules (key_of x) none_has))

      known_case :
          {res : Bytes} {add : List (Rule R) → Rule R → List (Rule R)}
          → Keeps res add
          → (s : Bytes) → has (key_of x) m.rules ≡ true
          → ((resolve res s source x m).rules ≡ add m.rules x) × Tracks (resolve res s source x m)
      known_case keeps_first_error s one_has = rw one_has (resolve_error source x m w s)
      known_case keeps_first s one_has = rw one_has (resolve_first source x m w s)
      known_case keeps_last s one_has = resolve_priority source x m w s
