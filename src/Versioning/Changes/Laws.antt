-- ===== src/Versioning/Changes/Laws.antt =====
-- Which ids calculateChanges of internal/versioning/version.go reports as added and removed.
use the_redirector.Base.{
  ◌≡◌, refl, sym, ◌∙◌, ap, ◌↔◌, inl, inr, Bool, true, false, ◌||◌, List, [], ◌∷◌, map, Memᴰ, Bytes,
  ◌=s◌, =s_iff, =s_refl, Dict, lookup, insert, has_key, lookup-insert, any, arith, Bool-cases,
  false≢true,
}
use the_redirector.Config.{Rule, Config}
use the_redirector.Versioning.Changes.{Outside, rules_map, keys, added, calculate_changes}

module _ {V : Type 0} where
  has_key-insert :
      (m : Dict V) (k j : Bytes) (v : V) → has_key (insert m k v) j ≡ (k =s j || has_key m j)
  unfolding has_key
  has_key-insert m k j v = ground (arith, lookup-insert m k j v)

  mem_of_has_key :
      (m : Dict V) (id : Bytes) → has_key m id ≡ true → Memᴰ id (map (λ (e : Bytes × V). e.0) m)
  unfolding has_key lookup
  mem_of_has_key [] id h = absurd (false≢true h)
  mem_of_has_key ((j, v) ∷ m) id h = elim (Bool-cases (j =s id)) [
    | inl same ↦ Memᴰ.head (sym ((=s_iff j id).0 same))
    | inr other ↦ Memᴰ.tail (mem_of_has_key m id (rw (other, lookup) at h))
  ]

  has_key_of_mem :
      (m : Dict V) (id : Bytes) → Memᴰ id (map (λ (e : Bytes × V). e.0) m) → has_key m id ≡ true
  unfolding has_key lookup
  has_key_of_mem [] id x = elim x [ ]
  has_key_of_mem ((j, v) ∷ m) id (Memᴰ.head e) = rw (e, =s_refl j) refl
  has_key_of_mem ((j, v) ∷ m) id (Memᴰ.tail x) = ground (arith, has_key_of_mem m id x)

module _ {R : Type 0} where
  -- Whether a rule of the list has the id.
  abbrev pub names_rule : Bytes → List (Rule R) → Bool
  names_rule id rules = any (λ r. r.id =s id) rules

  has_key-rules_map :
      (m : Dict (Rule R)) (rs : List (Rule R)) (id : Bytes)
      → has_key (rules_map m rs) id ≡ (has_key m id || names_rule id rs)
  unfolding rules_map
  has_key-rules_map m [] id = ground arith
  has_key-rules_map m (r ∷ rs) id =
      ground (arith, has_key-rules_map (insert m r.id r) rs id, has_key-insert m r.id id r)

  mem-added_sound :
      (old : Dict (Rule R)) (ids : List Bytes) (id : Bytes)
      → Memᴰ id (added old ids)
      → Memᴰ id ids × (has_key old id ≡ false)
  unfolding added
  mem-added_sound old [] id x = elim x [ ]
  mem-added_sound old (i ∷ ids) id x = elim (Bool-cases (has_key old i)) [
    | inl known ↦ let (m, new) = mem-added_sound old ids id (rw known at x) in (Memᴰ.tail m, new)
    | inr new ↦ at_head new (mem-added_sound old ids id) (rw new at x)
  ]
    where
      at_head :
          has_key old i ≡ false
          → (Memᴰ id (added old ids) → Memᴰ id ids × (has_key old id ≡ false))
          → Memᴰ id (i ∷ added old ids)
          → Memᴰ id (i ∷ ids) × (has_key old id ≡ false)
      at_head new rest (Memᴰ.head e) = (Memᴰ.head e, ap (has_key old) e ∙ new)
      at_head new rest (Memᴰ.tail y) = (Memᴰ.tail (rest y).0, (rest y).1)

  mem-added_complete :
      (old : Dict (Rule R)) (ids : List Bytes) (id : Bytes)
      → Memᴰ id ids
      → has_key old id ≡ false
      → Memᴰ id (added old ids)
  unfolding added
  mem-added_complete old [] id x h = elim x [ ]
  mem-added_complete old (i ∷ ids) id (Memᴰ.head e) h =
      rw (ap (has_key old) (sym e) ∙ h) (Memᴰ.head e)
  mem-added_complete old (i ∷ ids) id (Memᴰ.tail x) h = elim (Bool-cases (has_key old i)) [
    | inl known ↦ rw known (mem-added_complete old ids id x h)
    | inr new ↦ rw new (Memᴰ.tail (mem-added_complete old ids id x h))
  ]

  has_key-rules :
      (rs : List (Rule R)) (id : Bytes) → has_key (rules_map [] rs) id ≡ names_rule id rs
  unfolding has_key lookup
  has_key-rules rs id = has_key-rules_map [] rs id

  module _ {F : Type 0} (outside : Outside F) where
    -- The ids that `added` reports of one rule list against another.
    mem-reported :
        (xs ys : List (Rule R)) (id : Bytes)
        → ((ks : List Bytes) (k : Bytes) → Memᴰ k (outside.range_keys ks) ↔ Memᴰ k ks)
        → Memᴰ id (added (rules_map [] xs) (outside.range_keys (keys (rules_map [] ys))))
          ↔ ((names_rule id ys ≡ true) × (names_rule id xs ≡ false))
    mem-reported xs ys id ranges = (
      λ x.
          let (m, new) = mem-added_sound (rules_map [] xs) _ id x in
          (
            sym (has_key-rules ys id)
                ∙ has_key_of_mem (rules_map [] ys) id ((ranges (keys (rules_map [] ys)) id).0 m),
            sym (has_key-rules xs id) ∙ new,
          ),
      λ h.
          mem-added_complete (rules_map [] xs) _ id
            ((ranges (keys (rules_map [] ys)) id).1
              (mem_of_has_key (rules_map [] ys) id (has_key-rules ys id ∙ h.0)))
            (has_key-rules xs id ∙ h.1),
    )

    -- Where the range over a map visits its keys, each of them and no other: the ids that are reported
    -- as added are those of the rules of the new configuration that no rule of the old one has, and
    -- those that are reported as removed the other way round.
    pub calculate_changes-ids :
        (old new : Config R F) (id : Bytes)
        → ((ks : List Bytes) (k : Bytes) → Memᴰ k (outside.range_keys ks) ↔ Memᴰ k ks)
        → let changes = calculate_changes outside old new in
          (Memᴰ id changes.rules_added
            ↔ ((names_rule id new.rules ≡ true) × (names_rule id old.rules ≡ false)))
          × (Memᴰ id changes.rules_removed
              ↔ ((names_rule id old.rules ≡ true) × (names_rule id new.rules ≡ false)))
    unfolding calculate_changes
    calculate_changes-ids old new id ranges =
        (mem-reported old.rules new.rules id ranges, mem-reported new.rules old.rules id ranges)
