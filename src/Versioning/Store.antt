-- ===== src/Versioning/Store.antt =====
-- internal/versioning/version.go: the store of configuration versions. A method takes the store and
-- returns it anew beside its result; the lock makes each method one step. The clock enters as the
-- time `now`. Version numbers count up from 1 and stay far below the machine's bound.
pub mod Laws
pub mod Runs
use the_redirector.Base.{
  ℕ, zero, suc, ◌+◌, Bool, true, false, Option, none, some, List, [], ◌∷◌, ◌++◌, length, get_elem?,
  Bytes, lit, ℤ, pos, pos_part, ltb_ℤ, ltb, ◌==◌, if◌then◌else◌,
}
use the_redirector.Base.Ring.{Ring, new_ring, put, at, entries_from}
use the_redirector.Config.{Config}
use the_redirector.Versioning.Changes.{Outside, ConfigChanges, calculate_changes}

pub record ConfigVersion (R F : Type 0) : Type 0 where
  pub version : ℕ
  pub hash : Bytes
  pub loaded_at : ℕ
  pub source : Bytes
  pub rules_count : ℕ
  pub changes : Option ConfigChanges
  pub config : Config R F

-- versions, maxVersions, current and count are the ring's fields.
pub record Store (R F : Type 0) : Type 0 where
  pub ring : Ring (ConfigVersion R F)
  pub next_version : ℕ

module _ {R F : Type 0} where
  -- NewStore
  unfoldable pub new_store : ℤ → Store R F
  new_store max_versions = record {
    ring = new_ring (if ltb_ℤ max_versions (pos 1) then 10 else pos_part max_versions);
    next_version = 1;
  }

  -- getCurrentLocked, and Current
  unfoldable pub current : Store R F → Option (ConfigVersion R F)
  current s =
      if s.ring.count == 0
      then none
      else elim (get_elem? s.ring.items s.ring.current) [ none ↦ none | some o ↦ o ]

  -- The loop of Get, at slot `i` with so many rounds left.
  find_version : Store R F → ℕ → ℕ → ℕ → Option (ConfigVersion R F)
  find_version s version i zero = none
  find_version s version i (suc n) =
      let rest = find_version s version (i + 1) n in
      (elim (at s.ring i) [ none ↦ rest | some v ↦ if v.version == version then some v else rest ])

  -- Get
  unfoldable pub get : Store R F → ℕ → Option (ConfigVersion R F)
  unfolding find_version at
  get s version = find_version s version 0 s.ring.count

  -- List
  unfoldable pub list : Store R F → List (ConfigVersion R F)
  list s = entries_from s.ring 0 s.ring.count

  -- Previous
  unfoldable pub previous : Store R F → Option (ConfigVersion R F)
  previous s = if ltb s.ring.count 2 then none else at s.ring 1

  -- The entry is stored, and the next number counted up.
  unfoldable pub store_version : Store R F → ConfigVersion R F → Store R F
  store_version s v = record { ring = put s.ring v; next_version = s.next_version + 1 }

  module _ (outside : Outside F) where
    pub changes_since : Option (ConfigVersion R F) → Config R F → Option ConfigChanges
    changes_since none cfg = none
    changes_since (some prev) cfg = some (calculate_changes outside prev.config cfg)

    abbrev pub added_version : Store R F → ℕ → Config R F → Bytes → ConfigVersion R F
    added_version s now cfg source = record {
      version = s.next_version;
      hash = outside.digest cfg.version (length cfg.rules) cfg.server;
      loaded_at = now;
      source = source;
      rules_count = length cfg.rules;
      changes = changes_since (current s) cfg;
      config = cfg;
    }

    -- Add
    unfoldable pub add : Store R F → ℕ → Config R F → Bytes → ConfigVersion R F × Store R F
    unfolding store_version
    add s now cfg source = let v = added_version s now cfg source in (v, store_version s v)

    abbrev pub rolled_back : Store R F → ℕ → ConfigVersion R F → ConfigVersion R F
    rolled_back s now v = record {
      version = s.next_version;
      hash = v.hash;
      loaded_at = now;
      source = lit "rollback:" ++ v.source;
      rules_count = v.rules_count;
      changes = changes_since (current s) v.config;
      config = v.config;
    }

    -- Rollback: its loop finds the entry that the loop of Get finds.
    unfoldable pub rollback : Store R F → ℕ → ℕ → Option (ConfigVersion R F) × Store R F
    unfolding store_version
    rollback s now version = elim (get s version) [
      | none ↦ (none, s)
      | some v ↦ (some (rolled_back s now v), store_version s (rolled_back s now v))
    ]
