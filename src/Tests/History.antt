-- ===== src/Tests/History.antt =====
-- The version store and the audit log at concrete histories.
use the_redirector.Base.{
  ℕ, ◌+◌, ◌≤◌, ◌≡◌, refl, ◌↔◌, Memᴰ, true, false, none, some, List, [], ◌∷◌, length, take, find,
  Bytes, lit, pos, ◌==◌, arith,
}
use the_redirector.Config.Load.{zero_config}
use the_redirector.Base.Ring.{Holds, new_ring, put, new_ring-Holds, put-Holds}
use the_redirector.Versioning.Store.{
  ConfigVersion, Store, new_store, current, get, list, previous, changes_since, add, added_version,
  rolled_back, rollback,
}
use the_redirector.Versioning.Store.Laws.{
  Numbered, IsStore, readers_refine, new_store-IsStore, add_refines, rollback_found,
}
use the_redirector.Versioning.Store.Runs.{Op, load, roll, run, run-list}
use the_redirector.Versioning.Audit.{AuditEvent, AuditLog, AuditFilter, query, passed}
use the_redirector.Versioning.Audit.Laws.{keep, query_lem}
use the_redirector.Versioning.Changes.{calculate_changes}
use the_redirector.Versioning.Changes.Laws.{names_rule, calculate_changes-ids}
use the_redirector.Tests.Samples.{sample_config, sample_outside}

-- A store of two versions, after the first configuration.
abbrev fresh : Store Bytes ℕ
fresh = new_store (pos 2)

abbrev first : ConfigVersion Bytes ℕ
first = added_version sample_outside fresh 5 sample_config (lit "f")

abbrev one : Store Bytes ℕ
one = (add sample_outside fresh 5 sample_config (lit "f")).1

one-IsStore : IsStore one (first ∷ [])
unfolding new_store add
one-IsStore =
    (add_refines sample_outside fresh [] 5 sample_config (lit "f") (new_store-IsStore (pos 2)).0).0

readers_refine_example :
    (list one ≡ first ∷ [])
    × (current one ≡ some first)
    × (previous one ≡ none)
    × ((version : ℕ) → get one version ≡ find (λ v. v.version == version) (first ∷ []))
readers_refine_example = readers_refine one (first ∷ []) one-IsStore

add_refines_example :
    let (v, s') = add sample_outside one 6 sample_config (lit "g") in
    IsStore s' (take one.ring.size (v ∷ first ∷ []))
    × (v.version ≡ one.next_version)
    × (v.config ≡ sample_config)
    × (v.rules_count ≡ 1)
    × (v.changes ≡ changes_since sample_outside (some first) sample_config)
    × (s'.next_version ≡ one.next_version + 1)
add_refines_example =
    add_refines sample_outside one (first ∷ []) 6 sample_config (lit "g") one-IsStore

rollback_found_example :
    let r = rolled_back sample_outside one 7 first in
    ((rollback sample_outside one 7 1).0 ≡ some r)
    × IsStore (rollback sample_outside one 7 1).1 (take one.ring.size (r ∷ first ∷ []))
    × (r.version ≡ one.next_version)
    × (r.config ≡ first.config)
    × (r.changes ≡ changes_since sample_outside (some first) first.config)
unfolding new_store
rollback_found_example = rollback_found sample_outside one (first ∷ []) 7 1 first one-IsStore refl

one_next : one.next_version ≡ 2
unfolding add new_store
one_next = refl

one_count : one.ring.count ≡ 1
unfolding add new_store put
one_count = refl

abbrev some_ops : List (Op Bytes ℕ)
some_ops = load 1 sample_config (lit "f") ∷ roll 2 1 ∷ roll 3 7 ∷ []

run-list_example :
    Numbered
      (run sample_outside (new_store (pos 2)) some_ops).next_version
      (list (run sample_outside (new_store (pos 2)) some_ops))
    × (length (list (run sample_outside (new_store (pos 2)) some_ops)) ≤ 2)
run-list_example = run-list sample_outside (pos 2) some_ops

abbrev event : ℕ → AuditEvent ℕ
event n = record {
  timestamp = n;
  type = lit "t";
  actor = lit "x";
  source = [];
  details = passed n;
  version = 0;
}

abbrev two_events : AuditLog ℕ ℕ
two_events = record { ring = put (put (new_ring 2) (event 1)) (event 2); handlers = 4 ∷ [] }

two_events-Holds : Holds two_events.ring (event 2 ∷ event 1 ∷ [])
unfolding put
two_events-Holds =
    put-Holds (put (new_ring 2) (event 1)) (event 2) (event 1 ∷ [])
      (put-Holds (new_ring 2) (event 1) [] (new_ring-Holds 2 (omega arith)))

abbrev up_to_one : AuditFilter
up_to_one = record { type = lit "t"; actor = []; since = 0; until = 1; limit = 3 }

query_lem_example : query two_events up_to_one ≡ take 3 (keep up_to_one (event 2 ∷ event 1 ∷ []))
query_lem_example = query_lem two_events up_to_one (event 2 ∷ event 1 ∷ []) two_events-Holds

calculate_changes-ids_example :
    let changes = calculate_changes sample_outside zero_config sample_config in
    (Memᴰ (lit "r") changes.rules_added ↔ (
      (names_rule (lit "r") sample_config.rules ≡ true)
      × (names_rule {R = Bytes} (lit "r") [] ≡ false)))
    × (Memᴰ (lit "r") changes.rules_removed ↔ (
        (names_rule {R = Bytes} (lit "r") [] ≡ true)
        × (names_rule (lit "r") sample_config.rules ≡ false)))
calculate_changes-ids_example =
    calculate_changes-ids sample_outside zero_config sample_config (lit "r")
      (λ ks k. ((λ m. m), λ m. m))
