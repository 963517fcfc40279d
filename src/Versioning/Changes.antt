-- ===== src/Versioning/Changes.antt =====
-- internal/versioning/version.go: the difference of two configurations (calculateChanges and the
-- comparisons below it).
pub mod Laws
use the_redirector.Base.{
  ℕ, Bool, true, false, ◌&&◌, not, Option, none, some, List, [], ◌∷◌, map, Bytes, lit, ◌=s◌, Dict,
  lookup, insert, has_key, eqb_ℤ, if◌then◌else◌,
}
use the_redirector.Config.{
  MatchType, exact, prefix, regex, glob, unset, other, Rule, get_location, ServerConfig,
  StatsConfig, AuthConfig, Config,
}

pub record ConfigChanges : Type 0 where
  pub rules_added : List Bytes
  pub rules_removed : List Bytes
  pub rules_modified : List Bytes
  pub server_changed : Bool
  pub stats_changed : Bool
  pub auth_changed : Bool

-- What the package takes from outside.
pub record Outside (F : Type 0) : Type 0 where
  -- == on float64
  pub float_eq : F → F → Bool
  -- The keys of a map in the order in which `range` visits them.
  pub range_keys : List Bytes → List Bytes
  -- The text of the hash: sha256 over the JSON of the version, the number of rules and the server.
  pub digest : Bytes → ℕ → ServerConfig → Bytes

-- The string that a MatchType is.
abbrev type_text : MatchType → Bytes
type_text exact = lit "exact"
type_text prefix = lit "prefix"
type_text regex = lit "regex"
type_text glob = lit "glob"
type_text unset = []
type_text (other t) = t

abbrev bool_eq : Bool → Bool → Bool
bool_eq true b = b
bool_eq false b = not b

module _ {R : Type 0} where
  -- rulesEqual
  unfoldable pub rules_equal : Rule R → Rule R → Bool
  rules_equal a b =
      if not (a.id =s b.id && eqb_ℤ a.priority b.priority)
      then false
      else if not (
          type_text a.match.type =s type_text b.match.type
          && a.match.path =s b.match.path
          && a.match.pattern =s b.match.pattern
          && a.match.host =s b.match.host)
      then false
      else if not (
          eqb_ℤ a.redirect.status b.redirect.status
          && get_location a.redirect =s get_location b.redirect
          && a.redirect.body =s b.redirect.body)
      then false
      else true

  -- The map from the ids of the rules: a later rule replaces an earlier one with its id.
  pub rules_map : Dict (Rule R) → List (Rule R) → Dict (Rule R)
  rules_map m [] = m
  rules_map m (r ∷ rs) = rules_map (insert m r.id r) rs

  abbrev pub keys : Dict (Rule R) → List Bytes
  keys = map (λ e. e.0)

  -- The loop over the new rules: the ids that are not in the old map, and those of changed rules.
  pub added : Dict (Rule R) → List Bytes → List Bytes
  added old [] = []
  added old (id ∷ ids) = if has_key old id then added old ids else id ∷ added old ids

  modified_at : Option (Rule R) → Option (Rule R) → Bool
  modified_at (some old) (some new) = not (rules_equal old new)
  modified_at _ _ = false

  pub modified : Dict (Rule R) → Dict (Rule R) → List Bytes → List Bytes
  unfolding modified_at
  modified old new [] = []
  modified old new (id ∷ ids) =
      let rest = modified old new ids in
      if modified_at (lookup old id) (lookup new id) then id ∷ rest else rest

-- == on ServerConfig
server_equal : ServerConfig → ServerConfig → Bool
server_equal a b =
    eqb_ℤ a.port b.port
    && eqb_ℤ a.management_port b.management_port
    && a.read_timeout =s b.read_timeout
    && a.write_timeout =s b.write_timeout
    && a.idle_timeout =s b.idle_timeout
    && eqb_ℤ a.max_connections b.max_connections

module _ {F : Type 0} (outside : Outside F) where
  stats_equal : Option (StatsConfig F) → Option (StatsConfig F) → Bool
  stats_equal none none = true
  stats_equal none (some b) = false
  stats_equal (some a) none = false
  stats_equal (some a) (some b) =
      bool_eq a.enabled b.enabled
      && eqb_ℤ a.buffer_size b.buffer_size
      && outside.float_eq a.sampling_rate b.sampling_rate

-- authEqual
auth_equal : Option AuthConfig → Option AuthConfig → Bool
auth_equal none none = true
auth_equal none (some b) = false
auth_equal (some a) none = false
auth_equal (some a) (some b) = bool_eq a.enabled b.enabled

-- calculateChanges, of configurations that are not nil.
unfoldable pub calculate_changes :
    {R F : Type 0} → Outside F → Config R F → Config R F → ConfigChanges
unfolding rules_map added modified server_equal stats_equal auth_equal
calculate_changes outside old new =
    let old_rules = rules_map [] old.rules in
    let new_rules = rules_map [] new.rules in
    record {
      rules_added = added old_rules (outside.range_keys (keys new_rules));
      rules_removed = added new_rules (outside.range_keys (keys old_rules));
      rules_modified = modified old_rules new_rules (outside.range_keys (keys new_rules));
      server_changed = not (server_equal old.server new.server);
      stats_changed = not (stats_equal outside old.stats new.stats);
      auth_changed = not (auth_equal old.auth new.auth);
    }
