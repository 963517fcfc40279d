-- ===== src/Syncer/Merge.antt =====
-- internal/syncer/syncer.go: fetchAndMerge. What the sources return is given, in the order of the
-- sources and in the order in which the answers arrive; the second shows in the report only. Texts of
-- conflicts and warnings are kept as their parts.
pub mod Loop
pub mod Laws
pub mod Reference
pub mod Outcome
pub mod Conflicts
pub mod Unknown
use the_redirector.Base.{
  ℕ, Bool, true, false, ◌&&◌, ◌||◌, not, Option, none, some, List, [], ◌∷◌, ◌++◌, Bytes, lit,
  is_empty, ◌=s◌, has_prefix, Dict, lookup, insert, length, map, ltb, ℤ, pos, ltb_ℤ, eqb_ℤ,
  if◌then◌else◌, Result, ok, err,
}
use the_redirector.Base.Sort.{SortSlice}
use the_redirector.Config.{Engine, Match, Rule, ServerConfig, DefaultConfig, Config}
use the_redirector.Config.Load.{zero_config}
use the_redirector.Config.Validate.{ValidateError, validate}

pub record SourceConfig : Type 0 where
  pub name : Bytes
  pub type : Bytes
  pub prefix : Bytes
  pub priority : ℤ
  pub allowed_paths : List Bytes

pub record MergeConfig : Type 0 where
  pub conflict_resolution : Bytes
  pub validate_before_push : Bool
  pub require_prefix : Bool

pub record SourceContribution : Type 0 where
  pub name : Bytes
  pub type : Bytes
  pub prefix : Bytes
  pub rule_count : ℕ
  pub rule_ids : List Bytes
  pub fetched_at : ℕ
  pub error : Bytes

pub data Resolution : Type 0 where
  unresolved : Resolution
  by_priority by_first : Bytes → Resolution

pub record MergeConflict : Type 0 where
  pub path : Bytes
  pub sources : List Bytes
  pub rule_ids : List Bytes
  pub resolution : Resolution

-- The source, the id of its rule, and the rule's path.
pub record Warning : Type 0 where
  pub source : Bytes
  pub rule_id : Bytes
  pub path : Bytes

pub record MergeReport : Type 0 where
  pub sources : List SourceContribution
  pub total_rules : ℕ
  pub conflicts : List MergeConflict
  pub warnings : List Warning
  pub merged_at : ℕ

pub data MergeError : Type 0 where
  no_sources : MergeError
  merge_failed : ℕ → MergeError
  validation_failed : ValidateError → MergeError

-- What Fetch of a source returns: an error's text, or a configuration, which may be nil.
pub record Fetch (R F : Type 0) : Type 0 where
  pub source : SourceConfig
  pub outcome : Result Bytes (Option (Config R F))

-- The path, or the pattern, behind the host.
unfoldable pub path_key : Match → Bytes
path_key m =
    let base = if is_empty m.path then m.pattern else m.path in
    if is_empty m.host then base else m.host ++ (lit ":" ++ base)

module _ {R : Type 0} where
  abbrev pub key_of : Rule R → Bytes
  key_of rule = path_key rule.match

  -- removeRuleByPath
  unfoldable pub remove_rule_by_path : List (Rule R) → Bytes → List (Rule R)
  remove_rule_by_path [] key = []
  remove_rule_by_path (rule ∷ rules) key =
      let rest = remove_rule_by_path rules key in if key_of rule =s key then rest else rule ∷ rest

  -- The rule's id behind the source's prefix.
  unfoldable pub prefixed : SourceConfig → Rule R → Rule R
  prefixed source rule =
      if is_empty source.prefix
      then rule
      else record rule { id = source.prefix ++ (lit "/" ++ rule.id) }

  starts_at : Rule R → List Bytes → Bool
  starts_at rule [] = false
  starts_at rule (p ∷ ps) =
      if has_prefix rule.match.path p || has_prefix rule.match.pattern p
      then true
      else starts_at rule ps

  -- The source may define the rule.
  unfoldable pub is_allowed : SourceConfig → Rule R → Bool
  unfolding starts_at
  is_allowed source rule =
      if ltb 0 (length source.allowed_paths) then starts_at rule source.allowed_paths else true

add_rule_id : List SourceContribution → Bytes → Bytes → List SourceContribution
add_rule_id [] name id = []
add_rule_id (c ∷ cs) name id =
    if c.name =s name
    then record c { rule_ids = c.rule_ids ++ id ∷ [] } ∷ cs
    else c ∷ add_rule_id cs name id

-- The state of the loop: of merged its rules, server and defaults, the two maps, and of the report its
-- sources, conflicts and warnings.
pub record Merging (R : Type 0) : Type 0 where
  pub rules : List (Rule R)
  pub server : ServerConfig
  pub defaults : DefaultConfig
  pub path_to_source : Dict Bytes
  pub path_to_rule_id : Dict Bytes
  pub sources : List SourceContribution
  pub conflicts : List MergeConflict
  pub warnings : List Warning

text_or_empty : Option Bytes → Bytes
text_or_empty none = []
text_or_empty (some s) = s

module _ {R : Type 0} where
  -- The rule is added to the merged ones.
  unfoldable pub accept_rule : SourceConfig → Rule R → Merging R → Merging R
  unfolding add_rule_id
  accept_rule source rule m = record m {
    path_to_source = insert m.path_to_source (key_of rule) source.name;
    path_to_rule_id = insert m.path_to_rule_id (key_of rule) rule.id;
    rules = m.rules ++ rule ∷ [];
    sources = add_rule_id m.sources source.name rule.id;
  }

  conflict_of : Bytes → SourceConfig → Rule R → Merging R → Resolution → MergeConflict
  unfolding text_or_empty
  conflict_of existing source rule m resolution = record {
    path = key_of rule;
    sources = existing ∷ source.name ∷ [];
    rule_ids = text_or_empty (lookup m.path_to_rule_id (key_of rule)) ∷ rule.id ∷ [];
    resolution = resolution;
  }

  unfoldable pub report_conflict : MergeConflict → Merging R → Merging R
  report_conflict c m = record m { conflicts = m.conflicts ++ c ∷ [] }

  -- The switch over conflict_resolution; another value than the three adds the rule.
  unfoldable pub resolve : Bytes → Bytes → SourceConfig → Rule R → Merging R → Merging R
  unfolding conflict_of report_conflict accept_rule
  resolve resolution existing source rule m =
      if resolution =s lit "error"
      then report_conflict (conflict_of existing source rule m unresolved) m
      else if resolution =s lit "priority"
      then (let m' =
            report_conflict (conflict_of existing source rule m (by_priority source.name)) m in
          accept_rule source rule (record m' { rules = remove_rule_by_path m.rules (key_of rule) }))
      else if resolution =s lit "first"
      then report_conflict (conflict_of existing source rule m (by_first existing)) m
      else accept_rule source rule m

  -- An allowed rule, with its prefix.
  unfoldable pub merge_allowed : Bytes → SourceConfig → Rule R → Merging R → Merging R
  unfolding resolve accept_rule
  merge_allowed resolution source rule m = elim (lookup m.path_to_source (key_of rule)) [
    | none ↦ accept_rule source rule m
    | some existing ↦ resolve resolution existing source rule m
  ]

  unfoldable pub warn : SourceConfig → Rule R → Merging R → Merging R
  warn source rule m = record m {
    warnings =
        m.warnings
        ++ record { source = source.name; rule_id = rule.id; path = rule.match.path } ∷ [];
  }

  -- One rule of a source.
  unfoldable pub merge_rule : Bytes → SourceConfig → Merging R → Rule R → Merging R
  unfolding warn merge_allowed
  merge_rule resolution source m rule =
      if is_allowed source (prefixed source rule)
      then merge_allowed resolution source (prefixed source rule) m
      else warn source rule m

  unfoldable pub merge_rules : Bytes → SourceConfig → Merging R → List (Rule R) → Merging R
  merge_rules resolution source m [] = m
  merge_rules resolution source m (rule ∷ rules) =
      merge_rules resolution source (merge_rule resolution source m rule) rules

module _ {R : Type 0} where
  report_of : ℕ → Merging R → ℕ → MergeReport
  report_of now m total = record {
    sources = m.sources;
    total_rules = total;
    conflicts = m.conflicts;
    warnings = m.warnings;
    merged_at = now;
  }

module _ {R F : Type 0} where
  -- Server and defaults of the first source that has them.
  unfoldable pub copy_settings : Merging R → Config R F → Merging R
  copy_settings m c = record m {
    server =
        if eqb_ℤ m.server.port (pos 0) && not (eqb_ℤ c.server.port (pos 0))
        then c.server
        else m.server;
    defaults =
        if eqb_ℤ m.defaults.status_code (pos 0) && not (eqb_ℤ c.defaults.status_code (pos 0))
        then c.defaults
        else m.defaults;
  }

  -- The sources in the order of the merge.
  unfoldable pub merge_sources : Bytes → Merging R → List (SourceConfig × Config R F) → Merging R
  unfolding copy_settings
  merge_sources resolution m [] = m
  merge_sources resolution m ((source, c) ∷ rest) =
      merge_sources resolution (merge_rules resolution source (copy_settings m c) c.rules) rest

  contribution : ℕ → Fetch R F → SourceContribution
  contribution now f = record {
    name = f.source.name;
    type = f.source.type;
    prefix = f.source.prefix;
    rule_count = elim f.outcome [
      | err e ↦ 0
      | ok found ↦ elim found [ none ↦ 0 | some c ↦ length c.rules ]
    ];
    rule_ids = [];
    fetched_at = now;
    error = elim f.outcome [
      | err e ↦ e
      | ok found ↦ elim found [
        | none ↦ lit "source returned nil config without error"
        | some c ↦ []
      ]
    ];
  }

  -- The sources that returned a configuration.
  unfoldable pub with_config : List (Fetch R F) → List (SourceConfig × Config R F)
  with_config [] = []
  with_config (f ∷ fs) =
      let rest = with_config fs in
      elim f.outcome [
        | err e ↦ rest
        | ok found ↦ elim found [ none ↦ rest | some c ↦ (f.source, c) ∷ rest ]
      ]

  -- sort.Slice by the priorities
  unfoldable pub by_priorities :
      SortSlice (SourceConfig × Config R F)
      → List (SourceConfig × Config R F)
      → List (SourceConfig × Config R F)
  by_priorities sorting sources = sorting.sort (λ a b. ltb_ℤ a.0.priority b.0.priority) sources

  unfoldable pub start : ℕ → List (Fetch R F) → Merging R
  unfolding contribution
  start now arrived = record {
    rules = [];
    server = (zero_config {R = R} {F = F}).server;
    defaults = (zero_config {R = R} {F = F}).defaults;
    path_to_source = [];
    path_to_rule_id = [];
    sources = map (contribution now) arrived;
    conflicts = [];
    warnings = [];
  }

  -- The state behind the loop.
  unfoldable pub merge_fetched :
      SortSlice (SourceConfig × Config R F)
      → Bytes
      → ℕ
      → List (Fetch R F)
      → List (Fetch R F)
      → Merging R
  unfolding start
  merge_fetched sorting resolution now fetched arrived =
      merge_sources resolution (start now arrived) (by_priorities sorting (with_config fetched))

  unfoldable pub merged_config : Merging R → Config R F
  merged_config m = record zero_config {
    version = lit "merged";
    server = m.server;
    defaults = m.defaults;
    rules = m.rules;
  }

  module _ (engine : Engine R) (cfg : MergeConfig) where
    unfoldable pub checked : Config R F → Result MergeError (Config R F)
    checked c =
        if cfg.validate_before_push
        then elim (validate engine c) [ err e ↦ err (validation_failed e) | ok c' ↦ ok c' ]
        else ok c

    pub reported :
        ℕ
        → Merging R
        → Result MergeError (Config R F)
        → Result MergeError (Config R F) × Option MergeReport
    unfolding report_of
    reported now m (err e) = (err e, none)
    reported now m (ok c) = (ok c, some (report_of now m (length c.rules)))

    unfoldable pub finish_merge :
        ℕ → Merging R → Result MergeError (Config R F) × Option MergeReport
    unfolding report_of merged_config checked reported
    finish_merge now m =
        if cfg.conflict_resolution =s lit "error" && ltb 0 (length m.conflicts)
        then (err (merge_failed (length m.conflicts)), some (report_of now m 0))
        else reported now m (checked (merged_config m))

    -- fetchAndMerge, with the report that it stores, if it stores one.
    unfoldable pub fetch_and_merge :
        SortSlice (SourceConfig × Config R F)
        → ℕ
        → List (Fetch R F)
        → List (Fetch R F)
        → Result MergeError (Config R F) × Option MergeReport
    unfolding finish_merge
    fetch_and_merge sorting now [] arrived = (err no_sources, none)
    fetch_and_merge sorting now (f ∷ fs) arrived =
        finish_merge now (merge_fetched sorting cfg.conflict_resolution now (f ∷ fs) arrived)
