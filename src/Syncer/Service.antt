-- ===== src/Syncer/Service.antt =====
-- internal/syncer/syncer.go: the service: New, Sync, pushConfig and GetStatus. The sources are what
-- their factories make of their configuration, a value of a type `S`. Start runs Sync over and over.
pub mod Laws
pub mod Setup
use the_redirector.Base.{
  ℕ, zero, suc, ◌+◌, Bool, true, false, ◌&&◌, Option, none, some, List, [], ◌∷◌, ◌++◌, Bytes, lit,
  is_empty, length, format_nat, ℤ, pos, ltb, ◌==◌, if◌then◌else◌, Result, ok, err, ◌>>=◌, map,
}
use the_redirector.Base.Sort.{SortSlice}
use the_redirector.Config.{Engine}
use the_redirector.Config as Configuration
use the_redirector.Syncer.Merge.{
  SourceConfig, MergeConfig, MergeReport, MergeError, Fetch, fetch_and_merge,
}
use the_redirector.Syncer.Push.{
  TargetConfig, PushRequest, Sent, PushError, push_to_target, push_all,
}

-- Of the webhook, the configuration holds two more fields, which the service does not read.
pub record Config : Type 0 where
  pub sources : List SourceConfig
  pub targets : List TargetConfig
  pub merge : MergeConfig
  pub sync_interval : ℕ
  pub retry_attempts : ℤ
  pub retry_delay : ℕ

pub record Syncer (R F S : Type 0) : Type 0 where
  pub cfg : Config
  pub sources : List S
  pub current_config : Option (Configuration.Config R F)
  pub last_report : Option MergeReport
  pub sync_count : ℕ
  pub sync_errors : ℕ
  pub last_sync_time : ℕ

pub data NewError : Type 0 where
  requires_prefix : Bytes → NewError
  creating_source : Bytes → NewError

-- DefaultConfig, in nanoseconds
unfoldable pub default_config : Config
default_config = record {
  sources = [];
  targets = [];
  merge = record { conflict_resolution = []; validate_before_push = false; require_prefix = false };
  sync_interval = 60000000000;
  retry_attempts = pos 3;
  retry_delay = 1000000000;
}

unfoldable pub with_resolution : MergeConfig → MergeConfig
with_resolution m =
    if is_empty m.conflict_resolution then record m { conflict_resolution = lit "error" } else m

-- A source without a name gets one from its type and its place.
unfoldable pub named : ℕ → SourceConfig → SourceConfig
named i source =
    if is_empty source.name
    then record source { name = source.type ++ (lit "-" ++ format_nat i) }
    else source

-- The loop over the sources, from a place on. The error has the name that was given.
unfoldable pub name_sources : Bool → ℕ → List SourceConfig → Result NewError (List SourceConfig)
unfolding named
name_sources require_prefix i [] = ok []
name_sources require_prefix i (source ∷ rest) =
    if require_prefix && is_empty source.prefix
    then err (requires_prefix source.name)
    else name_sources require_prefix (i + 1) rest >>= λ named_rest. ok (named i source ∷ named_rest)

unfoldable pub create_sources :
    {S : Type 0} → (SourceConfig → Option S) → List SourceConfig → Result NewError (List S)
create_sources create [] = ok []
create_sources create (source ∷ rest) = elim (create source) [
  | none ↦ err (creating_source source.name)
  | some made ↦ create_sources create rest >>= λ more. ok (made ∷ more)
]

unfoldable pub with_timeout : TargetConfig → TargetConfig
with_timeout t = if t.timeout == 0 then record t { timeout = 10000000000 } else t

-- New, of a configuration that is not nil; createSource is given.
unfoldable pub new_syncer :
    {R F S : Type 0} → (SourceConfig → Option S) → Config → Result NewError (Syncer R F S)
unfolding with_resolution create_sources with_timeout
new_syncer create cfg = do
  named_sources ← name_sources cfg.merge.require_prefix 0 cfg.sources
  made ← create_sources create named_sources
  ok (record {
    cfg = record cfg {
      sources = named_sources;
      merge = with_resolution cfg.merge;
      targets = map with_timeout cfg.targets;
    };
    sources = made;
    current_config = none;
    last_report = none;
    sync_count = 0;
    sync_errors = 0;
    last_sync_time = 0;
  })

pub data SyncError : Type 0 where
  fetching_config : MergeError → SyncError
  targets_failed : List (Bytes × PushError) → SyncError

-- A report is stored, if there is one.
abbrev pub stored : Option MergeReport → Option MergeReport → Option MergeReport
stored none last = last
stored (some report) last = some report

module _ (send : TargetConfig → ℕ → PushRequest → Sent) (done : TargetConfig → ℕ → Bool) where
  -- The push to one target.
  unfoldable pub push_one : Config → TargetConfig → Option PushError
  push_one cfg target =
      (push_to_target cfg.retry_attempts cfg.retry_delay (send target) (done target) target).0

module _ {R F S : Type 0} where
  unfoldable pub push_failed :
      List (Bytes × PushError) → Syncer R F S → Option SyncError × Syncer R F S
  push_failed [] s = (none, s)
  push_failed (e ∷ errors) s = (
    some (targets_failed (e ∷ errors)),
    record s { sync_errors = s.sync_errors + length (e ∷ errors) },
  )

  unfoldable pub completed :
      ℕ
      → Configuration.Config R F
      → Option SyncError × Syncer R F S
      → Option SyncError × Syncer R F S
  completed now c (some e, s) = (some e, s)
  completed now c (none, s) = (
    none,
    record s { current_config = some c; sync_count = s.sync_count + 1; last_sync_time = now },
  )

module _ {R F S : Type 0} (send : TargetConfig → ℕ → PushRequest → Sent)
    (done : TargetConfig → ℕ → Bool) where
  -- pushConfig: what it pushes does not depend on the configuration.
  unfoldable pub push_config : Syncer R F S → Option SyncError × Syncer R F S
  unfolding push_failed
  push_config s =
      let (targets, errors) = push_all (push_one send done s.cfg) s.cfg.targets in
      push_failed errors (record s { cfg = record s.cfg { targets = targets } })

  unfoldable pub sync_merged :
      ℕ
      → Result MergeError (Configuration.Config R F)
      → Syncer R F S
      → Option SyncError × Syncer R F S
  unfolding completed
  sync_merged now (err e) s =
      (some (fetching_config e), record s { sync_errors = s.sync_errors + 1 })
  sync_merged now (ok c) s = completed now c (push_config s)

  -- Sync, with what the sources return in their order, and in the order of the answers.
  unfoldable pub sync :
      Engine R
      → SortSlice (SourceConfig × Configuration.Config R F)
      → ℕ
      → List (Fetch R F)
      → List (Fetch R F)
      → Syncer R F S
      → Option SyncError × Syncer R F S
  unfolding sync_merged
  sync engine sorting now fetched arrived s =
      let (result, report) = fetch_and_merge engine s.cfg.merge sorting now fetched arrived in
      sync_merged now result (record s { last_report = stored report s.last_report })

pub record TargetStatus : Type 0 where
  pub name : Bytes
  pub url : Bytes
  pub healthy : Bool

pub record SourceStatus : Type 0 where
  pub name : Bytes
  pub type : Bytes
  pub prefix : Bytes
  pub priority : ℤ

pub record Status : Type 0 where
  pub sync_count : ℕ
  pub sync_errors : ℕ
  pub last_sync_time : ℕ
  pub targets : List TargetStatus
  pub sources : List SourceStatus
  pub last_merge_report : Option MergeReport

target_status : TargetConfig → TargetStatus
target_status t = record { name = t.name; url = t.url; healthy = t.healthy }

source_status : SourceConfig → SourceStatus
source_status c = record { name = c.name; type = c.type; prefix = c.prefix; priority = c.priority }

-- GetStatus
unfoldable pub get_status : {R F S : Type 0} → Syncer R F S → Status
unfolding target_status source_status
get_status s = record {
  sync_count = s.sync_count;
  sync_errors = s.sync_errors;
  last_sync_time = s.last_sync_time;
  targets = map target_status s.cfg.targets;
  sources = map source_status s.cfg.sources;
  last_merge_report = s.last_report;
}
