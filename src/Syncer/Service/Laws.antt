-- ===== src/Syncer/Service/Laws.antt =====
-- The service of internal/syncer/syncer.go: what New sets up, and what a sync leaves behind.
use the_redirector.Base.{
  ℕ, ◌+◌, ◌<◌, ◌≡◌, Bool, Option, none, some, is_some, not, List, map, All, Bytes, Result, ok, err,
}
use the_redirector.Config as Configuration
use the_redirector.Syncer.Merge.{MergeReport, MergeError}
use the_redirector.Syncer.Push.{TargetConfig, PushRequest, Sent, PushError}
use the_redirector.Syncer.Service.{Syncer, SyncError, push_one, fetching_config, targets_failed}

-- The target with the health that its push shows.
pub checked_target : (TargetConfig → Option PushError) → TargetConfig → TargetConfig
checked_target push t = record t { healthy = not (is_some (push t)) }

module _ {R F S : Type 0} (send : TargetConfig → ℕ → PushRequest → Sent)
    (done : TargetConfig → ℕ → Bool) where
  -- Every target takes its push.
  abbrev pub AllTake : Syncer R F S → Type 0
  AllTake s = All (λ t. push_one send done s.cfg t ≡ none) s.cfg.targets

  -- The state keeps the configuration, the count of syncs, the time of the last.
  abbrev pub Keeps : Syncer R F S → Syncer R F S → Type 0
  Keeps s s' =
      (s'.current_config ≡ s.current_config)
      × (s'.sync_count ≡ s.sync_count)
      × (s'.last_sync_time ≡ s.last_sync_time)

  -- The targets have the health that their pushes show.
  abbrev pub IsChecked : Syncer R F S → Syncer R F S → Type 0
  IsChecked s s' = s'.cfg.targets ≡ map (checked_target (push_one send done s.cfg)) s.cfg.targets

  data PushOutcome (s s' : Syncer R F S) (e : Option SyncError) : Type 0 where
    taken :
        AllTake s
        → e ≡ none
        → Keeps s s'
        → IsChecked s s'
        → s'.sync_errors ≡ s.sync_errors
        → PushOutcome s s' e
    turned_down :
        (errors : List (Bytes × PushError))
        → ¬ AllTake s
        → e ≡ some (targets_failed errors)
        → Keeps s s'
        → IsChecked s s'
        → s.sync_errors < s'.sync_errors
        → PushOutcome s s' e

  -- What a sync does: the merge fails, and one error more is counted; or the merge succeeds and a
  -- target does not take its push, and more errors are counted; or all targets take it, and the
  -- merged configuration is the current one and one sync more is counted, at the time of the sync.
  pub data SyncOutcome (merged : Result MergeError (Configuration.Config R F)) (now : ℕ)
      (s s' : Syncer R F S) (e : Option SyncError) : Type 0 where
    not_merged :
        (x : MergeError)
        → merged ≡ err x
        → e ≡ some (fetching_config x)
        → Keeps s s'
        → s'.cfg ≡ s.cfg
        → s'.sync_errors ≡ s.sync_errors + 1
        → SyncOutcome merged now s s' e
    not_pushed :
        (c : Configuration.Config R F) (errors : List (Bytes × PushError))
        → merged ≡ ok c
        → ¬ AllTake s
        → e ≡ some (targets_failed errors)
        → Keeps s s'
        → IsChecked s s'
        → s.sync_errors < s'.sync_errors
        → SyncOutcome merged now s s' e
    synced :
        (c : Configuration.Config R F)
        → merged ≡ ok c
        → AllTake s
        → e ≡ none
        → s'.current_config ≡ some c
        → s'.sync_count ≡ s.sync_count + 1
        → s'.last_sync_time ≡ now
        → IsChecked s s'
        → s'.sync_errors ≡ s.sync_errors
        → SyncOutcome merged now s s' e

  -- The report of the merge is the last one; without one, the last one stays.
  pub data Reports (report : Option MergeReport) (s s' : Syncer R F S) : Type 0 where
    reported : (r : MergeReport) → report ≡ some r → s'.last_report ≡ some r → Reports report s s'
    not_reported : report ≡ none → s'.last_report ≡ s.last_report → Reports report s s'
