-- ===== src/Tests/Syncing.antt =====
-- The syncer at concrete sources, targets and webhooks.
use Prim.Native.Nat.{◌^◌}
use mathlib.Core.List.{Permᴰ}
use the_redirector.Base.{
  ℕ, ◌%◌, ◌≤◌, ◌≡◌, ◌↔◌, refl, true, false, none, some, Option, List, [], ◌∷◌, ◌++◌, Bytes, lit, ℤ,
  pos, ok, err, if◌then◌else◌, length, lookup, insert, ◌=s◌, ltb, arith,
}
use the_redirector.Base.Sort.{sort_stable, stable_sorting}
use the_redirector.Config.{exact, Config}
use the_redirector.Config.Load.{zero_config}
use the_redirector.Syncer.Merge.{
  SourceConfig, MergeConfig, merge_failed, Fetch, merge_fetched, fetch_and_merge, accept_rule,
  resolve, merge_allowed, merge_rule, merge_rules, copy_settings, merge_sources, by_priorities,
  with_config, remove_rule_by_path, path_key, prefixed, is_allowed, start, merged_config,
  finish_merge, checked, report_conflict,
}
use the_redirector.Syncer.Merge.Laws.{offered}
use the_redirector.Syncer.Merge.Reference.{keep_last, IsKeyed}
use the_redirector.Syncer.Merge.Outcome.{
  ByPriority, offers, resolves_priority, fetch_and_merge-rules,
}
use the_redirector.Syncer.Merge.Conflicts.{fetch_and_merge-conflicts}
use the_redirector.Syncer.Merge.Unknown.{IsUnknown, merge_fetched-unknown}
use the_redirector.Syncer.Push.{
  TargetConfig, PushRequest, Sent, not_sent, responded, do_push, push_to_target,
}
use the_redirector.Syncer.Push.Retries.{
  Succeeds, IsDoubling, push_to_target_iff, delays-push_to_target,
}
use the_redirector.Syncer.Service
use the_redirector.Syncer.Service.{Syncer, new_syncer, name_sources, stored}
use the_redirector.Syncer.Service.Setup.{IsSetUp, new_syncer-IsSetUp}
use the_redirector.Syncer.Webhook.{Hook, serve_hook, triggers_sync, validate_github_signature}
use the_redirector.Syncer.Webhook.Signature.{
  hex_encode, IsAuthentic, validate_github_signature-hex_encode, serve_hook_iff,
}
use the_redirector.Tests.Samples.{text_engine, rule_of}

abbrev source_of : Bytes → ℤ → SourceConfig
source_of name priority = record {
  name = name;
  type = lit "file";
  prefix = [];
  priority = priority;
  allowed_paths = [];
}

abbrev config_with : Bytes → Config Bytes ℕ
config_with id = record zero_config {
  rules = rule_of id exact (lit "a") (lit "/x") [] (pos 0) ∷ [];
}

-- Two sources with a rule for one path each, the first with the higher priority.
abbrev fetched : List (Fetch Bytes ℕ)
fetched =
    record { source = source_of (lit "s") (pos 2); outcome = ok (some (config_with (lit "r"))) }
    ∷ record { source = source_of (lit "t") (pos 1); outcome = ok (some (config_with (lit "q"))) }
    ∷ []

abbrev merging : Bytes → MergeConfig
merging resolution = record {
  conflict_resolution = resolution;
  validate_before_push = false;
  require_prefix = false;
}

abbrev kept : Config Bytes ℕ
kept = record (config_with (lit "r")) { version = lit "merged" }

fetch_and_merge-rules_example :
    (sources : List (SourceConfig × Config Bytes ℕ)) × Permᴰ sources (with_config fetched)
    × ByPriority sources
    × (kept.rules ≡ keep_last (offered sources))
    × IsKeyed kept.rules
unfolding fetch_and_merge finish_merge checked merged_config merge_fetched start merge_sources
    copy_settings merge_rules merge_rule merge_allowed resolve accept_rule report_conflict
    by_priorities sort_stable with_config lookup insert ◌=s◌ path_key remove_rule_by_path is_allowed
    prefixed stable_sorting
fetch_and_merge-rules_example =
    fetch_and_merge-rules text_engine (merging (lit "priority")) {keep = keep_last} stable_sorting 3
      fetched fetched kept resolves_priority refl

fetch_and_merge-conflicts_example :
    ((n : ℕ) × ((fetch_and_merge text_engine
          (merging (lit "error"))
          stable_sorting
          3
          fetched
          fetched).0
        ≡ err (merge_failed n)))
    ↔ (IsKeyed (offers stable_sorting fetched) → ⊥)
fetch_and_merge-conflicts_example =
    fetch_and_merge-conflicts text_engine (merging (lit "error")) stable_sorting 3 fetched fetched
      refl (λ e. cc)

misspelt : IsUnknown (lit "Priority")
unfolding ◌=s◌
misspelt = record { not_error = refl; not_priority = refl; not_first = refl }

merge_fetched-unknown_example :
    (merge_fetched stable_sorting (lit "Priority") 3 fetched fetched).rules
    ≡ offers stable_sorting fetched
merge_fetched-unknown_example = merge_fetched-unknown misspelt stable_sorting 3 fetched fetched

abbrev target : TargetConfig
target = record { name = lit "n"; url = lit "u"; api_key = lit "k"; timeout = 5; healthy = false }

-- The first attempt is not sent, the next are answered.
abbrev send : ℕ → PushRequest → Sent
send attempt request = if ltb attempt 1 then not_sent else responded (pos 200) []

push_to_target_iff_example :
    ((push_to_target (pos 2) 7 send (λ n. false) target).0 ≡ none)
    ↔ Succeeds 7 (λ attempt. do_push (send attempt) target) (λ n. false) 0 3
push_to_target_iff_example = push_to_target_iff 7 send (λ n. false) target 2

delays_example :
    let delays = (push_to_target (pos 2) 7 send (λ n. false) target).1 in
    IsDoubling (7 % 2 ^ 64) delays × (length delays ≤ 2)
delays_example = delays-push_to_target 7 send (λ n. false) target 2

abbrev service_config : Service.Config
service_config = record {
  sources = record (source_of [] (pos 1)) { prefix = lit "p" } ∷ [];
  targets = target ∷ [];
  merge = merging [];
  sync_interval = 9;
  retry_attempts = pos 2;
  retry_delay = 7;
}

abbrev create : SourceConfig → Option ℕ
create source = some 4

ready : (s : Syncer Bytes ℕ ℕ) × (new_syncer create service_config ≡ ok s)
unfolding new_syncer name_sources
ready = (_, refl)

new_syncer-IsSetUp_example : IsSetUp service_config ready.0
new_syncer-IsSetUp_example = new_syncer-IsSetUp create service_config ready.0 ready.1

abbrev mac : Bytes → Bytes → Bytes
mac secret body = 171 ∷ 5 ∷ []

validate_github_signature_example :
    validate_github_signature mac (lit "s") (lit "sha256=" ++ hex_encode (171 ∷ 5 ∷ [])) (lit "b")
    ≡ none
validate_github_signature_example =
    validate_github_signature-hex_encode mac (lit "s") (lit "b") (omega arith, (omega arith, tt))

abbrev hook : Hook
hook = record {
  is_post = true;
  body = some (lit "b");
  github_event = lit "push";
  gitlab_event = [];
  signature = lit "sha256=ab05";
  token = [];
}

serve_hook_iff_example : (serve_hook mac (lit "s") hook ≡ triggers_sync) ↔ (
    (hook.is_post ≡ true)
    × ((body : Bytes) × (hook.body ≡ some body) × IsAuthentic mac (lit "s") hook body))
serve_hook_iff_example = serve_hook_iff mac (lit "s") hook refl
