-- ===== src/Stats/Counts.antt =====
-- What the counters of a collector count, over any sequence of operations (internal/stats/stats.go).
use the_redirector.Base.{
  ℕ, ◌+◌, ◌≤◌, ◌≡◌, refl, ◌∙◌, ap, ap₂, ◌≢◌, Dict, Bool, true, false, ◌&&◌, some, List, [], ◌∷◌,
  Bytes, ◌=s◌, =s_iff, lookup, lookup-insert, arith, if◌then◌else◌, ℤ,
}
use the_redirector.Stats.{
  RequestRecord, RuleCounters, Config, Buckets, Collector, Floats, increment_status,
  update_rule_stats, update_latency_histogram, or_zero, counters_at, new_collector, record_request,
  enable, disable, reset,
}

pub data Op : Type 0 where
  recording : RequestRecord → Op
  enabling disabling : Op
  resetting : ℕ → Op

abbrev pub sum_buckets : Buckets → ℕ
sum_buckets b = b.b0 + b.b1 + b.b2 + b.b3 + b.b4 + b.b5

pub sum_counts : List (ℤ × ℕ) → ℕ
sum_counts [] = 0
sum_counts ((s, n) ∷ m) = n + sum_counts m

increment_status-sum :
    (m : List (ℤ × ℕ)) (s : ℤ) → sum_counts (increment_status m s) ≡ sum_counts m + 1
unfolding increment_status sum_counts
increment_status-sum [] s = refl
increment_status-sum ((t, n) ∷ m) s = ground (arith, increment_status-sum m s)

histogram-sum :
    (b : Buckets) (latency : ℕ)
    → sum_buckets (update_latency_histogram b latency) ≡ sum_buckets b + 1
unfolding update_latency_histogram
histogram-sum b latency = ground arith

abbrev bumped : Dict RuleCounters → Bytes → ℕ → RuleCounters
bumped m k latency = record {
  hits = (counters_at m k).hits + 1;
  total_latency = (counters_at m k).total_latency + latency;
}

update_rule_stats-hits :
    (m : Dict RuleCounters) (rule id : Bytes) (latency : ℕ)
    → id ≢ []
    → (counters_at (update_rule_stats m rule latency) id).hits
      ≡ (if rule =s id then (counters_at m id).hits + 1 else (counters_at m id).hits)
unfolding update_rule_stats ◌=s◌
update_rule_stats-hits m [] [] latency ne = absurd (ne refl)
update_rule_stats-hits m [] (b ∷ t) latency ne = refl
update_rule_stats-hits m (a ∷ s) id latency ne =
    ap (λ o. (or_zero o).hits) (lookup-insert m (a ∷ s) id (bumped m (a ∷ s) latency))
    ∙ choose ((a ∷ s) =s id) refl
  where
    choose :
        (b : Bool)
        → ((a ∷ s) =s id) ≡ b
        → (or_zero (if b then some (bumped m (a ∷ s) latency) else lookup m id)).hits
          ≡ (if b then (counters_at m id).hits + 1 else (counters_at m id).hits)
    choose true e = ap (λ k. (counters_at m k).hits + 1) ((=s_iff (a ∷ s) id).0 e)
    choose false e = refl

-- The requests of a rule that are recorded while the collector is on, since the last reset.
pub counted : Bytes → Bool → ℕ → List Op → ℕ
counted id on n [] = n
counted id on n (recording rec ∷ ops) =
    counted id on (if on && (rec.rule_id =s id) then n + 1 else n) ops
counted id on n (enabling ∷ ops) = counted id true n ops
counted id on n (disabling ∷ ops) = counted id false n ops
counted id on n (resetting now ∷ ops) = counted id on 0 ops

abbrev pub hits_of : {F : Type 0} → Collector F → Bytes → ℕ
hits_of c id = (counters_at c.rule_stats id).hits

module _ {F : Type 0} (floats : Floats F) where
  pub step : Collector F → Op → Collector F
  step c (recording rec) = record_request floats c rec
  step c enabling = enable c
  step c disabling = disable c
  step c (resetting now) = reset now c

  unfoldable pub run : Collector F → List Op → Collector F
  unfolding step
  run c [] = c
  run c (op ∷ ops) = run (step c op) ops

  -- The counters agree.
  pub record IsConsistent (c : Collector F) : Type 0 where
    pub buckets : sum_buckets c.latency_buckets ≡ c.total_requests
    pub statuses : sum_counts c.status_counts ≡ c.total_requests
    pub errors : c.total_errors ≤ c.total_requests

  record_request-IsConsistent :
      (c : Collector F) (rec : RequestRecord)
      → IsConsistent c
      → IsConsistent (record_request floats c rec)
  unfolding record_request
  record_request-IsConsistent c rec v = record {
    buckets = ground (arith, histogram-sum c.latency_buckets rec.latency_us, v.buckets);
    statuses = ground (arith, increment_status-sum c.status_counts rec.status, v.statuses);
    errors = ground (arith, v.errors);
  }

  step-IsConsistent : (c : Collector F) (op : Op) → IsConsistent c → IsConsistent (step c op)
  unfolding step enable disable reset sum_counts
  step-IsConsistent c (recording rec) v = record_request-IsConsistent c rec v
  step-IsConsistent c enabling v = record {
    buckets = v.buckets;
    statuses = v.statuses;
    errors = v.errors;
  }
  step-IsConsistent c disabling v = record {
    buckets = v.buckets;
    statuses = v.statuses;
    errors = v.errors;
  }
  step-IsConsistent c (resetting now) v = record {
    buckets = refl;
    statuses = refl;
    errors = omega arith;
  }

  run_keeps : (c : Collector F) (ops : List Op) → IsConsistent c → IsConsistent (run c ops)
  unfolding run
  run_keeps c [] v = v
  run_keeps c (op ∷ ops) v = run_keeps (step c op) ops (step-IsConsistent c op v)

  new_collector-IsConsistent :
      (now : ℕ) (cfg : Config F) → IsConsistent (new_collector floats now cfg)
  unfolding new_collector sum_counts
  new_collector-IsConsistent now cfg = record {
    buckets = refl;
    statuses = refl;
    errors = omega arith;
  }

  -- After any operations on a new collector, the latency buckets add up to the number of requests, so
  -- do the counts of the statuses, and there are no more errors than requests.
  pub run-IsConsistent :
      (now : ℕ) (cfg : Config F) (ops : List Op)
      → let c = run (new_collector floats now cfg) ops in
        (sum_buckets c.latency_buckets ≡ c.total_requests)
        × (sum_counts c.status_counts ≡ c.total_requests)
        × (c.total_errors ≤ c.total_requests)
  run-IsConsistent now cfg ops =
      let v = run_keeps (new_collector floats now cfg) ops (new_collector-IsConsistent now cfg) in
      (v.buckets, v.statuses, v.errors)

  record_request-hits :
      (c : Collector F) (rec : RequestRecord) (id : Bytes)
      → id ≢ []
      → (hits_of (record_request floats c rec) id
          ≡ (if c.enabled && (rec.rule_id =s id) then hits_of c id + 1 else hits_of c id))
        × ((record_request floats c rec).enabled ≡ c.enabled)
  unfolding record_request
  record_request-hits c rec id ne =
      ground (arith, update_rule_stats-hits c.rule_stats rec.rule_id id rec.latency_us ne)

  -- After any operations, the hits of a rule are those that the collector had, with the requests that
  -- were recorded while it was on; a reset starts from 0.
  pub run-hits :
      (c : Collector F) (ops : List Op) (id : Bytes)
      → id ≢ []
      → hits_of (run c ops) id ≡ counted id c.enabled (hits_of c id) ops
  unfolding run step counted enable disable reset lookup
  run-hits c [] id ne = refl
  run-hits c (recording rec ∷ ops) id ne =
      let (hits, on) = record_request-hits c rec id ne in
      run-hits (record_request floats c rec) ops id ne ∙ ap₂ (λ b n. counted id b n ops) on hits
  run-hits c (enabling ∷ ops) id ne = run-hits (enable c) ops id ne
  run-hits c (disabling ∷ ops) id ne = run-hits (disable c) ops id ne
  run-hits c (resetting now ∷ ops) id ne = run-hits (reset now c) ops id ne
