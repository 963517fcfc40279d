-- ===== src/Stats.antt =====
-- internal/stats/stats.go: the collector of request statistics. An operation takes the collector
-- and returns it anew; the atomic counters count far below their bound. A time is a number, 0 the
-- zero time, and a latency a number of microseconds. Sampling rates are values of a type `F` of
-- floating numbers.
pub mod Counts
use the_redirector.Base.{
  ℕ, zero, suc, ◌+◌, ◌-◌, ◌%◌, Bool, true, false, ◌&&◌, ◌||◌, not, Option, none, some, List, [],
  ◌∷◌, ◌++◌, map, take, length, get_elem?, set, replicate, Bytes, is_empty, Dict, lookup, insert,
  ltb, leb, ◌==◌, if◌then◌else◌, ℤ, pos, pos_part, ltb_ℤ, eqb_ℤ,
}

pub record RequestRecord : Type 0 where
  pub timestamp : ℕ
  pub path : Bytes
  pub host : Bytes
  pub status : ℤ
  pub rule_id : Bytes
  pub destination : Bytes
  pub latency_us : ℕ
  pub client_ip : Bytes

-- The value that make fills a slice of records with.
abbrev pub zero_record : RequestRecord
zero_record = record {
  timestamp = 0;
  path = [];
  host = [];
  status = pos 0;
  rule_id = [];
  destination = [];
  latency_us = 0;
  client_ip = [];
}

-- ruleStatsInternal
pub record RuleCounters : Type 0 where
  pub hits : ℕ
  pub total_latency : ℕ

pub record Config (F : Type 0) : Type 0 where
  pub enabled : Bool
  pub buffer_size : ℤ
  pub sampling_rate : F

-- latencyBuckets, by index.
pub record Buckets : Type 0 where
  pub b0 : ℕ
  pub b1 : ℕ
  pub b2 : ℕ
  pub b3 : ℕ
  pub b4 : ℕ
  pub b5 : ℕ

abbrev pub no_buckets : Buckets
no_buckets = record { b0 = 0; b1 = 0; b2 = 0; b3 = 0; b4 = 0; b5 = 0 }

pub record Collector (F : Type 0) : Type 0 where
  pub ring_buffer : List RequestRecord
  pub ring_head : ℕ
  pub ring_size : ℕ
  pub total_requests : ℕ
  pub total_errors : ℕ
  pub start_time : ℕ
  pub status_counts : List (ℤ × ℕ)
  pub rule_stats : Dict RuleCounters
  pub latency_buckets : Buckets
  pub sampling_rate : F
  pub sample_count : ℕ
  pub enabled : Bool

-- The operations on float64 that the package uses.
pub record Floats (F : Type 0) : Type 0 where
  pub one : F
  -- x <= 0 || x > 1
  pub out_of_range : F → Bool
  -- x < 1.0
  pub below_one : F → Bool
  -- int64(1.0 / x)
  pub interval : F → ℕ

-- incrementStatus
pub increment_status : List (ℤ × ℕ) → ℤ → List (ℤ × ℕ)
increment_status [] status = (status, 1) ∷ []
increment_status ((s, n) ∷ m) status =
    if eqb_ℤ s status then (s, n + 1) ∷ m else (s, n) ∷ increment_status m status

abbrev pub or_zero : Option RuleCounters → RuleCounters
or_zero (some c) = c
or_zero none = record { hits = 0; total_latency = 0 }

-- The counters of LoadOrStore: those of the rule, or new ones.
abbrev pub counters_at : Dict RuleCounters → Bytes → RuleCounters
counters_at m id = or_zero (lookup m id)

-- updateRuleStats
pub update_rule_stats : Dict RuleCounters → Bytes → ℕ → Dict RuleCounters
update_rule_stats m id latency =
    if is_empty id
    then m
    else insert m id (record {
      hits = (counters_at m id).hits + 1;
      total_latency = (counters_at m id).total_latency + latency;
    })

-- updateLatencyHistogram
pub update_latency_histogram : Buckets → ℕ → Buckets
update_latency_histogram b latency =
    if ltb latency 100
    then record b { b0 = b.b0 + 1 }
    else if ltb latency 500
    then record b { b1 = b.b1 + 1 }
    else if ltb latency 1000
    then record b { b2 = b.b2 + 1 }
    else if ltb latency 5000
    then record b { b3 = b.b3 + 1 }
    else if ltb latency 10000
    then record b { b4 = b.b4 + 1 }
    else record b { b5 = b.b5 + 1 }

module _ {F : Type 0} (floats : Floats F) where
  -- NewCollector
  unfoldable pub new_collector : ℕ → Config F → Collector F
  new_collector now cfg =
      let size = if ltb_ℤ (pos 0) cfg.buffer_size then pos_part cfg.buffer_size else 1000 in
      record {
        ring_buffer = replicate size zero_record;
        ring_head = 0;
        ring_size = size;
        total_requests = 0;
        total_errors = 0;
        start_time = now;
        status_counts = [];
        rule_stats = [];
        latency_buckets = no_buckets;
        sampling_rate =
            if floats.out_of_range cfg.sampling_rate then floats.one else cfg.sampling_rate;
        sample_count = 0;
        enabled = cfg.enabled;
      }

  -- Whether the request with this number is left out of the buffer.
  abbrev pub is_skipped : Collector F → ℕ → Bool
  is_skipped c count =
      floats.below_one c.sampling_rate && not (count % floats.interval c.sampling_rate == 0)

  -- Record
  unfoldable pub record_request : Collector F → RequestRecord → Collector F
  unfolding increment_status update_rule_stats update_latency_histogram
  record_request c rec =
      let count = c.sample_count + 1 in
      let counted = record c {
        total_requests = c.total_requests + 1;
        total_errors =
            if not (ltb_ℤ rec.status (pos 400)) then c.total_errors + 1 else c.total_errors;
        status_counts = increment_status c.status_counts rec.status;
        rule_stats = update_rule_stats c.rule_stats rec.rule_id rec.latency_us;
        latency_buckets = update_latency_histogram c.latency_buckets rec.latency_us;
        sample_count = count;
      } in
      if not c.enabled then c else if is_skipped c count then counted else record counted {
        ring_buffer = set c.ring_buffer c.ring_head rec;
        ring_head = (c.ring_head + 1) % c.ring_size;
      }

module _ {F : Type 0} where
  -- The loop of GetRecentRequests, `i` records behind the newest, with so many rounds left.
  pub requests_from : Collector F → ℕ → ℕ → List RequestRecord
  requests_from c i zero = []
  requests_from c i (suc n) =
      let rest = requests_from c (i + 1) n in
      elim (get_elem? c.ring_buffer ((c.ring_head + c.ring_size - 1 - i) % c.ring_size)) [
        | none ↦ []
        | some rec ↦ if rec.timestamp == 0 then [] else rec ∷ rest
      ]

  -- GetRecentRequests
  unfoldable pub get_recent_requests : Collector F → ℤ → List RequestRecord
  unfolding requests_from
  get_recent_requests c limit =
      if not c.enabled
      then []
      else requests_from c 0 (
          if not (ltb_ℤ (pos 0) limit) || ltb c.ring_size (pos_part limit)
          then c.ring_size
          else pos_part limit)

  -- GetRuleStats: the hits and the total latency, whose quotient the source adds.
  unfoldable pub get_rule_stats : Collector F → Bytes → Option RuleCounters
  get_rule_stats c id = lookup c.rule_stats id

  -- Enable, Disable
  unfoldable pub enable : Collector F → Collector F
  enable c = record c { enabled = true }

  unfoldable pub disable : Collector F → Collector F
  disable c = record c { enabled = false }

  -- Reset
  unfoldable pub reset : ℕ → Collector F → Collector F
  reset now c = record c {
    total_requests = 0;
    total_errors = 0;
    start_time = now;
    status_counts = [];
    rule_stats = [];
    latency_buckets = no_buckets;
    ring_buffer = replicate c.ring_size zero_record;
    ring_head = 0;
  }
