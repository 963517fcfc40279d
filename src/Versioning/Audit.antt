-- ===== src/Versioning/Audit.antt =====
-- internal/versioning/audit.go: the audit log. A handler is a value of a type `H`; a call that
-- records an event returns, beside the event and the log, the handlers that it then calls with the
-- event. A time is a number, 0 the zero time. Recent and Query are asked for numbers that are not
-- negative.
pub mod Laws
use the_redirector.Base.{
  ℕ, zero, suc, ◌+◌, Bool, true, false, ◌&&◌, ◌||◌, not, Option, none, some, List, [], ◌∷◌, ◌++◌,
  length, Bytes, is_empty, ◌=s◌, ltb, leb, ◌==◌, if◌then◌else◌, ℤ, ltb_ℤ, pos, pos_part,
}
use the_redirector.Base.Ring.{Ring, new_ring, put, at, entries_from}
use the_redirector.Versioning.Changes.{ConfigChanges}
use the_redirector.Versioning.Store.{ConfigVersion}

-- What an event carries: what a caller passes, or the map that LogConfigChange makes.
pub data Details (D : Type 0) : Type 0 where
  passed : D → Details D
  config_change : ℕ → Bytes → ℕ → Bytes → Option ConfigChanges → Details D

pub record AuditEvent (D : Type 0) : Type 0 where
  pub timestamp : ℕ
  pub type : Bytes
  pub actor : Bytes
  pub source : Bytes
  pub details : Details D
  pub version : ℕ

-- events, maxSize, current and count are the ring's fields.
pub record AuditLog (D H : Type 0) : Type 0 where
  pub ring : Ring (AuditEvent D)
  pub handlers : List H

pub record AuditFilter : Type 0 where
  pub type : Bytes
  pub actor : Bytes
  pub since : ℕ
  pub until : ℕ
  pub limit : ℕ

module _ {D H : Type 0} where
  -- NewAuditLog
  unfoldable pub new_audit_log : ℤ → AuditLog D H
  new_audit_log max_size = record {
    ring = new_ring (if ltb_ℤ max_size (pos 1) then 1000 else pos_part max_size);
    handlers = [];
  }

  -- AddHandler
  unfoldable pub add_handler : AuditLog D H → H → AuditLog D H
  add_handler a h = record a { handlers = a.handlers ++ h ∷ [] }

  record_event : AuditLog D H → AuditEvent D → AuditEvent D × AuditLog D H × List H
  record_event a e = (e, record a { ring = put a.ring e }, a.handlers)

  -- Log
  unfoldable pub log :
      AuditLog D H → ℕ → Bytes → Bytes → Bytes → D → AuditEvent D × AuditLog D H × List H
  unfolding record_event
  log a now type actor source details = record_event a (record {
    timestamp = now;
    type = type;
    actor = actor;
    source = source;
    details = passed details;
    version = 0;
  })

  -- LogConfigChange
  unfoldable pub log_config_change :
      {R F : Type 0}
      → AuditLog D H
      → ℕ
      → Bytes
      → ConfigVersion R F
      → Bytes
      → Bytes
      → AuditEvent D × AuditLog D H × List H
  unfolding record_event
  log_config_change a now type v actor source = record_event a (record {
    timestamp = now;
    type = type;
    actor = actor;
    source = source;
    details = config_change v.version v.hash v.rules_count v.source v.changes;
    version = v.version;
  })

  -- Recent
  unfoldable pub recent : AuditLog D H → ℕ → List (AuditEvent D)
  recent a n = entries_from a.ring 0 (if ltb a.ring.count n then a.ring.count else n)

  -- Count
  unfoldable pub count : AuditLog D H → ℕ
  count a = a.ring.count

-- The filters of Query: the event is kept.
unfoldable pub passes : {D : Type 0} → AuditFilter → AuditEvent D → Bool
passes f e =
    not (not (is_empty f.type) && not (e.type =s f.type))
    && not (not (is_empty f.actor) && not (e.actor =s f.actor))
    && not (not (f.since == 0) && ltb e.timestamp f.since)
    && not (not (f.until == 0) && ltb f.until e.timestamp)

module _ {D H : Type 0} where
  -- The loop of Query, at slot `i` with so many rounds left.
  pub query_from : AuditLog D H → AuditFilter → ℕ → ℕ → List (AuditEvent D) → List (AuditEvent D)
  query_from a f i zero result = result
  query_from a f i (suc n) result = elim (at a.ring i) [
    | none ↦ query_from a f (i + 1) n result
    | some e ↦ elim (passes f e) [
      | false ↦ query_from a f (i + 1) n result
      | true ↦ elim (ltb 0 f.limit && leb f.limit (length (result ++ e ∷ []))) [
        | true ↦ result ++ e ∷ []
        | false ↦ query_from a f (i + 1) n (result ++ e ∷ [])
      ]
    ]
  ]

  -- Query
  unfoldable pub query : AuditLog D H → AuditFilter → List (AuditEvent D)
  unfolding query_from at
  query a f = query_from a f 0 a.ring.count []
