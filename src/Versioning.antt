-- ===== src/Versioning.antt =====
-- internal/versioning: the versions of the configuration (version.go) and the audit log (audit.go).
pub mod Changes
pub mod Store
pub mod Audit
