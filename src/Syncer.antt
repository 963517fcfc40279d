-- ===== src/Syncer.antt =====
-- internal/syncer/syncer.go: fetching and merging the sources, pushing to the targets, and the
-- webhook that starts both.
pub mod Merge
pub mod Push
pub mod Service
pub mod Webhook
