-- ===== src/Tests.antt =====
-- Runs of the model at concrete inputs.
mod Samples
mod Routes
mod Loads
mod History
mod Access
mod Limits
mod Lines
mod Serving
mod Syncing
mod Linting
